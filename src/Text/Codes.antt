-- ===== src/Text/Codes.antt =====
-- Characters and their numbers: `chr` and `ord`.
use Prim.Native.Nat.{compare, Ordering}
use native.Mathlib.Omega.{compare-lt, compare-eq, compare-gt}
use Prim.Native.Char.{char, nul}
use mts_true_tech_hack.Base.{ℕ, ◌<◌, Char, code, ◌≡◌, refl, ◌⊎◌, inl, inr, ap, arith}
use mts_true_tech_hack.Text.{chr, Scalar, decide_scalar}

decide_scalar_lem :
    (o p q : Ordering) (make : Scalar o p q → Char) (other : Char) (x : Scalar o p q)
    → decide_scalar o p q make other ≡ make x
decide_scalar_lem Ordering.lt p q make other x = refl
decide_scalar_lem Ordering.eq Ordering.lt Ordering.lt make other x = refl
decide_scalar_lem Ordering.gt Ordering.lt Ordering.lt make other x = refl
decide_scalar_lem Ordering.eq Ordering.lt Ordering.eq make other x = absurd x
decide_scalar_lem Ordering.eq Ordering.lt Ordering.gt make other x = absurd x
decide_scalar_lem Ordering.gt Ordering.lt Ordering.eq make other x = absurd x
decide_scalar_lem Ordering.gt Ordering.lt Ordering.gt make other x = absurd x
decide_scalar_lem Ordering.eq Ordering.eq q make other x = absurd x
decide_scalar_lem Ordering.eq Ordering.gt q make other x = absurd x
decide_scalar_lem Ordering.gt Ordering.eq q make other x = absurd x
decide_scalar_lem Ordering.gt Ordering.gt q make other x = absurd x

pub chr-code : (c : Char) → chr (code c) ≡ c
chr-code (char n p) =
    decide_scalar_lem (compare n 55296) (compare 57343 n) (compare n 1114112) (char n) nul p

ranged :
    (n : ℕ) (o p q : Ordering)
    → compare n 55296 ≡ o
    → compare 57343 n ≡ p
    → compare n 1114112 ≡ q
    → Scalar o p q
    → (n < 55296) ⊎ ((57343 < n) × (n < 1114112))
ranged n Ordering.lt p q e₁ e₂ e₃ x = inl (compare-lt n 55296 e₁)
ranged n Ordering.eq Ordering.lt Ordering.lt e₁ e₂ e₃ x =
    inr (compare-lt 57343 n e₂, compare-lt n 1114112 e₃)
ranged n Ordering.gt Ordering.lt Ordering.lt e₁ e₂ e₃ x =
    inr (compare-lt 57343 n e₂, compare-lt n 1114112 e₃)
ranged n Ordering.eq Ordering.lt Ordering.eq e₁ e₂ e₃ x = absurd x
ranged n Ordering.eq Ordering.lt Ordering.gt e₁ e₂ e₃ x = absurd x
ranged n Ordering.gt Ordering.lt Ordering.eq e₁ e₂ e₃ x = absurd x
ranged n Ordering.gt Ordering.lt Ordering.gt e₁ e₂ e₃ x = absurd x
ranged n Ordering.eq Ordering.eq q e₁ e₂ e₃ x = absurd x
ranged n Ordering.eq Ordering.gt q e₁ e₂ e₃ x = absurd x
ranged n Ordering.gt Ordering.eq q e₁ e₂ e₃ x = absurd x
ranged n Ordering.gt Ordering.gt q e₁ e₂ e₃ x = absurd x

pub code_range : (c : Char) → (code c < 55296) ⊎ ((57343 < code c) × (code c < 1114112))
code_range (char n p) =
    ranged n (compare n 55296) (compare 57343 n) (compare n 1114112) refl refl refl p

is_below : (n : ℕ) (o p q : Ordering) → compare n 55296 ≡ o → n < 55296 → Scalar o p q
is_below n Ordering.lt p q e h = tt
is_below n Ordering.eq p q e h = absurd (omega (arith, compare-eq n 55296 e))
is_below n Ordering.gt p q e h = absurd (omega (arith, compare-gt n 55296 e))

pub code-chr : (n : ℕ) → n < 55296 → code (chr n) ≡ n
code-chr n h =
    let o = compare n 55296 in
    let p = compare 57343 n in
    let q = compare n 1114112 in
    ap code (decide_scalar_lem o p q (char n) nul (is_below n o p q refl h))
