-- ===== src/Base/Lists.antt =====
-- Lists: predicates by recursion, tests, and the operations that the program's loops use.
use Prim.Native.Nat.{ℕ, zero, suc}
use mathlib.Core.Path.{◌≡◌, refl}
use mathlib.Core.Logic.{◌⊎◌, inl, inr}
use mathlib.Core.Bool.{Bool, true, false, ◌||◌}
use mathlib.Core.Option.{Option, none, some}
use mathlib.Core.List.{List, [], ◌∷◌, ◌++◌, map}
use package.mts_true_tech_hack.Base.Tests.{if◌then◌else◌}

module _ {ℓ} {A : Type ℓ} where
  abbrev pub length : List A → ℕ
  length [] = 0
  length (x ∷ xs) = suc (length xs)

  abbrev pub take : ℕ → List A → List A
  take zero xs = []
  take (suc n) [] = []
  take (suc n) (x ∷ xs) = x ∷ take n xs

  abbrev pub any : (A → Bool) → List A → Bool
  any p [] = false
  any p (x ∷ xs) = p x || any p xs

  abbrev pub keep_if : (A → Bool) → List A → List A
  keep_if p [] = []
  keep_if p (x ∷ xs) = let rest = keep_if p xs in if p x then x ∷ rest else rest

  abbrev pub first : List A → Option A
  first [] = none
  first (x ∷ _) = some x

  abbrev pub last_or : A → List A → A
  last_or d [] = d
  last_or d (x ∷ xs) = last_or x xs

-- A predicate of every element, which computes to tuples, and one of some element.
abbrev pub All {ℓ κ} : {A : Type ℓ} → (A → Type κ) → List A → Type κ
All P [] = Unit
All P (x ∷ xs) = P x × All P xs

abbrev pub In : {A : Type 0} → A → List A → Type 0
In a [] = ⊥
In a (x ∷ xs) = (a ≡ x) ⊎ In a xs

abbrev pub concat_map {ℓ κ} : {A : Type ℓ} {B : Type κ} → (A → List B) → List A → List B
concat_map f [] = []
concat_map f (x ∷ xs) = f x ++ concat_map f xs

module _ {A : Type 0} (P : A → Type 0) where
  pub All-append : (xs ys : List A) → All P xs → All P ys → All P (xs ++ ys)
  All-append [] ys hx hy = hy
  All-append (x ∷ xs) ys (h, hx) hy = (h, All-append xs ys hx hy)

  pub All-concat_map :
      {B : Type 0} (Q : B → Type 0) (f : B → List A) (xs : List B)
      → ((b : B) → Q b → All P (f b))
      → All Q xs
      → All P (concat_map f xs)
  All-concat_map Q f [] step h = tt
  All-concat_map Q f (x ∷ xs) step (h, hs) =
      All-append (f x) (concat_map f xs) (step x h) (All-concat_map Q f xs step hs)

  pub All-map : {B : Type 0} (f : B → A) (xs : List B) → All (λ b. P (f b)) xs → All P (map f xs)
  All-map f [] h = tt
  All-map f (x ∷ xs) (h, hs) = (h, All-map f xs hs)

  pub All-weaken : (Q : A → Type 0) (xs : List A) → ((a : A) → Q a → P a) → All Q xs → All P xs
  All-weaken Q [] f h = tt
  All-weaken Q (x ∷ xs) f (h, hs) = (f x h, All-weaken Q xs f hs)

  pub All-keep_if : (p : A → Bool) (xs : List A) → All P xs → All P (keep_if p xs)
  All-keep_if p [] h = tt
  All-keep_if p (x ∷ xs) (h, hs) = keep (p x) (All-keep_if p xs hs)
    where
      keep :
          (b : Bool) → All P (keep_if p xs) → All P (if b then x ∷ keep_if p xs else keep_if p xs)
      keep true k = (h, k)
      keep false k = k

  pub All-In : {a : A} (xs : List A) → All P xs → In a xs → P a
  All-In [] h i = absurd i
  All-In (x ∷ xs) (h, hs) (inl e) = rw e h
  All-In (x ∷ xs) (h, hs) (inr i) = All-In xs hs i

pub All-of_In : {A : Type 0} (P : A → Type 0) (xs : List A) → ((a : A) → In a xs → P a) → All P xs
All-of_In P [] f = tt
All-of_In P (x ∷ xs) f = (f x (inl refl), All-of_In P xs (λ a i. f a (inr i)))
