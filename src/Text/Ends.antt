-- ===== src/Text/Ends.antt =====
-- Texts at their two ends: what `strip`, `ends_with` and slices do to a text put together.
use Prim.Native.String.{[], ◌∷◌, count}
use text.Mathlib.TextLemmas.{nil-append, cons-append, length-cons}
use mts_true_tech_hack.Base.{
  Char, code, String, ◌≡◌, refl, sym, ap, ◌∙◌, true, false, eq_refl, Bool-cases, inl, inr, arith,
}
use mts_true_tech_hack.Text.{◌⊕◌, nonempty, is_space, lstrip, rstrip, strip, ends_with}
use mts_true_tech_hack.Regex.{take_chars}

-- A literal in front of a text, one character after the other.
abbrev pub spelled : String → String → String
spelled [] t = t
spelled (c ∷ s) t = c ∷ spelled s t

pub spelled-eq-append : (s t : String) → spelled s t ≡ s ⊕ t
spelled-eq-append [] t = sym (nil-append t)
spelled-eq-append (c ∷ s) t =
    ap (λ (u : String). c ∷ u) (spelled-eq-append s t) ∙ sym (cons-append c s t)

-- A text that ends in no blank.
pub record EndsBare (s : String) : Type 0 where
  pub bare : rstrip s ≡ s
  pub filled : nonempty s ≡ true

EndsBare-cons : (c : Char) (s : String) → EndsBare s → EndsBare (c ∷ s)
unfolding rstrip
EndsBare-cons c s h = record {
  bare = elim (Bool-cases (is_space (code c))) [
    | inl e ↦ rw (e, h.bare, h.filled) refl
    | inr e ↦ rw (e, h.bare) refl
  ];
  filled = refl;
}

pub EndsBare-append : (s t : String) → EndsBare t → EndsBare (s ⊕ t)
EndsBare-append [] t h = rw (nil-append t) h
EndsBare-append (c ∷ s) t h =
    rw (cons-append c s t) (EndsBare-cons c (s ⊕ t) (EndsBare-append s t h))

-- A text that neither begins nor ends in a blank is left as it is.
pub strip_bare :
    (c : Char) (s : String) → is_space (code c) ≡ false → EndsBare (c ∷ s) → strip (c ∷ s) ≡ c ∷ s
unfolding strip lstrip
strip_bare c s h e = rw h e.bare

ends_with-cons : (c : Char) (s t : String) → ends_with s t ≡ true → ends_with (c ∷ s) t ≡ true
unfolding ends_with
ends_with-cons c s t h = ground arith

-- An ending is one of every longer text.
pub ends_with-behind : (o s t : String) → ends_with s t ≡ true → ends_with (o ⊕ s) t ≡ true
ends_with-behind [] s t h = rw (nil-append s) h
ends_with-behind (c ∷ o) s t h =
    rw (cons-append c o s) (ends_with-cons c (o ⊕ s) t (ends_with-behind o s t h))

ends_with_itself : (t : String) → ends_with t t ≡ true
unfolding ends_with
ends_with_itself [] = refl
ends_with_itself (c ∷ t) = ground (arith, eq_refl (c ∷ t))

pub ends_with-append : (s t : String) → ends_with (s ⊕ t) t ≡ true
ends_with-append s t = ends_with-behind s t t (ends_with_itself t)

pub take_chars-append : (s t : String) → take_chars (count s) (s ⊕ t) ≡ s
unfolding take_chars
take_chars-append [] t = refl
take_chars-append (c ∷ s) t =
    rw (length-cons c s, cons-append c s t) (ap (λ (u : String). c ∷ u) (take_chars-append s t))
