-- ===== src/Spec/Paths/Flatten.antt =====
-- The paths that `_flatten_context_paths` lists.
use text.Mathlib.TextLemmas.{append-nil, append_assoc}
use mts_true_tech_hack.Base.{
  String, ◌≡◌, ◌≢◌, refl, sym, ◌∙◌, inl, Bool, true, false, List, [], ◌∷◌, In, All, All-append,
  All-weaken, arith, eq_iff, if◌then◌else◌, ◌==◌,
}
use mts_true_tech_hack.Text.{◌⊕◌, without, dedup}
use mts_true_tech_hack.Json.{
  Json, null, bool, int, float, str, arr, obj, Items, nil, cons, Fields, end, field,
}
use mts_true_tech_hack.Spec.Paths.{flatten_context_paths, flatten_items, flatten_fields}
use mts_true_tech_hack.Spec.Paths.Chosen.{without-All, dedup-All}

-- The path goes on from the prefix.
abbrev pub Extends : String → String → Type 0
Extends prefix path = (rest : String) × (path ≡ prefix ⊕ rest)

Extends-deeper : (prefix more path : String) → Extends (prefix ⊕ more) path → Extends prefix path
Extends-deeper prefix more path (rest, e) = (more ⊕ rest, e ∙ append_assoc prefix more rest)

Extends-refl : (prefix : String) → Extends prefix prefix
Extends-refl prefix = ("", sym (append-nil prefix))

mutual
  unfolding flatten_context_paths

  flatten_context_paths-Extends :
      (v : Json) (prefix : String) → All (Extends prefix) (flatten_context_paths v prefix)
  flatten_context_paths-Extends (obj fs) prefix =
      dedup-All (Extends prefix) (prefix ∷ flatten_fields fs prefix)
        (Extends-refl prefix, flatten_fields-Extends fs prefix)
  flatten_context_paths-Extends (arr xs) prefix =
      dedup-All (Extends prefix) (prefix ∷ flatten_items xs prefix)
        (Extends-refl prefix, flatten_items-Extends xs prefix)
  flatten_context_paths-Extends null prefix = (Extends-refl prefix, tt)
  flatten_context_paths-Extends (bool b) prefix = (Extends-refl prefix, tt)
  flatten_context_paths-Extends (int n) prefix = (Extends-refl prefix, tt)
  flatten_context_paths-Extends (float t) prefix = (Extends-refl prefix, tt)
  flatten_context_paths-Extends (str t) prefix = (Extends-refl prefix, tt)

  flatten_items-Extends :
      (xs : Items) (prefix : String) → All (Extends prefix) (flatten_items xs prefix)
  flatten_items-Extends nil prefix = tt
  flatten_items-Extends (cons x xs) prefix =
      All-append (Extends prefix) (flatten_context_paths x prefix) (flatten_items xs prefix)
        (flatten_context_paths-Extends x prefix) (flatten_items-Extends xs prefix)

  flatten_fields-Extends :
      (fs : Fields) (prefix : String) → All (Extends prefix) (flatten_fields fs prefix)
  flatten_fields-Extends end prefix = tt
  flatten_fields-Extends (field key v fs) prefix =
      All-append (Extends prefix) (flatten_context_paths v (prefix ⊕ "." ⊕ key))
        (flatten_fields fs prefix)
        (All-weaken (Extends prefix) (Extends (prefix ⊕ "." ⊕ key))
          (flatten_context_paths v (prefix ⊕ "." ⊕ key))
          (λ path. Extends-deeper prefix ("." ⊕ key) path)
          (flatten_context_paths-Extends v (prefix ⊕ "." ⊕ key)))
        (flatten_fields-Extends fs prefix)

-- No path stands twice in the list.
abbrev pub Distinct : List String → Type 0
Distinct [] = Unit
Distinct (x ∷ xs) = All (λ y. y ≢ x) xs × Distinct xs

if-both :
    (t : String) (b : Bool) (x : String) (xs : List String)
    → (x == t) ≡ b
    → All (λ y. y ≢ t) xs
    → All (λ y. y ≢ t) (if b then xs else x ∷ xs)
if-both t true x xs e h = h
if-both t false x xs e h = (λ same. ground (arith, eq_iff x t), h)

without_removes : (t : String) (xs : List String) → All (λ y. y ≢ t) (without t xs)
unfolding without
without_removes t [] = tt
without_removes t (x ∷ xs) = if-both t (x == t) x (without t xs) refl (without_removes t xs)

if-Distinct :
    (b : Bool) (xs ys : List String) → Distinct xs → Distinct ys → Distinct (if b then xs else ys)
if-Distinct true xs ys h k = h
if-Distinct false xs ys h k = k

without-Distinct : (t : String) (xs : List String) → Distinct xs → Distinct (without t xs)
unfolding without
without-Distinct t [] h = tt
without-Distinct t (x ∷ xs) (fresh, h) =
    let rest = without-Distinct t xs h in
    if-Distinct (x == t) (without t xs) (x ∷ without t xs) rest
      (without-All (λ y. y ≢ x) t xs fresh, rest)

dedup-Distinct : (xs : List String) → Distinct (dedup xs)
unfolding dedup
dedup-Distinct [] = tt
dedup-Distinct (x ∷ xs) =
    (without_removes x (dedup xs), without-Distinct x (dedup xs) (dedup-Distinct xs))

flatten-Distinct : (v : Json) (prefix : String) → Distinct (flatten_context_paths v prefix)
unfolding flatten_context_paths
flatten-Distinct (obj fs) prefix = dedup-Distinct (prefix ∷ flatten_fields fs prefix)
flatten-Distinct (arr xs) prefix = dedup-Distinct (prefix ∷ flatten_items xs prefix)
flatten-Distinct null prefix = (tt, tt)
flatten-Distinct (bool b) prefix = (tt, tt)
flatten-Distinct (int n) prefix = (tt, tt)
flatten-Distinct (float t) prefix = (tt, tt)
flatten-Distinct (str t) prefix = (tt, tt)

flatten-In : (v : Json) (prefix : String) → In prefix (flatten_context_paths v prefix)
unfolding flatten_context_paths dedup
flatten-In (obj fs) prefix = inl refl
flatten-In (arr xs) prefix = inl refl
flatten-In null prefix = inl refl
flatten-In (bool b) prefix = inl refl
flatten-In (int n) prefix = inl refl
flatten-In (float t) prefix = inl refl
flatten-In (str t) prefix = inl refl

-- The paths of a value below a prefix all go on from the prefix, which is one of them, and none of
-- them is listed twice.
pub flatten_context_paths_lem :
    (v : Json) (prefix : String)
    → All (Extends prefix) (flatten_context_paths v prefix)
      × In prefix (flatten_context_paths v prefix)
      × Distinct (flatten_context_paths v prefix)
flatten_context_paths_lem v prefix =
    (flatten_context_paths-Extends v prefix, flatten-In v prefix, flatten-Distinct v prefix)
