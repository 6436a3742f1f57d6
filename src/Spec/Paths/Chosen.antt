-- ===== src/Spec/Paths/Chosen.antt =====
-- Where the path that `_candidate_parent_path` chooses comes from.
use mathlib.Core.Path.{subst}
use mts_true_tech_hack.Base.{
  ℕ, String, ◌≡◌, refl, ◌⊎◌, inl, inr, Bool, true, false, Option, none, some, List, [], ◌∷◌, ◌++◌,
  map, length, keep_if, In, All, All-append, All-concat_map, All-keep_if, All-of_In, ltb, leb, leb,
  eqb, if◌then◌else◌, ◌==◌, ◌&&◌,
}
use mts_true_tech_hack.Base.Int.{ℤ, pos, ltb_ℤ, leb_ℤ, eqb_ℤ}
use mts_true_tech_hack.Text.{without, dedup, count_dots, before_last_dot}
use mts_true_tech_hack.Spec.Paths.{
  suffix_of, matches_of, is_concrete, concrete_matches, is_deep_field, single_match, or_next,
  unique_path, best_ambiguous, ambiguous_score, only_text, only_path, resolve_ambiguous,
  ambiguous_path, matched_parents, common_parent, path_score, best_scored, is_candidate,
  scored_path, or_return, candidate_parent_path,
}

-- A path of the context, or the parent of one.
abbrev pub ComesFrom : List String → String → Type 0
ComesFrom paths path = In path paths ⊎ ((q : String) × In q paths × (path ≡ before_last_dot q))

-- The text that is found, if one is.
abbrev Found : (String → Type 0) → Option String → Type 0
Found P none = Unit
Found P (some p) = P p

module _ (P : String → Type 0) where
  if-All : (b : Bool) (xs ys : List String) → All P xs → All P ys → All P (if b then xs else ys)
  if-All true xs ys h k = h
  if-All false xs ys h k = k

  if-Found : (b : Bool) (x y : Option String) → Found P x → Found P y → Found P (if b then x else y)
  if-Found true x y h k = h
  if-Found false x y h k = k

  pub without-All : (t : String) (xs : List String) → All P xs → All P (without t xs)
  unfolding without
  without-All t [] h = tt
  without-All t (x ∷ xs) (h, hs) =
      let k = without-All t xs hs in if-All (x == t) (without t xs) (x ∷ without t xs) k (h, k)

  pub dedup-All : (xs : List String) → All P xs → All P (dedup xs)
  unfolding dedup
  dedup-All [] h = tt
  dedup-All (x ∷ xs) (h, hs) = (h, without-All x (dedup xs) (dedup-All xs hs))

  only_text-Found : (xs : List String) → All P xs → Found P (only_text xs)
  only_text-Found [] h = tt
  only_text-Found (x ∷ []) (h, hs) = h
  only_text-Found (x ∷ y ∷ xs) h = tt

  only_path-Found : (xs : List String) → All P xs → Found P (only_path xs)
  unfolding only_path
  only_path-Found xs h = only_text-Found (dedup xs) (dedup-All xs h)

  or_next-Found : (x y : Option String) → Found P x → Found P y → Found P (or_next x y)
  or_next-Found none y h k = k
  or_next-Found (some p) y h k = h

  single_match-Found :
      (term : String) (xs : List String) → All P xs → Found P (single_match term xs)
  single_match-Found term [] h = tt
  single_match-Found term (x ∷ []) (h, hs) = if-Found (is_deep_field term x) none (some x) tt h
  single_match-Found term (x ∷ y ∷ xs) h = tt

  second_if :
      {A : Type 0} (b : Bool) (x y : A × List String)
      → All P x.1
      → All P y.1
      → All P (if b then x else y).1
  second_if true x y h k = h
  second_if false x y h k = k

  best_ambiguous-All :
      (score : String → ℕ) (xs : List String) (best : ℕ) (found : List String)
      → All P xs
      → All P found
      → All P (best_ambiguous score xs best found).1
  unfolding best_ambiguous
  best_ambiguous-All score [] best found h k = k
  best_ambiguous-All score (x ∷ xs) best found (h, hs) k =
      second_if (ltb best (score x)) _ _ (best_ambiguous-All score xs (score x) (x ∷ []) hs (h, tt))
        (second_if (eqb (score x) best) _ _
          (best_ambiguous-All score xs best (found ++ x ∷ []) hs
            (All-append P found (x ∷ []) k (h, tt)))
          (best_ambiguous-All score xs best found hs k))

  best_scored-All :
      (score : String → ℤ) (xs : List String) (best : ℤ) (found : List String)
      → All P xs
      → All P found
      → All P (best_scored score xs best found).1
  unfolding best_scored
  best_scored-All score [] best found h k = k
  best_scored-All score (x ∷ xs) best found (h, hs) k =
      second_if (ltb_ℤ best (score x)) _ _ (best_scored-All score xs (score x) (x ∷ []) hs (h, tt))
        (second_if (eqb_ℤ (score x) best && ltb_ℤ (pos 0) (score x)) _ _
          (best_scored-All score xs best (found ++ x ∷ []) hs
            (All-append P found (x ∷ []) k (h, tt)))
          (best_scored-All score xs best found hs k))

  module _ (paths : List String) (known : All P paths) where
    concrete_matches-All : (term : String) → All P (concrete_matches paths term)
    unfolding concrete_matches matches_of
    concrete_matches-All term =
        All-keep_if P is_concrete (matches_of paths term)
          (All-keep_if P (λ path. suffix_of path == term) paths known)

    unique_path-Found : (terms : List String) → Found P (unique_path paths terms)
    unfolding unique_path
    unique_path-Found [] = tt
    unique_path-Found (t ∷ ts) =
        or_next-Found (single_match t (concrete_matches paths t)) (unique_path paths ts)
          (single_match-Found t (concrete_matches paths t) (concrete_matches-All t))
          (unique_path-Found ts)

    resolve_ambiguous-Found :
        (terms concrete : List String)
        → All P concrete
        → Found P (resolve_ambiguous paths terms concrete)
    unfolding resolve_ambiguous
    resolve_ambiguous-Found terms concrete h =
        let score = ambiguous_score paths terms in
        let best = best_ambiguous score concrete 0 [] in
        if-Found (ltb 8 best.0) (only_path best.1) none
          (only_path-Found best.1 (best_ambiguous-All score concrete 0 [] h tt)) tt

    -- A search that ends at a term, with a path or without.
    abbrev Ended : Option (Option String) → Type 0
    Ended none = Unit
    Ended (some o) = Found P o

    if-Ended :
        (b : Bool) (x y : Option (Option String)) → Ended x → Ended y → Ended (if b then x else y)
    if-Ended true x y h k = h
    if-Ended false x y h k = k

    ambiguous_path-Ended :
        (all_terms terms : List String) → Ended (ambiguous_path paths all_terms terms)
    unfolding ambiguous_path
    ambiguous_path-Ended all_terms [] = tt
    ambiguous_path-Ended all_terms (t ∷ ts) =
        let concrete = concrete_matches paths t in
        if-Ended (ltb 1 (length concrete)) (some (resolve_ambiguous paths all_terms concrete))
          (ambiguous_path paths all_terms ts)
          (resolve_ambiguous-Found all_terms concrete (concrete_matches-All t))
          (ambiguous_path-Ended all_terms ts)

    or_return-Found :
        (x : Option (Option String)) (y : Option String)
        → Ended x
        → Found P y
        → Found P (or_return x y)
    or_return-Found none y h k = k
    or_return-Found (some o) y h k = h

    common_parent-Found : (parents : List String) → All P parents → Found P (common_parent parents)
    unfolding common_parent
    common_parent-Found parents h =
        if-Found (leb 2 (length parents)) (only_path parents) none (only_path-Found parents h) tt

    scored_path-Found : (terms : List String) → Found P (scored_path paths terms)
    unfolding scored_path
    scored_path-Found terms =
        let score = path_score paths terms in
        let candidates = keep_if is_candidate paths in
        let best = best_scored score candidates (pos 0) [] in
        if-Found (leb_ℤ best.0 (pos 0)) none (only_path best.1) tt (
          only_path-Found best.1 (
            best_scored-All score candidates (pos 0) [] (All-keep_if P is_candidate paths known)
              tt))

anything : (xs : List String) → All (λ x. Unit {0}) xs
anything [] = tt
anything (x ∷ xs) = (tt, anything xs)

parents_of :
    (paths xs : List String)
    → All (λ x. In x paths) xs
    → All (ComesFrom paths) (map before_last_dot xs)
parents_of paths [] h = tt
parents_of paths (x ∷ xs) (h, hs) = (inr (x, h, refl), parents_of paths xs hs)

matched_parents-All :
    (paths terms : List String) → All (ComesFrom paths) (matched_parents paths terms)
unfolding matched_parents matches_of
matched_parents-All paths terms =
    All-concat_map (ComesFrom paths) (λ t. Unit {0}) _ terms
      (λ t h. parents_of paths _ (
        All-keep_if (λ x. In x paths) (λ path. leb 3 (count_dots path)) (matches_of paths t)
          (All-keep_if (λ x. In x paths) (λ path. suffix_of path == t) paths
            (All-of_In (λ x. In x paths) paths (λ a i. i)))))
      (anything terms)

candidate_parent_path-Found :
    (paths terms : List String) → Found (ComesFrom paths) (candidate_parent_path paths terms)
unfolding candidate_parent_path
candidate_parent_path-Found paths [] = tt
candidate_parent_path-Found paths (t ∷ ts) =
    let terms : List String = t ∷ ts in
    let P = ComesFrom paths in
    let known : All P paths = All-of_In P paths (λ a i. inl i) in
    or_next-Found P (unique_path paths terms) _ (unique_path-Found P paths known terms) (
      or_return-Found P paths known (ambiguous_path paths terms terms) _
        (ambiguous_path-Ended P paths known terms terms)
        (or_next-Found P (common_parent (matched_parents paths terms)) _
          (common_parent-Found P paths known (matched_parents paths terms)
            (matched_parents-All paths terms))
          (scored_path-Found P paths known terms)))

found : (P : String → Type 0) (o : Option String) {p : String} → Found P o → o ≡ some p → P p
found P none h e = cc
found P (some q) {p} h e = let same : q ≡ p = cc in subst P same h

-- The path that `_candidate_parent_path` chooses is one of the paths that it is given or the parent
-- of one of them, whatever the search terms and the order in which they are walked.
pub candidate_parent_path-ComesFrom :
    (paths search_terms : List String) {p : String}
    → candidate_parent_path paths search_terms ≡ some p
    → ComesFrom paths p
candidate_parent_path-ComesFrom paths search_terms h =
    found (ComesFrom paths) (candidate_parent_path paths search_terms)
      (candidate_parent_path-Found paths search_terms) h
