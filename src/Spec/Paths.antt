-- ===== src/Spec/Paths.antt =====
-- The paths of a context and the choice among them: `_flatten_context_paths` and
-- `_candidate_parent_path` of services/llm/spec_logic.py.
pub mod Chosen
pub mod Flatten
use mts_true_tech_hack.Base.{
  ℕ, ◌+◌, ◌-◌, ◌*◌, String, Bool, not, ◌&&◌, Option, none, some, List, [], ◌∷◌, ◌++◌, map, length,
  keep_if, last_or, concat_map, ◌==◌, ltb, leb, eqb, if◌then◌else◌,
}
use mts_true_tech_hack.Base.Int.{ℤ, pos, ◌-ℤ◌, ltb_ℤ, leb_ℤ, eqb_ℤ}
use mts_true_tech_hack.Text.{
  ◌⊕◌, lower, ends_with, is_one_of, dedup, split_dots, count_dots, before_last_dot,
}
use mts_true_tech_hack.Json.{Json, arr, obj, Items, nil, cons, Fields, end, field}
use mts_true_tech_hack.Spec.Terms.{path_terms, descendant_terms}

-- `_flatten_context_paths`. The keys of a decoded object are texts, so no key is passed over.
unfoldable mutual
  unfolding dedup

  pub flatten_context_paths : Json → String → List String
  flatten_context_paths (obj fs) prefix = dedup (prefix ∷ flatten_fields fs prefix)
  flatten_context_paths (arr xs) prefix = dedup (prefix ∷ flatten_items xs prefix)
  flatten_context_paths _ prefix = prefix ∷ []

  pub flatten_items : Items → String → List String
  flatten_items nil prefix = []
  flatten_items (cons x xs) prefix = flatten_context_paths x prefix ++ flatten_items xs prefix

  pub flatten_fields : Fields → String → List String
  flatten_fields end prefix = []
  flatten_fields (field key value fs) prefix =
      flatten_context_paths value (prefix ⊕ "." ⊕ key) ++ flatten_fields fs prefix

abbrev pub field_concepts : List String
field_concepts =
    "name" ∷ "age" ∷ "status" ∷ "active" ∷ "price" ∷ "id" ∷ "discount" ∷ "markdown" ∷ "target"
    ∷ "date" ∷ []

-- `path.split(".")[-1].lower()`
unfoldable pub suffix_of : String → String
unfolding split_dots lower
suffix_of path = lower (last_or "" (split_dots path))

-- `by_suffix.get(term, [])`
unfoldable pub matches_of : List String → String → List String
unfolding suffix_of
matches_of paths term = keep_if (λ path. suffix_of path == term) paths

abbrev pub is_concrete : String → Bool
is_concrete path = leb 2 (count_dots path)

unfoldable pub concrete_matches : List String → String → List String
unfolding matches_of count_dots
concrete_matches paths term = keep_if is_concrete (matches_of paths term)

abbrev pub is_deep_field : String → String → Bool
is_deep_field term path = is_one_of field_concepts term && leb 3 (count_dots path)

-- The only path of its suffix, unless it is a field deep in the context.
abbrev pub single_match : String → List String → Option String
single_match term (path ∷ []) = if is_deep_field term path then none else some path
single_match term _ = none

abbrev pub or_next {ℓ} : {A : Type ℓ} → Option A → Option A → Option A
or_next none next = next
or_next (some a) next = some a

-- The first loop over the search terms.
unfoldable pub unique_path : List String → List String → Option String
unfolding concrete_matches is_one_of count_dots
unique_path paths [] = none
unique_path paths (term ∷ terms) =
    let next = unique_path paths terms in
    or_next (single_match term (concrete_matches paths term)) next

-- `len(search_terms & terms)` of two sets
unfoldable pub common_terms : List String → List String → ℕ
unfolding is_one_of
common_terms search_terms terms = length (keep_if (is_one_of terms) search_terms)

-- The paths of the greatest score and the score, from those so far.
unfoldable pub best_ambiguous : (String → ℕ) → List String → ℕ → List String → ℕ × List String
best_ambiguous score [] best best_paths = (best, best_paths)
best_ambiguous score (path ∷ paths) best best_paths =
    let higher = best_ambiguous score paths (score path) (path ∷ []) in
    let same = best_ambiguous score paths best (best_paths ++ path ∷ []) in
    let lower_score = best_ambiguous score paths best best_paths in
    if ltb best (score path) then higher else if eqb (score path) best then same else lower_score

-- The only text of the list, equal texts counted once.
abbrev pub only_text : List String → Option String
only_text (t ∷ []) = some t
only_text _ = none

unfoldable pub only_path : List String → Option String
unfolding dedup
only_path texts = only_text (dedup texts)

abbrev pub ambiguous_score : List String → List String → String → ℕ
ambiguous_score paths search_terms path =
    8 + 2 * common_terms search_terms (descendant_terms paths path)

unfoldable pub resolve_ambiguous : List String → List String → List String → Option String
unfolding best_ambiguous common_terms descendant_terms only_path
resolve_ambiguous paths search_terms concrete =
    let (best, best_paths) = best_ambiguous (ambiguous_score paths search_terms) concrete 0 [] in
    if ltb 8 best then only_path best_paths else none

-- The second loop: the first term with several paths ends the search, whatever comes out.
unfoldable pub ambiguous_path : List String → List String → List String → Option (Option String)
unfolding concrete_matches resolve_ambiguous
ambiguous_path paths search_terms [] = none
ambiguous_path paths search_terms (term ∷ terms) =
    let next = ambiguous_path paths search_terms terms in
    let concrete = concrete_matches paths term in
    let found = some (resolve_ambiguous paths search_terms concrete) in
    if ltb 1 (length concrete) then found else next

-- The third loop: the parents of the deep paths whose suffix is a search term.
unfoldable pub matched_parents : List String → List String → List String
unfolding matches_of count_dots before_last_dot
matched_parents paths terms =
    concat_map
      (λ term.
        map before_last_dot (keep_if (λ path. leb 3 (count_dots path)) (matches_of paths term)))
      terms

unfoldable pub common_parent : List String → Option String
unfolding only_path
common_parent parents = if leb 2 (length parents) then only_path parents else none

-- The last loop: what a search term adds to the score of a path.
unfoldable pub term_score : String → List String → List String → String → ℕ
unfolding is_one_of
term_score suffix own descendants term =
    if term == suffix
    then 8
    else if is_one_of own term
    then 5
    else if is_one_of descendants term
    then 2
    else 0

abbrev pub sum_scores : (String → ℕ) → List String → ℕ
sum_scores f [] = 0
sum_scores f (t ∷ ts) = f t + sum_scores f ts

unfoldable pub path_score : List String → List String → String → ℤ
unfolding suffix_of term_score path_terms descendant_terms count_dots is_one_of ◌-ℤ◌
path_score paths search_terms path =
    let suffix = suffix_of path in
    let dots = count_dots path in
    let score =
      sum_scores (term_score suffix (path_terms path) (descendant_terms paths path)) search_terms in
    let deep = if is_one_of search_terms suffix then 0 else (dots - 2) * 3 in
    let scalar = if is_one_of field_concepts suffix && leb 3 dots then 4 else 0 in
    pos score -ℤ pos deep -ℤ pos scalar

unfoldable pub best_scored : (String → ℤ) → List String → ℤ → List String → ℤ × List String
best_scored score [] best best_paths = (best, best_paths)
best_scored score (path ∷ paths) best best_paths =
    let higher = best_scored score paths (score path) (path ∷ []) in
    let same = best_scored score paths best (best_paths ++ path ∷ []) in
    let lower_score = best_scored score paths best best_paths in
    if ltb_ℤ best (score path)
    then higher
    else if eqb_ℤ (score path) best && ltb_ℤ (pos 0) (score path)
    then same
    else lower_score

unfoldable pub is_candidate : String → Bool
unfolding count_dots ends_with
is_candidate path =
    leb 2 (count_dots path) && not (ends_with path ".vars") && not (ends_with path ".initVariables")

unfoldable pub scored_path : List String → List String → Option String
unfolding best_scored path_score is_candidate only_path
scored_path paths search_terms =
    let (best, best_paths) =
      best_scored (path_score paths search_terms) (keep_if is_candidate paths) (pos 0) [] in
    if leb_ℤ best (pos 0) then none else only_path best_paths

abbrev pub or_return : Option (Option String) → Option String → Option String
or_return none next = next
or_return (some result) next = result

-- `_candidate_parent_path`, where `search_terms` lists the set in the order in which Python's
-- loops meet it.
unfoldable pub candidate_parent_path : List String → List String → Option String
unfolding unique_path ambiguous_path matched_parents common_parent scored_path
candidate_parent_path paths [] = none
candidate_parent_path paths (t ∷ ts) =
    let search_terms = t ∷ ts in
    or_next (unique_path paths search_terms) (
      or_return (ambiguous_path paths search_terms search_terms) (
        or_next (common_parent (matched_parents paths search_terms))
          (scored_path paths search_terms)))
