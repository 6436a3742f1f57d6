-- ===== src/Spec/Terms.antt =====
-- Texts, identifiers and search terms of services/llm/spec_logic.py. A Python set is a list of its
-- elements; where a loop runs over a set, its order is a parameter of the function with the loop.
use mts_true_tech_hack.Base.{
  ℕ, String, Bool, not, ◌&&◌, ◌||◌, Option, none, some, List, [], ◌∷◌, ◌++◌, map, concat_map,
  keep_if, ◌==◌, leb, if◌then◌else◌, starts_with,
}
use mts_true_tech_hack.Text.{
  ◌⊕◌, nonempty, or_else, strip, lower, contains_any, is_one_of, dedup, split_dots, drop_brackets,
  is_space,
}
use mts_true_tech_hack.Regex.{
  Regex, Match, one, seq, alt, star, group, word_boundary, is_word, ident, lit, maybe, plus,
  words_nocase, re_search, re_find_all, re_sub, re_split, group_of,
}
use mts_true_tech_hack.Json.{Json, null, str}
use mts_true_tech_hack.Json.Show.{show}

abbrev pub identifier_stopwords : List String
identifier_stopwords =
    "wf" ∷ "vars" ∷ "initvariables" ∷ "lua" ∷ "json" ∷ "table" ∷ "array" ∷ "object" ∷ "string"
    ∷ "value" ∷ "result" ∷ "return" ∷ "function" ∷ "code" ∷ "field" ∷ "fields" ∷ "element"
    ∷ "elements" ∷ "data" ∷ "context" ∷ "goal" ∷ "transform" ∷ "transformation" ∷ "convert"
    ∷ "generate" ∷ "greeting" ∷ "sort" ∷ "sorted" ∷ "descending" ∷ "ascending" ∷ "binary" ∷ "search"
    ∷ "fibonacci" ∷ "tree" ∷ "node" ∷ "red" ∷ "black" ∷ "unix" ∷ "timestamp" ∷ "time" ∷ "age"
    ∷ "first_name" ∷ "last_name" ∷ "role" ∷ []

abbrev pub concept_markers : List (String × List String)
concept_markers =
    (
      "users",
      "user" ∷ "users" ∷ "people" ∷ "person" ∷ "client" ∷ "clients" ∷ "пользов" ∷ "клиент" ∷ "люд"
          ∷ [],
    )
    ∷ ("orders", "order" ∷ "orders" ∷ "purchase" ∷ "purchases" ∷ "заказ" ∷ "покуп" ∷ [])
    ∷ ("products", "product" ∷ "products" ∷ "item" ∷ "items" ∷ "товар" ∷ "продукт" ∷ "позици" ∷ [])
    ∷ ("rows", "row" ∷ "rows" ∷ "record" ∷ "records" ∷ "строк" ∷ "запис" ∷ [])
    ∷ ("name", "name" ∷ "names" ∷ "first_name" ∷ "last_name" ∷ "имя" ∷ "имен" ∷ "назван" ∷ [])
    ∷ ("age", "age" ∷ "ages" ∷ "возраст" ∷ "старше" ∷ "младше" ∷ "лет" ∷ [])
    ∷ ("status", "status" ∷ "state" ∷ "статус" ∷ "состояни" ∷ [])
    ∷ ("active", "active" ∷ "enabled" ∷ "isactive" ∷ "актив" ∷ [])
    ∷ ("price", "price" ∷ "cost" ∷ "amount" ∷ "цена" ∷ "стоимост" ∷ "сумм" ∷ [])
    ∷ ("id", "id" ∷ "identifier" ∷ "идентификатор" ∷ [])
    ∷ ("discount", "discount" ∷ "скид" ∷ [])
    ∷ ("markdown", "markdown" ∷ "уцен" ∷ [])
    ∷ ("target", "target" ∷ "target_value" ∷ "целев" ∷ [])
    ∷ ("date", "date" ∷ "time" ∷ "timestamp" ∷ "дата" ∷ "время" ∷ [])
    ∷ []

-- `_clean_text`
unfoldable pub clean_text : Json → String
unfolding strip show
clean_text null = ""
clean_text (str s) = strip s
clean_text v = strip (show v)

-- A name between backquotes, or a name.
abbrev identifier_pattern : Regex
identifier_pattern = alt (seq (lit "`") (seq (group 1 ident) (lit "`"))) (group 2 ident)

-- `pair[0] or pair[1]`
abbrev identifier_of : Match → String
identifier_of m = or_else (group_of 1 m) (group_of 2 m)

-- `_extract_identifiers`
unfoldable pub extract_identifiers : String → List String
unfolding re_find_all group_of lower is_one_of dedup
extract_identifiers text = dedup (
    keep_if (λ ident. not (is_one_of identifier_stopwords (lower ident)))
      (map identifier_of (re_find_all identifier_pattern text)))

abbrev lower_or_digit : ℕ → Bool
lower_or_digit c = leb b'a' c && leb c b'z' || leb b'0' c && leb c b'9'

abbrev upper : ℕ → Bool
upper c = leb b'A' c && leb c b'Z'

abbrev hump_pattern : Regex
hump_pattern = seq (group 1 (one lower_or_digit)) (group 2 (one upper))

abbrev separator_pattern : Regex
separator_pattern = plus (one (λ c. not (lower_or_digit c || upper c)))

-- `_split_identifier`
unfoldable pub split_identifier : String → List String
unfolding re_sub re_split group_of lower
split_identifier value =
    let spaced = re_sub hump_pattern (λ m. group_of 1 m ⊕ " " ⊕ group_of 2 m) value in
    map lower (keep_if nonempty (re_split separator_pattern spaced))

-- The names of the concepts that the text speaks of.
unfoldable pub concepts_in : List (String × List String) → String → List String
unfolding contains_any
concepts_in [] lowered = []
concepts_in ((canonical, markers) ∷ concepts) lowered =
    let rest = concepts_in concepts lowered in
    if contains_any markers lowered then canonical ∷ rest else rest

abbrev is_search_term : String → Bool
is_search_term term = nonempty term && not (is_one_of identifier_stopwords term)

-- `_extract_search_terms`, the elements of the set that it returns
unfoldable pub extract_search_terms : String → List String
unfolding extract_identifiers split_identifier concepts_in lower dedup is_one_of
extract_search_terms text =
    let terms = map lower (extract_identifiers text) in
    dedup (
      keep_if is_search_term
        (terms ++ (concat_map split_identifier terms ++ concepts_in concept_markers (lower text))))

-- `wf\.(?:vars|initVariables)(?:\.[A-Za-z_][A-Za-z0-9_]*)+`
abbrev pub canonical_path : Regex
canonical_path =
    seq (lit "wf.") (seq (alt (lit "vars") (lit "initVariables")) (plus (seq (lit ".") ident)))

abbrev pub group_found : Option Match → Option String
group_found none = none
group_found (some m) = some (group_of 1 m)

-- `_extract_canonical_path`
unfoldable pub extract_canonical_path : String → Option String
unfolding re_search group_of
extract_canonical_path text =
    group_found (re_search (seq word_boundary (seq (group 1 canonical_path) word_boundary)) text)

-- A keyword, white space, and a name that may stand between backquotes.
abbrev hint_pattern : Regex → Regex
hint_pattern keyword =
    seq keyword
      (seq (plus (one is_space)) (seq (maybe (lit "`")) (seq (group 1 ident) (maybe (lit "`")))))

abbrev stem : String → Regex
stem w = seq (words_nocase (w ∷ [])) (star (one is_word))

abbrev hint_keywords : List Regex
hint_keywords =
    words_nocase ("variable" ∷ "object" ∷ "array" ∷ [])
    ∷ alt (stem "переменн") (alt (stem "объект") (stem "массив"))
    ∷ words_nocase ("sort" ∷ "filter" ∷ "group" ∷ "convert" ∷ "transform" ∷ "merge" ∷ [])
    ∷ words_nocase
        ("отсортируй" ∷ "сортируй" ∷ "фильтруй" ∷ "сгруппируй" ∷ "конвертируй" ∷ "преобразуй" ∷ [])
    ∷ []

abbrev or_next : Option String → Option String → Option String
or_next none next = next
or_next (some s) next = some s

unfoldable pub first_hint : List Regex → String → Option String
unfolding re_search group_of is_space is_word
first_hint [] text = none
first_hint (k ∷ ks) text =
    let next = first_hint ks text in or_next (group_found (re_search (hint_pattern k) text)) next

-- `_extract_entity_hint`
unfoldable pub extract_entity_hint : String → Option String
unfolding first_hint
extract_entity_hint text = first_hint hint_keywords text

-- `_path_terms`
unfoldable pub path_terms : String → List String
unfolding split_dots drop_brackets split_identifier is_one_of dedup
path_terms path = dedup (
    keep_if (λ t. nonempty t && not (is_one_of ("wf" ∷ "vars" ∷ "initvariables" ∷ []) t))
      (concat_map split_identifier (split_dots (drop_brackets path))))

-- `_descendant_terms`
unfoldable pub descendant_terms : List String → String → List String
unfolding path_terms dedup
descendant_terms paths candidate = dedup (
    concat_map path_terms
      (keep_if (λ path. path == candidate || starts_with path (candidate ⊕ ".")) paths))
