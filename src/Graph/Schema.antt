-- ===== src/Graph/Schema.antt =====
-- The context schema of services/llm/graph.py: `_describe_value` to `_build_context_schema`.
use mts_true_tech_hack.Base.{
  ℕ, zero, suc, String, Bool, false, not, ◌||◌, Option, none, some, List, [], ◌∷◌, ◌++◌, length,
  ltb, leb, if◌then◌else◌,
}
use mts_true_tech_hack.Text.{◌⊕◌, is_one_of, join}
use mts_true_tech_hack.Json.{
  Json, null, bool, int, float, str, arr, obj, Items, nil, cons, Fields, end, field, get, truthy,
  is_obj,
}
use mts_true_tech_hack.Json.Show.{repr, decimal}
use mts_true_tech_hack.Json.Dumps.{dumps}
use mts_true_tech_hack.Spec.Policy.{workflow_root}

-- `_describe_value`
unfoldable pub describe_value : Json → String
describe_value (obj fs) = "object"
describe_value (arr xs) = "array"
describe_value (bool b) = "boolean"
describe_value (int n) = "number"
describe_value (float s) = "number"
describe_value (str s) = "string"
describe_value null = "null"

-- `_sample_scalar`
unfoldable pub sample_scalar : Json → Json
unfolding describe_value
sample_scalar (obj fs) = str (describe_value (obj fs))
sample_scalar (arr xs) = str (describe_value (arr xs))
sample_scalar v = v

-- At most the first `n` fields, with sampled values.
abbrev sample_fields : ℕ → Fields → Fields
sample_fields zero fs = end
sample_fields (suc n) end = end
sample_fields (suc n) (field k v fs) = field k (sample_scalar v) (sample_fields n fs)

-- `[str(key) for key in value.keys()][:12]`
abbrev first_keys : ℕ → Fields → Items
first_keys zero fs = nil
first_keys (suc n) end = nil
first_keys (suc n) (field k v fs) = cons (str k) (first_keys n fs)

abbrev count_items : Items → ℕ
count_items nil = 0
count_items (cons x xs) = suc (count_items xs)

abbrev first_item : Items → Json
first_item nil = null
first_item (cons x xs) = x

abbrev item_type : Json → String
item_type null = "unknown"
item_type v = describe_value v

abbrev pub max_paths : ℕ
max_paths = 50

abbrev is_full : List String → Bool
is_full lines = leb max_paths (length lines)

abbrev append_line : List String → String → List String
append_line lines line = lines ++ line ∷ []

-- The lines that a value adds by itself, before those of its children.
unfoldable pub object_lines : Fields → String → List String → List String
unfolding repr
object_lines fs path lines =
    append_line lines ("- " ⊕ path ⊕ ": object keys=" ⊕ repr (arr (first_keys 12 fs)))

unfoldable pub array_line : Items → String → List String → List String
unfolding describe_value decimal
array_line xs path lines =
    append_line lines (
      "- "
      ⊕ path
      ⊕ ": array len="
      ⊕ decimal (count_items xs)
      ⊕ " item="
      ⊕ item_type (first_item xs))

unfoldable pub sample_line : Json → List String → List String
unfolding dumps
sample_line sample lines = append_line lines ("  sample_item=" ⊕ dumps sample)

unfoldable pub scalar_line : Json → String → List String → List String
unfolding describe_value sample_scalar dumps
scalar_line v path lines =
    append_line lines ("- " ⊕ path ⊕ ": " ⊕ describe_value v ⊕ " sample=" ⊕ dumps (sample_scalar v))

unfoldable pub depth_line : Json → String → List String → List String
unfolding describe_value
depth_line v path lines = append_line lines ("- " ⊕ path ⊕ ": " ⊕ describe_value v)

-- The line of a list and of its first item, which is no object.
unfoldable pub plain_array_lines : Items → String → List String → List String
unfolding array_line sample_line sample_scalar
plain_array_lines nil path lines = array_line nil path lines
plain_array_lines (cons null xs) path lines = array_line (cons null xs) path lines
plain_array_lines (cons x xs) path lines =
    sample_line (sample_scalar x) (array_line (cons x xs) path lines)

-- `walk`, which is cut where the lines are full, and cut short below depth 5.
abbrev pub guarded : Json → String → ℕ → List String → List String → List String
guarded v path depth lines walked =
    if is_full lines then lines else if ltb 5 depth then depth_line v path lines else walked

unfoldable mutual
  unfolding object_lines array_line sample_line scalar_line depth_line plain_array_lines
      sample_scalar

  pub walk : Json → String → ℕ → List String → List String
  walk (obj fs) path depth lines =
      let walked = walk_fields fs 12 path depth (object_lines fs path lines) in
      guarded (obj fs) path depth lines walked
  walk (arr (cons (obj fs) xs)) path depth lines =
      let listed =
        sample_line (obj (sample_fields 12 fs)) (array_line (cons (obj fs) xs) path lines) in
      let walked = walk_fields fs 12 (path ⊕ "[]") depth listed in
      guarded (arr (cons (obj fs) xs)) path depth lines walked
  walk (arr xs) path depth lines =
      guarded (arr xs) path depth lines (plain_array_lines xs path lines)
  walk v path depth lines = guarded v path depth lines (scalar_line v path lines)

  pub walk_fields : Fields → ℕ → String → ℕ → List String → List String
  walk_fields end n path depth lines = lines
  walk_fields (field k v fs) zero path depth lines = lines
  walk_fields (field k v fs) (suc n) path depth lines =
      walk_fields fs n path depth (walk v (path ⊕ "." ⊕ k) (suc depth) lines)

abbrev is_filled_object : Json → Bool
is_filled_object (obj fs) = truthy (obj fs)
is_filled_object v = false

abbrev has_other_key : Fields → Bool
has_other_key end = false
has_other_key (field key v fs) =
    not (is_one_of ("vars" ∷ "initVariables" ∷ []) key) || has_other_key fs

abbrev walk_section : String → Json → List String → List String
walk_section path (obj fs) lines = walk (obj fs) path 0 lines
walk_section path v lines = lines

-- The lines of the two sections.
unfoldable pub schema_lines : Fields → List String
unfolding walk get
schema_lines wf =
    walk_section "wf.initVariables" (get "initVariables" wf)
      (walk_section "wf.vars" (get "vars" wf) [])

abbrev pub mark_truncated : List String → List String
mark_truncated lines = if is_full lines then append_line lines "- ... schema truncated" else lines

abbrev schema_text : List String → Option String
schema_text [] = none
schema_text (line ∷ lines) = some (join "\n" (mark_truncated (line ∷ lines)))

abbrev workflow_schema : Json → Option String
workflow_schema (obj wf) =
    if is_filled_object (get "vars" wf)
      || is_filled_object (get "initVariables" wf)
      || has_other_key wf
    then schema_text (schema_lines wf)
    else none
workflow_schema v = none

-- `_build_context_schema`
unfoldable pub build_context_schema : Json → Option String
unfolding schema_lines workflow_root get is_one_of join
build_context_schema raw_context =
    if is_obj raw_context then workflow_schema (workflow_root raw_context) else none
