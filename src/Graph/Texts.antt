-- ===== src/Graph/Texts.antt =====
-- The texts that services/llm/graph.py and services/llm/prompts.py send to the models and read back.
use mts_true_tech_hack.Base.{
  ℕ, ◌+◌, code, String, Bool, ◌&&◌, ◌||◌, Option, none, some, List, [], ◌∷◌, ◌++◌, ◌≡◌, refl, map,
  leb, if◌then◌else◌,
}
use mts_true_tech_hack.Base.Result.{Result}
use mts_true_tech_hack.Text.{◌⊕◌, nonempty, strip, join, is_space}
use mts_true_tech_hack.Regex.{
  Regex, eps, one, seq, star, lazy_star, group, lit, maybe, any_char, is_ch, re_search, group_of,
}
use mts_true_tech_hack.Json.{Json, str, bool, null, Fields, end, field}
use mts_true_tech_hack.Json.Show.{show}
use mts_true_tech_hack.Json.Loads.{loads}
use mts_true_tech_hack.Spec.Terms.{group_found}
use mts_true_tech_hack.Spec.Policy.{target_name}
use mts_true_tech_hack.Spec.History.{Entry}
use mts_true_tech_hack.Spec.Evaluate.{NormalizedSpec, TaskMode, standalone, context_aware}
use Prim.Native.String.{[], ◌∷◌}

abbrev count_chars : (ℕ → Bool) → String → ℕ
count_chars p [] = 0
count_chars p (c ∷ s) = let rest = count_chars p s in if p (code c) then rest + 1 else rest

abbrev is_cyrillic : ℕ → Bool
is_cyrillic c = leb 1024 c && leb c 1279

abbrev is_latin : ℕ → Bool
is_latin c = leb 65 c && leb c 90 || leb 97 c && leb c 122

-- `detect_language`
unfoldable pub detect_language : String → String
detect_language text =
    if leb (count_chars is_latin text) (count_chars is_cyrillic text) then "ru" else "en"

-- "```", an optional tag, white space that ends in a line break, the content, and "```" on a line.
abbrev fence : Regex → Regex
fence tag = seq (lit "```") (
    seq tag (
      seq (star (one is_space))
        (seq (one (is_ch 10)) (seq (group 1 (lazy_star (one any_char))) (lit "\n```")))))

abbrev first_of_three : Option String → Option String → String → String
first_of_three (some a) b c = strip a
first_of_three none (some b) c = strip b
first_of_three none none c = strip c

-- `_extract_code`
unfoldable pub extract_code : String → String
unfolding re_search group_of strip is_space
extract_code text =
    first_of_three (group_found (re_search (fence (lit "lua")) text))
      (group_found (re_search (fence eps) text)) text

abbrev fenced_or : Option String → String → String
fenced_or none stripped = stripped
fenced_or (some content) stripped = strip content

-- `_parse_json_response`
unfoldable pub parse_json_response : String → Result Json
unfolding re_search group_of strip is_space loads
parse_json_response text =
    let stripped = strip text in
    loads (fenced_or (group_found (re_search (fence (maybe (lit "json"))) stripped)) stripped)

abbrev optional_part : String → Option String → List String
optional_part title none = []
optional_part title (some s) = if nonempty s then (title ⊕ s) ∷ [] else []

abbrev history_line : Entry → String
history_line e = "Q: " ⊕ show e.question ⊕ "\nA: " ⊕ show e.answer

abbrev history_part : List Entry → List String
history_part [] = []
history_part (e ∷ es) =
    ("\n\nClarification dialogue:\n" ⊕ join "\n" (map history_line (e ∷ es))) ∷ []

-- `_build_spec_user_text`
unfoldable pub build_spec_user_text : String → Option String → List Entry → String
unfolding join show
build_spec_user_text request context_schema history = join "\n" (
    ("Request: " ⊕ request)
    ∷ (optional_part "\n\nContext schema summary:\n" context_schema ++ history_part history))

abbrev pub optional_text : Option String → Json
optional_text none = null
optional_text (some s) = str s

abbrev pub task_mode_name : TaskMode → String
task_mode_name standalone = "standalone"
task_mode_name context_aware = "context_aware"

-- The dict that `evaluate_spec` returns.
unfoldable pub spec_fields : NormalizedSpec → Fields
spec_fields s = field "goal" (str s.goal) (
    field "task_mode" (str (task_mode_name s.task_mode)) (
      field "input_path" (str s.input_path) (
        field "output_type" (str s.output_type) (
          field "transformation" (str s.transformation) (
            field "return_value" (str s.return_value) (
              field "spec_parse_failed" (bool s.spec_parse_failed) (
                field "clarification_required" (bool s.clarification_required) (
                  field "clarification_target" (str (target_name s.clarification_target)) (
                    field "clarification_question" (optional_text s.clarification_question) (
                      field "need_clarification" (bool s.need_clarification) (
                        field "clarification_reason" (optional_text s.clarification_reason)
                          end)))))))))))

fenced_code : extract_code "ok:\n```lua\nreturn 1\n```\nbye" ≡ "return 1"
unfolding extract_code
fenced_code = refl

bare_code : extract_code " return 2\n" ≡ "return 2"
unfolding extract_code
bare_code = refl

language : detect_language "Sort users" ≡ "en"
unfolding detect_language
language = refl
