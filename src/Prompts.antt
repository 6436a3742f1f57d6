-- ===== src/Prompts.antt =====
-- services/llm/prompts.py: the prompt texts that the pipeline uses, and the two functions that add the
-- mode and the language to them.
pub mod SpecAgent
pub mod Examples
pub mod Generate
pub mod Repair
use mathlib.Core.List.{◌++◌}
use mts_true_tech_hack.Base.{String, Bool, false, ◌==◌, if◌then◌else◌}
use mts_true_tech_hack.Text.{◌⊕◌, join}
use mts_true_tech_hack.Json.{Json, str}
use mts_true_tech_hack.Prompts.SpecAgent.{spec_agent_lines}
use mts_true_tech_hack.Prompts.Examples.{example_lines}
use mts_true_tech_hack.Prompts.Generate.{lines_before_examples, lines_after_examples}
use mts_true_tech_hack.Prompts.Repair.{repair_lines}

-- `SPEC_AGENT_PROMPT`
unfoldable pub spec_agent_prompt : String
unfolding join
spec_agent_prompt = join "" spec_agent_lines

-- `_GENERATE_BASE_PROMPT`
unfoldable pub generate_base_prompt : String
unfolding join
generate_base_prompt = join "" (lines_before_examples ++ example_lines ++ lines_after_examples)

-- `_REPAIR_BASE_PROMPT`
unfoldable pub repair_base_prompt : String
unfolding join
repair_base_prompt = join "" repair_lines

abbrev lang_name : String → String
lang_name dialog_language = if dialog_language == "ru" then "Russian" else "English"

abbrev prompt_with : String → String → String → String
prompt_with base guidance dialog_language =
    base
    ⊕ "\n\n"
    ⊕ guidance
    ⊕ "\n"
    ⊕ "\n\ndialog_language: "
    ⊕ dialog_language
    ⊕ "\n"
    ⊕ "Write any comments or user-facing strings in "
    ⊕ lang_name dialog_language
    ⊕ "."

abbrev is_context_aware : Json → Bool
is_context_aware (str s) = s == "context_aware"
is_context_aware v = false

-- `make_generate_prompt`
unfoldable pub make_generate_prompt : String → Json → String
make_generate_prompt dialog_language task_mode =
    prompt_with generate_base_prompt
      (if is_context_aware task_mode
        then "Current task_mode: context_aware. Prefer exact workflow paths and real context fields."
        else "Current task_mode: standalone. Do not access workflow context unless the spec explicitly provides an input_path.")
      dialog_language

-- `make_repair_prompt`
unfoldable pub make_repair_prompt : String → Json → String
make_repair_prompt dialog_language task_mode =
    prompt_with repair_base_prompt
      (if is_context_aware task_mode
        then "Current task_mode: context_aware. Preserve exact workflow context usage."
        else "Current task_mode: standalone. Keep the code independent from workflow context.")
      dialog_language
