-- ===== src/Sandbox/Code.antt =====
-- What the sandbox makes of the user's code.
use mts_true_tech_hack.Base.{String, ◌≡◌, some, ap}
use mts_true_tech_hack.Text.{◌⊕◌, join}
use mts_true_tech_hack.Text.Ends.{spelled-eq-append}
use mts_true_tech_hack.Sandbox.{format_with, sandbox_code}
use mts_true_tech_hack.Sandbox.Frame.{lines_before, lines_after}

-- For every code the template's `format` gives the frame around that code, unchanged: the doubled
-- braces of the template come out single, and braces of the code stay as they are.
pub sandbox_code_lem :
    (clean_code : String)
    → sandbox_code clean_code ≡ some (join "" lines_before ⊕ clean_code ⊕ join "" lines_after)
unfolding sandbox_code format_with join
sandbox_code_lem clean_code =
    ap some (spelled-eq-append (join "" lines_before) (clean_code ⊕ join "" lines_after))

-- The script for a code.
abbrev pub framed : String → String
framed clean_code = join "" lines_before ⊕ clean_code ⊕ join "" lines_after
