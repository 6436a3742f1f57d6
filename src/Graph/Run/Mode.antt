-- ===== src/Graph/Run/Mode.antt =====
-- The mode that the code generator is asked in.
use mts_true_tech_hack.Base.{String, ◌≡◌, refl, ap, ◌∙◌, if_true, if◌then◌else◌}
use mts_true_tech_hack.Base.Int.{pos, ◌+ℤ◌}
use mts_true_tech_hack.Base.Result.{Result, ok, ◌>>=◌}
use mts_true_tech_hack.Text.{nonempty}
use mts_true_tech_hack.Json.{Json, str, obj, get, truthy}
use mts_true_tech_hack.Spec.Evaluate.{TaskMode, standalone, context_aware, NormalizedSpec}
use mts_true_tech_hack.Spec.Decision.{load_spec_json}
use mts_true_tech_hack.Graph.State.{PipelineState, Env}
use mts_true_tech_hack.Graph.Texts.{task_mode_name, spec_fields}
use mts_true_tech_hack.Graph.Nodes.{
  text_of, spec_text, request_of, decoded_spec, read_spec, task_mode_of, clarifier_node,
  ask_generator, generator_reply,
}
use mts_true_tech_hack.Graph.Run.Specs.{loads-spec_text, spec_text_filled, clarifier_node_spec}

spec_text_read :
    (sp : NormalizedSpec) → read_spec (text_of (spec_text sp)) ≡ ok (obj (spec_fields sp))
spec_text_read sp =
    if_true (nonempty (text_of (spec_text sp))) _ _ (spec_text_filled sp)
    ∙ ap decoded_spec (loads-spec_text sp)

mode_in :
    (sp : NormalizedSpec) → get "task_mode" (spec_fields sp) ≡ str (task_mode_name sp.task_mode)
unfolding spec_fields get
mode_in sp = refl

abbrev task_mode_of_value : Json → Result Json
task_mode_of_value v = ok (if truthy v then v else str "standalone")

mode_filled :
    (mode : TaskMode)
    → task_mode_of_value (str (task_mode_name mode)) ≡ ok (str (task_mode_name mode))
mode_filled standalone = refl
mode_filled context_aware = refl

mode_read :
    (sp : NormalizedSpec)
    → task_mode_of (obj (spec_fields sp)) ≡ ok (str (task_mode_name sp.task_mode))
mode_read sp = ap task_mode_of_value (mode_in sp) ∙ mode_filled sp.task_mode

chain :
    (call : Result Json) (f : Json → Result Json) (g : Json → Result String) {v w : Json}
    → call ≡ ok v
    → f v ≡ ok w
    → (call >>= λ v. f v >>= λ w. g w) ≡ g w
chain call f g {v} {w} h k =
    ap (λ (r : Result Json). r >>= λ v. f v >>= λ w. g w) h
    ∙ ap (λ (r : Result Json). r >>= λ w. g w) k

-- In a state with the spec text that the clarifier has left, the first attempt and every repair ask
-- the generator in the mode of the spec that the clarifier has decided on.
pub generator_reply_mode :
    (env : Env) (s t u : PipelineState)
    → clarifier_node env s ≡ ok t
    → u.spec_json ≡ t.spec_json
    → (sp : NormalizedSpec) × (load_spec_json env.set_order (request_of s) s.spec_json ≡ ok sp)
      × (generator_reply env u
          ≡ ask_generator env u (str (task_mode_name sp.task_mode)) (u.generation_attempt +ℤ pos 1))
unfolding generator_reply
generator_reply_mode env s t u h same =
    let (sp, loaded, held) = clarifier_node_spec env s t h in
    (
      sp,
      loaded,
      chain (read_spec (text_of u.spec_json)) task_mode_of
          (λ mode. ask_generator env u mode (u.generation_attempt +ℤ pos 1))
          (ap (λ spec_json. read_spec (text_of spec_json)) (same ∙ held) ∙ spec_text_read sp)
          (mode_read sp),
    )
