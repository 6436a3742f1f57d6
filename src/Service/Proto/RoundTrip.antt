-- ===== src/Service/Proto/RoundTrip.antt =====
-- What a message keeps when it is read into a dict and written back.
use Prim.Native.String.{[], ◌∷◌}
use mathlib.Core.List.{[], ◌∷◌}
use mts_true_tech_hack.Base.{String, ◌≡◌, refl, true, List, map, ◌++◌, if◌then◌else◌}
use mts_true_tech_hack.Base.Int.{ℤ}
use mts_true_tech_hack.Base.Result.{Result, ok, raise, bind-eq-ok, ok-injective, ◌>>=◌}
use mts_true_tech_hack.Text.{nonempty}
use mts_true_tech_hack.Json.{Json, null, str}
use mts_true_tech_hack.Spec.History.{Entry}
use mts_true_tech_hack.Graph.State.{PipelineState}
use mts_true_tech_hack.Service.Proto.{
  EntryMessage, StateMessage, read_entry, read_raw_context, state_with, proto_state_to_dict,
  string_field, write_entry, write_history, fits_int32, int32_field, write_raw_context,
  dict_to_proto_state,
}

target_back : (t : String) → string_field (if nonempty t then str t else null) ≡ ok t
target_back [] = refl
target_back (c ∷ t) = refl

pub write_entry-read_entry : (item : EntryMessage) → write_entry (read_entry item) ≡ ok item
write_entry-read_entry item = rw (target_back item.target) refl

pub write_history-map-read_entry :
    (items : List EntryMessage) → write_history (map read_entry items) ≡ ok items
write_history-map-read_entry [] = refl
write_history-map-read_entry (item ∷ items) =
    rw (write_entry-read_entry item, write_history-map-read_entry items) refl

-- What the writer makes of a history that ends in one more entry.
pub write_history-append :
    (items : List EntryMessage) (e : Entry) {written : List EntryMessage}
    → write_history (map read_entry items ++ e ∷ []) ≡ ok written
    → (item : EntryMessage) × (write_entry e ≡ ok item) × (written ≡ items ++ item ∷ [])
write_history-append [] e h =
    let (item, wrote, h') = bind-eq-ok (write_entry e) _ h in (item, wrote, cc)
write_history-append (i ∷ items) e h =
    let (first, wrote, h') = bind-eq-ok (write_entry (read_entry i)) _ h in
    let (rest, wrote_rest, h'') =
      bind-eq-ok (write_history (map read_entry items ++ e ∷ [])) _ h' in
    let (item, w, same) = write_history-append items e wrote_rest in
    let first_same : ok i ≡ ok first = rw (← write_entry-read_entry i) wrote in
    let head_same = ok-injective first_same in (item, w, cc)

pub int32_kept : (n : ℤ) → fits_int32 n ≡ true → int32_field n ≡ ok n
int32_kept n h = rw h refl

-- A message whose context decodes, and whose count of attempts is one that an int32 field holds, is
-- read into a dict and written back as it was, but for the context, which is printed anew, or left
-- out where it was absent or `null`.
pub dict_to_proto_state-proto_state_to_dict :
    (msg : StateMessage) (raw_context : Json)
    → read_raw_context msg.raw_context_json ≡ ok raw_context
    → fits_int32 msg.generation_attempt ≡ true
    → (proto_state_to_dict msg >>= dict_to_proto_state)
      ≡ ok (record msg { raw_context_json = write_raw_context raw_context })
unfolding proto_state_to_dict dict_to_proto_state
dict_to_proto_state-proto_state_to_dict msg raw_context decoded fits =
    rw (decoded, int32_kept _ fits, write_history-map-read_entry msg.clarification_history) refl

decoded_then {ℓ} :
    {B : Type ℓ} (msg : StateMessage) (v : Result Json) (f : PipelineState → Result B) {r : B}
    → ((v >>= (λ raw. ok (state_with msg raw))) >>= f) ≡ ok r
    → (raw : Json) × (v ≡ ok raw) × (f (state_with msg raw) ≡ ok r)
decoded_then msg (ok raw) f h = (raw, refl, h)
decoded_then msg (raise e) f h = cc

-- What goes on from a message that is read goes on from its dict.
pub proto_state_to_dict_then {ℓ} :
    {B : Type ℓ} (msg : StateMessage) (f : PipelineState → Result B) {r : B}
    → (proto_state_to_dict msg >>= f) ≡ ok r
    → (raw : Json) × (read_raw_context msg.raw_context_json ≡ ok raw)
      × (f (state_with msg raw) ≡ ok r)
unfolding proto_state_to_dict
proto_state_to_dict_then msg f h = decoded_then msg (read_raw_context msg.raw_context_json) f h

-- A history with one more entry is written as it was, with that entry at its end.
pub write_history-append_one :
    (items : List EntryMessage) (e : Entry) (item : EntryMessage)
    → write_entry e ≡ ok item
    → write_history (map read_entry items ++ e ∷ []) ≡ ok (items ++ item ∷ [])
write_history-append_one [] e item h = rw h refl
write_history-append_one (i ∷ items) e item h =
    rw (write_entry-read_entry i, write_history-append_one items e item h) refl
