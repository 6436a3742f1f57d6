-- ===== src/Frontend/Sidebar.antt =====
-- services/frontend/app.py: the context of the side bar, and what the rest of the script leaves alone.
use Prim.Native.String.{count}
use mathlib.Core.Path.{subst}
use mts_true_tech_hack.Base.{
  String, ◌≡◌, refl, sym, ap, ◌∙◌, Bool, true, false, not, ◌&&◌, Option, none, some, List,
  Bool-cases, ◌⊎◌, inl, inr, if◌then◌else◌, if_true, if_false, ◌*◌, ◌+◌,
}
use mts_true_tech_hack.Base.Result.{Result, ok, raise, json_decode_error, ok-injective, bind-eq-ok}
use mts_true_tech_hack.Text.{nonempty}
use mts_true_tech_hack.Json.{Json, null, bool, int, float, str, arr, obj, Fields, get, truthy}
use mts_true_tech_hack.Json.Loads.{
  Parse, refused, scanned, Refusal, no_json, long_int, surrogate, refusal,
  parse_value as parse_json, skip_blanks, whole_text, loads,
}
use mts_true_tech_hack.Frontend.Session.{
  PendingRequest, Session, parsed_context, rejected, sidebar, HttpResponse, call_backend,
  chat_disabled, submit,
}
use mts_true_tech_hack.Frontend.Reply.{parse_value, show_reply, settle}
use mts_true_tech_hack.Frontend.Script.{after_reply, after_call, process, chat, run_script}

-- What decoding comes to: a value, or the exception of a refusal.
whole_text-cases :
    (p : Parse Json)
    → ((v : Json) × (whole_text p ≡ ok v))
      ⊎ ((r : Refusal) × (whole_text p ≡ raise (refusal r)))
      ⊎ (whole_text p ≡ raise (json_decode_error "Extra data"))
whole_text-cases (refused r) = inr (inl (r, refl))
whole_text-cases (scanned (v, rest)) = elim (Bool-cases (nonempty (skip_blanks rest))) [
  | inl e ↦ inr (inr (if_true (nonempty (skip_blanks rest)) _ _ e))
  | inr e ↦ inl (v, if_false (nonempty (skip_blanks rest)) _ _ e)
]

loads-cases :
    (s : String)
    → ((v : Json) × (loads s ≡ ok v))
      ⊎ ((r : Refusal) × (loads s ≡ raise (refusal r)))
      ⊎ (loads s ≡ raise (json_decode_error "Extra data"))
unfolding loads
loads-cases s = whole_text-cases (parse_json (2 * count s + 2) (skip_blanks s))

-- The field's text and the context agree where the page calls the text valid; where it does not, the
-- context is the one before.
pub record InSync (s : Session) : Type 0 where
  pub in_sync : s.json_valid ≡ true → loads s.context_json ≡ ok (obj s.context_data)

-- What the side bar makes of a text.
pub record Read (input : String) (s t : Session) : Type 0 where
  pub synced : InSync t
  pub shown : t.context_json ≡ input
  pub kept : t.json_valid ≡ false → t.context_data ≡ s.context_data
  pub messages : t.messages ≡ s.messages
  pub pending_session_id : t.pending_session_id ≡ s.pending_session_id
  pub pending_request : t.pending_request ≡ s.pending_request

invalid :
    (input m : String) (s : Session) → Read input s (rejected m (record s { context_json = input }))
invalid input m s = record {
  synced = record { in_sync = λ v. cc };
  shown = refl;
  kept = λ v. refl;
  messages = refl;
  pending_session_id = refl;
  pending_request = refl;
}

valid :
    (input : String) (context : Fields) (s : Session)
    → loads input ≡ ok (obj context)
    → Read input s (record s {
      context_json = input;
      context_data = context;
      json_valid = true;
      json_error = "";
    })
valid input context s object = record {
  synced = record { in_sync = λ v. object };
  shown = refl;
  kept = λ v. cc;
  messages = refl;
  pending_session_id = refl;
  pending_request = refl;
}

parsed-Read :
    (input : String) (s : Session) (v : Json)
    → loads input ≡ ok v
    → (t : Session) × (parsed_context (record s { context_json = input }) (ok v) ≡ ok t)
      × Read input s t
parsed-Read input s (obj fs) h = (_, refl, valid input fs s h)
parsed-Read input s null h = (_, refl, invalid input _ s)
parsed-Read input s (bool b) h = (_, refl, invalid input _ s)
parsed-Read input s (int n) h = (_, refl, invalid input _ s)
parsed-Read input s (float x) h = (_, refl, invalid input _ s)
parsed-Read input s (str x) h = (_, refl, invalid input _ s)
parsed-Read input s (arr xs) h = (_, refl, invalid input _ s)

refused_read :
    (r : Refusal) (s : Session)
    → (m : String) × (parsed_context s (raise (refusal r)) ≡ ok (rejected m s))
refused_read no_json s = (_, refl)
refused_read long_int s = (_, refl)
refused_read surrogate s = (_, refl)

-- Whatever stands in the side bar's field, the script reads it without an exception: the text and the
-- context agree where the text is an object, an invalid text leaves the context as it was, and the
-- chat and the request stay as they are.
pub sidebar-Read :
    (input : String) (s : Session)
    → (t : Session) × (sidebar input (record s { context_json = input }) ≡ ok t) × Read input s t
unfolding sidebar
sidebar-Read input s = elim (loads-cases input) [
  | inl (v, h) ↦
      let (t, e, read) = parsed-Read input s v h in
      (t, ap (parsed_context (record s { context_json = input })) h ∙ e, read)
  | inr (inl (r, h)) ↦
      let (m, e) = refused_read r (record s { context_json = input }) in
      (_, ap (parsed_context (record s { context_json = input })) h ∙ e, invalid input m s)
  | inr (inr h) ↦ (_, ap (parsed_context (record s { context_json = input })) h, invalid input _ s)
]

-- No other part of the script touches the context.
record SameContext (s t : Session) : Type 0 where
  context_json : t.context_json ≡ s.context_json
  context_data : t.context_data ≡ s.context_data
  json_valid : t.json_valid ≡ s.json_valid

same_context : (s : Session) → SameContext s s
same_context s = record { context_json = refl; context_data = refl; json_valid = refl }

InSync-same : {s t : Session} → SameContext s t → InSync s → InSync t
InSync-same {s} {t} same h = record {
  in_sync = λ v.
      ap loads same.context_json
      ∙ h.in_sync (sym same.json_valid ∙ v)
      ∙ ap (λ (fs : Fields). ok (obj fs)) (sym same.context_data);
}

settled :
    (b : Bool) (parts others : List String) (pending other : Json) (s : Session)
    → SameContext s (if b then settle parts pending s else settle others other s)
unfolding settle
settled true parts others pending other s = record {
  context_json = refl;
  context_data = refl;
  json_valid = refl;
}
settled false parts others pending other s = record {
  context_json = refl;
  context_data = refl;
  json_valid = refl;
}

shown_same :
    (reply : Fields) (s : Session) {t : Session} → show_reply reply s ≡ ok t → SameContext s t
unfolding show_reply
shown_same reply s {t} h =
    let (code, read, h1) = bind-eq-ok (parse_value (get "code" reply)) _ h in
    let (question, asked, h2) = bind-eq-ok (parse_value (get "question" reply)) _ h1 in
    subst (SameContext s) (ok-injective h2) (settled (truthy (get "error" reply)) _ _ _ _ s)

replied :
    (s : Session) (r : Result Session)
    → ((t : Session) → r ≡ ok t → SameContext s t)
    → SameContext s (after_reply s r).0
replied s (ok t) h = h t refl
replied s (raise e) h = same_context s

called : (s : Session) (r : Result Fields) → SameContext s (after_call s r).0
called s (raise e) = record { context_json = refl; context_data = refl; json_valid = refl }
called s (ok reply) = replied s (show_reply reply s) (λ t. shown_same reply s)

processed :
    (post : Fields → Result HttpResponse) (r : Option PendingRequest) (s : Session)
    → SameContext s (process post r s).0
unfolding process
processed post none s = same_context s
processed post (some p) s = elim (Bool-cases p.inflight) [
  | inl e ↦ rw e (same_context s)
  | inr e ↦
      let flight : Session = record s { pending_request = some (record p { inflight = true }) } in
      let same = called flight (call_backend post p.payload) in
      rw e (record {
        context_json = same.context_json;
        context_data = same.context_data;
        json_valid = same.json_valid;
      })
]

chatted :
    (post : Fields → Result HttpResponse) (prompt : Option String) (s : Session)
    → SameContext s (chat post prompt s).0
unfolding chat submit
chatted post none s = processed post s.pending_request s
chatted post (some prompt) s = elim (Bool-cases (not (chat_disabled s) && nonempty prompt)) [
  | inl e ↦ rw e (record { context_json = refl; context_data = refl; json_valid = refl })
  | inr e ↦ rw e (processed post s.pending_request s)
]

-- After every run of the script, whatever was typed, sent or replied, the page calls the text valid
-- only where the context is the object that it decodes to.
pub run_script-InSync :
    (post : Fields → Result HttpResponse) (input : String) (prompt : Option String) (s : Session)
    → InSync (run_script post input prompt s).0
unfolding run_script
run_script-InSync post input prompt s =
    let (t, e, read) = sidebar-Read input s in
    rw e (InSync-same (chatted post prompt t) read.synced)
