-- ===== src/Listener/Generic.antt =====
-- pkg/listener/generic/generic.go: the listener that takes events on a path of its own. `Start` binds
-- the address and serves; what it serves is `handle_push`.
use event_reactor.Base.{
  ℕ, true, String, ◌==◌, if◌then◌else◌, ◌≡◌, ◌≢◌, ◌⊎◌, refl, arith, inl, inr, eq_iff, Bool-cases,
}
use event_reactor.Base.Int.{ℤ}
use event_reactor.Base.Dict.{is_empty}
use event_reactor.Base.Result.{Result, ok, err}
use event_reactor.Base.Value.{Fields, object}
use event_reactor.Message.{
  Codec, Event, empty_event, extract_attributes, MessageError, from_generic_payload,
}
use event_reactor.Api.{is_push, handle_event, dispatched, reply_to}

pub record GenericListener : Type 0 where
  pub name : String
  pub host : String
  pub port : ℤ
  pub path : String

-- `New`, on the fields of a `Config`, which are those of the listener.
unfoldable pub new : GenericListener → GenericListener
new cfg = record cfg { path = if is_empty cfg.path then "/events" else cfg.path }

pub data PushError : Type 0 where
  method_not_allowed invalid_json : PushError
  invalid_event : MessageError → PushError

-- The status that is sent, with the error or the event on which the handler was called.
pub data Pushed : Type 0 where
  rejected : ℕ → PushError → Pushed
  accepted : ℕ → Event → Pushed

abbrev pub pushed : Result MessageError Event → Pushed
pushed (err e) = rejected 400 (invalid_event e)
pushed (ok ev) = accepted 202 ev

-- `decoded` is what decoding the body gives.
unfoldable pub handle_push : Codec → ℕ → (method : String) → Result String Fields → Pushed
handle_push codec now method (err e) =
    if method == "POST" then rejected 400 invalid_json else rejected 405 method_not_allowed
handle_push codec now method (ok payload) =
    if method == "POST"
    then pushed (from_generic_payload codec now (object payload))
    else rejected 405 method_not_allowed

-- A request of another method is refused with 405 and a body that is no JSON object with 400. Any
-- other is accepted with the body as the payload of an event, the one that POST /events dispatches for
-- the same body if that is no Pub/Sub push.
pub handle_push_cases :
    (codec : Codec) (now : ℕ) (method : String) (decoded : Result String Fields)
    → ((method ≢ "POST") × (handle_push codec now method decoded ≡ rejected 405 method_not_allowed))
      ⊎ ((method ≡ "POST")
          × ((e : String) × (decoded ≡ err e))
          × (handle_push codec now method decoded ≡ rejected 400 invalid_json))
      ⊎ ((payload : Fields) × (ev : Event) × (method ≡ "POST")
          × (decoded ≡ ok payload)
          × (handle_push codec now method decoded ≡ accepted 202 ev)
          × (ev.payload ≡ object payload)
          × ((is_push payload ≡ true) ⊎ (handle_event codec now decoded ≡ dispatched ev)))
unfolding handle_push handle_event reply_to from_generic_payload
handle_push_cases codec now method (err e) = elim (Bool-cases (method == "POST")) [
  | inr other ↦ inl (ground (arith, eq_iff method "POST"), ground arith)
  | inl post ↦ inr (inl ((eq_iff method "POST").0 post, (e, refl), ground arith))
]
handle_push_cases codec now method (ok payload) = elim (Bool-cases (method == "POST")) [
  | inr other ↦ inl (ground (arith, eq_iff method "POST"), ground arith)
  | inl post ↦ inr (
      inr (
        payload,
        record empty_event {
          time = now;
          attributes = extract_attributes codec payload;
          payload = object payload;
        },
        (eq_iff method "POST").0 post,
        refl,
        rw post refl,
        refl,
        elim (Bool-cases (is_push payload)) [ inl p ↦ inl p | inr p ↦ inr (rw p refl) ],
      ))
]
