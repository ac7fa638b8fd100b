-- ===== src/Api/Events.antt =====
-- pkg/api/api.go: what POST /events refuses and what it dispatches.
use event_reactor.Base.{ℕ, true, false, some, String, ◌≡◌, ◌⊎◌, refl, arith, inl, inr, Bool-cases}
use event_reactor.Base.Dict.{lookup, index}
use event_reactor.Base.Result.{Result, ok, err, Result-cases}
use event_reactor.Base.Value.{null, object, Fields, entries}
use event_reactor.Message.{
  Codec, Event, empty_event, extract_attributes, decode_data, MessageError, decoding,
  from_pubsub_map, from_pubsub_push, from_generic_payload,
}
use event_reactor.Api.{
  refused, dispatched, Refusal, invalid_json, invalid_event, reply_to, is_push, handle_event,
}

module _ (codec : Codec) (now : ℕ) where
  -- A JSON object that is no Pub/Sub push is dispatched, at the current time, as the payload of
  -- an event, and never refused.
  pub handle_event_generic :
      (payload : Fields)
      → is_push payload ≡ false
      → (ev : Event) × (handle_event codec now (ok payload) ≡ dispatched ev)
        × (ev.payload ≡ object payload)
        × (ev.time ≡ now)
  unfolding handle_event from_generic_payload reply_to
  handle_event_generic payload h = (
    record empty_event {
      time = now;
      attributes = extract_attributes codec payload;
      payload = object payload;
    },
    rw (h, handle_event),
    refl,
    refl,
  )

  push_message :
      (payload : Fields)
      → is_push payload ≡ true
      → (m : Fields) × (lookup "message" (entries payload) ≡ some (object m))
  unfolding is_push
  push_message payload h = ground arith

  from_pubsub_map_error :
      (m : Fields) (e : MessageError)
      → from_pubsub_map codec now m ≡ err e
      → (x : MessageError) × (e ≡ decoding x)
  unfolding from_pubsub_map
  from_pubsub_map_error m e h =
      elim (Result-cases (decode_data codec (index null "data" (entries m)))) [
        | inl (v, good) ↦ absurd (ground arith)
        | inr (x, bad) ↦ (x, ground arith)
      ]

  push_refused :
      (payload : Fields) (status : ℕ) (why : Refusal)
      → is_push payload ≡ true
      → reply_to (from_pubsub_push codec now payload) ≡ refused status why
      → (status ≡ 400) × ((e : MessageError) × (why ≡ invalid_event (decoding e)))
  unfolding from_pubsub_push reply_to
  push_refused payload status why push h =
      let (m, found) = push_message payload push in
      elim (Result-cases (from_pubsub_map codec now m)) [
        | inl (ev, good) ↦ absurd (ground arith)
        | inr (e, bad) ↦
            let (x, same) = from_pubsub_map_error m e bad in (ground arith, (x, ground arith))
      ]

  -- A body is refused only with 400, and only because it is no JSON object, or because it is a push
  -- whose data does not decode.
  pub handle_event-refused :
      (bound : Result String Fields) (status : ℕ) (why : Refusal)
      → handle_event codec now bound ≡ refused status why
      → (status ≡ 400)
        × ((why ≡ invalid_json) ⊎ ((e : MessageError) × (why ≡ invalid_event (decoding e))))
  unfolding handle_event
  handle_event-refused (err e) status why h = (ground arith, inl (ground arith))
  handle_event-refused (ok payload) status why h = elim (Bool-cases (is_push payload)) [
    | inl push ↦ let (bad, e) = push_refused payload status why push (ground arith) in (bad, inr e)
    | inr plain ↦
        let (ev, sent, _, _) = handle_event_generic payload plain in absurd (ground (arith, sent))
  ]
