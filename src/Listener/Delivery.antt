-- ===== src/Listener/Delivery.antt =====
-- pkg/listener/pubsub/pubsub.go: when a message is acknowledged.
use event_reactor.Base.{ℕ, [], ◌∷◌, ◌≡◌, ◌⊎◌, arith, inl, inr}
use event_reactor.Base.Result.{ok, err, Result-cases}
use event_reactor.Message.{Codec, Event, MessageError, from_pubsub_message}
use event_reactor.Listener.{PubsubMessage, Ending, returned, panicked, ack, nack, dispatch}

-- Every message is settled exactly once. It is acknowledged exactly if it converts into an event on
-- which the handler then returns; if it does not convert the handler is not called.
pub dispatch_cases :
    (codec : Codec) (now : ℕ) (handler : Event → Ending) (msg : PubsubMessage)
    → let event = from_pubsub_message codec now msg.id msg.attributes msg.body in
      let d = dispatch codec now handler msg in
      ((e : MessageError) × (event ≡ err e) × (d.handled ≡ []) × (d.settled ≡ nack ∷ []))
      ⊎ ((ev : Event) × (event ≡ ok ev)
          × (d.handled ≡ ev ∷ [])
          × (((handler ev ≡ returned) × (d.settled ≡ ack ∷ []))
              ⊎ ((handler ev ≡ panicked) × (d.settled ≡ nack ∷ []))))
unfolding dispatch
dispatch_cases codec now handler msg =
    elim (Result-cases (from_pubsub_message codec now msg.id msg.attributes msg.body)) [
      | inr (e, bad) ↦ inl (e, bad, ground arith, ground arith)
      | inl (ev, good) ↦ inr (ev, good, ground arith, ground arith)
    ]
