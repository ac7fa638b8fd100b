-- ===== src/Listener/Streaming.antt =====
-- pkg/listener/pubsub/pubsub.go: `Start`. The client library is the record `Client`: it makes a
-- subscriber with its settings, and gives messages, each with the time at which it is dispatched,
-- until it ends with or without an error. Dispatches do not depend on each other, so that the order of
-- the list stands for any.
use event_reactor.Base.{
  ℕ, Bool, true, false, Option, none, some, List, [], ◌∷◌, String, if◌then◌else◌, ◌≡◌, ◌≢◌, ◌↔◌,
  ◌⊎◌, inl, inr, refl, arith,
}
use event_reactor.Base.Int.{ℤ, pos, ltb_ℤ}
use event_reactor.Base.Result.{Result, ok, err, Result-cases}
use event_reactor.Message.{Codec, Event, from_pubsub_message}
use event_reactor.Listener.{
  PubsubListener, PubsubMessage, Ending, returned, ack, nack, Dispatched, dispatch,
}
use event_reactor.Listener.Delivery.{dispatch_cases}

pub record ReceiveSettings : Type 0 where
  pub max_outstanding_messages : ℤ
  pub num_goroutines : ℤ

pub record Received : Type 0 where
  pub messages : List (ℕ × PubsubMessage)
  pub error : Option String

pub record Client : Type 0 where
  pub connect : (project : String) → Result String ReceiveSettings
  pub receive : (subscription : String) → ReceiveSettings → Received

pub data StartError : Type 0 where
  creating_client receiving : (name error : String) → StartError

pub record Streamed : Type 0 where
  pub dispatched : List Dispatched
  pub error : Option StartError

abbrev pub positive_or : ℤ → ℤ → ℤ
positive_or dflt n = if ltb_ℤ (pos 0) n then n else dflt

-- The settings of the subscriber, where the listener does not give its own.
unfoldable pub settings : PubsubListener → ReceiveSettings → ReceiveSettings
settings l d = record {
  max_outstanding_messages = positive_or d.max_outstanding_messages l.max_outstanding_messages;
  num_goroutines = positive_or d.num_goroutines l.num_goroutines;
}

-- The error of receiving, where the context has not ended.
abbrev pub receive_error : (name : String) → (ended : Bool) → Option String → Option StartError
receive_error name ended none = none
receive_error name true (some e) = none
receive_error name false (some e) = some (receiving name e)

receive_error_iff :
    (name : String) (ended : Bool) (o : Option String)
    → (receive_error name ended o ≡ none) ↔ ((o ≡ none) ⊎ (ended ≡ true))
receive_error_iff name ended none = (λ h. inl refl, λ h. refl)
receive_error_iff name true (some e) = (λ h. inr refl, λ h. refl)
receive_error_iff name false (some e) = (λ h. cc, λ h. ground arith)

module _ (codec : Codec) (handler : Event → Ending) where
  unfoldable pub dispatch_all : List (ℕ × PubsubMessage) → List Dispatched
  dispatch_all [] = []
  dispatch_all ((now, msg) ∷ rest) = dispatch codec now handler msg ∷ dispatch_all rest

  unfoldable pub start : Client → (ended : Bool) → PubsubListener → Streamed
  start client ended l = elim (client.connect l.project_id) [
    | err e ↦ record { dispatched = []; error = some (creating_client l.name e) }
    | ok d ↦
        let got = client.receive l.subscription_id (settings l d) in
        record {
          dispatched = dispatch_all got.messages;
          error = receive_error l.name ended got.error;
        }
  ]

  -- A message that has been dispatched: acknowledged exactly if it converts into an event on which
  -- the handler returns.
  abbrev pub IsSettled : ℕ × PubsubMessage → Dispatched → Type 0
  IsSettled (now, msg) d =
      ((d.settled ≡ ack ∷ [])
        × ((ev : Event) × (from_pubsub_message codec now msg.id msg.attributes msg.body ≡ ok ev)
            × (handler ev ≡ returned)))
      ⊎ ((d.settled ≡ nack ∷ [])
          × ((ev : Event)
              → from_pubsub_message codec now msg.id msg.attributes msg.body ≡ ok ev
              → handler ev ≢ returned))

  abbrev pub AllSettled : List (ℕ × PubsubMessage) → List Dispatched → Type 0
  AllSettled [] [] = Unit
  AllSettled [] (d ∷ ds) = ⊥
  AllSettled (m ∷ ms) [] = ⊥
  AllSettled (m ∷ ms) (d ∷ ds) = IsSettled m d × AllSettled ms ds

  dispatch-IsSettled :
      (now : ℕ) (msg : PubsubMessage) → IsSettled (now, msg) (dispatch codec now handler msg)
  dispatch-IsSettled now msg = elim (dispatch_cases codec now handler msg) [
    | inl (e, bad, called, settled) ↦ inr (settled, λ ev good. absurd (ground arith))
    | inr (ev, good, called, inl (done, settled)) ↦ inl (settled, (ev, good, done))
    | inr (ev, good, called, inr (panic, settled)) ↦ inr (settled, λ other same done. cc)
  ]

  dispatch_all-AllSettled : (ms : List (ℕ × PubsubMessage)) → AllSettled ms (dispatch_all ms)
  unfolding dispatch_all
  dispatch_all-AllSettled [] = tt
  dispatch_all-AllSettled ((now, msg) ∷ ms) =
      (dispatch-IsSettled now msg, dispatch_all-AllSettled ms)

  -- `Start` fails with the client's error, and then dispatches nothing, or it dispatches every message
  -- that is received with its settings: each is settled exactly once, acknowledged exactly if it
  -- converts into an event on which the handler returns. It then gives an error exactly if receiving
  -- did while the context had not ended.
  pub start_cases :
      (client : Client) (ended : Bool) (l : PubsubListener)
      → let s = start client ended l in
        ((e : String) × (client.connect l.project_id ≡ err e)
          × (s.dispatched ≡ [])
          × (s.error ≡ some (creating_client l.name e)))
        ⊎ ((d : ReceiveSettings) × (client.connect l.project_id ≡ ok d)
            × AllSettled (client.receive l.subscription_id (settings l d)).messages s.dispatched
            × ((s.error ≡ none) ↔ (
                ((client.receive l.subscription_id (settings l d)).error ≡ none) ⊎ (ended ≡ true))))
  unfolding start
  start_cases client ended l = elim (Result-cases (client.connect l.project_id)) [
    | inr (e, bad) ↦ inl (e, bad, rw (bad, start) refl, rw (bad, start) refl)
    | inl (d, good) ↦ inr (
      d,
      good,
      rw (good, start)
          (dispatch_all-AllSettled (client.receive l.subscription_id (settings l d)).messages),
      rw (good, start)
          (receive_error_iff l.name ended (client.receive l.subscription_id (settings l d)).error),
    )
  ]
