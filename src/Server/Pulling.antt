-- ===== src/Server/Pulling.antt =====
-- pkg/cmd/root.go, pkg/listener/pubsub/pubsub.go and pkg/adapter/adapter.go: a message that a listener
-- of a started server pulls, up to its acknowledgement. The handler that `runServer` gives the listeners
-- calls `HandleEvent`.
use mathlib.Core.List.{Perm}
use event_reactor.Base.{Option, some, none}
use event_reactor.Base.{
  refl, Option-cases, ℕ, Bool, true, none, some, List, [], ◌∷◌, map, String, ◌≡◌, ◌⊎◌, ◌↔◌, inl,
  inr,
}
use event_reactor.Base.Result.{ok, err}
use event_reactor.Message.{Codec, Event, MessageError, from_pubsub_message}
use event_reactor.Reactor.{Platform, Context}
use event_reactor.Adapter.{returns}
use event_reactor.Adapter.Execution.{outcomes}
use event_reactor.Adapter.Schedule.{Handling, Reach, start, IsDone}
use event_reactor.Listener.{
  PubsubListener, PubsubMessage, Dispatched, Ending, returned, panicked, ack, nack, dispatch,
}
use event_reactor.Listener.Delivery.{dispatch_cases}
use event_reactor.Listener.Streaming as Streaming
use event_reactor.Listener.Streaming.{
  Client, ReceiveSettings, creating_client, settings, dispatch_all, start_cases,
}
use event_reactor.Server.{Host, Started, run_server}
use event_reactor.Server.Dispatch.{run_server-handle_event}

-- The handler that `runServer` gives a listener calls HandleEvent, drops its results, and returns when it
-- does. `calls` is what a call of HandleEvent comes to: its end, or none if it panics.
unfoldable pub pulled_handler {ℓ} : {A : Type ℓ} → (Event → Option A) → Event → Ending
pulled_handler calls ev = elim (calls ev) [ none ↦ panicked | some t ↦ returned ]

module _ (pf : Platform) (host : Host) (st : Started pf) (ctx : Context) (codec : Codec)
    (calls : Event → Option (Handling pf)) where
  -- A call of HandleEvent that returns is a run to its end.
  abbrev pub IsCalls : Type 0
  IsCalls =
      (ev : Event) (t : Handling pf)
      → calls ev ≡ some t
      → Reach pf st.adapter ctx ev (start pf st.adapter ctx ev st.matcher) t
        × IsDone pf st.adapter ctx ev t

  -- A message that does not convert, and is not acknowledged; one whose call of HandleEvent panicked, and
  -- that is not acknowledged; or one that is acknowledged after the call with its event has returned, with
  -- the results of the reactors that match, each once, in some order.
  abbrev pub IsPulled : ℕ × PubsubMessage → Dispatched → Type 0
  IsPulled (now, msg) d =
      let event = from_pubsub_message codec now msg.id msg.attributes msg.body in
      ((e : MessageError) × (event ≡ err e) × (d.handled ≡ []) × (d.settled ≡ nack ∷ []))
      ⊎ ((ev : Event) × (event ≡ ok ev)
          × (d.handled ≡ ev ∷ [])
          × (((calls ev ≡ none) × (d.settled ≡ nack ∷ []))
              ⊎ ((t : Handling pf) × (calls ev ≡ some t)
                  × (d.settled ≡ ack ∷ [])
                  × Perm (map returns t.results) (outcomes pf st.adapter ctx ev))))

  abbrev pub AllPulled : List (ℕ × PubsubMessage) → List Dispatched → Type 0
  AllPulled [] [] = Unit
  AllPulled [] (d ∷ ds) = ⊥
  AllPulled (m ∷ ms) [] = ⊥
  AllPulled (m ∷ ms) (d ∷ ds) = IsPulled m d × AllPulled ms ds

  handler_cases :
      (ev : Event)
      → ((calls ev ≡ none) × (pulled_handler calls ev ≡ panicked))
        ⊎ ((t : Handling pf) × (calls ev ≡ some t) × (pulled_handler calls ev ≡ returned))
  unfolding pulled_handler
  handler_cases ev = elim (Option-cases (calls ev)) [
    | inl bad ↦ inl (bad, rw (bad, pulled_handler) refl)
    | inr (t, good) ↦ inr (t, good, rw (good, pulled_handler) refl)
  ]

  module _ (path : String) (started : run_server pf host path ≡ ok st) (runs : IsCalls) where
    dispatch-IsPulled :
        (now : ℕ) (msg : PubsubMessage)
        → IsPulled (now, msg) (dispatch codec now (pulled_handler calls) msg)
    dispatch-IsPulled now msg = elim (dispatch_cases codec now (pulled_handler calls) msg) [
      | inl bad ↦ inl bad
      | inr (ev, good, called, end) ↦ inr (
        ev,
        good,
        called,
        elim (handler_cases ev) [
          | inl (none_came, panic) ↦ elim end [
            | inl (done, settled) ↦ cc
            | inr (p, settled) ↦ inl (none_came, settled)
          ]
          | inr (t, came, fine) ↦ elim end [
            | inr (p, settled) ↦ cc
            | inl (done, settled) ↦
                let (run, finished) = runs ev t came in
                inr (
                  t,
                  came,
                  settled,
                  run_server-handle_event pf host path st ctx ev t started run finished,
                )
          ]
        ],
      )
    ]

    dispatch_all-AllPulled :
        (ms : List (ℕ × PubsubMessage))
        → AllPulled ms (dispatch_all codec (pulled_handler calls) ms)
    unfolding dispatch_all
    dispatch_all-AllPulled [] = tt
    dispatch_all-AllPulled ((now, msg) ∷ ms) =
        (dispatch-IsPulled now msg, dispatch_all-AllPulled ms)

    -- Once the server has started, where a call of HandleEvent that returns is a run to its end: a
    -- listener fails with the client's error, and then dispatches nothing, or it dispatches every message
    -- that is received with its settings. A message that does not convert into an event is nacked, and
    -- the handler is not called. On any other HandleEvent is called once; if the call panics, the message
    -- is nacked, and if it returns, it has come to the results of the configured reactors that are not
    -- disabled and match, each once, in some order, and the message is acknowledged, whatever
    -- these are. The listener gives an error exactly if receiving did while the context had not ended.
    pub run_server-pulls :
        (client : Client) (ended : Bool) (l : PubsubListener)
        → let s = Streaming.start codec (pulled_handler calls) client ended l in
          ((e : String) × (client.connect l.project_id ≡ err e)
            × (s.dispatched ≡ [])
            × (s.error ≡ some (creating_client l.name e)))
          ⊎ ((d : ReceiveSettings) × (client.connect l.project_id ≡ ok d)
              × AllPulled (client.receive l.subscription_id (settings l d)).messages s.dispatched
              × ((s.error ≡ none) ↔ (
                  ((client.receive l.subscription_id (settings l d)).error ≡ none)
                  ⊎ (ended ≡ true))))
    unfolding Streaming.start
    run_server-pulls client ended l =
        elim (start_cases codec (pulled_handler calls) client ended l) [
          | inl failed ↦ inl failed
          | inr (d, good, settled, errors) ↦ inr (
            d,
            good,
            rw (good, Streaming.start)
                (dispatch_all-AllPulled (client.receive l.subscription_id (settings l d)).messages),
            errors,
          )
        ]
