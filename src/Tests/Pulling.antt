-- ===== src/Tests/Pulling.antt =====
-- pkg/cmd/root.go and pkg/listener/pubsub/pubsub.go: a started server with a message to pull.
use event_reactor.Base.{Option, some, none}
use event_reactor.Base.{true, none, some, [], ◌∷◌, String, ◌≡◌, ◌⊎◌, ◌↔◌}
use event_reactor.Base.Dict.{Dict}
use event_reactor.Base.Int.{pos}
use event_reactor.Base.Result.{ok, err}
use event_reactor.Listener.{PubsubMessage, PubsubListener}
use event_reactor.Listener.Streaming as Streaming
use event_reactor.Listener.Streaming.{Client, ReceiveSettings, creating_client, settings}
use event_reactor.Server.Pulling.{AllPulled, IsCalls, pulled_handler, run_server-pulls}
use mathlib.Core.Option.{some-injective}
use event_reactor.Base.{subst}
use event_reactor.Message.{Event}
use event_reactor.Adapter.Schedule.{Handling, Reach, IsDone, start}
use event_reactor.Providers.Builtin.{handle_event-builtin}
use event_reactor.Tests.Calls.{environment}
use event_reactor.Tests.{codec, platform}
use event_reactor.Tests.Dispatch.{ctx}
use event_reactor.Tests.Serving.{host, started, server_started, cached}

abbrev attrs : Dict String
attrs = ("ce-type", "printed") ∷ []

abbrev delivered : PubsubMessage
delivered = record { id = "1"; attributes = attrs; body = 123 ∷ 125 ∷ [] }

abbrev client : Client
client = record {
  connect = λ project. ok (record { max_outstanding_messages = pos 1000; num_goroutines = pos 1 });
  receive = λ subscription st. record { messages = (5, delivered) ∷ []; error = some "canceled" };
}

abbrev orders : PubsubListener
orders = record {
  name = "orders";
  project_id = "p";
  subscription_id = "s";
  max_outstanding_messages = pos 0;
  num_goroutines = pos 4;
}

-- Every call of HandleEvent comes to an end.
abbrev Ended : Event → Type 0
Ended ev =
    (t : Handling platform) × Reach platform started.adapter ctx ev
      (start platform started.adapter ctx ev cached) t
    × IsDone platform started.adapter ctx ev t

abbrev ended : (ev : Event) → Ended ev
ended ev = handle_event-builtin environment platform started.adapter.cfg none ctx ev cached

abbrev calls : Event → Option (Handling platform)
calls ev = some (ended ev).0

calls-IsCalls : IsCalls platform host started ctx codec calls
calls-IsCalls ev t e =
    subst
      (λ u.
        Reach platform started.adapter ctx ev (start platform started.adapter ctx ev cached) u
        × IsDone platform started.adapter ctx ev u)
      (some-injective (ended ev).0 t e) ((ended ev).1, (ended ev).2)

run_server-pulls_example :
    let s = Streaming.start codec (pulled_handler calls) client true orders in
    ((e : String) × (client.connect "p" ≡ err e)
      × (s.dispatched ≡ [])
      × (s.error ≡ some (creating_client "orders" e)))
    ⊎ ((d : ReceiveSettings) × (client.connect "p" ≡ ok d)
        × AllPulled platform host started ctx codec calls
            (client.receive "s" (settings orders d)).messages
            s.dispatched
        × ((s.error ≡ none)
            ↔ (((client.receive "s" (settings orders d)).error ≡ none) ⊎ (true ≡ true))))
run_server-pulls_example =
    run_server-pulls platform host started ctx codec calls "er.yaml" server_started calls-IsCalls
      client true orders
