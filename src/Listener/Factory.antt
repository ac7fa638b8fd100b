-- ===== src/Listener/Factory.antt =====
-- pkg/listener/factory.go: which listener configurations are accepted.
use event_reactor.Base.{none, some, String, ◌≡◌, ◌≢◌, ◌⊎◌, arith, eq_iff, ◌↔◌}
use event_reactor.Base.Int.{ℤ}
use event_reactor.Base.Result.{ok}
use event_reactor.Base.Value.{Float}
use event_reactor.Config.{ListenerConfig}
use event_reactor.Listener.{PubsubListener, new, string_field, int_field, build_pubsub, build}

-- The types that the HTTP server serves itself.
abbrev pub IsServed : String → Type 0
IsServed type = (type ≡ "webhook") ⊎ (type ≡ "cloudevents") ⊎ (type ≡ "http")

-- The listener that a configuration describes.
abbrev pub described : (Float → ℤ) → ListenerConfig → PubsubListener
described wild cfg = record {
  name = cfg.name;
  project_id = string_field cfg "projectId";
  subscription_id = string_field cfg "subscriptionId";
  max_outstanding_messages = int_field wild cfg "maxOutstandingMessages";
  num_goroutines = int_field wild cfg "numGoroutines";
}

-- `Build` gives a listener exactly for the type "pubsub" with a project and a subscription, and it is
-- the one described; it gives none and no error exactly for the types that the HTTP server serves.
pub build_iff :
    (wild : Float → ℤ) (cfg : ListenerConfig) (l : PubsubListener)
    → ((build wild cfg ≡ ok (some l)) ↔ (
        (cfg.type ≡ "pubsub")
        × (string_field cfg "projectId" ≢ "")
        × (string_field cfg "subscriptionId" ≢ "")
        × (l ≡ described wild cfg)))
      × ((build wild cfg ≡ ok none) ↔ IsServed cfg.type)
unfolding build build_pubsub new
build_iff wild cfg l = (
  ground (
    arith,
    eq_iff cfg.type "pubsub",
    eq_iff (string_field cfg "projectId") "",
    eq_iff (string_field cfg "subscriptionId") "",
  ),
  ground (
    arith,
    eq_iff cfg.type "pubsub",
    eq_iff cfg.type "webhook",
    eq_iff cfg.type "cloudevents",
    eq_iff cfg.type "http",
    eq_iff "webhook" "pubsub",
    eq_iff "cloudevents" "pubsub",
    eq_iff "http" "pubsub",
  ),
)
