-- ===== src/Listener.antt =====
-- pkg/listener/factory.go and pkg/listener/pubsub/pubsub.go: the listeners that a configuration asks
-- for, and what a Pub/Sub listener does with one message.
pub mod Factory
pub mod Delivery
pub mod Generic
pub mod Streaming
pub mod Lifecycle
use event_reactor.Base.{
  ℕ, Bool, true, false, ◌||◌, Option, none, some, List, [], ◌∷◌, String, ◌==◌, if◌then◌else◌,
}
use event_reactor.Base.Int.{ℤ, pos}
use event_reactor.Base.Dict.{Dict, lookup, index, is_empty}
use event_reactor.Base.Result.{Result, ok, err, ◌>>=◌, ◌>>◌, reject_if, map_err}
use event_reactor.Base.Value.{
  Value, null, int, int64, float, Float, Fields, entries, as_string, to_int, Bytes,
}
use event_reactor.Message.{Codec, Event, MessageError, from_pubsub_message}
use event_reactor.Config.{ListenerConfig}

-- Listener of package pubsub; the client options are for tests.
pub record PubsubListener : Type 0 where
  pub name : String
  pub project_id : String
  pub subscription_id : String
  pub max_outstanding_messages : ℤ
  pub num_goroutines : ℤ

pub data ListenerError : Type 0 where
  project_required subscription_required : (name : String) → ListenerError
  unsupported : (name type : String) → ListenerError

-- `New`, on the fields of a `Config`, which are those of the listener.
unfoldable pub new : PubsubListener → Result ListenerError PubsubListener
new cfg = do
  reject_if (is_empty cfg.project_id) (project_required cfg.name)
  reject_if (is_empty cfg.subscription_id) (subscription_required cfg.name)
  ok (record {
    name = cfg.name;
    project_id = cfg.project_id;
    subscription_id = cfg.subscription_id;
    max_outstanding_messages = cfg.max_outstanding_messages;
    num_goroutines = cfg.num_goroutines;
  })

unfoldable pub string_field : ListenerConfig → String → String
string_field cfg key = as_string (index null key (entries cfg.config))

module _ (wild : Float → ℤ) where
  -- The branches of `intField` on the entry.
  abbrev pub as_int : Value → ℤ
  as_int (int v) = v
  as_int (int64 v) = v
  as_int (float v) = to_int wild v
  as_int _ = pos 0

  unfoldable pub int_field : ListenerConfig → String → ℤ
  int_field cfg key = as_int (index null key (entries cfg.config))

  unfoldable pub build_pubsub : ListenerConfig → Result ListenerError PubsubListener
  build_pubsub cfg = new (record {
    name = cfg.name;
    project_id = string_field cfg "projectId";
    subscription_id = string_field cfg "subscriptionId";
    max_outstanding_messages = int_field cfg "maxOutstandingMessages";
    num_goroutines = int_field cfg "numGoroutines";
  })

  -- `Build`; `none` is a nil listener with no error.
  unfoldable pub build : ListenerConfig → Result ListenerError (Option PubsubListener)
  build cfg =
      if cfg.type == "pubsub"
      then (do l ← build_pubsub cfg; ok (some l))
      else if (cfg.type == "webhook") || (cfg.type == "cloudevents") || (cfg.type == "http")
      then ok none
      else err (unsupported cfg.name cfg.type)

pub record PubsubMessage : Type 0 where
  pub id : String
  pub attributes : Dict String
  pub body : Bytes

-- How a call of the handler ends.
pub data Ending : Type 0 where
  returned panicked : Ending

pub data Settlement : Type 0 where
  ack nack : Settlement

-- The events on which the handler was called, and the settlements of the message, in order.
pub record Dispatched : Type 0 where
  pub handled : List Event
  pub settled : List Settlement

-- The deferred function, on how the handler ended and on `acked`.
abbrev pub recovered : Ending → (acked : Bool) → List Settlement
recovered returned acked = []
recovered panicked true = []
recovered panicked false = nack ∷ []

unfoldable pub dispatch : Codec → ℕ → (Event → Ending) → PubsubMessage → Dispatched
dispatch codec now handler msg =
    elim (from_pubsub_message codec now msg.id msg.attributes msg.body) [
      | err e ↦ record { handled = []; settled = nack ∷ [] }
      | ok ev ↦ elim (handler ev) [
        | returned ↦ record { handled = ev ∷ []; settled = ack ∷ recovered returned true }
        | panicked ↦ record { handled = ev ∷ []; settled = recovered panicked false }
      ]
    ]
