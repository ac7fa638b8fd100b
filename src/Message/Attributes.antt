-- ===== src/Message/Attributes.antt =====
-- pkg/message/message.go: the attributes and the payload of the events that are made.
use mathlib.Core.Option
use event_reactor.Base.{ℕ, some, [], ◌∷◌, String, ◌≡◌, refl, arith, if◌then◌else◌, eq_iff}
use event_reactor.Base.Dict.{Dict, lookup, index, is_empty}
use event_reactor.Base.Result.{ok}
use event_reactor.Base.Value.{Value, object, Fields, entries, Bytes}
use event_reactor.Message.{
  Codec, Event, sprint_all, attributes_of, extract_attributes, from_pubsub_message,
  apply_cloud_event_attributes,
}

module _ (codec : Codec) where
  lookup-sprint_all :
      (k : String) (m : Dict Value)
      → lookup k (sprint_all codec m) ≡ Option.map codec.sprint (lookup k m)
  unfolding sprint_all lookup
  lookup-sprint_all k [] = refl
  lookup-sprint_all k ((j, v) ∷ m) = ground (arith, lookup-sprint_all k m)

  -- Where "attributes" is an object, an attribute is there exactly for its keys, and is the printed
  -- value.
  pub lookup-extract_attributes :
      (k : String) (m a : Fields)
      → lookup "attributes" (entries m) ≡ some (object a)
      → lookup k (extract_attributes codec m) ≡ Option.map codec.sprint (lookup k (entries a))
  unfolding extract_attributes attributes_of
  lookup-extract_attributes k m a h = rw (h, attributes_of) (lookup-sprint_all k (entries a))

  -- The event of a pulled message: the "ce-" attributes, where they are not empty, take the place
  -- of the id and of the source "pubsub", the type is "ce-type", and the attributes are kept.
  pub from_pubsub_message_fields :
      (now : ℕ) (id : String) (attrs : Dict String) (body : Bytes) (ev : Event)
      → from_pubsub_message codec now id attrs body ≡ ok ev
      → (ev.type ≡ index "" "ce-type" attrs)
        × (ev.source ≡ (
            if is_empty (index "" "ce-source" attrs) then "pubsub" else index "" "ce-source" attrs))
        × (ev.id ≡ (if is_empty (index "" "ce-id" attrs) then id else index "" "ce-id" attrs))
        × (ev.attributes ≡ attrs)
  unfolding from_pubsub_message apply_cloud_event_attributes
  from_pubsub_message_fields now id attrs body ev h =
      ground (arith, eq_iff (index "" "ce-type" attrs) "")
