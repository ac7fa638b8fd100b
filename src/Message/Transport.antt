-- ===== src/Message/Transport.antt =====
-- pkg/message/message.go: push and pull deliveries of one Pub/Sub message, compared.
use event_reactor.Base.{ℕ, some, [], ◌∷◌, String, ◌≡◌, refl, ◌≢◌, arith}
use event_reactor.Base.Dict.{Dict, lookup}
use event_reactor.Base.Result.{ok, err, value?}
use event_reactor.Base.Value.{Value, str, object, Fields, end, entries, Bytes}
use event_reactor.Message.{
  Codec, Event, decoding, decoded_not_json, extract_attributes, from_pubsub_push, from_pubsub_map,
  from_pubsub_message, decode_data, decode_string_data,
}

module _ (codec : Codec) where
  -- A non-empty body decodes alike as bytes and as the base64 text of a push.
  decode-bytes-str :
      (text : String) (body : Bytes) (e : String)
      → codec.unmarshal (codec.utf8 text) ≡ err e
      → codec.base64_decode text ≡ ok body
      → body ≢ []
      → value? (decode_data codec (Value.bytes body)) ≡ value? (decode_data codec (str text))
  unfolding decode_data
  decode-bytes-str text [] e not_json decoded nonempty = absurd (nonempty refl)
  decode-bytes-str text (b ∷ body) e not_json decoded nonempty = ground arith

  -- A message that is pushed with its id, its attributes and the base64 text of a non-empty
  -- body, where that text is not itself JSON, gives the event that the same message gives when
  -- it is pulled, or fails as that does.
  pub push-eq-pull :
      (now : ℕ) (envelope m : Fields) (id text e : String) (attrs : Dict String) (body : Bytes)
      → lookup "message" (entries envelope) ≡ some (object m)
      → lookup "messageId" (entries m) ≡ some (str id)
      → lookup "data" (entries m) ≡ some (str text)
      → extract_attributes codec m ≡ attrs
      → codec.unmarshal (codec.utf8 text) ≡ err e
      → codec.base64_decode text ≡ ok body
      → body ≢ []
      → value? (from_pubsub_push codec now envelope)
        ≡ value? (from_pubsub_message codec now id attrs body)
  unfolding from_pubsub_push from_pubsub_map from_pubsub_message
  push-eq-pull now envelope m id text e attrs body is_message has_id has_data same not_json decoded
        nonempty =
      ground (arith, decode-bytes-str text body e not_json decoded nonempty)

  -- Where neither "" nor no bytes are JSON, and "" is the base64 text of no bytes: a pushed message
  -- whose "data" is "" is refused, while the pulled message with no body has an empty payload.
  pub push-empty_data :
      (now : ℕ) (envelope m : Fields) (id e e' : String)
      → lookup "message" (entries envelope) ≡ some (object m)
      → lookup "data" (entries m) ≡ some (str "")
      → codec.unmarshal (codec.utf8 "") ≡ err e
      → codec.base64_decode "" ≡ ok []
      → codec.unmarshal [] ≡ err e'
      → (from_pubsub_push codec now envelope ≡ err (decoding (decoded_not_json e')))
        × ((ev : Event) × (from_pubsub_message codec now id (extract_attributes codec m) [] ≡ ok ev)
            × (ev.payload ≡ object end))
  unfolding from_pubsub_push from_pubsub_map from_pubsub_message decode_data decode_string_data
  push-empty_data now envelope m id e e' is_message has_data not_json decoded empty_not_json =
      (ground arith, (_, refl, refl))
