-- ===== src/Api.antt =====
-- pkg/api/api.go: the handlers of the HTTP server. What gin gives of a request, the reading of its
-- body, a new UUID and HMAC-SHA256 are arguments. A handler refuses a request with a status and a
-- message, or dispatches an event, whose results `respond` then sends.
pub mod Signature
pub mod Webhook
pub mod Events
pub mod CloudEvents
pub mod Routes
pub mod Serving
use event_reactor.Base.{
  ℕ, Bool, true, false, Option, none, some, List, [], ◌∷◌, length, String, ◌==◌, if◌then◌else◌,
}
use event_reactor.Base.Dict.{Dict, lookup, insert, index, is_empty}
use event_reactor.Base.Result.{Result, ok, err}
use event_reactor.Base.Value.{Value, null, str, object, Fields, entries, as_string, Bytes}
use event_reactor.Message.{
  Codec, Event, empty_event, MessageError, from_pubsub_push, from_generic_payload,
}
use event_reactor.Config.{ServerConfig, WebhookSecret}
use event_reactor.Reactor.{ReactorResult}
use Signature.{validate_hmac}

pub data Refusal : Type 0 where
  invalid_json failed_to_read_body invalid_signature : Refusal
  invalid_event : MessageError → Refusal

pub data Reply : Type 0 where
  refused : (status : ℕ) → Refusal → Reply
  dispatched : Event → Reply

-- The JSON that is sent.
pub data Response : Type 0 where
  health : (status : ℕ) → (text : String) → Response
  failure : (status : ℕ) → Refusal → Response
  processed : (status : ℕ) → (count : ℕ) → List ReactorResult → Response

-- `s.adapter.HandleEvent` is `handle`.
unfoldable pub respond : (Event → List ReactorResult) → Reply → Response
respond handle (refused status why) = failure status why
respond handle (dispatched event) =
    let results = handle event in processed 200 (length results) results

unfoldable pub handle_liveness : Response
handle_liveness = health 200 "ok"

unfoldable pub handle_readiness : Response
handle_readiness = health 200 "ready"

unfoldable pub reply_to : Result MessageError Event → Reply
reply_to (ok event) = dispatched event
reply_to (err e) = refused 400 (invalid_event e)

-- The shape of a Pub/Sub push: "message" is an object that has "data".
unfoldable pub is_push : Fields → Bool
is_push payload = elim (lookup "message" (entries payload)) [
  | none ↦ false
  | some (object msg) ↦ elim (lookup "data" (entries msg)) [ none ↦ false | some v ↦ true ]
  | some _ ↦ false
]

-- `bound` is what binding the body as JSON gives.
unfoldable pub handle_event : Codec → ℕ → Result String Fields → Reply
handle_event codec now (err e) = refused 400 invalid_json
handle_event codec now (ok payload) =
    if is_push payload
    then reply_to (from_pubsub_push codec now payload)
    else reply_to (from_generic_payload codec now (object payload))

-- A request's headers, and a UUID that is made where one is needed.
pub record Request : Type 0 where
  pub header : String → String
  pub uuid : String

abbrev or_uuid : Request → String → String
or_uuid req id = if is_empty id then req.uuid else id

unfoldable pub binary_event : Request → Fields → Event
binary_event req payload =
    let ce_source = req.header "Ce-Source" in
    let ce_type = req.header "Ce-Type" in
    record empty_event {
      id = or_uuid req (req.header "Ce-Id");
      source = ce_source;
      type = ce_type;
      attributes =
          ("specversion", req.header "Ce-Specversion")
          ∷ ("source", ce_source)
          ∷ ("type", ce_type)
          ∷ [];
      payload = object payload;
    }

abbrev pub text? : Option Value → Option String
text? (some (str s)) = some s
text? _ = none

-- `if s, ok := v.(string); ok { event.Attributes[key] = s }`
abbrev pub insert_text : String → Option String → Dict String → Dict String
insert_text key none attrs = attrs
insert_text key (some s) attrs = insert key s attrs

abbrev pub or_empty : Option String → String
or_empty none = ""
or_empty (some s) = s

-- The payload: "data", and the whole body where there is none.
abbrev pub data_or : Fields → Value → Value
data_or payload null = object payload
data_or payload v = v

unfoldable pub structured_event : Request → Fields → Event
structured_event req payload =
    let at = λ (key : String). text? (lookup key (entries payload)) in
    record empty_event {
      id = elim (at "id") [ none ↦ req.uuid | some id ↦ id ];
      source = or_empty (at "source");
      type = or_empty (at "type");
      attributes =
          insert_text "specversion" (at "specversion")
            (insert_text "type" (at "type") (insert_text "source" (at "source") []));
      payload = data_or payload (index null "data" (entries payload));
    }

unfoldable pub handle_cloud_event : Request → Result String Fields → Reply
handle_cloud_event req (err e) = refused 400 invalid_json
handle_cloud_event req (ok payload) =
    if is_empty (req.header "Ce-Type")
    then dispatched (structured_event req payload)
    else dispatched (binary_event req payload)

-- The loop of `webhookSecret`.
unfoldable pub webhook_secret : String → List WebhookSecret → String
webhook_secret source [] = ""
webhook_secret source (wh ∷ rest) =
    if wh.source == source then wh.secret else webhook_secret source rest

unfoldable pub signature : Request → String
signature req =
    let sig = req.header "X-Hub-Signature-256" in
    if is_empty sig then req.header "X-Signature-256" else sig

unfoldable pub event_type : Request → String
event_type req =
    let type = req.header "X-Event-Type" in
    if is_empty type then req.header "X-GitHub-Event" else type

unfoldable pub webhook_event : Request → (content_type source : String) → Fields → Event
webhook_event req content_type source payload =
    let type = event_type req in
    let attrs = ("source", source) ∷ ("content-type", content_type) ∷ [] in
    record empty_event {
      id = req.uuid;
      source = source;
      type = type;
      attributes = if is_empty type then attrs else insert "type" type attrs;
      payload = object payload;
    }

-- Whether the request may pass: no secret is configured, or the signature is valid.
unfoldable pub is_authentic :
    (String → Bytes → Bytes) → List WebhookSecret → Request → String → Bytes → Bool
is_authentic mac secrets req source body =
    let secret = webhook_secret source secrets in
    if is_empty secret then true else validate_hmac mac body (signature req) secret

unfoldable pub handle_webhook :
    (String → Bytes → Bytes)
    → Codec
    → List WebhookSecret
    → Request
    → (content_type source : String) → Result String Bytes
    → Reply
handle_webhook mac codec secrets req content_type source (err e) = refused 400 failed_to_read_body
handle_webhook mac codec secrets req content_type source (ok body) =
    if is_authentic mac secrets req source body
    then elim (codec.unmarshal body) [
      | err e ↦ refused 400 invalid_json
      | ok payload ↦ dispatched (webhook_event req content_type source payload)
    ]
    else refused 401 invalid_signature
