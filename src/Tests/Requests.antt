-- ===== src/Tests/Requests.antt =====
-- pkg/message/message.go and pkg/api/api.go on a few messages and requests.
use event_reactor.Base.{
  true, List, [], ◌∷◌, String, ◌==◌, if◌then◌else◌, ◌≡◌, refl, ◌↔◌, arith, eq_iff,
}
use event_reactor.Base.Dict.{Dict, lookup}
use event_reactor.Base.Result.{ok, value?}
use event_reactor.Base.Text.{◌<>◌}
use event_reactor.Base.Value.{str, object, Fields, end, field, Bytes}
use event_reactor.Message.{
  Event, extract_attributes, attributes_of, sprint_all, from_pubsub_push, from_pubsub_message,
}
use event_reactor.Message.Transport.{push-eq-pull}
use event_reactor.Config.{WebhookSecret}
use event_reactor.Api.{Request, dispatched, handle_cloud_event}
use event_reactor.Api.Signature.{validate_hmac, validate_hmac-hex_encode, hex_encode}
use event_reactor.Api.CloudEvents.{cloud_event_modes}
use event_reactor.Tests.{codec, hello}

abbrev message : Fields
message = field "messageId" (str "1") (
    field "data" (str "eyJ9")
      (field "attributes" (object (field "ce-type" (str "created") end)) end))

abbrev envelope : Fields
envelope = field "message" (object message) end

abbrev attrs : Dict String
attrs = ("ce-type", "printed") ∷ []

push-eq-pull_example :
    value? (from_pubsub_push codec 5 envelope)
    ≡ value? (from_pubsub_message codec 5 "1" attrs (123 ∷ 125 ∷ []))
unfolding lookup extract_attributes attributes_of sprint_all
push-eq-pull_example =
    push-eq-pull codec 5 envelope message "1" "eyJ9" "bad character" attrs (123 ∷ 125 ∷ []) refl
      refl refl refl refl refl (λ e. cc)

-- A MAC of one byte.
abbrev mac : String → Bytes → Bytes
mac secret body = 171 ∷ []

abbrev secrets : List WebhookSecret
secrets = record { source = "github"; secret = "hush" } ∷ []

abbrev signed : Request
signed = record {
  header = λ k.
      if k == "X-Hub-Signature-256"
      then "sha256=ab"
      else if k == "X-Event-Type"
      then "push"
      else "";
  uuid = "u1";
}

abbrev sent_signature : String
sent_signature = "sha256=ab"

validate_hmac-hex_encode_example :
    (validate_hmac mac (1 ∷ []) ("sha256=" <> hex_encode (171 ∷ [])) "hush" ≡ true)
    ↔ (mac "hush" [] ≡ mac "hush" (1 ∷ []))
validate_hmac-hex_encode_example = validate_hmac-hex_encode mac (1 ∷ []) [] "hush" (omega arith, tt)

abbrev binary_request : Request
binary_request = record {
  header = λ k.
      if k == "Ce-Id"
      then "7"
      else if k == "Ce-Source"
      then "/shop"
      else if k == "Ce-Type"
      then "sold"
      else if k == "Ce-Specversion"
      then "1.0"
      else "";
  uuid = "u2";
}

abbrev bare_request : Request
bare_request = record { header = λ k. ""; uuid = "u3" }

abbrev whole : Fields
whole = field "id" (str "7") (
    field "source" (str "/shop") (
      field "type" (str "sold")
        (field "specversion" (str "1.0") (field "data" (object hello) end))))

cloud_event_modes_example :
    (binary structured : Event) × (handle_cloud_event binary_request (ok hello) ≡ dispatched binary)
    × (handle_cloud_event bare_request (ok whole) ≡ dispatched structured)
    × (binary.id ≡ structured.id)
    × (binary.source ≡ structured.source)
    × (binary.type ≡ structured.type)
    × (binary.payload ≡ structured.payload)
    × ((k : String) → lookup k binary.attributes ≡ lookup k structured.attributes)
unfolding lookup
cloud_event_modes_example =
    cloud_event_modes binary_request bare_request whole hello "7" "/shop" "sold" "1.0"
      (ground (arith, eq_iff "7" "")) (ground (arith, eq_iff "sold" "")) refl refl refl refl refl
      refl refl refl refl refl
