-- ===== src/Message.antt =====
-- pkg/message/message.go: the event envelope, and the ways in which events are made.
-- `encoding/json`, `encoding/base64` and `fmt`'s `%v` are the fields of `Codec`; `time.Now` is the
-- argument `now`. A map is an association list, and a nil map is the empty one.
pub mod Transport
pub mod Attributes
use event_reactor.Base.{
  ℕ, Bool, true, false, Option, none, some, List, [], ◌∷◌, map, String, ◌==◌, if◌then◌else◌,
}
use event_reactor.Base.Dict.{Dict, lookup, index, is_empty}
use event_reactor.Base.Result.{Result, ok, err, ◌>>=◌, map_err}
use event_reactor.Base.Value.{
  Value, null, str, bytes, list, strings, objects, object, string_map, Fields, end, field, entries,
  as_string, Bytes,
}

pub record Codec : Type 0 where
  -- json.Unmarshal into a map[string]any
  pub unmarshal : Bytes → Result String Fields
  -- base64.StdEncoding.DecodeString
  pub base64_decode : String → Result String Bytes
  -- []byte(s)
  pub utf8 : String → Bytes
  -- fmt.Sprintf("%v", v)
  pub sprint : Value → String

pub record Event : Type 0 where
  pub id : String
  pub source : String
  pub type : String
  -- 0 is the zero time
  pub time : ℕ
  pub attributes : Dict String
  pub payload : Value

-- The errors of the conversions, by the `fmt.Errorf` call that makes them.
pub data MessageError : Type 0 where
  missing_message message_not_object : MessageError
  bad_bytes neither_json_nor_base64 decoded_not_json : String → MessageError
  unexpected_data unsupported_payload : Value → MessageError
  decoding : MessageError → MessageError

-- Event{}
abbrev pub empty_event : Event
empty_event = record { id = ""; source = ""; type = ""; time = 0; attributes = []; payload = null }

unfoldable pub as_map : Event → Fields
as_map e = field "payload" e.payload (
    field "attributes" (string_map e.attributes)
      (field "id" (str e.id) (field "source" (str e.source) (field "type" (str e.type) end))))

unfoldable pub apply_cloud_event_attributes : Event → Dict String → Event
apply_cloud_event_attributes ev attrs =
    let ce_type = index "" "ce-type" attrs in
    let ce_source = index "" "ce-source" attrs in
    let ce_id = index "" "ce-id" attrs in
    record ev {
      type = if is_empty ce_type then ev.type else ce_type;
      source = if is_empty ce_source then ev.source else ce_source;
      id = if is_empty ce_id then ev.id else ce_id;
    }

module _ (codec : Codec) where
  -- The loop of `extractAttributes` over a map[string]any.
  unfoldable pub sprint_all : Dict Value → Dict String
  sprint_all [] = []
  sprint_all ((k, v) ∷ m) = (k, codec.sprint v) ∷ sprint_all m

  unfoldable pub attributes_of : Option Value → Dict String
  unfolding sprint_all
  attributes_of none = []
  attributes_of (some (object a)) = sprint_all (entries a)
  attributes_of (some (string_map a)) = a
  attributes_of (some _) = []

  unfoldable pub extract_attributes : Fields → Dict String
  unfolding attributes_of lookup
  extract_attributes m = attributes_of (lookup "attributes" (entries m))

  unfoldable pub decode_string_data : String → Result MessageError Value
  decode_string_data s = elim (codec.unmarshal (codec.utf8 s)) [
    | ok result ↦ ok (object result)
    | err _ ↦ do
      decoded ← map_err neither_json_nor_base64 (codec.base64_decode s)
      result ← map_err decoded_not_json (codec.unmarshal decoded)
      ok (object result)
  ]

  unfoldable pub decode_data : Value → Result MessageError Value
  unfolding decode_string_data
  decode_data (str d) = decode_string_data d
  decode_data (bytes []) = ok (object end)
  decode_data (bytes (b ∷ d)) = do
    result ← map_err bad_bytes (codec.unmarshal (b ∷ d))
    ok (object result)
  decode_data null = ok (object end)
  decode_data raw = err (unexpected_data raw)

  unfoldable pub from_pubsub_map : ℕ → Fields → Result MessageError Event
  from_pubsub_map now msg_map = do
    let attrs = extract_attributes msg_map
    let ev : Event = record empty_event {
      attributes = attrs;
      time = now;
      source = "pubsub";
      id = as_string (index null "messageId" (entries msg_map));
    }
    payload ← map_err decoding (decode_data (index null "data" (entries msg_map)))
    ok (record (apply_cloud_event_attributes ev attrs) { payload = payload })

  unfoldable pub from_pubsub_push : ℕ → Fields → Result MessageError Event
  from_pubsub_push now envelope = elim (lookup "message" (entries envelope)) [
    | none ↦ err missing_message
    | some (object msg_map) ↦ from_pubsub_map now msg_map
    | some _ ↦ err message_not_object
  ]

  unfoldable pub from_pubsub_message : ℕ → String → Dict String → Bytes → Result MessageError Event
  from_pubsub_message now id attrs body = do
    let ev : Event = record empty_event {
      id = id;
      attributes = attrs;
      time = now;
      source = "pubsub";
    }
    payload ← map_err decoding (decode_data (bytes body))
    ok (record (apply_cloud_event_attributes ev attrs) { payload = payload })

  unfoldable pub from_generic_payload : ℕ → Value → Result MessageError Event
  from_generic_payload now (object p) =
      ok (record empty_event { time = now; attributes = extract_attributes p; payload = object p })
  from_generic_payload now (objects p) =
      ok (record empty_event { time = now; payload = object (field "items" (objects p) end) })
  from_generic_payload now (list p) =
      ok (record empty_event { time = now; payload = object (field "items" (list p) end) })
  from_generic_payload now payload = err (unsupported_payload payload)
