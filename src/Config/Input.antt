-- ===== src/Config/Input.antt =====
-- pkg/config/config.go: a reactor's input, read from YAML and taken apart by its accessors.
use event_reactor.Base.{
  Bool, true, false, ◌||◌, Option, none, some, List, [], String, if◌then◌else◌,
}
use event_reactor.Base.Result.{Result, ok, err}
use event_reactor.Base.Value.{Value, null, str}

pub record SecretKeyRef : Type 0 where
  pub name : String
  pub project_id : String
  pub version : String
  pub path : String

-- inputValueYAML; the one field of PayloadValueRef and that of ValueFromRef stand for them.
pub record ComplexInput : Type 0 where
  pub template : Option String
  pub expr : Option String
  pub payload_value : Option (List String)
  pub value_from : Option (Option SecretKeyRef)
  pub from_file : Option String
  pub from_env : Option String

-- The dynamic type of `value` is inputValueYAML, or another.
pub data InputValue : Type 0 where
  complex : ComplexInput → InputValue
  static : Value → InputValue

-- yaml.Node: its kind, and what decoding it into a type gives.
pub record Node : Type 0 where
  pub is_scalar : Bool
  pub as_text : Result String String
  pub as_complex : Result String ComplexInput
  pub as_any : Result String Value

pub data InputError : Type 0 where
  decoding_input : String → InputError

abbrev is_set {ℓ} : {A : Type ℓ} → Option A → Bool
is_set none = false
is_set (some a) = true

-- `cplx.Template != nil || …`
unfoldable pub has_special_key : ComplexInput → Bool
has_special_key c =
    is_set c.template
    || is_set c.expr
    || is_set c.payload_value
    || is_set c.value_from
    || is_set c.from_file
    || is_set c.from_env

unfoldable pub decode_generic : Node → Result InputError InputValue
decode_generic node = elim node.as_any [
  | err e ↦ err (decoding_input e)
  | ok generic ↦ ok (static generic)
]

unfoldable pub decode_complex : Node → Result InputError InputValue
decode_complex node = elim node.as_complex [
  | err _ ↦ decode_generic node
  | ok c ↦ if has_special_key c then ok (complex c) else decode_generic node
]

unfoldable pub unmarshal_yaml : Node → Result InputError InputValue
unmarshal_yaml node =
    if node.is_scalar
    then elim node.as_text [ ok s ↦ ok (static (str s)) | err _ ↦ decode_complex node ]
    else decode_complex node

unfoldable pub is_static : InputValue → Bool
is_static (complex c) = false
is_static (static v) = true

unfoldable pub static_value : InputValue → Value
static_value (complex c) = null
static_value (static v) = v

abbrev text_or_empty : Option String → String
text_or_empty none = ""
text_or_empty (some s) = s

unfoldable pub template : InputValue → String
template (complex c) = text_or_empty c.template
template (static v) = ""

unfoldable pub expr : InputValue → String
expr (complex c) = text_or_empty c.expr
expr (static v) = ""

unfoldable pub payload_paths : InputValue → List String
payload_paths (complex c) = elim c.payload_value [ none ↦ [] | some paths ↦ paths ]
payload_paths (static v) = []

unfoldable pub secret_ref : InputValue → Option SecretKeyRef
secret_ref (complex c) = elim c.value_from [ none ↦ none | some ref ↦ ref ]
secret_ref (static v) = none

unfoldable pub file_path : InputValue → String
file_path (complex c) = text_or_empty c.from_file
file_path (static v) = ""

unfoldable pub env_var : InputValue → String
env_var (complex c) = text_or_empty c.from_env
env_var (static v) = ""

-- What a constructor leaves unset.
abbrev pub no_keys : ComplexInput
no_keys = record {
  template = none;
  expr = none;
  payload_value = none;
  value_from = none;
  from_file = none;
  from_env = none;
}

unfoldable pub new_input_static : Value → InputValue
new_input_static v = static v

unfoldable pub new_input_template : String → InputValue
new_input_template tmpl = complex (record no_keys { template = some tmpl })

unfoldable pub new_input_expr : String → InputValue
new_input_expr e = complex (record no_keys { expr = some e })
