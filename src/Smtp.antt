-- ===== src/Smtp.antt =====
-- pkg/reactor/providers/providers.go: the inputs of the SMTP provider, and `Execute`.
-- `fmt.Sprintf("%d", n)` and what the platform makes of a float64 that no `int` can hold are the
-- fields of `Formats`. The errors of `parseSMTPInput` are the texts that it formats.
pub mod Session
pub mod Retry
pub mod Mail
pub mod Bounds
pub mod Headers
pub mod Attempts
pub mod Transcript
pub mod Execute
pub mod Password
pub mod Reading
use event_reactor.Base.{
  ℕ, ltb, Bool, true, false, not, any, length, Option, none, some, List, [], ◌∷◌, String, ◌==◌,
  if◌then◌else◌,
}
use event_reactor.Base.Int.{ℤ, pos, negsuc}
use event_reactor.Base.Dict.{Dict, lookup, index, is_empty}
use event_reactor.Base.Text.{has_crlf}
use event_reactor.Base.Result.{Result, ok, err, ◌>>=◌, ◌>>◌, reject_if}
use event_reactor.Base.Value.{
  Value, null, bool, int, float, str, list, strings, elements, as_string, Float, to_int,
}

pub record Formats : Type 0 where
  pub show_int : ℤ → String
  pub wild : Float → ℤ

pub record SmtpParams : Type 0 where
  pub host : String
  pub port : String
  pub from : String
  pub to : List String
  pub cc : List String
  pub bcc : List String
  pub subject : String
  pub body : String
  pub content_type : String
  pub username : String
  pub password : String
  pub start_tls : Bool
  pub max_retries : ℕ

-- The loops of `smtpExtractRecipients`, over a []string and over a []any.
unfoldable pub non_empty : List String → List String
non_empty [] = []
non_empty (s ∷ ss) = let rest = non_empty ss in if is_empty s then rest else s ∷ rest

unfoldable pub texts : List Value → List String
texts [] = []
texts (v ∷ vs) = as_string v ∷ texts vs

unfoldable pub extract_recipients : Value → List String
unfolding non_empty texts
extract_recipients (str v) = non_empty (v ∷ [])
extract_recipients (strings v) = non_empty v
extract_recipients (list v) = non_empty (texts (elements v))
extract_recipients _ = []

abbrev pub default_port : String
default_port = "587"

abbrev pub is_nil : List String → Bool
is_nil [] = true
is_nil (s ∷ ss) = false

-- `maxRetries` with its two bounds.
unfoldable pub clamp_retries : ℤ → ℕ
clamp_retries (negsuc n) = 0
clamp_retries (pos n) = if ltb 10 n then 10 else n

abbrev pub input : String → Dict Value → Value
input key inputs = index null key inputs

abbrev pub text_input : String → Dict Value → String
text_input key inputs = as_string (input key inputs)

abbrev pub as_bool : Value → Option Bool
as_bool (bool b) = some b
as_bool _ = none

-- The first of the two flags that is a bool, or the default.
abbrev pub flag : Bool → Option Bool → Option Bool → Bool
flag dflt (some v) lower = v
flag dflt none (some v) = v
flag dflt none none = dflt

unfoldable pub start_tls_flag : String → Dict Value → Bool
start_tls_flag username inputs =
    flag (not (is_empty username)) (as_bool (input "startTLS" inputs))
      (as_bool (input "starttls" inputs))

module _ (fmt : Formats) where
  unfoldable pub extract_port : Value → String
  extract_port (str v) = if is_empty v then default_port else v
  extract_port (int v) = fmt.show_int v
  extract_port (float v) = fmt.show_int (to_int fmt.wild v)
  extract_port _ = default_port

  unfoldable pub extract_int : Value → ℤ
  extract_int (int v) = v
  extract_int (float v) = to_int fmt.wild v
  extract_int _ = pos 0

  unfoldable pub parse_smtp_input : Dict Value → Result String SmtpParams
  parse_smtp_input inputs = do
    let host = text_input "host" inputs
    reject_if (is_empty host) "host is required"
    reject_if (has_crlf host) "host contains invalid characters"
    let from = text_input "from" inputs
    reject_if (is_empty from) "from is required"
    reject_if (has_crlf from) "from contains invalid characters"
    let to = extract_recipients (input "to" inputs)
    reject_if (is_nil to) "to is required (at least one recipient)"
    reject_if (any has_crlf to) "to address contains invalid characters"
    let subject = text_input "subject" inputs
    reject_if (is_empty subject) "subject is required"
    reject_if (has_crlf subject) "subject contains invalid characters"
    let body = text_input "body" inputs
    reject_if (is_empty body) "body is required"
    let given_type = text_input "contentType" inputs
    let content_type = if is_empty given_type then "text/plain" else given_type
    reject_if (has_crlf content_type) "contentType contains invalid characters"
    let username = text_input "username" inputs
    let cc = extract_recipients (input "cc" inputs)
    reject_if (any has_crlf cc) "cc address contains invalid characters"
    let bcc = extract_recipients (input "bcc" inputs)
    reject_if (any has_crlf bcc) "bcc address contains invalid characters"
    ok (record {
      host = host;
      port = extract_port (input "port" inputs);
      from = from;
      to = to;
      cc = cc;
      bcc = bcc;
      subject = subject;
      body = body;
      content_type = content_type;
      username = username;
      password = text_input "password" inputs;
      start_tls = start_tls_flag username inputs;
      max_retries = clamp_retries (extract_int (input "maxRetries" inputs));
    })
