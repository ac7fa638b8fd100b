-- ===== src/Providers.antt =====
-- pkg/reactor/providers/providers.go: the providers echo, http, exec and log, and `RegisterAll`.
-- net/http, os/exec, encoding/json and fmt are the fields of `Environment`; what is logged is a value.
pub mod Headers
pub mod Builtin
pub mod Replies
pub mod Authorized
use event_reactor.Base.{
  ℕ, leb, Bool, true, false, ◌||◌, Option, none, some, List, [], ◌∷◌, map, String, ◌==◌,
  if◌then◌else◌,
}
use event_reactor.Base.Int.{ℤ, pos}
use event_reactor.Base.Dict.{Dict, lookup, insert, is_empty}
use event_reactor.Base.Result.{Result, ok, err, ◌>>=◌, ◌>>◌, map_err, reject_if}
use event_reactor.Base.Text.{◌<>◌}
use event_reactor.Base.Value.{
  Value, bool, int, str, list, object, Fields, end, field, fields, entries, elements,
}
use event_reactor.Message.{Event}
use event_reactor.Reactor.{Context, auth_header, Provider, ReactorResult, Registry, register}
use event_reactor.Smtp.{Formats, SmtpParams, text_input}
use event_reactor.Smtp.Retry.{Sent}
use event_reactor.Smtp.Execute

-- The arguments of http.NewRequestWithContext, and the headers that are set.
pub record HttpRequest : Type 0 where
  pub method : String
  pub url : String
  pub headers : Dict String
  pub body : Option String

pub record HttpResponse : Type 0 where
  pub status : ℕ
  pub body : String

-- exec.Cmd: what is set of it, and what is known once it has run.
pub record ExecCommand : Type 0 where
  pub command : String
  pub args : List String
  pub dir : Option String
  pub stdin : Option String

pub record ExecOutcome : Type 0 where
  pub stdout : String
  pub stderr : String
  pub exit_code : ℤ
  pub error : Option String

pub record Environment : Type 0 where
  -- json.Marshal, fmt.Sprint and `%d`
  pub marshal : Value → Result String String
  pub sprint : Value → String
  pub show : ℕ → String
  -- strings.ToLower, and textproto.CanonicalMIMEHeaderKey
  pub lower : String → String
  pub canonical : String → String
  -- the error of http.NewRequestWithContext; Client.Do; Cmd.Run
  pub check_request : (method url : String) → Option String
  pub send : HttpRequest → Result String HttpResponse
  pub run : ExecCommand → ExecOutcome
  -- what the SMTP provider needs
  pub formats : Formats
  pub deliver : SmtpParams → Sent

-- A reactor.Result with no reactor name and no error, as every provider makes it.
abbrev pub result_of : String → Value → ReactorResult
result_of name out = record { provider = name; reactor_name = ""; output = out; error = none }

-- What the log provider logs.
pub data Severity : Type 0 where
  at_error at_warn at_debug at_info : Severity

abbrev pub Answer : Type 0
Answer = Option ReactorResult × Option String

unfoldable pub echo_execute : Dict Value → Answer
echo_execute inputs = (some (result_of "echo" (object (fields inputs))), none)

abbrev pub text? : Option Value → Option String
text? (some (str s)) = some s
text? _ = none

module _ (env : Environment) where
  -- req.Header.Set
  abbrev pub set_header : String → String → Dict String → Dict String
  set_header key val headers = insert (env.canonical key) val headers

  unfoldable pub body_of : Option Value → Result String (Option String)
  body_of none = ok none
  body_of (some (str s)) = ok (some s)
  body_of (some v) = do
    text ← map_err (λ e. "http provider: marshaling body: " <> e) (env.marshal v)
    ok (some text)

  abbrev pub set_content_type : Option String → Option String → Dict String → Dict String
  set_content_type (some type) body headers = set_header "Content-Type" type headers
  set_content_type none (some body) headers = set_header "Content-Type" "application/json" headers
  set_content_type none none headers = headers

  abbrev pub set_authorization : Option String → Dict String → Dict String
  set_authorization none headers = headers
  set_authorization (some val) headers = set_header "Authorization" val headers

  -- The loop over the "headers" input, in the order in which the map gives them.
  unfoldable pub set_all : Dict Value → Dict String → Dict String
  set_all [] headers = headers
  set_all ((key, val) ∷ rest) headers = set_all rest (set_header key (env.sprint val) headers)

  abbrev pub given_headers : Option Value → Dict Value
  given_headers (some (object hs)) = entries hs
  given_headers _ = []

  unfoldable pub request_headers : Context → Dict Value → Option String → Dict String
  request_headers ctx inputs body = set_all (given_headers (lookup "headers" inputs)) (
      set_authorization (auth_header ctx)
        (set_content_type (text? (lookup "contentType" inputs)) body []))

  abbrev pub method_or_post : String → String
  method_or_post m = if is_empty m then "POST" else m

  abbrev pub as_error : Option String → Result String (Unit {0})
  as_error none = ok tt
  as_error (some e) = err ("http provider: creating request: " <> e)

  -- `Execute` up to `Client.Do`.
  unfoldable pub build_request : Context → Dict Value → Result String HttpRequest
  build_request ctx inputs = do
    let method = method_or_post (text_input "method" inputs)
    let url = text_input "url" inputs
    reject_if (is_empty url) "http provider: url is required"
    body ← body_of (lookup "body" inputs)
    as_error (env.check_request method url)
    ok (record {
      method = method;
      url = url;
      headers = request_headers ctx inputs body;
      body = body;
    })

  abbrev pub http_output : HttpResponse → Value
  http_output resp =
      object (field "statusCode" (int (pos resp.status)) (field "body" (str resp.body) end))

  unfoldable pub http_answer : HttpResponse → Answer
  http_answer resp = (
    some (result_of "http" (http_output resp)),
    if leb 400 resp.status then some ("http provider: status " <> env.show resp.status) else none,
  )

  unfoldable pub http_execute : Context → Dict Value → Answer
  http_execute ctx inputs = elim (build_request ctx inputs) [
    | err e ↦ (none, some e)
    | ok req ↦ elim (env.send req) [
      | err e ↦ (none, some ("http provider: request failed: " <> e))
      | ok resp ↦ http_answer resp
    ]
  ]

  abbrev pub arguments : Option Value → List String
  arguments (some (list vs)) = map env.sprint (elements vs)
  arguments _ = []

  unfoldable pub exec_command : Dict Value → ExecCommand
  exec_command inputs = record {
    command = text_input "command" inputs;
    args = arguments (lookup "args" inputs);
    dir = text? (lookup "dir" inputs);
    stdin = text? (lookup "stdin" inputs);
  }

  abbrev pub exec_output : ExecOutcome → Value
  exec_output out = object (
      field "stdout" (str out.stdout)
        (field "stderr" (str out.stderr) (field "exitCode" (int out.exit_code) end)))

  abbrev pub exec_error : Option String → Option String
  exec_error none = none
  exec_error (some e) = some ("exec provider: " <> e)

  unfoldable pub exec_execute : Dict Value → Answer
  exec_execute inputs =
      let out = env.run (exec_command inputs) in
      if is_empty (text_input "command" inputs)
      then (none, some "exec provider: command is required")
      else (some (result_of "exec" (exec_output out)), exec_error out.error)

  -- The name under which each provider registers itself.
  unfoldable pub echo_provider : Provider
  echo_provider = record { name = "echo"; execute = λ ctx inputs ev. echo_execute inputs }

  unfoldable pub http_provider : Provider
  http_provider = record { name = "http"; execute = λ ctx inputs ev. http_execute ctx inputs }

  unfoldable pub exec_provider : Provider
  exec_provider = record { name = "exec"; execute = λ ctx inputs ev. exec_execute inputs }

  unfoldable pub log_level : String → Severity
  log_level level =
      let l = env.lower level in
      if l == "error"
      then at_error
      else if (l == "warn") || (l == "warning")
      then at_warn
      else if l == "debug"
      then at_debug
      else at_info

  -- What is logged with the inputs: the level and the message.
  unfoldable pub log_entry : Dict Value → Event → Severity × String
  log_entry inputs ev =
      let msg = text_input "message" inputs in
      (
        log_level (text_input "level" inputs),
        if is_empty msg then "event " <> ev.id <> " from " <> ev.source else msg,
      )

  -- `Execute` of the log provider: its result does not depend on what it logs.
  unfoldable pub log_provider : Provider
  log_provider = record {
    name = "log";
    execute =
        λ ctx inputs ev. (some (result_of "log" (object (field "logged" (bool true) end))), none);
  }

  unfoldable pub smtp_provider : Provider
  smtp_provider = record {
    name = "smtp";
    execute = λ ctx inputs ev. Execute.execute env.formats env.deliver ctx inputs;
  }

  unfoldable pub register_all : Registry → Registry
  register_all reg =
      register
        (register (register (register (register reg echo_provider) http_provider) exec_provider)
          log_provider)
        smtp_provider
