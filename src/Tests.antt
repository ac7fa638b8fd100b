-- ===== src/Tests.antt =====
-- Concrete instances of what the models take as parameters, on which the theorems are tried.
pub mod Dispatch
pub mod Inputs
pub mod Requests
pub mod Mails
pub mod Settings
pub mod Stdio
pub mod Serving
pub mod Calls
pub mod Commands
pub mod Limits
pub mod Routing
pub mod Pulling
pub mod Lifecycles
use event_reactor.Base.{
  ℕ, eqb, Bool, true, false, Option, none, some, List, [], ◌∷◌, String, ◌==◌, if◌then◌else◌,
}
use event_reactor.Base.Int.{ℤ, pos}
use event_reactor.Base.Result.{Result, ok, err}
use event_reactor.Base.Value.{Value, null, bool, str, Fields, end, field, Bytes, Float}
use event_reactor.Message.{Codec, Event}
use event_reactor.Config.{ReactorConfig, ServerConfig}
use event_reactor.Config.Input
use event_reactor.Config.Input.{InputValue}
use event_reactor.Matcher.{Cel, Matcher}
use event_reactor.Auth.{AuthRegistry, static_token}
use event_reactor.Reactor.{Platform, Cache, Provider, Registry, ReactorResult}
use event_reactor.Adapter.{Adapter}

abbrev pub hello : Fields
hello = field "text" (str "hello") end

-- Every text that begins with the byte of "{" is the object `hello`; "eyJ9" is base64.
abbrev pub read_json : Bytes → Result String Fields
read_json [] = err "no input"
read_json (b ∷ bs) = if eqb b 123 then ok hello else err "bad character"

abbrev pub codec : Codec
codec = record {
  unmarshal = read_json;
  base64_decode =
      λ s. if s == "eyJ9" then ok (123 ∷ 125 ∷ []) else if s == "" then ok [] else err s;
  utf8 = λ s. if s == "" then [] else 120 ∷ [];
  sprint = λ v. "printed";
}

-- Expressions are texts; the one that is true is "true", and "(" does not compile.
abbrev pub cel : Cel
cel = record {
  Ast = String;
  Program = String;
  Val = Bool;
  check = λ s. if s == "(" then err "unbalanced" else ok s;
  program = λ a. ok a;
  eval = λ p fs. if p == "missing" then err "no such key" else ok (p == "true");
  is_true = λ b. b;
  native = λ b. bool b;
}

abbrev pub platform : Platform
platform = record {
  cel = cel;
  read_file = λ path. if path == "/etc/motd" then ok "welcome" else err "not found";
  getenv = λ name. if name == "USER" then "root" else "";
  render = λ tmpl fs. ok tmpl;
}

abbrev pub no_cache : Cache platform
no_cache = record { cache = [] }

abbrev pub event : Event
event = record {
  id = "1";
  source = "pubsub";
  type = "created";
  time = 5;
  attributes = ("kind", "test") ∷ [];
  payload = Value.object hello;
}

abbrev pub from_expr : String → InputValue
from_expr e = Input.new_input_expr e

abbrev pub notify : ReactorConfig
notify = record {
  name = "notify";
  match = "true";
  provider = "echo";
  auth = "";
  disabled = false;
  fail_on_error = none;
  inputs = ("to", InputValue.static (str "ops")) ∷ ("urgent", InputValue.static (bool true)) ∷ [];
  retry = none;
}

abbrev pub quiet : ReactorConfig
quiet = record notify { name = "quiet"; match = "false" }

abbrev pub echoed : ReactorResult
echoed = record { provider = "echo"; reactor_name = ""; output = null; error = none }

abbrev pub echo : Provider
echo = record { name = "echo"; execute = λ ctx inputs ev. (some echoed, none) }

abbrev pub registry : Registry
registry = record { providers = ("echo", echo) ∷ [] }

abbrev pub tokens : AuthRegistry
tokens = record { handlers = ("bot", static_token "bot" "abc" "Bearer") ∷ [] }

abbrev pub server : ServerConfig
server = record {
  api_version = "v1";
  kind = "Server";
  server = record {
    port = pos 0;
    metrics_port = pos 0;
    health_check = record { liveness = ""; readiness = "" };
  };
  observability = record {
    logging = record { level = ""; format = "text" };
    tracing = record {
      enabled = false;
      exporter = "";
      endpoint = "";
      sample_rate = Float.finite (pos 1) 0 1;
    };
    metrics = record { enabled = true; prometheus = true };
  };
  auth = record { handlers = []; webhook_secrets = [] };
  listeners = [];
  reactors = notify ∷ quiet ∷ [];
}

abbrev pub adapter : Adapter platform
adapter = record { cfg = server; registry = registry; auth = some tokens }
