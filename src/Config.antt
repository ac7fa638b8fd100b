-- ===== src/Config.antt =====
-- pkg/config/config.go: the server configuration, its defaults and its validation.
-- yaml.Unmarshal is the argument `unmarshal` of `parse`, and os.ReadFile is `read_file` of `load`.
pub mod Input
pub mod Defaults
pub mod Validation
use event_reactor.Base.{
  ℕ, suc, eqb, Bool, true, false, Option, none, some, List, [], ◌∷◌, String, ◌==◌, if◌then◌else◌,
}
use event_reactor.Base.Int.{ℤ, pos, negsuc}
use event_reactor.Base.Dict.{Dict, is_empty}
use event_reactor.Base.Result.{Result, ok, err, ◌>>=◌, ◌>>◌, map_err, reject_if}
use event_reactor.Base.Value.{Value, Float, Fields, Bytes}
use Input.{InputValue}

pub record HealthCheckConfig : Type 0 where
  pub liveness : String
  pub readiness : String

pub record ServerSettings : Type 0 where
  pub port : ℤ
  pub metrics_port : ℤ
  pub health_check : HealthCheckConfig

pub record LoggingConfig : Type 0 where
  pub level : String
  pub format : String

pub record TracingConfig : Type 0 where
  pub enabled : Bool
  pub exporter : String
  pub endpoint : String
  pub sample_rate : Float

pub record MetricsConfig : Type 0 where
  pub enabled : Bool
  pub prometheus : Bool

pub record ObservabilityConfig : Type 0 where
  pub logging : LoggingConfig
  pub tracing : TracingConfig
  pub metrics : MetricsConfig

pub record WebhookSecret : Type 0 where
  pub source : String
  pub secret : String

pub record AuthHandlerConfig : Type 0 where
  pub name : String
  pub type : String
  pub default_scopes : List String
  pub config : Fields

pub record AuthConfig : Type 0 where
  pub handlers : List AuthHandlerConfig
  pub webhook_secrets : List WebhookSecret

pub record ListenerConfig : Type 0 where
  pub name : String
  pub type : String
  pub config : Fields

pub record RetryConfig : Type 0 where
  pub max_attempts : ℤ
  pub backoff : String

pub record ReactorConfig : Type 0 where
  pub name : String
  pub match : String
  pub provider : String
  pub auth : String
  pub disabled : Bool
  pub fail_on_error : Option Bool
  pub inputs : Dict InputValue
  pub retry : Option RetryConfig

pub record ServerConfig : Type 0 where
  pub api_version : String
  pub kind : String
  pub server : ServerSettings
  pub observability : ObservabilityConfig
  pub auth : AuthConfig
  pub listeners : List ListenerConfig
  pub reactors : List ReactorConfig

unfoldable pub get_fail_on_error : ReactorConfig → Bool
get_fail_on_error rc = elim rc.fail_on_error [ none ↦ true | some b ↦ b ]

-- `if s == "" { s = dflt }`, and the same for an `int` and 0.
abbrev pub or_default : String → String → String
or_default dflt s = if is_empty s then dflt else s

abbrev pub or_port : ℕ → ℤ → ℤ
or_port dflt (pos n) = if eqb n 0 then pos dflt else pos n
or_port dflt (negsuc n) = negsuc n

unfoldable pub apply_defaults : ServerConfig → ServerConfig
apply_defaults cfg = record cfg {
  server = record {
    port = or_port 8080 cfg.server.port;
    metrics_port = or_port 9090 cfg.server.metrics_port;
    health_check = record {
      liveness = or_default "/health/live" cfg.server.health_check.liveness;
      readiness = or_default "/health/ready" cfg.server.health_check.readiness;
    };
  };
  observability = record cfg.observability {
    logging = record {
      level = or_default "info" cfg.observability.logging.level;
      format = or_default "json" cfg.observability.logging.format;
    };
  };
}

-- The errors by the `fmt.Errorf` call that makes them, with the index or the name that they print.
pub data ConfigError : Type 0 where
  reactor_name listener_name : ℕ → ConfigError
  reactor_provider reactor_match listener_type : String → ConfigError
  reading : String → String → ConfigError
  parsing : String → ConfigError
  validating : ConfigError → ConfigError

-- The body of the first loop of `validate`, and the loop from an index on.
unfoldable pub validate_reactor : ℕ → ReactorConfig → Result ConfigError (Unit {0})
validate_reactor i r = do
  reject_if (is_empty r.name) (reactor_name i)
  reject_if (is_empty r.provider) (reactor_provider r.name)
  reject_if (is_empty r.match) (reactor_match r.name)

unfoldable pub validate_reactors : ℕ → List ReactorConfig → Result ConfigError (Unit {0})
validate_reactors i [] = ok tt
validate_reactors i (r ∷ rs) = do validate_reactor i r; validate_reactors (suc i) rs

unfoldable pub validate_listener : ℕ → ListenerConfig → Result ConfigError (Unit {0})
validate_listener i l = do
  reject_if (is_empty l.name) (listener_name i)
  reject_if (is_empty l.type) (listener_type l.name)

unfoldable pub validate_listeners : ℕ → List ListenerConfig → Result ConfigError (Unit {0})
validate_listeners i [] = ok tt
validate_listeners i (l ∷ ls) = do validate_listener i l; validate_listeners (suc i) ls

unfoldable pub validate : ServerConfig → Result ConfigError (Unit {0})
validate cfg = do validate_reactors 0 cfg.reactors; validate_listeners 0 cfg.listeners

module _ (unmarshal : Bytes → Result String ServerConfig) where
  unfoldable pub parse : Bytes → Result ConfigError ServerConfig
  parse text = do
    parsed ← map_err parsing (unmarshal text)
    let cfg = apply_defaults parsed
    map_err validating (validate cfg)
    ok cfg

  unfoldable pub load : (String → Result String Bytes) → String → Result ConfigError ServerConfig
  load read_file path = do text ← map_err (reading path) (read_file path); parse text
