-- ===== src/Cli.antt =====
-- pkg/cmd/test.go: the commands `er test match`, `template`, `config` and `reactor`. The flags are
-- arguments; what a command prints is a list of lines, and its error is the one that it returns.
pub mod DryRun
pub mod Validity
pub mod Agreement
use event_reactor.Base.{
  ℕ, Bool, true, false, Option, none, some, List, [], ◌∷◌, length, String, ◌==◌, if◌then◌else◌,
}
use event_reactor.Base.Dict.{Dict, is_empty}
use event_reactor.Base.Result.{Result, ok, err, ◌>>=◌, map_err}
use event_reactor.Base.Value.{Value, object, Bytes}
use event_reactor.Message.{Codec, Event, MessageError, as_map, from_generic_payload}
use event_reactor.Config.{ServerConfig, ReactorConfig, ConfigError, load}
use event_reactor.Matcher
use event_reactor.Matcher.{MatcherError, match}
use event_reactor.Reactor.{Platform, Cache, ResolveError, resolve_inputs}
use event_reactor.Server.{precompile}

pub data CliError : Type 0 where
  loading : ConfigError → CliError
  reading_event : (path : String) → (error : String) → CliError
  parsing_event : (error : String) → CliError
  invalid_event : MessageError → CliError
  no_matcher : MatcherError → CliError
  evaluating : MatcherError → CliError
  invalid_match : (name : String) → MatcherError → CliError
  rendering : String → CliError
  reading_template : (path : String) → (error : String) → CliError
  template_required : CliError
  not_found : (name : String) → CliError
  resolving : ResolveError → CliError
  encoding : String → CliError

pub data Line : Type 0 where
  config_valid : (listeners reactors : ℕ) → Line
  all_valid event_matches event_does_not_match : Line
  inputs : Dict Value → Line
  input_count : ℕ → (provider : String) → Line

-- The loop that finds a reactor by its name.
unfoldable pub find_reactor : String → List ReactorConfig → Option ReactorConfig
find_reactor name [] = none
find_reactor name (rc ∷ rest) =
    let more = find_reactor name rest in if rc.name == name then some rc else more

abbrev pub found {ℓ} : {E : Type ℓ} → E → Option ReactorConfig → Result E ReactorConfig
found missing none = err missing
found missing (some rc) = ok rc

-- What the commands need of the system: files, JSON, YAML, the clock, the error of cel.NewEnv, and
-- the error of encoding the inputs.
pub record Tools : Type 0 where
  pub codec : Codec
  pub now : ℕ
  pub unmarshal : Bytes → Result String ServerConfig
  pub read_bytes : String → Result String Bytes
  pub new_env : Option String
  pub encode : Dict Value → Option String

module _ (pf : Platform) (tl : Tools) where
  unfoldable pub load_event_file : String → Result CliError Event
  load_event_file path = do
    text ← map_err (reading_event path) (tl.read_bytes path)
    payload ← map_err parsing_event (tl.codec.unmarshal text)
    map_err invalid_event (from_generic_payload tl.codec tl.now (object payload))

  unfoldable pub resolve_template : (inline file : String) → Result CliError String
  resolve_template inline file =
      if is_empty inline
      then if is_empty file
        then err template_required
        else map_err (reading_template file) (pf.read_file file)
      else ok inline

  unfoldable pub new_matcher : Result CliError (Cache pf)
  new_matcher = map_err no_matcher (Matcher.new pf.cel tl.new_env)

  -- `er test match`: whether it prints MATCH.
  unfoldable pub test_match : (expr event_file : String) → Result CliError Bool
  test_match expr event_file = do
    event ← load_event_file event_file
    m ← new_matcher
    map_err evaluating (match pf.cel expr event m).0

  -- `er test template`: what it prints.
  unfoldable pub test_template : (inline file event_file : String) → Result CliError String
  test_template inline file event_file = do
    tmpl ← resolve_template inline file
    event ← load_event_file event_file
    map_err rendering (pf.render tmpl (as_map event))

  -- The lines that are printed before an error, and the error.
  abbrev pub Printed : Type 0
  Printed = List Line × Option CliError

  abbrev pub config_end : Line → Result CliError (Unit {0}) → Printed
  config_end line (err e) = (line ∷ [], some e)
  config_end line (ok u) = (line ∷ all_valid ∷ [], none)

  -- After the configuration has been read.
  unfoldable pub test_reactors : ServerConfig → Printed
  test_reactors cfg =
      let line = config_valid (length cfg.listeners) (length cfg.reactors) in
      elim new_matcher [
        | err e ↦ (line ∷ [], some e)
        | ok m ↦ config_end line (precompile pf invalid_match cfg.reactors m).0
      ]

  -- `er test config`
  unfoldable pub test_config : String → Printed
  test_config path = elim (load tl.unmarshal tl.read_bytes path) [
    | err e ↦ ([], some (loading e))
    | ok cfg ↦ test_reactors cfg
  ]

  abbrev pub encoded : Dict Value → Option String → Printed
  encoded resolved none = (event_matches ∷ inputs resolved ∷ [], none)
  encoded resolved (some e) = (event_matches ∷ [], some (encoding e))

  -- The last lines of `er test reactor`, once the inputs have been resolved.
  abbrev pub show_inputs : (dry_run : Bool) → ReactorConfig → Dict Value → Printed
  show_inputs true rc resolved = encoded resolved (tl.encode resolved)
  show_inputs false rc resolved =
      (event_matches ∷ input_count (length resolved) rc.provider ∷ [], none)

  -- From the test of the match on.
  unfoldable pub try_reactor : (dry_run : Bool) → ReactorConfig → Event → Cache pf → Printed
  try_reactor dry_run rc event m =
      let (r, m') = match pf.cel rc.match event m in
      elim r [
        | err e ↦ ([], some (evaluating e))
        | ok false ↦ (event_does_not_match ∷ [], none)
        | ok true ↦ elim (resolve_inputs pf rc event m').0 [
          | err e ↦ (event_matches ∷ [], some (resolving e))
          | ok resolved ↦ show_inputs dry_run rc resolved
        ]
      ]

  -- What `er test reactor` needs before it prints anything.
  unfoldable pub prepare :
      (config_file event_file name : String) → Result CliError (ReactorConfig × Event × Cache pf)
  prepare config_file event_file name = do
    cfg ← map_err loading (load tl.unmarshal tl.read_bytes config_file)
    event ← load_event_file event_file
    m ← new_matcher
    rc ← found (not_found name) (find_reactor name cfg.reactors)
    ok (rc, event, m)

  -- `er test reactor`
  unfoldable pub test_reactor : (dry_run : Bool) → (config_file event_file name : String) → Printed
  test_reactor dry_run config_file event_file name = elim (prepare config_file event_file name) [
    | err e ↦ ([], some e)
    | ok (rc, event, m) ↦ try_reactor dry_run rc event m
  ]
