-- ===== src/Server.antt =====
-- pkg/cmd/root.go: what `er run server` sets up before it serves. The flags are those of the command
-- line library; the HTTP server and the listeners then run until one fails or a signal comes.
pub mod Startup
pub mod Dispatch
pub mod Replies
pub mod Webhooks
pub mod Pulling
pub mod Running
pub mod Shutdown
pub mod Stopping
use event_reactor.Base.{
  Bool, true, false, Option, none, some, List, [], ◌∷◌, String, ◌==◌, if◌then◌else◌,
}
use event_reactor.Base.Int.{ℤ}
use event_reactor.Base.Dict.{is_empty}
use event_reactor.Base.Result.{Result, ok, err, ◌>>=◌, ◌>>◌, map_err}
use event_reactor.Base.Value.{Value, Float, Bytes}
use event_reactor.Config.{
  ServerConfig, ReactorConfig, ListenerConfig, AuthHandlerConfig, ConfigError, load,
}
use event_reactor.Matcher
use event_reactor.Matcher.{MatcherError, compile}
use event_reactor.Auth
use event_reactor.Auth.{AuthRegistry, AuthError}
use event_reactor.Reactor.{Platform, Cache, new_registry}
use event_reactor.Adapter
use event_reactor.Adapter.{Adapter, with_auth}
use event_reactor.Listener
use event_reactor.Listener.{PubsubListener, ListenerError}
use event_reactor.Api.Routes.{Router, register_routes}
use event_reactor.Providers.{Environment, register_all}

pub data StartError : Type 0 where
  loading_config : ConfigError → StartError
  creating_matcher : MatcherError → StartError
  compiling_match : (name : String) → MatcherError → StartError
  initializing_auth : AuthError → StartError
  building_listener : (name : String) → ListenerError → StartError
  -- not an error that is returned, but the panic of gin in `api.New`
  panicking : String → StartError

-- What the program runs on besides a `Platform`.
pub record Host : Type 0 where
  pub unmarshal : Bytes → Result String ServerConfig
  pub read_config : String → Result String Bytes
  -- the error of cel.NewEnv
  pub new_env : Option String
  pub environment : Environment
  pub sprint : Value → String
  pub wild : Float → ℤ
  pub router : Router

module _ (pf : Platform) where
  -- The loop that compiles the expressions of the reactors, and the error that it returns.
  unfoldable pub precompile {ℓ} :
      {E : Type ℓ}
      → (String → MatcherError → E)
      → List ReactorConfig
      → Cache pf
      → Result E (Unit {0}) × Cache pf
  precompile report [] m = (ok tt, m)
  precompile report (rc ∷ rest) m =
      let (r, m') = compile pf.cel rc.match m in
      elim (is_empty rc.match) [
        | true ↦ precompile report rest m
        | false ↦ elim r [
          | err e ↦ (err (report rc.name e), m')
          | ok prg ↦ precompile report rest m'
        ]
      ]

module _ (host : Host) where
  -- The auth handlers, if there are any.
  unfoldable pub make_auth : List AuthHandlerConfig → Result StartError (Option AuthRegistry)
  make_auth [] = ok none
  make_auth (h ∷ hs) = do
    registry ← map_err initializing_auth (Auth.new_registry host.sprint (h ∷ hs))
    ok (some registry)

  -- The loop over the listeners.
  unfoldable pub build_listeners : List ListenerConfig → Result StartError (List PubsubListener)
  build_listeners [] = ok []
  build_listeners (lc ∷ rest) = do
    built ← map_err (building_listener lc.name) (Listener.build host.wild lc)
    more ← build_listeners rest
    ok (elim built [ none ↦ more | some l ↦ l ∷ more ])

pub record Started (pf : Platform) : Type 0 where
  pub adapter : Adapter pf
  pub matcher : Cache pf
  pub listeners : List PubsubListener

module _ (pf : Platform) (host : Host) where
  abbrev pub use_auth : Option AuthRegistry → Adapter pf → Adapter pf
  use_auth none a = a
  use_auth (some registry) a = with_auth pf a registry

  -- The expressions that compile are in the matcher that the adapter is given.
  abbrev pub compiled : Result StartError (Unit {0}) × Cache pf → Result StartError (Cache pf)
  compiled (ok u, m) = ok m
  compiled (err e, m) = err e

  -- What `api.New` does with the routes.
  abbrev pub routed : ServerConfig → Result StartError (Unit {0})
  routed cfg = elim (host.router.refuses (register_routes cfg)) [
    | none ↦ ok tt
    | some e ↦ err (panicking e)
  ]

  -- `runServer`, up to the start of the HTTP server.
  unfoldable pub run_server : String → Result StartError (Started pf)
  run_server path = do
    cfg ← map_err loading_config (load host.unmarshal host.read_config path)
    empty ← map_err creating_matcher (Matcher.new pf.cel host.new_env)
    m ← compiled (precompile pf compiling_match cfg.reactors empty)
    let registry = register_all host.environment new_registry
    auth ← make_auth host cfg.auth.handlers
    listeners ← build_listeners host cfg.listeners
    routed cfg
    ok (record {
      adapter = use_auth auth (Adapter.new pf cfg registry);
      matcher = m;
      listeners = listeners;
    })
