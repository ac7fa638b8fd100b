-- ===== src/Adapter.antt =====
-- pkg/adapter/adapter.go: the dispatch of an event to the reactors that match it.
-- Logging is left out. A goroutine of `HandleEvent` is an element of a list; what it does is
-- `execute_reactor`, and Adapter/Schedule.antt lets the goroutines run in any order.
pub mod Schedule
pub mod Execution
pub mod Outcome
pub mod Progress
use event_reactor.Base.{
  Bool, true, false, not, ◌&&◌, Option, none, some, List, [], ◌∷◌, String, ◌==◌, if◌then◌else◌,
}
use event_reactor.Base.Dict.{Dict, is_empty}
use event_reactor.Base.Result.{Result, ok, err}
use event_reactor.Base.Value.{Value, null}
use event_reactor.Message.{Event}
use event_reactor.Config.{ServerConfig, ReactorConfig}
use event_reactor.Matcher.{Matcher, MatcherError, match}
use event_reactor.Auth.{AuthRegistry, get_token, header}
use event_reactor.Reactor.{
  Platform, Cache, Context, with_auth_header, Registry, Provider, ReactorResult, ReactionError,
  resolving_inputs, no_auth_registry, auth_token, execution, get, resolve_inputs,
}

-- What a goroutine ends with: a result, or a panic that ends the process.
pub data Run : Type 0 where
  returns : ReactorResult → Run
  panics : Run

-- The reactor.Result of an early return of `executeReactor`.
abbrev pub failed : ReactorConfig → ReactionError → ReactorResult
failed rc e = record {
  provider = rc.provider;
  reactor_name = rc.name;
  output = null;
  error = some e;
}

-- The context with which the provider is called. `auth` is a nil pointer where it is `none`.
unfoldable pub authorize :
    Option AuthRegistry → ReactorConfig → Context → Result ReactionError Context
authorize auth rc ctx = if is_empty rc.auth then ok ctx else elim auth [
  | none ↦ err (no_auth_registry rc.name rc.auth)
  | some registry ↦ elim (get_token registry rc.auth) [
    | err e ↦ err (auth_token e)
    | ok tok ↦ ok (with_auth_header ctx (header tok))
  ]
]

-- The last part: `Execute` and the name that is set in its result. Reading a nil result panics.
unfoldable pub finish : ReactorConfig → Option ReactorResult × Option String → Run
finish rc (result, some e) = returns (failed rc (execution e))
finish rc (some result, none) = returns (record result { reactor_name = rc.name })
finish rc (none, none) = panics

-- The provider that is found is called.
unfoldable pub call_provider : Registry → ReactorConfig → Event → Context → Dict Value → Run
call_provider registry rc event ctx inputs = elim (get registry rc.provider) [
  | err e ↦ returns (failed rc e)
  | ok p ↦ finish rc (p.execute ctx inputs event)
]

unfoldable pub with_inputs :
    Registry → Option AuthRegistry → Context → ReactorConfig → Event → Dict Value → Run
with_inputs registry auth ctx rc event inputs = elim (authorize auth rc ctx) [
  | err e ↦ returns (failed rc e)
  | ok ctx' ↦ call_provider registry rc event ctx' inputs
]

module _ (pf : Platform) where
  -- The fields that `HandleEvent` reads; the matcher is passed on its own.
  pub record Adapter : Type 0 where
    pub cfg : ServerConfig
    pub registry : Registry
    pub auth : Option AuthRegistry

  unfoldable pub new : ServerConfig → Registry → Adapter
  new cfg registry = record { cfg = cfg; registry = registry; auth = none }

  unfoldable pub with_auth : Adapter → AuthRegistry → Adapter
  with_auth a ar = record a { auth = some ar }

  unfoldable pub execute_reactor :
      Adapter → Context → ReactorConfig → Event → Cache pf → Run × Cache pf
  execute_reactor a ctx rc event m =
      let (r, m') = resolve_inputs pf rc event m in
      elim r [
        | err e ↦ (returns (failed rc (resolving_inputs e)), m')
        | ok inputs ↦ (with_inputs a.registry a.auth ctx rc event inputs, m')
      ]

  -- The tests of the loop of `HandleEvent` on one reactor: whether a goroutine is started for it.
  unfoldable pub starts : Result MatcherError Bool → Bool
  starts (err e) = false
  starts (ok matched) = matched

  unfoldable pub consider : ReactorConfig → Event → Cache pf → Bool × Cache pf
  consider rc event m =
      let (r, m') = match pf.cel rc.match event m in
      if rc.disabled then (false, m) else (starts r, m')
