-- ===== src/Providers/Builtin.antt =====
-- pkg/reactor/providers/providers.go and pkg/adapter/adapter.go: the adapter with the providers that
-- `RegisterAll` registers.
use event_reactor.Base.{Option, arith, inl, inr}
use event_reactor.Base.Dict.{Entries, Entries-insert}
use event_reactor.Base.Result.{Result-cases}
use event_reactor.Message.{Event}
use event_reactor.Config.{ServerConfig}
use event_reactor.Auth.{AuthRegistry}
use event_reactor.Reactor.{Platform, Cache, Context, Provider, Registry, new_registry, register}
use event_reactor.Adapter.{Adapter}
use event_reactor.Adapter.Outcome.{GivesResult}
use event_reactor.Adapter.Progress.{handle_event_total}
use event_reactor.Adapter.Schedule.{Handling, Reach, start, IsDone}
use event_reactor.Smtp.Password.{execute-GivesResult}
use event_reactor.Providers.{
  Environment, echo_provider, http_provider, exec_provider, log_provider, smtp_provider,
  echo_execute, http_execute, http_answer, exec_execute, build_request, register_all,
}

module _ (env : Environment) where
  http-GivesResult : GivesResult (http_provider env)
  unfolding http_provider http_execute http_answer
  http-GivesResult ctx inputs ev quiet = elim (Result-cases (build_request env ctx inputs)) [
    | inr (e, bad) ↦ absurd (ground arith)
    | inl (req, good) ↦ elim (Result-cases (env.send req)) [
      | inr (e, bad) ↦ absurd (ground arith)
      | inl (resp, sent) ↦ rw (good, http_provider, http_execute, sent) (λ h. cc)
    ]
  ]

  exec-GivesResult : GivesResult (exec_provider env)
  unfolding exec_provider exec_execute
  exec-GivesResult ctx inputs ev quiet = ground arith

  echo-GivesResult : GivesResult (echo_provider env)
  unfolding echo_provider echo_execute
  echo-GivesResult ctx inputs ev quiet = λ h. cc

  log-GivesResult : GivesResult (log_provider env)
  unfolding log_provider
  log-GivesResult ctx inputs ev quiet = λ h. cc

  smtp-GivesResult : GivesResult (smtp_provider env)
  unfolding smtp_provider
  smtp-GivesResult = execute-GivesResult env.formats env.deliver

  register-GivesResult :
      (reg : Registry) (p : Provider)
      → GivesResult p
      → Entries (λ n q. GivesResult q) reg.providers
      → Entries (λ n q. GivesResult q) (register reg p).providers
  unfolding register
  register-GivesResult reg p good h =
      Entries-insert (λ n q. GivesResult q) p.name p reg.providers good h

  register_all-GivesResult :
      (reg : Registry)
      → Entries (λ n q. GivesResult q) reg.providers
      → Entries (λ n q. GivesResult q) (register_all env reg).providers
  unfolding register_all
  register_all-GivesResult reg h = register-GivesResult _ (smtp_provider env) smtp-GivesResult (
      register-GivesResult _ (log_provider env) log-GivesResult (
        register-GivesResult _ (exec_provider env) exec-GivesResult (
          register-GivesResult _ (http_provider env) http-GivesResult
            (register-GivesResult reg (echo_provider env) echo-GivesResult h))))

  pub builtin-GivesResult : Entries (λ n q. GivesResult q) (register_all env new_registry).providers
  unfolding new_registry
  builtin-GivesResult = register_all-GivesResult new_registry tt

  -- The adapter that the server is started with: the given configuration and handlers, and the
  -- built-in providers.
  abbrev pub server_adapter : (pf : Platform) → ServerConfig → Option AuthRegistry → Adapter pf
  server_adapter pf cfg auth = record {
    cfg = cfg;
    registry = register_all env new_registry;
    auth = auth;
  }

  -- With the built-in providers `HandleEvent` can always be run to its end, whatever the providers'
  -- servers and commands answer: no goroutine panics, and none is left.
  pub handle_event-builtin :
      (pf : Platform) (cfg : ServerConfig) (auth : Option AuthRegistry) (ctx : Context)
      (event : Event) (m : Cache pf)
      → let a = server_adapter pf cfg auth in
        (t : Handling pf) × Reach pf a ctx event (start pf a ctx event m) t
        × IsDone pf a ctx event t
  handle_event-builtin pf cfg auth ctx event m =
      handle_event_total pf (server_adapter pf cfg auth) ctx event builtin-GivesResult m
