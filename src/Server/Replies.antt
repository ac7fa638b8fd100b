-- ===== src/Server/Replies.antt =====
-- pkg/cmd/root.go, pkg/api/api.go and pkg/adapter/adapter.go: what a started server answers.
use mathlib.Core.List.{Perm}
use event_reactor.Base.{map, select, length, String, ◌≡◌, sym, ◌∙◌, ap, length-map, length-Perm}
use event_reactor.Base.Result.{ok}
use event_reactor.Message.{Event}
use event_reactor.Reactor.{Platform, Context}
use event_reactor.Adapter.{returns}
use event_reactor.Adapter.Execution.{matches, reaction, outcomes}
use event_reactor.Adapter.Schedule.{Handling, Reach, start, IsDone}
use event_reactor.Api.{dispatched, processed, respond}
use event_reactor.Server.{Host, Started, run_server}
use event_reactor.Server.Dispatch.{run_server-handle_event}

module _ (pf : Platform) (host : Host) where
  -- Once the server has started: when a handler of the HTTP server dispatches an event, the answer has
  -- status 200, the number of the configured reactors that are not disabled and match, and the
  -- results. However the goroutines are scheduled, these are, up to order, the results of those
  -- reactors, each once.
  pub run_server-respond :
      (path : String) (s : Started pf) (ctx : Context) (event : Event) (t : Handling pf)
      → run_server pf host path ≡ ok s
      → Reach pf s.adapter ctx event (start pf s.adapter ctx event s.matcher) t
      → IsDone pf s.adapter ctx event t
      → (respond (λ e. t.results) (dispatched event)
          ≡ processed 200 (length (select (matches pf event) s.adapter.cfg.reactors)) t.results)
        × Perm (map returns t.results) (outcomes pf s.adapter ctx event)
  unfolding respond
  run_server-respond path s ctx event t e run finished =
      let all = run_server-handle_event pf host path s ctx event t e run finished in
      let started = select (matches pf event) s.adapter.cfg.reactors in
      let same =
        sym (length-map returns t.results)
        ∙ length-Perm _ _ all
        ∙ length-map (reaction pf s.adapter ctx event) started in
      (ap (λ n. processed 200 n t.results) same, all)
