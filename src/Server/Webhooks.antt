-- ===== src/Server/Webhooks.antt =====
-- pkg/cmd/root.go, pkg/api/api.go and pkg/adapter/adapter.go: a webhook request to a started server,
-- from its path to the results of the reactors.
use mathlib.Core.List.{Perm}
use event_reactor.Base.{length, map, select, String, ◌≡◌, ◌⊎◌, inl, inr, ap, ◌∙◌}
use event_reactor.Base.Result.{ok, err}
use event_reactor.Base.Text.{◌<>◌}
use event_reactor.Base.Value.{object, Fields, Bytes}
use event_reactor.Message.{Event}
use event_reactor.Reactor.{Platform, Context}
use event_reactor.Adapter.{returns}
use event_reactor.Adapter.Execution.{matches, outcomes}
use event_reactor.Adapter.Schedule.{Handling, Reach, start, IsDone}
use event_reactor.Api.{failure, processed, respond, invalid_signature, invalid_json}
use event_reactor.Api.Routes.{Router}
use event_reactor.Api.Webhook.{MayPass}
use event_reactor.Api.Serving.{
  Incoming, RouterLaws, IsSegment, Service, answered, serve_request, serve_webhook,
}
use event_reactor.Server.{Host, Started, run_server}
use event_reactor.Server.Dispatch.{run_server-IsReady}
use event_reactor.Server.Replies.{run_server-respond}

module _ (pf : Platform) (host : Host) (st : Started pf) (ctx : Context) (sv : Service) where
  -- The handlers get the results of a run of `HandleEvent` to its end, for every event.
  abbrev pub Handles : Type 0
  Handles =
      (ev : Event)
      → (t : Handling pf) × Reach pf st.adapter ctx ev (start pf st.adapter ctx ev st.matcher) t
        × IsDone pf st.adapter ctx ev t
        × (sv.handle ev ≡ t.results)

  -- Status 200 with the results of the reactors that match, each once, in some order, and their number.
  abbrev pub Reports : Event → Incoming → Router → Type 0
  Reports ev inc rt =
      (t : Handling pf) × (serve_request sv st.adapter.cfg rt inc
        ≡ answered
            (processed 200 (length (select (matches pf ev) st.adapter.cfg.reactors)) t.results))
      × Perm (map returns t.results) (outcomes pf st.adapter ctx ev)

  reported :
      (path : String) (ev : Event) (inc : Incoming) (rt : Router)
      → run_server pf host path ≡ ok st
      → Handles
      → serve_request sv st.adapter.cfg rt inc
        ≡ answered (processed 200 (length (sv.handle ev)) (sv.handle ev))
      → Reports ev inc rt
  unfolding respond
  reported path ev inc rt e handles sent =
      let (t, run, finished, same) = handles ev in
      let (reply, all) = run_server-respond pf host path st ctx ev t e run finished in
      (t, sent ∙ ap (λ rs. answered (processed 200 (length rs) rs)) same ∙ ap answered reply, all)

  -- Once the server has started, behind a router as gin documents it, where each event's results are
  -- those of a run of HandleEvent to its end: a POST to /webhook/ and the name of a source, whose body
  -- was read, may pass if no secret's entry is for that source, or if the first that is has an empty
  -- secret, or if the first of the two signature headers that is set carries the HMAC of the body
  -- under it. It is answered with 401 if it may not pass, whatever is in it. If it may, it is answered
  -- with 400 if the body is not a JSON object, and otherwise with 200, the number of the configured
  -- reactors that are not disabled and match the event with that source and body, and their
  -- results, each once, in some order.
  pub run_server-webhook :
      (path : String)
      → run_server pf host path ≡ ok st
      → Handles
      → RouterLaws host.router
      → (inc : Incoming) (s : String) (body : Bytes) → IsSegment s
      → inc.method ≡ "POST"
      → inc.path ≡ "/webhook/" <> s
      → inc.body ≡ ok body
      → let may = MayPass sv.mac st.adapter.cfg.auth.webhook_secrets inc.request s body in
        let answer = serve_request sv st.adapter.cfg host.router inc in
        ((¬ may) × (answer ≡ answered (failure 401 invalid_signature)))
        ⊎ (may
            × ((e : String) × (sv.codec.unmarshal body ≡ err e))
            × (answer ≡ answered (failure 400 invalid_json)))
        ⊎ (may
            × ((fs : Fields) × (ev : Event) × (sv.codec.unmarshal body ≡ ok fs)
                × (ev.source ≡ s)
                × (ev.payload ≡ object fs)
                × Reports ev inc host.router))
  run_server-webhook path e handles laws inc s body seg m p b =
      elim (serve_webhook sv st.adapter.cfg host.router laws
        (run_server-IsReady pf host path st e).0.accepts inc s body seg m p b) [
          | inl refused ↦ inl refused
          | inr (inl refused) ↦ inr (inl refused)
          | inr (inr (may, (fs, ev, u, sent, src, pay))) ↦
              inr
                (inr (may, (fs, ev, u, src, pay, reported path ev inc host.router e handles sent)))
        ]
