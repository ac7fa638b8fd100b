-- ===== src/Cli/DryRun.antt =====
-- pkg/mcp/mcp.go and pkg/adapter/adapter.go: the dry run of a reactor against the server.
use event_reactor.Base.{
  subst, true, false, not, ◌≡◌, refl, sym, ◌∙◌, ap, arith, ◌⊎◌, inl, inr, Bool-cases,
}
use event_reactor.Base.Dict.{Dict}
use event_reactor.Base.Result.{Result, ok, err, Result-cases}
use event_reactor.Base.Value.{Value}
use event_reactor.Message.{Event}
use event_reactor.Config.{ReactorConfig}
use event_reactor.Matcher
use event_reactor.Matcher.{match}
use event_reactor.Matcher.Cache.{match-eq-match_anew}
use event_reactor.Reactor.{
  Platform, Cache, Context, Provider, ReactionError, get, ResolveError, resolving_inputs,
  resolve_inputs,
}
use event_reactor.Reactor.Resolution.{IsFaithfulCache}
use event_reactor.Reactor.Inputs.{resolve_inputs-cache}
use event_reactor.Adapter.{
  Run, returns, failed, finish, authorize, call_provider, Adapter, execute_reactor, with_inputs,
}
use event_reactor.Adapter.Execution.{empty_cache, reaction, matches}
use event_reactor.Cli.{Tools}
use event_reactor.Mcp.Tools as Mcp
use event_reactor.Mcp.Tools.{ToolError, Report}

module _ (pf : Platform) (tl : Tools) where
  -- The dry run of a reactor, as the tool "test_reactor" makes it.
  abbrev pub dry_run : ReactorConfig → Event → Cache pf → Result ToolError Report
  dry_run = Mcp.try_reactor pf tl

  -- What comes of a reactor whose inputs are resolved: no token can be had for it, its provider is not
  -- registered, or the provider is called with the inputs.
  abbrev pub Calls : Adapter pf → Context → ReactorConfig → Event → Dict Value → Run → Type 0
  Calls a ctx rc event inputs run =
      ((e : ReactionError) × (authorize a.auth rc ctx ≡ err e) × (run ≡ returns (failed rc e)))
      ⊎ ((ctx' : Context) × (e : ReactionError) × (authorize a.auth rc ctx ≡ ok ctx')
          × (get a.registry rc.provider ≡ err e)
          × (run ≡ returns (failed rc e)))
      ⊎ ((ctx' : Context) × (p : Provider) × (authorize a.auth rc ctx ≡ ok ctx')
          × (get a.registry rc.provider ≡ ok p)
          × (run ≡ finish rc (p.execute ctx' inputs event)))

  with_inputs-Calls :
      (a : Adapter pf) (ctx : Context) (rc : ReactorConfig) (event : Event) (inputs : Dict Value)
      → Calls a ctx rc event inputs (with_inputs a.registry a.auth ctx rc event inputs)
  unfolding with_inputs call_provider
  with_inputs-Calls a ctx rc event inputs = elim (Result-cases (authorize a.auth rc ctx)) [
    | inr (e, bad) ↦ inl (e, bad, rw (bad, with_inputs) refl)
    | inl (ctx', good) ↦ elim (Result-cases (get a.registry rc.provider)) [
      | inr (e, bad) ↦
          inr (inl (ctx', e, good, bad, rw (good, with_inputs, bad, call_provider) refl))
      | inl (p, found) ↦
          inr (inr (ctx', p, good, found, rw (good, with_inputs, found, call_provider) refl))
    ]
  ]

  -- What the server does with a reactor whose inputs have been resolved, and with one whose inputs
  -- cannot be.
  abbrev pub Predicts :
      Adapter pf → Context → ReactorConfig → Event → Result ToolError Report → Type 0
  Predicts a ctx rc event answer =
      ((inputs : Dict Value) × (answer ≡ ok (Report.resolved rc.name rc.provider inputs))
        × (matches pf event rc ≡ not rc.disabled)
        × Calls a ctx rc event inputs (reaction pf a ctx event rc))
      ⊎ ((e : ResolveError) × (answer ≡ err (ToolError.resolution_error e))
          × (matches pf event rc ≡ not rc.disabled)
          × (reaction pf a ctx event rc ≡ returns (failed rc (resolving_inputs e))))
      ⊎ ((matches pf event rc ≡ false)
          × ((answer ≡ ok Report.reactor_does_not_match)
              ⊎ ((e : Matcher.MatcherError) × (answer ≡ err (ToolError.match_error e)))))

  dry_run_resolves :
      (a : Adapter pf) (ctx : Context) (rc : ReactorConfig) (event : Event) (m : Cache pf)
      → IsFaithfulCache pf m
      → (match pf.cel rc.match event m).0 ≡ ok true
      → matches pf event rc ≡ not rc.disabled
      → Predicts a ctx rc event (dry_run rc event m)
  unfolding Mcp.try_reactor reaction execute_reactor
  dry_run_resolves a ctx rc event m h e same =
      let m' = (match pf.cel rc.match event m).1 in
      let kept = (match-eq-match_anew pf.cel rc.match event m h).1 in
      let alike = (resolve_inputs-cache pf rc event m' (empty_cache pf) kept tt).0 in
      elim (Result-cases (resolve_inputs pf rc event m').0) [
        | inl (inputs, good) ↦ inl (
          inputs,
          rw (e, Mcp.try_reactor, good) refl,
          same,
          subst (Calls a ctx rc event inputs)
              (sym (rw (sym alike ∙ good, reaction, execute_reactor) refl))
              (with_inputs-Calls a ctx rc event inputs),
        )
        | inr (x, bad) ↦ inr (
            inl (
              x,
              rw (e, Mcp.try_reactor, bad) refl,
              same,
              rw (sym alike ∙ bad, reaction, execute_reactor) refl,
            ))
      ]

  -- On a faithful cache the dry run of a reactor predicts what the server does with the event, but
  -- for a reactor that is disabled: where it reports inputs, the reactor matches if it is not disabled,
  -- and its provider is called with those inputs unless no token can be had for it or the provider is
  -- not registered; where it reports that they cannot be resolved, the server's result has that error;
  -- and where it reports no match or an error of the expression, the server does not start the
  -- reactor.
  pub dry_run-Predicts :
      (a : Adapter pf) (ctx : Context) (rc : ReactorConfig) (event : Event) (m : Cache pf)
      → IsFaithfulCache pf m
      → Predicts a ctx rc event (dry_run rc event m)
  unfolding Mcp.try_reactor matches
  dry_run-Predicts a ctx rc event m h =
      let anew = (match-eq-match_anew pf.cel rc.match event m h).0 in
      elim (Result-cases (match pf.cel rc.match event m).0) [
        | inr (x, bad) ↦ inr (inr (ground (arith, sym anew ∙ bad), inr (x, ground arith)))
        | inl (b, good) ↦ elim (Bool-cases b) [
          | inl matched ↦
              dry_run_resolves a ctx rc event m h (good ∙ ap ok matched)
                (ground (arith, sym anew ∙ good))
          | inr other ↦ inr (inr (ground (arith, sym anew ∙ good), inl (ground arith)))
        ]
      ]
