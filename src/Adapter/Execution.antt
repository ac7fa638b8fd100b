-- ===== src/Adapter/Execution.antt =====
-- pkg/adapter/adapter.go: on faithful caches, what a reactor does does not depend on the cache.
use event_reactor.Base.{Bool, false, not, ◌&&◌, List, [], ◌≡◌, arith, map, select}
use event_reactor.Base.Result.{ok, err}
use event_reactor.Message.{Event}
use event_reactor.Config.{ReactorConfig}
use event_reactor.Matcher.Cache.{match_anew, match-eq-match_anew}
use event_reactor.Reactor.{Platform, Cache, Context}
use event_reactor.Reactor.Resolution.{IsFaithfulCache}
use event_reactor.Reactor.Inputs.{resolve_inputs-cache}
use event_reactor.Adapter.{Run, Adapter, execute_reactor, consider, starts}

module _ (pf : Platform) where
  abbrev pub empty_cache : Cache pf
  empty_cache = record { cache = [] }

  -- What a reactor does with an event on an empty cache.
  unfoldable pub reaction : Adapter pf → Context → Event → ReactorConfig → Run
  reaction a ctx event rc = (execute_reactor pf a ctx rc event empty_cache).0

  -- Whether a reactor is for an event: it is not disabled, and its expression, compiled anew, is true.
  unfoldable pub matches : Event → ReactorConfig → Bool
  matches event rc =
      not rc.disabled
      && elim (match_anew pf.cel rc.match event) [ err e ↦ false | ok matched ↦ matched ]

  -- The outcomes of an event: one for each reactor that is started, in the order of the file.
  abbrev pub outcomes : Adapter pf → Context → Event → List Run
  outcomes a ctx event = map (reaction a ctx event) (select (matches event) a.cfg.reactors)

  pub execute_reactor-eq-reaction :
      (a : Adapter pf) (ctx : Context) (rc : ReactorConfig) (event : Event) (m : Cache pf)
      → IsFaithfulCache pf m
      → ((execute_reactor pf a ctx rc event m).0 ≡ reaction a ctx event rc)
        × IsFaithfulCache pf (execute_reactor pf a ctx rc event m).1
  unfolding execute_reactor reaction
  execute_reactor-eq-reaction a ctx rc event m h =
      ground (arith, resolve_inputs-cache pf rc event m empty_cache h tt)

  pub consider-eq-matches :
      (rc : ReactorConfig) (event : Event) (m : Cache pf)
      → IsFaithfulCache pf m
      → ((consider pf rc event m).0 ≡ matches event rc)
        × IsFaithfulCache pf (consider pf rc event m).1
  unfolding consider starts matches
  consider-eq-matches rc event m h = ground (arith, match-eq-match_anew pf.cel rc.match event m h)
