-- ===== src/Adapter/Schedule.antt =====
-- pkg/adapter/adapter.go: `HandleEvent` as a step relation. The loop starts a goroutine for each
-- reactor that matches; the goroutines run in any order, and each appends its result under the lock.
-- What the matcher's cache becomes while other calls use it is any faithful cache.
use mathlib.Core.List.{Perm, perm_middle, map-append}
use mathlib.Core.List.Perm
use event_reactor.Base.{
  true, false, List, [], ◌∷◌, ◌++◌, map, select, ◌≡◌, sym, ◌∙◌, subst, append_assoc, append-nil,
}
use event_reactor.Message.{Event}
use event_reactor.Config.{ReactorConfig}
use event_reactor.Reactor.{Platform, Cache, Context, ReactorResult}
use event_reactor.Reactor.Resolution.{IsFaithfulCache}
use event_reactor.Adapter.{Run, returns, Adapter, execute_reactor, consider}
use event_reactor.Adapter.Execution.{
  reaction, matches, outcomes, execute_reactor-eq-reaction, consider-eq-matches,
}

module _ (pf : Platform) where
  pub record Handling : Type 0 where
    -- the reactors that the loop has not reached
    pub waiting : List ReactorConfig
    -- the goroutines that have been started, by their reactors
    pub running : List ReactorConfig
    -- the results of goroutines that wait for the lock
    pub held : List ReactorResult
    pub results : List ReactorResult
    pub matcher : Cache pf

module _ (pf : Platform) (a : Adapter pf) (ctx : Context) (event : Event) where
  abbrev pub start : Cache pf → Handling pf
  start m = record { waiting = a.cfg.reactors; running = []; held = []; results = []; matcher = m }

  pub data Step (s : Handling pf) (t : Handling pf) : Type 0 where
    skip :
        (rc : ReactorConfig) (rest : List ReactorConfig)
        → s.waiting ≡ rc ∷ rest
        → (consider pf rc event s.matcher).0 ≡ false
        → t ≡ record s { waiting = rest; matcher = (consider pf rc event s.matcher).1 }
        → Step s t
    launch :
        (rc : ReactorConfig) (rest : List ReactorConfig)
        → s.waiting ≡ rc ∷ rest
        → (consider pf rc event s.matcher).0 ≡ true
        → t ≡ record s {
          waiting = rest;
          running = rc ∷ s.running;
          matcher = (consider pf rc event s.matcher).1;
        }
        → Step s t
    work :
        (before after : List ReactorConfig) (rc : ReactorConfig) (r : ReactorResult)
        → s.running ≡ before ++ (rc ∷ after)
        → (execute_reactor pf a ctx rc event s.matcher).0 ≡ returns r
        → t ≡ record s {
          running = before ++ after;
          held = r ∷ s.held;
          matcher = (execute_reactor pf a ctx rc event s.matcher).1;
        }
        → Step s t
    append :
        (before after : List ReactorResult) (r : ReactorResult)
        → s.held ≡ before ++ (r ∷ after)
        → t ≡ record s { held = before ++ after; results = s.results ++ (r ∷ []) }
        → Step s t
    recompile : (m : Cache pf) → IsFaithfulCache pf m → t ≡ record s { matcher = m } → Step s t

  pub data Reach (s : Handling pf) : Handling pf → Type 0 where
    here : Reach s s
    next : {t u : Handling pf} → Reach s t → Step t u → Reach s u

  -- The outcomes so far and those still to come.
  abbrev pub tally :
      List ReactorResult → List ReactorResult → List ReactorConfig → List ReactorConfig → List Run
  tally results held running waiting =
      map returns results
      ++ (map returns held
          ++ (map (reaction pf a ctx event) running
              ++ map (reaction pf a ctx event) (select (matches pf event) waiting)))

  abbrev pub account : Handling pf → List Run
  account s = tally s.results s.held s.running s.waiting

  tally-skip :
      (R H : List ReactorResult) (U W : List ReactorConfig) (rc : ReactorConfig)
      → matches pf event rc ≡ false
      → Perm (tally R H U W) (tally R H U (rc ∷ W))
  tally-skip R H U W rc e = rw e (Perm.refl _)

  tally-launch :
      (R H : List ReactorResult) (U W : List ReactorConfig) (rc : ReactorConfig)
      → matches pf event rc ≡ true
      → Perm (tally R H (rc ∷ U) W) (tally R H U (rc ∷ W))
  tally-launch R H U W rc e = rw e (
      Perm.append_left (map returns R) (
        Perm.append_left (map returns H)
          (Perm.symm (perm_middle (map (reaction pf a ctx event) U) _))))

  tally-work :
      (R H : List ReactorResult) (B A W : List ReactorConfig) (rc : ReactorConfig)
      (r : ReactorResult)
      → reaction pf a ctx event rc ≡ returns r
      → Perm (tally R (r ∷ H) (B ++ A) W) (tally R H (B ++ (rc ∷ A)) W)
  tally-work R H B A W rc r e =
      let f = reaction pf a ctx event in
      let rest = map f A ++ map f (select (matches pf event) W) in
      simp (map-append, append_assoc)
        (Perm.append_left (map returns R) (
          rw (← e) (
            Perm.trans (Perm.symm (perm_middle (map returns H) (map f B ++ rest)))
              (Perm.append_left (map returns H) (Perm.symm (perm_middle (map f B) rest))))))

  tally-append :
      (R B A : List ReactorResult) (U W : List ReactorConfig) (r : ReactorResult)
      → Perm (tally (R ++ (r ∷ [])) (B ++ A) U W) (tally R (B ++ (r ∷ A)) U W)
  tally-append R B A U W r =
      let f = reaction pf a ctx event in
      simp (map-append, append_assoc)
        (Perm.append_left (map returns R) (Perm.symm (perm_middle (map returns B) _)))

  pub record IsAccounted (s : Handling pf) : Type 0 where
    pub whole : Perm (account s) (outcomes pf a ctx event)
    pub faithful : IsFaithfulCache pf s.matcher

  -- From the tallies before and after, where the fields of the state before are known.
  account_trans :
      {s t : Handling pf}
      → Perm (account t) (account s)
      → IsAccounted s
      → IsFaithfulCache pf t.matcher
      → IsAccounted t
  account_trans p v h = record { whole = Perm.trans p v.whole; faithful = h }

  Step-IsAccounted : {s t : Handling pf} → Step s t → IsAccounted s → IsAccounted t
  Step-IsAccounted {s} (skip rc rest w test e) v =
      let c = consider-eq-matches pf rc event s.matcher v.faithful in
      rw e (
        account_trans
          (subst
            (λ x. Perm (tally s.results s.held s.running rest) (tally s.results s.held s.running x))
            (sym w) (tally-skip s.results s.held s.running rest rc (sym c.0 ∙ test)))
          v c.1)
  Step-IsAccounted {s} (launch rc rest w test e) v =
      let c = consider-eq-matches pf rc event s.matcher v.faithful in
      rw e (
        account_trans
          (subst
            (λ x.
              Perm (tally s.results s.held (rc ∷ s.running) rest)
                (tally s.results s.held s.running x))
            (sym w) (tally-launch s.results s.held s.running rest rc (sym c.0 ∙ test)))
          v c.1)
  Step-IsAccounted {s} (work before after rc r w done e) v =
      let c = execute_reactor-eq-reaction pf a ctx rc event s.matcher v.faithful in
      rw e (
        account_trans
          (subst
            (λ x.
              Perm (tally s.results (r ∷ s.held) (before ++ after) s.waiting)
                (tally s.results s.held x s.waiting))
            (sym w) (tally-work s.results s.held before after s.waiting rc r (sym c.0 ∙ done)))
          v c.1)
  Step-IsAccounted {s} (append before after r w e) v = rw e (
      account_trans
        (subst
          (λ x.
            Perm (tally (s.results ++ (r ∷ [])) (before ++ after) s.running s.waiting)
              (tally s.results x s.running s.waiting))
          (sym w) (tally-append s.results before after s.running s.waiting r))
        v v.faithful)
  Step-IsAccounted {s} (recompile m k e) v = rw e (account_trans (Perm.refl _) v k)

  pub Reach-IsAccounted : {s t : Handling pf} → IsAccounted s → Reach s t → IsAccounted t
  Reach-IsAccounted h here = h
  Reach-IsAccounted h (next r st) = Step-IsAccounted st (Reach-IsAccounted h r)

  -- `wg.Wait()` returns: no reactor is left, no goroutine runs or waits for the lock.
  pub record IsDone (s : Handling pf) : Type 0 where
    pub none_waiting : s.waiting ≡ []
    pub none_running : s.running ≡ []
    pub none_held : s.held ≡ []

  -- From a faithful cache: whatever the order in which the goroutines run, once all have
  -- finished the results are, up to order, those of the reactors that are not disabled and
  -- match, each once.
  pub handle_event-perm :
      (m : Cache pf) (t : Handling pf)
      → IsFaithfulCache pf m
      → Reach (start m) t
      → IsDone t
      → Perm (map returns t.results) (outcomes pf a ctx event)
  handle_event-perm m t h run d =
      let v = Reach-IsAccounted (record { whole = Perm.refl _; faithful = h }) run in
      let emptied : account t ≡ map returns t.results ++ [] =
        λ i. tally t.results (d.none_held i) (d.none_running i) (d.none_waiting i) in
      subst (λ l. Perm l (outcomes pf a ctx event)) (emptied ∙ append-nil (map returns t.results))
        v.whole
