-- ===== src/Reload/Timing.antt =====
-- pkg/reload/reload.go: how often a configuration is delivered, and that it is.
use event_reactor.Base.{
  ℕ, ◌+◌, ◌≤◌, true, false, Option, none, some, List, [], ◌∷◌, ◌++◌, ◌≡◌, refl, inl, inr, arith,
  String, Bool-cases, ap, sym, ◌∙◌, append_assoc, subst,
}
use event_reactor.Base.Int.{pos}
use event_reactor.Base.Result.{Result, ok, err}
use event_reactor.Config.{ServerConfig, ConfigError}
use event_reactor.Reload.{
  Watcher, new, too_soon, Delivery, delivery, handle_change, Signal, event, failed, ended, closed,
  watch,
}

-- A time is at least so long after another, if there is one.
abbrev pub IsPast : ℕ → Option ℕ → ℕ → Type 0
IsPast wait none t = Unit
IsPast wait (some last) t = last + wait ≤ t

-- Each delivery is at least so long after the one before it, and the first after `last`.
abbrev pub Spaced : ℕ → Option ℕ → List Delivery → Type 0
Spaced wait last [] = Unit
Spaced wait last (d ∷ ds) = IsPast wait last d.time × Spaced wait (some d.time) ds

too_soon-IsPast :
    (now wait : ℕ) (last : Option ℕ) → too_soon now last (pos wait) ≡ false → IsPast wait last now
too_soon-IsPast now wait none h = tt
too_soon-IsPast now wait (some t) h = ground arith

-- What is spaced after a later time is spaced after an earlier one.
Spaced-earlier :
    (wait now : ℕ) (last : Option ℕ) (ds : List Delivery)
    → IsPast wait last now
    → Spaced wait (some now) ds
    → Spaced wait last ds
Spaced-earlier wait now none [] p h = tt
Spaced-earlier wait now none (d ∷ ds) p (q, h) = (tt, h)
Spaced-earlier wait now (some t) [] p h = tt
Spaced-earlier wait now (some t) (d ∷ ds) p (q, h) = (omega arith, h)

delivered-Spaced :
    (wait now : ℕ) (last : Option ℕ) (loaded : Result ConfigError ServerConfig) (ds : List Delivery)
    → IsPast wait last now
    → Spaced wait (some now) ds
    → Spaced wait last (delivery now loaded ++ ds)
delivered-Spaced wait now last (ok cfg) ds p h = (p, h)
delivered-Spaced wait now last (err e) ds p h = Spaced-earlier wait now last ds p h

watch-Spaced :
    (signals : List Signal) (w : Watcher) (wait : ℕ)
    → w.debounce ≡ pos wait
    → Spaced wait w.last (watch signals w)
unfolding watch handle_change
watch-Spaced [] w wait e = tt
watch-Spaced (ended ∷ rest) w wait e = tt
watch-Spaced (closed ∷ rest) w wait e = tt
watch-Spaced (failed x ∷ rest) w wait e = watch-Spaced rest w wait e
watch-Spaced (event false now loaded ∷ rest) w wait e = watch-Spaced rest w wait e
watch-Spaced (event true now loaded ∷ rest) w wait e =
    elim (Bool-cases (too_soon now w.last w.debounce)) [
      | inl soon ↦ rw (soon, watch, handle_change) (watch-Spaced rest w wait e)
      | inr late ↦
          let fresh = subst (λ d. too_soon now w.last d ≡ false) e late in
          rw (late, watch, handle_change)
            (delivered-Spaced wait now w.last loaded _ (too_soon-IsPast now wait w.last fresh)
              (watch-Spaced rest (record w { last = some now }) wait e))
    ]

-- Whatever the watcher receives, a configuration is delivered at least 500 ms after the one before
-- it.
pub watch-new-Spaced :
    (path : String) (signals : List Signal) → Spaced 500000000 none (watch signals (new path))
unfolding new
watch-new-Spaced path signals = watch-Spaced signals (new path) 500000000 refl

-- The watcher goes on, and every change is at least so long before a time.
abbrev pub Settled : ℕ → ℕ → List Signal → Type 0
Settled wait now [] = Unit
Settled wait now (ended ∷ rest) = ⊥
Settled wait now (closed ∷ rest) = ⊥
Settled wait now (failed e ∷ rest) = Settled wait now rest
Settled wait now (event false t loaded ∷ rest) = Settled wait now rest
Settled wait now (event true t loaded ∷ rest) = (t + wait ≤ now) × Settled wait now rest

IsPast-too_soon :
    (now wait : ℕ) (last : Option ℕ) → IsPast wait last now → too_soon now last (pos wait) ≡ false
IsPast-too_soon now wait none h = refl
IsPast-too_soon now wait (some t) h = ground arith

-- Something is delivered at some point.
abbrev pub Delivers : ℕ → ServerConfig → List Delivery → Type 0
Delivers now cfg ds =
    (earlier later : List Delivery) × (ds
      ≡ earlier ++ (record { time = now; config = cfg } ∷ later))

Delivers-append :
    (now : ℕ) (cfg : ServerConfig) (more ds : List Delivery)
    → Delivers now cfg ds
    → Delivers now cfg (more ++ ds)
Delivers-append now cfg more ds (earlier, later, e) =
    (more ++ earlier, later, ap (λ l. more ++ l) e ∙ sym (append_assoc more earlier _))

watch-Delivers :
    (before after : List Signal) (w : Watcher) (wait now : ℕ) (cfg : ServerConfig)
    → w.debounce ≡ pos wait
    → IsPast wait w.last now
    → Settled wait now before
    → Delivers now cfg (watch (before ++ (event true now (ok cfg) ∷ after)) w)
unfolding watch handle_change
watch-Delivers [] after w wait now cfg e p h =
    let fresh : too_soon now w.last w.debounce ≡ false =
      subst (λ d. too_soon now w.last d ≡ false) (sym e) (IsPast-too_soon now wait w.last p) in
    rw (fresh, watch, handle_change) ([], _, refl)
watch-Delivers (ended ∷ rest) after w wait now cfg e p h = elim h [ ]
watch-Delivers (closed ∷ rest) after w wait now cfg e p h = elim h [ ]
watch-Delivers (failed x ∷ rest) after w wait now cfg e p h =
    watch-Delivers rest after w wait now cfg e p h
watch-Delivers (event false t loaded ∷ rest) after w wait now cfg e p h =
    watch-Delivers rest after w wait now cfg e p h
watch-Delivers (event true t loaded ∷ rest) after w wait now cfg e p (old, h) =
    elim (Bool-cases (too_soon t w.last w.debounce)) [
      | inl soon ↦ rw (soon, watch, handle_change) (watch-Delivers rest after w wait now cfg e p h)
      | inr late ↦
          rw (late, watch, handle_change)
            (Delivers-append now cfg (delivery t loaded) _
              (watch-Delivers rest after (record w { last = some t }) wait now cfg e old h))
    ]

-- A change that comes at least 500 ms after all earlier ones, while the watcher runs, and whose file
-- loads, is delivered at its time, whatever came before and comes after.
pub watch-new-Delivers :
    (path : String) (before after : List Signal) (now : ℕ) (cfg : ServerConfig)
    → Settled 500000000 now before
    → Delivers now cfg (watch (before ++ (event true now (ok cfg) ∷ after)) (new path))
unfolding new
watch-new-Delivers path before after now cfg h =
    watch-Delivers before after (new path) 500000000 now cfg refl tt h
