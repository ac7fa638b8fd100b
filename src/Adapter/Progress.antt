-- ===== src/Adapter/Progress.antt =====
-- pkg/adapter/adapter.go: `HandleEvent` always ends.
use event_reactor.Base.{
  ℕ, zero, suc, ◌+◌, ◌*◌, ◌<◌, List, [], ◌∷◌, ◌≡◌, refl, ◌⊎◌, arith, inl, inr, length, ap,
  Bool-cases,
}
use event_reactor.Base.Dict.{Entries}
use event_reactor.Message.{Event}
use event_reactor.Config.{ReactorConfig}
use event_reactor.Reactor.{Platform, Cache, Context, ReactorResult}
use event_reactor.Adapter.{Run, returns, panics, Adapter, consider}
use event_reactor.Adapter.Outcome.{GivesResult, IsNamed, execute_reactor-IsNamed}
use event_reactor.Adapter.Schedule.{
  Handling, Step, skip, launch, work, append, Reach, here, next, start, IsDone,
}

returned :
    (rc : ReactorConfig) (run : Run) → IsNamed rc run → (r : ReactorResult) × (run ≡ returns r)
returned rc (returns r) h = (r, refl)
returned rc panics h = elim h [ ]

module _ (pf : Platform) (a : Adapter pf) (ctx : Context) (event : Event) where
  -- The steps of the loop and of the goroutines that are left.
  abbrev pub size : Handling pf → ℕ
  size s = 3 * length s.waiting + 2 * length s.running + length s.held

  -- A step after which less is left.
  abbrev pub Advance : Handling pf → Type 0
  Advance s = (t : Handling pf) × Step pf a ctx event s t × (size t < size s)

  loop_next :
      (s : Handling pf) (rc : ReactorConfig) (rest : List ReactorConfig)
      → s.waiting ≡ rc ∷ rest
      → Advance s
  loop_next s rc rest e = elim (Bool-cases (consider pf rc event s.matcher).0) [
    | inl matched ↦ (_, launch rc rest e matched refl, omega (arith, ap length e))
    | inr passed ↦ (_, skip rc rest e passed refl, omega (arith, ap length e))
  ]

  module _ (good : Entries (λ n p. GivesResult p) a.registry.providers) where
    work_next :
        (s : Handling pf) (rc : ReactorConfig) (rest : List ReactorConfig)
        → s.running ≡ rc ∷ rest
        → Advance s
    work_next s rc rest e =
        let (r, done) = returned rc _ (execute_reactor-IsNamed pf a ctx rc event s.matcher good) in
        (_, work [] rest rc r e done refl, omega (arith, ap length e))

    advance :
        (s : Handling pf) (waiting running : List ReactorConfig) (held : List ReactorResult)
        → s.waiting ≡ waiting
        → s.running ≡ running
        → s.held ≡ held
        → IsDone pf a ctx event s ⊎ Advance s
    advance s (rc ∷ rest) running held w u h = inr (loop_next s rc rest w)
    advance s [] (rc ∷ rest) held w u h = inr (work_next s rc rest u)
    advance s [] [] (r ∷ rest) w u h = inr (_, append [] rest r h refl, omega (arith, ap length h))
    advance s [] [] [] w u h = inl (record { none_waiting = w; none_running = u; none_held = h })

    -- If the registered providers give results whenever they give no error: until all is done, some
    -- step can be made after which less is left.
    pub handle_event_progress : (s : Handling pf) → IsDone pf a ctx event s ⊎ Advance s
    handle_event_progress s = advance s s.waiting s.running s.held refl refl refl

    complete :
        (fuel : ℕ) (m : Cache pf) (s : Handling pf)
        → size s < fuel
        → Reach pf a ctx event (start pf a ctx event m) s
        → (t : Handling pf) × Reach pf a ctx event (start pf a ctx event m) t
          × IsDone pf a ctx event t
    complete zero m s h run = absurd (omega arith)
    complete (suc fuel) m s h run = elim (handle_event_progress s) [
      | inl done ↦ (s, run, done)
      | inr (t, step, less) ↦ complete fuel m t (omega arith) (next run step)
    ]

    -- If the registered providers give a result whenever they give no error: from any cache,
    -- `HandleEvent` can be run until no reactor is left, no goroutine runs and no result
    -- waits for the lock.
    pub handle_event_total :
        (m : Cache pf)
        → (t : Handling pf) × Reach pf a ctx event (start pf a ctx event m) t
          × IsDone pf a ctx event t
    handle_event_total m =
        let s = start pf a ctx event m in complete (suc (size s)) m s (omega arith) here
