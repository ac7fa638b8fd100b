-- ===== src/Observability/Ending.antt =====
-- pkg/observability/observability.go: what `Run` has run.
use event_reactor.Base.{List, [], ◌∷◌, ◌++◌, String, ◌≡◌, refl, ap}
use event_reactor.Observability.{Cleanup, Shutdown, add, collect, run_all, run}

module _ {ℓ} (S : Type ℓ) where
  -- Running some functions and then some more, whatever errors there were.
  pub run_all-append :
      (fns more : List (Cleanup S)) (errs : List String) (st : S)
      → run_all S (fns ++ more) errs st
        ≡ run_all S more (run_all S fns errs st).0 (run_all S fns errs st).1
  unfolding run_all
  run_all-append [] more errs st = refl
  run_all-append (fn ∷ fns) more errs st =
      run_all-append fns more (collect S (fn st).0 errs) (fn st).1

  -- A function that is added is run after all others, whether or not they gave errors.
  pub run-add :
      (s : Shutdown S) (fn : Cleanup S) (st : S) → (run S (add S fn s) st).1 ≡ (fn (run S s st).1).1
  unfolding run add run_all
  run-add s fn st = ap (λ p. p.1) (run_all-append s.fns (fn ∷ []) [] st)
