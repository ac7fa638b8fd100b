-- ===== src/Server/Startup.antt =====
-- pkg/cmd/root.go: a server that has started has compiled every expression of its reactors.
use event_reactor.Base.{
  false, some, List, [], ◌∷◌, String, ◌≡◌, ◌≢◌, sym, subst, ◌∙◌, ap, arith, All, eq_iff,
  Option-cases, inl, inr,
}
use event_reactor.Base.Dict.{lookup, lookup-insert, is_empty}
use event_reactor.Base.Result.{ok, value?, Result-cases}
use event_reactor.Config.{ReactorConfig}
use event_reactor.Matcher.{MatcherError, compile, build, store}
use event_reactor.Matcher.Cache.{compile-eq-build}
use event_reactor.Reactor.{Platform, Cache}
use event_reactor.Reactor.Resolution.{IsFaithfulCache}
use event_reactor.Server.{precompile}

module _ (pf : Platform) where
  -- The expression of a reactor has its program in the cache.
  abbrev pub IsCompiled : Cache pf → ReactorConfig → Type 0
  IsCompiled m rc =
      (prg : pf.cel.Program) × (lookup rc.match m.cache ≡ some prg)
      × (build pf.cel rc.match ≡ ok prg)

  -- Compiling an expression keeps what is cached.
  compile-lookup :
      (expr k : String) (p : pf.cel.Program) (m : Cache pf)
      → lookup k m.cache ≡ some p
      → lookup k (compile pf.cel expr m).1.cache ≡ some p
  unfolding compile store
  compile-lookup expr k p m h = elim (Option-cases (lookup expr m.cache)) [
    | inr (q, found) ↦ rw (found, compile) h
    | inl missing ↦ elim (Result-cases (build pf.cel expr)) [
      | inr (e, bad) ↦ rw (missing, compile, bad) h
      | inl (q, good) ↦
          rw (missing, compile, good)
            (lookup-insert expr k q m.cache
              ∙ ground (arith, eq_iff expr k, ap (λ s. lookup s m.cache) {x = expr} {y = k}))
    ]
  ]

  pub precompile-IsCompiled {ℓ} :
      {E : Type ℓ} (report : String → MatcherError → E) (rcs : List ReactorConfig) (m m' : Cache pf)
      → IsFaithfulCache pf m
      → All (λ rc. rc.match ≢ "") rcs
      → precompile pf report rcs m ≡ (ok tt, m')
      → All (IsCompiled m') rcs
        × IsFaithfulCache pf m'
        × ((k : String) (p : pf.cel.Program)
            → lookup k m.cache ≡ some p
            → lookup k m'.cache ≡ some p)
  unfolding precompile
  precompile-IsCompiled report [] m m' h named e =
      let same : m ≡ m' = ap (λ p. p.1) e in
      (
        tt,
        subst (IsFaithfulCache pf) same h,
        λ k p q. subst (λ n. lookup k n.cache ≡ some p) same q,
      )
  precompile-IsCompiled report (rc ∷ rcs) m m' h (given, named) e =
      let c = compile-eq-build pf.cel rc.match m h in
      let filled : is_empty rc.match ≡ false = ground (arith, eq_iff rc.match "") in
      elim (Result-cases (compile pf.cel rc.match m).0) [
        | inr (x, bad) ↦ absurd (ground arith)
        | inl (prg, good) ↦
            let later : precompile pf report rcs (compile pf.cel rc.match m).1 ≡ (ok tt, m') =
              ground arith in
            let (all, faithful, keeps) =
              precompile-IsCompiled report rcs (compile pf.cel rc.match m).1 m' c.1 named later in
            let built : build pf.cel rc.match ≡ ok prg = sym c.0 ∙ good in
            (
              ((prg, keeps rc.match prg (c.2 ∙ ap value? built), built), all),
              faithful,
              λ k p q. keeps k p (compile-lookup rc.match k p m q),
            )
      ]
