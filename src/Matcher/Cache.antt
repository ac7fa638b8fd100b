-- ===== src/Matcher/Cache.antt =====
-- pkg/matcher/matcher.go: the cache changes no result.
use event_reactor.Base.{
  Bool, true, some, String, ◌≡◌, refl, sym, ap, ◌∙◌, arith, if◌then◌else◌, Option-cases, inl, inr,
}
use event_reactor.Base.Dict.{lookup, Entries, Entries-insert, Entries-lookup, is_empty}
use event_reactor.Base.Dict.{lookup-insert_self}
use event_reactor.Base.Result.{Result, ok, value?, Result-cases}
use event_reactor.Message.{Event}
use event_reactor.Matcher.{Cel, Matcher, MatcherError, build, store, compile, run_match, match}

module _ (cel : Cel) where
  -- Every cached program is the one that compiling its expression gives.
  abbrev pub IsFaithful : Matcher cel → Type 0
  IsFaithful m = Entries (λ expr prg. build cel expr ≡ ok prg) m.cache

  pub store-IsFaithful :
      (expr : String) (prg : cel.Program) (m : Matcher cel)
      → build cel expr ≡ ok prg
      → IsFaithful m
      → IsFaithful (store cel expr prg m)
  unfolding store
  store-IsFaithful expr prg m built h =
      Entries-insert (λ e p. build cel e ≡ ok p) expr prg m.cache built h

  pub lookup-store :
      (expr : String) (prg : cel.Program) (m : Matcher cel)
      → lookup expr (store cel expr prg m).cache ≡ some prg
  unfolding store
  lookup-store expr prg m = lookup-insert_self expr prg m.cache

  -- On a faithful cache `Compile` returns what compiling anew returns and keeps the cache faithful;
  -- afterwards the expression is cached exactly if it compiles, with the program it compiles to.
  pub compile-eq-build :
      (expr : String) (m : Matcher cel)
      → IsFaithful m
      → ((compile cel expr m).0 ≡ build cel expr)
        × IsFaithful (compile cel expr m).1
        × (lookup expr (compile cel expr m).1.cache ≡ value? (build cel expr))
  unfolding compile
  compile-eq-build expr m h = elim (Option-cases (lookup expr m.cache)) [
    | inl missing ↦ elim (Result-cases (build cel expr)) [
      | inl (prg, built) ↦
          rw (missing, compile, built)
            (refl, store-IsFaithful expr prg m built h, lookup-store expr prg m)
      | inr (e, failed) ↦ rw (missing, compile, failed) (refl, h, missing)
    ]
    | inr (prg, found) ↦
        let built = Entries-lookup (λ e p. build cel e ≡ ok p) expr prg m.cache h found in
        rw (found, compile) (sym built, h, found ∙ ap value? (sym built))
  ]

  -- The answer of `Match` with no cache.
  abbrev pub match_anew : String → Event → Result MatcherError Bool
  match_anew expr event =
      if is_empty expr then ok true else run_match cel expr event (build cel expr)

  -- On a faithful cache `Match` answers as without one, and the cache stays faithful.
  pub match-eq-match_anew :
      (expr : String) (event : Event) (m : Matcher cel)
      → IsFaithful m
      → ((match cel expr event m).0 ≡ match_anew expr event) × IsFaithful (match cel expr event m).1
  unfolding match
  match-eq-match_anew expr event m h = ground (arith, compile-eq-build expr m h)
