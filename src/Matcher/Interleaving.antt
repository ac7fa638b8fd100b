-- ===== src/Matcher/Interleaving.antt =====
-- pkg/matcher/matcher.go: calls of `Compile` by many goroutines over one cache. A call looks the
-- expression up under the read lock, compiles it with no lock, and stores it under the write lock;
-- other calls may run between these three steps.
use event_reactor.Base.{
  ℕ, eqb, none, some, String, ◌≡◌, sym, subst, if◌then◌else◌, Bool-cases, inl, inr,
}
use event_reactor.Base.Dict.{lookup, Entries-lookup}
use event_reactor.Base.Result.{Result, ok, err}
use event_reactor.Matcher.{Cel, Matcher, MatcherError, build, store}
use event_reactor.Matcher.Cache.{IsFaithful, store-IsFaithful}

module _ (cel : Cel) where
  -- Where a call of `Compile` stands.
  pub data Pc : Type 0 where
    idle : Pc
    missed : String → Pc
    built : String → cel.Program → Pc
    returned : String → Result MatcherError cel.Program → Pc

  pub record System : Type 0 where
    pub matcher : Matcher cel
    pub calls : ℕ → Pc

  abbrev pub update : (ℕ → Pc) → ℕ → Pc → ℕ → Pc
  update calls i pc j = if eqb j i then pc else calls j

  abbrev pub move : System → ℕ → Pc → System
  move s i pc = record s { calls = update s.calls i pc }

  pub data Step (s : System) : System → Type 0 where
    hit :
        (i : ℕ) (expr : String) (prg : cel.Program)
        → s.calls i ≡ idle
        → lookup expr s.matcher.cache ≡ some prg
        → Step s (move s i (returned expr (ok prg)))
    miss :
        (i : ℕ) (expr : String)
        → s.calls i ≡ idle
        → lookup expr s.matcher.cache ≡ none
        → Step s (move s i (missed expr))
    fail :
        (i : ℕ) (expr : String) (e : MatcherError)
        → s.calls i ≡ missed expr
        → build cel expr ≡ err e
        → Step s (move s i (returned expr (err e)))
    finish :
        (i : ℕ) (expr : String) (prg : cel.Program)
        → s.calls i ≡ missed expr
        → build cel expr ≡ ok prg
        → Step s (move s i (built expr prg))
    write :
        (i : ℕ) (expr : String) (prg : cel.Program)
        → s.calls i ≡ built expr prg
        → Step s (record {
          matcher = store cel expr prg s.matcher;
          calls = update s.calls i (returned expr (ok prg));
        })

  pub data Reach (s : System) : System → Type 0 where
    here : Reach s s
    next : {t u : System} → Reach s t → Step t u → Reach s u

  -- What a call holds is what compiling its expression gives.
  abbrev pub Agrees : Pc → Type 0
  Agrees idle = Unit
  Agrees (missed expr) = Unit
  Agrees (built expr prg) = build cel expr ≡ ok prg
  Agrees (returned expr r) = r ≡ build cel expr

  pub record IsSound (s : System) : Type 0 where
    pub faithful : IsFaithful cel s.matcher
    pub agrees : (i : ℕ) → Agrees (s.calls i)

  update-Agrees :
      (calls : ℕ → Pc) (i : ℕ) (pc : Pc)
      → Agrees pc
      → ((j : ℕ) → Agrees (calls j))
      → (j : ℕ) → Agrees (update calls i pc j)
  update-Agrees calls i pc a h j = elim (Bool-cases (eqb j i)) [
    | inl e ↦ rw e a
    | inr e ↦ rw e (h j)
  ]

  Step-IsSound : {s t : System} → Step s t → IsSound s → IsSound t
  Step-IsSound {s} (hit i expr prg e found) v = record {
    faithful = v.faithful;
    agrees =
        update-Agrees s.calls i _
          (sym (Entries-lookup (λ x p. build cel x ≡ ok p) expr prg _ v.faithful found)) v.agrees;
  }
  Step-IsSound {s} (miss i expr e missing) v = record {
    faithful = v.faithful;
    agrees = update-Agrees s.calls i (missed expr) tt v.agrees;
  }
  Step-IsSound {s} (fail i expr x e failed) v = record {
    faithful = v.faithful;
    agrees = update-Agrees s.calls i _ (sym failed) v.agrees;
  }
  Step-IsSound {s} (finish i expr prg e done) v = record {
    faithful = v.faithful;
    agrees = update-Agrees s.calls i (built expr prg) done v.agrees;
  }
  Step-IsSound {s} (write i expr prg e) v =
      let right : build cel expr ≡ ok prg = subst Agrees e (v.agrees i) in
      record {
        faithful = store-IsFaithful cel expr prg s.matcher right v.faithful;
        agrees = update-Agrees s.calls i _ (sym right) v.agrees;
      }

  Reach-IsSound : {s t : System} → IsSound s → Reach s t → IsSound t
  Reach-IsSound h here = h
  Reach-IsSound h (next r st) = Step-IsSound st (Reach-IsSound h r)

  -- From a faithful cache with no call under way: whatever the interleaving, a call that has
  -- returned has returned what compiling its expression anew gives, and the cache is faithful.
  pub compile_interleaved :
      (m : Matcher cel) (t : System) (i : ℕ) (expr : String) (r : Result MatcherError cel.Program)
      → IsFaithful cel m
      → Reach (record { matcher = m; calls = λ _. idle }) t
      → t.calls i ≡ returned expr r
      → (r ≡ build cel expr) × IsFaithful cel t.matcher
  compile_interleaved m t i expr r h run e =
      let v = Reach-IsSound (record { faithful = h; agrees = λ _. tt }) run in
      (subst Agrees e (v.agrees i), v.faithful)
