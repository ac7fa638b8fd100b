-- ===== src/Server/Shutdown.antt =====
-- pkg/cmd/root.go with pkg/listener/pubsub/pubsub.go: with which error the server exits.
use event_reactor.Base.{
  true, false, ◌↔◌, Option, none, some, List, [], ◌∷◌, ◌++◌, ◌≡◌, ◌⊎◌, inl, inr, refl, arith, subst,
  sym,
}
use event_reactor.Reactor.{Platform}
use event_reactor.Listener.Streaming.{receiving}
use event_reactor.Server.{Started}
use event_reactor.Server.Running.{
  RunError, Group, First, GroupLaws, Task, connecting, Running, serve, return, Step, signal,
  serving_fails, shuts_down, connect_fails, connects, receive_ends, returns, Reach, here, next,
  exit, http, receiving, returning,
}

abbrev pub Any {ℓ} : {A : Type ℓ} → (A → Type 0) → List A → Type 0
Any P [] = ⊥
Any P (x ∷ xs) = P x ⊎ Any P xs

Any-middle {ℓ} :
    {A : Type ℓ} (P : A → Type 0) (xs ys : List A) (x : A) → P x → Any P (xs ++ (x ∷ ys))
Any-middle P [] ys x p = inl p
Any-middle P (z ∷ xs) ys x p = inr (Any-middle P xs ys x p)

-- What does not satisfy the predicate may be taken away, or something else may take its place.
Any-remove {ℓ} :
    {A : Type ℓ} (P : A → Type 0) (xs ys : List A) (x : A)
    → ¬ P x
    → Any P (xs ++ (x ∷ ys))
    → Any P (xs ++ ys)
Any-remove P [] ys x no_p (inl p) = absurd (no_p p)
Any-remove P [] ys x no_p (inr h) = h
Any-remove P (z ∷ xs) ys x no_p (inl p) = inl p
Any-remove P (z ∷ xs) ys x no_p (inr h) = inr (Any-remove P xs ys x no_p h)

Any-insert {ℓ} :
    {A : Type ℓ} (P : A → Type 0) (xs ys : List A) (x : A)
    → Any P (xs ++ ys)
    → Any P (xs ++ (x ∷ ys))
Any-insert P [] ys x h = inr h
Any-insert P (z ∷ xs) ys x (inl p) = inl p
Any-insert P (z ∷ xs) ys x (inr h) = inr (Any-insert P xs ys x h)

-- An error has been taken.
abbrev pub HasError : List (Option RunError) → Type 0
HasError rs = (e : RunError) × First e rs

HasError-append :
    (xs : List (Option RunError)) (r : Option RunError) → HasError xs → HasError (xs ++ (r ∷ []))
HasError-append [] r (e, h) = absurd h
HasError-append (none ∷ xs) r (e, h) = HasError-append xs r (e, h)
HasError-append (some x ∷ xs) r h = (x, refl)

HasError-last : (xs : List (Option RunError)) (e : RunError) → HasError (xs ++ (some e ∷ []))
HasError-last [] e = (e, refl)
HasError-last (none ∷ xs) e = HasError-last xs e
HasError-last (some x ∷ xs) e = (x, refl)

HasError-nil : (xs : List (Option RunError)) → HasError (xs ++ (none ∷ [])) → HasError xs
HasError-nil [] (e, h) = absurd h
HasError-nil (none ∷ xs) h = HasError-nil xs h
HasError-nil (some x ∷ xs) h = (x, refl)

-- What a server has that has no signal to stop: the HTTP server, or an error on its way.
abbrev pub Keeps : Task → Type 0
Keeps http = Unit
Keeps (returning (some e)) = Unit
Keeps _ = ⊥

module _ (g : Group) (laws : GroupLaws g) where
  record IsCaused (s : Running) : Type 0 where
    caused : s.cancelled ≡ true → (s.signalled ≡ true) ⊎ HasError s.returned
    by_signal : s.signalled ≡ true → s.cancelled ≡ true
    by_error : HasError s.returned → s.cancelled ≡ true
    kept : s.signalled ≡ false → Any Keeps s.tasks ⊎ HasError s.returned

  -- The tasks may change as long as something keeps the server.
  with_tasks :
      (s : Running) (ts : List Task)
      → IsCaused s
      → (s.signalled ≡ false → Any Keeps ts ⊎ HasError s.returned)
      → IsCaused (record s { tasks = ts })
  with_tasks s ts h k = record {
    caused = h.caused;
    by_signal = h.by_signal;
    by_error = h.by_error;
    kept = k;
  }

  -- A task that does not keep the server gives way to another.
  replaced :
      (s : Running) (before after : List Task) (x y : Task)
      → s.tasks ≡ before ++ (x ∷ after)
      → ¬ Keeps x
      → IsCaused s
      → IsCaused (record s { tasks = before ++ (y ∷ after) })
  replaced s before after x y w no_x h = with_tasks s _ h (λ quiet. elim (h.kept quiet) [
    | inr failed ↦ inr failed
    | inl any ↦ inl (
        Any-insert Keeps before after y
          (Any-remove Keeps before after x no_x (subst (Any Keeps) w any)))
  ])

  return-IsCaused :
      (s : Running) (before after : List Task) (r : Option RunError)
      → s.tasks ≡ before ++ (returning r ∷ after)
      → IsCaused s
      → IsCaused (return g s (before ++ after) r)
  unfolding return
  return-IsCaused s before after none w h =
      let same : g.cancels none ≡ false = laws.cancels_nil in
      record {
        caused = λ c. elim (h.caused (ground arith)) [
          | inl came ↦ inl came
          | inr failed ↦ inr (HasError-append s.returned none failed)
        ];
        by_signal = λ c. let e = h.by_signal c in ground arith;
        by_error = λ f. let e = h.by_error (HasError-nil s.returned f) in ground arith;
        kept = λ quiet. elim (h.kept quiet) [
          | inl any ↦
              inl
                (Any-remove Keeps before after (returning none) (λ k. k) (subst (Any Keeps) w any))
          | inr failed ↦ inr (HasError-append s.returned none failed)
        ];
      }
  return-IsCaused s before after (some e) w h =
      let ends : g.cancels (some e) ≡ true = laws.cancels_error e in
      record {
        caused = λ c. inr (HasError-last s.returned e);
        by_signal = λ c. ground arith;
        by_error = λ f. ground arith;
        kept = λ quiet. inr (HasError-last s.returned e);
      }

  Step-IsCaused : {s t : Running} → Step g s t → IsCaused s → IsCaused t
  Step-IsCaused {s} (signal e) h = subst IsCaused (sym e) (record {
    caused = λ c. inl refl;
    by_signal = λ c. refl;
    by_error = λ f. refl;
    kept = λ c. cc;
  })
  Step-IsCaused {s} (serving_fails b a x w e) h =
      subst IsCaused (sym e) (with_tasks s _ h (λ c. inl (Any-middle Keeps b a _ tt)))
  Step-IsCaused {s} (shuts_down b a r w c e) h =
      subst IsCaused (sym e)
        (with_tasks s _ h (λ quiet. elim (h.caused c) [ inl came ↦ cc | inr failed ↦ inr failed ]))
  Step-IsCaused {s} (connect_fails b a l x w e) h =
      subst IsCaused (sym e) (replaced s b a (connecting l) _ w (λ k. k) h)
  Step-IsCaused {s} (connects b a l w e) h =
      subst IsCaused (sym e) (replaced s b a (connecting l) _ w (λ k. k) h)
  Step-IsCaused {s} (receive_ends b a l x w e) h =
      subst IsCaused (sym e) (replaced s b a (receiving l) _ w (λ k. k) h)
  Step-IsCaused {s} (returns b a r w e) h = subst IsCaused (sym e) (return-IsCaused s b a r w h)

  Reach-IsCaused : {s t : Running} → IsCaused s → Reach g s t → IsCaused t
  Reach-IsCaused h here = h
  Reach-IsCaused h (next r st) = Step-IsCaused st (Reach-IsCaused h r)

  -- With an errgroup that does what it documents: at any time the shared context has ended exactly if a
  -- signal has come or the group has taken an error. And if all goroutines have returned although no
  -- signal came, the server exits with an error, the first that the group took.
  pub exit_causes :
      (pf : Platform) (st : Started pf) (t : Running)
      → Reach g (serve pf st) t
      → ((t.cancelled ≡ true) ↔ ((t.signalled ≡ true) ⊎ HasError t.returned))
        × (t.tasks ≡ []
            → t.signalled ≡ false
            → (e : RunError) × (exit g t ≡ some e) × First e t.returned)
  unfolding serve exit
  exit_causes pf st t run =
      let start : IsCaused (serve pf st) = record {
        caused = λ c. cc;
        by_signal = λ c. cc;
        by_error = λ f. absurd f.1;
        kept = λ c. inl (inl tt);
      } in
      let h = Reach-IsCaused start run in
      (
        (
          h.caused,
          λ why. elim why [ inl came ↦ h.by_signal came | inr failed ↦ h.by_error failed ],
        ),
        λ over quiet. elim (h.kept quiet) [
          | inl any ↦ absurd (subst (Any Keeps) over any)
          | inr (e, first) ↦ (e, laws.wait_first e t.returned first, first)
        ],
      )
