-- ===== src/Server/Stopping.antt =====
-- pkg/cmd/root.go with pkg/listener/pubsub/pubsub.go: a server that is told to stop.
use event_reactor.Base.{
  Bool, false, Option, none, some, List, [], ◌∷◌, ◌++◌, ◌≡◌, ◌⊎◌, inl, inr, refl, arith, true,
  subst, sym, All, All-append,
}
use event_reactor.Listener.Streaming.{receive_error}
use event_reactor.Server.Running.{
  RunError, pulling, Group, IsNil, First, GroupLaws, Task, http, connecting, receiving, returning,
  Running, pulled, shut, return, Step, signal, serving_fails, shuts_down, connect_fails, connects,
  receive_ends, returns, Reach, here, next, exit,
}

-- No error of a listener.
abbrev pub OfHttp : Option RunError → Type 0
OfHttp (some (pulling e)) = ⊥
OfHttp _ = Unit

-- No listener that makes its client, and none that is about to return an error.
abbrev pub IsCalm : Task → Type 0
IsCalm (connecting l) = ⊥
IsCalm (returning r) = OfHttp r
IsCalm _ = Unit

All-remove {ℓ κ} :
    {A : Type ℓ} (P : A → Type κ) (xs ys : List A) (x : A)
    → All P (xs ++ (x ∷ ys))
    → P x × All P (xs ++ ys)
All-remove P [] ys x (p, h) = (p, h)
All-remove P (a ∷ xs) ys x (p, h) = let (q, k) = All-remove P xs ys x h in (q, (p, k))

All-replace {ℓ κ} :
    {A : Type ℓ} (P : A → Type κ) (xs ys : List A) (x y : A)
    → All P (xs ++ (x ∷ ys))
    → P y
    → All P (xs ++ (y ∷ ys))
All-replace P [] ys x y (p, h) q = (q, h)
All-replace P (a ∷ xs) ys x y (p, h) q = (p, All-replace P xs ys x y h q)

pulled_late :
    (name : _) (c : Bool) (o : Option _) → c ≡ true → pulled (receive_error name c o) ≡ none
pulled_late name true none h = refl
pulled_late name true (some e) h = refl
pulled_late name false o h = cc

exit-returned : (rs : List (Option RunError)) → All IsNil rs ⊎ ((e : RunError) × First e rs)
exit-returned [] = inl tt
exit-returned (none ∷ rs) = elim (exit-returned rs) [
  | inl h ↦ inl (refl, h)
  | inr (e, h) ↦ inr (e, h)
]
exit-returned (some e ∷ rs) = inr (e, refl)

shut-OfHttp : (r : Option _) → OfHttp (shut r)
shut-OfHttp none = tt
shut-OfHttp (some e) = tt

nil-OfHttp : (rs : List (Option RunError)) → All IsNil rs → All OfHttp rs
nil-OfHttp [] h = tt
nil-OfHttp (none ∷ rs) (e, h) = (tt, nil-OfHttp rs h)
nil-OfHttp (some x ∷ rs) (e, h) = cc

First-OfHttp :
    (e : RunError) (rs : List (Option RunError)) → First e rs → All OfHttp rs → OfHttp (some e)
First-OfHttp e [] f h = absurd f
First-OfHttp e (none ∷ rs) f (p, h) = First-OfHttp e rs f h
First-OfHttp e (some x ∷ rs) f (p, h) = subst (λ y. OfHttp (some y)) f p

module _ (g : Group) (laws : GroupLaws g) where
  record IsStopping (s : Running) : Type 0 where
    ended : s.cancelled ≡ true
    calm : All IsCalm s.tasks
    http_only : All OfHttp s.returned

  replaced :
      (s : Running) (before after : List Task) (x y : Task)
      → s.tasks ≡ before ++ (x ∷ after)
      → IsCalm y
      → IsStopping s
      → IsStopping (record s { tasks = before ++ (y ∷ after) })
  replaced s before after x y w c h = record {
    ended = h.ended;
    calm = All-replace IsCalm before after x y (subst (All IsCalm) w h.calm) c;
    http_only = h.http_only;
  }

  return-IsStopping :
      (s : Running) (before after : List Task) (r : Option RunError)
      → s.tasks ≡ before ++ (returning r ∷ after)
      → IsStopping s
      → IsStopping (return g s (before ++ after) r)
  unfolding return
  return-IsStopping s before after r w h =
      let (of_http, calm) =
        All-remove IsCalm before after (returning r) (subst (All IsCalm) w h.calm) in
      record {
        ended = ground (arith, h.ended);
        calm = calm;
        http_only = All-append OfHttp s.returned (r ∷ []) h.http_only (of_http, tt);
      }

  no_connecting :
      (s : Running) (before after : List Task) (l : _)
      → s.tasks ≡ before ++ (connecting l ∷ after)
      → ¬ IsStopping s
  no_connecting s before after l w h =
      (All-remove IsCalm before after (connecting l) (subst (All IsCalm) w h.calm)).0

  Step-IsStopping : {s t : Running} → Step g s t → IsStopping s → IsStopping t
  Step-IsStopping {s} (signal e) h =
      subst IsStopping (sym e) (record { ended = refl; calm = h.calm; http_only = h.http_only })
  Step-IsStopping {s} (serving_fails b a x w e) h =
      subst IsStopping (sym e) (replaced s b a http _ w tt h)
  Step-IsStopping {s} (shuts_down b a r w c e) h =
      subst IsStopping (sym e) (replaced s b a http _ w (shut-OfHttp r) h)
  Step-IsStopping {s} (connect_fails b a l x w e) h = absurd (no_connecting s b a l w h)
  Step-IsStopping {s} (connects b a l w e) h = absurd (no_connecting s b a l w h)
  Step-IsStopping {s} (receive_ends b a l x w e) h =
      subst IsStopping (sym e)
        (replaced s b a (receiving l) _ w (rw (pulled_late l.name s.cancelled x h.ended) tt) h)
  Step-IsStopping {s} (returns b a r w e) h =
      subst IsStopping (sym e) (return-IsStopping s b a r w h)

  Reach-IsStopping : {s t : Running} → IsStopping s → Reach g s t → IsStopping t
  Reach-IsStopping h here = h
  Reach-IsStopping h (next r st) = Step-IsStopping st (Reach-IsStopping h r)

  -- With an errgroup that does what it documents: if the context ends, by a signal, when no listener is
  -- still making its client, none has already come out of receiving to return an error, and the group has
  -- taken no error, then the server exits with no error or with one of the HTTP server, whatever
  -- receiving messages gives from then on.
  pub exit_stopped :
      (s t : Running)
      → s.cancelled ≡ true
      → All IsCalm s.tasks
      → All IsNil s.returned
      → Reach g s t
      → (exit g t ≡ none) ⊎ ((e : RunError) × (exit g t ≡ some e) × OfHttp (some e))
  unfolding exit
  exit_stopped s t c calm quiet run =
      let start : IsStopping s = record {
        ended = c;
        calm = calm;
        http_only = nil-OfHttp s.returned quiet;
      } in
      let h = Reach-IsStopping start run in
      elim (exit-returned t.returned) [
        | inl n ↦ inl (laws.wait_nil t.returned n)
        | inr (e, f) ↦
            inr (e, laws.wait_first e t.returned f, First-OfHttp e t.returned f h.http_only)
      ]
