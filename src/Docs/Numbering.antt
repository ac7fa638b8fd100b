-- ===== src/Docs/Numbering.antt =====
-- cmd/gen-docs/main.go: the weights of the pages.
use event_reactor.Base.{
  ℕ, suc, ◌+◌, Bool, Option, none, some, List, [], ◌∷◌, ◌++◌, length, ◌≡◌, refl, arith, All,
  Bool-cases, Option-cases, inl, inr, subst, String, length-append,
}
use event_reactor.Docs.{
  Command, command, Commands, no_commands, more_commands, Format, Page, Written, Visit,
  sort_visits_in, sort_visits, then_visit, is_skipped, visit_all, is_left_out, put, page, infos,
  walk, visits, run,
}
use event_reactor.Reactor.{before}

-- Each page has a weight one above that of the page before it, the first one above `w`.
abbrev pub Consecutive : ℕ → List Page → Type 0
Consecutive w [] = Unit
Consecutive w (p ∷ ps) = (p.weight ≡ suc w) × Consecutive (suc w) ps

Consecutive-append :
    (w v : ℕ) (ps qs : List Page)
    → Consecutive w ps
    → w + length ps ≡ v
    → Consecutive v qs
    → Consecutive w (ps ++ qs)
Consecutive-append w v [] qs h e k =
    let same : v ≡ w = omega arith in subst (λ x. Consecutive x qs) same k
Consecutive-append w v (p ∷ ps) qs (p_next, h) e k =
    (p_next, Consecutive-append (suc w) v ps qs h (omega arith) k)

-- The pages are consecutive from a weight, and the counter has counted them where there is no error.
pub record Numbered (w : ℕ) (out : Written) : Type 0 where
  pub consecutive : Consecutive w out.pages
  pub counted : out.error ≡ none → w + length out.pages ≡ out.weight

abbrev written : List Page → ℕ → Option String → Written
written ps v e = record { pages = ps; weight = v; error = e }

written-Numbered :
    (w v : ℕ) (ps : List Page) (error : Option String) (next : ℕ → Written)
    → Numbered w (written ps v error)
    → ((x : ℕ) → Numbered x (next x))
    → Numbered w (then_visit (written ps v error) next)
written-Numbered w v ps (some e) next h k = h
written-Numbered w v ps none next h k =
    let n = k v in
    record {
      consecutive =
          Consecutive-append w v ps (next v).pages h.consecutive (h.counted refl) n.consecutive;
      counted = λ e. omega (arith, length-append ps (next v).pages, h.counted refl, n.counted e);
    }

Numbered-then_visit :
    (w : ℕ) (out : Written) (next : ℕ → Written)
    → Numbered w out
    → ((v : ℕ) → Numbered v (next v))
    → Numbered w (then_visit out next)
Numbered-then_visit w out next h k = written-Numbered w out.weight out.pages out.error next h k

abbrev Counts : Visit → Type 0
Counts v = (w : ℕ) → Numbered w (v.go w)

sort_visits_in-Counts :
    (v : Visit) (vs : List Visit) → Counts v → All Counts vs → All Counts (sort_visits_in v vs)
unfolding sort_visits_in
sort_visits_in-Counts v [] h k = (h, tt)
sort_visits_in-Counts v (u ∷ us) h (k, ks) = elim (Bool-cases (before v.name u.name)) [
  | inl first ↦ rw (first, sort_visits_in) (h, (k, ks))
  | inr later ↦ rw (later, sort_visits_in) (k, sort_visits_in-Counts v us h ks)
]

sort_visits-Counts : (vs : List Visit) → All Counts vs → All Counts (sort_visits vs)
unfolding sort_visits
sort_visits-Counts [] h = tt
sort_visits-Counts (v ∷ vs) (h, hs) =
    sort_visits_in-Counts v (sort_visits vs) h (sort_visits-Counts vs hs)

nothing-Numbered : (w : ℕ) → Numbered w (record { pages = []; weight = w; error = none })
nothing-Numbered w = record { consecutive = tt; counted = λ e. omega arith }

visit_all-Numbered : (vs : List Visit) (w : ℕ) → All Counts vs → Numbered w (visit_all vs w)
unfolding visit_all
visit_all-Numbered [] w h = nothing-Numbered w
visit_all-Numbered (v ∷ vs) w (h, hs) = elim (Bool-cases (is_skipped v)) [
  | inl skipped ↦ rw (skipped, visit_all) (visit_all-Numbered vs w hs)
  | inr visited ↦
      rw (visited, visit_all)
        (Numbered-then_visit w (v.go w) (visit_all vs) (h w) (λ x. visit_all-Numbered vs x hs))
]

put-Numbered :
    (write : Page → Option String) (p : Page) (w : ℕ) → p.weight ≡ suc w → Numbered w (put write p)
put-Numbered write p w e = elim (Option-cases (write p)) [
  | inl fine ↦ rw (fine, put) (record { consecutive = (e, tt); counted = λ x. omega (arith, e) })
  | inr (x, failed) ↦ rw (failed, put) (record { consecutive = tt; counted = λ h. cc })
]

module _ (fmt : Format) (hugo : Bool) (dir : String) (write : Page → Option String) where
  mutual
    unfolding walk visits page

    walk-Numbered : (c : Command) (w : ℕ) → Numbered w (walk fmt hugo dir write c w)
    walk-Numbered (command c cs) w = elim (Bool-cases (is_left_out c)) [
      | inl left ↦ rw (left, walk) (nothing-Numbered w)
      | inr kept ↦
          rw (kept, walk)
            (Numbered-then_visit w (put write (page fmt hugo dir c (infos cs) (w + 1)))
              (visit_all (sort_visits (visits fmt hugo dir write cs)))
              (put-Numbered write _ w (omega arith))
              (λ v.
                visit_all-Numbered (sort_visits (visits fmt hugo dir write cs)) v
                  (sort_visits-Counts _ (visits-Counts cs))))
    ]

    visits-Counts : (cs : Commands) → All Counts (visits fmt hugo dir write cs)
    visits-Counts no_commands = tt
    visits-Counts (more_commands c cs) = (walk-Numbered c, visits-Counts cs)

  -- Whatever the commands, and whichever file cannot be written: the pages that are written have the
  -- weights 1, 2, 3 and so on in the order in which they are written.
  pub run-Consecutive :
      (make_dir : Option String) (root : Command)
      → Consecutive 0 (run fmt hugo dir write make_dir root).pages
  unfolding run
  run-Consecutive none root = (walk-Numbered root 0).consecutive
  run-Consecutive (some e) root = tt
