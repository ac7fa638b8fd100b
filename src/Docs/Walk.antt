-- ===== src/Docs/Walk.antt =====
-- cmd/gen-docs/main.go: the commands that `walk` comes to, and their pages.
use mathlib.Core.List.{Memᴰ}
use event_reactor.Base.{
  ℕ, ◌+◌, Bool, true, false, ◌||◌, ◌==◌, Option, some, List, ◌≡◌, refl, arith, Option-cases, inl,
  inr, String, sym, subst,
}
use event_reactor.Docs.{
  Info, Command, command, Commands, no_commands, more_commands, Format, Page, Written, Visit,
  sort_visits, then_visit, visit_all, is_left_out, put, page, infos, info_of, listed, walk, visits,
}
use event_reactor.Docs.Visits.{Fine, Within, then_visit-both, sort_visits-Mem, visit_all-Mem}

pub data Child (c : Command) : Commands → Type 0 where
  here : {cs : Commands} → Child c (more_commands c cs)
  there : {d : Command} {cs : Commands} → Child c cs → Child c (more_commands d cs)

abbrev pub is_passed : Info → Bool
is_passed c = (c.name == "help") || c.hidden

-- A command that the walk from another one comes to.
pub data Visited : Command → Command → Type 0 where
  at_root : {c : Command} → is_left_out (info_of c) ≡ false → Visited c c
  below :
      {i : Info} {cs : Commands} {c d : Command}
      → is_left_out i ≡ false
      → Child c cs
      → is_passed (info_of c) ≡ false
      → Visited c d
      → Visited (command i cs) d

module _ (fmt : Format) (hugo : Bool) (dir : String) (write : Page → Option String) where
  -- The page of a command is one of these.
  abbrev pub IsPaged : Command → List Page → Type 0
  IsPaged (command i cs) ps = (w : ℕ) × Memᴰ (page fmt hugo dir i (infos cs) w) ps

  abbrev visit : Command → Visit
  visit c = record {
    name = (info_of c).name;
    hidden = (info_of c).hidden;
    go = walk fmt hugo dir write c;
  }

  Child-Mem :
      (c : Command) (cs : Commands) → Child c cs → Memᴰ (visit c) (visits fmt hugo dir write cs)
  unfolding visits
  Child-Mem c no_commands h = elim h [ ]
  Child-Mem c (more_commands _ cs) here = Memᴰ.head refl
  Child-Mem c (more_commands d cs) (there h) = Memᴰ.tail (Child-Mem c cs h)

  IsPaged-Within :
      (c : Command) (v w : Written) → Within v w → IsPaged c v.pages → IsPaged c w.pages
  IsPaged-Within (command i cs) v w h (n, m) = (n, h _ m)

  put-IsPaged :
      (i : Info) (cs : Commands) (w : ℕ)
      → Fine (put write (page fmt hugo dir i (infos cs) w))
      → IsPaged (command i cs) (put write (page fmt hugo dir i (infos cs) w)).pages
  put-IsPaged i cs w fine = elim (Option-cases (write (page fmt hugo dir i (infos cs) w))) [
    | inl good ↦ (w, rw (good, put) (Memᴰ.head refl))
    | inr (e, bad) ↦
        let failed : (put write (page fmt hugo dir i (infos cs) w)).error ≡ some e =
          rw (bad, put) refl in
        cc
  ]

  abbrev own : Info → Commands → ℕ → Written
  own i cs w = put write (page fmt hugo dir i (infos cs) (w + 1))

  abbrev rest : Commands → ℕ → Written
  rest cs = visit_all (sort_visits (visits fmt hugo dir write cs))

  walk-kept :
      (i : Info) (cs : Commands) (w : ℕ)
      → is_left_out i ≡ false
      → walk fmt hugo dir write (command i cs) w ≡ then_visit (own i cs w) (rest cs)
  unfolding walk
  walk-kept i cs w kept = rw (kept, walk) refl

  -- Where no error comes, there is a page for every command that the walk comes to.
  pub walk-Visited :
      (c d : Command) (w : ℕ)
      → Visited c d
      → Fine (walk fmt hugo dir write c w)
      → IsPaged d (walk fmt hugo dir write c w).pages
  walk-Visited (command i cs) _ w (at_root kept) fine =
      let same = walk-kept i cs w kept in
      let (a, b, c, d) = then_visit-both (own i cs w) (rest cs) (subst Fine same fine) in
      subst (λ z. IsPaged (command i cs) z.pages) (sym same)
        (IsPaged-Within (command i cs) (own i cs w) (then_visit (own i cs w) (rest cs)) c
          (put-IsPaged i cs (w + 1) a))
  walk-Visited (command i cs) d w (below {c = x} kept child passed more) fine =
      let same = walk-kept i cs w kept in
      let weight = (own i cs w).weight in
      let (a, b, c, later) = then_visit-both (own i cs w) (rest cs) (subst Fine same fine) in
      let (v, f, g) =
        visit_all-Mem (visit x) (sort_visits (visits fmt hugo dir write cs)) weight
          (sort_visits-Mem (visit x) (visits fmt hugo dir write cs) (Child-Mem x cs child)) passed
          b in
      subst (λ z. IsPaged d z.pages) (sym same)
        (IsPaged-Within d (rest cs weight) (then_visit (own i cs w) (rest cs)) later (
          IsPaged-Within d (walk fmt hugo dir write x v) (rest cs weight) g
            (walk-Visited x d v more f)))

abbrev pub children : Command → Commands
children (command i cs) = cs

listed-kept : (i : Info) → listed i ≡ true → (is_passed i ≡ false) × (is_left_out i ≡ false)
listed-kept i h = (ground arith, ground arith)

pub Visited-Child :
    (root d c : Command)
    → Visited root d
    → Child c (children d)
    → listed (info_of c) ≡ true
    → Visited root c
Visited-Child (command i cs) _ c (at_root kept) child h =
    let (passed, visible) = listed-kept (info_of c) h in below kept child passed (at_root visible)
Visited-Child (command i cs) d c (below kept k passed more) child h =
    below kept k passed (Visited-Child _ d c more child h)
