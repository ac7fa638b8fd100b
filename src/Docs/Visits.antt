-- ===== src/Docs/Visits.antt =====
-- cmd/gen-docs/main.go: the visits of `walk` in their order, where no error comes.
use mathlib.Core.List.{Memᴰ}
use mathlib.Core.List.Memᴰ
use event_reactor.Base.{
  ℕ, false, Option, none, some, List, [], ◌∷◌, ◌++◌, ◌≡◌, refl, Bool-cases, inl, inr, String, sym,
  subst,
}
use event_reactor.Docs.{
  Page, Written, Visit, sort_visits_in, sort_visits, then_visit, is_skipped, visit_all,
}
use event_reactor.Reactor.{before}

-- What is written without an error.
abbrev pub Fine : Written → Type 0
Fine w = w.error ≡ none

-- The pages of one are among those of another.
abbrev pub Within : Written → Written → Type 0
Within v w = (p : Page) → Memᴰ p v.pages → Memᴰ p w.pages

written-both :
    (ps : List Page) (v : ℕ) (error : Option String) (next : ℕ → Written)
    → Fine (then_visit (record { pages = ps; weight = v; error = error }) next)
    → (error ≡ none)
      × Fine (next v)
      × ((p : Page)
          → (Memᴰ p ps → Memᴰ p (ps ++ (next v).pages))
            × (Memᴰ p (next v).pages → Memᴰ p (ps ++ (next v).pages)))
      × ((then_visit (record { pages = ps; weight = v; error = error }) next).pages
          ≡ ps ++ (next v).pages)
written-both ps v none next h =
    (refl, h, (λ p. (Memᴰ.append_left (next v).pages, Memᴰ.append_right ps)), refl)
written-both ps v (some e) next h = cc

pub then_visit-both :
    (w : Written) (next : ℕ → Written)
    → Fine (then_visit w next)
    → Fine w
      × Fine (next w.weight)
      × Within w (then_visit w next)
      × Within (next w.weight) (then_visit w next)
then_visit-both w next h =
    let (a, b, c, e) = written-both w.pages w.weight w.error next h in
    (a, b, (λ p m. subst (Memᴰ p) (sym e) ((c p).0 m)), (λ p m. subst (Memᴰ p) (sym e) ((c p).1 m)))

sort_visits_in-self : (v : Visit) (vs : List Visit) → Memᴰ v (sort_visits_in v vs)
unfolding sort_visits_in
sort_visits_in-self v [] = Memᴰ.head refl
sort_visits_in-self v (u ∷ us) = elim (Bool-cases (before v.name u.name)) [
  | inl first ↦ rw (first, sort_visits_in) (Memᴰ.head refl)
  | inr later ↦ rw (later, sort_visits_in) (Memᴰ.tail (sort_visits_in-self v us))
]

sort_visits_in-rest : (v x : Visit) (vs : List Visit) → Memᴰ x vs → Memᴰ x (sort_visits_in v vs)
unfolding sort_visits_in
sort_visits_in-rest v x [] m = Memᴰ.tail m
sort_visits_in-rest v x (u ∷ us) m = elim (Bool-cases (before v.name u.name)) [
  | inl first ↦ rw (first, sort_visits_in) (Memᴰ.tail m)
  | inr later ↦
      rw (later, sort_visits_in)
        (elim m [
          | Memᴰ.head e ↦ Memᴰ.head e
          | Memᴰ.tail n ↦ Memᴰ.tail (sort_visits_in-rest v x us n)
        ])
]

pub sort_visits-Mem : (x : Visit) (vs : List Visit) → Memᴰ x vs → Memᴰ x (sort_visits vs)
unfolding sort_visits
sort_visits-Mem x [] m = elim m [ ]
sort_visits-Mem x (v ∷ vs) (Memᴰ.head e) =
    subst (λ y. Memᴰ y (sort_visits_in v (sort_visits vs))) (sym e)
      (sort_visits_in-self v (sort_visits vs))
sort_visits-Mem x (v ∷ vs) (Memᴰ.tail m) =
    sort_visits_in-rest v x (sort_visits vs) (sort_visits-Mem x vs m)

-- A child that is not passed over is visited, from some weight.
pub visit_all-Mem :
    (x : Visit) (vs : List Visit) (w : ℕ)
    → Memᴰ x vs
    → is_skipped x ≡ false
    → Fine (visit_all vs w)
    → (v : ℕ) × Fine (x.go v) × Within (x.go v) (visit_all vs w)
unfolding visit_all
visit_all-Mem x [] w m visited fine = elim m [ ]
visit_all-Mem x (u ∷ us) w m visited fine = elim (Bool-cases (is_skipped u)) [
  | inl skipped ↦
      let passed : visit_all (u ∷ us) w ≡ visit_all us w = rw (skipped, visit_all) refl in
      elim m [
        | Memᴰ.head e ↦
            absurd
              (let no : is_skipped u ≡ false = subst (λ y. is_skipped y ≡ false) e visited in cc)
        | Memᴰ.tail n ↦
            rw (skipped, visit_all) (visit_all-Mem x us w n visited (subst Fine passed fine))
      ]
  | inr kept ↦
      let opened : visit_all (u ∷ us) w ≡ then_visit (u.go w) (visit_all us) =
        rw (kept, visit_all) refl in
      let (a, b, c, d) = then_visit-both (u.go w) (visit_all us) (subst Fine opened fine) in
      elim m [
        | Memᴰ.head e ↦
            subst (λ y. (v : ℕ) × Fine (y.go v) × Within (y.go v) (visit_all (u ∷ us) w)) (sym e)
              (w, a, (λ p q. subst (λ z. Memᴰ p z.pages) (sym opened) (c p q)))
        | Memᴰ.tail n ↦
            let (v, f, g) = visit_all-Mem x us (u.go w).weight n visited b in
            (v, f, (λ p q. subst (λ z. Memᴰ p z.pages) (sym opened) (d p (g p q))))
      ]
]
