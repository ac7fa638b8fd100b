-- ===== src/Docs/Links.antt =====
-- cmd/gen-docs/main.go: which pages `main` writes.
use event_reactor.Base.{
  ◌<◌, Bool, true, false, ◌↔◌, Option, none, some, List, [], ◌≡◌, refl, arith, String, sym, subst,
}
use event_reactor.Docs.{
  Command, Format, Page, Written, info_of, listed, run, Options, System, main, same_flag, status_of,
  exit_of,
}
use event_reactor.Docs.Numbering.{Consecutive, run-Consecutive}
use event_reactor.Docs.Visits.{Fine}
use event_reactor.Docs.Walk.{Child, Visited, IsPaged, walk-Visited, children, Visited-Child}

same_flag_iff : (b c : Bool) → (same_flag b c ≡ true) ↔ (b ≡ c)
same_flag_iff true true = (λ e. refl, λ e. refl)
same_flag_iff true false = (λ e. cc, λ e. cc)
same_flag_iff false true = (λ e. cc, λ e. cc)
same_flag_iff false false = (λ e. refl, λ e. refl)

status_of-small : (e : Option String) → status_of e < 2
status_of-small none = omega arith
status_of-small (some e) = omega arith

status_of-zero : (e : Option String) → status_of e ≡ 0 → e ≡ none
status_of-zero none h = refl
status_of-zero (some e) h = absurd (omega (arith, h))

exit_of-two :
    (b : Bool) (w : Written)
    → (((exit_of b w).status ≡ 2) ↔ (b ≡ true))
      × ((exit_of b w).status ≡ 2 → (exit_of b w).pages ≡ [])
exit_of-two true w = ((λ h. refl, λ h. refl), λ h. refl)
exit_of-two false w = (
  (λ h. absurd (omega (arith, status_of-small w.error)), λ h. cc),
  λ h. absurd (omega (arith, status_of-small w.error)),
)

exit_of-zero :
    (b : Bool) (w : Written) → (exit_of b w).status ≡ 0 → Fine w × ((exit_of b w).pages ≡ w.pages)
exit_of-zero true w h = absurd (omega (arith, h))
exit_of-zero false w h = (status_of-zero w.error h, refl)

run-Visited :
    (fmt : Format) (hugo : Bool) (dir : String) (write : Page → Option String)
    (make_dir : Option String) (root d : Command)
    → Visited root d
    → Fine (run fmt hugo dir write make_dir root)
    → IsPaged fmt hugo dir write d (run fmt hugo dir write make_dir root).pages
unfolding run
run-Visited fmt hugo dir write none root d v fine = walk-Visited fmt hugo dir write root d 0 v fine
run-Visited fmt hugo dir write (some e) root d v fine = cc

-- That a command has a page, for the flags that were given.
abbrev pub HasPage : System → Options → List Page → Command → Type 0
HasPage sys opts ps c = IsPaged sys.format opts.custom (sys.directory opts.doc_path) sys.write c ps

-- The process ends with status 2, having written nothing, exactly if both modes or none are asked for.
-- If it ends with status 0, the pages have the weights 1, 2, 3 and so on in the order in which they are
-- written; there is one for every command that the walk comes to, and for every subcommand that such a
-- page lists, so that no link is dead.
pub main_pages :
    (sys : System) (opts : Options)
    → let x = main sys opts in
      ((x.status ≡ 2) ↔ (opts.standard ≡ opts.custom))
      × (x.status ≡ 2 → x.pages ≡ [])
      × (x.status ≡ 0
          → Consecutive 0 x.pages
            × ((d : Command)
                → Visited sys.root d
                → HasPage sys opts x.pages d
                  × ((c : Command)
                      → Child c (children d)
                      → listed (info_of c) ≡ true
                      → HasPage sys opts x.pages c)))
unfolding main
main_pages sys opts =
    let dir = sys.directory opts.doc_path in
    let made = sys.make_dir opts.doc_path in
    let w = run sys.format opts.custom dir sys.write made sys.root in
    let misused = same_flag opts.standard opts.custom in
    let (two, empty) = exit_of-two misused w in
    let flags = same_flag_iff opts.standard opts.custom in
    (
      (λ h. flags.0 (two.0 h), λ h. two.1 (flags.1 h)),
      empty,
      λ h.
          let (fine, same) = exit_of-zero misused w h in
          let paged = λ (d : Command) (v : Visited sys.root d).
            subst (λ ps. HasPage sys opts ps d) (sym same)
              (run-Visited sys.format opts.custom dir sys.write made sys.root d v fine) in
          (
            subst (Consecutive 0) (sym same)
                (run-Consecutive sys.format opts.custom dir sys.write made sys.root),
            λ d v. (paged d v, λ c child seen. paged c (Visited-Child sys.root d c v child seen)),
          ),
    )
