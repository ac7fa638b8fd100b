-- ===== src/Base/Text.antt =====
-- Texts as Go's `strings` package sees them. A text is a list of code points; the program only
-- compares texts, joins them and looks for ASCII characters and ASCII texts in them.
use Prim.Native.Char.{code}
use Prim.Native.Nat.{ℕ}
use Prim.Native.String
use Prim.Native.String.{String, [], ◌∷◌}
use mathlib.Core.Path.{◌≡◌}
use mathlib.Core.Bool.{Bool, false, ◌||◌}
use mathlib.Core.List.{List}
use native.Mathlib.Omega.{arith}
use text.Mathlib.Text.{starts_with, ◌==◌}
use text.Mathlib.TextLemmas.{nil-append, cons-append}
use mathlib.Core.Option.{Option, none, some}
use mathlib.Core.Logic.{inl, inr}
use text.Mathlib.TextEquality.{eq_iff}
use event_reactor.Base.Tests.{eqb, if◌then◌else◌, Bool-cases}

infixl 65 ◌<>◌
abbrev pub ◌<>◌ : String → String → String
◌<>◌ = String.◌++◌

-- strings.Join
abbrev pub join : String → List String → String
join sep List.[] = ""
join sep (List.◌∷◌ s List.[]) = s
join sep (List.◌∷◌ s (List.◌∷◌ t ts)) = s <> sep <> join sep (List.◌∷◌ t ts)

-- strings.Contains
unfoldable pub contains : String → String → Bool
contains [] sub = starts_with [] sub
contains (c ∷ s) sub = starts_with (c ∷ s) sub || contains s sub

-- strings.ContainsRune(s, b)
unfoldable pub contains_rune : String → ℕ → Bool
contains_rune [] b = false
contains_rune (c ∷ s) b = eqb (code c) b || contains_rune s b

-- strings.ContainsAny(s, "\r\n")
unfoldable pub has_crlf : String → Bool
has_crlf [] = false
has_crlf (c ∷ s) = eqb (code c) b'\r' || eqb (code c) b'\n' || has_crlf s

pub has_crlf-append : (s t : String) → has_crlf (s <> t) ≡ has_crlf s || has_crlf t
unfolding has_crlf
has_crlf-append [] t = rw nil-append
has_crlf-append (c ∷ s) t = rw cons-append (ground (arith, has_crlf-append s t))

-- What follows a prefix, where a text begins with it.
unfoldable pub after_prefix : String → String → Option String
after_prefix [] s = some s
after_prefix (c ∷ p) [] = none
after_prefix (c ∷ p) (d ∷ s) =
    let rest = after_prefix p s in if eqb (code c) (code d) then rest else none

-- strings.TrimPrefix(s, prefix)
unfoldable pub trim_prefix : String → String → String
trim_prefix prefix s = elim (after_prefix prefix s) [ none ↦ s | some rest ↦ rest ]

pub after_prefix-append : (p s : String) → after_prefix p (p <> s) ≡ some s
unfolding after_prefix
after_prefix-append [] s = rw nil-append
after_prefix-append (c ∷ p) s = rw cons-append (ground (arith, after_prefix-append p s))

-- A text that does not begin with a prefix is not what has it.
pub append-not_eq : (p s t : String) → after_prefix p t ≡ none → (p <> s == t) ≡ false
append-not_eq p s t h = elim (Bool-cases (p <> s == t)) [
  | inl same ↦ let e = (eq_iff (p <> s) t).0 same in let q = after_prefix-append p s in ground arith
  | inr other ↦ other
]

pub trim_prefix-append : (p s : String) → trim_prefix p (p <> s) ≡ s
unfolding trim_prefix
trim_prefix-append p s = rw (after_prefix-append p s, trim_prefix)
