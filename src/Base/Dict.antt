-- ===== src/Base/Dict.antt =====
-- Go's maps with string keys as association lists: the first pair with a key is the entry.
use Prim.Native.String.{String}
use mathlib.Core.Path.{◌≡◌, refl, subst, ap}
use mathlib.Core.Logic.{inl, inr}
use mathlib.Core.Bool.{Bool}
use mathlib.Core.Option.{Option, none, some}
use mathlib.Core.List.{List, [], ◌∷◌}
use native.Mathlib.Omega.{arith}
use text.Mathlib.Text.{◌==◌}
use text.Mathlib.TextEquality.{eq_iff}
use text.Mathlib.TextPositions.{eq_refl}
use event_reactor.Base.Tests.{if◌then◌else◌, Bool-cases}

abbrev pub Dict {ℓ} : Type ℓ → Type ℓ
Dict V = List (String × V)

abbrev pub is_empty : String → Bool
is_empty s = s == ""

module _ {ℓ} {V : Type ℓ} where
  -- `m[key]`, where it is present.
  unfoldable pub lookup : String → Dict V → Option V
  lookup key [] = none
  lookup key ((name, val) ∷ others) = if name == key then some val else lookup key others

  -- `m[key] = val`
  unfoldable pub insert : String → V → Dict V → Dict V
  insert key val [] = (key, val) ∷ []
  insert key val ((name, old) ∷ others) =
      if name == key then (key, val) ∷ others else (name, old) ∷ insert key val others

  -- `m[k]` where the zero value of the map's elements is `zero_value`.
  abbrev pub index : V → String → Dict V → V
  index zero_value k m = elim (lookup k m) [ none ↦ zero_value | some v ↦ v ]

  -- What is found after an assignment.
  pub lookup-insert :
      (new wanted : String) (val : V) (dict : Dict V)
      → lookup wanted (insert new val dict)
        ≡ (if new == wanted then some val else lookup wanted dict)
  unfolding insert lookup
  lookup-insert new wanted val [] = refl
  lookup-insert new wanted val ((name, old) ∷ others) = ground (
    arith,
    lookup-insert new wanted val others,
    eq_iff name wanted,
    eq_iff name new,
    eq_iff new wanted,
  )

  pub lookup-insert_self : (k : String) (v : V) (m : Dict V) → lookup k (insert k v m) ≡ some v
  lookup-insert_self k v m = simp (lookup-insert, eq_refl)

  pub lookup-nil : (k : String) → lookup k [] ≡ none
  unfolding lookup
  lookup-nil k = refl

  -- Every entry of a dictionary satisfies a relation between its key and its value.
  abbrev pub Entries {κ} : (String → V → Type κ) → Dict V → Type κ
  Entries P [] = Unit
  Entries P ((k, v) ∷ m) = P k v × Entries P m

  pub Entries-insert {κ} :
      (P : String → V → Type κ) (k : String) (v : V) (m : Dict V)
      → P k v
      → Entries P m
      → Entries P (insert k v m)
  unfolding insert
  Entries-insert P k v [] p h = (p, tt)
  Entries-insert P k v ((j, w) ∷ m) p h = elim (Bool-cases (j == k)) [
    | inl same ↦ rw same (p, h.1)
    | inr other ↦ rw other (h.0, Entries-insert P k v m p h.1)
  ]

  pub Entries-lookup {κ} :
      (P : String → V → Type κ) (k : String) (v : V) (m : Dict V)
      → Entries P m
      → lookup k m ≡ some v
      → P k v
  unfolding lookup
  Entries-lookup P k v [] h e = cc
  Entries-lookup P k v ((j, w) ∷ m) h e = elim (Bool-cases (j == k)) [
    | inl same ↦ subst (λ x. P x v) ((eq_iff j k).0 same) (subst (P j) (ground arith) h.0)
    | inr other ↦ Entries-lookup P k v m h.1 (rw (other, lookup) at e)
  ]

  -- No key has two entries, as in any map of Go.
  abbrev pub NodupKeys : Dict V → Type ℓ
  NodupKeys [] = Unit
  NodupKeys ((k, v) ∷ m) = (lookup k m ≡ none) × NodupKeys m

  -- What holds of all that is looked up holds of every entry.
  pub Entries-of_lookup {κ} :
      (P : String → V → Type κ) (m : Dict V)
      → NodupKeys m
      → ((k : String) (v : V) → lookup k m ≡ some v → P k v)
      → Entries P m
  unfolding lookup
  Entries-of_lookup P [] u h = tt
  Entries-of_lookup P ((j, w) ∷ m) (fresh, u) h = (
    h j w (rw (eq_refl j, lookup)),
    Entries-of_lookup P m u
        (λ k v e. h k v (ground (arith, eq_iff j k, ap (λ x. lookup x m) {x = j} {y = k}))),
  )
