-- ===== src/Base/Value.antt =====
-- Go's `any` as far as the program inspects it, by a constructor for each dynamic type.
use Prim.Native.Nat.{ℕ, zero, suc, ◌*◌, ◌/◌, ◌^◌}
use Prim.Native.String.{String}
use mathlib.Core.Bool.{Bool}
use mathlib.Core.List.{List, [], ◌∷◌}
use event_reactor.Base.Int.{ℤ, pos, negsuc}
use event_reactor.Base.Tests.{leb, if◌then◌else◌}
use event_reactor.Base.Dict.{Dict}

abbrev pub Bytes : Type 0
Bytes = List ℕ

-- A `float64`: a finite one is `mantissa * 2 ^ up / 2 ^ down`.
pub data Float : Type 0 where
  finite : ℤ → ℕ → ℕ → Float
  infinite not_a_number : Float

mutual
  pub data Value : Type 0 where
    null : Value
    bool : Bool → Value
    int : ℤ → Value
    int64 : ℤ → Value
    float : Float → Value
    str : String → Value
    bytes : Bytes → Value
    -- []any, []string and []map[string]any
    list : Items → Value
    strings : List String → Value
    objects : Objects → Value
    -- map[string]any and map[string]string
    object : Fields → Value
    string_map : Dict String → Value

  pub data Items : Type 0 where
    nil : Items
    cons : Value → Items → Items

  pub data Fields : Type 0 where
    end : Fields
    field : String → Value → Fields → Fields

  pub data Objects : Type 0 where
    no_objects : Objects
    more_objects : Fields → Objects → Objects

-- The entries of a map[string]any; a nil map has none.
abbrev pub entries : Fields → Dict Value
entries end = []
entries (field k v fs) = (k, v) ∷ entries fs

abbrev pub fields : Dict Value → Fields
fields [] = end
fields ((k, v) ∷ m) = field k v (fields m)

abbrev pub elements : Items → List Value
elements nil = []
elements (cons v vs) = v ∷ elements vs

-- `s, _ := v.(string)`: the empty string where the dynamic type is another.
abbrev pub as_string : Value → String
as_string (str s) = s
as_string _ = ""

-- The largest magnitudes of an `int`.
abbrev pub fits_int : ℤ → Bool
fits_int (pos n) = leb n 9223372036854775807
fits_int (negsuc n) = leb n 9223372036854775807

abbrev pub negate : ℕ → ℤ
negate zero = pos 0
negate (suc n) = negsuc n

-- The part of a finite number before the point, with its sign.
abbrev pub truncate : ℤ → ℕ → ℕ → ℤ
truncate (pos m) up down = pos (m * 2 ^ up / 2 ^ down)
truncate (negsuc m) up down = negate (suc m * 2 ^ up / 2 ^ down)

-- `int(v)` of a float64. Where the number does not fit Go leaves the result to the platform, which
-- is `wild`.
unfoldable pub to_int : (Float → ℤ) → Float → ℤ
to_int wild (finite m up down) =
    let n = truncate m up down in if fits_int n then n else wild (finite m up down)
to_int wild infinite = wild infinite
to_int wild not_a_number = wild not_a_number
