-- ===== src/Api/Signature.antt =====
-- pkg/api/api.go: `validateHMAC`, with hex.DecodeString as the standard library has it.
use Prim.Native.Char.{Char, code}
use Prim.Native.String.{String, [], ◌∷◌}
use mathlib.Core.Bool.{and-eq-true_iff}
use mathlib.Core.Option.{some-injective}
use text.Mathlib.TextLemmas.{append-eq-nil_iff}
use event_reactor.Base.{
  ℕ, ◌+◌, ◌-◌, ◌*◌, ◌/◌, ◌%◌, ◌<◌, leb, eqb, Bool, true, false, ◌&&◌, Option, none, some, List,
  if◌then◌else◌, ◌≡◌, ◌≢◌, refl, arith, All, eq_iff, ◌↔◌, ap, ◌∙◌, sym, subst, zero, suc,
  Bool-cases, inl, inr, Option-cases,
}
use event_reactor.Base.Dict.{is_empty}
use event_reactor.Base.Text.{◌<>◌, trim_prefix, trim_prefix-append}
use event_reactor.Base.Value.{Bytes}

-- The value of a hexadecimal digit.
unfoldable pub hex_value : ℕ → Option ℕ
hex_value c =
    if leb b'0' c && leb c b'9'
    then some (c - b'0')
    else if leb b'a' c && leb c b'f'
    then some (c - b'a' + 10)
    else if leb b'A' c && leb c b'F'
    then some (c - b'A' + 10)
    else none

abbrev pub hex_byte : Option ℕ → Option ℕ → Option Bytes → Option Bytes
hex_byte (some hi) (some lo) (some rest) = some (List.◌∷◌ (hi * 16 + lo) rest)
hex_byte _ _ _ = none

unfoldable pub hex_decode : String → Option Bytes
hex_decode [] = some List.[]
hex_decode (c ∷ []) = none
hex_decode (c ∷ d ∷ s) = hex_byte (hex_value (code c)) (hex_value (code d)) (hex_decode s)

-- hmac.Equal: the same bytes.
unfoldable pub bytes_equal : Bytes → Bytes → Bool
bytes_equal List.[] List.[] = true
bytes_equal (List.◌∷◌ x xs) (List.◌∷◌ y ys) = eqb x y && bytes_equal xs ys
bytes_equal _ _ = false

-- `mac secret body` is the HMAC-SHA256 of the body.
unfoldable pub validate_hmac : (String → Bytes → Bytes) → Bytes → (signature secret : String) → Bool
validate_hmac mac body signature secret =
    if is_empty signature then false else elim (hex_decode (trim_prefix "sha256=" signature)) [
      | none ↦ false
      | some expected ↦ bytes_equal (mac secret body) expected
    ]

bytes_equal_iff : (xs ys : Bytes) → (bytes_equal xs ys ≡ true) ↔ (xs ≡ ys)
unfolding bytes_equal
bytes_equal_iff List.[] List.[] = (λ _. refl, λ _. refl)
bytes_equal_iff (List.◌∷◌ x xs) (List.◌∷◌ y ys) = ground (arith, bytes_equal_iff xs ys)
bytes_equal_iff _ _ = (λ h. cc, λ h. cc)

-- A signature is valid exactly if it is not empty and, without the prefix "sha256=" if it has it,
-- decodes as hexadecimal text to the HMAC of the body.
pub validate_hmac_iff :
    (mac : String → Bytes → Bytes) (body : Bytes) (signature secret : String)
    → (validate_hmac mac body signature secret ≡ true)
      ↔ ((signature ≢ "") × (hex_decode (trim_prefix "sha256=" signature) ≡ some (mac secret body)))
unfolding validate_hmac
validate_hmac_iff mac body signature secret =
    elim (Option-cases (hex_decode (trim_prefix "sha256=" signature))) [
      | inl bad ↦ ground (arith, eq_iff signature "")
      | inr (sig, good) ↦ ground (arith, eq_iff signature "", bytes_equal_iff (mac secret body) sig)
    ]

-- The digits in which signatures are written.
abbrev hex_digit : ℕ → Char
hex_digit n =
    if eqb n 0
    then "0"
    else if eqb n 1
    then "1"
    else if eqb n 2
    then "2"
    else if eqb n 3
    then "3"
    else if eqb n 4
    then "4"
    else if eqb n 5
    then "5"
    else if eqb n 6
    then "6"
    else if eqb n 7
    then "7"
    else if eqb n 8
    then "8"
    else if eqb n 9
    then "9"
    else if eqb n 10
    then "a"
    else if eqb n 11
    then "b"
    else if eqb n 12
    then "c"
    else if eqb n 13
    then "d"
    else if eqb n 14
    then "e"
    else "f"

-- The hexadecimal text of some bytes.
abbrev pub hex_encode : Bytes → String
hex_encode List.[] = ""
hex_encode (List.◌∷◌ b bs) = hex_digit (b / 16) ∷ hex_digit (b % 16) ∷ hex_encode bs

abbrev reads_as : Option ℕ → ℕ → Bool
reads_as none n = false
reads_as (some v) n = eqb v n

reads_as-eq : (o : Option ℕ) (n : ℕ) → reads_as o n ≡ true → o ≡ some n
reads_as-eq none n h = cc
reads_as-eq (some v) n h = ground arith

-- Every digit below a bound is read as its value.
digits_read : ℕ → Bool
unfolding hex_value
digits_read zero = true
digits_read (suc n) = reads_as (hex_value (code (hex_digit n))) n && digits_read n

digits_read_sound :
    (m n : ℕ) → digits_read m ≡ true → n < m → hex_value (code (hex_digit n)) ≡ some n
unfolding digits_read
digits_read_sound zero n h lt = absurd (omega arith)
digits_read_sound (suc m) n h lt = elim (Bool-cases (eqb n m)) [
  | inl same ↦
      let e : m ≡ n = ground arith in
      subst (λ k. hex_value (code (hex_digit k)) ≡ some k) e
        (reads_as-eq (hex_value (code (hex_digit m))) m ((and-eq-true_iff _ _).0 h).0)
  | inr other ↦ digits_read_sound m n ((and-eq-true_iff _ _).0 h).1 (ground arith)
]

all_digits_read : digits_read 16 ≡ true
unfolding digits_read
all_digits_read = refl

hex_digit_table : (n : ℕ) → n < 16 → hex_value (code (hex_digit n)) ≡ some n
hex_digit_table n h = digits_read_sound 16 n all_digits_read h

hex_decode-hex_encode : (bs : Bytes) → All (λ b. b < 256) bs → hex_decode (hex_encode bs) ≡ some bs
unfolding hex_decode
hex_decode-hex_encode List.[] h = refl
hex_decode-hex_encode (List.◌∷◌ b bs) (small, h) =
    rw
      (
        hex_digit_table (b / 16) (omega arith),
        hex_digit_table (b % 16) (omega arith),
        hex_decode-hex_encode bs h,
      )
      (ap (λ x. some (List.◌∷◌ x bs)) (omega arith))

-- The signature that a sender computes, "sha256=" before the hexadecimal text of the HMAC of the
-- body, is valid, and it is so for no body with another HMAC.
pub validate_hmac-hex_encode :
    (mac : String → Bytes → Bytes) (body sent : Bytes) (secret : String)
    → All (λ b. b < 256) (mac secret sent)
    → (validate_hmac mac body ("sha256=" <> hex_encode (mac secret sent)) secret ≡ true)
      ↔ (mac secret sent ≡ mac secret body)
validate_hmac-hex_encode mac body sent secret small =
    let sig = "sha256=" <> hex_encode (mac secret sent) in
    let read : hex_decode (trim_prefix "sha256=" sig) ≡ some (mac secret sent) =
      ap hex_decode (trim_prefix-append "sha256=" (hex_encode (mac secret sent)))
      ∙ hex_decode-hex_encode (mac secret sent) small in
    let written : sig ≢ "" = λ e. ground (arith, eq_iff "sha256=" "", (append-eq-nil_iff.0 e).0) in
    let valid = validate_hmac_iff mac body sig secret in
    (
      λ h. some-injective _ _ (sym read ∙ (valid.0 h).1),
      λ same. valid.1 (written, read ∙ ap some same),
    )
