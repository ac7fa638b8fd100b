-- ===== src/Smtp/Reading.antt =====
-- pkg/reactor/providers/providers.go: the mail that `smtpBuildMessage` makes, read back.
use text.Mathlib.TextLemmas.{nil-append, cons-append, append_assoc, append-eq-nil_iff}
use event_reactor.Base.{
  ℕ, zero, suc, ◌≤◌, ◌<◌, false, none, some, List, [], ◌∷◌, String, if◌then◌else◌, ◌≡◌, refl, ◌∙◌,
  ap, arith, eq_iff, length, All, All-append, Bool-cases, inl, inr,
}
use event_reactor.Base.Dict.{Dict, is_empty}
use event_reactor.Base.Result.{ok}
use event_reactor.Base.Text.{◌<>◌, join, has_crlf, after_prefix}
use event_reactor.Base.Value.{Value}
use event_reactor.Smtp.{Formats, SmtpParams, is_nil, parse_smtp_input}
use event_reactor.Smtp.Mail.{header_lines, write_lines, build_message}
use event_reactor.Smtp.Bounds.{NonEmpty, ne-empty, parse_smtp_input-IsSendable}
use event_reactor.Smtp.Headers.{IsLine, header_lines-IsLine}

-- A line, up to the first CR LF, and what follows it.
unfoldable pub take_line : String → String × String
take_line String.[] = ("", "")
take_line (String.◌∷◌ c s) =
    let (line, rest) = take_line s in
    elim (after_prefix "\r\n" (String.◌∷◌ c s)) [
      | some after ↦ ("", after)
      | none ↦ (String.◌∷◌ c line, rest)
    ]

-- The lines before the first empty one, of at most so many, and what follows that.
unfoldable pub read_mail : ℕ → String → List String × String
read_mail zero s = ([], s)
read_mail (suc n) s =
    let (line, rest) = take_line s in
    let (lines, body) = read_mail n rest in
    if is_empty line then ([], rest) else (line ∷ lines, body)

empty_IsLine : IsLine ""
unfolding has_crlf
empty_IsLine = refl

crlf-append : (s : String) → "\r\n" <> s ≡ String.◌∷◌ "\r" (String.◌∷◌ "\n" s)
crlf-append s =
    cons-append "\r" "\n" s
    ∙ ap (String.◌∷◌ "\r") (cons-append "\n" "" s ∙ ap (String.◌∷◌ "\n") (nil-append s))

take_line-crlf : (rest : String) → take_line ("\r\n" <> rest) ≡ ("", rest)
unfolding take_line after_prefix
take_line-crlf rest = ap take_line (crlf-append rest)

take_line-append :
    (line rest : String) → IsLine line → take_line (line <> "\r\n" <> rest) ≡ (line, rest)
unfolding take_line after_prefix has_crlf
take_line-append String.[] rest h = rw (nil-append) (take_line-crlf rest)
take_line-append (String.◌∷◌ c s) rest h =
    rw (cons-append, cons-append) (ground (arith, take_line-append s rest))

-- The rest of a mail after its first line.
rest_of_mail :
    (l w body : String) → l <> "\r\n" <> w <> "\r\n" <> body ≡ l <> "\r\n" <> (w <> "\r\n" <> body)
rest_of_mail l w body =
    ap (λ s. s <> body) (append_assoc (l <> "\r\n") w "\r\n")
    ∙ append_assoc (l <> "\r\n") (w <> "\r\n") body

read_mail-write_lines :
    (lines : List String) (body : String) (n : ℕ)
    → All IsLine lines
    → All NonEmpty lines
    → length lines < n
    → read_mail n (write_lines lines <> "\r\n" <> body) ≡ (lines, body)
unfolding read_mail write_lines
read_mail-write_lines lines body zero h k few = absurd (omega arith)
read_mail-write_lines [] body (suc n) h k few = rw (take_line-crlf body) refl
read_mail-write_lines (l ∷ ls) body (suc n) (h, hs) (k, ks) few =
    let line : take_line (l <> "\r\n" <> write_lines ls <> "\r\n" <> body)
        ≡ (l, write_lines ls <> "\r\n" <> body) =
      ap take_line (rest_of_mail l (write_lines ls) body)
      ∙ take_line-append l (write_lines ls <> "\r\n" <> body) h in
    let filled : is_empty l ≡ false = ground (arith, eq_iff l "") in
    rw (line, filled, read_mail-write_lines ls body n hs ks (omega arith)) refl

append-NonEmpty : (s t : String) → NonEmpty s → NonEmpty (s <> t)
append-NonEmpty s t h = λ e. h (append-eq-nil_iff.0 e).0

copies-NonEmpty :
    (cc : List String) → All NonEmpty (if is_nil cc then [] else ("Cc: " <> join ", " cc) ∷ [])
copies-NonEmpty [] = tt
copies-NonEmpty (c ∷ cs) =
    (append-NonEmpty "Cc: " (join ", " (c ∷ cs)) (ne-empty {s = "Cc: "} refl), tt)

header_lines-NonEmpty :
    (date nano : String) (p : SmtpParams) → All NonEmpty (header_lines date nano p)
unfolding header_lines
header_lines-NonEmpty date nano p =
    let message_id = append-NonEmpty _ ">" (
      append-NonEmpty _ p.from (
        append-NonEmpty _ "."
          (append-NonEmpty "Message-ID: <" nano (ne-empty {s = "Message-ID: <"} refl)))) in
    let content =
      append-NonEmpty _ "; charset=UTF-8"
        (append-NonEmpty "Content-Type: " p.content_type (ne-empty {s = "Content-Type: "} refl)) in
    let subject = append-NonEmpty "Subject: " p.subject (ne-empty {s = "Subject: "} refl) in
    let version : NonEmpty "MIME-Version: 1.0" = ne-empty {s = "MIME-Version: 1.0"} refl in
    let rest = All-append NonEmpty _ _ (copies-NonEmpty p.cc) (subject, (content, (version, tt))) in
    (
      append-NonEmpty "Date: " date (ne-empty {s = "Date: "} refl),
      (
        message_id,
        (
          append-NonEmpty "From: " p.from (ne-empty {s = "From: "} refl),
          (append-NonEmpty "To: " (join ", " p.to) (ne-empty {s = "To: "} refl), rest),
        ),
      ),
    )

header_lines-few : (date nano : String) (p : SmtpParams) → length (header_lines date nano p) ≤ 8
unfolding header_lines
header_lines-few date nano p = elim (Bool-cases (is_nil p.cc)) [
  | inl alone ↦ rw alone (omega arith)
  | inr copied ↦ rw copied (omega arith)
]

-- For parameters that `parseSMTPInput` returns, and a date and a number with no line end: reading the
-- mail line by line up to the first empty line gives the header lines and the body, so that no input
-- adds a line to the header or moves its end.
pub read_mail-build_message :
    (fmt : Formats) (inputs : Dict Value) (p : SmtpParams) (date nano : String)
    → parse_smtp_input fmt inputs ≡ ok p
    → IsLine date
    → IsLine nano
    → read_mail 9 (build_message date nano p) ≡ (header_lines date nano p, p.body)
unfolding build_message
read_mail-build_message fmt inputs p date nano e d n =
    read_mail-write_lines (header_lines date nano p) p.body 9
      (header_lines-IsLine date nano p d n (parse_smtp_input-IsSendable fmt inputs p e))
      (header_lines-NonEmpty date nano p) (omega (arith, header_lines-few date nano p))
