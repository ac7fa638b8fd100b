-- ===== src/Smtp/Headers.antt =====
-- pkg/reactor/providers/providers.go: no input can add a line to the header of a mail.
use event_reactor.Base.{
  false, any, List, [], ◌∷◌, String, All, All-append, if◌then◌else◌, ◌≡◌, refl, arith,
}
use event_reactor.Base.Text.{◌<>◌, join, has_crlf, has_crlf-append}
use event_reactor.Smtp.{SmtpParams, is_nil}
use event_reactor.Smtp.Mail.{header_lines}
use event_reactor.Smtp.Bounds.{IsSendable}

abbrev pub IsLine : String → Type 0
IsLine s = has_crlf s ≡ false

join-IsLine : (ss : List String) → any has_crlf ss ≡ false → IsLine (join ", " ss)
unfolding has_crlf
join-IsLine [] h = refl
join-IsLine (s ∷ []) h = ground arith
join-IsLine (s ∷ t ∷ ts) h = ground (
  arith,
  has_crlf-append (s <> ", ") (join ", " (t ∷ ts)),
  has_crlf-append s ", ",
  join-IsLine (t ∷ ts),
)

prefixed-IsLine : (prefix s : String) → IsLine prefix → IsLine s → IsLine (prefix <> s)
prefixed-IsLine prefix s h k = rw (has_crlf-append prefix s, h, k)

message_id-IsLine :
    (nano from : String)
    → IsLine nano
    → IsLine from
    → IsLine ("Message-ID: <" <> nano <> "." <> from <> ">")
unfolding has_crlf
message_id-IsLine nano from h k = rw (
  has_crlf-append ("Message-ID: <" <> nano <> "." <> from) ">",
  has_crlf-append ("Message-ID: <" <> nano <> ".") from,
  has_crlf-append ("Message-ID: <" <> nano) ".",
  has_crlf-append "Message-ID: <" nano,
  h,
  k,
)

suffixed-IsLine : (s suffix : String) → IsLine s → IsLine suffix → IsLine (s <> suffix)
suffixed-IsLine s suffix h k = rw (has_crlf-append s suffix, h, k)

copies-IsLine :
    (cc : List String)
    → any has_crlf cc ≡ false
    → All IsLine (if is_nil cc then [] else ("Cc: " <> join ", " cc) ∷ [])
unfolding has_crlf
copies-IsLine [] h = tt
copies-IsLine (c ∷ cs) h =
    (prefixed-IsLine "Cc: " (join ", " (c ∷ cs)) refl (join-IsLine (c ∷ cs) h), tt)

pub header_lines-IsLine :
    (date nano : String) (p : SmtpParams)
    → IsLine date
    → IsLine nano
    → IsSendable p
    → All IsLine (header_lines date nano p)
unfolding header_lines has_crlf
header_lines-IsLine date nano p d n v =
    let content =
      suffixed-IsLine ("Content-Type: " <> p.content_type) "; charset=UTF-8"
        (prefixed-IsLine "Content-Type: " p.content_type refl v.content_type) refl in
    let subject = prefixed-IsLine "Subject: " p.subject refl v.subject in
    let rest = All-append IsLine _ _ (copies-IsLine p.cc v.cc) (subject, (content, (refl, tt))) in
    let to = prefixed-IsLine "To: " (join ", " p.to) refl (join-IsLine p.to v.to) in
    let from = prefixed-IsLine "From: " p.from refl v.from in
    (
      prefixed-IsLine "Date: " date refl d,
      (message_id-IsLine nano p.from n v.from, (from, (to, rest))),
    )
