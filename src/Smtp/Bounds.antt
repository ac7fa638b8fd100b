-- ===== src/Smtp/Bounds.antt =====
-- pkg/reactor/providers/providers.go: what holds of the parameters that `parseSMTPInput` returns.
use event_reactor.Base.{◌≤◌, false, any, List, [], ◌∷◌, String, All, ◌≡◌, ◌≢◌, subst, arith, eq_iff}
use event_reactor.Base.Int.{ℤ, pos, negsuc}
use event_reactor.Base.Dict.{Dict, is_empty}
use event_reactor.Base.Text.{has_crlf}
use event_reactor.Base.Result.{ok, reject_if-ok, ok-injective}
use event_reactor.Base.Value.{Value, str, list, strings, elements}
use event_reactor.Smtp.{
  Formats, SmtpParams, non_empty, texts, extract_recipients, clamp_retries, extract_int, input,
  is_nil, parse_smtp_input,
}

clamp_retries-le : (n : ℤ) → clamp_retries n ≤ 10
unfolding clamp_retries
clamp_retries-le (pos n) = ground arith
clamp_retries-le (negsuc n) = omega arith

pub ne-empty : {s : String} → is_empty s ≡ false → s ≢ ""
ne-empty {s} h = ground (arith, eq_iff s "")

abbrev pub NonEmpty : String → Type 0
NonEmpty s = s ≢ ""

non_empty-NonEmpty : (ss : List String) → All NonEmpty (non_empty ss)
unfolding non_empty
non_empty-NonEmpty [] = tt
non_empty-NonEmpty (s ∷ ss) = ground (arith, eq_iff s "", non_empty-NonEmpty ss)

extract_recipients-NonEmpty : (v : Value) → All NonEmpty (extract_recipients v)
unfolding extract_recipients
extract_recipients-NonEmpty (str s) = non_empty-NonEmpty (s ∷ [])
extract_recipients-NonEmpty (strings ss) = non_empty-NonEmpty ss
extract_recipients-NonEmpty (list vs) = non_empty-NonEmpty (texts (elements vs))
extract_recipients-NonEmpty _ = tt

-- The parameters that can be sent: what goes into a header line has no line end, there is a
-- recipient, and no recipient is empty.
pub record IsSendable (p : SmtpParams) : Type 0 where
  pub host : has_crlf p.host ≡ false
  pub from : has_crlf p.from ≡ false
  pub to : any has_crlf p.to ≡ false
  pub cc : any has_crlf p.cc ≡ false
  pub bcc : any has_crlf p.bcc ≡ false
  pub subject : has_crlf p.subject ≡ false
  pub content_type : has_crlf p.content_type ≡ false
  pub named : p.host ≢ ""
  pub sender : p.from ≢ ""
  pub addressed : is_nil p.to ≡ false
  pub recipients : All NonEmpty p.to × All NonEmpty p.cc × All NonEmpty p.bcc
  pub retries : p.max_retries ≤ 10

-- Whatever the inputs, parameters that are returned have no CR or LF in the host, the sender, the
-- recipients, the subject or the content type; they have a host, a sender and a recipient, no
-- recipient is empty, and they allow ten retries at most.
pub parse_smtp_input-IsSendable :
    (fmt : Formats) (inputs : Dict Value) (p : SmtpParams)
    → parse_smtp_input fmt inputs ≡ ok p
    → IsSendable p
unfolding parse_smtp_input
parse_smtp_input-IsSendable fmt inputs p e0 =
    let (h1, e1) = reject_if-ok _ _ _ e0 in
    let (h2, e2) = reject_if-ok _ _ _ e1 in
    let (h3, e3) = reject_if-ok _ _ _ e2 in
    let (h4, e4) = reject_if-ok _ _ _ e3 in
    let (h5, e5) = reject_if-ok _ _ _ e4 in
    let (h6, e6) = reject_if-ok _ _ _ e5 in
    let (h7, e7) = reject_if-ok _ _ _ e6 in
    let (h8, e8) = reject_if-ok _ _ _ e7 in
    let (h9, e9) = reject_if-ok _ _ _ e8 in
    let (h10, e10) = reject_if-ok _ _ _ e9 in
    let (h11, e11) = reject_if-ok _ _ _ e10 in
    let (h12, e12) = reject_if-ok _ _ _ e11 in
    subst IsSendable (ok-injective _ p e12) (record {
      host = h2;
      from = h4;
      to = h6;
      cc = h11;
      bcc = h12;
      subject = h8;
      content_type = h10;
      named = ne-empty h1;
      sender = ne-empty h3;
      addressed = h5;
      recipients = (
        extract_recipients-NonEmpty (input "to" inputs),
        extract_recipients-NonEmpty (input "cc" inputs),
        extract_recipients-NonEmpty (input "bcc" inputs),
      );
      retries = clamp_retries-le (extract_int fmt (input "maxRetries" inputs));
    })
