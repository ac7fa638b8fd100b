-- ===== src/Smtp/Password.antt =====
-- pkg/reactor/providers/providers.go: the SMTP provider as the adapter uses it.
use text.Mathlib.TextLemmas.{nil-append, cons-append}
use event_reactor.Base.{none, some, String, ◌≡◌, refl, arith, Bool-cases, inl, inr}
use event_reactor.Base.Dict.{is_empty}
use event_reactor.Base.Result.{Result-cases}
use event_reactor.Base.Text.{◌<>◌}
use event_reactor.Auth.{Token, header}
use event_reactor.Reactor.{Context, Provider, with_auth_header}
use event_reactor.Adapter.Outcome.{GivesResult, auth_header-with}
use event_reactor.Smtp.{Formats, SmtpParams, parse_smtp_input}
use event_reactor.Smtp.Retry.{Sent}
use event_reactor.Smtp.Execute.{after_space, credential, with_password, execute}

after_space-append : (t v : String) → after_space t ≡ none → after_space (t <> " " <> v) ≡ some v
unfolding after_space
after_space-append String.[] v h = rw (nil-append, cons-append, nil-append) refl
after_space-append (String.◌∷◌ c s) v h =
    rw (cons-append, cons-append) (ground (arith, after_space-append s v))

bearer_plain : after_space "Bearer" ≡ none
unfolding after_space
bearer_plain = refl

credential_of : (s v : String) → after_space s ≡ some v → credential s ≡ v
unfolding credential
credential_of s v h = rw (h, credential) refl

credential-header :
    (tok : Token) → after_space tok.type ≡ none → credential (header tok) ≡ tok.value
unfolding header
credential-header tok h = elim (Bool-cases (is_empty tok.type)) [
  | inl bare ↦
      rw (bare, header)
        (credential_of ("Bearer " <> tok.value) tok.value
          (after_space-append "Bearer" tok.value bearer_plain))
  | inr typed ↦
      rw (typed, header) (credential_of _ tok.value (after_space-append tok.type tok.value h))
]

-- Parameters with no password of their own get the value of a token whose type has no space, where
-- the context carries the token's header, and nothing else of them changes.
pub with_password-header :
    (ctx : Context) (p : SmtpParams) (tok : Token)
    → p.password ≡ ""
    → after_space tok.type ≡ none
    → with_password (with_auth_header ctx (header tok)) p ≡ record p { password = tok.value }
unfolding with_password
with_password-header ctx p tok none_own plain =
    rw (none_own, with_password, auth_header-with ctx tok, credential-header tok plain) refl

abbrev pub smtp : Formats → (SmtpParams → Sent) → Provider
smtp fmt deliver = record {
  name = "smtp";
  execute = λ ctx inputs event. execute fmt deliver ctx inputs;
}

-- Whatever the mail server does, `Execute` gives a result whenever it gives no error.
pub execute-GivesResult :
    (fmt : Formats) (deliver : SmtpParams → Sent) → GivesResult (smtp fmt deliver)
unfolding execute
execute-GivesResult fmt deliver ctx inputs event quiet =
    elim (Result-cases (parse_smtp_input fmt inputs)) [
      | inl (p, e) ↦ rw (e, execute) (λ h. cc)
      | inr (x, e) ↦ absurd (ground arith)
    ]
