-- ===== src/Smtp/Execute.antt =====
-- pkg/reactor/providers/providers.go: `Execute` of the SMTP provider.
-- `deliver` is what `sendMail` does with the parameters: the attempts that it made, and its error.
use event_reactor.Base.{eqb, Option, none, some, String, if◌then◌else◌}
use Prim.Native.Char.{code}
use event_reactor.Base.Int.{pos}
use event_reactor.Base.Dict.{Dict, is_empty}
use event_reactor.Base.Result.{ok, err}
use event_reactor.Base.Text.{◌<>◌}
use event_reactor.Base.Value.{Value, str, int, strings, object, end, field}
use event_reactor.Reactor.{Context, auth_header, ReactorResult}
use event_reactor.Smtp.{Formats, SmtpParams, parse_smtp_input}
use event_reactor.Smtp.Session.{GoError}
use event_reactor.Smtp.Retry.{Sent}

-- What follows the first space, where there is one: strings.SplitN(s, " ", 2).
unfoldable pub after_space : String → Option String
after_space String.[] = none
after_space (String.◌∷◌ c s) =
    let rest = after_space s in if eqb (code c) b' ' then some s else rest

-- The credential of a header: what follows its scheme, or all of it.
unfoldable pub credential : String → String
credential header = elim (after_space header) [ none ↦ header | some rest ↦ rest ]

-- The password of the parameters, or the credential of the context where they have none.
unfoldable pub with_password : Context → SmtpParams → SmtpParams
with_password ctx p =
    if is_empty p.password
    then elim (auth_header ctx) [
      | none ↦ p
      | some header ↦ record p { password = credential header }
    ]
    else p

abbrev pub output : SmtpParams → Sent → Value
output p sent = object (
    field "to" (strings p.to)
      (field "subject" (str p.subject) (field "attempts" (int (pos sent.attempts)) end)))

abbrev pub sent_result : Value → ReactorResult
sent_result out = record { provider = "smtp"; reactor_name = ""; output = out; error = none }

abbrev pub report : Option GoError → Option String
report none = none
report (some e) = some ("smtp provider: " <> e.text)

unfoldable pub execute :
    Formats → (SmtpParams → Sent) → Context → Dict Value → Option ReactorResult × Option String
execute fmt deliver ctx inputs = elim (parse_smtp_input fmt inputs) [
  | err e ↦ (none, some ("smtp provider: " <> e))
  | ok parsed ↦
      let p = with_password ctx parsed in
      let sent = deliver p in (some (sent_result (output p sent)), report sent.error)
]
