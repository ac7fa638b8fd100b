-- ===== src/Tests/Mails.antt =====
-- pkg/reactor/providers/providers.go and pkg/circuitbreaker/circuitbreaker.go on one mail and a
-- short history.
use event_reactor.Base.{
  ℕ, true, false, not, ◌&&◌, Option, none, some, List, [], ◌∷◌, ◌++◌, if◌then◌else◌, ◌≡◌, refl, ◌⊎◌,
  arith, eqb,
}
use event_reactor.Base.Int.{pos, sub_ℕ, leb_ℤ}
use event_reactor.Base.Dict.{Dict, lookup}
use event_reactor.Base.Result.{ok, err}
use event_reactor.Base.Text.{has_crlf}
use event_reactor.Base.Value.{Value, str, int}
use event_reactor.Smtp.{
  Formats, SmtpParams, parse_smtp_input, extract_recipients, non_empty, extract_port, extract_int,
  clamp_retries, start_tls_flag,
}
use event_reactor.Smtp.Bounds.{IsSendable, parse_smtp_input-IsSendable}
use event_reactor.Smtp.Session.{GoError, Command, dial, close, try_send}
use event_reactor.Smtp.Mail.{header_lines, build_message}
use event_reactor.Smtp.Reading.{read_mail, read_mail-build_message}
use event_reactor.Auth.{Token}
use event_reactor.Smtp.Transcript.{script, try_send-script}
use event_reactor.Breaker.{new, allow, run, success, failure}
use event_reactor.Breaker.History.{streak, last_time, is_tripped, allow-run}

abbrev pub formats : Formats
formats = record { show_int = λ n. "25"; wild = λ f. pos 0 }

abbrev inputs : Dict Value
inputs =
    ("host", str "mail.test")
    ∷ ("from", str "a@test")
    ∷ ("to", str "b@test")
    ∷ ("subject", str "Hi")
    ∷ ("body", str "Hello")
    ∷ ("maxRetries", int (pos 2))
    ∷ []

abbrev params : SmtpParams
params = record {
  host = "mail.test";
  port = "587";
  from = "a@test";
  to = "b@test" ∷ [];
  cc = [];
  bcc = [];
  subject = "Hi";
  body = "Hello";
  content_type = "text/plain";
  username = "";
  password = "";
  start_tls = false;
  max_retries = 2;
}

parsed : parse_smtp_input formats inputs ≡ ok params
unfolding parse_smtp_input lookup has_crlf extract_recipients non_empty extract_port extract_int
    clamp_retries start_tls_flag
parsed = refl

parse_smtp_input-IsSendable_example : IsSendable params
parse_smtp_input-IsSendable_example = parse_smtp_input-IsSendable formats inputs params parsed

read_mail-build_message_example :
    read_mail 9 (build_message "today" "9" params) ≡ (header_lines "today" "9" params, "Hello")
unfolding has_crlf
read_mail-build_message_example =
    read_mail-build_message formats inputs params "today" "9" parsed refl refl

-- A context with the header of a token, and parameters with no password.
abbrev token : Token
token = record { value = "abc"; type = "Bearer" }

-- The first attempt fails while dialing, the second one succeeds.
abbrev attempt : ℕ → Option GoError
attempt i =
    if eqb i 0 then some (record { text = "dialing SMTP server: refused"; is_net = true }) else none

-- A server that accepts every command.
abbrev accepts : List Command → Command → Option GoError
accepts log c = none

try_send-script_example :
    (sent rest : List Command) × (sent ++ rest ≡ script params "text")
    × ((try_send accepts true params "text" []).1 ≡ dial "mail.test" "587" ∷ (sent ++ (close ∷ [])))
    × ((rest ≡ []) ⊎ ((e : GoError) × ((try_send accepts true params "text" []).0 ≡ err e)))
try_send-script_example = try_send-script accepts params "text" refl

allow-run_example :
    allow 20 (run (success ∷ failure 3 ∷ failure 9 ∷ []) (new (pos 2) (pos 60)))
    ≡ not (
        is_tripped (pos 2) (streak 0 (success ∷ failure 3 ∷ failure 9 ∷ []))
        && leb_ℤ (sub_ℕ 20 (last_time 0 (success ∷ failure 3 ∷ failure 9 ∷ []))) (pos 60))
allow-run_example =
    allow-run (pos 2) (pos 60) (success ∷ failure 3 ∷ failure 9 ∷ []) 20 (omega arith)
