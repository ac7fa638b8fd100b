-- ===== src/Smtp/Retry.antt =====
-- pkg/reactor/providers/providers.go: the retries of `sendMail`, and which errors are retried.
-- The result of each `trySend` and whether the context ends during a wait are functions of the number
-- of the attempt, from 0 on. Durations are in nanoseconds; the timers that are made are recorded.
use event_reactor.Base.{
  ℕ, zero, suc, ◌-◌, ◌*◌, ◌^◌, eqb, ltb, Bool, true, false, Option, none, some, ◌++◌, List, [], ◌∷◌,
  if◌then◌else◌,
}
use event_reactor.Base.Text.{contains}
use event_reactor.Smtp.{SmtpParams}
use event_reactor.Smtp.Session.{GoError, wrap}

unfoldable pub is_transient : GoError → Bool
is_transient e =
    if contains e.text "authenticating"
    then false
    else if contains e.text "dialing SMTP server"
    then true
    else if contains e.text "starting TLS"
    then true
    else e.is_net

abbrev pub retry_base : ℕ
retry_base = 1000000000

abbrev pub retry_max_wait : ℕ
retry_max_wait = 30000000000

-- The wait before an attempt other than the first, as an `int` product.
unfoldable pub delay : ℕ → ℕ
delay attempt =
    let exp = if ltb 30 (attempt - 1) then 30 else attempt - 1 in
    let d = retry_base * 2 ^ exp in if ltb retry_max_wait d then retry_max_wait else d

pub record Sent : Type 0 where
  pub attempts : ℕ
  pub error : Option GoError
  pub waits : List ℕ

abbrev pub stopped : ℕ → List ℕ → Option GoError → Sent
stopped attempts waits error = record { attempts = attempts; error = error; waits = waits }

-- The timers, with the one that is made before an attempt other than the first.
abbrev pub before : ℕ → List ℕ → List ℕ
before attempt waits = if eqb attempt 0 then waits else waits ++ (delay attempt ∷ [])

-- The `select` before an attempt other than the first: the error of a context that has ended.
unfoldable pub interrupted : (ℕ → Option GoError) → ℕ → Option GoError
interrupted cancelled attempt = if eqb attempt 0 then none else elim (cancelled attempt) [
  | none ↦ none
  | some e ↦ some (wrap "context cancelled during retry" e)
]

module _ (send : ℕ → Option GoError) (cancelled : ℕ → Option GoError) where
  -- The loop, with the number of attempts that may still be made.
  unfoldable pub send_from : ℕ → ℕ → List ℕ → Option GoError → Sent
  send_from zero attempt waits last = stopped attempt waits last
  send_from (suc left) attempt waits last = elim (interrupted cancelled attempt) [
    | some e ↦ stopped (suc attempt) (before attempt waits) (some e)
    | none ↦ elim (send attempt) [
      | none ↦ stopped (suc attempt) (before attempt waits) none
      | some e ↦
          let more = send_from left (suc attempt) (before attempt waits) (some e) in
          if is_transient e then more else stopped (suc attempt) (before attempt waits) (some e)
    ]
  ]

  unfoldable pub send_mail : SmtpParams → Sent
  send_mail p = send_from (suc p.max_retries) 0 [] none
