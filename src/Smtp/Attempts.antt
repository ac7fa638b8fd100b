-- ===== src/Smtp/Attempts.antt =====
-- pkg/reactor/providers/providers.go: how often `sendMail` tries, and when it stops.
use event_reactor.Base.{ℕ, suc, ◌+◌, ◌≤◌, ◌<◌, Bool, true, false, Option, none, some, ◌≡◌, ◌≢◌, ◌⊎◌}
use event_reactor.Smtp.Session.{GoError}
use event_reactor.Smtp.Retry.{is_transient, Sent}

module _ (send : ℕ → Option GoError) (cancelled : ℕ → Option GoError) where
  -- The attempt failed in a way that is worth another one, or in a way that is not.
  abbrev pub Fails : Bool → ℕ → Type 0
  Fails transient i = (e : GoError) × (send i ≡ some e) × (is_transient e ≡ transient)

  -- The context ended while the attempt was waited for.
  abbrev pub IsCancelled : ℕ → Type 0
  IsCancelled i = (e : GoError) × (cancelled i ≡ some e)

  -- What a run of the loop from an attempt on, with at most `left` of them, reports.
  pub record Reports (left attempt : ℕ) (r : Sent) : Type 0 where
    pub low : attempt ≤ r.attempts
    pub tried : left ≢ 0 → attempt < r.attempts
    pub high : r.attempts ≤ attempt + left
    -- every attempt but the last failed with a transient error
    pub retried : (i : ℕ) → attempt ≤ i → i + 1 < r.attempts → Fails true i
    -- no error is reported only if the last attempt had none
    pub won : r.error ≡ none → (i : ℕ) × (r.attempts ≡ suc i) × (send i ≡ none)
    -- attempts are left only after a success, after an error that is not transient, or after the
    -- end of the context
    pub early :
        (i : ℕ)
        → r.attempts ≡ suc i
        → r.attempts < attempt + left
        → (send i ≡ none) ⊎ Fails false i ⊎ IsCancelled i
