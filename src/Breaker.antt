-- ===== src/Breaker.antt =====
-- pkg/circuitbreaker/circuitbreaker.go: the circuit breaker. Every method runs under the mutex, so a
-- history is a sequence of calls. A time is in nanoseconds, read from a clock that does not go back;
-- a duration is an `int`.
pub mod History
use event_reactor.Base.{ℕ, Bool, true, false, ◌&&◌, List, [], ◌∷◌, if◌then◌else◌}
use event_reactor.Base.Int.{ℤ, pos, sub_ℕ, ltb_ℤ, leb_ℤ, inc}

pub data State : Type 0 where
  closed opened half_open : State

pub record Breaker : Type 0 where
  pub state : State
  pub failures : ℤ
  pub threshold : ℤ
  pub reset_timeout : ℤ
  pub last_failure : ℕ

unfoldable pub new : ℤ → ℤ → Breaker
new threshold reset_timeout = record {
  state = closed;
  failures = pos 0;
  threshold = threshold;
  reset_timeout = reset_timeout;
  last_failure = 0;
}

abbrev pub is_opened : State → Bool
is_opened opened = true
is_opened _ = false

unfoldable pub current_state : ℕ → Breaker → State
current_state now b =
    if is_opened b.state && ltb_ℤ b.reset_timeout (sub_ℕ now b.last_failure)
    then half_open
    else b.state

-- The `switch` of `Allow`.
abbrev pub allows : State → Bool
allows closed = true
allows half_open = true
allows opened = false

unfoldable pub allow : ℕ → Breaker → Bool
allow now b = allows (current_state now b)

unfoldable pub record_success : Breaker → Breaker
record_success b = record b { failures = pos 0; state = closed }

unfoldable pub record_failure : ℕ → Breaker → Breaker
record_failure now b =
    let n = inc b.failures in
    record b {
      failures = n;
      last_failure = now;
      state = if leb_ℤ b.threshold n then opened else b.state;
    }

-- A call that changes the breaker.
pub data Call : Type 0 where
  success : Call
  failure : ℕ → Call

unfoldable pub apply : Call → Breaker → Breaker
apply success b = record_success b
apply (failure now) b = record_failure now b

unfoldable pub run : List Call → Breaker → Breaker
run [] b = b
run (c ∷ cs) b = run cs (apply c b)
