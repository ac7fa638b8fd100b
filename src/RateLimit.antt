-- ===== src/RateLimit.antt =====
-- pkg/ratelimit/ratelimit.go: the token bucket. Times are in nanoseconds; float64 is the record
-- `Floats`. The mutex is held for all of `Allow`, so a history is a list of calls.
pub mod Ieee
pub mod Refill
pub mod Burst
use event_reactor.Base.{ℕ, zero, suc, leb, ◌+◌, Bool, true, false, List, [], ◌∷◌, if◌then◌else◌}
use event_reactor.Base.Int.{ℤ, pos, negsuc, sub_ℕ, max_int}

-- The operations of float64 that are used, and Duration.Seconds.
pub record Floats : Type 1 where
  pub F : Type 0
  pub of_int : ℤ → F
  pub add : F → F → F
  pub sub : F → F → F
  pub mul : F → F → F
  pub less : F → F → Bool
  pub seconds : ℤ → F

-- `t.Sub(u)` stops at the largest and the smallest duration.
abbrev pub saturate : ℤ → ℤ
saturate (pos n) = if leb n max_int then pos n else pos max_int
saturate (negsuc n) = if leb n max_int then negsuc n else negsuc max_int

unfoldable pub sub_time : ℕ → ℕ → ℤ
sub_time t u = saturate (sub_ℕ t u)

module _ (fl : Floats) where
  pub record Limiter : Type 0 where
    pub rate : fl.F
    pub burst : ℤ
    pub tokens : fl.F
    pub last_time : ℕ

  unfoldable pub new : fl.F → ℤ → ℕ → Limiter
  new rate burst now = record {
    rate = rate;
    burst = burst;
    tokens = fl.of_int burst;
    last_time = now;
  }

  -- The tokens at a time, at most `burst`.
  unfoldable pub refill : ℕ → Limiter → fl.F
  refill now l =
      let elapsed = fl.seconds (sub_time now l.last_time) in
      let tokens = fl.add l.tokens (fl.mul elapsed l.rate) in
      if fl.less (fl.of_int l.burst) tokens then fl.of_int l.burst else tokens

  unfoldable pub allow : ℕ → Limiter → Bool × Limiter
  allow now l =
      let tokens = refill now l in
      if fl.less tokens (fl.of_int (pos 1))
      then (false, record l { tokens = tokens; last_time = now })
      else (true, record l { tokens = fl.sub tokens (fl.of_int (pos 1)); last_time = now })

  -- The limiter after calls at some times, the latest first.
  unfoldable pub after : List ℕ → Limiter → Limiter
  after [] l = l
  after (now ∷ earlier) l = (allow now (after earlier l)).1

  -- How many of some calls at one time are allowed.
  unfoldable pub allowed : (calls : ℕ) → ℕ → Limiter → ℕ
  allowed zero now l = 0
  allowed (suc n) now l =
      let rest = allowed n now (allow now l).1 in if (allow now l).0 then rest + 1 else rest
