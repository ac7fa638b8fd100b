-- ===== src/Breaker/History.antt =====
-- pkg/circuitbreaker/circuitbreaker.go: the breaker against its history of calls.
use event_reactor.Base.{
  ℕ, suc, ◌+◌, ◌≤◌, ltb, Bool, true, false, not, ◌&&◌, List, [], ◌∷◌, if◌then◌else◌, ◌≡◌, ◌≢◌, refl,
  arith, length,
}
use event_reactor.Base.Int.{ℤ, pos, sub_ℕ, ltb_ℤ, leb_ℤ, max_int}
use event_reactor.Breaker.{
  closed, opened, half_open, Breaker, new, allows, is_opened, current_state, allow, record_success,
  record_failure, Call, success, failure, apply, run,
}

-- The number of failures since the last success, after `n` of them.
abbrev pub streak : ℕ → List Call → ℕ
streak n [] = n
streak n (success ∷ cs) = streak 0 cs
streak n (failure t ∷ cs) = streak (suc n) cs

-- The time of the last failure, if not `t`.
abbrev pub last_time : ℕ → List Call → ℕ
last_time t [] = t
last_time t (success ∷ cs) = last_time t cs
last_time t (failure u ∷ cs) = last_time u cs

-- A streak that has tripped the breaker.
abbrev pub is_tripped : ℤ → ℕ → Bool
is_tripped threshold n = ltb 0 n && leb_ℤ threshold (pos n)

-- The breaker after `n` consecutive failures, the last one at `t`.
pub record Tracks (threshold timeout : ℤ) (n t : ℕ) (b : Breaker) : Type 0 where
  pub counted : b.failures ≡ pos n
  pub tripped : b.state ≡ (if is_tripped threshold n then opened else closed)
  pub limit : b.threshold ≡ threshold
  pub reset : b.reset_timeout ≡ timeout
  pub timed : b.last_failure ≡ t

module _ (threshold timeout : ℤ) where
  record_success-Tracks :
      (n t : ℕ) (b : Breaker)
      → Tracks threshold timeout n t b
      → Tracks threshold timeout 0 t (record_success b)
  unfolding record_success
  record_success-Tracks n t b h = ground arith

  record_failure-Tracks :
      (n t u : ℕ) (b : Breaker)
      → n ≢ max_int
      → Tracks threshold timeout n t b
      → Tracks threshold timeout (suc n) u (record_failure u b)
  unfolding record_failure
  record_failure-Tracks n t u b small h = ground arith

  run-Tracks :
      (cs : List Call) (n t : ℕ) (b : Breaker)
      → n + length cs ≤ max_int
      → Tracks threshold timeout n t b
      → Tracks threshold timeout (streak n cs) (last_time t cs) (run cs b)
  unfolding run apply
  run-Tracks [] n t b small h = h
  run-Tracks (success ∷ cs) n t b small h =
      run-Tracks cs 0 t (record_success b) (omega arith) (record_success-Tracks n t b h)
  run-Tracks (failure u ∷ cs) n t b small h =
      run-Tracks cs (suc n) u (record_failure u b) (omega arith)
        (record_failure-Tracks n t u b (omega arith) h)

leb_ℤ-not : (a b : ℤ) → leb_ℤ a b ≡ not (ltb_ℤ b a)
leb_ℤ-not a b = ground arith

allow-Tracks :
    (threshold timeout : ℤ) (n t now : ℕ) (b : Breaker)
    → Tracks threshold timeout n t b
    → allow now b ≡ not (is_tripped threshold n && leb_ℤ (sub_ℕ now t) timeout)
unfolding allow current_state
allow-Tracks threshold timeout n t now b h =
    rw (h.tripped, h.reset, h.timed, leb_ℤ-not (sub_ℕ now t) timeout)
      (go (is_tripped threshold n) (ltb_ℤ timeout (sub_ℕ now t)))
  where
    go :
        (x y : Bool)
        → allows (
            if is_opened (if x then opened else closed) && y
            then half_open
            else (if x then opened else closed))
          ≡ not (x && not y)
    go true true = refl
    go true false = refl
    go false y = refl

-- After fewer calls than an `int` can count: a request is refused exactly while at least one and
-- at least `threshold` calls in a row have failed, and no more than the timeout has passed since
-- the last of them.
pub allow-run :
    (threshold timeout : ℤ) (cs : List Call) (now : ℕ)
    → length cs ≤ max_int
    → allow now (run cs (new threshold timeout))
      ≡ not (is_tripped threshold (streak 0 cs) && leb_ℤ (sub_ℕ now (last_time 0 cs)) timeout)
unfolding new
allow-run threshold timeout cs now small =
    allow-Tracks threshold timeout (streak 0 cs) (last_time 0 cs) now _
      (run-Tracks threshold timeout cs 0 0 (new threshold timeout) (omega arith) (ground arith))
