-- ===== src/Tests/Limits.antt =====
-- pkg/ratelimit/ratelimit.go on numbers that are counts of billionths.
use event_reactor.Base.{
  ℕ, ◌+◌, ◌-◌, ◌*◌, ◌/◌, ◌≤◌, min, leb, ltb, true, List, [], ◌∷◌, ◌≡◌, refl, arith,
}
use event_reactor.Base.Int.{ℤ, pos, negsuc}
use event_reactor.RateLimit.{Floats, new, after, allowed}
use event_reactor.RateLimit.Ieee.{Ieee}
use event_reactor.RateLimit.Burst.{allowed_bursts}

-- A negative number is read as 0.
abbrev billionths : ℤ → ℕ
billionths (pos n) = n * 1000000000
billionths (negsuc n) = 0

abbrev nanoseconds : ℤ → ℕ
nanoseconds (pos n) = n
nanoseconds (negsuc n) = 0

abbrev fixed : Floats
fixed = record {
  F = ℕ;
  of_int = billionths;
  add = λ x y. x + y;
  sub = λ x y. x - y;
  mul = λ x y. x * y / 1000000000;
  less = ltb;
  seconds = nanoseconds;
}

abbrev laws : Ieee fixed
laws = record {
  leq = leb;
  is_finite = λ x. true;
  nat_leq = λ m n h. ground arith;
  seconds_finite = λ d. refl;
  seconds_leq = λ d. ground arith;
  mul_leq = λ x y e f g h. ground arith;
  add_leq = λ x y g h. ground arith;
  add_nothing = λ x r n e h. ground arith;
  keep_all = λ x r n e h. ground arith;
  not_less = λ x y g h e. ground arith;
  within = λ x m n h e. ground arith;
  not_beyond = λ x m n h e. ground arith;
  less_one = λ x h. ground arith;
  not_less_one = λ x n h. ground arith;
  sub_leq = λ x n h e. ground arith;
  leq_sub = λ x n h e. ground arith;
  sub_nonneg = λ x h e. ground arith;
}

-- Two events per second and a burst of three, after calls at 1 and 2 seconds.
abbrev times : List ℕ
times = 2000000000 ∷ 1000000000 ∷ []

allowed_bursts_example :
    (allowed fixed 5 0 (new fixed 2000000000 (pos 3) 0) ≡ min 5 3)
    × (allowed fixed 5 2000000000 (after fixed times (new fixed 2000000000 (pos 3) 0)) ≤ 3)
allowed_bursts_example =
    allowed_bursts fixed laws 2000000000 3 0 2000000000 5 times refl refl (omega arith)
      (omega arith, (omega arith, tt)) (omega arith)
