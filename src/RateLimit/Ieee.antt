-- ===== src/RateLimit/Ieee.antt =====
-- pkg/ratelimit/ratelimit.go: what IEEE 754 says of the operations on float64 that are used.
use event_reactor.Base.{ℕ, suc, ◌≤◌, ◌^◌, Bool, true, false, ◌≡◌}
use event_reactor.Base.Int.{pos}
use event_reactor.RateLimit.{Floats}

module _ (fl : Floats) where
  abbrev pub nat : ℕ → fl.F
  nat n = fl.of_int (pos n)

  -- What IEEE 754 says of comparisons and of rounded sums, differences and products; `leq` is `<=`,
  -- which like `<` is false of a number that is not a number.
  pub record Ieee : Type 0 where
    pub leq : fl.F → fl.F → Bool
    pub is_finite : fl.F → Bool
    pub nat_leq : (m n : ℕ) → m ≤ n → leq (nat m) (nat n) ≡ true
    pub seconds_finite : (d : ℕ) → is_finite (fl.seconds (pos d)) ≡ true
    pub seconds_leq : (d : ℕ) → leq (nat 0) (fl.seconds (pos d)) ≡ true
    pub mul_leq :
        (x y : fl.F)
        → is_finite x ≡ true
        → is_finite y ≡ true
        → leq (nat 0) x ≡ true
        → leq (nat 0) y ≡ true
        → leq (nat 0) (fl.mul x y) ≡ true
    pub add_leq :
        (x y : fl.F) → leq (nat 0) x ≡ true → leq (nat 0) y ≡ true → leq (nat 0) (fl.add x y) ≡ true
    -- no time adds no token
    pub add_nothing :
        (x r : fl.F) (n : ℕ)
        → is_finite r ≡ true
        → leq x (nat n) ≡ true
        → leq (fl.add x (fl.mul (fl.seconds (pos 0)) r)) (nat n) ≡ true
    pub keep_all :
        (x r : fl.F) (n : ℕ)
        → is_finite r ≡ true
        → leq (nat n) x ≡ true
        → leq (nat n) (fl.add x (fl.mul (fl.seconds (pos 0)) r)) ≡ true
    pub not_less :
        (x y : fl.F)
        → leq (nat 0) x ≡ true
        → leq (nat 0) y ≡ true
        → fl.less y x ≡ false
        → leq x y ≡ true
    pub within : (x : fl.F) (m n : ℕ) → m ≤ n → leq x (nat m) ≡ true → leq x (nat n) ≡ true
    pub not_beyond : (x : fl.F) (m n : ℕ) → m ≤ n → leq x (nat m) ≡ true → fl.less (nat n) x ≡ false
    pub less_one : (x : fl.F) → leq x (nat 0) ≡ true → fl.less x (nat 1) ≡ true
    pub not_less_one : (x : fl.F) (n : ℕ) → leq (nat (suc n)) x ≡ true → fl.less x (nat 1) ≡ false
    -- up to 2 ^ 53 the integers are exact
    pub sub_leq :
        (x : fl.F) (n : ℕ)
        → suc n ≤ 2 ^ 53
        → leq x (nat (suc n)) ≡ true
        → leq (fl.sub x (nat 1)) (nat n) ≡ true
    pub leq_sub :
        (x : fl.F) (n : ℕ)
        → suc n ≤ 2 ^ 53
        → leq (nat (suc n)) x ≡ true
        → leq (nat n) (fl.sub x (nat 1)) ≡ true
    pub sub_nonneg :
        (x : fl.F)
        → leq (nat 0) x ≡ true
        → fl.less x (nat 1) ≡ false
        → leq (nat 0) (fl.sub x (nat 1)) ≡ true
