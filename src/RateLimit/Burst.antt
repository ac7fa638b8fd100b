-- ===== src/RateLimit/Burst.antt =====
-- pkg/ratelimit/ratelimit.go: how many calls at one time are allowed.
use event_reactor.Base.{
  ℕ, zero, suc, ◌≤◌, ◌^◌, min, true, List, [], ◌∷◌, ◌≡◌, refl, arith, inl, inr,
}
use event_reactor.Base.Int.{pos}
use event_reactor.RateLimit.{Floats, Limiter, new, allow, after, allowed}
use event_reactor.RateLimit.Ieee.{nat, Ieee}
use event_reactor.RateLimit.Refill.{
  IsSound, refused, passed, allow-Spends, refill-bounds, refill-now, refill-enough, allow-takes,
}

-- The latest time of some calls.
abbrev pub latest : ℕ → List ℕ → ℕ
latest start [] = start
latest start (t ∷ ts) = t

-- The times of calls, the latest first, do not go back.
abbrev pub Ordered : ℕ → List ℕ → Type 0
Ordered start [] = Unit
Ordered start (t ∷ ts) = (latest start ts ≤ t) × Ordered start ts

module _ (fl : Floats) (ie : Ieee fl) where
  -- Calls at the time of the last one.
  allowed-now :
      (n b k now : ℕ) (l : Limiter fl)
      → b ≤ 2 ^ 53
      → IsSound fl ie b l
      → l.last_time ≡ now
      → k ≤ b
      → ie.leq l.tokens (nat fl k) ≡ true
      → allowed fl n now l ≤ k
  unfolding allowed
  allowed-now zero b k now l exact s e h few = omega arith
  allowed-now (suc n) b k now l exact s e h few =
      elim (allow-Spends fl ie b k now l exact s (omega (arith, e)) h
        (refill-now fl ie b k now l s e h few)) [
          | inl (done, sound, fewer) ↦
              rw done (allowed-now n b k now (refused fl ie now l) exact sound refl h fewer)
          | inr (j, same, done, sound, fewer) ↦
              let ih =
                allowed-now n b j now (passed fl ie now l) exact sound refl (omega arith) fewer in
              rw done (omega arith)
        ]

  allowed-later :
      (n b now : ℕ) (l : Limiter fl)
      → b ≤ 2 ^ 53
      → IsSound fl ie b l
      → l.last_time ≤ now
      → allowed fl n now l ≤ b
  unfolding allowed
  allowed-later zero b now l exact s e = omega arith
  allowed-later (suc n) b now l exact s e =
      elim (allow-Spends fl ie b b now l exact s e (omega arith)
        (refill-bounds fl ie b now l s e).1) [
          | inl (done, sound, fewer) ↦
              rw done
                (allowed-now n b b now (refused fl ie now l) exact sound refl (omega arith) fewer)
          | inr (j, same, done, sound, fewer) ↦
              let ih =
                allowed-now n b j now (passed fl ie now l) exact sound refl (omega arith) fewer in
              rw done (omega arith)
        ]

  new-IsSound :
      (rate : fl.F) (b start : ℕ)
      → ie.is_finite rate ≡ true
      → ie.leq (nat fl 0) rate ≡ true
      → IsSound fl ie b (new fl rate (pos b) start)
  unfolding new
  new-IsSound rate b start f r = record {
    finite = f;
    rated = r;
    burst = refl;
    low = ie.nat_leq 0 b (omega arith);
    high = ie.nat_leq b b (omega arith);
  }

  after-IsSound :
      (b start : ℕ) (times : List ℕ) (l : Limiter fl)
      → b ≤ 2 ^ 53
      → IsSound fl ie b l
      → l.last_time ≡ start
      → Ordered start times
      → IsSound fl ie b (after fl times l) × ((after fl times l).last_time ≡ latest start times)
  unfolding after
  after-IsSound b start [] l exact s e o = (s, e)
  after-IsSound b start (t ∷ ts) l exact s e (o, os) =
      let (sound, last) = after-IsSound b start ts l exact s e os in
      let l' = after fl ts l in
      elim (allow-Spends fl ie b b t l' exact sound (omega (arith, last, o)) (omega arith)
        (refill-bounds fl ie b t l' sound (omega (arith, last, o))).1) [
          | inl (done, kept, fewer) ↦ rw (done, after) (kept, refl)
          | inr (j, same, done, kept, fewer) ↦ rw (done, after) (kept, refl)
        ]

  allowed_most : (n now : ℕ) (l : Limiter fl) → allowed fl n now l ≤ n
  unfolding allowed
  allowed_most zero now l = omega arith
  allowed_most (suc n) now l = ground (arith, allowed_most n now (allow fl now l).1)

  -- Calls at the time of the last one, where there are tokens.
  allowed-enough :
      (n b k now : ℕ) (l : Limiter fl)
      → b ≤ 2 ^ 53
      → IsSound fl ie b l
      → l.last_time ≡ now
      → k ≤ b
      → ie.leq (nat fl k) l.tokens ≡ true
      → min n k ≤ allowed fl n now l
  unfolding allowed
  allowed-enough zero b k now l exact s e h many = omega arith
  allowed-enough (suc n) b zero now l exact s e h many = omega arith
  allowed-enough (suc n) b (suc j) now l exact s e h many =
      let found = refill-enough fl ie b (suc j) now l s e h many in
      let (done, sound, left) = allow-takes fl ie b j now l exact s (omega (arith, e)) h found in
      let ih = allowed-enough n b j now (passed fl ie now l) exact sound refl (omega arith) left in
      rw done (omega arith)

  -- Where float64 follows the laws of `Ieee`, for a limiter of a finite rate that is not negative and a
  -- burst of at most 2 ^ 53, with times that do not go back: of the calls at the time when it is made,
  -- the first `burst` are allowed and no other, and of the calls at any one time, whatever calls came
  -- before, at most `burst` are.
  pub allowed_bursts :
      (rate : fl.F) (b start now n : ℕ) (times : List ℕ)
      → ie.is_finite rate ≡ true
      → ie.leq (nat fl 0) rate ≡ true
      → b ≤ 2 ^ 53
      → Ordered start times
      → latest start times ≤ now
      → (allowed fl n start (new fl rate (pos b) start) ≡ min n b)
        × (allowed fl n now (after fl times (new fl rate (pos b) start)) ≤ b)
  unfolding new
  allowed_bursts rate b start now n times f r exact o h =
      let s = new-IsSound rate b start f r in
      let l = new fl rate (pos b) start in
      let (sound, last) = after-IsSound b start times l exact s refl o in
      let most = allowed-now n b b start l exact s refl (omega arith) s.high in
      let least = allowed-enough n b b start l exact s refl (omega arith) s.high in
      (
        omega (arith, allowed_most n start l),
        allowed-later n b now (after fl times l) exact sound (omega arith),
      )
