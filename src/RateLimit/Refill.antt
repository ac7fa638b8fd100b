-- ===== src/RateLimit/Refill.antt =====
-- pkg/ratelimit/ratelimit.go: the tokens that a call finds and leaves.
use event_reactor.Base.{
  ℕ, zero, suc, ◌-◌, ◌≤◌, ◌^◌, true, false, if◌then◌else◌, ◌≡◌, ◌⊎◌, refl, arith, Bool-cases, inl,
  inr, leb, subst, sym, ap, ◌∙◌,
}
use event_reactor.Base.Int.{ℤ, pos, max_int}
use event_reactor.RateLimit.Ieee.{nat, Ieee}
use event_reactor.RateLimit.{Floats, sub_time, Limiter, refill, allow}

module _ (fl : Floats) (ie : Ieee fl) where
  -- A limiter of a finite rate, with a burst that is an exact number.
  pub record IsSound (b : ℕ) (l : Limiter fl) : Type 0 where
    pub finite : ie.is_finite l.rate ≡ true
    pub rated : ie.leq (nat fl 0) l.rate ≡ true
    pub burst : l.burst ≡ pos b
    pub low : ie.leq (nat fl 0) l.tokens ≡ true
    pub high : ie.leq l.tokens (nat fl b) ≡ true

  abbrev total : ℤ → Limiter fl → fl.F
  total elapsed l = fl.add l.tokens (fl.mul (fl.seconds elapsed) l.rate)

  abbrev capped : ℤ → fl.F → fl.F
  capped b t = if fl.less (fl.of_int b) t then fl.of_int b else t

  refill-eq :
      (b now : ℕ) (l : Limiter fl)
      → IsSound b l
      → refill fl now l ≡ capped (pos b) (total (sub_time now l.last_time) l)
  unfolding refill
  refill-eq b now l s = ap (λ k. capped k (total (sub_time now l.last_time) l)) s.burst

  sub_time-pos : (now last : ℕ) → last ≤ now → (d : ℕ) × (sub_time now last ≡ pos d)
  unfolding sub_time
  sub_time-pos now last h = elim (Bool-cases (leb (now - last) max_int)) [
    | inl small ↦ (now - last, ground arith)
    | inr big ↦ (max_int, ground arith)
  ]

  total-leq :
      (b now : ℕ) (l : Limiter fl)
      → IsSound b l
      → l.last_time ≤ now
      → ie.leq (nat fl 0) (total (sub_time now l.last_time) l) ≡ true
  total-leq b now l s h =
      let (d, e) = sub_time-pos now l.last_time h in
      subst (λ z. ie.leq (nat fl 0) (total z l) ≡ true) (sym e)
        (ie.add_leq l.tokens _ s.low (
          ie.mul_leq (fl.seconds (pos d)) l.rate (ie.seconds_finite d) s.finite (ie.seconds_leq d)
            s.rated))

  capped-bounds :
      (b : ℕ) (t : fl.F)
      → ie.leq (nat fl 0) t ≡ true
      → (ie.leq (nat fl 0) (capped (pos b) t) ≡ true)
        × (ie.leq (capped (pos b) t) (nat fl b) ≡ true)
  capped-bounds b t h = elim (Bool-cases (fl.less (nat fl b) t)) [
    | inl full ↦ rw full (ie.nat_leq 0 b (omega arith), ie.nat_leq b b (omega arith))
    | inr part ↦ rw part (h, ie.not_less t (nat fl b) h (ie.nat_leq 0 b (omega arith)) part)
  ]

  pub refill-bounds :
      (b now : ℕ) (l : Limiter fl)
      → IsSound b l
      → l.last_time ≤ now
      → (ie.leq (nat fl 0) (refill fl now l) ≡ true) × (ie.leq (refill fl now l) (nat fl b) ≡ true)
  refill-bounds b now l s h =
      rw (refill-eq b now l s)
        (capped-bounds b (total (sub_time now l.last_time) l) (total-leq b now l s h))

  sub_time-now : (now last : ℕ) → last ≡ now → sub_time now last ≡ pos 0
  unfolding sub_time
  sub_time-now now last e = ground arith

  -- A call at the time of the last one finds the tokens that there were.
  pub refill-now :
      (b k now : ℕ) (l : Limiter fl)
      → IsSound b l
      → l.last_time ≡ now
      → k ≤ b
      → ie.leq l.tokens (nat fl k) ≡ true
      → ie.leq (refill fl now l) (nat fl k) ≡ true
  refill-now b k now l s e h t =
      let still = sub_time-now now l.last_time e in
      let below = ie.add_nothing l.tokens l.rate k s.finite t in
      let same = refill-eq b now l s ∙ ap (λ z. capped (pos b) (total z l)) still in
      rw (same, ie.not_beyond (total (pos 0) l) k b h below) below

  -- What a call does, with the tokens that it finds.
  allow-refused :
      (now : ℕ) (l : Limiter fl)
      → fl.less (refill fl now l) (nat fl 1) ≡ true
      → allow fl now l ≡ (false, record l { tokens = refill fl now l; last_time = now })
  unfolding allow
  allow-refused now l e = rw e refl

  allow-passed :
      (now : ℕ) (l : Limiter fl)
      → fl.less (refill fl now l) (nat fl 1) ≡ false
      → allow fl now l
        ≡ (true, record l { tokens = fl.sub (refill fl now l) (nat fl 1); last_time = now })
  unfolding allow
  allow-passed now l e = rw e refl

  -- The states after a call.
  abbrev pub refused : ℕ → Limiter fl → Limiter fl
  refused now l = record l { tokens = refill fl now l; last_time = now }

  abbrev pub passed : ℕ → Limiter fl → Limiter fl
  passed now l = record l { tokens = fl.sub (refill fl now l) (nat fl 1); last_time = now }

  -- A call that finds at most `k` tokens is refused and leaves at most `k`, or it is allowed and
  -- leaves at most `k - 1`.
  abbrev pub Spends : ℕ → ℕ → ℕ → Limiter fl → Type 0
  Spends b k now l =
      ((allow fl now l ≡ (false, refused now l))
        × IsSound b (refused now l)
        × (ie.leq (refused now l).tokens (nat fl k) ≡ true))
      ⊎ ((j : ℕ) × (k ≡ suc j)
          × (allow fl now l ≡ (true, passed now l))
          × IsSound b (passed now l)
          × (ie.leq (passed now l).tokens (nat fl j) ≡ true))

  IsSound-passed :
      (b k now : ℕ) (l : Limiter fl)
      → b ≤ 2 ^ 53
      → IsSound b l
      → ie.leq (nat fl 0) (refill fl now l) ≡ true
      → k ≤ b
      → ie.leq (refill fl now l) (nat fl k) ≡ true
      → fl.less (refill fl now l) (nat fl 1) ≡ false
      → IsSound b (passed now l)
  IsSound-passed b zero now l exact s low small few left =
      absurd (ground (arith, ie.less_one (refill fl now l) few))
  IsSound-passed b (suc j) now l exact s low small few left = record {
    finite = s.finite;
    rated = s.rated;
    burst = s.burst;
    low = ie.sub_nonneg (refill fl now l) low left;
    high =
        ie.within (fl.sub (refill fl now l) (nat fl 1)) j b (omega arith)
          (ie.sub_leq (refill fl now l) j (omega arith) few);
  }

  spent :
      (b k now : ℕ) (l : Limiter fl)
      → b ≤ 2 ^ 53
      → IsSound b l
      → ie.leq (nat fl 0) (refill fl now l) ≡ true
      → k ≤ b
      → ie.leq (refill fl now l) (nat fl k) ≡ true
      → fl.less (refill fl now l) (nat fl 1) ≡ false
      → Spends b k now l
  spent b zero now l exact s low small few left =
      absurd (ground (arith, ie.less_one (refill fl now l) few))
  spent b (suc j) now l exact s low small few left =
      let fewer = ie.sub_leq (refill fl now l) j (omega arith) few in
      inr (
        j,
        refl,
        allow-passed now l left,
        IsSound-passed b (suc j) now l exact s low small few left,
        fewer,
      )

  pub allow-Spends :
      (b k now : ℕ) (l : Limiter fl)
      → b ≤ 2 ^ 53
      → IsSound b l
      → l.last_time ≤ now
      → k ≤ b
      → ie.leq (refill fl now l) (nat fl k) ≡ true
      → Spends b k now l
  allow-Spends b k now l exact s h small few =
      let (low, high) = refill-bounds b now l s h in
      elim (Bool-cases (fl.less (refill fl now l) (nat fl 1))) [
        | inl none_left ↦ inl (
          allow-refused now l none_left,
          record { finite = s.finite; rated = s.rated; burst = s.burst; low = low; high = high },
          few,
        )
        | inr some_left ↦ spent b k now l exact s low small few some_left
      ]

  pub refill-enough :
      (b k now : ℕ) (l : Limiter fl)
      → IsSound b l
      → l.last_time ≡ now
      → k ≤ b
      → ie.leq (nat fl k) l.tokens ≡ true
      → ie.leq (nat fl k) (refill fl now l) ≡ true
  refill-enough b k now l s e h many =
      let still = sub_time-now now l.last_time e in
      let same = refill-eq b now l s ∙ ap (λ z. capped (pos b) (total z l)) still in
      elim (Bool-cases (fl.less (nat fl b) (total (pos 0) l))) [
        | inl full ↦ rw (same, full) (ie.nat_leq k b h)
        | inr part ↦ rw (same, part) (ie.keep_all l.tokens l.rate k s.finite many)
      ]

  -- A call that finds a token takes it.
  pub allow-takes :
      (b j now : ℕ) (l : Limiter fl)
      → b ≤ 2 ^ 53
      → IsSound b l
      → l.last_time ≤ now
      → suc j ≤ b
      → ie.leq (nat fl (suc j)) (refill fl now l) ≡ true
      → (allow fl now l ≡ (true, passed now l))
        × IsSound b (passed now l)
        × (ie.leq (nat fl j) (passed now l).tokens ≡ true)
  allow-takes b j now l exact s h small many =
      let left = ie.not_less_one (refill fl now l) j many in
      let (low, high) = refill-bounds b now l s h in
      (
        allow-passed now l left,
        IsSound-passed b b now l exact s low (omega arith) high left,
        ie.leq_sub (refill fl now l) j (omega arith) many,
      )
