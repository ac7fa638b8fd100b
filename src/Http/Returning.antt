-- ===== src/Http/Returning.antt =====
-- pkg/api/api.go and pkg/listener/generic/generic.go: when `Start` returns, and with what.
use event_reactor.Base.{ap, true, Option, none, some, String, ◌≡◌, ◌⊎◌, inl, inr, refl, sym, subst}
use event_reactor.Http.{
  ListenEnd, closed, broken, Serving, fresh, sent, Step, listens, context_ends, shuts_down, fails,
  Reach, here, next,
}

-- Why `Start` has returned, if it has.
abbrev pub Reason : Serving → Option (Option String) → Type 0
Reason s none = Unit
Reason s (some r) = (s.done ≡ true) ⊎ ((e : String) × (s.listen ≡ some (broken e)) × (r ≡ some e))

pub record IsSound (s : Serving) : Type 0 where
  -- the goroutine finds room on the channel
  pub empty : s.listen ≡ none → s.channel ≡ none
  -- what is on the channel is the error of the call
  pub told : (e : String) → s.channel ≡ some e → s.listen ≡ some (broken e)
  pub reason : Reason s s.result

sent-told : (how : ListenEnd) (e : String) → sent how ≡ some e → how ≡ broken e
sent-told closed e h = cc
sent-told (broken x) e h = cc

Reason-keep :
    (s t : Serving) (r : Option (Option String))
    → (s.done ≡ true → t.done ≡ true)
    → ((e : String) → s.listen ≡ some (broken e) → t.listen ≡ some (broken e))
    → Reason s r
    → Reason t r
Reason-keep s t none d l h = tt
Reason-keep s t (some r) d l (inl h) = inl (d h)
Reason-keep s t (some r) d l (inr (e, h, same)) = inr (e, l e h, same)

pub Step-IsSound : {s t : Serving} → Step s t → IsSound s → IsSound t
Step-IsSound {s} (listens how q c x) h = subst IsSound (sym x) (record {
  empty = λ n. cc;
  told = λ e k. ap some (sent-told how e k);
  reason =
      Reason-keep s (record s { listen = some how; channel = sent how }) s.result (λ d. d)
        (λ e k. cc) h.reason;
})
Step-IsSound {s} (context_ends x) h = subst IsSound (sym x) (record {
  empty = h.empty;
  told = h.told;
  reason = Reason-keep s (record s { done = true }) s.result (λ d. refl) (λ e k. k) h.reason;
})
Step-IsSound {s} (shuts_down r q d x) h =
    subst IsSound (sym x) (record { empty = h.empty; told = h.told; reason = inl d })
Step-IsSound {s} (fails e q c x) h =
    subst IsSound (sym x)
      (record { empty = λ n. refl; told = λ y k. cc; reason = inr (e, h.told e c, refl) })

pub Reach-IsSound : {s t : Serving} → IsSound s → Reach s t → IsSound t
Reach-IsSound h here = h
Reach-IsSound h (next r st) = Step-IsSound st (Reach-IsSound h r)

abbrev pub CanReturn : Serving → Type 0
CanReturn s = (t : Serving) × (r : Option String) × Step s t × (t.result ≡ some r)

-- Whatever happens: `Start` returns only when the context has ended, or with the error with which
-- serving has ended; the goroutine that serves never waits for room on the channel; and while the
-- context has ended or such an error is on the channel, `Start` can return if it has not.
pub start_returns :
    (t : Serving)
    → Reach fresh t
    → Reason t t.result
      × (t.listen ≡ none → t.channel ≡ none)
      × (((t.done ≡ true) ⊎ ((e : String) × (t.channel ≡ some e))) → t.result ≡ none → CanReturn t)
start_returns t run =
    let h = Reach-IsSound (record { empty = λ n. refl; told = λ e k. cc; reason = tt }) run in
    (
      h.reason,
      h.empty,
      λ why q. elim why [
        | inl d ↦ (_, none, shuts_down none q d refl, refl)
        | inr (e, c) ↦ (_, some e, fails e q c refl, refl)
      ],
    )
