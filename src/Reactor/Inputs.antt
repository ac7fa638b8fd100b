-- ===== src/Reactor/Inputs.antt =====
-- pkg/reactor/reactor.go: the loop of `ResolveInputs` over the inputs of a reactor.
use event_reactor.Base.{
  Option, none, some, [], ◌∷◌, String, ◌≡◌, refl, ◌↔◌, ◌∙◌, ap, sym, arith, eq_iff, inl, inr,
}
use event_reactor.Base.Dict.{
  Dict, lookup, insert, lookup-insert, lookup-nil, Entries, NodupKeys, Entries-lookup,
  Entries-of_lookup,
}
use event_reactor.Base.Result.{Result, ok, err, value?, Result-cases}
use event_reactor.Base.Value.{Value}
use event_reactor.Message.{Event}
use event_reactor.Config.{ReactorConfig}
use event_reactor.Config.Input.{InputValue}
use event_reactor.Reactor.{
  Platform, Cache, ResolveError, resolving_input, resolve_input, resolve_entries, resolve_inputs,
}
use event_reactor.Reactor.Resolution.{IsFaithfulCache, fetch, source_of, resolve_input-eq-fetch}

module _ (pf : Platform) where
  -- The value of an input, by the source that decides.
  abbrev pub input_value : Event → InputValue → Result ResolveError Value
  input_value event iv = fetch pf (source_of iv) event

  -- The loop with no cache.
  resolve_anew : String → Dict InputValue → Event → Dict Value → Result ResolveError (Dict Value)
  resolve_anew name [] event resolved = ok resolved
  resolve_anew name ((key, iv) ∷ rest) event resolved = elim (input_value event iv) [
    | err e ↦ err (resolving_input key name e)
    | ok val ↦ resolve_anew name rest event (insert key val resolved)
  ]

  resolve_entries-eq :
      (name : String) (inputs : Dict InputValue) (event : Event) (resolved : Dict Value)
      (m : Cache pf)
      → IsFaithfulCache pf m
      → ((resolve_entries pf name inputs event resolved m).0
          ≡ resolve_anew name inputs event resolved)
        × IsFaithfulCache pf (resolve_entries pf name inputs event resolved m).1
  unfolding resolve_entries resolve_anew
  resolve_entries-eq name [] event resolved m h = (refl, h)
  resolve_entries-eq name ((key, iv) ∷ rest) event resolved m h =
      elim (Result-cases (input_value event iv)) [
        | inl (v, e) ↦ ground (
          arith,
          resolve_input-eq-fetch pf iv event m h,
          resolve_entries-eq name rest event (insert key v resolved)
              (resolve_input pf iv event m).1,
        )
        | inr (x, e) ↦ ground (arith, resolve_input-eq-fetch pf iv event m h)
      ]

  -- On faithful caches the result does not depend on the cache.
  pub resolve_inputs-cache :
      (cfg : ReactorConfig) (event : Event) (m m' : Cache pf)
      → IsFaithfulCache pf m
      → IsFaithfulCache pf m'
      → ((resolve_inputs pf cfg event m).0 ≡ (resolve_inputs pf cfg event m').0)
        × IsFaithfulCache pf (resolve_inputs pf cfg event m).1
  unfolding resolve_inputs
  resolve_inputs-cache cfg event m m' h h' =
      let (same, kept) = resolve_entries-eq cfg.name cfg.inputs event [] m h in
      (same ∙ sym (resolve_entries-eq cfg.name cfg.inputs event [] m' h').0, kept)

  -- The value under a key after the loop.
  abbrev pub value_at : Event → Option InputValue → Option Value → Option Value
  value_at event none old = old
  value_at event (some iv) old = value? (input_value event iv)

  resolve_anew-lookup :
      (name : String) (inputs : Dict InputValue) (event : Event) (resolved res : Dict Value)
      (k : String)
      → NodupKeys inputs
      → resolve_anew name inputs event resolved ≡ ok res
      → lookup k res ≡ value_at event (lookup k inputs) (lookup k resolved)
  unfolding resolve_anew lookup
  resolve_anew-lookup name [] event resolved res k u e = ground arith
  resolve_anew-lookup name ((key, iv) ∷ rest) event resolved res k (fresh, u) e =
      elim (Result-cases (input_value event iv)) [
        | inl (v, x) ↦ ground (
          arith,
          resolve_anew-lookup name rest event (insert key v resolved) res k u,
          lookup-insert key k v resolved,
          eq_iff key k,
          ap (λ s. lookup s rest) {x = key} {y = k},
        )
        | inr (x, failed) ↦ ground arith
      ]

  -- Every input has a value.
  abbrev pub HasValues : Event → Dict InputValue → Type 0
  HasValues event = Entries (λ k iv. (v : Value) × (input_value event iv ≡ ok v))

  resolve_anew_total :
      (name : String) (inputs : Dict InputValue) (event : Event) (resolved : Dict Value)
      → HasValues event inputs
      → (res : Dict Value) × (resolve_anew name inputs event resolved ≡ ok res)
  unfolding resolve_anew
  resolve_anew_total name [] event resolved h = (resolved, refl)
  resolve_anew_total name ((key, iv) ∷ rest) event resolved ((v, e), h) =
      rw (e, resolve_anew) (resolve_anew_total name rest event (insert key v resolved) h)

  resolve_anew-HasValues :
      (name : String) (inputs : Dict InputValue) (event : Event) (resolved res : Dict Value)
      → resolve_anew name inputs event resolved ≡ ok res
      → HasValues event inputs
  unfolding resolve_anew
  resolve_anew-HasValues name [] event resolved res e = tt
  resolve_anew-HasValues name ((key, iv) ∷ rest) event resolved res e =
      elim (Result-cases (input_value event iv)) [
        | inl (v, x) ↦ (
          (v, x),
          resolve_anew-HasValues name rest event (insert key v resolved) res (ground arith),
        )
        | inr (x, failed) ↦ absurd (ground arith)
      ]

  -- On a faithful cache `ResolveInputs` succeeds exactly when every input has a value.
  pub resolve_inputs-ok_iff :
      (cfg : ReactorConfig) (event : Event) (m : Cache pf)
      → IsFaithfulCache pf m
      → ((res : Dict Value) × ((resolve_inputs pf cfg event m).0 ≡ ok res))
        ↔ HasValues event cfg.inputs
  unfolding resolve_inputs
  resolve_inputs-ok_iff cfg event m h =
      let same = (resolve_entries-eq cfg.name cfg.inputs event [] m h).0 in
      (
        λ (res, e). resolve_anew-HasValues cfg.name cfg.inputs event [] res (sym same ∙ e),
        λ all.
            let (res, e) = resolve_anew_total cfg.name cfg.inputs event [] all in (res, same ∙ e),
      )

  -- On a faithful cache, where no key has two inputs: when `ResolveInputs` succeeds, a key of
  -- the result has the value of the input under that key, and there are no other keys; the
  -- cache stays faithful.
  pub resolve_inputs-lookup :
      (cfg : ReactorConfig) (event : Event) (m : Cache pf) (res : Dict Value) (k : String)
      → IsFaithfulCache pf m
      → NodupKeys cfg.inputs
      → (resolve_inputs pf cfg event m).0 ≡ ok res
      → (lookup k res ≡ value_at event (lookup k cfg.inputs) none)
        × IsFaithfulCache pf (resolve_inputs pf cfg event m).1
  unfolding resolve_inputs
  resolve_inputs-lookup cfg event m res k h u e =
      let (same, kept) = resolve_entries-eq cfg.name cfg.inputs event [] m h in
      (
        resolve_anew-lookup cfg.name cfg.inputs event [] res k u (sym same ∙ e)
            ∙ ap (value_at event (lookup k cfg.inputs)) (lookup-nil k),
        kept,
      )

  -- Go may give the inputs of a reactor in any order, and two caches may differ. If two
  -- configurations have the same input under every key, none twice, and both caches are
  -- faithful: where one run of `ResolveInputs` succeeds, so does the other, and both results
  -- have the same entries.
  pub resolve_inputs_order :
      (cfg cfg' : ReactorConfig) (event : Event) (m m' : Cache pf) (res : Dict Value)
      → IsFaithfulCache pf m
      → IsFaithfulCache pf m'
      → NodupKeys cfg.inputs
      → NodupKeys cfg'.inputs
      → ((k : String) → lookup k cfg.inputs ≡ lookup k cfg'.inputs)
      → (resolve_inputs pf cfg event m).0 ≡ ok res
      → (res' : Dict Value) × ((resolve_inputs pf cfg' event m').0 ≡ ok res')
        × ((k : String) → lookup k res ≡ lookup k res')
  resolve_inputs_order cfg cfg' event m m' res h h' u u' same e =
      let all = (resolve_inputs-ok_iff cfg event m h).0 (res, e) in
      let all' : HasValues event cfg'.inputs =
        Entries-of_lookup (λ k iv. (v : Value) × (input_value event iv ≡ ok v)) cfg'.inputs u'
          (λ k iv found. Entries-lookup _ k iv cfg.inputs all (same k ∙ found)) in
      let (res', e') = (resolve_inputs-ok_iff cfg' event m' h').1 all' in
      (
        res',
        e',
        λ k.
            (resolve_inputs-lookup cfg event m res k h u e).0
            ∙ ap (λ o. value_at event o none) (same k)
            ∙ sym (resolve_inputs-lookup cfg' event m' res' k h' u' e').0,
      )
