-- ===== src/Auth/Registry.antt =====
-- pkg/auth/auth.go: the registry, by name.
use event_reactor.Base.{
  Bool, true, false, Option, none, some, String, ◌==◌, if◌then◌else◌, ◌≡◌, ◌∙◌, arith, List, [],
  ◌∷◌, ap, inl, inr,
}
use event_reactor.Base.Dict.{Dict, lookup, insert, lookup-insert, lookup-nil}
use event_reactor.Base.Result.{ok, value?, Result-cases}
use event_reactor.Base.Value.{Value}
use event_reactor.Config.{AuthHandlerConfig}
use event_reactor.Auth.{
  Token, Handler, AuthRegistry, handler_token, get_token, has, new_handler, register_all,
  new_registry,
}
use event_reactor.Auth.Tokens.{granted, new_handler-granted}

abbrev pub join {ℓ} : {A : Type ℓ} → Option (Option A) → Option A
join none = none
join (some o) = o

abbrev pub is_some {ℓ} : {A : Type ℓ} → Option A → Bool
is_some none = false
is_some (some a) = true

module _ (sprint : Value → String) where
  -- The token of the last configuration with a name, as `none` for no configuration, and as
  -- `some none` for one whose type gives no token.
  abbrev pub last_granted :
      String → List AuthHandlerConfig → Option (Option Token) → Option (Option Token)
  last_granted n [] found = found
  last_granted n (h ∷ hs) found =
      last_granted n hs (if h.name == n then some (granted sprint h) else found)

  abbrev tokens_at : Option Handler → Option (Option Token)
  tokens_at none = none
  tokens_at (some h) = some (value? (handler_token h))

  register_all-last :
      (n : String) (hs : List AuthHandlerConfig) (d d' : Dict Handler)
      → register_all sprint hs d ≡ ok d'
      → tokens_at (lookup n d') ≡ last_granted n hs (tokens_at (lookup n d))
  unfolding register_all
  register_all-last n [] d d' e = ground arith
  register_all-last n (h ∷ hs) d d' e = elim (Result-cases (new_handler sprint h)) [
    | inl (handler, made) ↦
        register_all-last n hs (insert h.name handler d) d' (ground arith)
        ∙ ap (last_granted n hs) (
            ground
              (arith, lookup-insert h.name n handler d, new_handler-granted sprint h handler made))
    | inr (x, failed) ↦ cc
  ]

  -- In a registry made from configurations a name has the token of the last configuration with that
  -- name, if its type gives one, and is present exactly if some configuration has it.
  pub get_token-new_registry :
      (hs : List AuthHandlerConfig) (r : AuthRegistry) (n : String)
      → new_registry sprint hs ≡ ok r
      → (value? (get_token r n) ≡ join (last_granted n hs none))
        × (has r n ≡ is_some (last_granted n hs none))
  unfolding new_registry get_token has
  get_token-new_registry hs r n e = elim (Result-cases (register_all sprint hs [])) [
    | inl (d, made) ↦
        let known = register_all-last n hs [] d made in
        ground (arith, known, lookup-nil {V = Handler} n)
    | inr (x, failed) ↦ cc
  ]
