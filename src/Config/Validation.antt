-- ===== src/Config/Validation.antt =====
-- pkg/config/config.go: which configurations `validate` and `Parse` accept.
use event_reactor.Base.{
  ℕ, suc, ◌≡◌, ◌≢◌, ◌↔◌, refl, arith, String, eq_iff, List, [], ◌∷◌, All, inl, inr,
}
use event_reactor.Base.Result.{Result, ok, Result-cases}
use event_reactor.Base.Value.{Bytes}
use event_reactor.Config.{
  ServerConfig, ReactorConfig, ListenerConfig, validate_reactor, validate_reactors,
  validate_listener, validate_listeners, validate, apply_defaults, parse,
}

abbrev pub NamesAll : ReactorConfig → Type 0
NamesAll r = (r.name ≢ "") × (r.provider ≢ "") × (r.match ≢ "")

abbrev pub NamesType : ListenerConfig → Type 0
NamesType l = (l.name ≢ "") × (l.type ≢ "")

-- Every reactor has a name, a provider and a match expression, every listener a name and a type.
abbrev pub IsWellFormed : ServerConfig → Type 0
IsWellFormed cfg = All NamesAll cfg.reactors × All NamesType cfg.listeners

validate_reactor_iff : (i : ℕ) (r : ReactorConfig) → (validate_reactor i r ≡ ok tt) ↔ NamesAll r
unfolding validate_reactor
validate_reactor_iff i r = ground (arith, eq_iff r.name "", eq_iff r.provider "", eq_iff r.match "")

validate_listener_iff : (i : ℕ) (l : ListenerConfig) → (validate_listener i l ≡ ok tt) ↔ NamesType l
unfolding validate_listener
validate_listener_iff i l = ground (arith, eq_iff l.name "", eq_iff l.type "")

validate_reactors_iff :
    (i : ℕ) (rs : List ReactorConfig) → (validate_reactors i rs ≡ ok tt) ↔ All NamesAll rs
unfolding validate_reactors
validate_reactors_iff i [] = (λ _. tt, λ _. refl)
validate_reactors_iff i (r ∷ rs) =
    ground (arith, validate_reactor_iff i r, validate_reactors_iff (suc i) rs)

validate_listeners_iff :
    (i : ℕ) (ls : List ListenerConfig) → (validate_listeners i ls ≡ ok tt) ↔ All NamesType ls
unfolding validate_listeners
validate_listeners_iff i [] = (λ _. tt, λ _. refl)
validate_listeners_iff i (l ∷ ls) =
    ground (arith, validate_listener_iff i l, validate_listeners_iff (suc i) ls)

-- `validate` accepts exactly the well-formed configurations.
pub validate_iff : (cfg : ServerConfig) → (validate cfg ≡ ok tt) ↔ IsWellFormed cfg
unfolding validate
validate_iff cfg =
    ground (arith, validate_reactors_iff 0 cfg.reactors, validate_listeners_iff 0 cfg.listeners)

validate-apply_defaults : (cfg : ServerConfig) → validate (apply_defaults cfg) ≡ validate cfg
unfolding validate apply_defaults
validate-apply_defaults cfg = refl

module _ (unmarshal : Bytes → Result String ServerConfig) where
  -- `Parse` gives a configuration exactly when the text is YAML of a well-formed one, which is then
  -- given with the defaults filled in.
  pub parse_iff :
      (text : Bytes) (cfg : ServerConfig)
      → (parse unmarshal text ≡ ok cfg) ↔ (
          (raw : ServerConfig) × (unmarshal text ≡ ok raw)
          × (cfg ≡ apply_defaults raw)
          × IsWellFormed raw)
  unfolding parse
  parse_iff text cfg = (
    λ h. elim (Result-cases (unmarshal text)) [
      | inl (raw, e) ↦ (
        raw,
        e,
        ground (arith, validate-apply_defaults raw),
        ground (arith, validate-apply_defaults raw, validate_iff raw),
      )
      | inr (x, e) ↦ cc
    ],
    λ (raw, e, same, good). ground (arith, validate-apply_defaults raw, validate_iff raw),
  )
