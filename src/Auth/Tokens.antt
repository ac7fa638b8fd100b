-- ===== src/Auth/Tokens.antt =====
-- pkg/auth/auth.go: which handlers give a token, and what its header is.
use text.Mathlib.TextLemmas.{append-eq-nil_iff}
use event_reactor.Base.{
  Option, none, some, String, ◌==◌, if◌then◌else◌, ◌≡◌, ◌≢◌, ◌⊎◌, arith, eq_iff, inl, inr,
  Bool-cases,
}
use event_reactor.Base.Dict.{is_empty}
use event_reactor.Base.Result.{ok, value?}
use event_reactor.Base.Text.{◌<>◌}
use event_reactor.Base.Value.{Value}
use event_reactor.Config.{AuthHandlerConfig}
use event_reactor.Auth.{
  Token, header, Handler, handler_token, config_str, new_handler, new_static_token,
  new_github_token, new_github_app, new_oauth2_client_credentials, new_service_account,
}

-- A header is never empty.
pub header-ne-empty : (t : Token) → header t ≢ ""
unfolding header
header-ne-empty t h = elim (Bool-cases (is_empty t.type)) [
  | inl bare ↦
      let e : "Bearer " <> t.value ≡ "" = ground arith in
      ground (arith, (append-eq-nil_iff.0 e).0, eq_iff "Bearer " "")
  | inr typed ↦
      let e : t.type <> " " <> t.value ≡ "" = ground arith in
      ground (arith, (append-eq-nil_iff.0 (append-eq-nil_iff.0 e).0).1, eq_iff " " "")
]

module _ (sprint : Value → String) where
  -- The token that a configuration stands for.
  abbrev pub granted : AuthHandlerConfig → Option Token
  granted cfg =
      let tok = config_str sprint cfg.config "token" in
      let typ = config_str sprint cfg.config "tokenType" in
      if cfg.type == "static-token"
      then some (record { value = tok; type = if is_empty typ then "Bearer" else typ })
      else if cfg.type == "github-token"
      then some (record { value = tok; type = "token" })
      else none

  static_token_granted :
      (cfg : AuthHandlerConfig) (h : Handler)
      → new_static_token sprint cfg ≡ ok h
      → cfg.type ≡ "static-token"
      → value? (handler_token h) ≡ granted cfg
  unfolding new_static_token handler_token
  static_token_granted cfg h made e = ground (arith, eq_iff cfg.type "static-token")

  github_token_granted :
      (cfg : AuthHandlerConfig) (h : Handler)
      → new_github_token sprint cfg ≡ ok h
      → cfg.type ≡ "github-token"
      → value? (handler_token h) ≡ granted cfg
  unfolding new_github_token handler_token
  github_token_granted cfg h made e = rw e (ground arith)

  others_granted :
      (cfg : AuthHandlerConfig) (h : Handler)
      → (new_github_app sprint cfg ≡ ok h)
        ⊎ (new_oauth2_client_credentials sprint cfg ≡ ok h)
        ⊎ (new_service_account sprint cfg ≡ ok h)
      → value? (handler_token h) ≡ none
  unfolding new_github_app new_oauth2_client_credentials new_service_account handler_token
  others_granted cfg h made = ground arith

  -- A handler that is made from a configuration gives a token exactly when its type is
  -- "static-token" or "github-token", and then that of the configuration.
  pub new_handler-granted :
      (cfg : AuthHandlerConfig) (h : Handler)
      → new_handler sprint cfg ≡ ok h
      → value? (handler_token h) ≡ granted cfg
  unfolding new_handler
  new_handler-granted cfg h made = ground (
    arith,
    eq_iff cfg.type "static-token",
    eq_iff cfg.type "github-token",
    static_token_granted cfg h,
    github_token_granted cfg h,
    others_granted cfg h,
  )
