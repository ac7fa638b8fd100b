-- ===== src/Auth.antt =====
-- pkg/auth/auth.go: auth handlers, made from the configuration, and the tokens that they give.
-- fmt.Sprint is the argument `sprint`.
pub mod Tokens
pub mod Registry
use Prim.Native.String
use event_reactor.Base.{
  Bool, true, false, ◌||◌, Option, none, some, List, [], ◌∷◌, String, ◌==◌, if◌then◌else◌,
}
use event_reactor.Base.Dict.{Dict, lookup, insert, is_empty}
use event_reactor.Base.Result.{Result, ok, err, ◌>>=◌, ◌>>◌, map_err, reject_if}
use event_reactor.Base.Text.{◌<>◌}
use event_reactor.Base.Value.{Value, null, str, Fields, entries}
use event_reactor.Config.{AuthHandlerConfig}

pub record Token : Type 0 where
  pub value : String
  pub type : String

unfoldable pub header : Token → String
header t = if is_empty t.type then "Bearer " <> t.value else t.type <> " " <> t.value

-- The types that implement `Handler`.
pub data Handler : Type 0 where
  static_token : (name token typ : String) → Handler
  github_token : (name token : String) → Handler
  github_app : (name app_id installation_id private_key_path : String) → Handler
  oauth2_client_credentials :
      (name token_url client_id client_secret : String) (scopes : List String) → Handler
  service_account : (name key_file : String) (scopes : List String) → Handler

pub data AuthError : Type 0 where
  unsupported_type not_found not_implemented : String → AuthError
  fields_required : (type : String) → AuthError
  in_handler : String → AuthError → AuthError

unfoldable pub name : Handler → String
name (static_token n _ _) = n
name (github_token n _) = n
name (github_app n _ _ _) = n
name (oauth2_client_credentials n _ _ _ _) = n
name (service_account n _ _) = n

-- `GetToken` of each handler.
unfoldable pub handler_token : Handler → Result AuthError Token
handler_token (static_token _ token typ) = ok (record { value = token; type = typ })
handler_token (github_token _ token) = ok (record { value = token; type = "token" })
handler_token (github_app _ _ _ _) = err (not_implemented "github-app")
handler_token (oauth2_client_credentials _ _ _ _ _) =
    err (not_implemented "oauth2-client-credentials")
handler_token (service_account _ _ _) = err (not_implemented "service-account")

pub record AuthRegistry : Type 0 where
  pub handlers : Dict Handler

unfoldable pub get_token : AuthRegistry → String → Result AuthError Token
get_token r n = elim (lookup n r.handlers) [ none ↦ err (not_found n) | some h ↦ handler_token h ]

unfoldable pub has : AuthRegistry → String → Bool
has r n = elim (lookup n r.handlers) [ none ↦ false | some h ↦ true ]

module _ (sprint : Value → String) where
  -- The branches of `configStr` on the entry.
  abbrev pub text_of : Option Value → String
  text_of none = ""
  text_of (some null) = ""
  text_of (some (str s)) = s
  text_of (some v) = sprint v

  unfoldable pub config_str : Fields → String → String
  config_str cfg key = text_of (lookup key (entries cfg))

  unfoldable pub new_static_token : AuthHandlerConfig → Result AuthError Handler
  new_static_token cfg = do
    let tok = config_str cfg.config "token"
    reject_if (is_empty tok) (fields_required "static-token")
    let typ = config_str cfg.config "tokenType"
    ok (static_token cfg.name tok (if is_empty typ then "Bearer" else typ))

  unfoldable pub new_github_token : AuthHandlerConfig → Result AuthError Handler
  new_github_token cfg = do
    let tok = config_str cfg.config "token"
    reject_if (is_empty tok) (fields_required "github-token")
    ok (github_token cfg.name tok)

  unfoldable pub new_github_app : AuthHandlerConfig → Result AuthError Handler
  new_github_app cfg = do
    let app_id = config_str cfg.config "appId"
    let inst_id = config_str cfg.config "installationId"
    let key_path = config_str cfg.config "privateKeyPath"
    reject_if (is_empty app_id || is_empty inst_id || is_empty key_path)
        (fields_required "github-app")
    ok (github_app cfg.name app_id inst_id key_path)

  unfoldable pub new_oauth2_client_credentials : AuthHandlerConfig → Result AuthError Handler
  new_oauth2_client_credentials cfg = do
    let token_url = config_str cfg.config "tokenUrl"
    let client_id = config_str cfg.config "clientId"
    let client_secret = config_str cfg.config "clientSecret"
    reject_if (is_empty token_url || is_empty client_id || is_empty client_secret)
        (fields_required "oauth2-client-credentials")
    ok (oauth2_client_credentials cfg.name token_url client_id client_secret cfg.default_scopes)

  unfoldable pub new_service_account : AuthHandlerConfig → Result AuthError Handler
  new_service_account cfg = do
    let key_file = config_str cfg.config "keyFile"
    reject_if (is_empty key_file) (fields_required "service-account")
    ok (service_account cfg.name key_file cfg.default_scopes)

  unfoldable pub new_handler : AuthHandlerConfig → Result AuthError Handler
  new_handler cfg =
      if cfg.type == "static-token"
      then new_static_token cfg
      else if cfg.type == "github-token"
      then new_github_token cfg
      else if cfg.type == "github-app"
      then new_github_app cfg
      else if cfg.type == "oauth2-client-credentials"
      then new_oauth2_client_credentials cfg
      else if cfg.type == "service-account"
      then new_service_account cfg
      else err (unsupported_type cfg.type)

  -- The loop of `NewRegistry` over the handlers left.
  unfoldable pub register_all :
      List AuthHandlerConfig → Dict Handler → Result AuthError (Dict Handler)
  register_all [] handlers = ok handlers
  register_all (h ∷ hs) handlers = do
    handler ← map_err (in_handler h.name) (new_handler h)
    register_all hs (insert h.name handler handlers)

  unfoldable pub new_registry : List AuthHandlerConfig → Result AuthError AuthRegistry
  new_registry hs = do handlers ← register_all hs []; ok (record { handlers = handlers })
