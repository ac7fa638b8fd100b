-- ===== src/Tests/Settings.antt =====
-- pkg/config/config.go and pkg/auth/auth.go on a small configuration.
use event_reactor.Base.{false, none, some, [], ◌∷◌, String, ◌≡◌, refl, ◌↔◌}
use event_reactor.Base.Dict.{lookup, insert}
use event_reactor.Base.Result.{Result, ok, err, value?}
use event_reactor.Base.Value.{Value, str, end, field, Bytes, Float}
use event_reactor.Config.{ServerConfig, AuthHandlerConfig, parse, apply_defaults}
use event_reactor.Config.Input.{Node, no_keys}
use event_reactor.Config.Validation.{IsWellFormed, parse_iff}
use event_reactor.Auth.{
  Handler, static_token, AuthRegistry, get_token, has, new_handler, new_registry, new_static_token,
  config_str, register_all,
}
use event_reactor.Auth.Registry.{last_granted, join, is_some, get_token-new_registry}
use event_reactor.Base.Int.{ℤ, pos}
use event_reactor.Config.{ListenerConfig}
use event_reactor.Tests.{server}

abbrev unmarshal : Bytes → Result String ServerConfig
unmarshal text = ok server

parse_iff_example : (parse unmarshal [] ≡ ok (apply_defaults server)) ↔ (
    (raw : ServerConfig) × (unmarshal [] ≡ ok raw)
    × (apply_defaults server ≡ apply_defaults raw)
    × IsWellFormed raw)
parse_iff_example = parse_iff unmarshal [] (apply_defaults server)

-- A mapping with an expression.
abbrev node : Node
node = record {
  is_scalar = false;
  as_text = err "no scalar";
  as_complex = ok (record no_keys { expr = some "event.id" });
  as_any = ok (str "other");
}

abbrev sprint : Value → String
sprint v = "printed"

abbrev bot : AuthHandlerConfig
bot = record {
  name = "bot";
  type = "static-token";
  default_scopes = [];
  config = field "token" (str "abc") end;
}

abbrev bot_handler : Handler
bot_handler = static_token "bot" "abc" "Bearer"

abbrev bot_registry : AuthRegistry
bot_registry = record { handlers = ("bot", bot_handler) ∷ [] }

get_token-new_registry_example :
    (value? (get_token bot_registry "bot") ≡ join (last_granted sprint "bot" (bot ∷ []) none))
    × (has bot_registry "bot" ≡ is_some (last_granted sprint "bot" (bot ∷ []) none))
unfolding new_registry register_all insert new_handler new_static_token config_str lookup
get_token-new_registry_example = get_token-new_registry sprint (bot ∷ []) bot_registry "bot" refl

abbrev listener : ListenerConfig
listener = record {
  name = "orders";
  type = "pubsub";
  config = field "projectId" (str "p") (field "subscriptionId" (str "s") end);
}

abbrev wild : Float → ℤ
wild f = pos 0
