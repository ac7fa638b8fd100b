-- ===== src/Tests/Inputs.antt =====
-- pkg/reactor/reactor.go on the inputs of one reactor.
use event_reactor.Base.{true, some, [], ◌∷◌, String, ◌≡◌, refl, arith, eq_iff}
use event_reactor.Base.Dict.{Dict, lookup, insert}
use event_reactor.Base.Result.{ok}
use event_reactor.Base.Value.{Value, bool, str}
use event_reactor.Config.{ReactorConfig}
use event_reactor.Config.Input
use event_reactor.Config.Input.{InputValue}
use event_reactor.Reactor.{
  resolve_input, resolve_inputs, resolve_entries, resolve_paths, resolve_stored, resolve_text,
}
use event_reactor.Reactor.Resolution.{
  cel_expr, IsFaithfulCache, fetch, source_of, resolve_input-eq-fetch,
}
use event_reactor.Reactor.Inputs.{resolve_inputs_order}
use event_reactor.Tests.{platform, no_cache, event, notify}

-- An input with an expression and a template.
abbrev both : InputValue
both = InputValue.complex (record Input.no_keys { expr = some "true"; template = some "text" })

resolve_input-eq-fetch_example :
    ((resolve_input platform both event no_cache).0 ≡ fetch platform (source_of both) event)
    × IsFaithfulCache platform (resolve_input platform both event no_cache).1
resolve_input-eq-fetch_example = resolve_input-eq-fetch platform both event no_cache tt

both_source : source_of both ≡ cel_expr "true"
unfolding Input.secret_ref Input.payload_paths Input.file_path Input.env_var Input.expr
both_source = refl

abbrev resolved : Dict Value
resolved = ("to", str "ops") ∷ ("urgent", bool true) ∷ []

notify-resolved : (resolve_inputs platform notify event no_cache).0 ≡ ok resolved
unfolding resolve_inputs resolve_entries resolve_input resolve_paths resolve_stored resolve_text
    Input.secret_ref Input.payload_paths Input.file_path Input.env_var Input.expr Input.template
    Input.static_value insert
notify-resolved = refl

-- The same inputs in the other order.
abbrev turned : ReactorConfig
turned = record notify {
  inputs = ("urgent", InputValue.static (bool true)) ∷ ("to", InputValue.static (str "ops")) ∷ [];
}

turned_lookup : (k : String) → lookup k notify.inputs ≡ lookup k turned.inputs
unfolding lookup
turned_lookup k = ground (arith, eq_iff "to" k, eq_iff "urgent" k, eq_iff "to" "urgent")

resolve_inputs_order_example :
    (res' : Dict Value) × ((resolve_inputs platform turned event no_cache).0 ≡ ok res')
    × ((k : String) → lookup k resolved ≡ lookup k res')
unfolding lookup
resolve_inputs_order_example =
    resolve_inputs_order platform notify turned event no_cache no_cache resolved tt tt
      (refl, (refl, tt)) (refl, (refl, tt)) turned_lookup notify-resolved
