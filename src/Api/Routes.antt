-- ===== src/Api/Routes.antt =====
-- pkg/api/api.go: the routes that `registerRoutes` gives gin.
use event_reactor.Base.{
  Bool, true, false, ◌&&◌, ◌||◌, Option, List, [], ◌∷◌, String, ◌==◌, ◌≡◌, ◌↔◌, arith, eq_iff,
}
use event_reactor.Config.{ServerConfig}

pub data Endpoint : Type 0 where
  liveness readiness events cloud_events webhook : Endpoint

pub record Route : Type 0 where
  pub method : String
  pub path : String
  pub endpoint : Endpoint

abbrev pub route : String → String → Endpoint → Route
route method path endpoint = record { method = method; path = path; endpoint = endpoint }

unfoldable pub register_routes : ServerConfig → List Route
register_routes cfg =
    route "GET" cfg.server.health_check.liveness liveness
    ∷ route "GET" cfg.server.health_check.readiness readiness
    ∷ route "POST" "/events" events
    ∷ route "POST" "/cloudevents" cloud_events
    ∷ route "POST" "/webhook/:source" webhook
    ∷ []

abbrev pub same_place : Route → Route → Bool
same_place r s = (r.method == s.method) && (r.path == s.path)

abbrev pub is_taken : Route → List Route → Bool
is_taken r [] = false
is_taken r (s ∷ ss) = same_place r s || is_taken r ss

-- Whether a route is registered twice, on which gin panics.
abbrev pub clashes : List Route → Bool
clashes [] = false
clashes (r ∷ rs) = is_taken r rs || clashes rs

-- gin: what it panics with when it is given these routes in turn, if it does; and the endpoint for a
-- method and a path, with the parameter "source", which is empty without one.
pub record Router : Type 0 where
  pub refuses : List Route → Option String
  pub find : List Route → (method path : String) → Option (Endpoint × String)

-- A route is registered twice exactly if the two health checks have the same path.
pub clashes-register_routes :
    (cfg : ServerConfig)
    → (clashes (register_routes cfg) ≡ true)
      ↔ (cfg.server.health_check.liveness ≡ cfg.server.health_check.readiness)
unfolding register_routes
clashes-register_routes cfg =
    let same = eq_iff cfg.server.health_check.liveness cfg.server.health_check.readiness in
    (λ h. same.0 (ground arith), λ h. let e = same.1 h in ground arith)
