-- ===== src/Api/Serving.antt =====
-- pkg/api/api.go: a request from its route to its answer. gin finds the route, reads the body and binds
-- it as JSON; the adapter is `handle`.
use event_reactor.Base.{
  true, ℕ, false, none, some, List, [], ◌∷◌, ◌++◌, length, String, ◌≡◌, ◌≢◌, ◌⊎◌, inl, inr, refl,
  All,
}
use event_reactor.Base.Result.{Result, ok, err}
use event_reactor.Base.Text.{contains_rune, append-not_eq, after_prefix, ◌<>◌}
use event_reactor.Base.Value.{Fields, Bytes, object}
use event_reactor.Message.{Codec, Event}
use event_reactor.Config.{ServerConfig}
use event_reactor.Reactor.{ReactorResult}
use event_reactor.Api.{
  Request, Response, failure, processed, respond, handle_liveness, handle_readiness, handle_event,
  handle_cloud_event, handle_webhook, invalid_signature, invalid_json,
}
use event_reactor.Api.Routes.{
  Router, Endpoint, liveness, readiness, events, cloud_events, webhook, Route, route,
  register_routes, is_taken, clashes,
}
use event_reactor.Api.Webhook.{MayPass, handle_webhook_cases}

pub record Incoming : Type 0 where
  pub method : String
  pub path : String
  pub request : Request
  pub content_type : String
  -- what io.ReadAll and ShouldBindJSON give for the body
  pub body : Result String Bytes
  pub bound : Result String Fields

-- A part of a path that a parameter matches, and a prefix without parameters.
abbrev pub IsSegment : String → Type 0
IsSegment s = (s ≢ "") × (contains_rune s b'/' ≡ false)

abbrev pub IsStatic : String → Type 0
IsStatic path = (contains_rune path b':' ≡ false) × (contains_rune path b'*' ≡ false)

abbrev pub IsOther : String → Route → Type 0
IsOther method r = r.method ≡ method → IsStatic r.path

-- What gin documents: it panics if a route is registered twice. If it does not panic, a path that ends
-- in ":source" matches any last part in its place, where all other paths of the method are without
-- parameters, unless one of them is that path.
pub record RouterLaws (rt : Router) : Type 0 where
  pub refuses_twice : (routes : List Route) → clashes routes ≡ true → rt.refuses routes ≢ none
  pub parameter :
      (before after : List Route) (r : Route) (prefix s : String)
      → rt.refuses (before ++ (r ∷ after)) ≡ none
      → r.path ≡ prefix <> ":source"
      → IsSegment s
      → IsStatic prefix
      → All (IsOther r.method) (before ++ after)
      → is_taken (route r.method (prefix <> s) r.endpoint) (before ++ after) ≡ false
      → rt.find (before ++ (r ∷ after)) r.method (prefix <> s) ≡ some (r.endpoint, s)

-- What the handlers use of the rest of the program, and HMAC-SHA256.
pub record Service : Type 0 where
  pub mac : String → Bytes → Bytes
  pub codec : Codec
  pub now : ℕ
  pub handle : Event → List ReactorResult

-- gin answers a request for which there is no route itself.
pub data Answer : Type 0 where
  no_route : Answer
  answered : Response → Answer

module _ (sv : Service) (cfg : ServerConfig) where
  unfoldable pub answer_at : Endpoint → (source : String) → Incoming → Response
  answer_at liveness source inc = handle_liveness
  answer_at readiness source inc = handle_readiness
  answer_at events source inc = respond sv.handle (handle_event sv.codec sv.now inc.bound)
  answer_at cloud_events source inc = respond sv.handle (handle_cloud_event inc.request inc.bound)
  answer_at webhook source inc = respond sv.handle (
      handle_webhook sv.mac sv.codec cfg.auth.webhook_secrets inc.request inc.content_type source
        inc.body)

  unfoldable pub serve_request : Router → Incoming → Answer
  serve_request rt inc = elim (rt.find (register_routes cfg) inc.method inc.path) [
    | none ↦ no_route
    | some (endpoint, source) ↦ answered (answer_at endpoint source inc)
  ]

  module _ (rt : Router) (laws : RouterLaws rt)
      (accepts : rt.refuses (register_routes cfg) ≡ none) where
    find_webhook :
        (s : String)
        → IsSegment s
        → rt.find (register_routes cfg) "POST" ("/webhook/" <> s) ≡ some (webhook, s)
    unfolding register_routes after_prefix contains_rune
    find_webhook s seg =
        let not_events = append-not_eq "/webhook/" s "/events" refl in
        let not_cloud_events = append-not_eq "/webhook/" s "/cloudevents" refl in
        laws.parameter
          (route "GET" cfg.server.health_check.liveness liveness
            ∷ route "GET" cfg.server.health_check.readiness readiness
            ∷ route "POST" "/events" events
            ∷ route "POST" "/cloudevents" cloud_events
            ∷ [])
          [] (route "POST" "/webhook/:source" webhook) "/webhook/" s accepts refl seg (refl, refl)
          ((λ e. cc), ((λ e. cc), ((λ e. (refl, refl)), ((λ e. (refl, refl)), tt))))
          (rw (not_events, not_cloud_events))

    -- A POST to /webhook/ and the name of a source, whose body was read, is answered for that source: with
    -- 401 if it may not pass, with 400 if it may and the body is not a JSON object, and otherwise with the
    -- results for the event with that body, and their number.
    pub serve_webhook :
        (inc : Incoming) (s : String) (body : Bytes)
        → IsSegment s
        → inc.method ≡ "POST"
        → inc.path ≡ "/webhook/" <> s
        → inc.body ≡ ok body
        → let may = MayPass sv.mac cfg.auth.webhook_secrets inc.request s body in
          let answer = serve_request rt inc in
          ((¬ may) × (answer ≡ answered (failure 401 invalid_signature)))
          ⊎ (may
              × ((e : String) × (sv.codec.unmarshal body ≡ err e))
              × (answer ≡ answered (failure 400 invalid_json)))
          ⊎ (may
              × ((fs : Fields) × (ev : Event) × (sv.codec.unmarshal body ≡ ok fs)
                  × (answer ≡ answered (processed 200 (length (sv.handle ev)) (sv.handle ev)))
                  × (ev.source ≡ s)
                  × (ev.payload ≡ object fs)))
    unfolding serve_request answer_at respond
    serve_webhook inc s body seg m p b =
        let found = find_webhook s seg in
        elim (handle_webhook_cases sv.mac cfg.auth.webhook_secrets inc.request s body sv.codec
          inc.content_type) [
            | inl (stopped, e) ↦
                inl (stopped, rw (m, p, found, b, e, serve_request, answer_at, respond))
            | inr (inl (may, bad, e)) ↦
                inr (inl (may, bad, rw (m, p, found, b, e, serve_request, answer_at, respond)))
            | inr (inr (may, (fs, ev, u, e, src, pay))) ↦ inr (
                inr (
                  may,
                  (fs, ev, u, rw (m, p, found, b, e, serve_request, answer_at, respond), src, pay),
                ))
          ]
