-- ===== src/Tests/Routing.antt =====
-- pkg/api/api.go with a small router.
use Prim.Native.Char.{Char, code}
use text.Mathlib.TextLemmas.{nil-append, cons-append}
use event_reactor.Base.{
  ℕ, eqb, Bool, true, false, not, ◌&&◌, Option, none, some, List, [], ◌∷◌, ◌++◌, String, ◌==◌,
  if◌then◌else◌, ◌≡◌, ◌⊎◌, inl, inr, refl, subst, arith, eq_iff, eq_refl, All, Bool-cases,
  Option-cases,
}
use event_reactor.Base.Text.{contains_rune, after_prefix, after_prefix-append, ◌<>◌}
use event_reactor.Api.Routes.{Endpoint, Route, route, is_taken, clashes, register_routes, Router}
use event_reactor.Base.Result.{ok, err}
use event_reactor.Base.Value.{object, Fields, Bytes}
use event_reactor.Message.{Event}
use event_reactor.Config.{ServerConfig}
use event_reactor.Api.{failure, invalid_signature, invalid_json}
use event_reactor.Api.Webhook.{MayPass}
use event_reactor.Api.Serving.{
  RouterLaws, IsStatic, IsOther, Incoming, Service, answered, serve_request,
}
use event_reactor.Config.{
  load, parse, apply_defaults, validate, validate_reactors, validate_reactor, validate_listeners,
}
use event_reactor.Matcher
use event_reactor.Matcher.{compile, build, store}
use event_reactor.Adapter
use event_reactor.Adapter.{Adapter}
use event_reactor.Base.Dict.{lookup, insert}
use event_reactor.Providers.Builtin.{server_adapter, handle_event-builtin}
use event_reactor.Server.{Host, Started, run_server, precompile, make_auth, build_listeners}
use event_reactor.Server.Webhooks.{Handles, Reports, run_server-webhook}
use event_reactor.Tests.{codec, platform}
use event_reactor.Tests.Dispatch.{ctx}
use event_reactor.Tests.Calls.{environment}
use event_reactor.Tests.Serving.{configured, host, cached}

-- What precedes ":source" at the end of a path.
unfoldable param_prefix : String → Option String
param_prefix String.[] = none
param_prefix (String.◌∷◌ c s) =
    let rest = param_prefix s in
    if String.◌∷◌ c s == ":source"
    then some ""
    else elim rest [ none ↦ none | some p ↦ some (String.◌∷◌ c p) ]

abbrev first_is : ℕ → String → Bool
first_is b String.[] = false
first_is b (String.◌∷◌ c s) = eqb (code c) b

not_source :
    (c : Char) (t : String) → eqb (code c) b':' ≡ false → (String.◌∷◌ c t == ":source") ≡ false
not_source c t h = elim (Bool-cases (String.◌∷◌ c t == ":source")) [
  | inl same ↦
      let e = (eq_iff (String.◌∷◌ c t) ":source").0 same in
      let never : true ≡ false = subst (λ x. first_is b':' x ≡ false) e h in cc
  | inr other ↦ other
]

param_prefix-static : (s : String) → contains_rune s b':' ≡ false → param_prefix s ≡ none
unfolding param_prefix contains_rune
param_prefix-static String.[] h = refl
param_prefix-static (String.◌∷◌ c s) h =
    let other = not_source c s (ground arith) in
    rw (other, param_prefix-static s (ground arith)) refl

param_prefix-append :
    (p : String) → contains_rune p b':' ≡ false → param_prefix (p <> ":source") ≡ some p
unfolding param_prefix contains_rune
param_prefix-append String.[] h = refl
param_prefix-append (String.◌∷◌ c p) h =
    let other = not_source c (p <> ":source") (ground arith) in
    rw (cons-append, other, param_prefix-append p (ground arith)) refl

-- What the parameter of a route is in a path.
abbrev param_of : Route → (method path : String) → Option String
param_of r method path = elim (param_prefix r.path) [
  | none ↦ none
  | some p ↦ if r.method == method then after_prefix p path else none
]

unfoldable find_param : List Route → (method path : String) → Option (Endpoint × String)
find_param [] method path = none
find_param (r ∷ rs) method path =
    let rest = find_param rs method path in
    elim (param_of r method path) [ none ↦ rest | some s ↦ some (r.endpoint, s) ]

unfoldable find_exact : List Route → (method path : String) → Option Endpoint
find_exact [] method path = none
find_exact (r ∷ rs) method path =
    let rest = find_exact rs method path in
    if not (contains_rune r.path b':') && (method == r.method) && (path == r.path)
    then some r.endpoint
    else rest

unfoldable find : List Route → (method path : String) → Option (Endpoint × String)
find rs method path = elim (find_exact rs method path) [
  | none ↦ find_param rs method path
  | some e ↦ some (e, "")
]

contains_rune-append :
    (p s : String) (b : ℕ) → contains_rune s b ≡ true → contains_rune (p <> s) b ≡ true
unfolding contains_rune
contains_rune-append String.[] s b h = rw (nil-append, h)
contains_rune-append (String.◌∷◌ c p) s b h =
    rw cons-append (ground (arith, contains_rune-append p s b h))

module _ (method path : String) (e : Endpoint) where
  find_exact-none :
      (rs : List Route)
      → is_taken (route method path e) rs ≡ false
      → find_exact rs method path ≡ none
  unfolding find_exact
  find_exact-none [] h = refl
  find_exact-none (r ∷ rs) h = ground (arith, find_exact-none rs (ground arith))

  find_exact-skip :
      (before after : List Route) (r : Route)
      → contains_rune r.path b':' ≡ true
      → is_taken (route method path e) (before ++ after) ≡ false
      → find_exact (before ++ (r ∷ after)) method path ≡ none
  unfolding find_exact
  find_exact-skip [] after r d h = ground (arith, find_exact-none after h)
  find_exact-skip (q ∷ qs) after r d h = ground (arith, find_exact-skip qs after r d (ground arith))

  param_of-other : (q : Route) → IsOther method q → param_of q method path ≡ none
  param_of-other q other = elim (Bool-cases (q.method == method)) [
    | inl same ↦
        rw (param_prefix-static q.path (other ((eq_iff q.method method).0 same)).0, param_of) refl
    | inr different ↦ elim (Option-cases (param_prefix q.path)) [
      | inl n ↦ rw (n, param_of) refl
      | inr (p, x) ↦ rw (x, different, param_of) refl
    ]
  ]

  find_param-skip :
      (before after : List Route) (r : Route) (s : String)
      → All (IsOther method) (before ++ after)
      → param_of r method path ≡ some s
      → find_param (before ++ (r ∷ after)) method path ≡ some (r.endpoint, s)
  unfolding find_param
  find_param-skip [] after r s h p = rw (p, find_param) refl
  find_param-skip (q ∷ qs) after r s (h, hs) p =
      rw (param_of-other q h, find_param) (find_param-skip qs after r s hs p)

abbrev panics : List Route → Option String
panics rs = if clashes rs then some "a route is registered twice" else none

abbrev router : Router
router = record { refuses = panics; find = find }

param_of-own :
    (r : Route) (prefix s : String)
    → r.path ≡ prefix <> ":source"
    → IsStatic prefix
    → param_of r r.method (prefix <> s) ≡ some s
param_of-own r prefix s e h =
    rw (e, param_prefix-append prefix h.0, eq_refl r.method, after_prefix-append prefix s, param_of)
      refl

router_laws : RouterLaws router
unfolding find contains_rune
router_laws = record {
  refuses_twice = λ routes twice. rw twice (λ e. cc);
  parameter = λ before after r prefix s fine e segment static others free.
      let dynamic : contains_rune r.path b':' ≡ true =
        rw e (contains_rune-append prefix ":source" b':' refl) in
      rw (find_exact-skip r.method (prefix <> s) r.endpoint before after r dynamic free, find)
        (find_param-skip r.method (prefix <> s) r.endpoint before after r s others
          (param_of-own r prefix s e static));
}

-- A MAC of one byte.
abbrev mac : String → Bytes → Bytes
mac secret body = 171 ∷ []

-- A configuration with a secret, and the server that is started from it.
abbrev with_secret : ServerConfig
with_secret = record configured {
  auth = record configured.auth {
    webhook_secrets = record { source = "github"; secret = "hush" } ∷ [];
  };
}

abbrev secret_host : Host
secret_host = record host { unmarshal = λ text. ok with_secret; router = router }

abbrev secret_adapter : Adapter platform
secret_adapter = server_adapter environment platform (apply_defaults with_secret) none

abbrev guarded : Started platform
guarded = record { adapter = secret_adapter; matcher = cached; listeners = [] }

guarded_started : run_server platform secret_host "er.yaml" ≡ ok guarded
unfolding run_server load parse validate validate_reactors validate_reactor validate_listeners
    Matcher.new precompile compile build store lookup insert make_auth build_listeners Adapter.new
    apply_defaults register_routes
guarded_started = refl

abbrev service : Service
service = record {
  mac = mac;
  codec = codec;
  now = 5;
  handle = λ ev.
      (handle_event-builtin environment platform (apply_defaults with_secret) none ctx ev
        cached).0.results;
}

handled : Handles platform host guarded ctx service
handled ev =
    let (t, run, finished) =
      handle_event-builtin environment platform (apply_defaults with_secret) none ctx ev cached in
    (t, run, finished, refl)

abbrev incoming : Incoming
incoming = record {
  method = "POST";
  path = "/webhook/github";
  request = record {
    header = λ k. if k == "X-Hub-Signature-256" then "sha256=ab" else "";
    uuid = "u1";
  };
  content_type = "application/json";
  body = ok (123 ∷ []);
  bound = err "unused";
}

abbrev body : Bytes
body = 123 ∷ []

run_server-webhook_example :
    let may = MayPass mac guarded.adapter.cfg.auth.webhook_secrets incoming.request "github" body in
    let answer = serve_request service guarded.adapter.cfg router incoming in
    ((¬ may) × (answer ≡ answered (failure 401 invalid_signature)))
    ⊎ (may
        × ((e : String) × (codec.unmarshal body ≡ err e))
        × (answer ≡ answered (failure 400 invalid_json)))
    ⊎ (may
        × ((fs : Fields) × (ev : Event) × (codec.unmarshal body ≡ ok fs)
            × (ev.source ≡ "github")
            × (ev.payload ≡ object fs)
            × Reports platform secret_host guarded ctx service ev incoming router))
unfolding contains_rune apply_defaults
run_server-webhook_example =
    run_server-webhook platform secret_host guarded ctx service "er.yaml" guarded_started handled
      router_laws incoming "github" body ((λ e. cc), refl) refl refl refl
