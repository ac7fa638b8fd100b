-- ===== src/Server/Dispatch.antt =====
-- pkg/cmd/root.go with pkg/adapter/adapter.go: what holds of a server that has started.
use mathlib.Core.List.{Perm}
use event_reactor.Base.{
  false, Option, none, some, List, [], ◌∷◌, map, select, String, ◌==◌, ◌≡◌, ◌≢◌, ◌↔◌, refl, sym,
  ◌∙◌, ap, subst, arith, All, eq_iff, Option-cases, inl, inr,
}
use event_reactor.Base.Result.{
  Result, ok, err, Result-cases, map_err, bind-ok, map_err-ok, ok-injective,
}
use event_reactor.Base.Value.{Bytes}
use event_reactor.Message.{Event}
use event_reactor.Config.{ServerConfig, ListenerConfig, AuthHandlerConfig, load, apply_defaults}
use event_reactor.Config.Validation.{NamesAll, parse_iff}
use event_reactor.Auth.{AuthRegistry}
use event_reactor.Matcher
use event_reactor.Reactor.{Platform, Cache, Context, new_registry}
use event_reactor.Reactor.Resolution.{IsFaithfulCache}
use event_reactor.Adapter
use event_reactor.Adapter.{Adapter, with_auth, returns}
use event_reactor.Adapter.Execution.{outcomes}
use event_reactor.Adapter.Schedule.{Handling, Reach, start, IsDone, handle_event-perm}
use event_reactor.Listener
use event_reactor.Listener.{PubsubListener}
use event_reactor.Listener.Factory.{described, build_iff, IsServed}
use event_reactor.Api.Routes.{register_routes}
use event_reactor.Providers.{register_all}
use event_reactor.Server
use event_reactor.Auth
use event_reactor.Server.{
  StartError, loading_config, creating_matcher, compiling_match, building_listener, Host,
  precompile, make_auth, build_listeners, routed, Started, use_auth, run_server,
}
use event_reactor.Server.Startup.{IsCompiled, precompile-IsCompiled}

load-NamesAll :
    (unmarshal : Bytes → Result String ServerConfig) (read_file : String → Result String Bytes)
    (path : String) (cfg : ServerConfig)
    → load unmarshal read_file path ≡ ok cfg
    → All NamesAll cfg.reactors
unfolding load apply_defaults
load-NamesAll unmarshal read_file path cfg e = elim (Result-cases (read_file path)) [
  | inr (x, bad) ↦ absurd (ground arith)
  | inl (text, good) ↦
      let (raw, parsed, same, named) = (parse_iff unmarshal text cfg).0 (ground arith) in
      subst (λ c. All NamesAll c.reactors) (sym same) named.0
]

All-map {ℓ κ ι} :
    {A : Type ℓ} (P : A → Type κ) (Q : A → Type ι) (xs : List A)
    → ((x : A) → P x → Q x)
    → All P xs
    → All Q xs
All-map P Q [] f h = tt
All-map P Q (x ∷ xs) f (p, h) = (f x p, All-map P Q xs f h)

make_auth-none :
    (host : Host) (hs : List AuthHandlerConfig) (auth : Option AuthRegistry)
    → make_auth host hs ≡ ok auth
    → (auth ≡ none) ↔ (hs ≡ [])
unfolding make_auth
make_auth-none host [] auth e = ground arith
make_auth-none host (h ∷ hs) auth e = elim (Result-cases (Auth.new_registry host.sprint (h ∷ hs))) [
  | inl (r, good) ↦ ground arith
  | inr (x, bad) ↦ absurd (ground arith)
]

served_other : (type : String) → IsServed type → (type == "pubsub") ≡ false
served_other type h = ground (
  arith,
  eq_iff type "pubsub",
  eq_iff "webhook" "pubsub",
  eq_iff "cloudevents" "pubsub",
  eq_iff "http" "pubsub",
)

build_listeners-described :
    (host : Host) (lcs : List ListenerConfig) (ls : List PubsubListener)
    → build_listeners host lcs ≡ ok ls
    → ls ≡ map (described host.wild) (select (λ lc. lc.type == "pubsub") lcs)
unfolding build_listeners
build_listeners-described host [] ls e = ground arith
build_listeners-described host (lc ∷ lcs) ls e =
    let (built, good, e1) =
      bind-ok (map_err (building_listener lc.name) (Listener.build host.wild lc)) _ e in
    let good' = map_err-ok _ (Listener.build host.wild lc) good in
    let (more, rest, e2) = bind-ok (build_listeners host lcs) _ e1 in
    let ih = build_listeners-described host lcs more rest in
    elim (Option-cases built) [
      | inl served ↦
          let other : (lc.type == "pubsub") ≡ false =
            served_other lc.type
              ((build_iff host.wild lc (described host.wild lc)).1.0 (good' ∙ ap ok served)) in
          rw other (sym (ok-injective _ _ e2) ∙ rw served ih)
      | inr (l, found) ↦
          let (typed, _, _, same) = (build_iff host.wild lc l).0.0 (good' ∙ ap ok found) in
          rw ((eq_iff lc.type "pubsub").1 typed)
            (sym (ok-injective _ _ e2) ∙ rw (found, same) (ap (λ x. described host.wild lc ∷ x) ih))
    ]

module _ (pf : Platform) (host : Host) where
  -- What a started server has.
  pub record IsReady (s : Started pf) : Type 0 where
    -- every expression of the reactors has its program in the cache
    pub compiled : All (IsCompiled pf s.matcher) s.adapter.cfg.reactors
    pub faithful : IsFaithfulCache pf s.matcher
    pub providers : s.adapter.registry ≡ register_all host.environment new_registry
    -- there is an auth registry exactly if there are handlers
    pub handlers : (s.adapter.auth ≡ none) ↔ (s.adapter.cfg.auth.handlers ≡ [])
    -- gin takes the routes
    pub accepts : host.router.refuses (register_routes s.adapter.cfg) ≡ none
    pub listeners :
        s.listeners
        ≡ map (described host.wild) (select (λ lc. lc.type == "pubsub") s.adapter.cfg.listeners)

  compiled-ok :
      (r : Result StartError (Unit {0}) × Cache pf) (m : Cache pf)
      → Server.compiled pf host r ≡ ok m
      → r ≡ (ok tt, m)
  compiled-ok (ok tt, n) m h = ap (λ x. (ok tt, x)) (ok-injective n m h)
  compiled-ok (err x, n) m h = cc

  new_matcher-IsFaithful :
      (o : Option String) (m : Cache pf) → Matcher.new pf.cel o ≡ ok m → IsFaithfulCache pf m
  unfolding Matcher.new
  new_matcher-IsFaithful none m h = subst (IsFaithfulCache pf) (ok-injective _ m h) tt
  new_matcher-IsFaithful (some x) m h = cc

  assembled :
      (path : String) (cfg : ServerConfig) (m : Cache pf) (auth : Option AuthRegistry)
      (ls : List PubsubListener)
      → load host.unmarshal host.read_config path ≡ ok cfg
      → All (IsCompiled pf m) cfg.reactors
      → IsFaithfulCache pf m
      → make_auth host cfg.auth.handlers ≡ ok auth
      → build_listeners host cfg.listeners ≡ ok ls
      → host.router.refuses (register_routes cfg) ≡ none
      → let a =
          use_auth pf host auth (Adapter.new pf cfg (register_all host.environment new_registry)) in
        IsReady (record { adapter = a; matcher = m; listeners = ls })
        × (load host.unmarshal host.read_config path ≡ ok a.cfg)
  unfolding Adapter.new with_auth
  assembled path cfg m none ls loaded all faithful made built taken = (
    record {
      compiled = all;
      faithful = faithful;
      providers = refl;
      accepts = taken;
      handlers = make_auth-none host cfg.auth.handlers none made;
      listeners = build_listeners-described host cfg.listeners ls built;
    },
    loaded,
  )
  assembled path cfg m (some r) ls loaded all faithful made built taken = (
    record {
      compiled = all;
      faithful = faithful;
      providers = refl;
      accepts = taken;
      handlers = make_auth-none host cfg.auth.handlers (some r) made;
      listeners = build_listeners-described host cfg.listeners ls built;
    },
    loaded,
  )

  routed-accepts :
      (cfg : ServerConfig)
      → routed pf host cfg ≡ ok tt
      → host.router.refuses (register_routes cfg) ≡ none
  routed-accepts cfg e = elim (Option-cases (host.router.refuses (register_routes cfg))) [
    | inl fine ↦ fine
    | inr (x, bad) ↦ absurd (ground arith)
  ]

  -- A server that has started runs on the configuration that `Load` gives, with every expression of
  -- its reactors compiled, the built-in providers, an auth registry exactly if handlers are
  -- configured, routes that gin takes without a panic, and, in their order, the pubsub listeners as they
  -- are described.
  pub run_server-IsReady :
      (path : String) (s : Started pf)
      → run_server pf host path ≡ ok s
      → IsReady s × (load host.unmarshal host.read_config path ≡ ok s.adapter.cfg)
  unfolding run_server
  run_server-IsReady path s e0 =
      let (cfg, h1, e1) =
        bind-ok (map_err loading_config (load host.unmarshal host.read_config path)) _ e0 in
      let loaded = map_err-ok _ (load host.unmarshal host.read_config path) h1 in
      let (empty, h2, e2) =
        bind-ok (map_err creating_matcher (Matcher.new pf.cel host.new_env)) _ e1 in
      let created = map_err-ok _ (Matcher.new pf.cel host.new_env) h2 in
      let (m, h3, e3) =
        bind-ok (Server.compiled pf host (precompile pf compiling_match cfg.reactors empty)) _ e2 in
      let (auth, h4, e4) = bind-ok (make_auth host cfg.auth.handlers) _ e3 in
      let (ls, h5, e5) = bind-ok (build_listeners host cfg.listeners) _ e4 in
      let (_, h6, e6) = bind-ok (routed pf host cfg) _ e5 in
      let (all, faithful, _) =
        precompile-IsCompiled pf compiling_match cfg.reactors empty m
          (new_matcher-IsFaithful host.new_env empty created)
          (All-map NamesAll (λ rc. rc.match ≢ "") cfg.reactors (λ rc n. n.2)
            (load-NamesAll host.unmarshal host.read_config path cfg loaded))
          (compiled-ok _ m h3) in
      subst (λ x. IsReady x × (load host.unmarshal host.read_config path ≡ ok x.adapter.cfg))
        (ok-injective _ s e6)
        (assembled path cfg m auth ls loaded all faithful h4 h5 (routed-accepts cfg h6))

  -- Once the server has started: however the goroutines of a `HandleEvent` are scheduled, when all
  -- have finished the results are, up to order, those of the configured reactors that are not
  -- disabled and match, each once.
  pub run_server-handle_event :
      (path : String) (s : Started pf) (ctx : Context) (event : Event) (t : Handling pf)
      → run_server pf host path ≡ ok s
      → Reach pf s.adapter ctx event (start pf s.adapter ctx event s.matcher) t
      → IsDone pf s.adapter ctx event t
      → Perm (map returns t.results) (outcomes pf s.adapter ctx event)
  run_server-handle_event path s ctx event t e run finished =
      handle_event-perm pf s.adapter ctx event s.matcher t (run_server-IsReady path s e).0.faithful
        run finished
