-- ===== src/Cli/Validity.antt =====
-- pkg/cmd/test.go and pkg/cmd/root.go: `er test config` against the start of the server.
use event_reactor.Base.{
  Option, none, some, List, [], ◌∷◌, String, ◌≡◌, ◌↔◌, ◌⊎◌, refl, inl, inr, Bool-cases,
  Option-cases,
}
use event_reactor.Base.Dict.{is_empty}
use event_reactor.Base.Int.{ℤ}
use event_reactor.Base.Result.{Result, ok, err, ◌>>=◌, ◌>>◌, map_err, Result-cases}
use event_reactor.Base.Value.{Value, Float}
use event_reactor.Config.{ServerConfig, ReactorConfig, ListenerConfig, AuthHandlerConfig, load}
use event_reactor.Auth
use event_reactor.Auth.{AuthRegistry, AuthError}
use event_reactor.Listener
use event_reactor.Listener.{PubsubListener, ListenerError}
use event_reactor.Matcher
use event_reactor.Matcher.{MatcherError, compile}
use event_reactor.Reactor.{Platform, Cache, new_registry}
use event_reactor.Providers.{Environment, register_all}
use event_reactor.Adapter
use event_reactor.Api.Routes.{Router, register_routes}
use event_reactor.Cli.{Tools, test_config, test_reactors, new_matcher, invalid_match}
use event_reactor.Server.{
  StartError, creating_matcher, compiling_match, initializing_auth, building_listener, panicking,
  Host, precompile, compiled, use_auth, make_auth, build_listeners, routed, Started, run_server,
}

-- The start has gone past the configuration and the expressions.
abbrev pub Passes {ℓ} : {A : Type ℓ} → Result StartError A → Type 0
Passes (ok s) = Unit
Passes (err (initializing_auth e)) = Unit
Passes (err (building_listener name e)) = Unit
Passes (err (panicking e)) = Unit
Passes (err _) = ⊥

module _ (pf : Platform) where
  -- What two loops that report differently agree on.
  abbrev SameEnd {ℓ κ} :
      {E : Type ℓ} {F : Type κ}
      → (String → MatcherError → E)
      → (String → MatcherError → F)
      → Result E (Unit {0}) × Cache pf
      → Result F (Unit {0}) × Cache pf
      → Type (ℓ ⊔ κ)
  SameEnd f g p q =
      ((m : Cache pf) × (p ≡ (ok tt, m)) × (q ≡ (ok tt, m)))
      ⊎ ((name : String) × (e : MatcherError) × (m : Cache pf) × (p ≡ (err (f name e), m))
          × (q ≡ (err (g name e), m)))

  precompile-SameEnd {ℓ κ} :
      {E : Type ℓ} {F : Type κ} (f : String → MatcherError → E) (g : String → MatcherError → F)
      (rcs : List ReactorConfig) (m : Cache pf)
      → SameEnd f g (precompile pf f rcs m) (precompile pf g rcs m)
  unfolding precompile
  precompile-SameEnd f g [] m = inl (m, refl, refl)
  precompile-SameEnd f g (rc ∷ rcs) m = elim (Bool-cases (is_empty rc.match)) [
    | inl bare ↦ rw (bare, precompile) (precompile-SameEnd f g rcs m)
    | inr given ↦ elim (Result-cases (compile pf.cel rc.match m).0) [
      | inl (prg, good) ↦
          rw (given, precompile, good) (precompile-SameEnd f g rcs (compile pf.cel rc.match m).1)
      | inr (e, bad) ↦
          rw (given, precompile, bad) (inr (rc.name, e, (compile pf.cel rc.match m).1, refl, refl))
    ]
  ]

make_auth-cases :
    (host : Host) (hs : List AuthHandlerConfig)
    → ((auth : Option AuthRegistry) × (make_auth host hs ≡ ok auth))
      ⊎ ((e : AuthError) × (make_auth host hs ≡ err (initializing_auth e)))
unfolding make_auth
make_auth-cases host [] = inl (none, refl)
make_auth-cases host (h ∷ hs) = elim (Result-cases (Auth.new_registry host.sprint (h ∷ hs))) [
  | inl (r, good) ↦ inl (some r, rw (good, make_auth) refl)
  | inr (e, bad) ↦ inr (e, rw (bad, make_auth) refl)
]

build_listeners-cases :
    (host : Host) (lcs : List ListenerConfig)
    → ((ls : List PubsubListener) × (build_listeners host lcs ≡ ok ls))
      ⊎ ((name : String) × (e : ListenerError) × (build_listeners host lcs
            ≡ err (building_listener name e)))
unfolding build_listeners
build_listeners-cases host [] = inl ([], refl)
build_listeners-cases host (lc ∷ lcs) = elim (Result-cases (Listener.build host.wild lc)) [
  | inr (e, bad) ↦ inr (lc.name, e, rw (bad, build_listeners) refl)
  | inl (built, good) ↦ elim (build_listeners-cases host lcs) [
    | inl (ls, fine) ↦
        inl (elim built [ none ↦ ls | some l ↦ l ∷ ls ], rw (good, build_listeners, fine) refl)
    | inr (name, e, bad) ↦ inr (name, e, rw (good, build_listeners, bad) refl)
  ]
]

-- What comes after the expressions.
rest-Passes {ℓ} :
    {A : Type ℓ} (pf : Platform) (host : Host) (cfg : ServerConfig) (hs : List AuthHandlerConfig)
    (lcs : List ListenerConfig) (k : Option AuthRegistry → List PubsubListener → A)
    → Passes (
        make_auth host hs >>= λ a.
        build_listeners host lcs >>= λ ls. routed pf host cfg >> ok (k a ls))
rest-Passes pf host cfg hs lcs k = elim (make_auth-cases host hs) [
  | inr (e, bad) ↦ rw bad tt
  | inl (a, good) ↦ elim (build_listeners-cases host lcs) [
    | inr (name, e, bad) ↦ rw (good, bad) tt
    | inl (ls, fine) ↦ elim (Option-cases (host.router.refuses (register_routes cfg))) [
      | inl taken ↦ rw (good, fine, routed, taken) tt
      | inr (x, refused) ↦ rw (good, fine, routed, refused) tt
    ]
  ]
]

module _ (pf : Platform) (tl : Tools) (env : Environment) (sprint : Value → String)
    (wild : Float → ℤ) (router : Router) where
  -- The server reads the same files as the command, with the same libraries.
  abbrev pub host : Host
  host = record {
    unmarshal = tl.unmarshal;
    read_config = tl.read_bytes;
    new_env = tl.new_env;
    environment = env;
    sprint = sprint;
    wild = wild;
    router = router;
  }

  after_loading-Passes :
      (cfg : ServerConfig)
      → ((test_reactors pf tl cfg).1 ≡ none)
        ↔ Passes {A = Started pf} (do
          empty ← map_err creating_matcher (Matcher.new pf.cel tl.new_env)
          m ← compiled pf host (precompile pf compiling_match cfg.reactors empty)
          let registry = register_all env new_registry
          auth ← make_auth host cfg.auth.handlers
          listeners ← build_listeners host cfg.listeners
          routed pf host cfg
          ok (record {
            adapter = use_auth pf host auth (Adapter.new pf cfg registry);
            matcher = m;
            listeners = listeners;
          }))
  unfolding test_reactors new_matcher
  after_loading-Passes cfg = elim (Result-cases (Matcher.new pf.cel tl.new_env)) [
    | inr (e, bad) ↦ rw (bad, test_reactors, new_matcher) (λ h. cc, λ h. elim h [ ])
    | inl (m, good) ↦ elim (precompile-SameEnd pf invalid_match compiling_match cfg.reactors m) [
      | inl (m', p, q) ↦
          rw (good, test_reactors, new_matcher, p, q)
            (λ h. rest-Passes pf host cfg cfg.auth.handlers cfg.listeners _, λ h. refl)
      | inr (name, e, m', p, q) ↦
          rw (good, test_reactors, new_matcher, p, q) (λ h. cc, λ h. elim h [ ])
    ]
  ]

  -- `er test config` ends with no error on a file exactly if the start of the server with that file
  -- goes past the configuration and the expressions: it succeeds, it fails with an auth handler or a
  -- listener, or it panics as gin does not take the routes.
  pub test_config-Passes :
      (path : String) → ((test_config pf tl path).1 ≡ none) ↔ Passes (run_server pf host path)
  unfolding test_config run_server
  test_config-Passes path = elim (Result-cases (load tl.unmarshal tl.read_bytes path)) [
    | inr (e, bad) ↦ rw (bad, test_config, run_server) (λ h. cc, λ h. elim h [ ])
    | inl (cfg, good) ↦ rw (good, test_config, run_server) (after_loading-Passes cfg)
  ]
