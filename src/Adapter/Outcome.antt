-- ===== src/Adapter/Outcome.antt =====
-- pkg/adapter/adapter.go: what `executeReactor` returns, on each of its branches.
use event_reactor.Base.{
  Option, none, some, String, ◌≡◌, ◌≢◌, ◌⊎◌, refl, ◌∙◌, ap, sym, arith, inl, inr, eq_iff,
  Option-cases, Bool-cases,
}
use event_reactor.Base.Dict.{Dict, lookup, Entries, Entries-lookup, is_empty}
use event_reactor.Base.Result.{ok, Result-cases}
use event_reactor.Base.Value.{Value}
use event_reactor.Message.{Event}
use event_reactor.Config.{ReactorConfig}
use event_reactor.Auth.{AuthRegistry, Token, get_token, header}
use event_reactor.Auth.Tokens.{header-ne-empty}
use event_reactor.Reactor.{
  Platform, Cache, Context, with_auth_header, auth_header, Registry, Provider, ReactorResult, get,
  resolve_inputs,
}
use event_reactor.Adapter.{
  Run, returns, panics, Adapter, execute_reactor, authorize, finish, call_provider, with_inputs,
}

-- What the program expects of a provider: a result whenever there is no error.
abbrev pub GivesResult : Provider → Type 0
GivesResult p =
    (ctx : Context) (inputs : Dict Value) (event : Event)
    → (p.execute ctx inputs event).1 ≡ none
    → (p.execute ctx inputs event).0 ≢ none

-- A run that ends with a result under the reactor's name.
abbrev pub IsNamed : ReactorConfig → Run → Type 0
IsNamed rc (returns r) = r.reactor_name ≡ rc.name
IsNamed rc panics = ⊥

finish-IsNamed :
    (rc : ReactorConfig) (answer : Option ReactorResult × Option String)
    → (answer.1 ≡ none → answer.0 ≢ none)
    → IsNamed rc (finish rc answer)
unfolding finish
finish-IsNamed rc (r, some e) h = refl
finish-IsNamed rc (some r, none) h = refl
finish-IsNamed rc (none, none) h = h refl refl

call_provider-IsNamed :
    (reg : Registry) (rc : ReactorConfig) (event : Event) (ctx : Context) (inputs : Dict Value)
    → Entries (λ n p. GivesResult p) reg.providers
    → IsNamed rc (call_provider reg rc event ctx inputs)
unfolding call_provider get
call_provider-IsNamed reg rc event ctx inputs h =
    elim (Option-cases (lookup rc.provider reg.providers)) [
      | inl missing ↦ rw (missing, call_provider, get) refl
      | inr (p, found) ↦
          let good = Entries-lookup (λ n q. GivesResult q) rc.provider p reg.providers h found in
          rw (found, call_provider, get)
            (finish-IsNamed rc (p.execute ctx inputs event) (good ctx inputs event))
    ]

with_inputs-IsNamed :
    (reg : Registry) (auth : Option AuthRegistry) (ctx : Context) (rc : ReactorConfig)
    (event : Event) (inputs : Dict Value)
    → Entries (λ n p. GivesResult p) reg.providers
    → IsNamed rc (with_inputs reg auth ctx rc event inputs)
unfolding with_inputs
with_inputs-IsNamed reg auth ctx rc event inputs h = elim (Result-cases (authorize auth rc ctx)) [
  | inl (ctx', e) ↦ rw (e, with_inputs) (call_provider-IsNamed reg rc event ctx' inputs h)
  | inr (x, e) ↦ rw (e, with_inputs) refl
]

-- If every registered provider gives a result whenever it gives no error, `executeReactor` never
-- panics, and its result carries the name of the reactor.
pub execute_reactor-IsNamed :
    (pf : Platform) (a : Adapter pf) (ctx : Context) (rc : ReactorConfig) (event : Event)
    (m : Cache pf)
    → Entries (λ n p. GivesResult p) a.registry.providers
    → IsNamed rc (execute_reactor pf a ctx rc event m).0
unfolding execute_reactor
execute_reactor-IsNamed pf a ctx rc event m h =
    elim (Result-cases (resolve_inputs pf rc event m).0) [
      | inl (inputs, e) ↦
          rw (e, execute_reactor) (with_inputs-IsNamed a.registry a.auth ctx rc event inputs h)
      | inr (x, e) ↦ rw (e, execute_reactor) refl
    ]

pub auth_header-with :
    (ctx : Context) (tok : Token)
    → auth_header (with_auth_header ctx (header tok)) ≡ some (header tok)
unfolding auth_header with_auth_header
auth_header-with ctx tok = ground (arith, eq_iff (header tok) "", header-ne-empty tok)

-- Where the context for the provider is made with no error: a reactor with no "auth" has the
-- given context, and one with "auth" has the header of the token that the registry gives for that
-- handler.
pub authorize_cases :
    (auth : Option AuthRegistry) (rc : ReactorConfig) (ctx ctx' : Context)
    → authorize auth rc ctx ≡ ok ctx'
    → ((rc.auth ≡ "") × (ctx' ≡ ctx))
      ⊎ ((registry : AuthRegistry) × (tok : Token) × (auth ≡ some registry)
          × (get_token registry rc.auth ≡ ok tok)
          × (auth_header ctx' ≡ some (header tok)))
unfolding authorize
authorize_cases auth rc ctx ctx' e = elim (Bool-cases (is_empty rc.auth)) [
  | inl bare ↦ inl ((eq_iff rc.auth "").0 bare, ground arith)
  | inr named ↦ elim (Option-cases auth) [
    | inl missing ↦ absurd (ground arith)
    | inr (registry, given) ↦ elim (Result-cases (get_token registry rc.auth)) [
      | inl (tok, got) ↦
          let same : with_auth_header ctx (header tok) ≡ ctx' = ground arith in
          inr (registry, tok, given, got, ap auth_header (sym same) ∙ auth_header-with ctx tok)
      | inr (x, refused) ↦ absurd (ground arith)
    ]
  ]
]
