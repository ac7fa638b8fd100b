-- ===== src/Providers/Authorized.antt =====
-- pkg/auth/auth.go, pkg/adapter/adapter.go and pkg/reactor/providers/providers.go: the token of a
-- reactor in the request that its http provider sends.
use event_reactor.Base.{
  Option, none, some, [], ◌∷◌, String, ◌==◌, ◌≡◌, ◌≢◌, refl, ◌∙◌, Bool-cases, inl, inr,
}
use event_reactor.Base.Dict.{Dict, lookup}
use event_reactor.Base.Result.{ok}
use event_reactor.Base.Value.{Value}
use event_reactor.Config.{ReactorConfig}
use event_reactor.Auth.{Token, AuthRegistry, get_token, header}
use event_reactor.Reactor.{Context}
use event_reactor.Adapter.{authorize}
use event_reactor.Adapter.Outcome.{authorize_cases}
use event_reactor.Providers.{Environment, HttpRequest, given_headers, build_request}
use event_reactor.Providers.Headers.{last_given, build_request-lookup}

module _ (env : Environment) where
  last_given-some :
      (name : String) (given : Dict Value) (val : String)
      → last_given env name given (some val) ≢ none
  last_given-some name [] val e = cc
  last_given-some name ((key, v) ∷ rest) val e = elim (Bool-cases (env.canonical key == name)) [
    | inl same ↦ last_given-some name rest (env.sprint v) (rw same at e)
    | inr other ↦ last_given-some name rest val (rw other at e)
  ]

  -- Where no header of a name is given there is what there was.
  last_given-none :
      (name : String) (given : Dict Value) (old : Option String)
      → last_given env name given none ≡ none
      → last_given env name given old ≡ old
  last_given-none name [] old e = refl
  last_given-none name ((key, v) ∷ rest) old e = elim (Bool-cases (env.canonical key == name)) [
    | inl same ↦ absurd (last_given-some name rest (env.sprint v) (rw same at e))
    | inr other ↦ rw other (last_given-none name rest old (rw other at e))
  ]

  -- Where the names "Authorization" and "Content-Type" are canonical: if the adapter lets a reactor
  -- that names an auth handler go on, and the http provider then makes a request whose "headers" input
  -- gives no Authorization, then there is an auth registry, its handler of that name has given a token,
  -- and the request's Authorization is the header of that token.
  pub authorize-build_request :
      (auth : Option AuthRegistry) (rc : ReactorConfig) (ctx ctx' : Context) (inputs : Dict Value)
      (req : HttpRequest)
      → env.canonical "Authorization" ≡ "Authorization"
      → env.canonical "Content-Type" ≡ "Content-Type"
      → rc.auth ≢ ""
      → authorize auth rc ctx ≡ ok ctx'
      → build_request env ctx' inputs ≡ ok req
      → last_given env "Authorization" (given_headers env (lookup "headers" inputs)) none ≡ none
      → (r : AuthRegistry) × (tok : Token) × (auth ≡ some r)
        × (get_token r rc.auth ≡ ok tok)
        × (lookup "Authorization" req.headers ≡ some (header tok))
  authorize-build_request auth rc ctx ctx' inputs req a c named e made given =
      elim (authorize_cases auth rc ctx ctx' e) [
        | inl (unnamed, same) ↦ absurd (named unnamed)
        | inr (r, tok, there, got, put) ↦
            let found =
              build_request-lookup env ctx' inputs req "Authorization" a c made
              ∙ last_given-none "Authorization" (given_headers env (lookup "headers" inputs)) _
                  given in
            (r, tok, there, got, found ∙ put)
      ]
