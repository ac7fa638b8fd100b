-- ===== src/Providers/Headers.antt =====
-- pkg/reactor/providers/providers.go: the headers of the request that the http provider sends.
use event_reactor.Base.{
  Option, none, some, [], ◌∷◌, String, ◌==◌, if◌then◌else◌, ◌≡◌, refl, ◌∙◌, ap, arith, eq_iff,
}
use event_reactor.Base.Dict.{Dict, lookup, insert, lookup-insert, lookup-nil}
use event_reactor.Base.Result.{ok}
use event_reactor.Base.Value.{Value}
use event_reactor.Reactor.{Context, auth_header}
use event_reactor.Providers.{
  Environment, HttpRequest, text?, set_content_type, set_authorization, set_all, given_headers,
  request_headers, build_request,
}

other_name :
    (o : Option String)
    → ◌≡◌ {A = Option String} (if "Authorization" == "Content-Type" then o else none) none
other_name o = refl

module _ (env : Environment) where
  -- The last of the given headers whose canonical name is this one, or what there was.
  abbrev pub last_given : String → Dict Value → Option String → Option String
  last_given name [] old = old
  last_given name ((key, val) ∷ rest) old =
      last_given name rest (if env.canonical key == name then some (env.sprint val) else old)

  lookup-set_all :
      (name : String) (given : Dict Value) (headers : Dict String)
      → lookup name (set_all env given headers) ≡ last_given name given (lookup name headers)
  unfolding set_all
  lookup-set_all name [] headers = refl
  lookup-set_all name ((key, val) ∷ rest) headers =
      lookup-set_all name rest (insert (env.canonical key) (env.sprint val) headers)
      ∙ ap (last_given name rest) (lookup-insert (env.canonical key) name (env.sprint val) headers)

  -- The content type where "headers" does not give one.
  abbrev pub content_type : Option String → Option String → Option String
  content_type (some type) body = some type
  content_type none (some body) = some "application/json"
  content_type none none = none

  -- The header of a name where "headers" does not give one.
  abbrev pub own_header : Context → Dict Value → Option String → String → Option String
  own_header ctx inputs body name =
      if name == "Authorization"
      then auth_header ctx
      else if name == "Content-Type"
      then content_type (text? (lookup "contentType" inputs)) body
      else none

  lookup-set_content_type :
      (name : String) (type body : Option String)
      → env.canonical "Content-Type" ≡ "Content-Type"
      → lookup name (set_content_type env type body [])
        ≡ (if name == "Content-Type" then content_type type body else none)
  lookup-set_content_type name (some type) body fixed = rw fixed (
      ground (
        arith,
        lookup-insert {V = String} "Content-Type" name type [],
        lookup-nil {V = String} name,
        eq_iff "Content-Type" name,
        eq_iff name "Content-Type",
      ))
  lookup-set_content_type name none (some body) fixed = rw fixed (
      ground (
        arith,
        lookup-insert {V = String} "Content-Type" name "application/json" [],
        lookup-nil {V = String} name,
        eq_iff "Content-Type" name,
        eq_iff name "Content-Type",
      ))
  lookup-set_content_type name none none fixed = ground (arith, lookup-nil {V = String} name)

  lookup-set_authorization :
      (name : String) (val : Option String) (headers : Dict String)
      → env.canonical "Authorization" ≡ "Authorization"
      → lookup "Authorization" headers ≡ none
      → lookup name (set_authorization env val headers)
        ≡ (if name == "Authorization" then val else lookup name headers)
  lookup-set_authorization name none headers fixed absent = ground (
    arith,
    eq_iff name "Authorization",
    ap (λ k. lookup k headers) {x = name} {y = "Authorization"},
  )
  lookup-set_authorization name (some val) headers fixed absent = rw fixed (
      ground (
        arith,
        lookup-insert "Authorization" name val headers,
        eq_iff "Authorization" name,
        eq_iff name "Authorization",
      ))

  request_headers-lookup :
      (ctx : Context) (inputs : Dict Value) (body : Option String) (name : String)
      → env.canonical "Authorization" ≡ "Authorization"
      → env.canonical "Content-Type" ≡ "Content-Type"
      → lookup name (request_headers env ctx inputs body)
        ≡ last_given name
            (given_headers env (lookup "headers" inputs))
            (own_header ctx inputs body name)
  unfolding request_headers
  request_headers-lookup ctx inputs body name auth type =
      let typed = set_content_type env (text? (lookup "contentType" inputs)) body [] in
      let no_auth : lookup "Authorization" typed ≡ none =
        lookup-set_content_type "Authorization" (text? (lookup "contentType" inputs)) body type
        ∙ other_name (content_type (text? (lookup "contentType" inputs)) body) in
      lookup-set_all name (given_headers env (lookup "headers" inputs)) _
      ∙ ap (last_given name (given_headers env (lookup "headers" inputs))) (
          lookup-set_authorization name (auth_header ctx) typed auth no_auth
          ∙ ap (λ o. if name == "Authorization" then auth_header ctx else o)
              (lookup-set_content_type name (text? (lookup "contentType" inputs)) body type))

  build_request-headers :
      (ctx : Context) (inputs : Dict Value) (req : HttpRequest)
      → build_request env ctx inputs ≡ ok req
      → req.headers ≡ request_headers env ctx inputs req.body
  unfolding build_request
  build_request-headers ctx inputs req e = ground arith

  -- Where the names "Authorization" and "Content-Type" are canonical: in a request that the http
  -- provider makes, a header has the last value that "headers" gives under a name with the same
  -- canonical form; where there is none, Authorization is the header of the context, Content-Type is
  -- the input or, with a body, JSON, and no other header is set.
  pub build_request-lookup :
      (ctx : Context) (inputs : Dict Value) (req : HttpRequest) (name : String)
      → env.canonical "Authorization" ≡ "Authorization"
      → env.canonical "Content-Type" ≡ "Content-Type"
      → build_request env ctx inputs ≡ ok req
      → lookup name req.headers
        ≡ last_given name
            (given_headers env (lookup "headers" inputs))
            (own_header ctx inputs req.body name)
  build_request-lookup ctx inputs req name auth type e =
      ap (lookup name) (build_request-headers ctx inputs req e)
      ∙ request_headers-lookup ctx inputs req.body name auth type
