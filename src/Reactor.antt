-- ===== src/Reactor.antt =====
-- pkg/reactor/reactor.go: providers and their registry, and the resolution of a reactor's inputs.
-- The CEL library, os.ReadFile, os.Getenv and the rendering of templates are the fields of
-- `Platform`. What compiles an expression returns the matcher with the new cache.
pub mod Resolution
pub mod Inputs
use Prim.Native.String
use text.Mathlib.Text.{is_le}
use event_reactor.Base.{
  map, Bool, true, false, Option, none, some, List, [], ◌∷◌, String, ◌==◌, if◌then◌else◌,
}
use event_reactor.Base.Dict.{Dict, lookup, insert, is_empty}
use event_reactor.Base.Result.{Result, ok, err, ◌>>=◌, map_err}
use event_reactor.Base.Value.{Value, str, Fields}
use event_reactor.Message.{Event, as_map}
use event_reactor.Config.{ReactorConfig}
use event_reactor.Config.Input
use event_reactor.Config.Input.{InputValue, SecretKeyRef}
use event_reactor.Matcher.{Cel, Matcher, MatcherError, compile}
use event_reactor.Auth.{AuthError}

-- The value that a context carries under authHeaderKey{}.
pub record Context : Type 0 where
  pub header_value : Option String

unfoldable pub with_auth_header : Context → String → Context
with_auth_header ctx header = record ctx { header_value = some header }

unfoldable pub auth_header : Context → Option String
auth_header ctx = elim ctx.header_value [
  | none ↦ none
  | some v ↦ if is_empty v then none else some v
]

pub data ResolveError : Type 0 where
  secret_not_implemented : SecretKeyRef → ResolveError
  no_path_matched : List String → ResolveError
  reading_file : String → String → ResolveError
  compiling_cel : String → MatcherError → ResolveError
  evaluating_cel : String → String → ResolveError
  rendering : String → ResolveError
  resolving_input : String → String → ResolveError → ResolveError

-- The `Error` of a result, by the call that sets it; `reported` is one that a provider set itself.
pub data ReactionError : Type 0 where
  resolving_inputs : ResolveError → ReactionError
  no_auth_registry : String → String → ReactionError
  auth_token : AuthError → ReactionError
  provider_lookup execution reported : String → ReactionError

-- `Result`. The empty `Error` is `none`.
pub record ReactorResult : Type 0 where
  pub provider : String
  pub reactor_name : String
  pub output : Value
  pub error : Option ReactionError

-- `Provider`. `Execute` returns a pointer and an error, and either may be nil.
pub record Provider : Type 0 where
  pub name : String
  pub execute : Context → Dict Value → Event → Option ReactorResult × Option String

pub record Registry : Type 0 where
  pub providers : Dict Provider

unfoldable pub new_registry : Registry
new_registry = record { providers = [] }

unfoldable pub register : Registry → Provider → Registry
register r p = record r { providers = insert p.name p r.providers }

unfoldable pub get : Registry → String → Result ReactionError Provider
get r name = elim (lookup name r.providers) [ none ↦ err (provider_lookup name) | some p ↦ ok p ]

-- Go's order of texts, by their bytes, which is that of their code points.
abbrev pub before : String → String → Bool
before a b = is_le (String.compare a b)

-- sort.Strings, by insertion
unfoldable pub sort_in : String → List String → List String
sort_in n [] = n ∷ []
sort_in n (k ∷ ks) = let rest = sort_in n ks in if before n k then n ∷ k ∷ ks else k ∷ rest

unfoldable pub sort_names : List String → List String
sort_names [] = []
sort_names (n ∷ ns) = sort_in n (sort_names ns)

-- `Providers`
unfoldable pub provider_names : Registry → List String
provider_names r = sort_names (map (λ e. e.0) r.providers)

pub record Platform : Type 1 where
  pub cel : Cel
  pub read_file : String → Result String String
  pub getenv : String → String
  -- ertmpl.Render
  pub render : String → Fields → Result String String

module _ (pf : Platform) where
  abbrev pub Cache : Type 0
  Cache = Matcher pf.cel

  -- The last lines of `evalCELValue`, on the program that `Compile` returned.
  unfoldable pub run_value :
      String → Fields → Result MatcherError pf.cel.Program → Result ResolveError Value
  run_value expr view compiled = do
    prg ← map_err (compiling_cel expr) compiled
    out ← map_err (evaluating_cel expr) (pf.cel.eval prg view)
    ok (pf.cel.native out)

  unfoldable pub eval_cel_value : String → Fields → Cache → Result ResolveError Value × Cache
  eval_cel_value expr view m =
      let (compiled, m') = compile pf.cel expr m in (run_value expr view compiled, m')

  -- The loop over the payload paths: the first one that evaluates.
  unfoldable pub first_path : List String → Fields → Cache → Option Value × Cache
  first_path [] view m = (none, m)
  first_path (path ∷ paths) view m =
      let (r, m') = eval_cel_value path view m in
      elim r [ ok val ↦ (some val, m') | err _ ↦ first_path paths view m' ]

  unfoldable pub path_result : List String → Option Value → Result ResolveError Value
  path_result paths none = err (no_path_matched paths)
  path_result paths (some val) = ok val

  -- `resolveInput` from the test for a CEL expression on, from the test for a file on, and whole.
  unfoldable pub resolve_text : InputValue → Event → Cache → Result ResolveError Value × Cache
  resolve_text iv event m =
      if is_empty (Input.expr iv)
      then (
        if is_empty (Input.template iv) then ok (Input.static_value iv) else (do
          text ← map_err rendering (pf.render (Input.template iv) (as_map event))
          ok (str text)),
        m,
      )
      else eval_cel_value (Input.expr iv) (as_map event) m

  unfoldable pub resolve_stored : InputValue → Event → Cache → Result ResolveError Value × Cache
  resolve_stored iv event m =
      if is_empty (Input.file_path iv)
      then if is_empty (Input.env_var iv)
        then resolve_text iv event m
        else (ok (str (pf.getenv (Input.env_var iv))), m)
      else (
        do
          text ← map_err (reading_file (Input.file_path iv)) (pf.read_file (Input.file_path iv))
          ok (str text),
        m,
      )

  unfoldable pub resolve_paths :
      List String → InputValue → Event → Cache → Result ResolveError Value × Cache
  resolve_paths [] iv event m = resolve_stored iv event m
  resolve_paths (p ∷ ps) iv event m =
      let (found, m') = first_path (p ∷ ps) (as_map event) m in (path_result (p ∷ ps) found, m')

  unfoldable pub resolve_input : InputValue → Event → Cache → Result ResolveError Value × Cache
  resolve_input iv event m = elim (Input.secret_ref iv) [
    | some ref ↦ (err (secret_not_implemented ref), m)
    | none ↦ resolve_paths (Input.payload_paths iv) iv event m
  ]

  -- The loop of `ResolveInputs` over the entries left, in the order in which the map gives them.
  unfoldable pub resolve_entries :
      String
      → Dict InputValue
      → Event
      → Dict Value
      → Cache
      → Result ResolveError (Dict Value) × Cache
  resolve_entries name [] event resolved m = (ok resolved, m)
  resolve_entries name ((key, iv) ∷ rest) event resolved m =
      let (r, m') = resolve_input iv event m in
      elim r [
        | err e ↦ (err (resolving_input key name e), m')
        | ok val ↦ resolve_entries name rest event (insert key val resolved) m'
      ]

  unfoldable pub resolve_inputs :
      ReactorConfig → Event → Cache → Result ResolveError (Dict Value) × Cache
  resolve_inputs cfg event m = resolve_entries cfg.name cfg.inputs event [] m
