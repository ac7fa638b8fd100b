-- ===== src/Reactor/Resolution.antt =====
-- pkg/reactor/reactor.go: which of an input's sources decides its value.
use event_reactor.Base.{
  Option, none, some, List, [], ◌∷◌, String, if◌then◌else◌, ◌≡◌, refl, ap, arith,
}
use event_reactor.Base.Dict.{is_empty}
use event_reactor.Base.Result.{Result, ok, err, ◌>>=◌, map_err}
use event_reactor.Base.Value.{Value, str}
use event_reactor.Message.{Event, as_map}
use event_reactor.Config.Input
use event_reactor.Config.Input.{InputValue, SecretKeyRef}
use event_reactor.Matcher.{build}
use event_reactor.Matcher.Cache.{IsFaithful, compile-eq-build}
use event_reactor.Reactor.{
  Platform, Cache, ResolveError, secret_not_implemented, reading_file, rendering, run_value,
  eval_cel_value, first_path, path_result, resolve_text, resolve_stored, resolve_paths,
  resolve_input,
}

-- The sources from which an input may be resolved.
pub data Source : Type 0 where
  secret : SecretKeyRef → Source
  payload : List String → Source
  file env cel_expr go_template : String → Source
  static : Value → Source

abbrev pub if_set : (String → Source) → String → Option Source
if_set source s = if is_empty s then none else some (source s)

abbrev if_paths : List String → Option Source
if_paths [] = none
if_paths (p ∷ ps) = some (payload (p ∷ ps))

abbrev if_secret : Option SecretKeyRef → Option Source
if_secret none = none
if_secret (some ref) = some (secret ref)

-- The sources that an input names, highest priority first.
abbrev pub candidates : InputValue → List (Option Source)
candidates iv =
    if_secret (Input.secret_ref iv)
    ∷ if_paths (Input.payload_paths iv)
    ∷ if_set file (Input.file_path iv)
    ∷ if_set env (Input.env_var iv)
    ∷ if_set cel_expr (Input.expr iv)
    ∷ if_set go_template (Input.template iv)
    ∷ []

abbrev pub first_of_all : Source → List (Option Source) → Source
first_of_all dflt [] = dflt
first_of_all dflt (none ∷ more) = first_of_all dflt more
first_of_all dflt (some s ∷ more) = s

-- The source that decides: the first that is named, and the static value where none is.
abbrev pub source_of : InputValue → Source
source_of iv = first_of_all (static (Input.static_value iv)) (candidates iv)

module _ (pf : Platform) where
  abbrev pub IsFaithfulCache : Cache pf → Type 0
  IsFaithfulCache = IsFaithful pf.cel

  -- The value of an expression, compiled anew.
  abbrev pub cel_value : String → Event → Result ResolveError Value
  cel_value expr event = run_value pf expr (as_map event) (build pf.cel expr)

  -- The first path that has a value.
  abbrev pub path_value : List String → Event → Option Value
  path_value [] event = none
  path_value (p ∷ ps) event = elim (cel_value p event) [
    | ok v ↦ some v
    | err _ ↦ path_value ps event
  ]

  -- The value that a source gives for an event.
  abbrev pub fetch : Source → Event → Result ResolveError Value
  fetch (secret ref) event = err (secret_not_implemented ref)
  fetch (payload paths) event = path_result pf paths (path_value paths event)
  fetch (file path) event = do text ← map_err (reading_file path) (pf.read_file path); ok (str text)
  fetch (env name) event = ok (str (pf.getenv name))
  fetch (cel_expr expr) event = cel_value expr event
  fetch (go_template tmpl) event = do
    text ← map_err rendering (pf.render tmpl (as_map event))
    ok (str text)
  fetch (static v) event = ok v

  eval_cel_value-eq :
      (expr : String) (event : Event) (m : Cache pf)
      → IsFaithfulCache m
      → ((eval_cel_value pf expr (as_map event) m).0 ≡ cel_value expr event)
        × IsFaithfulCache (eval_cel_value pf expr (as_map event) m).1
  unfolding eval_cel_value
  eval_cel_value-eq expr event m h =
      let c = compile-eq-build pf.cel expr m h in (ap (run_value pf expr (as_map event)) c.0, c.1)

  first_path-eq :
      (paths : List String) (event : Event) (m : Cache pf)
      → IsFaithfulCache m
      → ((first_path pf paths (as_map event) m).0 ≡ path_value paths event)
        × IsFaithfulCache (first_path pf paths (as_map event) m).1
  unfolding first_path
  first_path-eq [] event m h = (refl, h)
  first_path-eq (p ∷ ps) event m h = ground (
    arith,
    eval_cel_value-eq p event m h,
    first_path-eq ps event (eval_cel_value pf p (as_map event) m).1,
  )

  -- On a faithful cache `resolveInput` gives the value of the first source that the input
  -- names, of the secret, the payload paths, the file, the environment variable, the CEL
  -- expression and the template in this order, and its static value where it names none; the
  -- cache stays faithful.
  pub resolve_input-eq-fetch :
      (iv : InputValue) (event : Event) (m : Cache pf)
      → IsFaithfulCache m
      → ((resolve_input pf iv event m).0 ≡ fetch (source_of iv) event)
        × IsFaithfulCache (resolve_input pf iv event m).1
  unfolding resolve_input resolve_paths resolve_stored resolve_text
  resolve_input-eq-fetch iv event m h = ground (
    arith,
    first_path-eq (Input.payload_paths iv) event m h,
    eval_cel_value-eq (Input.expr iv) event m h,
  )
