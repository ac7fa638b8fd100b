-- ===== src/Cli/Agreement.antt =====
-- pkg/cmd/test.go and pkg/mcp/mcp.go: the command and the tool that test a reactor.
use event_reactor.Base.{
  Option, ◌↔◌, ◌⊎◌, subst, true, none, some, [], ◌∷◌, String, ◌≡◌, refl, sym, ◌∙◌, ap, inl, inr,
  Bool-cases, Option-cases,
}
use event_reactor.Base.Dict.{Dict, lookup}
use event_reactor.Base.Result.{Result, ok, err, ◌>>=◌, map_err, Result-cases}
use event_reactor.Base.Value.{Value, str, object, Fields, entries, Bytes}
use event_reactor.Message.{Event, MessageError, from_generic_payload}
use event_reactor.Config.{ServerConfig, ReactorConfig, ConfigError, load, parse}
use event_reactor.Matcher
use event_reactor.Matcher.{match}
use event_reactor.Reactor.{Platform, Cache, resolve_inputs}
use event_reactor.Cli.{
  Tools, CliError, loading, invalid_event, no_matcher, evaluating, not_found, resolving,
  event_matches, event_does_not_match, inputs, encoding, encoded, Printed, find_reactor, found,
  load_event_file, new_matcher, prepare, try_reactor, test_reactor,
}
use event_reactor.Mcp.Tools as Mcp
use event_reactor.Mcp.Tools.{ToolError, Report}

module _ (pf : Platform) (tl : Tools) where
  -- What `er test reactor` prints and returns for an answer of the tool "test_reactor"; none for inputs
  -- that it cannot print as JSON, and for what only other tools answer.
  abbrev pub as_printed : Result ToolError Report → Option (Printed pf tl)
  as_printed (ok (Report.resolved n p given)) = elim (tl.encode given) [
    | none ↦ some (event_matches ∷ inputs given ∷ [], none)
    | some e ↦ none
  ]
  as_printed (ok Report.reactor_does_not_match) = some (event_does_not_match ∷ [], none)
  as_printed (ok _) = none
  as_printed (err (ToolError.invalid_config e)) = some ([], some (loading e))
  as_printed (err (ToolError.invalid_event e)) = some ([], some (invalid_event e))
  as_printed (err (ToolError.no_matcher e)) = some ([], some (no_matcher e))
  as_printed (err (ToolError.reactor_not_found n)) = some ([], some (not_found n))
  as_printed (err (ToolError.match_error e)) = some ([], some (evaluating e))
  as_printed (err (ToolError.resolution_error e)) = some (event_matches ∷ [], some (resolving e))
  as_printed (err _) = none

  abbrev pub IsOk : Result ToolError Report → Type 0
  IsOk (ok r) = Unit
  IsOk (err e) = ⊥

  -- Both say the same, and both or neither fail.
  abbrev pub SaysTheSame : Printed pf tl → Result ToolError Report → Type 0
  SaysTheSame printed answer =
      (as_printed answer ≡ some printed) × ((printed.1 ≡ none) ↔ IsOk answer)

  -- The inputs are resolved and have no JSON; the command fails, and the tool does not.
  abbrev pub Differs : Printed pf tl → Result ToolError Report → Type 0
  Differs printed answer =
      (n p : String) × (given : Dict Value) × (e : String) × (answer
        ≡ ok (Report.resolved n p given))
      × (tl.encode given ≡ some e)
      × (printed ≡ (event_matches ∷ [], some (encoding e)))

  abbrev pub Agrees : Printed pf tl → Result ToolError Report → Type 0
  Agrees printed answer = SaysTheSame printed answer ⊎ Differs printed answer

  resolved-Agrees :
      (n p : String) (given : Dict Value)
      → Agrees (encoded pf tl given (tl.encode given)) (ok (Report.resolved n p given))
  resolved-Agrees n p given = elim (Option-cases (tl.encode given)) [
    | inl fine ↦ inl (rw (fine, as_printed) refl, (λ h. tt, λ h. rw (fine, encoded) refl))
    | inr (e, bad) ↦ inr (n, p, given, e, refl, bad, rw (bad, encoded) refl)
  ]

  try_reactor-Agrees :
      (rc : ReactorConfig) (event : Event) (m : Cache pf)
      → Agrees (try_reactor pf tl true rc event m) (Mcp.try_reactor pf tl rc event m)
  unfolding try_reactor Mcp.try_reactor
  try_reactor-Agrees rc event m = elim (Result-cases (match pf.cel rc.match event m).0) [
    | inr (x, bad) ↦ rw (bad, try_reactor, Mcp.try_reactor) (inl (refl, (λ h. cc, λ h. absurd h)))
    | inl (b, good) ↦ elim (Bool-cases b) [
      | inr other ↦
          rw (good, try_reactor, Mcp.try_reactor, other) (inl (refl, (λ h. tt, λ h. refl)))
      | inl matched ↦
          elim (Result-cases (resolve_inputs pf rc event (match pf.cel rc.match event m).1).0) [
            | inl (given, fine) ↦
                rw (good, try_reactor, Mcp.try_reactor, matched, fine)
                  (resolved-Agrees rc.name rc.provider given)
            | inr (e, wrong) ↦
                rw (good, try_reactor, Mcp.try_reactor, matched, wrong)
                  (inl (refl, (λ h. cc, λ h. absurd h)))
          ]
    ]
  ]

  load-parse :
      (path : String) (bytes : Bytes)
      → tl.read_bytes path ≡ ok bytes
      → load tl.unmarshal tl.read_bytes path ≡ parse tl.unmarshal bytes
  unfolding load
  load-parse path bytes e = rw (e, load) refl

  -- The two commands on what they have read.
  run_prepared : Result CliError (ReactorConfig × Event × Cache pf) → Printed pf tl
  run_prepared (err e) = ([], some e)
  run_prepared (ok (rc, event, m)) = try_reactor pf tl true rc event m

  prepare_from :
      String
      → Result ConfigError ServerConfig
      → Result MessageError Event
      → Result Matcher.MatcherError (Cache pf)
      → Result CliError (ReactorConfig × Event × Cache pf)
  prepare_from name cfg? event? m? = do
    cfg ← map_err loading cfg?
    event ← map_err invalid_event event?
    m ← map_err no_matcher m?
    rc ← found (not_found name) (find_reactor name cfg.reactors)
    ok (rc, event, m)

  answer_from :
      String
      → Result ConfigError ServerConfig
      → Result MessageError Event
      → Result Matcher.MatcherError (Cache pf)
      → Result ToolError Report
  answer_from name cfg? event? m? = do
    cfg ← map_err ToolError.invalid_config cfg?
    event ← map_err ToolError.invalid_event event?
    m ← map_err ToolError.no_matcher m?
    rc ← found (ToolError.reactor_not_found name) (find_reactor name cfg.reactors)
    Mcp.try_reactor pf tl rc event m

  same_answer :
      (name : String) (cfg? : Result ConfigError ServerConfig) (event? : Result MessageError Event)
      (m? : Result Matcher.MatcherError (Cache pf))
      → Agrees (run_prepared (prepare_from name cfg? event? m?)) (answer_from name cfg? event? m?)
  unfolding run_prepared prepare_from answer_from
  same_answer name (err e) event? m? = inl (refl, (λ h. cc, λ h. absurd h))
  same_answer name (ok cfg) (err e) m? = inl (refl, (λ h. cc, λ h. absurd h))
  same_answer name (ok cfg) (ok event) (err e) = inl (refl, (λ h. cc, λ h. absurd h))
  same_answer name (ok cfg) (ok event) (ok m) =
      elim (Option-cases (find_reactor name cfg.reactors)) [
        | inl missing ↦ rw missing (inl (refl, (λ h. cc, λ h. absurd h)))
        | inr (rc, present) ↦ rw present (try_reactor-Agrees rc event m)
      ]

  load_event_file-eq :
      (path : String) (bytes : Bytes) (fs : Fields)
      → tl.read_bytes path ≡ ok bytes
      → tl.codec.unmarshal bytes ≡ ok fs
      → load_event_file pf tl path
        ≡ map_err invalid_event (from_generic_payload tl.codec tl.now (object fs))
  unfolding load_event_file
  load_event_file-eq path bytes fs v u = rw (v, u) refl

  prepare-eq :
      (config_file event_file text name : String) (bytes : Bytes) (fs : Fields)
      → tl.read_bytes config_file ≡ ok (tl.codec.utf8 text)
      → tl.read_bytes event_file ≡ ok bytes
      → tl.codec.unmarshal bytes ≡ ok fs
      → prepare pf tl config_file event_file name
        ≡ prepare_from name
            (parse tl.unmarshal (tl.codec.utf8 text))
            (from_generic_payload tl.codec tl.now (object fs))
            (Matcher.new pf.cel tl.new_env)
  unfolding prepare prepare_from new_matcher
  prepare-eq config_file event_file text name bytes fs c v u =
      rw (load-parse config_file (tl.codec.utf8 text) c, load_event_file-eq event_file bytes fs v u)
        refl

  test_reactor-eq :
      (config_file event_file name : String)
      → test_reactor pf tl true config_file event_file name
        ≡ run_prepared (prepare pf tl config_file event_file name)
  unfolding test_reactor run_prepared
  test_reactor-eq config_file event_file name =
      elim (Result-cases (prepare pf tl config_file event_file name)) [
        | inl ((rc, event, m), good) ↦ rw (good, test_reactor, run_prepared) refl
        | inr (e, bad) ↦ rw (bad, test_reactor, run_prepared) refl
      ]

  mcp_test_reactor-eq :
      (text name : String) (fs args : Fields)
      → lookup "config" (entries args) ≡ some (str text)
      → lookup "reactor" (entries args) ≡ some (str name)
      → lookup "event" (entries args) ≡ some (object fs)
      → Mcp.test_reactor pf tl args
        ≡ answer_from name
            (parse tl.unmarshal (tl.codec.utf8 text))
            (from_generic_payload tl.codec tl.now (object fs))
            (Matcher.new pf.cel tl.new_env)
  unfolding Mcp.test_reactor answer_from
  mcp_test_reactor-eq text name fs args a1 a2 a3 = rw (a1, a2, a3) refl

  -- For the same configuration, reactor and event, the former as texts and objects and the latter in
  -- files, `er test reactor` prints and returns what the tool "test_reactor" answers, and fails exactly
  -- if the tool does; but where the inputs are resolved and encoding/json refuses them, the command
  -- fails with that error and the tool answers without one.
  pub test_reactor-Agrees :
      (config_file event_file text name : String) (bytes : Bytes) (fs args : Fields)
      → tl.read_bytes config_file ≡ ok (tl.codec.utf8 text)
      → tl.read_bytes event_file ≡ ok bytes
      → tl.codec.unmarshal bytes ≡ ok fs
      → lookup "config" (entries args) ≡ some (str text)
      → lookup "reactor" (entries args) ≡ some (str name)
      → lookup "event" (entries args) ≡ some (object fs)
      → Agrees (test_reactor pf tl true config_file event_file name) (Mcp.test_reactor pf tl args)
  test_reactor-Agrees config_file event_file text name bytes fs args c v u a1 a2 a3 =
      subst (λ p. Agrees p (Mcp.test_reactor pf tl args))
        (sym (
          test_reactor-eq config_file event_file name
          ∙ ap run_prepared (prepare-eq config_file event_file text name bytes fs c v u)))
        (subst (Agrees _) (sym (mcp_test_reactor-eq text name fs args a1 a2 a3))
          (same_answer name _ _ _))
