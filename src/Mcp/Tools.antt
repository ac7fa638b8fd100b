-- ===== src/Mcp/Tools.antt =====
-- pkg/mcp/mcp.go: the tools. A tool's error and its report stand for the texts that it formats, which
-- the functions `explain` and `show` give; the JSON of a list or a map is written by encoding/json.
use event_reactor.Base.{ℕ, true, false, Option, some, List, [], ◌∷◌, length, String, if◌then◌else◌}
use event_reactor.Base.Dict.{Dict, lookup}
use event_reactor.Base.Result.{Result, ok, err, ◌>>=◌, map_err}
use event_reactor.Base.Value.{Value, str, object, Fields, entries}
use event_reactor.Message.{Event, MessageError, as_map, from_generic_payload}
use event_reactor.Config.{ServerConfig, ReactorConfig, ConfigError, parse}
use event_reactor.Matcher
use event_reactor.Matcher.{MatcherError, match}
use event_reactor.Reactor.{Platform, Cache, Registry, ResolveError, resolve_inputs, provider_names}
use event_reactor.Server.{precompile}
use event_reactor.Cli.{Tools, find_reactor, found}
use event_reactor.Mcp.{ToolResult}

pub data ToolError : Type 0 where
  must_be_text must_be_object : (argument : String) → ToolError
  invalid_config : ConfigError → ToolError
  invalid_event : MessageError → ToolError
  no_matcher : MatcherError → ToolError
  invalid_cel : (name : String) → MatcherError → ToolError
  expression_error match_error : MatcherError → ToolError
  template_error : String → ToolError
  reactor_not_found : (name : String) → ToolError
  resolution_error : ResolveError → ToolError

pub data Report : Type 0 where
  no_providers : Report
  providers : List String → Report
  config_valid : (listeners reactors : ℕ) → Report
  event_matches event_does_not_match reactor_does_not_match : Report
  rendered : String → Report
  resolved : (name provider : String) → Dict Value → Report
  sources : Report

-- errorResult and textResult
abbrev pub tool_result :
    (ToolError → String) → (Report → String) → Result ToolError Report → ToolResult
tool_result explain show (err e) = record { text = explain e; is_error = true }
tool_result explain show (ok r) = record { text = show r; is_error = false }

abbrev pub as_text : String → Option Value → Result ToolError String
as_text name (some (str s)) = ok s
as_text name _ = err (must_be_text name)

abbrev pub as_object : String → Option Value → Result ToolError Fields
as_object name (some (object fs)) = ok fs
as_object name _ = err (must_be_object name)

abbrev pub text_arg : String → Fields → Result ToolError String
text_arg name args = as_text name (lookup name (entries args))

abbrev pub object_arg : String → Fields → Result ToolError Fields
object_arg name args = as_object name (lookup name (entries args))

unfoldable pub list_providers : Registry → Report
list_providers reg = elim (provider_names reg) [ [] ↦ no_providers | n ∷ ns ↦ providers (n ∷ ns) ]

abbrev pub list_event_sources : Report
list_event_sources = sources

module _ (pf : Platform) (tl : Tools) where
  abbrev pub new_matcher : Result ToolError (Cache pf)
  new_matcher = map_err no_matcher (Matcher.new pf.cel tl.new_env)

  abbrev pub read_config : String → Result ToolError ServerConfig
  read_config text = map_err invalid_config (parse tl.unmarshal (tl.codec.utf8 text))

  abbrev pub read_event : Fields → Result ToolError Event
  read_event fs = map_err invalid_event (from_generic_payload tl.codec tl.now (object fs))

  unfoldable pub validate_config : Fields → Result ToolError Report
  validate_config args = do
    text ← text_arg "config" args
    cfg ← read_config text
    m ← new_matcher
    u ← (precompile pf invalid_cel cfg.reactors m).0
    ok (config_valid (length cfg.listeners) (length cfg.reactors))

  unfoldable pub test_cel_expression : Fields → Result ToolError Report
  test_cel_expression args = do
    expr ← text_arg "expression" args
    fs ← object_arg "event" args
    event ← read_event fs
    m ← new_matcher
    matched ← map_err expression_error (match pf.cel expr event m).0
    ok (if matched then event_matches else event_does_not_match)

  unfoldable pub render_template : Fields → Result ToolError Report
  render_template args = do
    tmpl ← text_arg "template" args
    fs ← object_arg "event" args
    event ← read_event fs
    text ← map_err template_error (pf.render tmpl (as_map event))
    ok (rendered text)

  -- `testReactor` from the test of the match on.
  unfoldable pub try_reactor : ReactorConfig → Event → Cache pf → Result ToolError Report
  try_reactor rc event m =
      let (r, m') = match pf.cel rc.match event m in
      elim r [
        | err e ↦ err (match_error e)
        | ok false ↦ ok reactor_does_not_match
        | ok true ↦ elim (resolve_inputs pf rc event m').0 [
          | err e ↦ err (resolution_error e)
          | ok inputs ↦ ok (resolved rc.name rc.provider inputs)
        ]
      ]

  unfoldable pub test_reactor : Fields → Result ToolError Report
  test_reactor args = do
    text ← text_arg "config" args
    name ← text_arg "reactor" args
    fs ← object_arg "event" args
    cfg ← read_config text
    event ← read_event fs
    m ← new_matcher
    rc ← found (reactor_not_found name) (find_reactor name cfg.reactors)
    try_reactor rc event m

  -- `New`: the tools by their names.
  unfoldable pub tools :
      (ToolError → String) → (Report → String) → Registry → Dict (Fields → ToolResult)
  tools explain show reg =
      let text = tool_result explain show in
      ("list_providers", λ args. text (ok (list_providers reg)))
      ∷ ("validate_config", λ args. text (validate_config args))
      ∷ ("test_cel_expression", λ args. text (test_cel_expression args))
      ∷ ("render_template", λ args. text (render_template args))
      ∷ ("test_reactor", λ args. text (test_reactor args))
      ∷ ("list_event_sources", λ args. text (ok list_event_sources))
      ∷ []
