-- ===== src/Tests/Stdio.antt =====
-- pkg/mcp/stdio.go on two lines, and pkg/mcp/mcp.go on one call.
use event_reactor.Base.{some, [], String, ◌==◌, if◌then◌else◌, ◌≡◌, ◌≢◌, ◌↔◌, arith, eq_iff}
use event_reactor.Base.Result.{ok, err}
use event_reactor.Base.Value.{Fields, field, end, null}
use event_reactor.Mcp.{call_tool, Setting, Request, Response, method_not_found, handle_request}
use event_reactor.Mcp.Replies.{handle_request_replies}
use event_reactor.Mcp.Tools.{tools}
use event_reactor.Mcp.Listing.{list_tools}
use event_reactor.Mcp.Schema.{Conforms, call_tool-Conforms}
use event_reactor.Tests.{platform, registry}
use event_reactor.Tests.Commands.{system}

-- A request is its method.
abbrev request : String → Request
request m = record { id = null; method = m; params = "" }

abbrev setting : Setting
setting = record {
  version = "1";
  handlers = [];
  read_params = λ s. ok (record { name = s; arguments = end });
  read_request = λ s. if s == "{" then err "bad" else ok (request s);
  write_response = λ r. ok "reply";
}

handle_request_replies_example :
    (resp : Response) × (handle_request setting (request "tools/list") ≡ some resp)
    × (resp.id ≡ null)
    × ((resp.outcome ≡ err (method_not_found "tools/list")) ↔ (
        ((request "tools/list").method ≢ "initialize")
        × ((request "tools/list").method ≢ "tools/list")
        × ((request "tools/list").method ≢ "tools/call")
        × ((request "tools/list").method ≢ "ping")))
handle_request_replies_example =
    handle_request_replies setting (request "tools/list")
      (ground (arith, eq_iff "tools/list" "notifications/initialized"))

-- A call of "validate_config" with a configuration that is no text.
abbrev wrong : Fields
wrong = field "config" null end

call_tool-Conforms_example : Conforms list_tools "validate_config" wrong (
    call_tool
      (tools platform system (λ e. "error") (λ r. "report") registry)
      "validate_config"
      wrong)
call_tool-Conforms_example =
    call_tool-Conforms platform system (λ e. "error") (λ r. "report") registry "validate_config"
      wrong
