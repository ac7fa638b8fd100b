-- ===== src/Mcp/Command.antt =====
-- pkg/cmd/root.go: `er mcp`, which serves the tools of pkg/mcp/mcp.go on the standard streams.
use event_reactor.Base.{ℕ, false, Option, List, [], ◌∷◌, String, ◌≡◌, refl}
use event_reactor.Base.Dict.{lookup, insert}
use event_reactor.Base.Result.{Result, ok}
use event_reactor.Reactor.{Platform, new_registry, provider_names, sort_names, sort_in, register}
use event_reactor.Providers.{
  Environment, register_all, echo_provider, http_provider, exec_provider, log_provider,
  smtp_provider,
}
use event_reactor.Cli.{Tools}
use event_reactor.Mcp.{
  Setting, Request, Response, CallToolParams, ServeError, Served, response, call_tool, called,
  handle_call, handle_request, serve,
}
use event_reactor.Mcp.Tools.{ToolError, Report, no_providers, providers, tools, list_providers}

-- encoding/json on the messages, and the texts of the tools.
pub record Texts : Type 0 where
  pub read_params : String → Result String CallToolParams
  pub read_request : String → Result String Request
  pub write_response : Response → Result String String
  pub explain : ToolError → String
  pub show : Report → String

module _ (pf : Platform) (tl : Tools) (tx : Texts) (version : String) where
  -- The server that `mcpCmd` makes; its registry is new.
  unfoldable pub mcp_setting : Setting
  mcp_setting = record {
    version = version;
    handlers = tools pf tl tx.explain tx.show new_registry;
    read_params = tx.read_params;
    read_request = tx.read_request;
    write_response = tx.write_response;
  }

  unfoldable pub mcp_cmd :
      (ℕ → Option String)
      → (List String → String → Option String)
      → Option ServeError
      → List String
      → Served
  mcp_cmd done write last lines = serve mcp_setting done write last lines

  -- A call of list_providers is answered that there are none, although the registry that `er run server`
  -- makes has five.
  pub mcp_setting-list_providers :
      (env : Environment) (req : Request) (params : CallToolParams)
      → req.method ≡ "tools/call"
      → tx.read_params req.params ≡ ok params
      → params.name ≡ "list_providers"
      → (handle_request mcp_setting req
          ≡ response req.id
              (ok (called (record { text = tx.show no_providers; is_error = false }))))
        × (list_providers (register_all env new_registry)
            ≡ providers ("echo" ∷ "exec" ∷ "http" ∷ "log" ∷ "smtp" ∷ []))
  unfolding mcp_setting handle_request handle_call call_tool tools list_providers register_all
      new_registry provider_names sort_names sort_in register lookup insert echo_provider
      http_provider exec_provider log_provider smtp_provider
  mcp_setting-list_providers env req params m r n =
      (rw (m, r, n, handle_request, handle_call, call_tool) refl, refl)
