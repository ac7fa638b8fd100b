-- ===== src/Mcp.antt =====
-- pkg/mcp/stdio.go: the JSON-RPC loop over the lines of an input, and `CallTool` of
-- pkg/mcp/mcp.go. The reading and writing of JSON, the tools themselves, the scanner and the output
-- are parameters; the list of the tools, which is constant and stands in
-- Mcp/Listing, is the constructor `tools`.
pub mod Serving
pub mod Replies
pub mod Tools
pub mod Listing
pub mod Schema
pub mod Command
use event_reactor.Base.{
  ℕ, suc, Bool, true, false, Option, none, some, List, [], ◌∷◌, ◌++◌, String, ◌==◌, if◌then◌else◌,
}
use event_reactor.Base.Int.{ℤ, negsuc}
use event_reactor.Base.Dict.{Dict, lookup, is_empty}
use event_reactor.Base.Result.{Result, ok, err}
use event_reactor.Base.Text.{◌<>◌}
use event_reactor.Base.Value.{Value, Fields}

-- JSONRPCRequest; `params` is the raw JSON.
pub record Request : Type 0 where
  pub id : Value
  pub method : String
  pub params : String

pub record CallToolParams : Type 0 where
  pub name : String
  pub arguments : Fields

-- ToolResult: its text, and whether it is an error.
pub record ToolResult : Type 0 where
  pub text : String
  pub is_error : Bool

-- What a response carries as its result.
pub data Payload : Type 0 where
  initialized : (version : String) → Payload
  tools : Payload
  called : ToolResult → Payload
  pong : Payload

pub record RpcError : Type 0 where
  pub code : ℤ
  pub message : String

-- JSONRPCResponse: either its `Error` or its `Result` is set.
pub record Response : Type 0 where
  pub id : Value
  pub outcome : Result RpcError Payload

-- -32602 and -32601
abbrev pub invalid_params : String → RpcError
invalid_params e = record { code = negsuc 32601; message = "invalid params: " <> e }

abbrev pub method_not_found : String → RpcError
method_not_found m = record { code = negsuc 32600; message = "method not found: " <> m }

unfoldable pub call_tool : Dict (Fields → ToolResult) → String → Fields → ToolResult
call_tool handlers name args = elim (lookup name handlers) [
  | none ↦ record { text = "unknown tool: " <> name; is_error = true }
  | some handler ↦ handler args
]

-- What the server is started with, and the JSON library.
pub record Setting : Type 0 where
  pub version : String
  pub handlers : Dict (Fields → ToolResult)
  pub read_params : String → Result String CallToolParams
  pub read_request : String → Result String Request
  pub write_response : Response → Result String String

unfoldable pub handle_call : Setting → Request → Result RpcError Payload
handle_call st req = elim (st.read_params req.params) [
  | err e ↦ err (invalid_params e)
  | ok params ↦ ok (called (call_tool st.handlers params.name params.arguments))
]

abbrev pub response : Value → Result RpcError Payload → Option Response
response id o = some (record { id = id; outcome = o })

unfoldable pub handle_request : Setting → Request → Option Response
handle_request st req =
    if req.method == "initialize"
    then response req.id (ok (initialized st.version))
    else if req.method == "notifications/initialized"
    then none
    else if req.method == "tools/list"
    then response req.id (ok tools)
    else if req.method == "tools/call"
    then response req.id (handle_call st req)
    else if req.method == "ping"
    then response req.id (ok pong)
    else response req.id (err (method_not_found req.method))

-- The line that answers a line, if the loop writes one for it.
unfoldable pub answer : Setting → String → Option String
answer st line = if is_empty line then none else elim (st.read_request line) [
  | err e ↦ none
  | ok req ↦ elim (handle_request st req) [
    | none ↦ none
    | some resp ↦ elim (st.write_response resp) [ err e ↦ none | ok text ↦ some text ]
  ]
]

pub data ServeError : Type 0 where
  ended scanning writing : String → ServeError

pub record Served : Type 0 where
  pub output : List String
  pub error : Option ServeError

abbrev pub served : List String → Option ServeError → Served
served out e = record { output = out; error = e }

-- `done i` is the error of a context that has ended when line `i` is read, `write` that of writing a
-- line after those written so far, and `last` that of the scanner at the end.
module _ (st : Setting) (done : ℕ → Option String) (write : List String → String → Option String)
    (last : Option ServeError) where
  unfoldable pub serve_from : ℕ → List String → List String → Served
  serve_from i [] out = served out last
  serve_from i (line ∷ lines) out = elim (done i) [
    | some e ↦ served out (some (ended e))
    | none ↦ elim (answer st line) [
      | none ↦ serve_from (suc i) lines out
      | some text ↦ elim (write out text) [
        | some e ↦ served out (some (writing e))
        | none ↦ serve_from (suc i) lines (out ++ (text ∷ []))
      ]
    ]
  ]

  -- `ServeStdio`
  unfoldable pub serve : List String → Served
  serve lines = serve_from 0 lines []
