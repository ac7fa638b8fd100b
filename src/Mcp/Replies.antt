-- ===== src/Mcp/Replies.antt =====
-- pkg/mcp/stdio.go: which requests get a response, and which one.
use event_reactor.Base.{some, ◌≡◌, ◌≢◌, ◌↔◌, arith, eq_iff, Option-cases, inl, inr}
use event_reactor.Base.Result.{err}
use event_reactor.Mcp.{Setting, Request, Response, method_not_found, handle_call, handle_request}

-- Every request but "notifications/initialized" gets a response, any other notification included. It
-- has the id of the request, and it says that the method is not found, with its name, exactly for a
-- method that is none of the four that are served.
pub handle_request_replies :
    (st : Setting) (req : Request)
    → req.method ≢ "notifications/initialized"
    → (resp : Response) × (handle_request st req ≡ some resp)
      × (resp.id ≡ req.id)
      × ((resp.outcome ≡ err (method_not_found req.method)) ↔ (
          (req.method ≢ "initialize")
          × (req.method ≢ "tools/list")
          × (req.method ≢ "tools/call")
          × (req.method ≢ "ping")))
unfolding handle_request handle_call
handle_request_replies st req h = elim (Option-cases (handle_request st req)) [
  | inl e ↦ absurd (ground (arith, eq_iff req.method "notifications/initialized"))
  | inr (resp, e) ↦ (
    resp,
    e,
    ground arith,
    ground (
      arith,
      eq_iff req.method "initialize",
      eq_iff req.method "notifications/initialized",
      eq_iff req.method "tools/list",
      eq_iff req.method "tools/call",
      eq_iff req.method "ping",
    ),
  )
]
