-- ===== src/Providers/Replies.antt =====
-- pkg/reactor/providers/providers.go: when the http provider reports an error.
use event_reactor.Base.{
  ◌≤◌, ◌<◌, none, some, String, if◌then◌else◌, ◌≡◌, ◌≢◌, ◌⊎◌, refl, arith, inl, inr, eq_iff,
}
use event_reactor.Base.Dict.{Dict, is_empty}
use event_reactor.Base.Result.{ok, err, Result-cases}
use event_reactor.Base.Value.{Value}
use event_reactor.Reactor.{Context}
use event_reactor.Smtp.{text_input}
use event_reactor.Providers.{
  Environment, HttpRequest, HttpResponse, build_request, http_execute, http_answer, http_output,
  result_of,
}

module _ (env : Environment) (ctx : Context) (inputs : Dict Value) where
  -- The request that is sent, if one can be made: it has a URL, and it is a POST unless another
  -- method is given.
  abbrev pub Sends : HttpRequest → Type 0
  Sends req =
      (build_request env ctx inputs ≡ ok req)
      × (req.url ≢ "")
      × (req.url ≡ text_input "url" inputs)
      × (req.method
          ≡ (if is_empty (text_input "method" inputs) then "POST" else text_input "method" inputs))

  build_request-Sends : (req : HttpRequest) → build_request env ctx inputs ≡ ok req → Sends req
  unfolding build_request
  build_request-Sends req e =
      (e, ground (arith, eq_iff (text_input "url" inputs) ""), ground arith, ground arith)

  -- `Execute` of the http provider: with no request that can be made, or no response, it gives an
  -- error and no result; with a response it gives the status and the body, and an error besides
  -- exactly if the status is 400 or more.
  pub http_execute_cases :
      (((http_execute env ctx inputs).0 ≡ none)
        × ((http_execute env ctx inputs).1 ≢ none)
        × (((e : String) × (build_request env ctx inputs ≡ err e))
            ⊎ ((req : HttpRequest) × (e : String) × Sends req × (env.send req ≡ err e))))
      ⊎ ((req : HttpRequest) × (resp : HttpResponse) × Sends req
          × (env.send req ≡ ok resp)
          × ((http_execute env ctx inputs).0 ≡ some (result_of "http" (http_output env resp)))
          × (((resp.status < 400) × ((http_execute env ctx inputs).1 ≡ none))
              ⊎ ((400 ≤ resp.status) × ((http_execute env ctx inputs).1 ≢ none))))
  unfolding http_execute http_answer
  http_execute_cases = elim (Result-cases (build_request env ctx inputs)) [
    | inr (e, bad) ↦
        inl (rw (bad, http_execute) refl, rw (bad, http_execute) (λ h. cc), inl (e, bad))
    | inl (req, good) ↦ elim (Result-cases (env.send req)) [
      | inr (e, bad) ↦ inl (
        rw (good, http_execute, bad) refl,
        rw (good, http_execute, bad) (λ h. cc),
        inr (req, e, build_request-Sends req good, bad),
      )
      | inl (resp, sent) ↦ inr (
        req,
        resp,
        build_request-Sends req good,
        sent,
        rw (good, http_execute, sent) refl,
        ground arith,
      )
    ]
  ]
