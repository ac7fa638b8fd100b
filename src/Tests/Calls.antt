-- ===== src/Tests/Calls.antt =====
-- pkg/reactor/providers/providers.go on a few requests.
use event_reactor.Base.{arith, eq_iff}
use event_reactor.Auth.{AuthRegistry, Token, get_token, header, handler_token}
use event_reactor.Reactor.{Context, with_auth_header}
use event_reactor.Adapter.{authorize}
use event_reactor.Providers.Authorized.{authorize-build_request}
use event_reactor.Tests.Dispatch.{guarded}
use event_reactor.Base.{◌≤◌, ◌<◌, none, some, [], ◌∷◌, String, ◌≡◌, ◌≢◌, ◌⊎◌, refl}
use event_reactor.Base.Int.{pos}
use event_reactor.Base.Dict.{Dict, lookup, insert}
use event_reactor.Base.Result.{ok, err}
use event_reactor.Base.Value.{Value, str, object, field, end}
use event_reactor.Reactor.{auth_header}
use event_reactor.Adapter.Schedule.{Handling, Reach, start, IsDone}
use event_reactor.Smtp.Retry.{send_mail}
use event_reactor.Providers.{
  Environment, HttpRequest, HttpResponse, build_request, body_of, given_headers, request_headers,
  set_all, http_execute, http_output, result_of,
}
use event_reactor.Providers.Headers.{last_given, own_header, build_request-lookup}
use event_reactor.Providers.Replies.{Sends, http_execute_cases}
use event_reactor.Providers.Builtin.{server_adapter, handle_event-builtin}
use event_reactor.Tests.{platform, no_cache, event, server, tokens}
use event_reactor.Tests.Dispatch.{ctx}
use event_reactor.Tests.Mails.{formats}

-- A server that answers every request with 404, and commands that succeed.
abbrev pub environment : Environment
environment = record {
  marshal = λ v. ok "{}";
  sprint = λ v. "printed";
  show = λ n. "404";
  lower = λ s. s;
  canonical = λ s. s;
  check_request = λ method url. none;
  send = λ req. ok (record { status = 404; body = "gone" });
  run = λ c. record { stdout = ""; stderr = ""; exit_code = pos 0; error = none };
  formats = formats;
  deliver = send_mail (λ i. none) (λ i. none);
}

abbrev calls : Dict Value
calls =
    ("url", str "http://test")
    ∷ ("body", str "Hello")
    ∷ ("headers", object (field "X-Token" (str "t") (field "Content-Type" (str "text/plain") end)))
    ∷ []

abbrev sent : HttpRequest
sent = record {
  method = "POST";
  url = "http://test";
  headers = ("Content-Type", "printed") ∷ ("X-Token", "printed") ∷ [];
  body = some "Hello";
}

sent_built : build_request environment ctx calls ≡ ok sent
unfolding build_request body_of request_headers set_all lookup insert auth_header
sent_built = refl

build_request-lookup_example :
    lookup "X-Token" sent.headers
    ≡ last_given environment "X-Token"
        (given_headers environment (lookup "headers" calls))
        (own_header environment ctx calls (some "Hello") "X-Token")
build_request-lookup_example =
    build_request-lookup environment ctx calls sent "X-Token" refl refl sent_built

http_execute_cases_example :
    (((http_execute environment ctx calls).0 ≡ none)
      × ((http_execute environment ctx calls).1 ≢ none)
      × (((e : String) × (build_request environment ctx calls ≡ err e))
          ⊎ ((req : HttpRequest) × (e : String) × Sends environment ctx calls req
              × (environment.send req ≡ err e))))
    ⊎ ((req : HttpRequest) × (resp : HttpResponse) × Sends environment ctx calls req
        × (environment.send req ≡ ok resp)
        × ((http_execute environment ctx calls).0
            ≡ some (result_of "http" (http_output environment resp)))
        × (((resp.status < 400) × ((http_execute environment ctx calls).1 ≡ none))
            ⊎ ((400 ≤ resp.status) × ((http_execute environment ctx calls).1 ≢ none))))
http_execute_cases_example = http_execute_cases environment ctx calls

handle_event-builtin_example :
    let a = server_adapter environment platform server (some tokens) in
    (t : Handling platform) × Reach platform a ctx event (start platform a ctx event no_cache) t
    × IsDone platform a ctx event t
handle_event-builtin_example =
    handle_event-builtin environment platform server (some tokens) ctx event no_cache

abbrev bare_calls : Dict Value
bare_calls = ("url", str "http://test") ∷ []

-- The context of a reactor that names the handler "bot", and the request that it makes.
abbrev with_token : Context
with_token = with_auth_header ctx "Bearer abc"

abbrev authorized : HttpRequest
authorized = record {
  method = "POST";
  url = "http://test";
  headers = ("Authorization", "Bearer abc") ∷ [];
  body = none;
}

let_through : authorize (some tokens) guarded ctx ≡ ok with_token
unfolding authorize get_token header lookup handler_token
let_through = refl

authorized_built : build_request environment with_token bare_calls ≡ ok authorized
unfolding build_request body_of request_headers set_all lookup insert auth_header with_auth_header
authorized_built = refl

authorize-build_request_example :
    (r : AuthRegistry) × (tok : Token) × (some tokens ≡ some r)
    × (get_token r guarded.auth ≡ ok tok)
    × (lookup "Authorization" authorized.headers ≡ some (header tok))
unfolding lookup
authorize-build_request_example =
    authorize-build_request environment (some tokens) guarded ctx with_token bare_calls authorized
      refl refl (ground (arith, eq_iff "bot" "")) let_through authorized_built refl
