-- ===== src/Lib.antt =====
-- The event reactor: models of its Go packages, and what holds of them.
--
-- The program receives events over HTTP, from Pub/Sub and from other listeners, turns them into one
-- envelope, and hands each to the adapter. The adapter matches the event against the CEL expression
-- of every configured reactor; for each one that matches, a goroutine resolves the reactor's inputs,
-- asks for a token where the reactor names an auth handler, and calls the reactor's provider.
--
-- Which file models which part:
--   Message    pkg/message/message.go: the event, FromPubSubPush, FromPubSubMessage,
--              FromGenericPayload and the decoding of data and attributes
--   Matcher    pkg/matcher/matcher.go: Compile with its cache of programs, and Match;
--              Matcher/Interleaving has the calls of many goroutines over one cache
--   Config     pkg/config/config.go: the configuration, Parse, applyDefaults, validate;
--              Config/Input has the input values and UnmarshalYAML
--   Auth       pkg/auth/auth.go: the handlers, their construction, NewRegistry, GetToken
--   Reactor    pkg/reactor/reactor.go: the provider registry, ResolveInputs, resolveInput
--   Adapter    pkg/adapter/adapter.go: executeReactor; Adapter/Schedule has HandleEvent
--   Breaker    pkg/circuitbreaker/circuitbreaker.go: the circuit breaker
--   Smtp       pkg/reactor/providers/providers.go: the SMTP provider: parseSMTPInput and Execute;
--              Smtp/Session has trySend, Smtp/Retry sendMail, Smtp/Mail smtpBuildMessage
--   Providers  the other providers of that file, echo, http, exec and log, and RegisterAll
--   Listener   pkg/listener/factory.go and pkg/listener/pubsub/pubsub.go: Build, New, dispatch;
--              Listener/Streaming has Start of the latter, Listener/Generic
--              pkg/listener/generic/generic.go: New and handlePush, and Listener/Lifecycle its
--              Start and Addr
--   Mcp        pkg/mcp/stdio.go: the loop of ServeStdio, handleRequest, and CallTool;
--              Mcp/Tools has pkg/mcp/mcp.go: the six tools; Mcp/Listing has ListTools;
--              Mcp/Command has mcpCmd of pkg/cmd/root.go
--   Api        pkg/api/api.go: the handlers of events, CloudEvents and webhooks;
--              Api/Signature has validateHMAC, Api/Routes registerRoutes, and Api/Serving
--              takes a request from its route to its answer
--   Http       Start of pkg/api/api.go, which pkg/listener/generic/generic.go repeats
--   Server     pkg/cmd/root.go: what runServer sets up before it serves; Server/Running has the
--              group of servers that then run; Server/Webhooks and Server/Pulling follow a
--              request and a message to their ends
--   Cli        pkg/cmd/test.go: the commands `er test match`, `template`, `config`, `reactor`
--   Reload     pkg/reload/reload.go: the loop of Watch, and handleChange
--   RateLimit  pkg/ratelimit/ratelimit.go: New and Allow
--   Template   pkg/template/template.go: Render, funcMap and its own functions
--   Observability
--              pkg/observability/observability.go: Logger, parseLevel, Shutdown
--   Docs       cmd/gen-docs/main.go: main, run, walk and writeDoc
--   Base       what the models share: tests, lists, maps, results, texts, integers, Go's `any`
--   Tests      concrete instances of the parameters, and the theorems tried on them
--
-- How the code is written down. A Go function that returns a value and an error is a function into
-- `Result`; each error is a constructor that stands for the fmt.Errorf call, with what it prints.
-- A method that changes its receiver returns the changed receiver. A map with string keys is an
-- association list with `lookup` and `insert`; where Go's iteration order matters the order is that
-- of the list, and theorems say when it makes no difference. A value of type `any` is a `Value`
-- with one constructor for each dynamic type that the code looks at. An `int` is a `ℤ`; its
-- wrap-around is written out where a counter can reach it (the failures of the breaker). A float64
-- in a configuration is an exact dyadic number, and what Go leaves open of its conversion to `int` is
-- a parameter.
--
-- Concurrency. HandleEvent is a step relation on the loop, the goroutines, the results that wait
-- for the lock, and the results; the matcher's cache may change to any faithful cache at any time,
-- as other requests share it. Compile under concurrent calls is a step relation too, with a step
-- for each of its critical sections. The servers that run are the goroutines that the errgroup waits
-- for, the values that it has taken from the others, and whether a signal has come and the context has
-- ended; a step is one that the environment, a signal or a goroutine can take. That a function comes
-- to its result and that the errgroup takes it are two steps. Start of an HTTP server is a step
-- relation on its channel, its context and what ListenAndServe has returned. The circuit breaker and
-- the token bucket hold their mutexes for all of each method, so there a history is a list of calls.
--
-- What the code relies on and is not in the repository is a parameter: the CEL library (`Cel`),
-- encoding/json, encoding/base64 and %v (`Codec`), files, the environment and text/template
-- (`Platform`), yaml.Unmarshal and yaml.Node, HMAC-SHA256, the SMTP server's answers, the clock, new
-- UUIDs, whether a context has ended, what net/http and os/exec answer (`Environment`), what fsnotify
-- delivers, what the Pub/Sub client connects and receives, text/template, gin's search for a route
-- and its panic on routes that it does not take (`Router`), the errgroup (`Group`), and what cobra
-- knows of a command. The token bucket's float64 is the record `Floats`, with the laws of IEEE 754
-- that are used in `Ieee`. Nothing is assumed of them but what a theorem names.
--
-- Loops are structural recursion on the list they walk over. The loop of sendMail counts the
-- attempts that are left, one more than maxRetries at first, which is the number of its rounds.
--
-- Not modelled: logging; how gin and cobra read a request and a command line, the tree of the commands
-- and `er version`; what net/http does between two steps of its servers; the functions of package
-- strings that templates may call; the texts in which a tool of pkg/mcp writes its answer.
pub mod Base
pub mod Message
pub mod Matcher
pub mod Config
pub mod Auth
pub mod Reactor
pub mod Adapter
pub mod Breaker
pub mod Smtp
pub mod Providers
pub mod Mcp
pub mod Listener
pub mod Api
pub mod Http
pub mod Server
pub mod Reload
pub mod RateLimit
pub mod Template
pub mod Observability
pub mod Docs
pub mod Cli
pub mod Tests
