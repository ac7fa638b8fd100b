-- ===== src/Tests/Serving.antt =====
-- pkg/cmd/root.go and the generic listener on one configuration.
use event_reactor.Adapter.{authorize}
use mathlib.Core.List.{Perm}
use event_reactor.Base.{length, select, map}
use event_reactor.Adapter.{returns, consider, starts}
use event_reactor.Adapter.Execution.{matches, outcomes}
use event_reactor.Adapter.Schedule.{here, next, skip}
use event_reactor.Api.{respond, processed}
use event_reactor.Server.Replies.{run_server-respond}
use event_reactor.Matcher.{match, run_match}
use event_reactor.Base.{none, [], ◌∷◌, String, ◌≡◌, refl}
use event_reactor.Base.Int.{pos}
use event_reactor.Base.Dict.{lookup, insert}
use event_reactor.Base.Result.{Result, ok}
use event_reactor.Base.Value.{Fields}
use event_reactor.Config.{
  ServerConfig, load, parse, apply_defaults, validate, validate_reactors, validate_reactor,
  validate_listeners,
}
use event_reactor.Matcher
use event_reactor.Matcher.{compile, build, store}
use event_reactor.Reactor.{Cache, new_registry}
use event_reactor.Adapter
use event_reactor.Adapter.{Adapter, with_auth, returns, consider, starts}
use event_reactor.Adapter.Schedule.{Handling, Reach, start}
use event_reactor.Api.{dispatched}
use event_reactor.Providers.{register_all}
use event_reactor.Api.Routes.{Router}
use event_reactor.Server.{Host, Started, run_server, precompile, make_auth, build_listeners}
use event_reactor.Server.Dispatch.{IsReady, run_server-IsReady}
use event_reactor.Tests.{platform, event, quiet, server, hello}
use event_reactor.Tests.Dispatch.{ctx}
use event_reactor.Tests.Calls.{environment}

-- A configuration with the one reactor that does not match.
abbrev pub configured : ServerConfig
configured = record server { reactors = quiet ∷ [] }

-- A router that takes all routes and finds none.
abbrev pub no_routes : Router
no_routes = record { refuses = λ rs. none; find = λ rs method path. none }

abbrev pub host : Host
host = record {
  unmarshal = λ text. ok configured;
  read_config = λ path. ok [];
  new_env = none;
  environment = environment;
  sprint = λ v. "printed";
  wild = λ f. pos 0;
  router = no_routes;
}

abbrev pub cached : Cache platform
cached = record { cache = ("false", "false") ∷ [] }

abbrev pub started : Started platform
started = record {
  adapter = record {
    cfg = apply_defaults configured;
    registry = register_all environment new_registry;
    auth = none;
  };
  matcher = cached;
  listeners = [];
}

pub server_started : run_server platform host "er.yaml" ≡ ok started
unfolding run_server load parse validate validate_reactors validate_reactor validate_listeners
    Matcher.new precompile compile build store lookup insert make_auth build_listeners Adapter.new
    apply_defaults
server_started = refl

run_server-IsReady_example :
    IsReady platform host started
    × (load host.unmarshal host.read_config "er.yaml" ≡ ok (apply_defaults configured))
run_server-IsReady_example = run_server-IsReady platform host "er.yaml" started server_started

-- The run in which the reactor is passed over.
abbrev begun : Handling platform
begun = start platform started.adapter ctx event cached

abbrev over : Handling platform
over = record begun { waiting = []; matcher = (consider platform quiet event cached).1 }

over_reached : Reach platform started.adapter ctx event begun over
unfolding consider starts match run_match compile build store lookup insert apply_defaults
over_reached = next here (skip quiet [] refl refl refl)

run_server-respond_example :
    (respond (λ e. over.results) (dispatched event)
      ≡ processed 200
          (length (select (matches platform event) started.adapter.cfg.reactors))
          over.results)
    × Perm (map returns over.results) (outcomes platform started.adapter ctx event)
run_server-respond_example =
    run_server-respond platform host "er.yaml" started ctx event over server_started over_reached
      (record { none_waiting = refl; none_running = refl; none_held = refl })

abbrev method : String
method = "POST"

abbrev received : Result String Fields
received = ok hello
