-- ===== src/Tests/Commands.antt =====
-- pkg/cmd/test.go, pkg/mcp/mcp.go, pkg/reload/reload.go and cmd/gen-docs/main.go on small inputs.
use event_reactor.Base.{◌↔◌}
use event_reactor.Base.Int.{pos}
use event_reactor.Server.{run_server}
use event_reactor.Cli.{test_config}
use event_reactor.Cli.Validity.{Passes, host, test_config-Passes}
use event_reactor.Tests.Calls.{environment}
use event_reactor.Base.{
  true, false, none, List, [], ◌∷◌, ◌++◌, String, ◌==◌, if◌then◌else◌, ◌≡◌, refl, arith,
}
use event_reactor.Base.Dict.{lookup}
use event_reactor.Base.Result.{ok}
use event_reactor.Base.Value.{str, object, Fields, field, end}
use event_reactor.Cli.{Tools, test_reactor}
use event_reactor.Cli.DryRun.{Predicts, dry_run, dry_run-Predicts}
use event_reactor.Cli.Agreement.{Agrees, test_reactor-Agrees}
use event_reactor.Mcp.Tools as Mcp
use event_reactor.Reload.{Signal, event, failed, watch, new}
use event_reactor.Reload.Timing.{Spaced, Delivers, watch-new-Spaced, watch-new-Delivers}
use event_reactor.Base.Text.{◌<>◌}
use event_reactor.Docs.{
  Info, info_of, listed, Command, command, no_commands, more_commands, Format, Options, System,
  main,
}
use event_reactor.Docs.Numbering.{Consecutive}
use event_reactor.Docs.Walk.{Child, Visited, children}
use event_reactor.Docs.Links.{HasPage, main_pages}
use event_reactor.Tests.{
  codec, platform, no_cache, event as received, notify, server, adapter, hello,
}
use event_reactor.Tests.Dispatch.{ctx}
use event_reactor.Tests.Serving.{no_routes}

abbrev pub system : Tools
system = record {
  codec = codec;
  now = 5;
  unmarshal = λ text. ok server;
  read_bytes = λ path. if path == "er.yaml" then ok [] else ok (123 ∷ []);
  new_env = none;
  encode = λ inputs. none;
}

dry_run-Predicts_example :
    Predicts platform system adapter ctx notify received
      (dry_run platform system notify received no_cache)
dry_run-Predicts_example = dry_run-Predicts platform system adapter ctx notify received no_cache tt

abbrev arguments : Fields
arguments =
    field "config" (str "") (field "reactor" (str "notify") (field "event" (object hello) end))

test_reactor-Agrees_example :
    Agrees platform system
      (test_reactor platform system true "er.yaml" "event.json" "notify")
      (Mcp.test_reactor platform system arguments)
unfolding lookup
test_reactor-Agrees_example =
    test_reactor-Agrees platform system "er.yaml" "event.json" "" "notify" (123 ∷ []) hello
      arguments refl refl refl refl refl refl

test_config-Passes_example :
    ((test_config platform system "er.yaml").1 ≡ none)
    ↔ Passes (
        run_server platform
          (host platform system environment (λ v. "printed") (λ f. pos 0) no_routes)
          "er.yaml")
test_config-Passes_example =
    test_config-Passes platform system environment (λ v. "printed") (λ f. pos 0) no_routes "er.yaml"

-- Two changes that are 300 ms apart.
abbrev changes : List Signal
changes = event true 100 (ok server) ∷ failed "overflow" ∷ event true 300000100 (ok server) ∷ []

watch-new-Spaced_example : Spaced 500000000 none (watch changes (new "er.yaml"))
watch-new-Spaced_example = watch-new-Spaced "er.yaml" changes

watch-new-Delivers_example :
    Delivers 1300000100 server
      (watch (changes ++ (event true 1300000100 (ok server) ∷ [])) (new "er.yaml"))
watch-new-Delivers_example =
    watch-new-Delivers "er.yaml" changes [] 1300000100 server (omega arith, (omega arith, tt))

abbrev leaf : String → Info
leaf name = record {
  name = name;
  path = "er";
  long = "";
  short = "A command";
  use_line = "er";
  flags = "";
  inherited = "";
  available = true;
  hidden = false;
  runnable = true;
  has_parent = true;
}

abbrev root : Command
root =
    command (record (leaf "er") { has_parent = false })
      (more_commands (command (leaf "run") no_commands)
        (more_commands (command (leaf "mcp") no_commands) no_commands))

abbrev format : Format
format = record { quote = λ s. s; show = λ n. "1"; trim_space = λ s. s; trim_newlines = λ s. s }

abbrev documented : System
documented = record {
  root = root;
  format = format;
  directory = λ path. path <> "/";
  make_dir = λ path. none;
  write = λ p. none;
}

abbrev for_hugo : Options
for_hugo = record { doc_path = "docs"; standard = false; custom = true }

main_pages_example :
    let x = main documented for_hugo in
    ((x.status ≡ 2) ↔ (false ≡ true))
    × (x.status ≡ 2 → x.pages ≡ [])
    × (x.status ≡ 0
        → Consecutive 0 x.pages
          × ((d : Command)
              → Visited root d
              → HasPage documented for_hugo x.pages d
                × ((c : Command)
                    → Child c (children d)
                    → listed (info_of c) ≡ true
                    → HasPage documented for_hugo x.pages c)))
main_pages_example = main_pages documented for_hugo
