-- ===== src/Tests/Dispatch.antt =====
-- pkg/adapter/adapter.go and pkg/matcher/matcher.go on an event and two reactors.
use mathlib.Core.List.{Perm}
use event_reactor.Base.{none, some, [], ◌∷◌, map, ◌≡◌, refl, ◌⊎◌}
use event_reactor.Base.Dict.{lookup, insert}
use event_reactor.Base.Result.{ok}
use event_reactor.Matcher.{match, run_match, compile, build, store}
use event_reactor.Matcher.Cache.{IsFaithful}
use event_reactor.Matcher.Interleaving
use event_reactor.Matcher.Interleaving.{compile_interleaved}
use event_reactor.Auth.{Token, AuthRegistry, get_token, handler_token, header}
use event_reactor.Reactor.{
  Context, ReactorResult, with_auth_header, auth_header, get, resolve_inputs, resolve_entries,
  resolve_input, resolve_paths, resolve_stored, resolve_text,
}
use event_reactor.Config.{ReactorConfig}
use event_reactor.Config.Input
use event_reactor.Adapter.{
  returns, execute_reactor, consider, starts, authorize, with_inputs, call_provider, finish,
}
use event_reactor.Adapter.Execution.{outcomes}
use event_reactor.Adapter.Outcome.{IsNamed, execute_reactor-IsNamed, authorize_cases}
use event_reactor.Adapter.Progress.{handle_event_total}
use event_reactor.Adapter.Schedule.{
  Handling, skip, launch, work, append, Reach, here, next, start, IsDone, handle_event-perm,
}
use event_reactor.Tests.{cel, platform, no_cache, event, notify, quiet, echoed, tokens, adapter}

abbrev pub ctx : Context
ctx = record { header_value = none }

abbrev named : ReactorResult
named = record echoed { reactor_name = "notify" }

-- The states of a run in which "notify" is started and "quiet" is not.
abbrev started : Handling platform
started = record (start platform adapter ctx event no_cache) {
  waiting = quiet ∷ [];
  running = notify ∷ [];
  matcher = (consider platform notify event no_cache).1;
}

abbrev passed : Handling platform
passed = record started {
  waiting = [];
  matcher = (consider platform quiet event started.matcher).1;
}

abbrev worked : Handling platform
worked = record passed {
  running = [];
  held = named ∷ [];
  matcher = (execute_reactor platform adapter ctx notify event passed.matcher).1;
}

abbrev finished : Handling platform
finished = record worked { held = []; results = named ∷ [] }

finished_reached :
    Reach platform adapter ctx event (start platform adapter ctx event no_cache) finished
unfolding consider starts execute_reactor with_inputs authorize call_provider finish get match
    run_match build compile store lookup insert resolve_inputs resolve_entries resolve_input
    resolve_paths resolve_stored resolve_text Input.secret_ref Input.payload_paths Input.file_path
    Input.env_var Input.expr Input.template Input.static_value
finished_reached =
    next
      (next
        (next (next here (launch notify (quiet ∷ []) refl refl refl))
          (skip quiet [] refl refl refl))
        (work [] [] notify named refl refl refl))
      (append [] [] named refl refl)

handle_event-perm_example :
    Perm (map returns finished.results) (outcomes platform adapter ctx event)
handle_event-perm_example =
    handle_event-perm platform adapter ctx event no_cache finished tt finished_reached
      (record { none_waiting = refl; none_running = refl; none_held = refl })

handle_event_total_example :
    (t : Handling platform) × Reach platform adapter ctx event
      (start platform adapter ctx event no_cache)
      t
    × IsDone platform adapter ctx event t
handle_event_total_example =
    handle_event_total platform adapter ctx event ((λ c i e h k. cc), tt) no_cache

execute_reactor-IsNamed_example :
    IsNamed notify (execute_reactor platform adapter ctx notify event no_cache).0
execute_reactor-IsNamed_example =
    execute_reactor-IsNamed platform adapter ctx notify event no_cache ((λ c i e h k. cc), tt)

-- A reactor that names the handler "bot".
abbrev pub guarded : ReactorConfig
guarded = record notify { auth = "bot" }

authorize_cases_example :
    ((guarded.auth ≡ "") × (with_auth_header ctx "Bearer abc" ≡ ctx))
    ⊎ ((r : AuthRegistry) × (tok : Token) × (some tokens ≡ some r)
        × (get_token r guarded.auth ≡ ok tok)
        × (auth_header (with_auth_header ctx "Bearer abc") ≡ some (header tok)))
unfolding authorize get_token header lookup handler_token
authorize_cases_example =
    authorize_cases (some tokens) guarded ctx (with_auth_header ctx "Bearer abc") refl

-- One call that misses, compiles and stores.
abbrev first : Interleaving.System cel
first = record { matcher = no_cache; calls = λ _. Interleaving.idle }

abbrev second : Interleaving.System cel
second = Interleaving.move cel first 0 (Interleaving.missed "true")

abbrev third : Interleaving.System cel
third = Interleaving.move cel second 0 (Interleaving.built "true" "true")

abbrev last : Interleaving.System cel
last = record {
  matcher = store cel "true" "true" third.matcher;
  calls = Interleaving.update cel third.calls 0 (Interleaving.returned "true" (ok "true"));
}

last_reached : Interleaving.Reach cel first last
unfolding lookup build
last_reached =
    Interleaving.next
      (Interleaving.next
        (Interleaving.next Interleaving.here (Interleaving.miss 0 "true" refl refl))
        (Interleaving.finish 0 "true" "true" refl refl))
      (Interleaving.write 0 "true" "true" refl)

compile_interleaved_example : (ok "true" ≡ build cel "true") × IsFaithful cel last.matcher
compile_interleaved_example =
    compile_interleaved cel no_cache last 0 "true" (ok "true") tt last_reached refl
