-- ===== src/Tests/Lifecycles.antt =====
-- pkg/cmd/root.go, pkg/api/api.go and pkg/listener/generic/generic.go: a server that is started and
-- stopped.
use event_reactor.Base.{◌↔◌}
use event_reactor.Base.{Bool, true, false, Option, none, some, List, [], ◌∷◌, ◌≡◌, ◌⊎◌, refl, All}
use event_reactor.Base.Int.{pos}
use event_reactor.Listener.{PubsubListener}
use event_reactor.Http
use event_reactor.Http.{Serving, broken, fresh}
use event_reactor.Listener.Lifecycle
use event_reactor.Listener.Lifecycle.{Starting, accepting}
use event_reactor.Server.{Started}
use event_reactor.Server.Running.{
  RunError, shutting_down, serving, Group, GroupLaws, IsNil, First, http, connecting, receiving,
  returning, Running, serving_fails, shuts_down, connects, receive_ends, returns, Reach, here, next,
  serve, return, exit,
}
use event_reactor.Server.Shutdown.{HasError, exit_causes}
use event_reactor.Server.Stopping.{OfHttp, exit_stopped}
use event_reactor.Tests.{platform}
use event_reactor.Tests.Serving.{started}

abbrev given : Option RunError → Bool
given none = false
given (some e) = true

unfoldable first_error : List (Option RunError) → Option RunError
first_error [] = none
first_error (none ∷ rs) = first_error rs
first_error (some e ∷ rs) = some e

abbrev group : Group
group = record { cancels = given; wait = first_error }

first_error-nil : (rs : List (Option RunError)) → All IsNil rs → first_error rs ≡ none
unfolding first_error
first_error-nil [] h = refl
first_error-nil (none ∷ rs) (e, h) = first_error-nil rs h
first_error-nil (some x ∷ rs) (e, h) = cc

first_error-First :
    (e : RunError) (rs : List (Option RunError)) → First e rs → first_error rs ≡ some e
unfolding first_error
first_error-First e [] f = absurd f
first_error-First e (none ∷ rs) f = first_error-First e rs f
first_error-First e (some x ∷ rs) f = cc

group_laws : GroupLaws group
group_laws = record {
  cancels_error = λ e. refl;
  cancels_nil = refl;
  wait_nil = first_error-nil;
  wait_first = first_error-First;
}

abbrev orders : PubsubListener
orders = record {
  name = "orders";
  project_id = "p";
  subscription_id = "s";
  max_outstanding_messages = pos 0;
  num_goroutines = pos 4;
}

abbrev listening : Started platform
listening = record started { listeners = orders ∷ [] }

-- The listener is connected, and a signal comes.
abbrev stopped : Running
stopped = record {
  tasks = http ∷ receiving orders ∷ [];
  returned = [];
  signalled = true;
  cancelled = true;
}

-- The HTTP server is not shut down in time, and receiving ends.
abbrev ended : Running
ended = record {
  tasks = [];
  returned = some (shutting_down "deadline exceeded") ∷ none ∷ [];
  signalled = true;
  cancelled = true;
}

ended_reached : Reach group stopped ended
unfolding return
ended_reached =
    next
      (next
        (next
          (next here
            (shuts_down [] (receiving orders ∷ []) (some "deadline exceeded") refl refl refl))
          (receive_ends (returning (some (shutting_down "deadline exceeded")) ∷ []) [] orders
            (some "canceled") refl refl))
        (returns [] (returning none ∷ []) (some (shutting_down "deadline exceeded")) refl refl))
      (returns [] [] none refl refl)

-- The port is in use, and the listener stops as that error ends the context.
abbrev broke : Running
broke = record {
  tasks = [];
  returned = some (serving "in use") ∷ none ∷ [];
  signalled = false;
  cancelled = true;
}

broke_reached : Reach group (serve platform listening) broke
unfolding return serve
broke_reached =
    next
      (next
        (next
          (next (next here (serving_fails [] (connecting orders ∷ []) "in use" refl refl))
            (returns [] (connecting orders ∷ []) (some (serving "in use")) refl refl))
          (connects [] [] orders refl refl))
        (receive_ends [] [] orders (some "canceled") refl refl))
      (returns [] [] none refl refl)

exit_causes_example :
    ((true ≡ true) ↔ ((broke.signalled ≡ true) ⊎ HasError broke.returned))
    × (broke.tasks ≡ []
        → broke.signalled ≡ false
        → (e : RunError) × (exit group broke ≡ some e) × First e broke.returned)
exit_causes_example = exit_causes group group_laws platform listening broke broke_reached

exit_stopped_example :
    (exit group ended ≡ none) ⊎ ((e : RunError) × (exit group ended ≡ some e) × OfHttp (some e))
exit_stopped_example =
    exit_stopped group group_laws stopped ended refl (tt, (tt, tt)) tt ended_reached

-- Serving fails, and `Start` returns with its error.
abbrev failed : Serving
failed = record {
  listen = some (broken "in use");
  channel = none;
  done = false;
  result = some (some "in use");
}

failed_reached : Http.Reach fresh failed
failed_reached =
    Http.next (Http.next Http.here (Http.listens (broken "in use") refl refl refl))
      (Http.fails "in use" refl refl refl)

-- The address is bound and announced, the context ends, and `Start` returns.
abbrev over : Starting
over = record {
  stage = accepting "127.0.0.1:8080";
  addr = "127.0.0.1:8080";
  closed = 1;
  serving = record { listen = none; channel = none; done = true; result = some none };
}
