-- ===== src/Server/Running.antt =====
-- pkg/cmd/root.go: the server while it runs. `runServer` starts a goroutine for the HTTP server and one
-- for each listener, in an errgroup with a context that a signal ends as well, and waits for all.
-- The errgroup is the record `Group`. What the goroutines do when is up to the environment: a step is
-- taken by any one that can.
use event_reactor.Base.{
  Bool, true, false, ◌||◌, Option, none, some, List, [], ◌∷◌, ◌++◌, map, String, ◌≡◌, All,
}
use event_reactor.Reactor.{Platform}
use event_reactor.Listener.{PubsubListener}
use event_reactor.Listener.Streaming.{creating_client, receive_error}
use event_reactor.Listener.Streaming as Streaming
use event_reactor.Server.{Started}

-- What a goroutine returns, if it is not nil.
pub data RunError : Type 0 where
  serving shutting_down : (error : String) → RunError
  pulling : Streaming.StartError → RunError

-- errgroup.Group with its context: whether the return of a goroutine ends the context, and what
-- `Wait` returns for all that has been returned, in that order.
pub record Group : Type 0 where
  pub cancels : Option RunError → Bool
  pub wait : List (Option RunError) → Option RunError

abbrev pub IsNil : Option RunError → Type 0
IsNil r = r ≡ none

-- The first error, after nothing but nil.
abbrev pub First : RunError → List (Option RunError) → Type 0
First e [] = ⊥
First e (none ∷ rs) = First e rs
First e (some x ∷ rs) = x ≡ e

-- What the errgroup documents.
pub record GroupLaws (g : Group) : Type 0 where
  pub cancels_error : (e : RunError) → g.cancels (some e) ≡ true
  pub cancels_nil : g.cancels none ≡ false
  pub wait_nil : (rs : List (Option RunError)) → All IsNil rs → g.wait rs ≡ none
  pub wait_first : (e : RunError) (rs : List (Option RunError)) → First e rs → g.wait rs ≡ some e

-- A goroutine that the group waits for: the HTTP server, a listener before or after its client is made,
-- or one whose function has its result, which the group has not taken yet.
pub data Task : Type 0 where
  http : Task
  connecting receiving : PubsubListener → Task
  returning : Option RunError → Task

pub record Running : Type 0 where
  pub tasks : List Task
  -- what the group has taken, in that order
  pub returned : List (Option RunError)
  -- a signal has come; the context has ended
  pub signalled : Bool
  pub cancelled : Bool

unfoldable pub serve : (pf : Platform) → Started pf → Running
serve pf s = record {
  tasks = http ∷ map connecting s.listeners;
  returned = [];
  signalled = false;
  cancelled = false;
}

-- What `Start` of a listener returns.
abbrev pub pulled : Option Streaming.StartError → Option RunError
pulled none = none
pulled (some e) = some (pulling e)

-- What `Shutdown` of the HTTP server gives is what its `Start` returns.
abbrev pub shut : Option String → Option RunError
shut none = none
shut (some e) = some (shutting_down e)

-- A function has come to its end with a result.
abbrev pub finish : Running → (before after : List Task) → Option RunError → Running
finish s before after r = record s { tasks = before ++ (returning r ∷ after) }

module _ (g : Group) where
  -- The group takes a result.
  unfoldable pub return : Running → List Task → Option RunError → Running
  return s rest r = record {
    tasks = rest;
    returned = s.returned ++ (r ∷ []);
    signalled = s.signalled;
    cancelled = s.cancelled || g.cancels r;
  }

  pub data Step (s : Running) (t : Running) : Type 0 where
    signal : t ≡ record s { signalled = true; cancelled = true } → Step s t
    serving_fails :
        (before after : List Task) (e : String)
        → s.tasks ≡ before ++ (http ∷ after)
        → t ≡ finish s before after (some (serving e))
        → Step s t
    shuts_down :
        (before after : List Task) (r : Option String)
        → s.tasks ≡ before ++ (http ∷ after)
        → s.cancelled ≡ true
        → t ≡ finish s before after (shut r)
        → Step s t
    connect_fails :
        (before after : List Task) (l : PubsubListener) (e : String)
        → s.tasks ≡ before ++ (connecting l ∷ after)
        → t ≡ finish s before after (pulled (some (creating_client l.name e)))
        → Step s t
    connects :
        (before after : List Task) (l : PubsubListener)
        → s.tasks ≡ before ++ (connecting l ∷ after)
        → t ≡ record s { tasks = before ++ (receiving l ∷ after) }
        → Step s t
    -- Receive has returned `error`, and the listener asks whether the context has ended
    receive_ends :
        (before after : List Task) (l : PubsubListener) (error : Option String)
        → s.tasks ≡ before ++ (receiving l ∷ after)
        → t ≡ finish s before after (pulled (receive_error l.name s.cancelled error))
        → Step s t
    returns :
        (before after : List Task) (r : Option RunError)
        → s.tasks ≡ before ++ (returning r ∷ after)
        → t ≡ return s (before ++ after) r
        → Step s t

  pub data Reach (s : Running) : Running → Type 0 where
    here : Reach s s
    next : {t u : Running} → Reach s t → Step t u → Reach s u

  -- `g.Wait()`, once no goroutine is left.
  unfoldable pub exit : Running → Option RunError
  exit s = g.wait s.returned
