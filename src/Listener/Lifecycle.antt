-- ===== src/Listener/Lifecycle.antt =====
-- pkg/listener/generic/generic.go: `Start` and `Addr`. `Start` binds the address, then serves as in
-- pkg/api/api.go; `ready` is closed when it cannot bind, or by the goroutine before it serves. `Addr`
-- waits for that and reads `addr`.
use event_reactor.Base.{ℕ, ◌+◌, true, none, some, String, ◌≡◌, ◌⊎◌}
use event_reactor.Http
use event_reactor.Http.{Serving, fresh, listens, shuts_down, fails}
use event_reactor.Http.Returning.{IsSound}

-- How far `Start` is: before it binds; `ready` closed as it could not bind, and returned with that error;
-- bound, `ready` closed, and Serve called.
pub data Stage : Type 0 where
  before refused : Stage
  refusing : (error : String) → Stage
  bound announced accepting : (address : String) → Stage

pub record Starting : Type 0 where
  pub stage : Stage
  pub addr : String
  -- how often `ready` has been closed; a second time panics
  pub closed : ℕ
  pub serving : Serving

abbrev pub begin : Starting
begin = record { stage = before; addr = ""; closed = 0; serving = fresh }

-- The goroutine and the `select` of `Start` are there once the address is bound.
abbrev pub IsBound : Stage → Type 0
IsBound (bound a) = Unit
IsBound (announced a) = Unit
IsBound (accepting a) = Unit
IsBound _ = ⊥

pub data Step (s : Starting) (t : Starting) : Type 0 where
  bind_fails :
      (error : String)
      → s.stage ≡ before
      → t ≡ record s { stage = refusing error; closed = s.closed + 1 }
      → Step s t
  gives_up :
      (error : String)
      → s.stage ≡ refusing error
      → t ≡ record s { stage = refused; serving = record s.serving { result = some (some error) } }
      → Step s t
  binds :
      (address : String)
      → s.stage ≡ before
      → t ≡ record s { stage = bound address; addr = address }
      → Step s t
  announces :
      (address : String)
      → s.stage ≡ bound address
      → t ≡ record s { stage = announced address; closed = s.closed + 1 }
      → Step s t
  accepts :
      (address : String)
      → s.stage ≡ announced address
      → t ≡ record s { stage = accepting address }
      → Step s t
  ends : t ≡ record s { serving = record s.serving { done = true } } → Step s t
  -- Serve can return once it has been called
  serves :
      (u : Serving)
      → IsBound s.stage
      → Http.Step s.serving u
      → (u.listen ≡ s.serving.listen) ⊎ ((address : String) × (s.stage ≡ accepting address))
      → t ≡ record s { serving = u }
      → Step s t

pub data Reach (s : Starting) : Starting → Type 0 where
  here : Reach s s
  next : {t u : Starting} → Reach s t → Step t u → Reach s u

-- What holds at each stage.
abbrev pub Holds : Stage → Starting → Type 0
Holds before s =
    (s.closed ≡ 0)
    × (s.addr ≡ "")
    × (s.serving.listen ≡ none)
    × IsSound s.serving
    × (s.serving.result ≡ none)
Holds (refusing e) s = (s.closed ≡ 1) × (s.addr ≡ "") × (s.serving.result ≡ none)
Holds refused s =
    (s.closed ≡ 1) × (s.addr ≡ "") × ((e : String) × (s.serving.result ≡ some (some e)))
Holds (bound a) s = (s.closed ≡ 0) × (s.addr ≡ a) × (s.serving.listen ≡ none) × IsSound s.serving
Holds (announced a) s =
    (s.closed ≡ 1) × (s.addr ≡ a) × (s.serving.listen ≡ none) × IsSound s.serving
Holds (accepting a) s = (s.closed ≡ 1) × (s.addr ≡ a) × IsSound s.serving
