-- ===== src/Http.antt =====
-- pkg/api/api.go and pkg/listener/generic/generic.go: `Start`, around an http.Server. A goroutine
-- serves, and sends the error with which that ends on a channel with room for one; `Start` waits for
-- it and for the end of the context.
pub mod Returning
use event_reactor.Base.{Bool, true, false, Option, none, some, String, ◌≡◌}

-- How ListenAndServe or Serve returns: with nil or http.ErrServerClosed, or with another error.
pub data ListenEnd : Type 0 where
  closed : ListenEnd
  broken : (error : String) → ListenEnd

pub record Serving : Type 0 where
  -- how the call has returned, if it has
  pub listen : Option ListenEnd
  -- errCh
  pub channel : Option String
  -- ctx.Done() is closed
  pub done : Bool
  -- what `Start` has returned, if it has
  pub result : Option (Option String)

abbrev pub fresh : Serving
fresh = record { listen = none; channel = none; done = false; result = none }

-- What the goroutine sends.
abbrev pub sent : ListenEnd → Option String
sent closed = none
sent (broken e) = some e

pub data Step (s : Serving) (t : Serving) : Type 0 where
  -- the goroutine, up to its end
  listens :
      (how : ListenEnd)
      → s.listen ≡ none
      → s.channel ≡ none
      → t ≡ record s { listen = some how; channel = sent how }
      → Step s t
  context_ends : t ≡ record s { done = true } → Step s t
  -- the cases of `select`; `error` is what Shutdown returns
  shuts_down :
      (error : Option String)
      → s.result ≡ none
      → s.done ≡ true
      → t ≡ record s { result = some error }
      → Step s t
  fails :
      (error : String)
      → s.result ≡ none
      → s.channel ≡ some error
      → t ≡ record s { channel = none; result = some (some error) }
      → Step s t

pub data Reach (s : Serving) : Serving → Type 0 where
  here : Reach s s
  next : {t u : Serving} → Reach s t → Step t u → Reach s u
