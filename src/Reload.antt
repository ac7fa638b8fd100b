-- ===== src/Reload.antt =====
-- pkg/reload/reload.go: the watcher of the configuration file. fsnotify is the list of what the
-- channels deliver, with the time of each change and what `config.Load` gives then; times are in
-- nanoseconds. The callback is called under the lock, one change at a time.
pub mod Timing
use event_reactor.Base.{
  ℕ, Bool, true, false, Option, none, some, List, [], ◌∷◌, ◌++◌, String, if◌then◌else◌,
}
use event_reactor.Base.Int.{ℤ, pos, sub_ℕ, ltb_ℤ}
use event_reactor.Base.Result.{Result, ok, err}
use event_reactor.Config.{ServerConfig, ConfigError}

-- `last` is `none` for the zero time.
pub record Watcher : Type 0 where
  pub path : String
  pub last : Option ℕ
  pub debounce : ℤ

unfoldable pub new : String → Watcher
new path = record { path = path; last = none; debounce = pos 500000000 }

-- `now.Sub(w.last) < w.debounce`; the zero time is farther back than any duration.
abbrev pub too_soon : ℕ → Option ℕ → ℤ → Bool
too_soon now none debounce = false
too_soon now (some last) debounce = ltb_ℤ (sub_ℕ now last) debounce

-- A call of the callback.
pub record Delivery : Type 0 where
  pub time : ℕ
  pub config : ServerConfig

abbrev pub delivery : ℕ → Result ConfigError ServerConfig → List Delivery
delivery now (err e) = []
delivery now (ok cfg) = record { time = now; config = cfg } ∷ []

unfoldable pub handle_change :
    ℕ → Result ConfigError ServerConfig → Watcher → List Delivery × Watcher
handle_change now loaded w =
    if too_soon now w.last w.debounce
    then ([], w)
    else (delivery now loaded, record w { last = some now })

-- What the loop of `Watch` receives: an event, with whether it is a write or a creation; an error of
-- the watcher; the end of the context or of a channel.
pub data Signal : Type 0 where
  event : (is_change : Bool) → ℕ → Result ConfigError ServerConfig → Signal
  failed : String → Signal
  ended closed : Signal

-- The calls of the callback.
unfoldable pub watch : List Signal → Watcher → List Delivery
watch [] w = []
watch (ended ∷ rest) w = []
watch (closed ∷ rest) w = []
watch (failed e ∷ rest) w = watch rest w
watch (event false now loaded ∷ rest) w = watch rest w
watch (event true now loaded ∷ rest) w =
    let (calls, w') = handle_change now loaded w in calls ++ watch rest w'

-- `Watch`, where making the watcher or adding the file gives an error or not.
unfoldable pub watch_file : Option String → List Signal → Watcher → List Delivery × Option String
watch_file (some e) signals w = ([], some e)
watch_file none signals w = (watch signals w, none)
