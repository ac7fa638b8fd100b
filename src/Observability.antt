-- ===== src/Observability.antt =====
-- pkg/observability/observability.go: the logger that is made, and the functions that are run at the
-- end. A function is a change of the state of the program that may give an error.
pub mod Ending
use event_reactor.Base.{
  Bool, true, false, Option, none, some, List, [], ◌∷◌, ◌++◌, String, ◌==◌, if◌then◌else◌,
}
use event_reactor.Config.{LoggingConfig}

pub data Level : Type 0 where
  debug info warn error : Level

pub data Encoding : Type 0 where
  as_text as_json : Encoding

-- A slog.Logger on the standard output.
pub record Logger : Type 0 where
  pub encoding : Encoding
  pub level : Level

unfoldable pub parse_level : String → Level
parse_level s =
    if s == "debug"
    then debug
    else if s == "warn"
    then warn
    else if s == "error"
    then error
    else info

unfoldable pub logger : LoggingConfig → Logger
logger cfg = record {
  encoding = if cfg.format == "text" then as_text else as_json;
  level = parse_level cfg.level;
}

module _ {ℓ} (S : Type ℓ) where
  abbrev pub Cleanup : Type ℓ
  Cleanup = S → Option String × S

  pub record Shutdown : Type ℓ where
    pub fns : List Cleanup

  unfoldable pub add : Cleanup → Shutdown → Shutdown
  add fn s = record { fns = s.fns ++ (fn ∷ []) }

  abbrev pub collect : Option String → List String → List String
  collect none errs = errs
  collect (some e) errs = errs ++ (e ∷ [])

  -- The loop of `Run`, with the errors so far.
  unfoldable pub run_all : List Cleanup → List String → S → List String × S
  run_all [] errs st = (errs, st)
  run_all (fn ∷ fns) errs st = let (e, st') = fn st in run_all fns (collect e errs) st'

  -- The errors that `Run` prints in its own, if there are any.
  abbrev pub joined : List String → Option (List String)
  joined [] = none
  joined (e ∷ errs) = some (e ∷ errs)

  unfoldable pub run : Shutdown → S → Option (List String) × S
  run s st = let (errs, st') = run_all s.fns [] st in (joined errs, st')
