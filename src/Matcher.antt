-- ===== src/Matcher.antt =====
-- pkg/matcher/matcher.go: CEL programs, compiled and kept in a cache.
-- The CEL library is the parameter `Cel`. A method that writes the cache returns the new matcher.
pub mod Cache
pub mod Interleaving
use event_reactor.Base.{Bool, true, false, Option, none, some, [], String, ◌==◌, if◌then◌else◌}
use event_reactor.Base.Dict.{Dict, lookup, insert, is_empty}
use event_reactor.Base.Result.{Result, ok, err, ◌>>=◌, map_err}
use event_reactor.Base.Value.{Value, Fields}
use event_reactor.Message.{Event, as_map}

-- cel.Env with its programs and values.
pub record Cel : Type 1 where
  pub Ast : Type 0
  pub Program : Type 0
  pub Val : Type 0
  -- env.Compile, whose issues are an error; env.Program; prg.Eval
  pub check : String → Result String Ast
  pub program : Ast → Result String Program
  pub eval : Program → Fields → Result String Val
  -- out == types.True, and out.Value()
  pub is_true : Val → Bool
  pub native : Val → Value

pub data MatcherError : Type 0 where
  new_env : String → MatcherError
  compiling creating evaluating : String → String → MatcherError

module _ (cel : Cel) where
  open cel use {Program, check, program, eval, is_true}

  pub record Matcher : Type 0 where
    pub cache : Dict Program

  -- `New`, where `env` is what cel.NewEnv returned as its error.
  unfoldable pub new : Option String → Result MatcherError Matcher
  new none = ok (record { cache = [] })
  new (some e) = err (new_env e)

  -- The part of `Compile` that runs with no lock held.
  unfoldable pub build : String → Result MatcherError Program
  build expr = do ast ← map_err (compiling expr) (check expr); map_err (creating expr) (program ast)

  -- `m.cache[expr] = prg`, under the write lock.
  unfoldable pub store : String → Program → Matcher → Matcher
  store expr prg m = record { cache = insert expr prg m.cache }

  unfoldable pub compile : String → Matcher → Result MatcherError Program × Matcher
  compile expr m = elim (lookup expr m.cache) [
    | some prg ↦ (ok prg, m)
    | none ↦ elim (build expr) [ err e ↦ (err e, m) | ok prg ↦ (ok prg, store expr prg m) ]
  ]

  -- The last lines of `Match`, on the program that `Compile` returned.
  unfoldable pub run_match : String → Event → Result MatcherError Program → Result MatcherError Bool
  run_match expr event compiled = do
    prg ← compiled
    out ← map_err (evaluating expr) (eval prg (as_map event))
    ok (is_true out)

  unfoldable pub match : String → Event → Matcher → Result MatcherError Bool × Matcher
  match expr event m =
      let (compiled, m') = compile expr m in
      if is_empty expr then (ok true, m) else (run_match expr event compiled, m')
