-- ===== src/Mcp/Serving.antt =====
-- pkg/mcp/stdio.go: what `ServeStdio` has written when it returns.
use event_reactor.Base.{
  ℕ, ◌+◌, length, suc, Option, none, some, List, [], ◌∷◌, ◌++◌, String, ◌≡◌, ◌⊎◌,
}
use event_reactor.Mcp.{Setting, answer, Served, ServeError, ended, writing}

-- The answers of some lines, in order.
abbrev consider : Option String → List String → List String
consider none rest = rest
consider (some text) rest = text ∷ rest

abbrev pub answers : Setting → List String → List String
answers st [] = []
answers st (line ∷ lines) = consider (answer st line) (answers st lines)

module _ (st : Setting) (done : ℕ → Option String) (write : List String → String → Option String)
    (last : Option ServeError) where
  -- The loop goes on over these lines, the first of which is line `i`: the context has not ended at
  -- any of them, and the answers are written.
  abbrev pub GoesOn : ℕ → List String → List String → Type 0
  GoesOn i [] out = Unit
  GoesOn i (line ∷ lines) out =
      (done i ≡ none)
      × (((answer st line ≡ none) × GoesOn (suc i) lines out)
          ⊎ ((text : String) × (answer st line ≡ some text)
              × (write out text ≡ none)
              × GoesOn (suc i) lines (out ++ (text ∷ []))))

  -- Why line `i` is the last that is looked at, when `out` has been written, and with which error.
  abbrev pub Stops : ℕ → String → List String → Option ServeError → Type 0
  Stops i line out error =
      ((e : String) × (done i ≡ some e) × (error ≡ some (ended e)))
      ⊎ ((text : String) × (e : String) × (done i ≡ none)
          × (answer st line ≡ some text)
          × (write out text ≡ some e)
          × (error ≡ some (writing e)))

  abbrev pub Ends : ℕ → List String → List String → Option ServeError → Type 0
  Ends i [] out error = error ≡ last
  Ends i (line ∷ lines) out error = Stops i line out error

  -- After `out`, the answers of the first lines are written, and the loop ends with the input or stops at
  -- the line that follows.
  abbrev pub Writes : ℕ → List String → List String → Served → Type 0
  Writes i lines out s =
      (read rest : List String) × (read ++ rest ≡ lines)
      × GoesOn i read out
      × (s.output ≡ out ++ answers st read)
      × Ends (i + length read) rest s.output s.error
