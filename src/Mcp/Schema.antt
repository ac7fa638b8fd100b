-- ===== src/Mcp/Schema.antt =====
-- pkg/mcp/mcp.go: the descriptions of the tools, `ListTools`, against what the tools take.
use event_reactor.Base.{
  Bool, true, false, ◌&&◌, Option, none, some, List, [], ◌∷◌, String, ◌==◌, if◌then◌else◌, ◌≡◌, ◌⊎◌,
  inl, inr, refl, subst, Bool-cases,
}
use event_reactor.Base.Dict.{Dict, lookup}
use event_reactor.Base.Result.{Result, ok, err, ◌>>=◌}
use event_reactor.Base.Text.{◌<>◌}
use event_reactor.Base.Value.{Value, str, object, Fields, entries}
use event_reactor.Reactor.{Platform, Registry}
use event_reactor.Cli.{Tools}
use event_reactor.Mcp.{ToolResult, call_tool}
use event_reactor.Mcp.Listing.{Property, Tool, list_tools}
use event_reactor.Mcp.Tools.{
  ToolError, Report, as_text, as_object, validate_config, test_cel_expression, render_template,
  test_reactor, tools, tool_result, text_arg, object_arg, must_be_text, must_be_object,
}

-- The JSON types that the descriptions name.
abbrev pub has_type : String → Option Value → Bool
has_type type (some (str s)) = type == "string"
has_type type (some (object fs)) = type == "object"
has_type type _ = false

abbrev pub fits : Dict Property → Fields → String → Bool
fits props args k = elim (lookup k props) [
  | none ↦ true
  | some p ↦ has_type p.type (lookup k (entries args))
]

abbrev pub all_fit : Dict Property → Fields → List String → Bool
all_fit props args [] = true
all_fit props args (k ∷ ks) = fits props args k && all_fit props args ks

-- The arguments have every required name, with a value of the type that is described.
abbrev pub is_valid : Tool → Fields → Bool
is_valid t args = all_fit t.properties args t.required

abbrev pub find_tool : String → List Tool → Option Tool
find_tool name [] = none
find_tool name (t ∷ ts) = if t.name == name then some t else find_tool name ts

-- An argument is as described and read, or it is not and there is an error.
abbrev Reads {ℓ} : {A : Type ℓ} → Bool → Result ToolError A → Type ℓ
Reads {A = A} good r =
    ((a : A) × (good ≡ true) × (r ≡ ok a)) ⊎ ((e : ToolError) × (good ≡ false) × (r ≡ err e))

as_text-Reads : (name : String) (o : Option Value) → Reads (has_type "string" o) (as_text name o)
as_text-Reads name (some (str s)) = inl (s, refl, refl)
as_text-Reads name _ = inr (must_be_text name, refl, refl)

as_object-Reads :
    (name : String) (o : Option Value) → Reads (has_type "object" o) (as_object name o)
as_object-Reads name (some (object fs)) = inl (fs, refl, refl)
as_object-Reads name _ = inr (must_be_object name, refl, refl)

-- A handler answers an error for arguments that are not as described.
abbrev pub Checks : Tool → (Fields → ToolResult) → Fields → Type 0
Checks t h args =
    (is_valid t args ≡ true) ⊎ ((is_valid t args ≡ false) × ((h args).is_error ≡ true))

-- The tools that are described are those that are handled.
abbrev pub Aligned : Fields → List Tool → Dict (Fields → ToolResult) → Type 0
Aligned args [] [] = Unit
Aligned args [] (h ∷ hs) = ⊥
Aligned args (t ∷ ts) [] = ⊥
Aligned args (t ∷ ts) ((n, h) ∷ hs) = ((t.name ≡ n) × Checks t h args) × Aligned args ts hs

abbrev pub unknown : String → ToolResult
unknown name = record { text = "unknown tool: " <> name; is_error = true }

abbrev pub Conforms : List Tool → String → Fields → ToolResult → Type 0
Conforms ts name args res =
    ((find_tool name ts ≡ none) × (res ≡ unknown name))
    ⊎ ((t : Tool) × (find_tool name ts ≡ some t)
        × ((is_valid t args ≡ true) ⊎ ((is_valid t args ≡ false) × (res.is_error ≡ true))))

Aligned-Conforms :
    (name : String) (args : Fields) (ts : List Tool) (hs : Dict (Fields → ToolResult))
    → Aligned args ts hs
    → Conforms ts name args (call_tool hs name args)
unfolding call_tool lookup
Aligned-Conforms name args [] [] a = inl (refl, refl)
Aligned-Conforms name args [] (h ∷ hs) a = elim a [ ]
Aligned-Conforms name args (t ∷ ts) [] a = elim a [ ]
Aligned-Conforms name args (t ∷ ts) ((n, h) ∷ hs) ((e, c), a) = elim (Bool-cases (t.name == name)) [
  | inl same ↦
      let handled : (n == name) ≡ true = subst (λ x. (x == name) ≡ true) e same in
      rw (same, handled, call_tool, lookup) (inr (t, refl, c))
  | inr other ↦
      let unhandled : (n == name) ≡ false = subst (λ x. (x == name) ≡ false) e other in
      rw (other, unhandled, call_tool, lookup) (Aligned-Conforms name args ts hs a)
]

module _ (pf : Platform) (tl : Tools) (explain : ToolError → String) (show : Report → String)
    (reg : Registry) where
  abbrev answered : Result ToolError Report → ToolResult
  answered = tool_result explain show

  -- The arguments are as described, or the answer is an error.
  abbrev Guards : Bool → Result ToolError Report → Type 0
  Guards good r = (good ≡ true) ⊎ ((good ≡ false) × ((answered r).is_error ≡ true))

  Reads-Guards {ℓ} :
      {A : Type ℓ} (good rest : Bool) (r : Result ToolError A) (next : A → Result ToolError Report)
      → Reads good r
      → ((a : A) → Guards rest (next a))
      → Guards (good && rest) (r >>= next)
  Reads-Guards good rest r next (inl (a, fine, e)) h = rw (fine, e) (h a)
  Reads-Guards good rest r next (inr (x, wrong, e)) h = rw (wrong, e) (inr (refl, refl))

  text-Guards :
      (name : String) (args : Fields) (rest : Bool) (next : String → Result ToolError Report)
      → ((s : String) → Guards rest (next s))
      → Guards
          (has_type "string" (lookup name (entries args)) && rest)
          (text_arg name args >>= next)
  text-Guards name args rest next =
      Reads-Guards _ rest (text_arg name args) next
        (as_text-Reads name (lookup name (entries args)))

  object-Guards :
      (name : String) (args : Fields) (rest : Bool) (next : Fields → Result ToolError Report)
      → ((fs : Fields) → Guards rest (next fs))
      → Guards
          (has_type "object" (lookup name (entries args)) && rest)
          (object_arg name args >>= next)
  object-Guards name args rest next =
      Reads-Guards _ rest (object_arg name args) next
        (as_object-Reads name (lookup name (entries args)))

  tools-Aligned : (args : Fields) → Aligned args list_tools (tools pf tl explain show reg)
  unfolding list_tools tools lookup validate_config test_cel_expression render_template test_reactor
  tools-Aligned args =
      let cel =
        text-Guards "expression" args _ _ (λ s. object-Guards "event" args _ _ (λ fs. inl refl)) in
      let tmpl =
        text-Guards "template" args _ _ (λ s. object-Guards "event" args _ _ (λ fs. inl refl)) in
      let dry = text-Guards "config" args _ _ (λ c.
        text-Guards "reactor" args _ _ (λ n. object-Guards "event" args _ _ (λ fs. inl refl))) in
      (
        (refl, inl refl),
        (
          (refl, text-Guards "config" args _ _ (λ s. inl refl)),
          ((refl, cel), ((refl, tmpl), ((refl, dry), ((refl, inl refl), tt)))),
        ),
      )

  -- A call of a tool that is not listed answers that it is unknown; a call of a listed one with
  -- arguments that lack a required name, or have a value of another type than described under one,
  -- answers an error. So an answer that is no error is that of a listed tool to arguments as described.
  pub call_tool-Conforms :
      (name : String) (args : Fields)
      → Conforms list_tools name args (call_tool (tools pf tl explain show reg) name args)
  call_tool-Conforms name args = Aligned-Conforms name args list_tools _ (tools-Aligned args)
