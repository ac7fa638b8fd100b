-- ===== src/Template.antt =====
-- pkg/template/template.go: templates. Parsing a template and executing it with the functions of
-- `funcMap` are text/template's; of these functions the two that are written here are below.
use event_reactor.Base.{[], ◌∷◌, String, if◌then◌else◌}
use event_reactor.Base.Dict.{Dict, is_empty}
use event_reactor.Base.Result.{Result, ok, ◌>>=◌, map_err}
use event_reactor.Base.Value.{Value, null, str, Fields}

pub data RenderError : Type 0 where
  parsing executing : String → RenderError

-- The functions of package strings by their names, and those of this package.
pub data Function : Type 0 where
  to_upper to_lower trim_space contains has_prefix has_suffix replace_all split join trim_prefix
        trim_suffix :
      Function
  of_two : (Value → Value → Value) → Function
  of_one : (Value → Result String String) → Function

pub record Engine : Type 1 where
  pub Template : Type 0
  -- with missingkey=zero
  pub parse : Dict Function → String → Result String Template
  pub execute : Template → Fields → Result String String
  -- json.Marshal
  pub marshal : Value → Result String String

-- An untyped nil and an empty string are replaced.
unfoldable pub default_val : (dflt val : Value) → Value
default_val dflt null = dflt
default_val dflt (str s) = if is_empty s then dflt else str s
default_val dflt val = val

module _ (en : Engine) where
  unfoldable pub to_json : Value → Result String String
  to_json v = do b ← en.marshal v; ok b

  unfoldable pub func_map : Dict Function
  func_map =
      ("upper", to_upper)
      ∷ ("lower", to_lower)
      ∷ ("trimSpace", trim_space)
      ∷ ("contains", contains)
      ∷ ("hasPrefix", has_prefix)
      ∷ ("hasSuffix", has_suffix)
      ∷ ("replace", replace_all)
      ∷ ("split", split)
      ∷ ("join", join)
      ∷ ("trimPrefix", trim_prefix)
      ∷ ("trimSuffix", trim_suffix)
      ∷ ("default", of_two default_val)
      ∷ ("toJSON", of_one to_json)
      ∷ []

  unfoldable pub render : String → Fields → Result RenderError String
  render tmpl fs = do
    t ← map_err parsing (en.parse func_map tmpl)
    map_err executing (en.execute t fs)
