-- ===== src/Docs.antt =====
-- cmd/gen-docs/main.go: the reference pages of the commands. What the command line library knows of a
-- command is a record; the writing of a file is the argument `write`, and what `main` finds is a
-- `System`.
pub mod Numbering
pub mod Visits
pub mod Walk
pub mod Links
use Prim.Native.Char.{code}
use Prim.Native.String
use event_reactor.Base.{
  ℕ, ◌+◌, eqb, Bool, true, false, not, ◌&&◌, ◌||◌, Option, none, some, List, [], ◌∷◌, ◌++◌, map,
  select, String, ◌==◌, if◌then◌else◌,
}
use event_reactor.Base.Dict.{is_empty}
use event_reactor.Base.Text.{◌<>◌}
use event_reactor.Reactor.{before}

pub record Info : Type 0 where
  pub name : String
  pub path : String
  pub long : String
  pub short : String
  pub use_line : String
  pub flags : String
  pub inherited : String
  pub available : Bool
  pub hidden : Bool
  pub runnable : Bool
  pub has_parent : Bool

mutual
  -- cobra.Command
  pub data Command : Type 0 where
    command : Info → Commands → Command

  pub data Commands : Type 0 where
    no_commands : Commands
    more_commands : Command → Commands → Commands

-- What package fmt and package strings do of the formatting.
pub record Format : Type 0 where
  pub quote : String → String
  pub show : ℕ → String
  pub trim_space : String → String
  pub trim_newlines : String → String

pub record Page : Type 0 where
  pub path : String
  pub weight : ℕ
  pub text : String

abbrev pub info_of : Command → Info
info_of (command info cs) = info

abbrev pub infos : Commands → List Info
infos no_commands = []
infos (more_commands c cs) = info_of c ∷ infos cs

-- sort.Slice by the names, which are distinct.
unfoldable pub sort_infos_in : Info → List Info → List Info
sort_infos_in i [] = i ∷ []
sort_infos_in i (j ∷ js) =
    let rest = sort_infos_in i js in if before i.name j.name then i ∷ j ∷ js else j ∷ rest

unfoldable pub sort_infos : List Info → List Info
sort_infos [] = []
sort_infos (i ∷ is) = sort_infos_in i (sort_infos is)

-- strings.ReplaceAll(s, " ", "_")
unfoldable pub underscored : String → String
underscored String.[] = ""
underscored (String.◌∷◌ c s) =
    let rest = underscored s in if eqb (code c) b' ' then String.◌∷◌ "_" rest else String.◌∷◌ c rest

abbrev pub file_name : Info → String
file_name info = underscored info.path <> ".md"

abbrev pub listed : Info → Bool
listed c = not ((c.name == "help") || c.hidden || not c.available)

abbrev pub link : Info → String
link c = "- [" <> c.path <> "](" <> file_name c <> ") -- " <> c.short <> "\n"

unfoldable pub links : List Info → String
links [] = ""
links (c ∷ cs) = link c <> links cs

abbrev pub subcommands : List Info → String
subcommands [] = ""
subcommands (c ∷ cs) = "## Subcommands\n\n" <> links (sort_infos (c ∷ cs)) <> "\n"

module _ (fmt : Format) (hugo : Bool) where
  abbrev pub block : String → String → String
  block title text = if is_empty text then "" else title <> "\n\n```\n" <> text <> "\n```\n\n"

  abbrev pub front_matter : Info → ℕ → String
  front_matter c weight =
      if hugo
      then "---\ntitle: " <> fmt.quote c.path <> "\nweight: " <> fmt.show weight <> "\n---\n\n"
      else ""

  abbrev pub description : Info → String
  description c =
      if is_empty c.long
      then if is_empty c.short then "" else fmt.trim_space c.short <> "\n\n"
      else fmt.trim_space c.long <> "\n\n"

  -- `writeDoc` up to os.WriteFile; `dir` is the output directory with its separator.
  unfoldable pub page : (dir : String) → Info → List Info → ℕ → Page
  page dir c subs weight = record {
    path = dir <> file_name c;
    weight = weight;
    text =
        front_matter c weight
        <> "# "
        <> c.path
        <> "\n\n"
        <> description c
        <> (if c.runnable then "## Usage\n\n```\n" <> c.use_line <> "\n```\n\n" else "")
        <> block "## Flags" (fmt.trim_newlines c.flags)
        <> block "## Global Flags" (fmt.trim_newlines c.inherited)
        <> subcommands (select listed subs);
  }

-- The pages that were written, the counter of the weights, and the error.
pub record Written : Type 0 where
  pub pages : List Page
  pub weight : ℕ
  pub error : Option String

-- A child that is to be visited.
pub record Visit : Type 0 where
  pub name : String
  pub hidden : Bool
  pub go : ℕ → Written

unfoldable pub sort_visits_in : Visit → List Visit → List Visit
sort_visits_in v [] = v ∷ []
sort_visits_in v (u ∷ us) =
    let rest = sort_visits_in v us in if before v.name u.name then v ∷ u ∷ us else u ∷ rest

unfoldable pub sort_visits : List Visit → List Visit
sort_visits [] = []
sort_visits (v ∷ vs) = sort_visits_in v (sort_visits vs)

-- What a visit leaves to do: nothing after an error.
abbrev pub then_visit : Written → (ℕ → Written) → Written
then_visit w next = elim w.error [
  | some e ↦ w
  | none ↦
      let rest = next w.weight in
      record { pages = w.pages ++ rest.pages; weight = rest.weight; error = rest.error }
]

abbrev pub is_skipped : Visit → Bool
is_skipped v = (v.name == "help") || v.hidden

-- The loop over the children.
unfoldable pub visit_all : List Visit → ℕ → Written
visit_all [] weight = record { pages = []; weight = weight; error = none }
visit_all (v ∷ vs) weight =
    let rest = visit_all vs weight in
    if is_skipped v then rest else then_visit (v.go weight) (visit_all vs)

-- A command that gets no page, and no page of its children.
abbrev pub is_left_out : Info → Bool
is_left_out c = not c.available && not (is_empty c.name) && c.has_parent

-- A page that is written.
abbrev pub put : (Page → Option String) → Page → Written
put write p = elim (write p) [
  | some e ↦ record { pages = []; weight = p.weight; error = some e }
  | none ↦ record { pages = p ∷ []; weight = p.weight; error = none }
]

module _ (fmt : Format) (hugo : Bool) (dir : String) (write : Page → Option String) where
  unfoldable mutual
    pub walk : Command → ℕ → Written
    walk (command c cs) weight =
        if is_left_out c
        then record { pages = []; weight = weight; error = none }
        else then_visit (put write (page fmt hugo dir c (infos cs) (weight + 1)))
            (visit_all (sort_visits (visits cs)))

    pub visits : Commands → List Visit
    visits no_commands = []
    visits (more_commands c cs) =
        record { name = (info_of c).name; hidden = (info_of c).hidden; go = walk c } ∷ visits cs

  -- `run`; `make_dir` is what making the output directory gives.
  unfoldable pub run : (make_dir : Option String) → Command → Written
  run make_dir root = elim make_dir [
    | some e ↦ record { pages = []; weight = 0; error = some e }
    | none ↦ walk root 0
  ]

-- The flags of the command line.
pub record Options : Type 0 where
  pub doc_path : String
  pub standard : Bool
  pub custom : Bool

-- The status with which the process ends, and the pages that it has written.
pub record Exit : Type 0 where
  pub status : ℕ
  pub pages : List Page

abbrev pub same_flag : Bool → Bool → Bool
same_flag b c = (b && c) || (not b && not c)

-- What `main` has of the program that it is linked to and of the machine: the tree of the commands,
-- filepath.Join up to the name of a file, and the file system.
pub record System : Type 0 where
  pub root : Command
  pub format : Format
  pub directory : String → String
  pub make_dir : String → Option String
  pub write : Page → Option String

abbrev pub status_of : Option String → ℕ
status_of none = 0
status_of (some e) = 1

abbrev pub exit_of : (misused : Bool) → Written → Exit
exit_of true w = record { status = 2; pages = [] }
exit_of false w = record { status = status_of w.error; pages = w.pages }

unfoldable pub main : System → Options → Exit
main sys opts = exit_of (same_flag opts.standard opts.custom) (
    run sys.format opts.custom (sys.directory opts.doc_path) sys.write (sys.make_dir opts.doc_path)
      sys.root)
