-- ===== src/Cleaners.antt =====
-- `CleanerRegistry` of src/etl/cleaner_registry.py over the files of its directory. `ast` is a
-- parameter; the paths are those that `pathlib` splits.
pub mod Reloads
pub mod Editing
mod Tests
use tdcs.Prelude.{
  ℕ, String, Option, none, some, List, [], ◌∷◌, map, keep, Bool, true, false, not, ◌&&◌, ◌||◌, ◌==◌,
  Eq, eq_iff, text_eq, if◌then◌else◌, ◌≡◌, ◌↔◌, arith,
}
use tdcs.Prelude.Dict.{Dict, get, put, pop}
use tdcs.Prelude.Text.{Text}
use tdcs.Archive.{File}

-- `path.stem` and `path.suffix` of a file in the directory
pub record TemplatePath : Type 0 where
  pub stem : String
  pub suffix : String

abbrev pub same_path : TemplatePath → TemplatePath → Bool
same_path p q = p.stem == q.stem && p.suffix == q.suffix

pub same_path_iff : (p q : TemplatePath) → (same_path p q ≡ true) ↔ (p ≡ q)
same_path_iff p q = ground (arith, eq_iff p.stem q.stem, eq_iff p.suffix q.suffix)

instance abbrev pub path_eq : Eq TemplatePath
path_eq = record { beq = same_path; beq_iff = same_path_iff }

-- what the directory holds
abbrev pub Dir : Type 0
Dir = Dict TemplatePath File

pub record TemplateInfo : Type 0 where
  pub name : String
  pub path : TemplatePath
  pub description : Text
  pub mtime : ℕ
  pub valid : Bool
  pub error : String

abbrev pub Registry : Type 0
Registry = Dict String TemplateInfo

-- `name in _EXCLUDE`
abbrev pub is_excluded : String → Bool
is_excluded name =
    name == "__init__" || (name == "__pycache__" || (name == "conftest" || name == "setup"))

-- `glob("*.py")`, which also finds a file of the bare name `.py`
abbrev pub is_py : TemplatePath → Bool
is_py p = p.suffix == ".py" || p.stem == ".py" && p.suffix == ""

unfoldable pub on_file_deleted : TemplatePath → Registry → Registry
on_file_deleted path reg = if path.suffix == ".py" then pop path.stem reg else reg

-- a change of the directory, and the events that watchdog then delivers
pub data Change : Type 0 where
  writes : TemplatePath → File → Change
  deletes : TemplatePath → Change
  moves : TemplatePath → TemplatePath → File → Change

abbrev pub change : Change → Dir → Dir
change (writes path file) dir = put path file dir
change (deletes path) dir = pop path dir
change (moves src dst file) dir = put dst file (pop src dir)

module _ (analyze : List ℕ → Text × Bool) where
  -- `TemplateInfo(name, path)`, where `_refresh` finds the file or not
  abbrev pub new_info : String → TemplatePath → Option File → TemplateInfo
  new_info name path none = record {
    name = name;
    path = path;
    description = [];
    mtime = 0;
    valid = false;
    error = "no such file";
  }
  new_info name path (some file) =
      let (docstring, has_func) = analyze file.content in
      record {
        name = name;
        path = path;
        description = docstring;
        mtime = file.mtime;
        valid = has_func;
        error = if has_func then "" else "no clean_data";
      }

  unfoldable pub register : String → TemplatePath → Dir → Registry → Registry
  register name path dir reg = put name (new_info name path (get path dir)) reg

  -- the loop of `_scan`; each file has a name of its own, so `sorted` changes nothing that is kept
  unfoldable pub scan_files : Dir → Dir → Registry → Registry
  unfolding register
  scan_files dir [] reg = reg
  scan_files dir ((path, file) ∷ rest) reg =
      scan_files dir rest
        (if is_py path && not (is_excluded path.stem) then register path.stem path dir reg else reg)

  unfoldable pub scan : Dir → Registry
  unfolding scan_files
  scan dir = scan_files dir dir []

  unfoldable pub on_file_event : TemplatePath → Dir → Registry → Registry
  unfolding register
  on_file_event path dir reg =
      if not (path.suffix == ".py")
      then reg
      else if is_excluded path.stem
      then reg
      else register path.stem path dir reg

  -- the handler's methods, called when the change is done
  abbrev pub deliver : Change → Dir → Registry → Registry
  deliver (writes path file) dir reg = on_file_event path dir reg
  deliver (deletes path) dir reg = on_file_deleted path reg
  deliver (moves src dst file) dir reg = on_file_event dst dir (on_file_deleted src reg)

  abbrev pub after : List Change → Dir × Registry → Dir × Registry
  after [] s = s
  after (c ∷ cs) (dir, reg) = after cs (change c dir, deliver c (change c dir) reg)

-- `list_templates`, before it is sorted and turned into dicts
abbrev pub list_templates : Bool → Registry → List TemplateInfo
list_templates valid_only reg =
    map (λ e. e.1) (keep (λ e. not valid_only || TemplateInfo.valid e.1) reg)

abbrev pub path_of : Option TemplateInfo → Option TemplatePath
path_of none = none
path_of (some info) = if info.valid then some info.path else none

unfoldable pub get_path : String → Registry → Option TemplatePath
get_path name reg = path_of (get name reg)

abbrev pub source_of : Option TemplateInfo → Dir → Option (List ℕ)
source_of none dir = none
source_of (some info) dir = elim (get info.path dir) [ none ↦ none | some file ↦ some file.content ]

-- `get_source`, the bytes before they are decoded
unfoldable pub get_source : String → Registry → Dir → Option (List ℕ)
get_source name reg dir = source_of (get name reg) dir
