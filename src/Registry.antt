-- ===== src/Registry.antt =====
-- The versioned profile registry: src/ap_registry/profile_registry.py. Under the registry's root a
-- profile is a directory of immutable versions with a pointer and a changelog; the cache of
-- src/ap_gate/profiles.py is beside it, since each write drops entries of it.
pub mod Versions
pub mod Effects
pub mod Loads
pub mod LoadEffects
pub mod Calls
pub mod Places
pub mod Cache
pub mod Pointer
pub mod Bumped
pub mod Order
pub mod Immutable
use mathlib.Core.Option
use analysis_package.Base.{
  ℕ, String, Bool, true, false, not, ◌&&◌, ◌||◌, Option, none, some, List, [], ◌∷◌, ◌++◌, map,
  str_eq, is_some, if◌then◌else◌,
}
use analysis_package.Base.Exec.{Exec, pure, raise, gets, require_some, guard, modify, ◌>>=◌, ◌>>◌}
use analysis_package.Base.Json.{Json}
use analysis_package.Base.Table.{find, update_where, select}
use analysis_package.Base.Text.{contains, ends_with}
use analysis_package.Registry.Versions.{version_sort_key, key_lt}

-- a directory's files, each name once
abbrev pub Files : Type 0
Files = List (String × Json)

pub record Version : Type 0 where
  pub version : String
  pub files : Files

-- a line of `_changelog.jsonl`
pub record LogRow : Type 0 where
  pub version : String
  pub previous : Option String
  pub note : String
  pub actor : Option String
  pub ts : ℕ

-- the directory of a profile, its last version first; `pointer` is what `_pointer.json` holds
pub record Profile : Type 0 where
  pub name : String
  pub versions : List Version
  pub pointer : Option String
  pub changelog : List LogRow

-- an entry of `_REGISTRY_FILE_CACHE`, for the one root
pub record Cached : Type 0 where
  pub name : String
  pub version : String
  pub filename : String
  pub content : Option Json

pub record Registry : Type 0 where
  pub profiles : List Profile
  pub cache : List Cached

abbrev pub empty_registry : Registry
empty_registry = record { profiles = []; cache = [] }

pub data RegistryError : Type 0 where
  invalid_component not_greater already_exists os_error : RegistryError

-- `_validate_registry_component`. A path is absolute just where it starts with the separator.
unfoldable pub is_component : String → Bool
is_component s =
    not (str_eq s "" || str_eq s "." || str_eq s ".." || contains 0 s)
    && not (contains 47 s || contains 92 s)

unfoldable pub all_components : Files → Bool
all_components [] = true
all_components (file ∷ files) = is_component file.0 && all_components files

abbrev pub named_profile : String → Profile → Bool
named_profile name p = str_eq p.name name

abbrev pub named_version : String → Version → Bool
named_version version v = str_eq v.version version

abbrev pub named_file : String → String × Json → Bool
named_file filename file = str_eq file.0 filename

unfoldable pub find_profile : String → Registry → Option Profile
find_profile name s = find (named_profile name) s.profiles

unfoldable pub versions_of : Option Profile → List Version
versions_of none = []
versions_of (some p) = p.versions

-- the files of one version directory
unfoldable pub find_version : String → String → Registry → Option Version
find_version name version s = find (named_version version) (versions_of (find_profile name s))

unfoldable pub pointer_of : Option Profile → Option String
pointer_of none = none
pointer_of (some p) = p.pointer

-- `is_seeded`, and the text of the pointer
unfoldable pub pointer : String → Registry → Option String
pointer name s = pointer_of (find_profile name s)

abbrev pub M : Type 0 → Type 0
M A = Exec Registry RegistryError A

-- `_name_dir`
unfoldable pub name_dir : String → M (Unit {0})
name_dir name = guard (is_component name) invalid_component

-- `current_version`
unfoldable pub current_version : String → M (Option String)
current_version name = do name_dir name; gets (pointer name)

-- the files that `glob("*.json")` finds
unfoldable pub json_files : Files → Files
json_files files = select (λ file. ends_with ".json" file.0) files

-- `read_version` of a version that a pointer names
unfoldable pub read_version : String → String → Registry → Option Files
read_version name version s =
    Option.map (λ (v : Version). json_files v.files) (find_version name version s)

-- `invalidate_registry_cache(name=name)`
unfoldable pub drop_cached : String → Registry → Registry
drop_cached name s = record s { cache = select (λ entry. not (str_eq entry.name name)) s.cache }

-- the directory of a profile that nobody wrote yet
abbrev pub empty_profile : String → Profile
empty_profile name = record { name = name; versions = []; pointer = none; changelog = [] }

-- `mkdir(parents=True, exist_ok=True)` of a profile's directory
unfoldable pub make_dir : String → Registry → Registry
make_dir name s =
    if is_some (find_profile name s)
    then s
    else record s { profiles = s.profiles ++ empty_profile name ∷ [] }

unfoldable pub update_profile : String → (Profile → Profile) → Registry → Registry
update_profile name f s = record s { profiles = update_where (named_profile name) f s.profiles }

abbrev pub add_version : String → Files → Profile → Profile
add_version version files p = record p {
  versions = record { version = version; files = files } ∷ p.versions;
}

-- `final_dir.exists()`: a version, or one of the two files beside the versions
unfoldable pub is_taken : String → String → Registry → Bool
is_taken name version s =
    is_some (find_version name version s)
    || (str_eq version "_pointer.json" && is_some (pointer name s))
    || (str_eq version "_changelog.jsonl" && has_rows (find_profile name s))
  where
    has_rows : Option Profile → Bool
    has_rows none = false
    has_rows (some p) = elim p.changelog [ [] ↦ false | row ∷ rows ↦ true ]

-- `_write_version_dir`
unfoldable pub write_version_dir : String → String → Files → M (Unit {0})
write_version_dir name version files = do
  name_dir name
  guard (is_component version) invalid_component
  guard (all_components files) invalid_component
  modify (make_dir name)
  taken ← gets (is_taken name version)
  guard (not taken) already_exists
  modify (update_profile name (add_version version files))

-- a directory of this name stands in the way of the file
abbrev pub is_blocked : String → String → Registry → Bool
is_blocked name filename s = is_some (find_version name filename s)

-- `_write_pointer`, through `_pointer.json.tmp`
unfoldable pub write_pointer : String → String → M (Unit {0})
write_pointer name version = do
  blocked ← gets (λ s. is_blocked name "_pointer.json.tmp" s || is_blocked name "_pointer.json" s)
  guard (not blocked) os_error
  modify (update_profile name (λ p. record p { pointer = some version }))

-- `_append_changelog`
unfoldable pub append_changelog : String → LogRow → M (Unit {0})
append_changelog name row = do
  blocked ← gets (is_blocked name "_changelog.jsonl")
  guard (not blocked) os_error
  modify (update_profile name (λ p. record p { changelog = p.changelog ++ row ∷ [] }))

-- `changed_files` on top of the files: None takes a file away
unfoldable pub put_file : String → Json → Files → Files
put_file filename content files =
    if is_some (find (named_file filename) files)
    then update_where (named_file filename) (λ file. (filename, content)) files
    else files ++ (filename, content) ∷ []

unfoldable pub change_file : String → Option Json → Files → Files
change_file filename none files = select (λ file. not (named_file filename file)) files
change_file filename (some content) files = put_file filename content files

unfoldable pub change_files : List (String × Option Json) → Files → Files
change_files [] files = files
change_files ((filename, content) ∷ changes) files =
    change_files changes (change_file filename content files)

-- `self.read_version(name, current) or {}`, and `{}` without a current version
unfoldable pub base_files : String → Option String → Registry → Files
base_files name none s = []
base_files name (some current) s =
    if str_eq current "" then [] else Option.get_or (read_version name current s) []

-- `new_version` does not come after `current`
unfoldable pub is_behind : String → Option String → Bool
is_behind new_version none = false
is_behind new_version (some current) =
    not (key_lt (version_sort_key current) (version_sort_key new_version))

-- `seed_version`
unfoldable pub seed_version : String → String → Files → M (Unit {0})
seed_version name version files = do
  write_version_dir name version files
  write_pointer name version
  modify (drop_cached name)

-- the repository's `profiles/` tree is a parameter: the JSON files of a directory of it
module _ (vendored : String → Option Files) where
  -- the part of `ensure_seeded` behind the early return
  unfoldable pub seed : ℕ → String → String → M String
  seed now name initial_version = do
    write_version_dir name initial_version (Option.get_or (vendored name) [])
    write_pointer name initial_version
    append_changelog name (record {
      version = initial_version;
      previous = none;
      note =
          if is_some (vendored name)
          then "seeded from repo profiles/ tree"
          else "seeded empty (no repo profile found)";
      actor = none;
      ts = now;
    })
    modify (drop_cached name)
    pure initial_version

  -- `ensure_seeded`
  unfoldable pub ensure_seeded : ℕ → String → String → M String
  ensure_seeded now name initial_version = do
    existing ← current_version name
    elim existing [ some version ↦ pure version | none ↦ seed now name initial_version ]

  -- `bump_version`
  unfoldable pub bump_version :
      ℕ → String → String → List (String × Option Json) → String → Option String → M String
  bump_version now name new_version changed_files note actor = do
    ensure_seeded now name "0.1"
    current ← current_version name
    guard (not (is_behind new_version current)) not_greater
    base ← gets (base_files name current)
    write_version_dir name new_version (change_files changed_files base)
    write_pointer name new_version
    append_changelog name
        (record { version = new_version; previous = current; note = note; actor = actor; ts = now })
    modify (drop_cached name)
    pure new_version
