-- ===== src/Registry/Loads.antt =====
-- Reading a profile's files for a manifest: src/ap_gate/profiles.py, with its cache. A path that
-- leaves the registry's root is read as no directory.
use mathlib.Core.Option
use analysis_package.Base.{
  String, Bool, true, false, not, ◌&&◌, ◌||◌, Option, none, some, List, [], ◌∷◌, str_eq, is_some,
  if◌then◌else◌,
}
use analysis_package.Base.Exec.{Exec, pure, raise, gets, modify, ◌>>=◌, ◌>>◌}
use analysis_package.Base.Json.{Json, text}
use analysis_package.Base.Table.{find}
use analysis_package.Base.Text.{contains}
use analysis_package.Base.Text.Split.{split, partition}
use analysis_package.Registry.{Files, Registry, Cached, find_profile, find_version, named_file}

-- a directory at or below the registry's root
pub data Place : Type 0 where
  root : Place
  in_profile : String → Place
  in_version : String → String → Place

unfoldable pub parent : Place → Option Place
parent root = none
parent (in_profile name) = some root
parent (in_version name version) = some (in_profile name)

unfoldable pub child : String → Place → Registry → Option Place
child segment root s = if is_some (find_profile segment s) then some (in_profile segment) else none
child segment (in_profile name) s =
    if is_some (find_version name segment s) then some (in_version name segment) else none
child segment (in_version name version) s = none

-- one component of a path; "" and "." stay, ".." goes up
unfoldable pub enter : String → Place → Registry → Option Place
enter segment place s =
    if str_eq segment "" || str_eq segment "."
    then some place
    else if str_eq segment ".."
    then parent place
    else child segment place s

unfoldable pub walk : List String → Option Place → Registry → Option Place
walk [] place s = place
walk (segment ∷ segments) none s = none
walk (segment ∷ segments) (some place) s = walk segments (enter segment place s) s

-- `registry_root / name / version`, if it is a directory; a version that starts with the separator
-- is an absolute path, and leaves the root
unfoldable pub version_dir : String → String → Registry → Option Place
version_dir name version s =
    if str_eq (partition 47 version).0 "" && contains 47 version
    then none
    else walk (name ∷ split 47 version) (some root) s

-- the content of `filename` in a directory, if it is a file
unfoldable pub file_at : String → Place → Registry → Option Json
file_at filename (in_version name version) s = elim (find_version name version s) [
  | none ↦ none
  | some v ↦ Option.map (λ (file : String × Json). file.1) (find (named_file filename) v.files)
]
file_at filename _ s = none

pub data LoadError : Type 0 where
  unknown_profile_version : LoadError

abbrev pub is_entry : String → String → String → Cached → Bool
is_entry name version filename entry =
    str_eq entry.name name && str_eq entry.version version && str_eq entry.filename filename

-- `_REGISTRY_FILE_CACHE[cache_key] = content`
unfoldable pub store_entry : String → String → String → Option Json → Registry → Registry
store_entry name version filename content s = record s {
  cache =
      record { name = name; version = version; filename = filename; content = content } ∷ s.cache;
}

-- the content, from the cache or else from the directory, with what it leaves in the cache
unfoldable pub read_through :
    String → String → String → Place → Option Cached → Exec Registry LoadError (Option Json)
read_through name version filename place (some entry) = pure entry.content
read_through name version filename place none = do
  content ← gets (file_at filename place)
  modify (store_entry name version filename content)
  pure content

-- `_read_registry_file`: the content, and whether the version is known
unfoldable pub read_registry_file :
    String → String → String → Exec Registry LoadError (Option Json × Bool)
read_registry_file name version filename = do
  dir ← gets (version_dir name version)
  elim dir [
    | none ↦ pure (none, false)
    | some place ↦ (do
      hit ← gets (λ s. find (is_entry name version filename) s.cache)
      content ← read_through name version filename place hit
      pure (content, true))
  ]

-- `profile_short_name`, of a manifest's value
unfoldable pub profile_short_name : Json → Option String
profile_short_name (text s) = if str_eq s "" then none else some (partition 47 s).0
profile_short_name _ = none

-- `resolve_profile_declaration`
unfoldable pub resolve_profile_declaration : Json → Option (String × String)
resolve_profile_declaration (text s) =
    let name = (partition 47 s).0 in
    let version = (partition 47 s).1 in
    if str_eq s "" || not (contains 47 s) || str_eq name "" || str_eq version ""
    then none
    else some (name, version)
resolve_profile_declaration _ = none

-- `PROFILES_ROOT / name / filename`, in the repository's tree
unfoldable pub vendored_file : (String → Option Files) → String → String → Option Json
vendored_file vendored name filename = elim (vendored name) [
  | none ↦ none
  | some files ↦ Option.map (λ (file : String × Json). file.1) (find (named_file filename) files)
]

-- the repository's `profiles/` tree is a parameter
module _ (vendored : String → Option Files) (has_registry fail_closed : Bool) where
  -- the last lines of `_load_profile_file`, for a known name
  unfoldable pub load_declared :
      String → String → Option (String × String) → Exec Registry LoadError (Option Json)
  load_declared filename name none = pure (vendored_file vendored name filename)
  load_declared filename name (some declared) =
      if not has_registry then pure (vendored_file vendored name filename) else (do
        found ← read_registry_file name declared.1 filename
        if found.1
            then pure found.0
            else if fail_closed
            then raise unknown_profile_version
            else pure (vendored_file vendored name filename))

  -- `_load_profile_file`; `not name` also refuses an empty name
  unfoldable pub load_profile_file : String → Json → Exec Registry LoadError (Option Json)
  load_profile_file filename profile = elim (profile_short_name profile) [
    | none ↦ pure none
    | some name ↦
        if str_eq name ""
        then pure none
        else load_declared filename name (resolve_profile_declaration profile)
  ]
