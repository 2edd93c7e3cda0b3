-- ===== src/Gate/Paths.antt =====
-- Where a path that a manifest declares leads: src/ap_gate/checks/pathsafe.py. A file system says
-- what stands at a resolved absolute path; it has no symbolic links, which an uploaded archive
-- cannot hold.
use analysis_package.Base.{
  String, Bool, true, false, ◌&&◌, ◌||◌, Option, none, some, List, [], ◌∷◌, str_eq, if◌then◌else◌,
}
use analysis_package.Base.Text.{contains}
use analysis_package.Base.Text.Split.{split, partition}

pub data Node : Type 0 where
  missing : Node
  directory : Node
  regular : String → Node

-- the components of a resolved absolute path, the first one first
abbrev pub PathParts : Type 0
PathParts = List String

abbrev pub FileSystem : Type 0
FileSystem = PathParts → Node

-- all but the last component
unfoldable pub parent_of : PathParts → PathParts
parent_of [] = []
parent_of (part ∷ []) = []
parent_of (part ∷ next ∷ parts) = part ∷ parent_of (next ∷ parts)

unfoldable pub append_part : PathParts → String → PathParts
append_part [] part = part ∷ []
append_part (first ∷ parts) part = first ∷ append_part parts part

-- one component of `Path.resolve`; ".." of the root is the root
unfoldable pub step_into : PathParts → String → PathParts
step_into parts segment =
    if str_eq segment "" || str_eq segment "."
    then parts
    else if str_eq segment ".."
    then parent_of parts
    else append_part parts segment

unfoldable pub resolve : PathParts → List String → PathParts
resolve parts [] = parts
resolve parts (segment ∷ segments) = resolve (step_into parts segment) segments

-- `p.relative_to(base)` does not raise
unfoldable pub is_within : PathParts → PathParts → Bool
is_within [] parts = true
is_within (b ∷ base) [] = false
is_within (b ∷ base) (part ∷ parts) = str_eq b part && is_within base parts

-- an absolute right-hand side replaces the left-hand side
unfoldable pub is_absolute : String → Bool
is_absolute rel_path = str_eq (partition 47 rel_path).0 "" && contains 47 rel_path

-- `resolve_contained`
unfoldable pub resolve_contained : PathParts → String → Option PathParts
resolve_contained pkg rel_path =
    let candidate = resolve (if is_absolute rel_path then [] else pkg) (split 47 rel_path) in
    if is_within pkg candidate then some candidate else none

-- what a check does with a declared path: `resolve_contained`, `is_file`, and reading the file
pub data Look : Type 0 where
  escapes no_file : Look
  has_file : String → Look

abbrev pub look_at : Node → Look
look_at (regular content) = has_file content
look_at _ = no_file

unfoldable pub look : FileSystem → PathParts → String → Look
look fs pkg rel_path = elim (resolve_contained pkg rel_path) [
  | none ↦ escapes
  | some path ↦ look_at (fs path)
]
