-- ===== src/Gate/Confined.antt =====
-- No check on a package reads outside it: src/ap_gate/checks/pathsafe.py and the checks that use it.
use mathlib.Core.Path.{fun_ext, subst}
use mathlib.Core.Option
use analysis_package.Base.{
  String, ◌≡◌, refl, ap, ◌∙◌, Bool, true, Option, none, some, [], ◌∷◌, arith, Bool-cases,
  Option-cases, inl, inr, if◌then◌else◌, str_eq_refl,
}
use analysis_package.Base.Json.{Json, Fields}
use analysis_package.Base.Text.Split.{split}
use analysis_package.Gate.{CheckOutcome}
use analysis_package.Gate.Declared.{
  engines_pinned, output_contract_files, check_engines_pinned, check_output_contract_files,
}
use analysis_package.Gate.Layout.{
  has_regular, has_directory, is_regular, is_directory, layout_dirs, guideline_exists, labels_paths,
  check_layout_dirs, check_guideline_exists, check_labels_paths,
}
use analysis_package.Gate.Paths.{
  FileSystem, PathParts, Look, look, look_at, resolve_contained, resolve, is_within, is_absolute,
  append_part,
}
use analysis_package.Gate.Pinned.{inputs_pinned, check_inputs_pinned}

-- two file systems that have the same files in a directory
abbrev pub AgreeWithin : PathParts → FileSystem → FileSystem → Type 0
AgreeWithin pkg fs other = (path : PathParts) → is_within pkg path ≡ true → fs path ≡ other path

-- What `resolve_contained` returns is in the package's directory.
pub resolve_contained_lem :
    (pkg path : PathParts) (rel_path : String)
    → resolve_contained pkg rel_path ≡ some path
    → is_within pkg path ≡ true
unfolding resolve_contained
resolve_contained_lem pkg path rel_path h =
    by_candidate (resolve (if is_absolute rel_path then [] else pkg) (split 47 rel_path)) h
  where
    by_candidate :
        (candidate : PathParts)
        → (if is_within pkg candidate then some candidate else none) ≡ some path
        → is_within pkg path ≡ true
    by_candidate candidate e = elim (Bool-cases (is_within pkg candidate)) [
      | inl within ↦
          subst (λ p. is_within pkg p ≡ true)
            (Option.some-injective candidate path (ground (arith, within, e))) within
      | inr outside ↦ absurd (ground (arith, outside, e))
    ]

is_within-append_part :
    (pkg : PathParts) (name : String) → is_within pkg (append_part pkg name) ≡ true
unfolding is_within append_part
is_within-append_part [] name = refl
is_within-append_part (part ∷ pkg) name =
    ground (arith, str_eq_refl part, is_within-append_part pkg name)

module _ (pkg : PathParts) (fs other : FileSystem) (agree : AgreeWithin pkg fs other) where
  look_agrees : (rel_path : String) → look fs pkg rel_path ≡ look other pkg rel_path
  unfolding look
  look_agrees rel_path = elim (Option-cases (resolve_contained pkg rel_path)) [
    | inl outside ↦ ground (arith, outside)
    | inr (path, found) ↦
        ground
          (arith, found, ap look_at (agree path (resolve_contained_lem pkg path rel_path found)))
  ]

  looks : look fs pkg ≡ look other pkg
  looks = fun_ext look_agrees

  files_agree : (name : String) → has_regular fs pkg name ≡ has_regular other pkg name
  unfolding has_regular
  files_agree name = ap is_regular (agree (append_part pkg name) (is_within-append_part pkg name))

  directories_agree : (name : String) → has_directory fs pkg name ≡ has_directory other pkg name
  unfolding has_directory
  directories_agree name =
      ap is_directory (agree (append_part pkg name) (is_within-append_part pkg name))

  -- a check of the layout, by how the package answers
  answers_agree :
      (check : (String → Look) → (String → Bool) → (String → Bool) → Fields → Option CheckOutcome)
      (manifest : Fields)
      → check (look fs pkg) (has_regular fs pkg) (has_directory fs pkg) manifest
        ≡ check (look other pkg) (has_regular other pkg) (has_directory other pkg) manifest
  answers_agree check manifest =
      ap (λ at. check at (has_regular fs pkg) (has_directory fs pkg) manifest) looks
      ∙ ap (λ files. check (look other pkg) files (has_directory fs pkg) manifest)
          (fun_ext files_agree)
      ∙ ap (λ dirs. check (look other pkg) (has_regular other pkg) dirs manifest)
          (fun_ext directories_agree)

  -- The six checks on declared paths and layout have the same outcome, or raise alike, in any two
  -- file systems that agree inside the package's directory, whatever paths the manifest declares.
  pub checks_read_package :
      (sha256 : String → String) (print : Json → String) (manifest : Fields)
      → (check_inputs_pinned sha256 print fs pkg manifest
          ≡ check_inputs_pinned sha256 print other pkg manifest)
        × (check_engines_pinned print fs pkg manifest
            ≡ check_engines_pinned print other pkg manifest)
        × (check_output_contract_files print fs pkg manifest
            ≡ check_output_contract_files print other pkg manifest)
        × (check_layout_dirs fs pkg manifest ≡ check_layout_dirs other pkg manifest)
        × (check_guideline_exists fs pkg manifest ≡ check_guideline_exists other pkg manifest)
        × (check_labels_paths fs pkg manifest ≡ check_labels_paths other pkg manifest)
  unfolding check_inputs_pinned check_engines_pinned check_output_contract_files check_layout_dirs
      check_guideline_exists check_labels_paths
  checks_read_package sha256 print manifest = (
    ap (λ at. inputs_pinned sha256 print at manifest) looks,
    ap (λ at. engines_pinned print at manifest) looks,
    ap (λ at. output_contract_files print at manifest) looks,
    answers_agree layout_dirs manifest,
    answers_agree guideline_exists manifest,
    answers_agree labels_paths manifest,
  )
