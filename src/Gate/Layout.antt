-- ===== src/Gate/Layout.antt =====
-- The checks on a package's layout and its label files: src/ap_gate/checks/layout.py and
-- `check_labels_paths` of src/ap_gate/checks/labels.py.
use mathlib.Core.Option
use Prim.Native.String.{◌++◌ as text_append}
use analysis_package.Base.{
  String, Bool, true, false, not, ◌&&◌, ◌||◌, Option, none, some, List, [], ◌∷◌, ◌++◌,
  if◌then◌else◌,
}
use analysis_package.Base.Json.{
  Json, text, object, Items, nil, cons, Fields, end, get_field, is_truthy, is_text, items_or_none,
}
use analysis_package.Base.Text.{contains}
use analysis_package.Gate.{CheckOutcome, Outcome, outcome}
use analysis_package.Gate.Found.{
  Found, fine, problem, problem_at, both_or_raise, joined, verdict, with_path,
}
use analysis_package.Gate.Paths.{
  Node, directory, regular, Look, escapes, no_file, has_file, FileSystem, PathParts, look,
  append_part,
}

-- `(pkg / name).is_file()` and `(pkg / name).is_dir()`
abbrev pub is_regular : Node → Bool
is_regular (regular content) = true
is_regular _ = false

abbrev pub is_directory : Node → Bool
is_directory directory = true
is_directory _ = false

unfoldable pub has_regular : FileSystem → PathParts → String → Bool
has_regular fs pkg name = is_regular (fs (append_part pkg name))

unfoldable pub has_directory : FileSystem → PathParts → String → Bool
has_directory fs pkg name = is_directory (fs (append_part pkg name))

-- `isinstance(i, dict) and i.get("availability") == "external_ref"`, of every input
unfoldable pub is_external : Json → Bool
is_external (object item) = is_text "external_ref" (get_field "availability" item)
is_external _ = false

unfoldable pub all_external : Items → Bool
all_external nil = true
all_external (cons item items) = is_external item && all_external items

-- `method.get("guideline_path") if isinstance(method, dict) else None`
unfoldable pub guideline_path : Json → Json
guideline_path (object method) = get_field "guideline_path" method
guideline_path _ = Json.null

-- `ctx.manifest.get("labels") or {}`; a truthy value that is no dict has no `get`
unfoldable pub labels_of : Fields → Option Fields
labels_of manifest =
    if is_truthy (get_field "labels" manifest) then dict (get_field "labels" manifest) else some end
  where
    dict : Json → Option Fields
    dict (object fields) = some fields
    dict _ = none

unfoldable pub names_joined : List String → String
names_joined [] = ""
names_joined (s ∷ []) = s
names_joined (s ∷ t ∷ names) = joined (s ∷ "; " ∷ names_joined (t ∷ names) ∷ [])

abbrev absent : Bool → String → List String
absent there name = if there then [] else name ∷ []

-- how the package answers: a declared path, a file at its root, a directory at its root
module _ (at : String → Look) (is_file is_dir : String → Bool) where
  unfoldable pub missing_entries : Items → List String
  missing_entries inputs =
      absent (is_file "MANIFEST.yaml") "MANIFEST.yaml"
      ++ absent (is_dir "inputs" || all_external inputs)
          "inputs/ (required unless every input is availability: external_ref)"
      ++ absent (is_dir "outputs") "outputs/"
      ++ absent (is_dir "labels") "labels/"
      ++ absent (is_dir "qa") "qa/"

  -- `check_layout_dirs`
  unfoldable pub layout_dirs : Fields → Option CheckOutcome
  layout_dirs manifest =
      Option.map (λ (inputs : Items). layout_verdict (missing_entries inputs))
        (items_or_none (get_field "inputs" manifest))
    where
      layout_verdict : List String → CheckOutcome
      layout_verdict [] = outcome "layout_dirs" Outcome.pass "required package directories present"
      layout_verdict (s ∷ names) =
          record (outcome "layout_dirs" Outcome.fail (
            joined (
              "Missing required package layout entries: "
              ∷ names_joined (s ∷ names)
              ∷ " - create them under the package root (see STANDARD.md on-disk layout)."
              ∷ []))) { paths = s ∷ names }

  -- `check_guideline_exists` of a declared path
  unfoldable pub declared_guideline : String → Look → CheckOutcome
  declared_guideline path escapes =
      record (outcome "guideline_exists" Outcome.fail (
        joined (
          "method.guideline_path is set to '" ∷ path
          ∷ "' but that resolves outside the package directory - fix the path." ∷ []))) {
            paths = path ∷ [];
          }
  declared_guideline path no_file =
      record (outcome "guideline_exists" Outcome.fail (
        joined (
          "method.guideline_path is set to '" ∷ path
          ∷ "' but that file does not exist - fix the path, or add the file." ∷ []))) {
            paths = path ∷ [];
          }
  declared_guideline path (has_file content) =
      outcome "guideline_exists" Outcome.pass (text_append "method card found at " path)

  -- `check_guideline_exists`
  unfoldable pub guideline_exists : Fields → Option CheckOutcome
  guideline_exists manifest =
      let path = guideline_path (get_field "method" manifest) in
      if is_truthy path
      then declared path
      else some (
          if is_file "GUIDELINE.md"
          then outcome "guideline_exists" Outcome.pass "GUIDELINE.md found at package root"
          else record (outcome "guideline_exists" Outcome.fail (
              text_append
                "No GUIDELINE.md at the package root and method.guideline_path is not set "
                "- add a GUIDELINE.md method card, or set method.guideline_path in MANIFEST.yaml.")) {
                  paths = "GUIDELINE.md" ∷ [];
                })
    where
      declared : Json → Option CheckOutcome
      declared (text path) =
          if contains 0 path then none else some (declared_guideline path (at path))
      declared _ = none

  -- what is said of a label file
  unfoldable pub check_label_file : String → String → Look → Found
  check_label_file key path escapes =
      problem_at
        (joined (
          "labels." ∷ key ∷ " points to '" ∷ path ∷ "' which resolves outside the package directory"
          ∷ []))
        path
  check_label_file key path no_file =
      problem_at (joined ("labels." ∷ key ∷ " points to '" ∷ path ∷ "' which does not exist" ∷ []))
        path
  check_label_file key path (has_file content) = fine

  -- the body of the loop of `check_labels_paths`
  unfoldable pub check_label : String → Json → Option Found
  check_label key rel_path =
      if not (is_truthy rel_path)
      then some (problem (joined ("labels." ∷ key ∷ " is not set in MANIFEST.yaml" ∷ [])))
      else with_path rel_path (λ path. some (check_label_file key path (at path)))

  unfoldable pub check_label_keys : List String → Fields → Option Found
  check_label_keys [] labels = some fine
  check_label_keys (key ∷ keys) labels =
      both_or_raise (check_label key (get_field key labels)) (check_label_keys keys labels)

  -- `check_labels_paths`
  unfoldable pub labels_paths : Fields → Option CheckOutcome
  labels_paths manifest = elim (labels_of manifest) [
    | none ↦ none
    | some labels ↦
        Option.map labels_verdict (
          check_label_keys ("overrides_path" ∷ "judgments_path" ∷ "truths_applied_path" ∷ [])
            labels)
  ]
    where
      labels_verdict : Found → CheckOutcome
      labels_verdict =
          verdict "labels_paths" "Label file problems (files may be empty, but must exist):\n"
            "\n  Create the missing file(s) (an empty file is valid) and fix any MANIFEST.yaml path."
            "all three label files exist"

module _ (fs : FileSystem) (pkg : PathParts) where
  unfoldable pub check_layout_dirs : Fields → Option CheckOutcome
  check_layout_dirs = layout_dirs (look fs pkg) (has_regular fs pkg) (has_directory fs pkg)

  unfoldable pub check_guideline_exists : Fields → Option CheckOutcome
  check_guideline_exists =
      guideline_exists (look fs pkg) (has_regular fs pkg) (has_directory fs pkg)

  unfoldable pub check_labels_paths : Fields → Option CheckOutcome
  check_labels_paths = labels_paths (look fs pkg) (has_regular fs pkg) (has_directory fs pkg)
