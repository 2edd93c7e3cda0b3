-- ===== src/Gate/Declared.antt =====
-- The checks on declared engines and outputs: src/ap_gate/checks/engines.py and
-- src/ap_gate/checks/outputs.py. Python's print of a value is a parameter; none is the
-- TypeError or AttributeError of a manifest whose values have the wrong types.
use mathlib.Core.Option
use Prim.Native.String.{◌++◌ as text_append}
use analysis_package.Base.{
  ℕ, String, Bool, true, false, not, Option, none, some, [], ◌∷◌, str_eq, if◌then◌else◌,
}
use analysis_package.Base.Json.{
  Json, boolean, object, Fields, get_field, is_truthy, items_or_none, count_items,
}
use analysis_package.Base.Text.Number.{show_nat}
use analysis_package.Gate.{CheckOutcome}
use analysis_package.Gate.Paths.{Look, escapes, no_file, has_file, FileSystem, PathParts, look}
use analysis_package.Gate.Found.{
  Found, fine, one_ok, problem, problem_at, both, both_or_raise, each, joined, verdict, indexed,
  with_path, label,
}

module _ (print : Json → String) (at : String → Look) where
  -- the lines of `check_engines_pinned` on the engine's path
  unfoldable pub check_engine_file : String → ℕ → String → Look → Found
  check_engine_file name i rel_path escapes =
      problem_at
        (joined
          (name ∷ ": declared path '" ∷ rel_path ∷ "' resolves outside the package directory" ∷ []))
        rel_path
  check_engine_file name i rel_path no_file =
      problem_at
        (joined (
          name
          ∷ ": declared path '"
          ∷ rel_path
          ∷ "' does not exist - drop engines["
          ∷ show_nat i
          ∷ "].path if this engine has no code yet, or add the file"
          ∷ []))
        rel_path
  check_engine_file name i rel_path (has_file content) = fine

  unfoldable pub is_boolean : Json → Bool
  is_boolean (boolean b) = true
  is_boolean _ = false

  -- `name`, `version` and `deterministic` of an engine
  unfoldable pub check_engine_fields : ℕ → Fields → Found
  check_engine_fields i item =
      let name = label print "engines" i item in
      both
        (if is_truthy (get_field "name" item)
          then fine
          else problem (text_append (indexed "engines" i) ": missing name"))
        (both
          (if is_truthy (get_field "version" item)
            then fine
            else problem (text_append name ": missing version"))
          (if is_boolean (get_field "deterministic" item)
            then fine
            else problem (text_append name ": deterministic must be true or false")))

  -- the body of the loop of `check_engines_pinned`
  unfoldable pub check_engine : ℕ → Json → Option Found
  check_engine i (object item) = both_or_raise (some (check_engine_fields i item)) (
      if is_truthy (get_field "path" item)
      then with_path (get_field "path" item)
          (λ path. some (check_engine_file (label print "engines" i item) i path (at path)))
      else some fine)
  check_engine i _ = some (problem (text_append (indexed "engines" i) " is not an object"))

  -- `check_engines_pinned`
  unfoldable pub engines_pinned : Fields → Option CheckOutcome
  engines_pinned manifest = elim (items_or_none (get_field "engines" manifest)) [
    | none ↦ none
    | some engines ↦
        Option.map
          (verdict "engines_pinned" "Engine declaration problems:\n" "" (
            text_append (show_nat (count_items engines))
              " engine(s) declared with name/version/deterministic"))
          (each check_engine 0 engines)
  ]

  -- the lines of `check_output_contract_files` behind `rel_path`
  unfoldable pub check_output_file : String → String → Look → Found
  check_output_file name rel_path escapes =
      problem_at
        (joined (
          name ∷ ": declared output '" ∷ rel_path ∷ "' resolves outside the package directory"
          ∷ []))
        rel_path
  check_output_file name rel_path no_file =
      problem_at
        (joined (
          name ∷ ": declared output '" ∷ rel_path
          ∷ "' does not exist - generate it, or remove this output_contract entry if '" ∷ name
          ∷ "' isn't produced yet" ∷ []))
        rel_path
  check_output_file name rel_path (has_file content) =
      if str_eq content ""
      then problem_at
          (joined
            (name ∷ ": declared output '" ∷ rel_path ∷ "' exists but is empty (0 bytes)" ∷ []))
          rel_path
      else one_ok

  -- the body of the loop of `check_output_contract_files`
  unfoldable pub check_output : ℕ → Json → Option Found
  check_output i (object item) =
      let name = label print "output_contract" i item in
      let rel_path = get_field "path" item in
      if not (is_truthy rel_path)
      then some (
          problem (
            joined (
              name
              ∷ ": output_contract entry has no path - add "
              ∷ indexed "output_contract" i
              ∷ ".path"
              ∷ [])))
      else with_path rel_path λ path. some (check_output_file name path (at path))
  check_output i _ = some (problem (text_append (indexed "output_contract" i) " is not an object"))

  -- `check_output_contract_files`
  unfoldable pub output_contract_files : Fields → Option CheckOutcome
  output_contract_files manifest = elim (items_or_none (get_field "output_contract" manifest)) [
    | none ↦ none
    | some contract ↦
        Option.map
          (λ (found : Found).
            verdict "output_contract_files" "Output contract problems:\n" ""
              (joined (
                show_nat found.oks
                ∷ "/"
                ∷ show_nat (count_items contract)
                ∷ " output_contract files present and non-empty"
                ∷ []))
              found)
          (each check_output 0 contract)
  ]

module _ (print : Json → String) (fs : FileSystem) (pkg : PathParts) where
  unfoldable pub check_engines_pinned : Fields → Option CheckOutcome
  check_engines_pinned = engines_pinned print (look fs pkg)

  unfoldable pub check_output_contract_files : Fields → Option CheckOutcome
  check_output_contract_files = output_contract_files print (look fs pkg)
