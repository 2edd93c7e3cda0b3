-- ===== src/Gate/Pinned.antt =====
-- The check on declared inputs: src/ap_gate/checks/inputs.py. SHA-256 and Python's print of a value are parameters; none is the
-- TypeError or AttributeError of a manifest whose values have the wrong types.
use mathlib.Core.Option
use Prim.Native.Char.{code}
use Prim.Native.String.{◌++◌ as text_append}
use analysis_package.Base.{
  ℕ, zero, suc, ◌+◌, String, Bool, true, false, not, ◌&&◌, ◌||◌, Option, none, some, [], ◌∷◌,
  str_eq, leb, ◌==◌, if◌then◌else◌,
}
use analysis_package.Base.Json.{
  Json, text, object, Fields, get_field, is_truthy, is_text, items_or_none, count_items,
}
use analysis_package.Base.Text.{contains}
use analysis_package.Base.Text.Number.{show_nat}
use analysis_package.Base.Text.Split.{partition}
use analysis_package.Gate.{CheckOutcome}
use analysis_package.Gate.Paths.{Look, escapes, no_file, has_file, FileSystem, PathParts, look}
use analysis_package.Gate.Found.{
  Found, fine, problem, problem_at, each, joined, verdict, indexed, with_path, label,
}

-- the first `n` characters
unfoldable pub first_chars : ℕ → String → String
first_chars zero s = ""
first_chars (suc n) String.[] = ""
first_chars (suc n) (String.◌∷◌ c s) = String.◌∷◌ c (first_chars n s)

-- a capital ASCII letter in small; no other character has a hexadecimal digit as its small letter
abbrev lower_code : ℕ → ℕ
lower_code c = if leb 65 c && leb c 90 then c + 32 else c

-- `declared.lower() == actual.lower()`
unfoldable pub same_digest : String → String → Bool
same_digest String.[] String.[] = true
same_digest (String.◌∷◌ c s) (String.◌∷◌ d t) =
    lower_code (code c) == lower_code (code d) && same_digest s t
same_digest _ _ = false

-- `declared_hash.split(":", 1)[-1] if ":" in declared_hash else declared_hash`
unfoldable pub declared_digest : String → String
declared_digest hash = if contains 58 hash then (partition 58 hash).1 else hash

module _ (sha256 : String → String) (print : Json → String) (at : String → Look) where
  -- the `if declared_hash:` of `check_inputs_pinned`
  unfoldable pub check_digest : String → String → String → Json → Option Found
  check_digest name rel_path content (text hash) =
      let declared = declared_digest hash in
      let actual = sha256 content in
      if str_eq hash "" || same_digest declared actual
      then some fine
      else some (
          problem_at
            (joined (
              name
              ∷ ": content_sha256 does not match the bytes at '"
              ∷ rel_path
              ∷ "' (declared "
              ∷ first_chars 16 declared
              ∷ "..., actual "
              ∷ first_chars 16 actual
              ∷ "...) - recompute the hash (sha256sum) and update MANIFEST.yaml, or refresh the input snapshot"
              ∷ []))
            rel_path)
  check_digest name rel_path content hash = if is_truthy hash then none else some fine

  -- the lines of `check_inputs_pinned` behind `rel_path`
  unfoldable pub check_input_file : String → Json → String → Look → Option Found
  check_input_file name hash rel_path escapes = some (
      problem_at
        (joined
          (name ∷ ": declared path '" ∷ rel_path ∷ "' resolves outside the package directory" ∷ []))
        rel_path)
  check_input_file name hash rel_path no_file = some (
      problem_at (joined (name ∷ ": declared path '" ∷ rel_path ∷ "' does not exist" ∷ []))
        rel_path)
  check_input_file name hash rel_path (has_file content) = check_digest name rel_path content hash

  -- the body of the loop of `check_inputs_pinned`
  unfoldable pub check_input : ℕ → Json → Option Found
  check_input i (object item) =
      let name = label print "inputs" i item in
      let rel_path = get_field "path" item in
      if is_text "external_ref" (get_field "availability" item)
      then some (
          if is_truthy (get_field "external_ref" item)
          then fine
          else problem (
              text_append name (
                text_append ": availability is external_ref but external_ref is empty "
                  "- set external_ref to a locator, or provide a path instead")))
      else if not (is_truthy rel_path)
      then some (
          problem (
            text_append name (
              text_append ": no path set and not marked availability: external_ref "
                "- add a path under inputs/, or declare availability: external_ref + external_ref")))
      else with_path rel_path
          λ path. check_input_file name (get_field "content_sha256" item) path (at path)
  check_input i _ = some (problem (text_append (indexed "inputs" i) " is not an object"))

  -- `check_inputs_pinned`, on the manifest
  unfoldable pub inputs_pinned : Fields → Option CheckOutcome
  inputs_pinned manifest = elim (items_or_none (get_field "inputs" manifest)) [
    | none ↦ none
    | some inputs ↦
        Option.map
          (verdict "inputs_pinned" "Input pinning problems:\n" "" (
            text_append (show_nat (count_items inputs))
              " input(s) pinned (path/hash or external_ref verified)"))
          (each check_input 0 inputs)
  ]

unfoldable pub check_inputs_pinned :
    (String → String) → (Json → String) → FileSystem → PathParts → Fields → Option CheckOutcome
check_inputs_pinned sha256 print fs pkg = inputs_pinned sha256 print (look fs pkg)
