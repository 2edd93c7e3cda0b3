-- ===== src/Gate/Labels.antt =====
-- The checks on the rows of the overrides file: src/ap_gate/checks/labels.py. `json.loads`, Python's
-- print and `repr` of values and the text of a refused version are parameters; the profile's files are what src/ap_gate/profiles.py
-- loads. None is the TypeError or AttributeError of values of a type that the code does not expect;
-- an allow-list with an entry that is no text is read as such a value.
use mathlib.Core.Option
use Prim.Native.Char.{code}
use Prim.Native.String.{◌++◌ as text_append}
use analysis_package.Base.{
  ℕ, suc, ◌≡◌, refl, String, Bool, true, false, not, ◌&&◌, ◌||◌, Option, none, some, List, [], ◌∷◌,
  str_eq, leb, ◌==◌, if◌then◌else◌,
}
use analysis_package.Base.Exec.{Result, ok, err}
use analysis_package.Base.Json.{
  Json, null, text, array, object, Items, items_of, nil, cons, Fields, get_field, has_field,
  is_truthy, is_text, has_text_item,
}
use analysis_package.Base.Text.{contains, has_text}
use analysis_package.Base.Text.Split.{push}
use analysis_package.Base.Text.Number.{show_nat}
use analysis_package.Gate.{CheckOutcome, Outcome, outcome}
use analysis_package.Gate.Found.{Found, fine, problem, both_or_raise, joined, verdict}
use analysis_package.Gate.Layout.{labels_of}
use analysis_package.Gate.Paths.{Look, has_file, FileSystem, PathParts, look}
use analysis_package.Registry.{Files, Registry}
use analysis_package.Registry.Loads.{LoadError, profile_short_name, load_profile_file}

-- a character that ends a line
abbrev is_line_end : ℕ → Bool
is_line_end c =
    (leb 10 c && leb c 13) || (leb 28 c && leb c 30) || c == 0x85 || c == 0x2028 || c == 0x2029

-- the text cut at its line ends; "\r\n" is one, and a last empty piece is no line
unfoldable pub pieces : Bool → String → List String
pieces after_return String.[] = "" ∷ []
pieces after_return (String.◌∷◌ c s) =
    let rest = pieces (code c == 13) s in
    if after_return && code c == 10
    then rest
    else if is_line_end (code c)
    then "" ∷ rest
    else push c rest

unfoldable pub drop_last_empty : List String → List String
drop_last_empty [] = []
drop_last_empty (s ∷ []) = if str_eq s "" then [] else s ∷ []
drop_last_empty (s ∷ t ∷ rest) = s ∷ drop_last_empty (t ∷ rest)

-- `text.splitlines()`
unfoldable pub split_lines : String → List String
split_lines s = drop_last_empty (pieces false s)

splits : split_lines "a\r\nb\n\nc\n" ≡ "a" ∷ "b" ∷ "" ∷ "c" ∷ []
unfolding split_lines drop_last_empty pieces str_eq
splits = refl

-- the texts of the allow-list
unfoldable pub all_texts : Items → Bool
all_texts nil = true
all_texts (cons (text t) items) = all_texts items
all_texts (cons _ items) = false

-- `set(...)` of the allow-list's value: the items, a text's characters or a dict's keys
unfoldable pub text_items : Json → Option Items
text_items v = elim (items_of v) [
  | none ↦ none
  | some items ↦ if all_texts items then some items else none
]

-- `allowlist.get("reason_codes", [])`
unfoldable pub allowed_codes : Fields → Option Items
allowed_codes allowlist =
    if has_field "reason_codes" allowlist
    then text_items (get_field "reason_codes" allowlist)
    else some nil

-- `code in codes`; a list or a dict cannot be looked up
unfoldable pub is_allowed : Items → Json → Option Bool
is_allowed codes (text t) = some (has_text_item t codes)
is_allowed codes (array items) = none
is_allowed codes (object fields) = none
is_allowed codes _ = some false

module _ (loads : String → Option Json) (print repr : Json → String) (sorted_repr : Items → String)
    (refusal : Json → String) where
  -- `obj.get("override_id") or f"line {lineno}"`
  unfoldable pub row_id : ℕ → Fields → String
  row_id lineno row =
      if is_truthy (get_field "override_id" row)
      then print (get_field "override_id" row)
      else text_append "line " (show_nat lineno)

  -- `for lineno, line in enumerate(..., start=1)`: the rows that are dicts, the others left out
  unfoldable pub dict_of : Option Json → Option Fields
  dict_of (some (object row)) = some row
  dict_of _ = none

  unfoldable pub override_rows : ℕ → List String → List (ℕ × Fields)
  override_rows lineno [] = []
  override_rows lineno (line ∷ lines) =
      let rest = override_rows (suc lineno) lines in
      if not (has_text line)
      then rest
      else elim (dict_of (loads line)) [ none ↦ rest | some row ↦ (lineno, row) ∷ rest ]

  -- the body of the loop of `check_reason_codes_known`
  unfoldable pub check_reason_code : String → Items → Bool → String → ℕ → Fields → Option Found
  check_reason_code profile codes needs_text path lineno row =
      Option.map found (is_allowed codes (get_field "reason_code" row))
    where
      found : Bool → Found
      found false = problem (
          joined (
            path
            ∷ " ("
            ∷ row_id lineno row
            ∷ "): reason_code "
            ∷ repr (get_field "reason_code" row)
            ∷ " is not in the '"
            ∷ profile
            ∷ "' allow-list "
            ∷ sorted_repr codes
            ∷ []))
      found true =
          if is_text "OTHER" (get_field "reason_code" row)
            && needs_text
            && not (is_truthy (get_field "reason_text" row))
          then problem (
              joined (
                path
                ∷ " ("
                ∷ row_id lineno row
                ∷ "): reason_code OTHER requires a non-empty reason_text"
                ∷ []))
          else fine

  unfoldable pub each_row : (ℕ → Fields → Option Found) → List (ℕ × Fields) → Option Found
  each_row check [] = some fine
  each_row check ((lineno, row) ∷ rows) = both_or_raise (check lineno row) (each_row check rows)

  -- the loop of `check_reason_codes_known` over the overrides file, and its verdict
  unfoldable pub judge_codes : String → Items → Bool → String → String → Option CheckOutcome
  judge_codes profile codes needs_text path content =
      Option.map
        (λ (found : Found).
          verdict "reason_codes_known" "Reason code problems:\n" ""
            (joined ("all override reason codes valid for profile '" ∷ profile ∷ "'" ∷ []))
            (record found { paths = path ∷ [] }))
        (each_row (check_reason_code profile codes needs_text path)
          (override_rows 1 (split_lines content)))

  -- what is judged, once the allow-list and the overrides file are found
  unfoldable pub judge_file : String → Fields → String → Look → Option CheckOutcome
  judge_file profile allowlist path (has_file content) = elim (allowed_codes allowlist) [
    | none ↦ none
    | some codes ↦
        judge_codes profile codes (is_truthy (get_field "other_requires_reason_text" allowlist))
          path content
  ]
  judge_file profile allowlist path _ = some (
      outcome "reason_codes_known" Outcome.skip (
        joined
          ("labels.overrides_path '" ∷ path ∷ "' does not exist - cannot check reason codes" ∷ [])))

  unfoldable pub judge_text : (String → Look) → String → Fields → Json → Option CheckOutcome
  judge_text at profile allowlist (text path) =
      if contains 0 path then none else judge_file profile allowlist path (at path)
  judge_text at profile allowlist _ = none

  unfoldable pub judge_path : (String → Look) → String → Fields → Json → Option CheckOutcome
  judge_path at profile allowlist path =
      if not (is_truthy path)
      then some (
          outcome "reason_codes_known" Outcome.skip
            "labels.overrides_path not set - cannot check reason codes")
      else judge_text at profile allowlist path

  -- the skip where `allowlist is None`; a file that holds `null` reads as None too
  abbrev pub no_allowlist : Fields → CheckOutcome
  no_allowlist manifest = outcome "reason_codes_known" Outcome.skip (
      joined (
        "no reason-code allow-list registered for profile "
        ∷ repr (get_field "profile" manifest)
        ∷ " (no profiles/<name>/reason_codes.json) - skipping"
        ∷ []))

  -- `check_reason_codes_known`, on what `load_profile_reason_codes` answered
  unfoldable pub reason_codes_known :
      (String → Look) → Result LoadError (Option Json) → Fields → Option CheckOutcome
  reason_codes_known at (err e) manifest =
      some (outcome "reason_codes_known" Outcome.fail (refusal (get_field "profile" manifest)))
  reason_codes_known at (ok none) manifest = some (no_allowlist manifest)
  reason_codes_known at (ok (some null)) manifest = some (no_allowlist manifest)
  reason_codes_known at (ok (some (object allowlist))) manifest = elim (labels_of manifest) [
    | none ↦ none
    | some labels ↦
        judge_path at (Option.get_or (profile_short_name (get_field "profile" manifest)) "")
          allowlist (get_field "overrides_path" labels)
  ]
  reason_codes_known at (ok (some _)) manifest = none

  -- `check_reason_codes_known`: the load and the judgement
  unfoldable pub check_reason_codes_known :
      (String → Option Files)
      → Bool
      → Bool
      → FileSystem
      → PathParts
      → Fields
      → Registry
      → Option CheckOutcome × Registry
  check_reason_codes_known vendored has_registry fail_closed fs pkg manifest s =
      let loaded =
        load_profile_file vendored has_registry fail_closed "reason_codes.json"
          (get_field "profile" manifest) s in
      (reason_codes_known (look fs pkg) loaded.0 manifest, loaded.1)
