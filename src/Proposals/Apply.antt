-- ===== src/Proposals/Apply.antt =====
-- Applying an approved diff: src/ap_proposals/apply.py, over the profile registry.
use mathlib.Core.Option
use analysis_package.Base.{ℕ, String, false, Option, none, some, List, [], ◌∷◌, if◌then◌else◌}
use analysis_package.Base.Exec.{Result, ok, err, Exec, pure, raise, gets, require_some, ◌>>=◌, ◌>>◌}
use analysis_package.Base.Json.{
  Json, null, boolean, text, array, object, Items, nil, Fields, end, field, get_field, has_field,
  set_field, is_truthy, has_text_item, append_item, items_of,
}
use analysis_package.Base.Table.{find}
use analysis_package.Proposals.{
  ProposalKind, standard_change, profile_change, reason_code_add, check_add,
}
use analysis_package.Registry.{
  Files, Registry, RegistryError, named_file, read_version, current_version, ensure_seeded,
  bump_version,
}
use analysis_package.Registry.Loads.{vendored_file}
use analysis_package.Registry.Versions.{bump_minor}

-- `ProposalApplyError`; the KeyError of a missing key; another exception of a value of a wrong type
pub data ApplyError : Type 0 where
  registry_failed bad_version missing_key wrong_type not_declarative : ApplyError

abbrev pub A : Type 0 → Type 0
A B = Exec Registry ApplyError B

-- `except ProfileRegistryError as exc: raise ProposalApplyError`
abbrev pub wrapped :
    {B : Type 0} → Result RegistryError B × Registry → Result ApplyError B × Registry
wrapped (ok b, s) = (ok b, s)
wrapped (err e, s) = (err registry_failed, s)

unfoldable pub wrap : {B : Type 0} → Exec Registry RegistryError B → A B
wrap m s = wrapped (m s)

-- a text that the diff's schema requires
unfoldable pub text_of : Json → Option String
text_of (text s) = some s
text_of _ = none

unfoldable pub diff_text : String → Fields → A String
diff_text key diff = require_some (text_of (get_field key diff)) missing_key

-- `list(current.get("reason_codes", []))`, or TypeError
unfoldable pub codes_of : Fields → Option Items
codes_of current =
    if has_field "reason_codes" current
    then items_of (get_field "reason_codes" current)
    else some nil

abbrev default_codes : String → Fields
default_codes name =
    field "profile" (text name)
      (field "reason_codes" (array nil) (field "other_requires_reason_text" (boolean false) end))

-- `… or {"profile": name, …}`, then `current.get` needs a dict
unfoldable pub codes_file : String → Option Json → Option Fields
codes_file name none = some (default_codes name)
codes_file name (some content) =
    if is_truthy content then dict content else some (default_codes name)
  where
    dict : Json → Option Fields
    dict (object fields) = some fields
    dict _ = none

-- the code, once
unfoldable pub with_code : String → Items → Items
with_code code codes = if has_text_item code codes then codes else append_item codes (text code)

-- Python's None stands for a deleted file
unfoldable pub content_of : Json → Option Json
content_of null = none
content_of v = some v

unfoldable pub content_in : String → Option Files → Option Json
content_in filename none = none
content_in filename (some files) =
    Option.map (λ (file : String × Json). file.1) (find (named_file filename) files)

module _ (vendored : String → Option Files) where
  -- `_current_file_content`
  unfoldable pub current_file_content : String → String → A (Option Json)
  current_file_content name filename = do
    version ← wrap (current_version name)
    elim version [
      | none ↦ pure (vendored_file vendored name filename)
      | some v ↦ gets (λ s. content_in filename (read_version name v s))
    ]

  -- `compute_changed_files`
  unfoldable pub compute_changed_files : ProposalKind → Fields → A (List (String × Option Json))
  compute_changed_files profile_change diff = do
    file ← diff_text "file" diff
    pure ((file, content_of (get_field "after" diff)) ∷ [])
  compute_changed_files reason_code_add diff = do
    name ← diff_text "profile" diff
    content ← current_file_content name "reason_codes.json"
    current ← require_some (codes_file name content) wrong_type
    codes ← require_some (codes_of current) wrong_type
    code ← diff_text "code" diff
    pure (
        (
          "reason_codes.json",
          some (object (set_field "reason_codes" (array (with_code code codes)) current)),
        )
        ∷ [])
  compute_changed_files _ diff = raise not_declarative

  -- the note in the changelog
  unfoldable pub applied_note : ProposalKind → String
  applied_note profile_change = "applied via proposal decision (profile_change)"
  applied_note reason_code_add = "applied via proposal decision (reason_code_add)"
  applied_note standard_change = "applied via proposal decision (standard_change)"
  applied_note check_add = "applied via proposal decision (check_add)"

  -- `apply_declarative`
  unfoldable pub apply_declarative : ℕ → ProposalKind → Fields → String → A String
  apply_declarative now kind diff actor_id = do
    name ← diff_text "profile" diff
    wrap (ensure_seeded vendored now name "0.1")
    version ← wrap (current_version name)
    current ← require_some version wrong_type
    changed_files ← compute_changed_files kind diff
    new_version ← require_some (bump_minor current) bad_version
    wrap (
        bump_version vendored now name new_version changed_files (applied_note kind)
          (some actor_id))
