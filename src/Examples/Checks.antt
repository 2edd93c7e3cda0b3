-- ===== src/Examples/Checks.antt =====
-- Runs of the gate's checks at concrete inputs.
use analysis_package.Base.{
  Option, false, String, ◌≡◌, refl, some, [], ◌∷◌, arith, if◌then◌else◌, str_eq,
}
use analysis_package.Base.Json.{
  Json, text, array, object, nil, cons, Fields, end, field, Items, get_field, is_truthy, items_of,
  items_or_none, is_text, count_items, has_field, has_text_item,
}
use analysis_package.Base.Text.{contains, has_text}
use analysis_package.Base.Text.Number.{show_nat, digits}
use analysis_package.Base.Text.Split.{split, partition}
use analysis_package.Gate.{CheckOutcome, Outcome, outcome}
use analysis_package.Gate.Confined.{AgreeWithin, checks_read_package}
use analysis_package.Gate.Declared.{check_engines_pinned, check_output_contract_files}
use analysis_package.Gate.Found.{joined, each, verdict, both_or_raise, with_path, label}
use analysis_package.Gate.Layout.{
  labels_of, check_layout_dirs, check_guideline_exists, check_labels_paths,
}
use analysis_package.Gate.Paths.{
  missing, regular, FileSystem, PathParts, is_within, look, resolve_contained, resolve, step_into,
  append_part, is_absolute,
}
use analysis_package.Gate.Pinned.{
  check_inputs_pinned, inputs_pinned, check_input, check_input_file, check_digest, declared_digest,
  same_digest,
}
use analysis_package.Base.Exec.{ok}
use analysis_package.Base.Table.{find}
use analysis_package.Gate.KnownCodes.{RowsHaveCodes, passed_codes-HasKnownCode}
use analysis_package.Gate.Labels.{
  check_reason_codes_known, reason_codes_known, judge_path, judge_text, judge_file, judge_codes,
  allowed_codes, text_items, all_texts, is_allowed, check_reason_code, each_row, override_rows,
  dict_of, split_lines, drop_last_empty, pieces,
}
use analysis_package.Registry.{Files, empty_registry}
use analysis_package.Registry.Loads.{
  load_profile_file, load_declared, profile_short_name, resolve_profile_declaration, vendored_file,
}
use analysis_package.Gate.PinnedInputs.{AllItems, IsPinned, passed_inputs-IsPinned}

abbrev pkg : PathParts
pkg = "srv" ∷ "pkg" ∷ []

abbrev outside_missing : FileSystem
outside_missing path = if is_within pkg path then regular "x" else missing

abbrev outside_secret : FileSystem
outside_secret path = if is_within pkg path then regular "x" else regular "secret"

agree : AgreeWithin pkg outside_missing outside_secret
agree path h = ground (arith, h)

abbrev digest : String → String
digest content = "ff"

abbrev shown : Json → String
shown v = "?"

abbrev reaching_out : Fields
reaching_out =
    field "inputs"
      (array (
        cons (object (field "path" (text "../../etc/passwd") end))
          (cons (object (field "path" (text "/etc/passwd") end)) nil)))
      (field "labels" (object (field "overrides_path" (text "labels/a") end)) end)

checks_read_package_example :
    (check_inputs_pinned digest shown outside_missing pkg reaching_out
      ≡ check_inputs_pinned digest shown outside_secret pkg reaching_out)
    × (check_engines_pinned shown outside_missing pkg reaching_out
        ≡ check_engines_pinned shown outside_secret pkg reaching_out)
    × (check_output_contract_files shown outside_missing pkg reaching_out
        ≡ check_output_contract_files shown outside_secret pkg reaching_out)
    × (check_layout_dirs outside_missing pkg reaching_out
        ≡ check_layout_dirs outside_secret pkg reaching_out)
    × (check_guideline_exists outside_missing pkg reaching_out
        ≡ check_guideline_exists outside_secret pkg reaching_out)
    × (check_labels_paths outside_missing pkg reaching_out
        ≡ check_labels_paths outside_secret pkg reaching_out)
checks_read_package_example =
    checks_read_package pkg outside_missing outside_secret agree digest shown reaching_out

abbrev one_input : Items
one_input =
    cons (object (field "path" (text "inputs/a") (field "content_sha256" (text "sha256:FF") end)))
      nil

abbrev pinned : Fields
pinned = field "inputs" (array one_input) end

abbrev passed : CheckOutcome
passed =
    outcome "inputs_pinned" Outcome.pass "1 input(s) pinned (path/hash or external_ref verified)"

pinned_passes : check_inputs_pinned digest shown outside_secret pkg pinned ≡ some passed
unfolding check_inputs_pinned inputs_pinned items_or_none items_of get_field is_truthy str_eq each
    check_input is_text with_path contains label check_input_file look resolve_contained resolve
    is_absolute partition split step_into append_part is_within check_digest declared_digest
    same_digest both_or_raise verdict count_items show_nat digits
pinned_passes = refl

passed_inputs-IsPinned_example :
    (items : Items) × (items_or_none (get_field "inputs" pinned) ≡ some items)
    × AllItems (IsPinned digest (look outside_secret pkg)) items
passed_inputs-IsPinned_example =
    passed_inputs-IsPinned digest shown outside_secret pkg pinned passed pinned_passes refl

abbrev coded : Fields
coded =
    field "profile" (text "p/0.1")
      (field "labels" (object (field "overrides_path" (text "labels/o") end)) end)

abbrev late : Json
late = object (field "reason_code" (text "LATE") end)

abbrev reads_late : String → Option Json
reads_late line = some late

abbrev late_allowed : Fields
late_allowed = field "reason_codes" (array (cons (text "LATE") nil)) end

abbrev tree : String → Option Files
tree name = some (("reason_codes.json", object late_allowed) ∷ [])

abbrev shown_items : Items → String
shown_items items = "[...]"

abbrev codes_passed : CheckOutcome
codes_passed =
    outcome "reason_codes_known" Outcome.pass "all override reason codes valid for profile 'p'"

codes_pass :
    (check_reason_codes_known reads_late shown shown shown_items shown tree false false
      outside_secret pkg coded empty_registry).0
    ≡ some codes_passed
unfolding check_reason_codes_known reason_codes_known judge_path judge_text judge_file judge_codes
    load_profile_file load_declared profile_short_name resolve_profile_declaration vendored_file
    find partition contains get_field str_eq is_truthy labels_of allowed_codes has_field text_items
    all_texts is_allowed has_text_item check_reason_code each_row override_rows dict_of split_lines
    drop_last_empty pieces has_text both_or_raise verdict joined look resolve_contained resolve
    items_of is_absolute split step_into append_part is_within is_text
codes_pass = refl

passed_codes-HasKnownCode_example :
    (allowlist labels : Fields) × ((load_profile_file tree false false "reason_codes.json"
        (get_field "profile" coded)
        empty_registry).0
      ≡ ok (some (object allowlist)))
    × (labels_of coded ≡ some labels)
    × RowsHaveCodes reads_late shown shown shown_items shown
        (look outside_secret pkg)
        allowlist
        (get_field "overrides_path" labels)
passed_codes-HasKnownCode_example =
    passed_codes-HasKnownCode reads_late shown shown shown_items shown tree false false
      outside_secret pkg coded empty_registry codes_passed codes_pass refl
