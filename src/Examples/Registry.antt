-- ===== src/Examples/Registry.antt =====
-- Runs of the profile registry at concrete inputs.
use analysis_package.Base.{
  ℕ, String, ◌≡◌, refl, true, false, Option, none, some, List, [], ◌∷◌, str_eq, is_some,
}
use analysis_package.Base.Exec.{ok}
use analysis_package.Base.Json.{
  Json, text, array, object, nil, cons, Fields, end, field, get_field, has_field, set_field,
  has_text_item, append_item, is_truthy, items_of,
}
use analysis_package.Base.Table.{find, update_where, select}
use analysis_package.Proposals.{reason_code_add}
use analysis_package.Proposals.Apply.{
  text_of, diff_text, wrap, apply_declarative, compute_changed_files, current_file_content,
  content_in, codes_file, codes_of, with_code, applied_note,
}
use analysis_package.Proposals.Changed.{Applied}
use analysis_package.Proposals.Applied.{effect_is_current}
use analysis_package.Registry.{
  Files, Version, Registry, empty_registry, is_component, all_components, find_profile, versions_of,
  find_version, pointer_of, pointer, name_dir, current_version, drop_cached, make_dir,
  update_profile, is_taken, write_version_dir, write_pointer, append_changelog, change_files,
  base_files, is_behind, seed, ensure_seeded, bump_version, read_version, json_files, change_file,
  put_file,
}
use analysis_package.Base.Text.{contains, ends_with}
use analysis_package.Base.Text.Split.{split, partition}
use analysis_package.Base.Text.Number.{
  parse_int, signed, drop_spaces, scan, scan_one, show_int, show_nat, digits,
}
use analysis_package.Registry.Cache.{read_from_disk, cached_read_is_disk_read}
use analysis_package.Registry.Calls.{
  RegistryCall, registry_calls, registry_call, written_version_stays,
}
use analysis_package.Registry.Loads.{
  load_profile_file, load_declared, profile_short_name, resolve_profile_declaration,
  read_registry_file, version_dir, walk, enter, parent, child, file_at, read_through, store_entry,
  vendored_file,
}
use analysis_package.Registry.Order.{bump_moves_forward}
use analysis_package.Registry.Pointer.{pointer_names_version}
use analysis_package.Registry.Versions.{bump_minor, bump_minor_is_later, version_sort_key, key_lt}

abbrev codes : Json
codes = object (field "reason_codes" (array (cons (text "OTHER") nil)) end)

abbrev answer : String
answer = "0.10"

abbrev first : Version
first = record { version = "0.9"; files = ("reason_codes.json", codes) ∷ [] }

abbrev seeded : Registry
seeded = record {
  profiles =
      record { name = "p"; versions = first ∷ []; pointer = some "0.9"; changelog = [] } ∷ [];
  cache = [];
}

abbrev no_tree : String → Option Files
no_tree name = none

abbrev some_calls : List (ℕ × RegistryCall)
some_calls =
    (1, RegistryCall.ensure "p" "0.1")
    ∷ (2, RegistryCall.load true false "reason_codes.json" (text "p/0.1"))
    ∷ (3, RegistryCall.bump "p" "0.10" (("reason_codes.json", some codes) ∷ []) "" none)
    ∷ []

seeded_state_reads : find_version "p" "0.9" seeded ≡ some first
unfolding find_version find versions_of find_profile str_eq
seeded_state_reads = refl

written_version_stays_example :
    find_version "p" "0.9" (registry_calls no_tree some_calls seeded) ≡ some first
written_version_stays_example =
    written_version_stays no_tree some_calls seeded "p" "0.9" first seeded_state_reads

cached_read_is_disk_read_example :
    (read_registry_file "p" "0.10" "reason_codes.json"
      (registry_calls no_tree some_calls empty_registry)).0
    ≡ ok (
        read_from_disk "p" "0.10" "reason_codes.json"
          (registry_calls no_tree some_calls empty_registry))
cached_read_is_disk_read_example =
    cached_read_is_disk_read no_tree some_calls "p" "0.10" "reason_codes.json"

pointed : pointer "p" (registry_calls no_tree some_calls empty_registry) ≡ some "0.10"
unfolding is_component all_components contains find_profile versions_of find_version pointer_of
    pointer name_dir current_version drop_cached make_dir update_profile is_taken write_version_dir
    write_pointer append_changelog change_files base_files is_behind seed ensure_seeded bump_version
    version_sort_key key_lt split parse_int signed drop_spaces scan scan_one find update_where
    select str_eq read_version json_files ends_with change_file put_file registry_calls
    registry_call load_profile_file load_declared profile_short_name resolve_profile_declaration
    read_registry_file version_dir walk enter parent child file_at read_through store_entry
    vendored_file partition
pointed = refl

pointer_names_version_example :
    is_some (find_version "p" "0.10" (registry_calls no_tree some_calls empty_registry)) ≡ true
pointer_names_version_example = pointer_names_version no_tree some_calls "p" "0.10" pointed

bumped_minor : bump_minor "0.9" ≡ some "0.10"
unfolding bump_minor parse_int signed drop_spaces partition scan scan_one show_int show_nat digits
bumped_minor = refl

bump_minor_is_later_example : key_lt (version_sort_key "0.9") (version_sort_key "0.10") ≡ true
bump_minor_is_later_example = bump_minor_is_later "0.9" "0.10" bumped_minor

pointed_first : pointer "p" seeded ≡ some "0.9"
unfolding pointer pointer_of find_profile find str_eq
pointed_first = refl

bumped : (bump_version no_tree 3 "p" "0.10" [] "" none seeded).0 ≡ ok "0.10"
unfolding is_component all_components contains find_profile versions_of find_version pointer_of
    pointer name_dir current_version drop_cached make_dir update_profile is_taken write_version_dir
    write_pointer append_changelog change_files base_files is_behind seed ensure_seeded bump_version
    version_sort_key key_lt split parse_int signed drop_spaces scan scan_one find update_where
    select str_eq read_version json_files ends_with change_file put_file
bumped = refl

bump_moves_forward_example :
    (answer ≡ "0.10")
    × (pointer "p" (bump_version no_tree 3 "p" "0.10" [] "" none seeded).1 ≡ some "0.10")
    × (key_lt (version_sort_key "0.9") (version_sort_key "0.10") ≡ true)
    × (find_version "p" "0.10" (bump_version no_tree 3 "p" "0.10" [] "" none seeded).1
        ≡ some (record {
          version = "0.10";
          files = change_files [] (base_files "p" (some "0.9") seeded);
        }))
bump_moves_forward_example =
    bump_moves_forward no_tree 3 "p" "0.10" "0.9" [] "" none seeded pointed_first "0.10" bumped

abbrev new_code : Fields
new_code =
    field "profile" (text "p") (field "code" (text "LATE") (field "description" (text "d") end))

of_p : text_of (get_field "profile" new_code) ≡ some "p"
unfolding text_of get_field str_eq
of_p = refl

applied : (apply_declarative no_tree 3 reason_code_add new_code "sam" seeded).0 ≡ ok "0.10"
unfolding is_component all_components contains find_profile versions_of find_version pointer_of
    pointer name_dir current_version drop_cached make_dir update_profile is_taken write_version_dir
    write_pointer append_changelog change_files base_files is_behind seed ensure_seeded bump_version
    version_sort_key key_lt split parse_int signed drop_spaces scan scan_one find update_where
    select str_eq read_version json_files ends_with change_file put_file partition show_int show_nat
    digits bump_minor text_of get_field diff_text wrap apply_declarative compute_changed_files
    current_file_content content_in codes_file codes_of with_code set_field has_field has_text_item
    append_item is_truthy applied_note vendored_file items_of
applied = refl

effect_is_current_example :
    (bump_minor "0.9" ≡ some "0.10")
    × (pointer "p" (apply_declarative no_tree 3 reason_code_add new_code "sam" seeded).1
        ≡ some "0.10")
    × (key_lt (version_sort_key "0.9") (version_sort_key "0.10") ≡ true)
    × (x : Version) × (find_version "p" "0.10"
          (apply_declarative no_tree 3 reason_code_add new_code "sam" seeded).1
        ≡ some x)
    × Applied reason_code_add new_code x.files
effect_is_current_example =
    effect_is_current no_tree 3 reason_code_add new_code "sam" "p" "0.9" seeded of_p pointed_first
      "0.10" applied
