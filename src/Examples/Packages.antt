-- ===== src/Examples/Packages.antt =====
-- Runs of the package store, the review and the life cycle at concrete inputs.
use Prim.Native.String.{◌++◌ as text_append}
use analysis_package.Base.{
  ℕ, zero, suc, ap, String, ◌≡◌, ◌≤◌, refl, true, false, none, some, List, [], ◌∷◌, arith, str_eq,
  if◌then◌else◌,
}
use analysis_package.Base.Int.{pos}
use analysis_package.Base.Exec.{ok, err}
use analysis_package.Base.Table.{find, count_where, update_where}
use analysis_package.Identity.{Role, RoleSet, no_roles, Identity, has_role, role_in}
use analysis_package.Store.Records.{
  Key, in_review, approved, superseded, recalled, purged, Overall, Bytes, Blob, PackageRow, Store,
  key_is, status_is,
}
use analysis_package.Store.Effects.{
  get_row, at_key, insert_audit, blob_named, has_blob, put_blob, insert_package, write_status,
  write_link, tombstone,
}
use analysis_package.Store.Methods
use analysis_package.Store.Methods.{
  PackageDir, Manifest, stale_status, purge_of_approved, purge_of_held, set_status, draft_row,
  publish_row, link_replaces, blob_bytes, extract, get,
}
use analysis_package.Base.Text.{has_text}
use analysis_package.Store.Settings.{get_retention_days, set_retention_days, retention_round_trip}
use analysis_package.Review.{
  ReviewPolicy, default_policy, transition, check_transition, check_submit, check_decide,
}
use analysis_package.Review
use analysis_package.Lifecycle
use analysis_package.Changes.{blob_of, GatePasses, FourEyes}
use analysis_package.Changes.Statuses.{status_at}
use analysis_package.Requests.{Env, Action, Request, perform, run, empty_store}
use analysis_package.History.{replay, Chained}
use analysis_package.Guarantees.Permanence.{SameVersion, version_is_permanent, purge_is_final}
use analysis_package.Guarantees.Blobs.{is_past_draft, unpurged_has_blob, reviewed_passes_gate}
use analysis_package.Guarantees.Audit.{audit_tells_statuses}
use analysis_package.Guarantees.Decisions.{
  approval_is_reviewed, supersede_keeps_successor, set_status_once,
}
use analysis_package.Guarantees.Holds.{is_clear, clears, held_until_cleared}

abbrev analyst_only : RoleSet
analyst_only = record no_roles { analyst = true }

abbrev reviewer_only : RoleSet
reviewer_only = record no_roles { reviewer = true }

abbrev admin_only : RoleSet
admin_only = record no_roles { admin = true }

abbrev alice : Identity
alice = record { id = "alice"; roles = analyst_only }

abbrev rita : Identity
rita = record { id = "rita"; roles = reviewer_only }

abbrev root : Identity
root = record { id = "root"; roles = admin_only }

abbrev first_key : Key
first_key = record { package_id = "p"; package_version = "1" }

abbrev pub second_key : Key
second_key = record { package_id = "p"; package_version = "2" }

-- a hash that tells blobs of different lengths apart
unfoldable sha_of : Bytes → String
sha_of [] = ""
sha_of (b ∷ bytes) = text_append "x" (sha_of bytes)

abbrev gate_of : Bytes → Overall
gate_of [] = Overall.fail
gate_of (b ∷ bytes) = Overall.pass

abbrev demo_env : Env
demo_env = record {
  blob_sha256 = sha_of;
  rerun_gate = gate_of;
  policy = default_policy;
  str_of = λ n. "30";
}

abbrev demo_dir : PackageDir
demo_dir = record {
  manifest = record {
    package_id = some "p";
    package_version = some "1";
    profile = "supply";
    title = "First";
    as_of = "2026-01-01";
    owners_json = "{}";
    analyst_id = some "alice";
    reviewer_id = none;
  };
  blob = 7 ∷ 8 ∷ [];
  gate = Overall.pass;
}

abbrev pub demo_row : PackageRow
demo_row = record {
  key = first_key;
  profile = "supply";
  title = "First";
  as_of = "2026-01-01";
  created_at = 1;
  status = approved;
  blob_sha256 = "xx";
  analyst_id = some "alice";
  reviewer_id = none;
  owners_json = "{}";
  gate_overall = Overall.pass;
  published_by_id = "alice";
  published_by_roles = analyst_only;
  replaces = none;
  legal_hold = false;
  legal_hold_reason = none;
  purged_at = none;
}

-- published, submitted and approved
abbrev to_approval : List Request
to_approval =
    record { now = 1; actor = alice; action = Action.publish demo_dir none }
    ∷ record { now = 2; actor = alice; action = Action.review first_key in_review none }
    ∷ record { now = 3; actor = rita; action = Action.review first_key approved none }
    ∷ []

abbrev to_purge : List Request
to_purge =
    record { now = 5; actor = rita; action = Action.recall first_key (some "wrong input") }
    ∷ record { now = 6; actor = root; action = Action.purge first_key none }
    ∷ []

-- two approved versions
abbrev pub two_versions : Store
two_versions = record empty_store {
  packages = demo_row ∷ record demo_row { key = second_key; blob_sha256 = "x" } ∷ [];
  blobs =
      record { sha256 = "xx"; bytes = 7 ∷ 8 ∷ [] } ∷ record { sha256 = "x"; bytes = 9 ∷ [] } ∷ [];
}

abbrev with_first : PackageRow → Store
with_first row = record two_versions {
  packages = row ∷ record demo_row { key = second_key; blob_sha256 = "x" } ∷ [];
}

first_is_read :
    (row : PackageRow) → row.key ≡ first_key → get_row (with_first row) first_key ≡ some row
unfolding get_row find key_is str_eq
first_is_read row e = rw e refl

version_is_permanent_example :
    (r' : PackageRow) × (get_row (run demo_env to_purge two_versions) first_key ≡ some r')
    × SameVersion demo_row r'
version_is_permanent_example =
    version_is_permanent demo_env to_purge two_versions first_key demo_row
      (first_is_read demo_row refl)

purge_is_final_example :
    (r' : PackageRow) × (get_row
        (run demo_env to_approval (with_first (tombstone 4 demo_row)))
        first_key
      ≡ some r')
    × (r'.status ≡ purged)
    × (r'.purged_at ≡ (tombstone 4 demo_row).purged_at)
unfolding tombstone
purge_is_final_example =
    purge_is_final demo_env to_approval (with_first (tombstone 4 demo_row)) first_key
      (tombstone 4 demo_row) (first_is_read (tombstone 4 demo_row) refl) refl (λ e. ground arith)

approved_row : get_row (run demo_env to_approval empty_store) first_key ≡ some demo_row
unfolding run perform Methods.publish publish_row draft_row put_blob has_blob blob_named
    insert_package insert_audit get_row find key_is str_eq transition check_transition check_submit
    check_decide extract blob_bytes get Review.is_transition set_status count_where write_status
    update_where status_is has_role role_in sha_of mathlib.Core.Bool.decide
approved_row = refl

unpurged_has_blob_example :
    (b : Blob) × (blob_of (run demo_env to_approval empty_store) "xx" ≡ some b)
unpurged_has_blob_example =
    unpurged_has_blob demo_env to_approval first_key demo_row approved_row refl

reviewed_passes_gate_example :
    GatePasses gate_of default_policy (run demo_env to_approval empty_store) demo_row
unfolding is_past_draft
reviewed_passes_gate_example =
    reviewed_passes_gate demo_env to_approval first_key demo_row refl approved_row refl refl

audit_tells_statuses_example :
    (status_at (run demo_env to_approval empty_store) first_key
      ≡ replay first_key none (run demo_env to_approval empty_store).package_audit)
    × Chained first_key none (run demo_env to_approval empty_store).package_audit
audit_tells_statuses_example = audit_tells_statuses demo_env to_approval first_key

-- in review, by alice
abbrev waiting : Store
waiting = with_first (record demo_row { status = in_review })

approval_is_accepted :
    (transition gate_of default_policy 9 first_key approved rita none waiting).0 ≡ ok demo_row
unfolding transition check_transition check_decide get Review.is_transition set_status count_where
    write_status insert_audit update_where status_is has_role role_in get_row find key_is str_eq
    mathlib.Core.Bool.decide
approval_is_accepted = refl

approval_is_reviewed_example :
    (r : PackageRow) × (get_row waiting first_key ≡ some r)
    × (r.status ≡ in_review)
    × (has_role rita Role.reviewer ≡ true)
    × FourEyes gate_of default_policy r rita
    × (get_row
          (transition gate_of default_policy 9 first_key approved rita none waiting).1
          first_key
        ≡ some (record r { status = approved }))
approval_is_reviewed_example =
    approval_is_reviewed gate_of default_policy 9 first_key rita none waiting demo_row
      approval_is_accepted

supersede_is_accepted :
    (Lifecycle.supersede 9 first_key second_key rita none two_versions).0
    ≡ ok (record demo_row { status = superseded })
unfolding Lifecycle.supersede Lifecycle.require Lifecycle.reviewer_or_admin Lifecycle.good_successor
    Lifecycle.is_transition link_replaces write_link get set_status count_where write_status
    insert_audit update_where status_is has_role role_in get_row find key_is str_eq
    mathlib.Core.Bool.decide
supersede_is_accepted = refl

supersede_keeps_successor_example :
    (r q : PackageRow) × (get_row two_versions first_key ≡ some r)
    × (get_row two_versions second_key ≡ some q)
    × (r.status ≡ approved)
    × (q.status ≡ approved)
    × (Lifecycle.reviewer_or_admin rita ≡ true)
    × (get_row (Lifecycle.supersede 9 first_key second_key rita none two_versions).1 first_key
        ≡ some (record r { status = superseded }))
    × (get_row (Lifecycle.supersede 9 first_key second_key rita none two_versions).1 second_key
        ≡ some (record q { replaces = some first_key }))
supersede_keeps_successor_example =
    supersede_keeps_successor 9 first_key second_key rita none two_versions
      (record demo_row { status = superseded }) supersede_is_accepted

-- a store of one package
abbrev one_version : Store
one_version = record two_versions { packages = demo_row ∷ [] }

one_version_is_read : get_row one_version first_key ≡ some demo_row
unfolding get_row find key_is str_eq
one_version_is_read = refl

one_version_is_unique : (j : Key) → count_where (at_key j) one_version.packages ≤ 1
unfolding count_where
one_version_is_unique j = ground arith

set_status_once_example :
    ((set_status 9 first_key approved recalled rita none one_version).0
      ≡ ok (record demo_row { status = recalled }))
    × (set_status 10 first_key approved superseded root none
          (set_status 9 first_key approved recalled rita none one_version).1
        ≡ (err stale_status, (set_status 9 first_key approved recalled rita none one_version).1))
set_status_once_example =
    set_status_once first_key recalled superseded rita root none none 9 10 one_version demo_row
      one_version_is_unique one_version_is_read (λ e. cc)

-- recalled, and under hold
abbrev held_row : PackageRow
held_row = record demo_row { status = recalled; legal_hold = true }

-- purged in vain, restored, recalled again, and purged in vain again
abbrev in_vain : List Request
in_vain =
    record { now = 5; actor = root; action = Action.purge first_key none }
    ∷ record { now = 6; actor = root; action = Action.restore first_key none }
    ∷ to_purge

never_cleared :
    clears first_key (run demo_env in_vain (with_first held_row))
    ≡ clears first_key (with_first held_row)
unfolding clears is_clear count_where run perform Lifecycle.purge Lifecycle.restore Lifecycle.recall
    Lifecycle.require Lifecycle.is_transition Lifecycle.reviewer_or_admin get set_status
    write_status insert_audit update_where status_is has_role role_in get_row find key_is str_eq
    mathlib.Core.Bool.decide has_text
never_cleared = refl

held_until_cleared_example :
    (r' : PackageRow) × (get_row (run demo_env in_vain (with_first held_row)) first_key ≡ some r')
    × (r'.legal_hold ≡ true)
    × (r'.purged_at ≡ none)
    × (Methods.purge 9 first_key root none (run demo_env in_vain (with_first held_row)) ≡ (
      err (if status_is r'.status approved then purge_of_approved else purge_of_held),
      run demo_env in_vain (with_first held_row),
    ))
held_until_cleared_example =
    held_until_cleared demo_env in_vain (with_first held_row) first_key held_row 9 root none
      (first_is_read held_row refl) refl refl never_cleared

-- numbers written as that many strokes
unfoldable strokes : ℕ → String
strokes zero = ""
strokes (suc n) = String.◌∷◌ "x" (strokes n)

unfoldable count_strokes : String → ℕ
count_strokes String.[] = 0
count_strokes (String.◌∷◌ c s) = suc (count_strokes s)

count_strokes-strokes : (n : ℕ) → count_strokes (strokes n) ≡ n
unfolding strokes count_strokes
count_strokes-strokes zero = refl
count_strokes-strokes (suc n) = ap suc (count_strokes-strokes n)

retention_round_trip_example :
    get_retention_days
      (λ s. some (pos (count_strokes s)))
      (set_retention_days strokes 9 (pos 30) root two_versions).1
    ≡ some (some (pos 30))
retention_round_trip_example =
    retention_round_trip strokes (λ s. some (pos (count_strokes s)))
      (λ n. ap (λ m. some (pos m)) (count_strokes-strokes n)) 9 30 root two_versions
