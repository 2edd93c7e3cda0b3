-- ===== src/Store/Records.antt =====
-- The tables of src/ap_store/db.py and the read models of src/ap_store/models.py. A text column that
-- holds one of a fixed set of words is a data type; `created_at`, `purged_at` and `ts` are seconds.
-- A `roles` column holds `roles_csv()` of the set that stands here.
use analysis_package.Base.{
  ℕ, String, ◌≡◌, ◌↔◌, refl, Bool, true, false, ◌&&◌, Option, List, arith, str_eq, str_eq_iff,
}
use mathlib.Core.Bool.{decide}
use analysis_package.Identity.{RoleSet}

-- (package_id, package_version), the primary key of `packages`
pub record Key : Type 0 where
  pub package_id : String
  pub package_version : String

pub data Status : Type 0 where
  draft in_review approved rejected superseded recalled purged : Status

pub Status-discrete : Discrete Status
Status-discrete = hlevel

-- ap-gate's overall verdict, `report["overall"]`
pub data Overall : Type 0 where
  pass fail : Overall

abbrev pub passes : Overall → Bool
passes pass = true
passes fail = false

pub record PackageRow : Type 0 where
  pub key : Key
  pub profile : String
  pub title : String
  pub as_of : String
  pub created_at : ℕ
  pub status : Status
  pub blob_sha256 : String
  pub analyst_id : Option String
  pub reviewer_id : Option String
  pub owners_json : String
  pub gate_overall : Overall
  pub published_by_id : String
  pub published_by_roles : RoleSet
  pub replaces : Option Key  -- `replaces_package_id`, `replaces_package_version`
  pub legal_hold : Bool
  pub legal_hold_reason : Option String
  pub purged_at : Option ℕ

-- The column `to_status` of `package_audit`: a status, or a word for a change that is none.
pub data Audited : Type 0 where
  moved_to : Status → Audited
  replaces_linked legal_hold_set legal_hold_cleared : Audited

-- A row of `package_audit`. Its `id` is its place in the table.
pub record AuditRow : Type 0 where
  pub key : Key
  pub from_status : Option Status
  pub to_status : Audited
  pub actor_id : String
  pub actor_roles : RoleSet
  pub reason : Option String
  pub ts : ℕ

-- A row of `store_settings`.
pub record Setting : Type 0 where
  pub key : String
  pub value : String
  pub updated_at : ℕ
  pub updated_by_id : String
  pub updated_by_roles : RoleSet

-- A row of `store_settings_audit`.
pub record SettingAudit : Type 0 where
  pub key : String
  pub old_value : Option String
  pub new_value : String
  pub actor_id : String
  pub actor_roles : RoleSet
  pub ts : ℕ

abbrev pub Bytes : Type 0
Bytes = List ℕ

-- A file of the blob store: its name is the sha256.
pub record Blob : Type 0 where
  pub sha256 : String
  pub bytes : Bytes

-- `index.sqlite3`, `blobs/`, and the packages that have a redaction sidecar under `redaction/`.
pub record Store : Type 0 where
  pub packages : List PackageRow
  pub package_audit : List AuditRow
  pub settings : List Setting
  pub settings_audit : List SettingAudit
  pub blobs : List Blob
  pub sidecars : List Key

-- `package_id=? AND package_version=?`
unfoldable pub key_is : Key → Key → Bool
key_is j k = str_eq j.package_id k.package_id && str_eq j.package_version k.package_version

pub key_is_iff : (j k : Key) → (key_is j k ≡ true) ↔ (j ≡ k)
unfolding key_is
key_is_iff j k =
    ground
      (arith, str_eq_iff j.package_id k.package_id, str_eq_iff j.package_version k.package_version)

pub key_is_refl : (k : Key) → key_is k k ≡ true
key_is_refl k = (key_is_iff k k).1 refl

-- `status=?`
unfoldable pub status_is : Status → Status → Bool
unfolding Status-discrete
status_is s t = decide (Status-discrete s t)

pub status_is_iff : (s t : Status) → (status_is s t ≡ true) ↔ (s ≡ t)
unfolding status_is decide
status_is_iff s t = elim (Status-discrete s t) as (λ d. (decide d ≡ true) ↔ (s ≡ t)) [
  | yes p ↦ (λ _. p, λ _. refl)
  | no p ↦ (λ h. cc, λ e. absurd (p e))
]
