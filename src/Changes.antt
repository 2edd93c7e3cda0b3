-- ===== src/Changes.antt =====
-- The abstract machine of the package corpus: which changes the union of the two transition tables
-- (src/ap_review/workflow.py, src/ap_lifecycle/workflow.py) and the methods of
-- src/ap_store/store.py allow, with the condition of each. The workflows are shown to make no other.
pub mod Rows
pub mod Statuses
pub mod ByStore
pub mod ByReview
pub mod ByLifecycle
pub mod BySettings
use analysis_package.Base.{
  ℕ, String, ◌≡◌, ◌≢◌, ◌⊎◌, Bool, true, false, Option, none, some, List, str_eq, is_some,
}
use analysis_package.Base.Table.{find}
use analysis_package.Base.Text.{is_given}
use analysis_package.Identity.{Role, Identity, has_role}
use analysis_package.Store.Records.{
  Key, Status, draft, in_review, approved, rejected, superseded, recalled, PackageRow, Overall,
  passes, Bytes, Blob, Setting, SettingAudit, Store,
}
use analysis_package.Store.Effects.{
  get_row, blob_named, put_blob, insert_package, write_status, write_link, write_hold, write_purge,
}
use analysis_package.Review.{ReviewPolicy}
use analysis_package.Lifecycle.{reviewer_or_admin}

-- the blob of a sha256
unfoldable pub blob_of : Store → String → Option Blob
blob_of s sha = find (blob_named sha) s.blobs

module _ (rerun_gate : Bytes → Overall) (policy : ReviewPolicy) where
  -- the gate passes on the stored bytes of a row
  abbrev pub GatePasses : Store → PackageRow → Type 0
  GatePasses s r =
      (b : Blob) × (blob_of s r.blob_sha256 ≡ some b) × (passes (rerun_gate b.bytes) ≡ true)

  -- the decider is not the analyst, or is excused
  abbrev pub FourEyes : PackageRow → Identity → Type 0
  FourEyes r actor =
      (policy.allow_self_review ≡ true)
      ⊎ (has_role actor Role.admin ≡ true)
      ⊎ (r.analyst_id ≢ some actor.id)

  -- who may move a row from its status to another, and when
  pub data Allowed (s : Store) (r : PackageRow) (to : Status) (actor : Identity)
      (reason : Option String) : Type 0 where
    submit :
        r.status ≡ draft
        → to ≡ in_review
        → has_role actor Role.analyst ≡ true
        → (policy.gate_before_review ≡ true → GatePasses s r)
        → Allowed s r to actor reason
    approve :
        r.status ≡ in_review
        → to ≡ approved
        → has_role actor Role.reviewer ≡ true
        → FourEyes r actor
        → Allowed s r to actor reason
    reject :
        r.status ≡ in_review
        → to ≡ rejected
        → has_role actor Role.reviewer ≡ true
        → FourEyes r actor
        → is_given reason ≡ true
        → Allowed s r to actor reason
    pull_back :
        (r.status ≡ in_review) ⊎ (r.status ≡ rejected)
        → to ≡ draft
        → (has_role actor Role.admin ≡ true) ⊎ (r.analyst_id ≡ some actor.id)
        → Allowed s r to actor reason
    supersede :
        r.status ≡ approved
        → to ≡ superseded
        → reviewer_or_admin actor ≡ true
        → Allowed s r to actor reason
    recall :
        r.status ≡ approved
        → to ≡ recalled
        → reviewer_or_admin actor ≡ true
        → is_given reason ≡ true
        → Allowed s r to actor reason
    restore :
        (r.status ≡ recalled) ⊎ (r.status ≡ superseded)
        → to ≡ approved
        → has_role actor Role.admin ≡ true
        → Allowed s r to actor reason

  -- one committed change of the store, which sets the status of no key but `k`
  pub data Change (k : Key) (s t : Store) : Type 0 where
    same : t ≡ s → Change k s t
    published :
        (row : PackageRow) (b : Blob) (actor : Identity) (now : ℕ)
        → row.key ≡ k
        → get_row s row.key ≡ none
        → row.status ≡ draft
        → row.purged_at ≡ none
        → row.legal_hold ≡ false
        → b.sha256 ≡ row.blob_sha256
        → t ≡ insert_package row actor now (record s { blobs = put_blob b s.blobs })
        → Change k s t
    moved :
        (r : PackageRow) (to : Status) (actor : Identity) (reason : Option String) (now : ℕ)
        → get_row s k ≡ some r
        → Allowed s r to actor reason
        → t ≡ write_status k r.status to actor reason now s
        → Change k s t
    linked :
        (j replaced : Key) (r : PackageRow) (actor : Identity) (now : ℕ)
        → get_row s j ≡ some r
        → t ≡ write_link j replaced actor now s
        → Change k s t
    held :
        (r : PackageRow) (hold : Bool) (reason : Option String) (actor : Identity) (now : ℕ)
        → get_row s k ≡ some r
        → has_role actor Role.admin ≡ true
        → t ≡ write_hold k hold reason actor now s
        → Change k s t
    configured :
        (settings : List Setting) (settings_audit : List SettingAudit)
        → t ≡ record s { settings = settings; settings_audit = settings_audit }
        → Change k s t
    destroyed :
        (r : PackageRow) (actor : Identity) (reason : Option String) (now : ℕ)
        → get_row s k ≡ some r
        → has_role actor Role.admin ≡ true
        → r.purged_at ≡ none
        → r.status ≢ approved
        → r.legal_hold ≡ false
        → t ≡ write_purge r actor reason now s
        → Change k s t

  -- any number of changes, one after another
  pub data Changes (s : Store) : Store → Type 0 where
    done : Changes s s
    next : {k : Key} {t u : Store} → Changes s t → Change k t u → Changes s u

  pub Changes-one : {k : Key} {s t : Store} → Change k s t → Changes s t
  Changes-one c = next done c

  pub Changes-trans : {s t u : Store} → Changes s t → Changes t u → Changes s u
  Changes-trans c done = c
  Changes-trans c (next d e) = next (Changes-trans c d) e
