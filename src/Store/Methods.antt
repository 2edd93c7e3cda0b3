-- ===== src/Store/Methods.antt =====
-- The methods of `PackageStore`, src/ap_store/store.py. `now` is what `_utcnow()` returns during the
-- call.
use analysis_package.Base.{
  ℕ, String, ltb, ◌==◌, Bool, false, Option, none, some, List, [], ◌∷◌, str_eq, is_some,
  if◌then◌else◌,
}
use analysis_package.Base.Exec.{
  ok, err, Exec, pure, raise, gets, require_some, modify, transaction, ◌>>=◌, ◌>>◌,
}
use analysis_package.Base.Table.{find, count_where, select}
use analysis_package.Identity.{Identity}
use analysis_package.Store.Records.{
  Key, Status, draft, approved, Overall, PackageRow, AuditRow, Bytes, Store, key_is, status_is,
}
use analysis_package.Store.Effects.{
  at_key, at_key_in, get_row, blob_named, put_blob, insert_package, write_status, write_link,
  write_hold, write_purge,
}

-- why `ReviewPolicyError` is raised (src/ap_review/workflow.py)
pub data ReviewRefusal : Type 0 where
  not_a_transition not_an_analyst gate_fails not_a_reviewer : ReviewRefusal
  self_review no_reason not_the_owner : ReviewRefusal

-- why `LifecyclePolicyError` is raised (src/ap_lifecycle/workflow.py)
pub data LifecycleRefusal : Type 0 where
  bad_transition no_reviewer supersedes_itself bad_successor needs_reason : LifecycleRefusal
  not_restorable no_admin is_approved is_held : LifecycleRefusal

-- `StoreError` with its subclasses, one constructor for each `raise`; `missing_blob` is the
-- `FileNotFoundError` of `BlobStore.get`.
pub data StoreError : Type 0 where
  missing_package_id missing_package_version immutability_error : StoreError
  no_such_package stale_status : StoreError
  purge_of_approved purge_of_held negative_retention missing_blob : StoreError
  review_policy : ReviewRefusal → StoreError
  lifecycle_policy : LifecycleRefusal → StoreError

abbrev pub M : Type 0 → Type 0
M A = Exec Store StoreError A

-- What `publish` reads of the manifest: `None` where the value is missing or no string, and
-- `str(...)` of the others.
pub record Manifest : Type 0 where
  pub package_id : Option String
  pub package_version : Option String
  pub profile : String
  pub title : String
  pub as_of : String
  pub owners_json : String
  pub analyst_id : Option String
  pub reviewer_id : Option String

-- A package directory, with what the code outside the store makes of it: `load_manifest`,
-- `make_blob`, and the verdict of `run_all` and `build_report`.
pub record PackageDir : Type 0 where
  pub manifest : Manifest
  pub blob : Bytes
  pub gate : Overall

-- `isinstance(x, str) and x`
abbrev pub named : Option String → Option String
named none = none
named (some s) = if str_eq s "" then none else some s

-- `self._row_to_record(self._get_row(...))` after a write to that row
abbrev pub read_back : Key → M PackageRow
read_back k s = require_some (get_row s k) no_such_package s

-- the row that `publish` inserts
unfoldable pub draft_row :
    (Bytes → String) → ℕ → PackageDir → Key → Identity → Option Overall → PackageRow
draft_row blob_sha256 now dir k actor gate_report = record {
  key = k;
  profile = dir.manifest.profile;
  title = dir.manifest.title;
  as_of = dir.manifest.as_of;
  created_at = now;
  status = draft;
  blob_sha256 = blob_sha256 dir.blob;
  analyst_id = dir.manifest.analyst_id;
  reviewer_id = dir.manifest.reviewer_id;
  owners_json = dir.manifest.owners_json;
  gate_overall = elim gate_report [ none ↦ dir.gate | some given ↦ given ];
  published_by_id = actor.id;
  published_by_roles = actor.roles;
  replaces = none;
  legal_hold = false;
  legal_hold_reason = none;
  purged_at = none;
}

-- `publish`, under the lock
unfoldable pub publish_row :
    (Bytes → String) → ℕ → PackageDir → Key → Identity → Option Overall → M PackageRow
publish_row blob_sha256 now dir k actor gate_report = do
  let sha = blob_sha256 dir.blob
  existing ← gets (λ s. get_row s k)
  elim existing [
    | some row ↦ if str_eq row.blob_sha256 sha then pure row else raise immutability_error
    | none ↦ do
      modify
          (λ s. record s { blobs = put_blob (record { sha256 = sha; bytes = dir.blob }) s.blobs })
      modify (insert_package (draft_row blob_sha256 now dir k actor gate_report) actor now)
      read_back k
  ]

unfoldable pub publish :
    (Bytes → String) → ℕ → PackageDir → Identity → Option Overall → M PackageRow
publish blob_sha256 now dir actor gate_report = do
  package_id ← require_some (named dir.manifest.package_id) missing_package_id
  package_version ← require_some (named dir.manifest.package_version) missing_package_version
  publish_row blob_sha256 now dir
      (record { package_id = package_id; package_version = package_version }) actor gate_report

-- `get` of one version
unfoldable pub get : Key → Store → Option PackageRow
get k s = get_row s k

-- `get` with no version: ORDER BY created_at DESC, rowid DESC LIMIT 1
unfoldable pub newest : String → List PackageRow → Option PackageRow
newest package_id [] = none
newest package_id (r ∷ rows) =
    let later = newest package_id rows in
    if str_eq r.key.package_id package_id
    then elim later [
      | none ↦ some r
      | some l ↦ if ltb l.created_at r.created_at then some r else some l
    ]
    else later

unfoldable pub get_latest : String → Store → Option PackageRow
get_latest package_id s = newest package_id s.packages

-- `set_status`: the compare-and-swap on the status column
unfoldable pub set_status : ℕ → Key → Status → Status → Identity → Option String → M PackageRow
set_status now k from to actor reason = transaction (do
  rowcount ← gets (λ s. count_where (at_key_in k from) s.packages)
  current ← gets (λ s. get_row s k)
  if rowcount == 0
      then elim current [ none ↦ raise no_such_package | some row ↦ raise stale_status ]
      else do modify (write_status k from to actor reason now); read_back k)

unfoldable pub link_replaces : ℕ → Key → Key → Identity → M PackageRow
link_replaces now k replaced actor = transaction (do
  rowcount ← gets (λ s. count_where (at_key k) s.packages)
  if rowcount == 0
      then raise no_such_package
      else do modify (write_link k replaced actor now); read_back k)

unfoldable pub set_legal_hold : ℕ → Key → Bool → Option String → Identity → M PackageRow
set_legal_hold now k hold reason actor = transaction (do
  rowcount ← gets (λ s. count_where (at_key k) s.packages)
  if rowcount == 0
      then raise no_such_package
      else do modify (write_hold k hold reason actor now); read_back k)

unfoldable pub purge : ℕ → Key → Identity → Option String → M PackageRow
purge now k actor reason = transaction (do
  found ← gets (λ s. get_row s k)
  elim found [
    | none ↦ raise no_such_package
    | some row ↦
        if is_some row.purged_at
        then pure row
        else if status_is row.status approved
        then raise purge_of_approved
        else if row.legal_hold
        then raise purge_of_held
        else do modify (write_purge row actor reason now); read_back k
  ])

-- `BlobStore.get`: the bytes, or `FileNotFoundError`
unfoldable pub blob_bytes : String → M Bytes
blob_bytes sha s = elim (find (blob_named sha) s.blobs) [
  | none ↦ (err missing_blob, s)
  | some b ↦ (ok b.bytes, s)
]

-- `extract`: the bytes of a published version
unfoldable pub extract : Key → M Bytes
extract k = do
  found ← gets (λ s. get_row s k)
  row ← require_some found no_such_package
  blob_bytes row.blob_sha256

unfoldable pub audit_trail : Key → Store → List AuditRow
audit_trail k s = select (λ a. key_is a.key k) s.package_audit
