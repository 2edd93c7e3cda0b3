-- ===== src/Store/Publish.antt =====
-- What `publish` does, on every branch.
use analysis_package.Base.{ℕ, String, ◌≡◌, ◌≢◌, refl, Option, none, some, arith, str_eq_iff}
use analysis_package.Base.Exec.{ok, err}
use analysis_package.Identity.{Identity}
use analysis_package.Store.Records.{Key, key_is_refl, PackageRow, Overall, Bytes, Store}
use analysis_package.Store.Effects.{get_row, put_blob, insert_package}
use analysis_package.Store.Reads.{get_row-insert_package}
use analysis_package.Store.Methods.{PackageDir, draft_row, publish_row, immutability_error}

-- the store with the blob of a directory
abbrev pub with_blob : (Bytes → String) → PackageDir → Store → Store
with_blob blob_sha256 dir s = record s {
  blobs = put_blob (record { sha256 = blob_sha256 dir.blob; bytes = dir.blob }) s.blobs;
}

module _ (blob_sha256 : Bytes → String) (now : ℕ) (dir : PackageDir) (actor : Identity)
    (gate_report : Option Overall) (s : Store) where
  get_row-with_blob : (k : Key) → get_row (with_blob blob_sha256 dir s) k ≡ get_row s k
  unfolding get_row
  get_row-with_blob k = refl

  read_after_insert :
      (k : Key)
      → get_row s k ≡ none
      → get_row
          (insert_package
            (draft_row blob_sha256 now dir k actor gate_report)
            actor
            now
            (with_blob blob_sha256 dir s))
          k
        ≡ some (draft_row blob_sha256 now dir k actor gate_report)
  unfolding draft_row
  read_after_insert k fresh =
      rw (get_row-insert_package, get_row-with_blob, fresh, key_is_refl k) refl

  -- A new key: the blob is stored and a draft row is inserted, with its audit row.
  pub publish_row_fresh :
      (k : Key)
      → get_row s k ≡ none
      → publish_row blob_sha256 now dir k actor gate_report s ≡ (
        ok (draft_row blob_sha256 now dir k actor gate_report),
        insert_package
            (draft_row blob_sha256 now dir k actor gate_report)
            actor
            now
            (with_blob blob_sha256 dir s),
      )
  unfolding publish_row
  publish_row_fresh k fresh = ground (arith, read_after_insert k fresh)

  pub publish_row_again :
      (k : Key) {row : PackageRow}
      → get_row s k ≡ some row
      → row.blob_sha256 ≡ blob_sha256 dir.blob
      → publish_row blob_sha256 now dir k actor gate_report s ≡ (ok row, s)
  unfolding publish_row
  publish_row_again k {row} old e =
      ground (arith, str_eq_iff row.blob_sha256 (blob_sha256 dir.blob))

  pub publish_row_differs :
      (k : Key) {row : PackageRow}
      → get_row s k ≡ some row
      → row.blob_sha256 ≢ blob_sha256 dir.blob
      → publish_row blob_sha256 now dir k actor gate_report s ≡ (err immutability_error, s)
  unfolding publish_row
  publish_row_differs k {row} old e =
      ground (arith, str_eq_iff row.blob_sha256 (blob_sha256 dir.blob))
