-- ===== src/Corpus.antt =====
-- The routes that change a package's status and then the index: src/ap_api/app.py,
-- src/ap_api/lifecycle_routes.py, `console_purge` of src/ap_console/routes.py, over
-- src/ap_index/reindex.py and the chunking of src/ap_redact/redact.py.
pub mod Approved
pub mod Refusals
pub mod Visits
use analysis_package.Base.{
  ℕ, String, Bool, true, false, not, Option, none, some, List, [], ◌∷◌, ◌++◌, if◌then◌else◌,
}
use Prim.Native.String.{◌++◌ as text_append}
use analysis_package.Base.Exec.{
  Result, ok, err, Exec, pure, raise, gets, modify, require_some, guard, ◌>>=◌, ◌>>◌,
}
use analysis_package.Base.Table.{find}
use analysis_package.Identity.{Identity}
use analysis_package.Store.Records.{
  Key, Status, approved, Overall, Bytes, Blob, PackageRow, Store, status_is,
}
use analysis_package.Store.Effects.{blob_named, remove_sidecar}
use analysis_package.Store.Methods.{PackageDir, StoreError, M, get}
use analysis_package.Store.Methods
use analysis_package.Review.{transition}
use analysis_package.Lifecycle
use analysis_package.Requests.{Env, Action, Request}
use analysis_package.Index.{
  ChunkRecord, IndexError, missing_package_blob, unreadable_manifest, remove_package, index_package,
}

-- `RawChunk`, with its `data` as the text that `render_text` and `_scrub_mentions` make of it
pub record RawChunk : Type 0 where
  pub chunk_type : String
  pub row_id : String
  pub field_path : String
  pub text : String

-- what `redact_package` reads off the extracted bytes of a package
pub record Redaction : Type 0 where
  pub loads : Bytes → Bool  -- `load_manifest` returns
  pub has_high_severity : Bytes → Bool  -- `scan_package_tree` finds a high-severity secret
  pub as_of : Bytes → String
  pub profile : Bytes → String
  pub confidentiality : Bytes → String
  pub build_all_chunks : Bytes → List RawChunk

pub record System : Type 0 where
  pub store : Store
  pub index : List ChunkRecord

unfoldable pub new_chunks : Redaction → Bytes → Key → List RawChunk → List ChunkRecord
new_chunks r bytes k [] = []
new_chunks r bytes k (c ∷ raw) =
    record {
      chunk_id = text_append k.package_id (
          text_append "/" (
            text_append k.package_version
              (text_append "/" (text_append c.chunk_type (text_append "/" c.row_id)))));
      key = k;
      as_of = r.as_of bytes;
      profile = r.profile bytes;
      chunk_type = c.chunk_type;
      field_path = c.field_path;
      confidentiality = r.confidentiality bytes;
      text = c.text;
    }
    ∷ new_chunks r bytes k raw

-- `redact_package`: the chunks, and `report.blocked`
unfoldable pub redact_package : Redaction → Bytes → Key → List ChunkRecord × Bool
redact_package r bytes k =
    if r.has_high_severity bytes
    then ([], true)
    else (new_chunks r bytes k (r.build_all_chunks bytes), false)

-- `write_report`: the sidecar of the package is there afterwards
unfoldable pub write_report : Key → Store → Store
write_report k s = record s { sidecars = k ∷ remove_sidecar k s.sidecars }

-- the `else` of the last `if` of `reindex_package`
unfoldable pub put_chunks : List ChunkRecord → Exec System IndexError (Unit {0})
put_chunks chunks sys =
    let (result, index) = index_package chunks sys.index in (result, record sys { index = index })

-- `reindex_package` on the bytes of an approved package
unfoldable pub reindex_live : Redaction → Bytes → Key → Exec System IndexError (Unit {0})
reindex_live r bytes k = do
  guard (r.loads bytes) unreadable_manifest
  modify (λ sys. record sys { store = write_report k sys.store })
  if (redact_package r bytes k).1
      then modify (λ sys. record sys { index = remove_package k sys.index })
      else put_chunks (redact_package r bytes k).0

unfoldable pub reindex_package : Redaction → Key → Exec System IndexError (Unit {0})
reindex_package r k = do
  found ← gets (λ sys. get k sys.store)
  elim found [
    | none ↦ modify (λ sys. record sys { index = remove_package k sys.index })
    | some row ↦
        if status_is row.status approved
        then (do
          blob ← gets (λ sys. find (blob_named row.blob_sha256) sys.store.blobs)
          b ← require_some blob missing_package_blob
          reindex_live r b.bytes k)
        else modify (λ sys. record sys { index = remove_package k sys.index })
  ]

-- the index's part of a request, which runs unless the workflow raised
unfoldable pub then_index :
    Result StoreError PackageRow × Store → (System → System) → System → System
then_index (ok row, t) hook sys = hook (record sys { store = t })
then_index (err e, t) hook sys = record sys { store = t }

module _ (env : Env) (r : Redaction) where
  -- `reindex_after_transition`, where what it raises ends the request
  unfoldable pub reindex : Key → System → System
  reindex k sys = (reindex_package r k sys).1

  -- one request, with what its route does to the index
  unfoldable pub visit : ℕ → Identity → Action → System → System
  visit now actor (Action.publish dir gate_report) sys = record sys {
    store = (Methods.publish env.blob_sha256 now dir actor gate_report sys.store).1;
  }
  visit now actor (Action.review k to reason) sys =
      then_index (transition env.rerun_gate env.policy now k to actor reason sys.store) (reindex k)
        sys
  visit now actor (Action.supersede k successor reason) sys =
      then_index (Lifecycle.supersede now k successor actor reason sys.store)
        (λ done. ((reindex_package r k >> reindex_package r successor) done).1) sys
  visit now actor (Action.recall k reason) sys =
      then_index (Lifecycle.recall now k actor reason sys.store) (reindex k) sys
  visit now actor (Action.restore k reason) sys =
      then_index (Lifecycle.restore now k actor reason sys.store) (reindex k) sys
  visit now actor (Action.legal_hold k hold reason) sys = record sys {
    store = (Lifecycle.set_legal_hold now k hold reason actor sys.store).1;
  }
  visit now actor (Action.purge k reason) sys =
      then_index (Lifecycle.purge now k actor reason sys.store)
        (λ done. record done { index = remove_package k done.index }) sys
  visit now actor (Action.retention days) sys = record sys {
    store = (Lifecycle.set_retention_days env.str_of now days actor sys.store).1;
  }

  unfoldable pub visits : List Request → System → System
  visits [] sys = sys
  visits (q ∷ rest) sys = visits rest (visit q.now q.actor q.action sys)
