-- ===== src/Store/Effects.antt =====
-- What one committed transaction of `PackageStore` (src/ap_store/store.py) writes, as a function of
-- the store: the SQL statements of its method with the audit row that goes with them.
use Prim.Native.String.{◌++◌ as text_append}
use analysis_package.Base.{
  ℕ, String, ◌==◌, Bool, ◌&&◌, not, Option, none, some, List, [], ◌∷◌, ◌++◌, str_eq, is_some,
  if◌then◌else◌,
}
use analysis_package.Base.Table.{find, count_where, update_where}
use analysis_package.Identity.{Identity}
use analysis_package.Store.Records.{
  Key, Status, purged, PackageRow, Audited, moved_to, replaces_linked, legal_hold_set,
  legal_hold_cleared, Blob, Store, key_is, status_is,
}

-- WHERE package_id=? AND package_version=?
abbrev pub at_key : Key → PackageRow → Bool
at_key k r = key_is r.key k

-- ... AND status=?
abbrev pub at_key_in : Key → Status → PackageRow → Bool
at_key_in k from r = at_key k r && status_is r.status from

unfoldable pub get_row : Store → Key → Option PackageRow
get_row s k = find (at_key k) s.packages

-- `_insert_audit`
unfoldable pub insert_audit :
    Key → Option Status → Audited → Identity → Option String → ℕ → Store → Store
insert_audit k from to actor reason ts s = record s {
  package_audit =
      s.package_audit
      ++ record {
        key = k;
        from_status = from;
        to_status = to;
        actor_id = actor.id;
        actor_roles = actor.roles;
        reason = reason;
        ts = ts;
      }
        ∷ [];
}

-- the file of a sha256
unfoldable pub blob_named : String → Blob → Bool
blob_named sha b = str_eq b.sha256 sha

-- `BlobStore.has`
unfoldable pub has_blob : String → List Blob → Bool
has_blob sha blobs = is_some (find (blob_named sha) blobs)

-- `BlobStore.put`: a blob that is there already is left as it is
unfoldable pub put_blob : Blob → List Blob → List Blob
unfolding has_blob
put_blob b blobs = if has_blob b.sha256 blobs then blobs else blobs ++ b ∷ []

-- `BlobStore.delete`
unfoldable pub delete_blob : String → List Blob → List Blob
delete_blob sha [] = []
delete_blob sha (b ∷ blobs) =
    let rest = delete_blob sha blobs in if str_eq b.sha256 sha then rest else b ∷ rest

-- the INSERT of `publish` and its audit row
unfoldable pub insert_package : PackageRow → Identity → ℕ → Store → Store
unfolding insert_audit
insert_package row actor now s =
    insert_audit row.key none (moved_to row.status) actor (some "published") now
      (record s { packages = s.packages ++ row ∷ [] })

-- the UPDATE of `set_status` and its audit row
unfoldable pub write_status : Key → Status → Status → Identity → Option String → ℕ → Store → Store
unfolding insert_audit
write_status k from to actor reason now s =
    insert_audit k (some from) (moved_to to) actor reason now (record s {
      packages = update_where (at_key_in k from) (λ r. record r { status = to }) s.packages;
    })

-- the `reason` that `link_replaces` records
abbrev pub link_reason : Key → String
link_reason k =
    text_append "replaces " (text_append k.package_id (text_append "/" k.package_version))

-- the UPDATE of `link_replaces` and its audit row
unfoldable pub write_link : Key → Key → Identity → ℕ → Store → Store
unfolding insert_audit
write_link k replaced actor now s =
    insert_audit k none replaces_linked actor (some (link_reason replaced)) now (record s {
      packages = update_where (at_key k) (λ r. record r { replaces = some replaced }) s.packages;
    })

-- the UPDATE of `set_legal_hold` and its audit row
unfoldable pub write_hold : Key → Bool → Option String → Identity → ℕ → Store → Store
unfolding insert_audit
write_hold k hold reason actor now s =
    insert_audit k none (if hold then legal_hold_set else legal_hold_cleared) actor reason now
      (record s {
        packages =
            update_where (at_key k)
              (λ r. record r {
                legal_hold = hold;
                legal_hold_reason = if hold then reason else none;
              })
              s.packages;
      })

-- the row that `purge` leaves
unfoldable pub tombstone : ℕ → PackageRow → PackageRow
tombstone now r = record r {
  status = purged;
  purged_at = some now;
  title = "";
  as_of = "";
  owners_json = "{}";
  analyst_id = none;
  reviewer_id = none;
}

-- the other rows that are not purged and share a blob: `other_refs`
unfoldable pub other_refs : Key → String → Store → ℕ
other_refs k sha s =
    count_where (λ r. str_eq r.blob_sha256 sha && not (at_key k r) && not (is_some r.purged_at))
      s.packages

unfoldable pub remove_sidecar : Key → List Key → List Key
remove_sidecar k [] = []
remove_sidecar k (j ∷ js) = let rest = remove_sidecar k js in if key_is j k then rest else j ∷ rest

-- all that `purge` writes once its guards have passed, for the row that it read
unfoldable pub write_purge : PackageRow → Identity → Option String → ℕ → Store → Store
unfolding insert_audit tombstone
write_purge row actor reason now s =
    insert_audit row.key (some row.status) (moved_to purged) actor reason now (record s {
      packages = update_where (at_key row.key) (tombstone now) s.packages;
      blobs =
          if other_refs row.key row.blob_sha256 s == 0
          then delete_blob row.blob_sha256 s.blobs
          else s.blobs;
      sidecars = remove_sidecar row.key s.sidecars;
    })
