-- ===== src/Store/Files.antt =====
-- What the blob store of src/ap_store/blobstore.py has after a put and after a delete.
use analysis_package.Base.{
  String, ◌≡◌, refl, false, none, some, List, [], ◌∷◌, arith, inl, inr, if◌then◌else◌, str_eq,
  str_eq_iff, Option-cases,
}
use analysis_package.Base.Table.{find, or_else}
use analysis_package.Base.Table.Laws.{find-append}
use analysis_package.Store.Records.{Blob}
use analysis_package.Store.Effects.{blob_named, has_blob, put_blob, delete_blob}

named_self : (b : Blob) (sha : String) → blob_named sha b ≡ str_eq b.sha256 sha
unfolding blob_named
named_self b sha = refl

-- After a put, the blob is there, and those that were there are the same.
pub find-put_blob :
    (b : Blob) (blobs : List Blob) (sha : String)
    → find (blob_named sha) (put_blob b blobs)
      ≡ or_else (find (blob_named sha) blobs) (if str_eq b.sha256 sha then some b else none)
unfolding put_blob has_blob
find-put_blob b blobs sha = elim (Option-cases (find (blob_named b.sha256) blobs)) [
  | inl absent_here ↦ ground (arith, find-append (blob_named sha) blobs b, named_self b sha)
  | inr (c, there) ↦ ground (arith, str_eq_iff b.sha256 sha)
]

-- A delete removes no blob of another name.
pub find-delete_blob :
    (gone sha : String) (blobs : List Blob)
    → str_eq gone sha ≡ false
    → find (blob_named sha) (delete_blob gone blobs) ≡ find (blob_named sha) blobs
unfolding delete_blob find blob_named
find-delete_blob gone sha [] ne = refl
find-delete_blob gone sha (b ∷ blobs) ne = ground (
  arith,
  find-delete_blob gone sha blobs ne,
  str_eq_iff b.sha256 gone,
  str_eq_iff b.sha256 sha,
  str_eq_iff gone sha,
)
