-- ===== src/Changes/Statuses.antt =====
-- The status that each key has after each effect.
use mathlib.Core.Option
use analysis_package.Base.{
  ℕ, String, ◌≡◌, ap, ◌∙◌, Bool, false, Option, none, some, List, arith, Option-cases, inl, inr,
  if◌then◌else◌,
}
use analysis_package.Identity.{Identity}
use analysis_package.Store.Records.{
  Key, Status, purged, PackageRow, Overall, Bytes, Blob, Setting, SettingAudit, Store, key_is,
  key_is_iff, status_is_iff,
}
use analysis_package.Store.Effects.{
  get_row, insert_package, put_blob, write_status, write_link, write_hold, write_purge, tombstone,
}
use analysis_package.Store.Reads.{
  get_row_key, get_row-insert_package, get_row-write_status, get_row-write_link, get_row-write_hold,
  get_row-write_purge,
}
use analysis_package.Review.{ReviewPolicy}
use analysis_package.Changes.{Change, same, published, moved, linked, held, configured, destroyed}
use analysis_package.Changes.Rows.{configured_reads}

-- the status of a key's row
unfoldable pub status_at : Store → Key → Option Status
status_at s j = Option.map (λ (r : PackageRow). r.status) (get_row s j)

module _ (s : Store) (j : Key) where
  pub status_at-write_status :
      (k : Key) (r : PackageRow) (to : Status) (actor : Identity) (reason : Option String) (now : ℕ)
      → get_row s k ≡ some r
      → status_at (write_status k r.status to actor reason now s) j
        ≡ (if key_is k j then some to else status_at s j)
  unfolding status_at
  status_at-write_status k r to actor reason now h = elim (Option-cases (get_row s j)) [
    | inl none_there ↦
        ground (arith, get_row-write_status k r.status to actor reason now s j, key_is_iff k j)
    | inr (x, hx) ↦ ground (
      arith,
      get_row-write_status k r.status to actor reason now s j,
      key_is_iff k j,
      key_is_iff x.key k,
      get_row_key s j x hx,
      status_is_iff x.status r.status,
    )
  ]

  pub status_at-write_link :
      (k replaced : Key) (actor : Identity) (now : ℕ)
      → status_at (write_link k replaced actor now s) j ≡ status_at s j
  unfolding status_at
  status_at-write_link k replaced actor now =
      ground (arith, get_row-write_link k replaced actor now s j)

  pub status_at-write_hold :
      (k : Key) (hold : Bool) (reason : Option String) (actor : Identity) (now : ℕ)
      → status_at (write_hold k hold reason actor now s) j ≡ status_at s j
  unfolding status_at
  status_at-write_hold k hold reason actor now =
      ground (arith, get_row-write_hold k hold reason actor now s j)

  pub status_at-write_purge :
      (k : Key) (r : PackageRow) (actor : Identity) (reason : Option String) (now : ℕ)
      → get_row s k ≡ some r
      → status_at (write_purge r actor reason now s) j
        ≡ (if key_is k j then some purged else status_at s j)
  unfolding status_at tombstone
  status_at-write_purge k r actor reason now h = elim (Option-cases (get_row s j)) [
    | inl none_there ↦ ground (arith, get_row-write_purge r actor reason now s j, key_is_iff k j)
    | inr (x, hx) ↦ ground (
      arith,
      get_row-write_purge r actor reason now s j,
      key_is_iff k j,
      key_is_iff x.key r.key,
      get_row_key s j x hx,
      get_row_key s k r h,
    )
  ]

  pub status_at-insert_package :
      (row : PackageRow) (actor : Identity) (now : ℕ) (b : Blob)
      → get_row s row.key ≡ none
      → status_at (insert_package row actor now (record s { blobs = put_blob b s.blobs })) j
        ≡ (if key_is row.key j then some row.status else status_at s j)
  unfolding status_at get_row
  status_at-insert_package row actor now b fresh = ground (
    arith,
    get_row-insert_package row actor now (record s { blobs = put_blob b s.blobs }) j,
    key_is_iff row.key j,
  )

  pub status_at-configured :
      (settings : List Setting) (settings_audit : List SettingAudit)
      → status_at (record s { settings = settings; settings_audit = settings_audit }) j
        ≡ status_at s j
  unfolding status_at
  status_at-configured settings settings_audit =
      ap (Option.map (λ (r : PackageRow). r.status)) (configured_reads s settings settings_audit j)

module _ (rerun_gate : Bytes → Overall) (policy : ReviewPolicy) where
  -- A change about one key leaves the status of every other key as it was.
  pub status_at-other :
      {k : Key} {s t : Store}
      → Change rerun_gate policy k s t
      → (j : Key) → key_is k j ≡ false
      → status_at t j ≡ status_at s j
  status_at-other (same e) j ne = ap (λ u. status_at u j) e
  status_at-other {k} {s} (published row b actor now own fresh st live free sha e) j ne =
      ground (arith, e, status_at-insert_package s j row actor now b fresh)
  status_at-other {k} {s} (moved r to actor reason now h okay e) j ne =
      ground (arith, e, status_at-write_status s j k r to actor reason now h)
  status_at-other {k} {s} (linked l replaced r actor now h e) j ne =
      ap (λ u. status_at u j) e ∙ status_at-write_link s j l replaced actor now
  status_at-other {k} {s} (held r hold reason actor now h who e) j ne =
      ap (λ u. status_at u j) e ∙ status_at-write_hold s j k hold reason actor now
  status_at-other {k} {s} (configured settings settings_audit e) j ne =
      ap (λ u. status_at u j) e ∙ status_at-configured s j settings settings_audit
  status_at-other {k} {s} (destroyed r actor reason now h who live st free e) j ne =
      ground (arith, e, status_at-write_purge s j k r actor reason now h)
