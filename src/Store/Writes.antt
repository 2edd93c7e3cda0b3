-- ===== src/Store/Writes.antt =====
-- What each writing method of the store does, on every branch, in terms of its effect.
use analysis_package.Base.{
  ℕ, ◌≤◌, ◌<◌, String, ◌≡◌, ◌≢◌, refl, Bool, true, false, Option, none, some, arith, ◌==◌,
  Bool-cases, if◌then◌else◌, inl, inr, is_some,
}
use analysis_package.Base.Exec.{Result, ok, err}
use analysis_package.Base.Table.{count_where}
use analysis_package.Base.Table.Laws.{
  count_and_pos, count_and_zero, count_and_zero_rest, count-zero_of_find, find_of_count-zero,
}
use analysis_package.Identity.{Identity}
use analysis_package.Store.Records.{
  Key, Status, approved, PackageRow, Store, key_is, key_is_iff, key_is_refl, status_is,
  status_is_iff,
}
use analysis_package.Store.Effects.{
  at_key, at_key_in, get_row, write_status, write_link, write_hold, write_purge, tombstone,
}
use analysis_package.Store.Reads.{
  get_row_key, get_row-write_status, get_row-write_link, get_row-write_hold, get_row-write_purge,
}
use analysis_package.Store.Methods.{
  StoreError, no_such_package, stale_status, purge_of_approved, purge_of_held, set_status,
  link_replaces, set_legal_hold, purge,
}

-- no two rows share a key: PRIMARY KEY (package_id, package_version)
abbrev pub KeysUnique : Store → Type 0
KeysUnique s = (k : Key) → count_where (at_key k) s.packages ≤ 1

-- What a read by key sees right after the write, where the key had a row.
module _ (now : ℕ) (k : Key) (actor : Identity) (s : Store) {r : PackageRow}
    (h : get_row s k ≡ some r) where
  key_here : key_is r.key k ≡ true
  key_here = (key_is_iff r.key k).1 (get_row_key s k r h)

  pub read_after_status :
      (to : Status) (reason : Option String)
      → get_row (write_status k r.status to actor reason now s) k ≡ some (record r { status = to })
  read_after_status to reason =
      rw (get_row-write_status, h) (rw (key_here, (status_is_iff r.status r.status).1 refl) refl)

  pub read_after_link :
      (replaced : Key)
      → get_row (write_link k replaced actor now s) k ≡ some (record r { replaces = some replaced })
  read_after_link replaced = rw (get_row-write_link, h) (rw key_here refl)

  pub read_after_hold :
      (hold : Bool) (reason : Option String)
      → get_row (write_hold k hold reason actor now s) k
        ≡ some (record r { legal_hold = hold; legal_hold_reason = if hold then reason else none })
  read_after_hold hold reason = rw (get_row-write_hold, h) (rw key_here refl)

  pub read_after_purge :
      (reason : Option String)
      → get_row (write_purge r actor reason now s) k ≡ some (tombstone now r)
  read_after_purge reason = rw (get_row-write_purge, h) (rw (key_is_refl r.key) refl)

module _ (now : ℕ) (k : Key) (actor : Identity) (reason : Option String) (s : Store) where
  some_in_status :
      {r : PackageRow} → get_row s k ≡ some r → 0 < count_where (at_key_in k r.status) s.packages
  unfolding get_row
  some_in_status {r} h =
      count_and_pos (at_key k) (λ x. status_is x.status r.status) s.packages h
        ((status_is_iff r.status r.status).1 refl)

  -- A row in the expected status is moved, with its audit row.
  pub set_status_moves :
      (to : Status) {r : PackageRow}
      → get_row s k ≡ some r
      → set_status now k r.status to actor reason s
        ≡ (ok (record r { status = to }), write_status k r.status to actor reason now s)
  unfolding set_status
  set_status_moves to {r} h =
      ground (arith, some_in_status h, read_after_status now k actor s h to reason)

  other_status :
      (from : Status) {r : PackageRow}
      → KeysUnique s
      → get_row s k ≡ some r
      → r.status ≢ from
      → count_where (at_key_in k from) s.packages ≡ 0
  unfolding get_row
  other_status from {r} u h ne = elim (Bool-cases (status_is r.status from)) [
    | inl same ↦ absurd (ne ((status_is_iff r.status from).0 same))
    | inr other ↦ count_and_zero (at_key k) (λ x. status_is x.status from) s.packages (u k) h other
  ]

  no_row : (from : Status) → get_row s k ≡ none → count_where (at_key_in k from) s.packages ≡ 0
  unfolding get_row
  no_row from h =
      count_and_zero_rest (at_key k) (λ x. status_is x.status from) s.packages
        (count-zero_of_find (at_key k) s.packages h)

  -- With unique keys, a row in another status is left alone and the caller is told.
  pub set_status_stale :
      (from to : Status) {r : PackageRow}
      → KeysUnique s
      → get_row s k ≡ some r
      → r.status ≢ from
      → set_status now k from to actor reason s ≡ (err stale_status, s)
  unfolding set_status
  set_status_stale from to {r} u h ne = ground (arith, other_status from u h ne)

  pub set_status_missing :
      (from to : Status)
      → get_row s k ≡ none
      → set_status now k from to actor reason s ≡ (err no_such_package, s)
  unfolding set_status
  set_status_missing from to h = ground (arith, no_row from h)

  some_row :
      {r : PackageRow} → get_row s k ≡ some r → (count_where (at_key k) s.packages == 0) ≡ false
  unfolding get_row
  some_row {r} h = elim (Bool-cases (count_where (at_key k) s.packages == 0)) [
    | inl z ↦ absurd (ground (arith, find_of_count-zero (at_key k) s.packages (ground arith)))
    | inr p ↦ p
  ]

  pub link_replaces_writes :
      (replaced : Key) {r : PackageRow}
      → get_row s k ≡ some r
      → link_replaces now k replaced actor s
        ≡ (ok (record r { replaces = some replaced }), write_link k replaced actor now s)
  unfolding link_replaces
  link_replaces_writes replaced h =
      ground (arith, some_row h, read_after_link now k actor s h replaced)

  pub set_legal_hold_writes :
      (hold : Bool) {r : PackageRow}
      → get_row s k ≡ some r
      → set_legal_hold now k hold reason actor s ≡ (
        ok (record r { legal_hold = hold; legal_hold_reason = if hold then reason else none }),
        write_hold k hold reason actor now s,
      )
  unfolding set_legal_hold
  set_legal_hold_writes hold h =
      ground (arith, some_row h, read_after_hold now k actor s h hold reason)

  -- What `purge` does to a row, by the first guard that stops it.
  unfoldable pub purge_outcome : PackageRow → Result StoreError PackageRow × Store
  purge_outcome r =
      if is_some r.purged_at
      then (ok r, s)
      else if status_is r.status approved
      then (err purge_of_approved, s)
      else if r.legal_hold
      then (err purge_of_held, s)
      else (ok (tombstone now r), write_purge r actor reason now s)

  pub purge_lem :
      {r : PackageRow} → get_row s k ≡ some r → purge now k actor reason s ≡ purge_outcome r
  unfolding purge purge_outcome
  purge_lem {r} h = ground (arith, read_after_purge now k actor s h reason)
