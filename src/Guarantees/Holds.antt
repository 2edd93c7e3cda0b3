-- ===== src/Guarantees/Holds.antt =====
-- What a legal hold keeps: `set_legal_hold` and `purge` of src/ap_store/store.py under any requests.
use mathlib.Core.Option
use analysis_package.Base.{
  ℕ, String, ◌≡◌, ◌≤◌, ◌+◌, refl, sym, ap, ◌∙◌, inl, inr, Bool, true, false, ◌&&◌, Option, none,
  some, List, [], ◌∷◌, ◌++◌, arith, Bool-cases, if◌then◌else◌,
}
use analysis_package.Base.Exec.{err}
use analysis_package.Base.Table.{count_where}
use analysis_package.Base.Table.Laws.{count-append}
use analysis_package.Identity.{Identity}
use analysis_package.Store.Records.{
  Key, approved, PackageRow, Audited, legal_hold_cleared, AuditRow, Overall, Bytes, Store, key_is,
  key_is_iff, status_is,
}
use analysis_package.Store.Effects.{
  at_key, at_key_in, get_row, insert_audit, insert_package, write_status, write_link, write_hold,
  write_purge, tombstone, put_blob,
}
use analysis_package.Store.Reads.{
  get_row_key, same_row, get_row-insert_package, get_row-write_status, get_row-write_link,
  get_row-write_hold, get_row-write_purge,
}
use analysis_package.Store.Methods
use analysis_package.Store.Methods.{StoreError, purge_of_approved, purge_of_held}
use analysis_package.Review.{ReviewPolicy}
use analysis_package.Changes.{
  Change, same, published, moved, linked, held, configured, destroyed, Changes, done, next,
}
use analysis_package.Changes.Rows.{configured_reads, hit_key}
use analysis_package.Requests.{Env, Request, run, run-Changes}

-- the audit row says that the hold of the key was cleared
unfoldable pub is_clear : Key → AuditRow → Bool
is_clear j a = key_is a.key j && cleared a.to_status
  where
    cleared : Audited → Bool
    cleared legal_hold_cleared = true
    cleared _ = false

-- how often the audit table says that the hold of a key was cleared
unfoldable pub clears : Key → Store → ℕ
clears j s = count_where (is_clear j) s.package_audit

-- the key has a row that is under hold and not purged
record HeldAt (j : Key) (s : Store) : Type 0 where
  row : PackageRow
  read : get_row s j ≡ some row
  under_hold : row.legal_hold ≡ true
  unpurged : row.purged_at ≡ none

module _ (j : Key) {s t : Store} where
  -- after a write of `f` to the rows that `p` selects
  HeldAt-of_write :
      (p : PackageRow → Bool) (f : PackageRow → PackageRow)
      → get_row t j ≡ Option.map (λ r. if p r then f r else r) (get_row s j)
      → HeldAt j s
      → ((r : PackageRow)
          → get_row s j ≡ some r
          → r.legal_hold ≡ true
          → p r ≡ true
          → ((f r).legal_hold ≡ true) × ((f r).purged_at ≡ r.purged_at))
      → HeldAt j t
  HeldAt-of_write p f e h keeps = elim (Bool-cases (p h.row)) [
    | inl hit ↦
        let (under_hold, unpurged) = keeps h.row h.read h.under_hold hit in
        record {
          row = f h.row;
          read = ground (arith, e, h.read);
          under_hold = under_hold;
          unpurged = unpurged ∙ h.unpurged;
        }
    | inr miss ↦ record {
      row = h.row;
      read = ground (arith, e, h.read);
      under_hold = h.under_hold;
      unpurged = h.unpurged;
    }
  ]

  HeldAt-of_same : get_row t j ≡ get_row s j → HeldAt j s → HeldAt j t
  HeldAt-of_same e h = record {
    row = h.row;
    read = e ∙ h.read;
    under_hold = h.under_hold;
    unpurged = h.unpurged;
  }

module _ (j : Key) (s : Store) where
  clears-append :
      (t : Store) (a : AuditRow)
      → t.package_audit ≡ s.package_audit ++ a ∷ []
      → clears j t ≡ clears j s + (if is_clear j a then 1 else 0)
  unfolding clears
  clears-append t a e =
      ap (λ l. count_where (is_clear j) l) e ∙ count-append (is_clear j) s.package_audit a

  clears-append-le :
      (t : Store) (a : AuditRow)
      → t.package_audit ≡ s.package_audit ++ a ∷ []
      → clears j s ≤ clears j t
  clears-append-le t a e = ground (arith, clears-append t a e)

  -- Where the hold of the key is cleared, its clears are one more.
  clears-write_hold :
      (reason : Option String) (actor : Identity) (now : ℕ)
      → clears j (write_hold j false reason actor now s) ≡ clears j s + 1
  unfolding write_hold insert_audit is_clear
  clears-write_hold reason actor now =
      ground (
        arith,
        clears-append (write_hold j false reason actor now s) _ refl,
        (key_is_iff j j).1 refl,
      )

module _ (j k : Key) (s : Store) where
  -- A write of the key's hold that clears nothing sets it.
  still_held :
      (t : Store) (y : PackageRow) (hold : Bool) (reason : Option String) (actor : Identity)
      (now : ℕ)
      → get_row s j ≡ some y
      → at_key k y ≡ true
      → t ≡ write_hold k hold reason actor now s
      → clears j t ≡ clears j s
      → hold ≡ true
  still_held t y true reason actor now hy hit e none_cleared = refl
  still_held t y false reason actor now hy hit e none_cleared =
      let own : k ≡ j = sym ((key_is_iff y.key k).0 hit) ∙ get_row_key s j y hy in
      let e' : t ≡ write_hold j false reason actor now s =
        e ∙ ap (λ i. write_hold i false reason actor now s) own in
      absurd (ground (arith, ap (clears j) e', clears-write_hold j s reason actor now))

  -- A row that is not held is not the key's, where the key's row is.
  unheld :
      (r y : PackageRow)
      → get_row s k ≡ some r
      → get_row s j ≡ some y
      → at_key r.key y ≡ true
      → r.legal_hold ≡ false
      → y.legal_hold ≡ true
      → ⊥
  unheld r y h hy hit free hold =
      let same : y ≡ r = same_row s k j r y h hy (hit_key y r k hit (get_row_key s k r h)) in
      ground (arith, ap (λ (z : PackageRow). z.legal_hold) same)

insert_kept :
    (row : PackageRow) (actor : Identity) (now : ℕ) (s : Store) (j : Key) (y : PackageRow)
    → get_row s j ≡ some y
    → get_row (insert_package row actor now s) j ≡ get_row s j
insert_kept row actor now s j y h = ground (arith, get_row-insert_package row actor now s j, h)

module _ (rerun_gate : Bytes → Overall) (policy : ReviewPolicy) (j : Key) where
  clears_grow : {k : Key} {s t : Store} → Change rerun_gate policy k s t → clears j s ≤ clears j t
  unfolding insert_package write_status write_link write_hold write_purge insert_audit
  clears_grow {s} {t} (same e) = ground (arith, ap (clears j) e)
  clears_grow {s} {t} (published row b actor now own fresh st live free sha e) =
      clears-append-le j s t _ (ap (λ u. u.package_audit) e)
  clears_grow {s} {t} (moved r to actor reason now h ok_move e) =
      clears-append-le j s t _ (ap (λ u. u.package_audit) e)
  clears_grow {s} {t} (linked l replaced r actor now h e) =
      clears-append-le j s t _ (ap (λ u. u.package_audit) e)
  clears_grow {s} {t} (held r hold reason actor now h who e) =
      clears-append-le j s t _ (ap (λ u. u.package_audit) e)
  clears_grow {s} {t} (configured settings settings_audit e) =
      unfold clears in ground (arith, ap (λ u. u.package_audit) e)
  clears_grow {s} {t} (destroyed r actor reason now h who live st free e) =
      clears-append-le j s t _ (ap (λ u. u.package_audit) e)

  step-HeldAt :
      {k : Key} {s t : Store}
      → Change rerun_gate policy k s t
      → HeldAt j s
      → clears j t ≡ clears j s
      → HeldAt j t
  unfolding get_row
  step-HeldAt {s} {t} (same e) x none_cleared = HeldAt-of_same j (ap (λ u. get_row u j) e) x
  step-HeldAt {s} {t} (published row b actor now own fresh st live free sha e) x none_cleared =
      HeldAt-of_same j
        (ap (λ u. get_row u j) e
          ∙ insert_kept row actor now (record s { blobs = put_blob b s.blobs }) j x.row x.read)
        x
  step-HeldAt {s} {t} (moved r to actor reason now h ok_move e) x none_cleared =
      HeldAt-of_write j (at_key_in _ r.status) (λ y. record y { status = to })
        (ap (λ u. get_row u j) e ∙ get_row-write_status _ r.status to actor reason now s j) x
        (λ y hy hold hit. (hold, refl))
  step-HeldAt {s} {t} (linked l replaced r actor now h e) x none_cleared =
      HeldAt-of_write j (at_key l) (λ y. record y { replaces = some replaced })
        (ap (λ u. get_row u j) e ∙ get_row-write_link l replaced actor now s j) x
        (λ y hy hold hit. (hold, refl))
  step-HeldAt {k} {s} {t} (held r hold reason actor now h who e) x none_cleared =
      HeldAt-of_write j (at_key k)
        (λ y. record y { legal_hold = hold; legal_hold_reason = if hold then reason else none })
        (ap (λ u. get_row u j) e ∙ get_row-write_hold k hold reason actor now s j) x
        (λ y hy was hit. (still_held j k s t y hold reason actor now hy hit e none_cleared, refl))
  step-HeldAt {s} {t} (configured settings settings_audit e) x none_cleared =
      HeldAt-of_same j (ap (λ u. get_row u j) e ∙ configured_reads s settings settings_audit j) x
  step-HeldAt {k} {s} {t} (destroyed r actor reason now h who live st free e) x none_cleared =
      HeldAt-of_write j (at_key r.key) (tombstone now)
        (ap (λ u. get_row u j) e ∙ get_row-write_purge r actor reason now s j) x
        (λ y hy hold hit. absurd (unheld j k s r y h hy hit free hold))

  Changes-grow : {s t : Store} → Changes rerun_gate policy s t → clears j s ≤ clears j t
  Changes-grow done = omega arith
  Changes-grow (next cs c) = omega (arith, Changes-grow cs, clears_grow c)

  Changes-HeldAt :
      {s t : Store}
      → Changes rerun_gate policy s t
      → HeldAt j s
      → clears j t ≡ clears j s
      → HeldAt j t
  Changes-HeldAt done x none_cleared = x
  Changes-HeldAt (next cs c) x none_cleared =
      step-HeldAt c
        (Changes-HeldAt cs x (omega (arith, Changes-grow cs, clears_grow c, none_cleared)))
        (omega (arith, Changes-grow cs, clears_grow c, none_cleared))

-- A package under legal hold, not purged yet, stays so through any requests, whoever makes them,
-- until the audit table records that its hold was cleared; and until then the store's own `purge`
-- too answers with an error, of approval before that of the hold, and writes nothing.
pub held_until_cleared :
    (env : Env) (requests : List Request) (s : Store) (j : Key) (r : PackageRow) (now : ℕ)
    (actor : Identity) (reason : Option String)
    → get_row s j ≡ some r
    → r.legal_hold ≡ true
    → r.purged_at ≡ none
    → clears j (run env requests s) ≡ clears j s
    → (r' : PackageRow) × (get_row (run env requests s) j ≡ some r')
      × (r'.legal_hold ≡ true)
      × (r'.purged_at ≡ none)
      × (Methods.purge now j actor reason (run env requests s) ≡ (
        err (if status_is r'.status approved then purge_of_approved else purge_of_held),
        run env requests s,
      ))
unfolding Methods.purge
held_until_cleared env requests s j r now actor reason h hold live none_cleared =
    let x =
      Changes-HeldAt env.rerun_gate env.policy j (run-Changes env requests s)
        (record { row = r; read = h; under_hold = hold; unpurged = live }) none_cleared in
    (x.row, x.read, x.under_hold, x.unpurged, ground (arith, x.read, x.under_hold, x.unpurged))
