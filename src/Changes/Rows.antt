-- ===== src/Changes/Rows.antt =====
-- What one change does to the row of one key.
use mathlib.Core.Option
use analysis_package.Base.{
  ℕ, String, ◌≡◌, ◌≢◌, refl, sym, ap, ◌∙◌, inl, inr, Bool, true, false, Option, none, some, List,
  arith, str_eq_iff, Bool-cases, Option-cases, if◌then◌else◌,
}
use mathlib.Core.Path.{subst}
use analysis_package.Base.Table.{find, or_else}
use analysis_package.Identity.{Role, Identity, has_role}
use analysis_package.Store.Records.{
  Key, Status, draft, approved, PackageRow, Overall, Bytes, Blob, Setting, SettingAudit, Store,
  key_is,
}
use analysis_package.Store.Effects.{
  at_key, at_key_in, get_row, blob_named, insert_package, put_blob, tombstone,
}
use analysis_package.Store.Reads.{
  same_row, get_row_key, get_row-insert_package, get_row-write_status, get_row-write_link,
  get_row-write_hold, get_row-write_purge,
}
use analysis_package.Store.Files.{find-put_blob}
use analysis_package.Review.{ReviewPolicy}
use analysis_package.Changes.{
  blob_of, Allowed, Change, same, published, moved, linked, held, configured, destroyed,
}

pub hit_key :
    (x r : PackageRow) (k : Key) → at_key r.key x ≡ true → r.key ≡ k → key_is x.key k ≡ true
hit_key x r k hit e = rw (← e) hit

pub configured_reads :
    (s : Store) (settings : List Setting) (settings_audit : List SettingAudit) (j : Key)
    → get_row (record s { settings = settings; settings_audit = settings_audit }) j ≡ get_row s j
unfolding get_row
configured_reads s settings settings_audit j = refl

put_blob_found :
    (b : Blob) (sha : String) (blobs : List Blob)
    → b.sha256 ≡ sha
    → (c : Blob) × (find (blob_named sha) (put_blob b blobs) ≡ some c)
put_blob_found b sha blobs e = elim (Option-cases (find (blob_named sha) blobs)) [
  | inl fresh ↦ (b, ground (arith, find-put_blob b blobs sha, str_eq_iff b.sha256 sha))
  | inr (c, there) ↦ (c, ground (arith, find-put_blob b blobs sha))
]

module _ (rerun_gate : Bytes → Overall) (policy : ReviewPolicy) where
  -- the row `r` of a key becomes `r'`
  pub data RowStep (s : Store) (r r' : PackageRow) : Type 0 where
    kept : r' ≡ r → RowStep s r r'
    status_set :
        (to : Status) (actor : Identity) (reason : Option String)
        → Allowed rerun_gate policy s r to actor reason
        → r' ≡ record r { status = to }
        → RowStep s r r'
    link_set : (replaced : Key) → r' ≡ record r { replaces = some replaced } → RowStep s r r'
    hold_set :
        (actor : Identity) (hold : Bool) (reason : Option String)
        → has_role actor Role.admin ≡ true
        → r' ≡ record r { legal_hold = hold; legal_hold_reason = if hold then reason else none }
        → RowStep s r r'
    wiped :
        (actor : Identity) (now : ℕ)
        → has_role actor Role.admin ≡ true
        → r.purged_at ≡ none
        → r.status ≢ approved
        → r.legal_hold ≡ false
        → r' ≡ tombstone now r
        → RowStep s r r'

  -- the fate of a key's row in a change
  pub data Fate (s t : Store) (j : Key) : Type 0 where
    absent : get_row s j ≡ none → get_row t j ≡ none → Fate s t j
    born :
        (r : PackageRow)
        → get_row s j ≡ none
        → get_row t j ≡ some r
        → r.status ≡ draft
        → r.purged_at ≡ none
        → r.legal_hold ≡ false
        → (b : Blob) → blob_of t r.blob_sha256 ≡ some b
        → Fate s t j
    carried :
        (r r' : PackageRow)
        → get_row s j ≡ some r
        → get_row t j ≡ some r'
        → RowStep s r r'
        → Fate s t j

  Fate-of_kept : (s t : Store) (j : Key) → get_row t j ≡ get_row s j → Fate s t j
  Fate-of_kept s t j e = elim (Option-cases (get_row s j)) [
    | inl h ↦ absent h (e ∙ h)
    | inr (r, h) ↦ carried r r h (e ∙ h) (kept refl)
  ]

  -- Where every read after the change is the read before it with `f` on the rows of one key.
  module _ (s t : Store) (j : Key) (p : PackageRow → Bool) (f : PackageRow → PackageRow) where
    Fate-of_write :
        get_row t j ≡ Option.map (λ r. if p r then f r else r) (get_row s j)
        → ((r : PackageRow) → get_row s j ≡ some r → p r ≡ true → RowStep s r (f r))
        → Fate s t j
    Fate-of_write e step = elim (Option-cases (get_row s j)) [
      | inl h ↦ absent h (ground arith)
      | inr (r, h) ↦ elim (Bool-cases (p r)) [
        | inl hit ↦ carried r (f r) h (ground arith) (step r h hit)
        | inr miss ↦ carried r r h (ground arith) (kept refl)
      ]
    ]

  Fate-of_insert :
      (s t : Store) (j : Key) (row : PackageRow) (actor : Identity) (now : ℕ) (b : Blob)
      → get_row s row.key ≡ none
      → row.status ≡ draft
      → row.purged_at ≡ none
      → row.legal_hold ≡ false
      → b.sha256 ≡ row.blob_sha256
      → t ≡ insert_package row actor now (record s { blobs = put_blob b s.blobs })
      → Fate s t j
  unfolding get_row blob_of insert_package
  Fate-of_insert s t j row actor now b fresh st live free sha e =
      elim (Option-cases (get_row s j)) [
        | inr (r, h) ↦ carried r r h (ground (arith, read, h)) (kept refl)
        | inl h ↦ elim (Bool-cases (key_is row.key j)) [
          | inl own ↦
              let (c, found) = stored in born row h (ground (arith, read, h)) st live free c found
          | inr other ↦ absent h (ground (arith, read, h))
        ]
      ]
    where
      stored : (c : Blob) × (blob_of t row.blob_sha256 ≡ some c)
      stored =
          let (c, found) = put_blob_found b row.blob_sha256 s.blobs sha in
          (c, ap (λ u. blob_of u row.blob_sha256) e ∙ found)

      blobbed : Store
      blobbed = record s { blobs = put_blob b s.blobs }

      read : get_row t j ≡ or_else (get_row s j) (if key_is row.key j then some row else none)
      read = (ap (λ u. get_row u j) e ∙ get_row-insert_package row actor now blobbed j)

  -- Each change makes, of the row of each key, one step of the machine.
  pub fate : {k : Key} {s t : Store} → Change rerun_gate policy k s t → (j : Key) → Fate s t j
  fate {k} {s} {t} (same e) j = Fate-of_kept s t j (ap (λ u. get_row u j) e)
  fate {k} {s} {t} (published row b actor now own fresh st live free sha e) j =
      Fate-of_insert s t j row actor now b fresh st live free sha e
  fate {k} {s} {t} (moved r to actor reason now h ok_move e) j =
      Fate-of_write s t j (at_key_in k r.status) (λ x. record x { status = to })
        (ap (λ u. get_row u j) e ∙ get_row-write_status k r.status to actor reason now s j)
        (λ x hx hit.
          let own : x ≡ r = same_row s k j r x h hx (ground arith) in
          status_set to actor reason
            (subst (λ y. Allowed rerun_gate policy s y to actor reason) (sym own) ok_move) refl)
  fate {k} {s} {t} (linked l replaced r actor now h e) j =
      Fate-of_write s t j (at_key l) (λ x. record x { replaces = some replaced })
        (ap (λ u. get_row u j) e ∙ get_row-write_link l replaced actor now s j)
        (λ x hx hit. link_set replaced refl)
  fate {k} {s} {t} (held r hold reason actor now h who e) j =
      Fate-of_write s t j (at_key k)
        (λ x. record x { legal_hold = hold; legal_hold_reason = if hold then reason else none })
        (ap (λ u. get_row u j) e ∙ get_row-write_hold k hold reason actor now s j)
        (λ x hx hit. hold_set actor hold reason who refl)
  fate {k} {s} {t} (configured settings settings_audit e) j =
      Fate-of_kept s t j (ap (λ u. get_row u j) e ∙ configured_reads s settings settings_audit j)
  fate {k} {s} {t} (destroyed r actor reason now h who live st free e) j =
      Fate-of_write s t j (at_key r.key) (tombstone now)
        (ap (λ u. get_row u j) e ∙ get_row-write_purge r actor reason now s j)
        (λ x hx hit.
          let own : x ≡ r = same_row s k j r x h hx (hit_key x r k hit (get_row_key s k r h)) in
          wiped actor now who (ap (λ y. y.purged_at) own ∙ live)
            (λ q. st (ap (λ y. y.status) (sym own) ∙ q)) (ap (λ y. y.legal_hold) own ∙ free) refl)
