-- ===== src/Guarantees/Blobs.antt =====
-- The blob store of src/ap_store/blobstore.py under any run of requests: a purge deletes only what no
-- other version needs, and what has been reviewed has passed the gate.
use mathlib.Core.Path.{subst}
use mathlib.Core.Option
use analysis_package.Base.{
  ℕ, String, ◌≡◌, ap, ◌∙◌, sym, Bool, true, false, Option, none, some, List, arith, inl, inr,
  str_eq, str_eq_iff, ◌==◌, Bool-cases,
}
use analysis_package.Base.Table.{find}
use analysis_package.Base.Table.Laws.{All-of_count-zero, All-find}
use analysis_package.Identity.{Identity}
use analysis_package.Store.Records.{
  Key, Status, draft, purged, PackageRow, Overall, passes, Bytes, Blob, Store, key_is,
}
use analysis_package.Store.Effects.{
  at_key, get_row, other_refs, tombstone, insert_package, write_status, write_link, write_hold,
  write_purge,
}
use analysis_package.Store.Files.{find-put_blob, find-delete_blob}
use analysis_package.Store.Reads.{get_row-write_purge}
use analysis_package.Review.{ReviewPolicy}
use analysis_package.Changes.{
  blob_of, GatePasses, Change, same, published, moved, linked, held, configured, destroyed, Changes,
  done, next, Allowed,
}
use analysis_package.Changes.Rows.{
  RowStep, kept, status_set, link_set, hold_set, wiped, Fate, absent, born, carried, fate,
}
use analysis_package.Requests.{Env, Request, run, run-Changes, empty_store}

-- another version that is not purged and has the blob is counted
counted :
    (s : Store) (k j : Key) (sha : String) (r : PackageRow)
    → other_refs k sha s ≡ 0
    → get_row s j ≡ some r
    → r.blob_sha256 ≡ sha
    → r.purged_at ≡ none
    → key_is r.key k ≡ true
unfolding other_refs get_row
counted s k j sha r zero_refs h same_sha live = ground (
  arith,
  All-find _ (at_key j) s.packages (All-of_count-zero _ s.packages zero_refs) h,
  str_eq_iff r.blob_sha256 sha,
)

module _ (s : Store) (x : PackageRow) (actor : Identity) (reason : Option String) (now : ℕ)
    (j : Key) (r : PackageRow) where
  -- A row that is not purged after a purge is not the row that was purged.
  not_purged :
      (r' : PackageRow)
      → get_row s j ≡ some r
      → get_row (write_purge x actor reason now s) j ≡ some r'
      → r'.purged_at ≡ none
      → key_is r.key x.key ≡ false
  unfolding tombstone
  not_purged r' h h' live = ground (arith, get_row-write_purge x actor reason now s j)

  -- A purge keeps the blob of every other version that is not purged.
  purge_keeps_blob :
      (b : Blob)
      → get_row s j ≡ some r
      → key_is r.key x.key ≡ false
      → r.purged_at ≡ none
      → blob_of s r.blob_sha256 ≡ some b
      → blob_of (write_purge x actor reason now s) r.blob_sha256 ≡ some b
  unfolding blob_of write_purge
  purge_keeps_blob b h other live found =
      elim (Bool-cases (other_refs x.key x.blob_sha256 s == 0)) [
        | inr shared ↦ ground arith
        | inl unshared ↦ elim (Bool-cases (str_eq x.blob_sha256 r.blob_sha256)) [
          | inr differs ↦
              ground (arith, find-delete_blob x.blob_sha256 r.blob_sha256 s.blobs differs)
          | inl the_same ↦ absurd (
              ground
                (arith, counted s x.key j x.blob_sha256 r, str_eq_iff x.blob_sha256 r.blob_sha256))
        ]
      ]

-- the statuses of a version that a submission for review lies behind
unfoldable pub is_past_draft : Status → Bool
is_past_draft draft = false
is_past_draft purged = false
is_past_draft _ = true

module _ (rerun_gate : Bytes → Overall) (policy : ReviewPolicy) where
  -- the bytes of a version are stored, and they pass the gate if it has been submitted under a policy
  -- that requires it
  abbrev Backed : Store → PackageRow → Type 0
  Backed s r =
      (b : Blob) × (blob_of s r.blob_sha256 ≡ some b)
      × (policy.gate_before_review ≡ true
          → is_past_draft r.status ≡ true
          → passes (rerun_gate b.bytes) ≡ true)

  record IsBacked (s : Store) : Type 0 where
    backed : (j : Key) (r : PackageRow) → get_row s j ≡ some r → r.purged_at ≡ none → Backed s r

  -- A blob that was there is there after a change, unless the version that had it was purged.
  blob_kept :
      {k : Key} {s t : Store}
      → Change rerun_gate policy k s t
      → (j : Key) (r r' : PackageRow) (b : Blob) → get_row s j ≡ some r
      → get_row t j ≡ some r'
      → r.purged_at ≡ none
      → r'.purged_at ≡ none
      → blob_of s r.blob_sha256 ≡ some b
      → blob_of t r.blob_sha256 ≡ some b
  unfolding blob_of insert_package write_status write_link write_hold write_purge
  blob_kept (same e) j r r' b h h' live live' found = ap (λ u. blob_of u r.blob_sha256) e ∙ found
  blob_kept {k} {s} (published row c actor now own fresh st livec free sha e) j r r' b h h' live
        live' found =
      ground (arith, e, find-put_blob c s.blobs r.blob_sha256)
  blob_kept (moved x to actor reason now hx okay e) j r r' b h h' live live' found =
      ap (λ u. blob_of u r.blob_sha256) e ∙ found
  blob_kept (linked l replaced x actor now hx e) j r r' b h h' live live' found =
      ap (λ u. blob_of u r.blob_sha256) e ∙ found
  blob_kept (held x hold reason actor now hx who e) j r r' b h h' live live' found =
      ap (λ u. blob_of u r.blob_sha256) e ∙ found
  blob_kept (configured settings settings_audit e) j r r' b h h' live live' found =
      ap (λ u. blob_of u r.blob_sha256) e ∙ found
  blob_kept {k} {s} {t} (destroyed x actor reason now hx who livex st free e) j r r' b h h' live
        live' found =
      ap (λ u. blob_of u r.blob_sha256) e
      ∙ purge_keeps_blob s x actor reason now j r b h
          (not_purged s x actor reason now j r r' h (ap (λ u. get_row u j) (sym e) ∙ h') live') live
          found

  -- A row that is past draft after an allowed move has passed the gate, if the policy asks for it.
  move_passes :
      {s : Store} {r : PackageRow} {to : Status} {actor : Identity} {reason : Option String}
      {b : Blob}
      → Allowed rerun_gate policy s r to actor reason
      → blob_of s r.blob_sha256 ≡ some b
      → (policy.gate_before_review ≡ true
          → is_past_draft r.status ≡ true
          → passes (rerun_gate b.bytes) ≡ true)
      → policy.gate_before_review ≡ true
      → is_past_draft to ≡ true
      → passes (rerun_gate b.bytes) ≡ true
  unfolding is_past_draft
  move_passes {b = b} (Allowed.submit st t who gate) found before g past =
      let (c, found', passed) = gate g in
      ap (λ x. passes (rerun_gate x.bytes)) (Option.some-injective _ _ (sym found ∙ found'))
      ∙ passed
  move_passes (Allowed.approve st t who f) found before g past = before g (ap is_past_draft st)
  move_passes (Allowed.reject st t who f w) found before g past = before g (ap is_past_draft st)
  move_passes (Allowed.pull_back st t who) found before g past = ground arith
  move_passes (Allowed.supersede st t who) found before g past = before g (ap is_past_draft st)
  move_passes (Allowed.recall st t who w) found before g past = before g (ap is_past_draft st)
  move_passes (Allowed.restore st t who) found before g past = before g (ground arith)

  module _ (s t : Store) (r r' : PackageRow)
      (kept_blob : (b : Blob)
        → r.purged_at ≡ none
        → blob_of s r.blob_sha256 ≡ some b
        → blob_of t r.blob_sha256 ≡ some b)
      (was : r.purged_at ≡ none → Backed s r) where
    carry_Backed :
        r'.blob_sha256 ≡ r.blob_sha256
        → r'.purged_at ≡ r.purged_at
        → r'.status ≡ r.status
        → r'.purged_at ≡ none
        → Backed t r'
    carry_Backed same_blob same_date same_status live' =
        let live : r.purged_at ≡ none = sym same_date ∙ live' in
        let (b, found, passed) = was live in
        (
          b,
          ap (blob_of t) same_blob ∙ kept_blob b live found,
          λ g p. passed g (ap is_past_draft (sym same_status) ∙ p),
        )

    step_Backed : RowStep rerun_gate policy s r r' → r'.purged_at ≡ none → Backed t r'
    unfolding tombstone
    step_Backed (kept e) live =
        carry_Backed (ap (λ x. x.blob_sha256) e) (ap (λ x. x.purged_at) e) (ap (λ x. x.status) e)
          live
    step_Backed (status_set to actor reason okay e) live =
        let live_before : r.purged_at ≡ none = ap (λ x. x.purged_at) (sym e) ∙ live in
        let (b, found, passed) = was live_before in
        (
          b,
          ap (λ x. blob_of t x.blob_sha256) e ∙ kept_blob b live_before found,
          λ g p. move_passes okay found passed g (ap (λ x. is_past_draft x.status) (sym e) ∙ p),
        )
    step_Backed (link_set replaced e) live =
        carry_Backed (ap (λ x. x.blob_sha256) e) (ap (λ x. x.purged_at) e) (ap (λ x. x.status) e)
          live
    step_Backed (hold_set actor hold reason who e) live =
        carry_Backed (ap (λ x. x.blob_sha256) e) (ap (λ x. x.purged_at) e) (ap (λ x. x.status) e)
          live
    step_Backed (wiped actor now who livex st free e) live = absurd (ground arith)

  row_Backed :
      {k : Key} {s t : Store}
      → Change rerun_gate policy k s t
      → IsBacked s
      → (j : Key) (r' : PackageRow) → get_row t j ≡ some r'
      → r'.purged_at ≡ none
      → Fate rerun_gate policy s t j
      → Backed t r'
  unfolding is_past_draft
  row_Backed c all j r' h live (absent _ gone) = absurd (ground arith)
  row_Backed {k} {s} {t} c all j r' h live (born x _ hx st _ _ b found) =
      let own : x ≡ r' = Option.some-injective _ _ (sym hx ∙ h) in
      (b, ap (λ y. blob_of t y.blob_sha256) (sym own) ∙ found, λ g p. absurd (ground arith))
  row_Backed {k} {s} {t} c all j r' h live (carried x x' hx hx' st) =
      let own : x' ≡ r' = Option.some-injective _ _ (sym hx' ∙ h) in
      let live' : x'.purged_at ≡ none = ap (λ y. y.purged_at) own ∙ live in
      subst (Backed t) own (
        step_Backed s t x x'
          (λ b live_before found. blob_kept c j x x' b hx hx' live_before live' found)
          (all.backed j x hx) st live')

  Changes-IsBacked : {s t : Store} → Changes rerun_gate policy s t → IsBacked s → IsBacked t
  Changes-IsBacked done all = all
  Changes-IsBacked (next cs c) all =
      let before = Changes-IsBacked cs all in
      record { backed = λ j r h live. row_Backed c before j r h live (fate rerun_gate policy c j) }

empty_IsBacked : (env : Env) → IsBacked env.rerun_gate env.policy empty_store
unfolding get_row find
empty_IsBacked env = record { backed = λ j r h live. absurd (ground arith) }

Backed-after :
    (env : Env) (requests : List Request) (j : Key) (r : PackageRow)
    → get_row (run env requests empty_store) j ≡ some r
    → r.purged_at ≡ none
    → Backed env.rerun_gate env.policy (run env requests empty_store) r
Backed-after env requests j r =
    (Changes-IsBacked env.rerun_gate env.policy (run-Changes env requests empty_store)
        (empty_IsBacked env)).backed
      j r

-- From a new store, after any requests, whether they fail or not, every version that has no purge
-- time has its blob in the blob store: no purge of another version has taken it.
pub unpurged_has_blob :
    (env : Env) (requests : List Request) (j : Key) (r : PackageRow)
    → get_row (run env requests empty_store) j ≡ some r
    → r.purged_at ≡ none
    → (b : Blob) × (blob_of (run env requests empty_store) r.blob_sha256 ≡ some b)
unpurged_has_blob env requests j r h live =
    let (b, found, _) = Backed-after env requests j r h live in (b, found)

-- From a new store, after any requests under a policy that asks for the gate before review, the
-- stored bytes of every version with no purge time that is in review, approved, rejected, superseded
-- or recalled pass the gate.
pub reviewed_passes_gate :
    (env : Env) (requests : List Request) (j : Key) (r : PackageRow)
    → env.policy.gate_before_review ≡ true
    → get_row (run env requests empty_store) j ≡ some r
    → r.purged_at ≡ none
    → is_past_draft r.status ≡ true
    → GatePasses env.rerun_gate env.policy (run env requests empty_store) r
reviewed_passes_gate env requests j r asked h live past =
    let (b, found, passed) = Backed-after env requests j r h live in (b, found, passed asked past)
