-- ===== src/Corpus/Approved.antt =====
-- The search index holds chunks of approved packages only: "only approved packages are ever indexed
-- at all", src/ap_manager_bot/scoping.py.
use mathlib.Core.Path.{subst}
use analysis_package.Base.{
  ◌≡◌, ◌⊎◌, refl, ◌∙◌, sym, true, not, some, List, [], ◌∷◌, ◌++◌, arith, Bool-cases, Option-cases,
  inl, inr,
}
use analysis_package.Base.Table.{All, select, find}
use analysis_package.Base.Table.Laws.{All-map}
use analysis_package.Store.Records.{
  Key, approved, Bytes, Store, key_is, key_is_iff, status_is, status_is_iff,
}
use analysis_package.Store.Effects.{get_row, blob_named}
use analysis_package.Store.Methods.{get}
use analysis_package.Changes.Statuses.{status_at}
use analysis_package.Index.{ChunkRecord, remove_package, index_package, share_key}
use analysis_package.Corpus.{
  Redaction, RawChunk, System, new_chunks, redact_package, write_report, put_chunks, reindex_live,
  reindex_package,
}

-- an indexed chunk's package is approved
abbrev pub Live : Store → ChunkRecord → Type 0
Live s c = status_at s c.key ≡ some approved

-- ... or is the one under way
abbrev pub Pending : Key → Store → ChunkRecord → Type 0
Pending k s c = (key_is k c.key ≡ true) ⊎ Live s c

module _ (k : Key) (s : Store) where
  pub remove_settles :
      (l : List ChunkRecord) → All (Pending k s) l → All (Live s) (remove_package k l)
  unfolding remove_package select
  remove_settles [] h = tt
  remove_settles (c ∷ l) h = elim (Bool-cases (not (key_is c.key k))) [
    | inr own ↦ rw own (remove_settles l h.1)
    | inl other ↦ rw other (
      elim h.0 [
        | inl own ↦ absurd (ground (arith, key_is_iff k c.key, key_is_iff c.key k))
        | inr live ↦ live
      ],
      remove_settles l h.1,
    )
  ]

  approved_settles :
      (l : List ChunkRecord) → status_at s k ≡ some approved → All (Pending k s) l → All (Live s) l
  approved_settles l h = All-map (Pending k s) (Live s) l (λ c p. elim p [
    | inl own ↦ subst (λ j. status_at s j ≡ some approved) ((key_is_iff k c.key).0 own) h
    | inr live ↦ live
  ])

All-append : {A : Type 0} (P : A → Type 0) (l m : List A) → All P l → All P m → All P (l ++ m)
All-append P [] m h g = g
All-append P (x ∷ l) m h g = (h.0, All-append P l m h.1 g)

-- What a fold of INSERTs leaves: the chunks are new, or the index is as it was.
index_package-Live :
    (s : Store) (k : Key) (chunks index : List ChunkRecord)
    → All (λ c. c.key ≡ k) chunks
    → status_at s k ≡ some approved
    → All (Live s) index
    → All (Live s) (index_package chunks index).1
unfolding index_package
index_package-Live s k [] index own h live = live
index_package-Live s k (c ∷ chunks) index own h live =
    elim (Bool-cases (share_key c.key (c ∷ chunks))) [
      | inr mixed ↦ rw mixed live
      | inl shared ↦ rw shared (
          All-append (Live s) (remove_package c.key index) (c ∷ chunks)
            (remove_settles c.key s index
              (All-map (Live s) (Pending c.key s) index (λ x g. inr g) live))
            (All-map (λ x. x.key ≡ k) (Live s) (c ∷ chunks)
              (λ x e. subst (λ j. status_at s j ≡ some approved) (sym e) h) own))
    ]

new_chunks_keys :
    (r : Redaction) (bytes : Bytes) (k : Key) (raw : List RawChunk)
    → All (λ c. c.key ≡ k) (new_chunks r bytes k raw)
unfolding new_chunks
new_chunks_keys r bytes k [] = tt
new_chunks_keys r bytes k (c ∷ raw) = (refl, new_chunks_keys r bytes k raw)

abbrev pub IsLive : System → Type 0
IsLive sys = All (Live sys.store) sys.index

module _ (r : Redaction) (k : Key) where
  status_at-write_report : (s : Store) (j : Key) → status_at (write_report k s) j ≡ status_at s j
  unfolding status_at write_report get_row
  status_at-write_report s j = refl

  report_keeps :
      (s : Store) (l : List ChunkRecord) → All (Live s) l → All (Live (write_report k s)) l
  report_keeps s l =
      All-map (Live s) (Live (write_report k s)) l (λ c live. status_at-write_report s c.key ∙ live)

  reindex_live_outcome :
      (bytes : Bytes) (sys : System)
      → ((reindex_live r bytes k sys).1 ≡ sys)
        ⊎ ((reindex_live r bytes k sys).1
            ≡ record { store = write_report k sys.store; index = remove_package k sys.index })
        ⊎ ((reindex_live r bytes k sys).1 ≡ record {
          store = write_report k sys.store;
          index = (index_package (redact_package r bytes k).0 sys.index).1;
        })
  unfolding reindex_live put_chunks
  reindex_live_outcome bytes sys = ground arith

  redacted_keys : (bytes : Bytes) → All (λ c. c.key ≡ k) (redact_package r bytes k).0
  unfolding redact_package
  redacted_keys bytes = elim (Bool-cases (r.has_high_severity bytes)) [
    | inl blocked ↦ rw blocked tt
    | inr clean ↦ rw clean (new_chunks_keys r bytes k (r.build_all_chunks bytes))
  ]

  reindex_live-Live :
      (bytes : Bytes) (sys : System)
      → status_at sys.store k ≡ some approved
      → IsLive sys
      → IsLive (reindex_live r bytes k sys).1
  reindex_live-Live bytes sys h live = elim (reindex_live_outcome bytes sys) [
    | inl e ↦ subst IsLive (sym e) live
    | inr (inl e) ↦ subst IsLive (sym e) (
        report_keeps sys.store (remove_package k sys.index) (
          remove_settles k sys.store sys.index
            (All-map (Live sys.store) (Pending k sys.store) sys.index (λ x g. inr g) live)))
    | inr (inr e) ↦ subst IsLive (sym e) (
        report_keeps sys.store (index_package (redact_package r bytes k).0 sys.index).1 (
          index_package-Live sys.store k (redact_package r bytes k).0 sys.index
            (redacted_keys bytes) h live))
  ]

  reindex_outcome :
      (sys : System)
      → ((reindex_package r k sys).1 ≡ record sys { index = remove_package k sys.index })
        ⊎ (status_at sys.store k ≡ some approved)
          × (((reindex_package r k sys).1 ≡ sys)
              ⊎ (bytes : Bytes) × ((reindex_package r k sys).1 ≡ (reindex_live r bytes k sys).1))
  unfolding reindex_package status_at get
  reindex_outcome sys = elim (Option-cases (get_row sys.store k)) [
    | inl missing ↦ inl (ground arith)
    | inr (row, h) ↦ elim (Bool-cases (status_is row.status approved)) [
      | inr other ↦ inl (ground arith)
      | inl live ↦ elim (Option-cases (find (blob_named row.blob_sha256) sys.store.blobs)) [
        | inl lost ↦ inr (ground (arith, status_is_iff row.status approved), inl (ground arith))
        | inr (b, there) ↦
            inr (ground (arith, status_is_iff row.status approved), inr (b.bytes, ground arith))
      ]
    ]
  ]

  -- A reindex settles the package under way: it is approved, or out of the index.
  pub reindex_settles :
      (sys : System) → All (Pending k sys.store) sys.index → IsLive (reindex_package r k sys).1
  reindex_settles sys h = elim (reindex_outcome sys) [
    | inl e ↦ subst IsLive (sym e) (remove_settles k sys.store sys.index h)
    | inr (live, inl e) ↦ subst IsLive (sym e) (approved_settles k sys.store sys.index live h)
    | inr (live, inr (bytes, e)) ↦
        subst IsLive (sym e)
          (reindex_live-Live bytes sys live (approved_settles k sys.store sys.index live h))
  ]
