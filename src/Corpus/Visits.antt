-- ===== src/Corpus/Visits.antt =====
-- The routes keep the index and the store in step: `reindex_after_transition` of
-- src/ap_api/deps.py after each call that may change a status.
use mathlib.Core.Path.{subst}
use analysis_package.Base.{
  ℕ, String, ◌≡◌, ◌⊎◌, refl, ap, ◌∙◌, sym, Bool, false, Option, some, List, [], ◌∷◌, arith,
  Bool-cases, Option-cases, inl, inr, if◌then◌else◌,
}
use analysis_package.Base.Exec.{Result, ok, err, ◌>>=◌, ◌>>◌}
use analysis_package.Base.Table.{All}
use analysis_package.Base.Table.Laws.{All-map}
use analysis_package.Identity.{Identity}
use analysis_package.Store.Records.{
  Key, Status, approved, superseded, Overall, PackageRow, Store, key_is, key_is_iff,
}
use analysis_package.Store.Effects.{get_row}
use analysis_package.Store.Methods
use analysis_package.Store.Methods.{StoreError, PackageDir}
use analysis_package.Base.Int.{ℤ, pos, negsuc}
use analysis_package.Store.Settings
use analysis_package.Lifecycle
use analysis_package.Changes.Statuses.{
  status_at, status_at-other, status_at-write_link, status_at-write_status, status_at-write_hold,
}
use analysis_package.Changes.ByStore.{named_key, publish-Change}
use analysis_package.Changes.ByReview.{transition-Change}
use analysis_package.Changes.ByLifecycle.{
  supersede_row, supersede_missing, recall-Change, restore-Change, purge-Change, set_legal_hold_row,
  set_legal_hold_missing,
}
use analysis_package.Requests.{Env, Action, Request, empty_store}
use analysis_package.Index.{IndexError}
use analysis_package.Corpus.{Redaction, System, reindex_package, reindex, then_index, visit, visits}
use analysis_package.Corpus.Approved.{Live, Pending, IsLive, reindex_settles, remove_settles}
use analysis_package.Corpus.Refusals.{
  transition_refused, recall_refused, restore_refused, purge_refused, supersede_refused,
}

-- A request whose workflow moves the status of one package, and which then settles the index.
then_index-Live :
    (result : Result StoreError PackageRow × Store) (hook : System → System) (sys : System)
    (k : Key)
    → ((j : Key) → key_is k j ≡ false → status_at result.1 j ≡ status_at sys.store j)
    → ((e : StoreError) → result.0 ≡ err e → result.1 ≡ sys.store)
    → ((t : System) → All (Pending k t.store) t.index → IsLive (hook t))
    → IsLive sys
    → IsLive (then_index result hook sys)
unfolding then_index
then_index-Live (ok row, t) hook sys k others same settles live =
    settles (record sys { store = t })
      (All-map (Live sys.store) (Pending k t) sys.index
        (λ c h. elim (Bool-cases (key_is k c.key)) [
          | inl own ↦ inl own
          | inr other ↦ inr (others c.key other ∙ h)
        ])
        live)
then_index-Live (err e, t) hook sys k others same settles live =
    subst (λ u. All (Live u) sys.index) (sym (same e refl)) live

-- A request that leaves every approved package approved.
kept-Live :
    (sys : System) (t : Store)
    → ((j : Key) → status_at sys.store j ≡ some approved → status_at t j ≡ some approved)
    → IsLive sys
    → All (Live t) sys.index
kept-Live sys t keeps live = All-map (Live sys.store) (Live t) sys.index (λ c h. keeps c.key h) live

module _ (now : ℕ) (actor : Identity) (s : Store) where
  row_at :
      (j : Key) {st : Status}
      → status_at s j ≡ some st
      → (row : PackageRow) × (get_row s j ≡ some row)
  unfolding status_at
  row_at j h = elim (Option-cases (get_row s j)) [
    | inl missing ↦ absurd (ground arith)
    | inr found ↦ found
  ]

  publish_existing :
      (env : Env) (dir : PackageDir) (gate_report : Option Overall) {row : PackageRow}
      → get_row s (named_key dir) ≡ some row
      → (Methods.publish env.blob_sha256 now dir actor gate_report s).1 ≡ s
  unfolding Methods.publish Methods.publish_row named_key
  publish_existing env dir gate_report h = ground arith

  publish_keeps :
      (env : Env) (dir : PackageDir) (gate_report : Option Overall) (j : Key)
      → status_at s j ≡ some approved
      → status_at (Methods.publish env.blob_sha256 now dir actor gate_report s).1 j ≡ some approved
  publish_keeps env dir gate_report j h = elim (Bool-cases (key_is (named_key dir) j)) [
    | inr other ↦
        status_at-other env.rerun_gate env.policy
          (publish-Change env.rerun_gate env.policy env.blob_sha256 now dir actor gate_report s) j
          other
        ∙ h
    | inl own ↦
        let e = (key_is_iff (named_key dir) j).0 own in
        let (row, there) = row_at (named_key dir) (ap (status_at s) e ∙ h) in
        ap (λ t. status_at t j) (publish_existing env dir gate_report there) ∙ h
  ]

  supersede_others :
      (k successor : Key) (reason : Option String) (j : Key)
      → key_is k j ≡ false
      → status_at (Lifecycle.supersede now k successor actor reason s).1 j ≡ status_at s j
  supersede_others k successor reason j other = elim (Option-cases (get_row s k)) [
    | inl missing ↦
        ap (λ t. status_at t j) (supersede_missing now k actor reason s missing successor)
    | inr (r, h) ↦ elim (supersede_row now k actor reason s h successor) [
      | inl e ↦ ap (λ t. status_at t j) e
      | inr (q, st, who, there, good, apart, e) ↦
          ap (λ t. status_at t j) e
          ∙ status_at-write_link _ j successor k actor now
          ∙ status_at-write_status s j k r superseded actor reason now h
          ∙ ap (λ b. if b then some superseded else status_at s j) other
    ]
  ]

  hold_keeps :
      (k : Key) (hold : Bool) (reason : Option String) (j : Key)
      → status_at (Lifecycle.set_legal_hold now k hold reason actor s).1 j ≡ status_at s j
  hold_keeps k hold reason j = elim (Option-cases (get_row s k)) [
    | inl missing ↦
        ap (λ t. status_at t j) (set_legal_hold_missing now k actor reason s missing hold)
    | inr (r, h) ↦ elim (set_legal_hold_row now k actor reason s h hold) [
      | inl e ↦ ap (λ t. status_at t j) e
      | inr (who, e) ↦ ap (λ t. status_at t j) e ∙ status_at-write_hold s j k hold reason actor now
    ]
  ]

  retention_keeps :
      (env : Env) (days : ℤ) (j : Key)
      → status_at (Lifecycle.set_retention_days env.str_of now days actor s).1 j ≡ status_at s j
  unfolding status_at get_row Lifecycle.set_retention_days Settings.set_retention_days
      Settings.set_setting Settings.write_setting
  retention_keeps env (pos n) j = ground arith
  retention_keeps env (negsuc n) j = ground arith

both_outcome :
    (x : Result IndexError (Unit {0}) × System)
    (f : Unit {0} → System → Result IndexError (Unit {0}) × System)
    → ((((λ s. x) >>= f) x.1).1 ≡ x.1) ⊎ ((((λ s. x) >>= f) x.1).1 ≡ (f tt x.1).1)
both_outcome (ok u, y) f = inr refl
both_outcome (err e, y) f = inl refl

module _ (env : Env) (r : Redaction) where
  reindex_both_settles :
      (k successor : Key) (t : System)
      → All (Pending k t.store) t.index
      → IsLive ((reindex_package r k >> reindex_package r successor) t).1
  reindex_both_settles k successor t h =
      elim (both_outcome (reindex_package r k t) (λ u. reindex_package r successor)) [
        | inl e ↦ subst IsLive (sym e) (reindex_settles r k t h)
        | inr e ↦ subst IsLive (sym e) (
            reindex_settles r successor (reindex_package r k t).1 (
              All-map (Live (reindex_package r k t).1.store)
                (Pending successor (reindex_package r k t).1.store) (reindex_package r k t).1.index
                (λ c g. inr g) (reindex_settles r k t h)))
      ]

  visit-IsLive :
      (now : ℕ) (actor : Identity) (a : Action) (sys : System)
      → IsLive sys
      → IsLive (visit env r now actor a sys)
  unfolding visit reindex
  visit-IsLive now actor (Action.publish dir gate_report) sys live =
      kept-Live sys _ (publish_keeps now actor sys.store env dir gate_report) live
  visit-IsLive now actor (Action.legal_hold k hold reason) sys live =
      kept-Live sys _ (λ j h. hold_keeps now actor sys.store k hold reason j ∙ h) live
  visit-IsLive now actor (Action.retention days) sys live =
      kept-Live sys _ (λ j h. retention_keeps now actor sys.store env days j ∙ h) live
  visit-IsLive now actor (Action.review k to reason) sys live =
      then_index-Live _ _ sys k
        (status_at-other env.rerun_gate env.policy
          (transition-Change env.rerun_gate env.policy now k to actor reason sys.store))
        (λ e h. transition_refused now k actor reason sys.store env.rerun_gate env.policy to h)
        (reindex_settles r k) live
  visit-IsLive now actor (Action.recall k reason) sys live =
      then_index-Live _ _ sys k
        (status_at-other env.rerun_gate env.policy
          (recall-Change env.rerun_gate env.policy now k actor reason sys.store))
        (λ e h. recall_refused now k actor reason sys.store h) (reindex_settles r k) live
  visit-IsLive now actor (Action.restore k reason) sys live =
      then_index-Live _ _ sys k
        (status_at-other env.rerun_gate env.policy
          (restore-Change env.rerun_gate env.policy now k actor reason sys.store))
        (λ e h. restore_refused now k actor reason sys.store h) (reindex_settles r k) live
  visit-IsLive now actor (Action.purge k reason) sys live =
      then_index-Live _ _ sys k
        (status_at-other env.rerun_gate env.policy
          (purge-Change env.rerun_gate env.policy now k actor reason sys.store))
        (λ e h. purge_refused now k actor reason sys.store h)
        (λ t h. remove_settles k t.store t.index h) live
  visit-IsLive now actor (Action.supersede k successor reason) sys live =
      then_index-Live _ _ sys k (supersede_others now actor sys.store k successor reason)
        (λ e h. supersede_refused now k actor reason sys.store successor h)
        (reindex_both_settles k successor) live

  visits-IsLive :
      (requests : List Request) (sys : System) → IsLive sys → IsLive (visits env r requests sys)
  unfolding visits
  visits-IsLive [] sys live = live
  visits-IsLive (q ∷ rest) sys live =
      visits-IsLive rest (visit env r q.now q.actor q.action sys)
        (visit-IsLive q.now q.actor q.action sys live)

-- From a new store and an empty index, after any requests, whether they fail or not, every chunk in
-- the index belongs to a package that is approved.
pub indexed_is_approved :
    (env : Env) (r : Redaction) (requests : List Request)
    → All
        (λ c.
          status_at (visits env r requests (record { store = empty_store; index = [] })).store c.key
          ≡ some approved)
        (visits env r requests (record { store = empty_store; index = [] })).index
indexed_is_approved env r requests =
    visits-IsLive env r requests (record { store = empty_store; index = [] }) tt
