-- ===== src/Corpus/Refusals.antt =====
-- A workflow's call that raises has written nothing: src/ap_review/workflow.py and
-- src/ap_lifecycle/workflow.py.
use analysis_package.Base.{ℕ, String, ◌≡◌, Option, arith, Bool-cases, Option-cases, inl, inr}
use analysis_package.Base.Exec.{err}
use analysis_package.Identity.{Identity}
use analysis_package.Store.Records.{
  Key, Status, approved, superseded, recalled, Overall, Bytes, Store, key_is,
}
use analysis_package.Store.Effects.{get_row, write_status}
use analysis_package.Store.Reads.{get_row-write_status_ne}
use analysis_package.Store.Methods.{StoreError, get}
use analysis_package.Store.Writes.{set_status_moves, link_replaces_writes, purge_outcome, purge_lem}
use analysis_package.Review.{ReviewPolicy, transition}
use analysis_package.Lifecycle.{
  supersede, recall, restore, purge, require, good_successor, is_transition,
}
use analysis_package.Changes.ByReview.{check_transition_reads}

module _ (now : ℕ) (k : Key) (actor : Identity) (reason : Option String) (s : Store)
    {e : StoreError} where
  pub transition_refused :
      (rerun_gate : Bytes → Overall) (policy : ReviewPolicy) (to : Status)
      → (transition rerun_gate policy now k to actor reason s).0 ≡ err e
      → (transition rerun_gate policy now k to actor reason s).1 ≡ s
  unfolding transition get
  transition_refused rerun_gate policy to refused = elim (Option-cases (get_row s k)) [
    | inl missing ↦ ground arith
    | inr (r, h) ↦ ground (
      arith,
      set_status_moves now k actor reason s to h,
      check_transition_reads rerun_gate policy s r actor reason to,
    )
  ]

  pub recall_refused : (recall now k actor reason s).0 ≡ err e → (recall now k actor reason s).1 ≡ s
  unfolding recall require get is_transition
  recall_refused refused = elim (Option-cases (get_row s k)) [
    | inl missing ↦ ground arith
    | inr (r, h) ↦ ground (arith, set_status_moves now k actor reason s recalled h)
  ]

  pub restore_refused :
      (restore now k actor reason s).0 ≡ err e → (restore now k actor reason s).1 ≡ s
  unfolding restore require get
  restore_refused refused = elim (Option-cases (get_row s k)) [
    | inl missing ↦ ground arith
    | inr (r, h) ↦ ground (arith, set_status_moves now k actor reason s approved h)
  ]

  pub purge_refused : (purge now k actor reason s).0 ≡ err e → (purge now k actor reason s).1 ≡ s
  unfolding purge require get purge_outcome
  purge_refused refused = elim (Option-cases (get_row s k)) [
    | inl missing ↦ ground arith
    | inr (r, h) ↦ ground (arith, purge_lem now k actor reason s h)
  ]

  pub supersede_refused :
      (successor : Key)
      → (supersede now k successor actor reason s).0 ≡ err e
      → (supersede now k successor actor reason s).1 ≡ s
  unfolding supersede require get is_transition good_successor
  supersede_refused successor refused = elim (Option-cases (get_row s k)) [
    | inl missing ↦ ground arith
    | inr (r, h) ↦ elim (Option-cases (get_row s successor)) [
      | inl none_there ↦ ground arith
      | inr (q, found) ↦ elim (Bool-cases (key_is successor k)) [
        | inl itself ↦ ground arith
        | inr other ↦ ground (
          arith,
          set_status_moves now k actor reason s superseded h,
          link_replaces_writes now successor actor reason
              (write_status k r.status superseded actor reason now s) k {r = q}
              (get_row-write_status_ne k r.status superseded actor reason now s successor q other
                found),
        )
      ]
    ]
  ]
