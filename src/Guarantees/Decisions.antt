-- ===== src/Guarantees/Decisions.antt =====
-- What an accepted decision means: src/ap_review/workflow.py, src/ap_lifecycle/workflow.py and the
-- compare-and-swap of `PackageStore.set_status` in src/ap_store/store.py.
use analysis_package.Base.{
  ℕ, String, ◌≡◌, ◌≢◌, ◌≤◌, refl, ap, sym, ◌∙◌, true, false, Option, some, arith, Bool-cases,
  Option-cases, inl, inr,
}
use mathlib.Core.Path.{subst}
use analysis_package.Base.Exec.{ok, err}
use analysis_package.Base.Table.{count_where}
use analysis_package.Base.Table.Laws.{count-update}
use analysis_package.Identity.{Role, Identity, has_role}
use analysis_package.Store.Records.{
  Key, Status, in_review, approved, superseded, Overall, Bytes, PackageRow, Store, key_is,
  key_is_iff, status_is, status_is_iff,
}
use analysis_package.Store.Effects.{
  at_key, at_key_in, insert_audit, get_row, write_status, write_link,
}
use analysis_package.Store.Reads.{get_row_key, get_row-write_status_ne, get_row-write_link}
use analysis_package.Store.Methods.{stale_status, set_status, get}
use analysis_package.Store.Writes.{
  KeysUnique, read_after_status, read_after_link, set_status_moves, set_status_stale,
  link_replaces_writes,
}
use analysis_package.Review.{ReviewPolicy, is_transition, check_transition, transition}
use analysis_package.Lifecycle
use analysis_package.Lifecycle.{reviewer_or_admin, require, good_successor}
use analysis_package.Changes.{FourEyes}
use analysis_package.Changes.ByReview.{check_transition_reads, decide_role, decide_FourEyes}

module _ (rerun_gate : Bytes → Overall) (policy : ReviewPolicy) (now : ℕ) (k : Key)
    (actor : Identity) (reason : Option String) (s : Store) where
  accepted_row :
      (to : Status) {r' : PackageRow}
      → (transition rerun_gate policy now k to actor reason s).0 ≡ ok r'
      → (r : PackageRow) × (get_row s k ≡ some r)
  unfolding transition get
  accepted_row to {r'} accepted = elim (Option-cases (get_row s k)) [
    | inl missing ↦ absurd (ground arith)
    | inr found ↦ found
  ]

  accepted_writes :
      (to : Status) {r r' : PackageRow}
      → get_row s k ≡ some r
      → (transition rerun_gate policy now k to actor reason s).0 ≡ ok r'
      → (is_transition r.status to ≡ true)
        × ((check_transition rerun_gate policy to r actor reason s).0 ≡ ok tt)
        × ((transition rerun_gate policy now k to actor reason s).1
            ≡ write_status k r.status to actor reason now s)
  unfolding transition get
  accepted_writes to {r} h accepted = ground (
    arith,
    set_status_moves now k actor reason s to h,
    check_transition_reads rerun_gate policy s r actor reason to,
  )

-- An accepted approval was of a package in review, by a reviewer (an admin counts as one) who was
-- not its analyst, unless they are an admin or the policy allows self-review; and the package is
-- then approved, otherwise as it was.
pub approval_is_reviewed :
    (rerun_gate : Bytes → Overall) (policy : ReviewPolicy) (now : ℕ) (k : Key) (actor : Identity)
    (reason : Option String) (s : Store) (r' : PackageRow)
    → (transition rerun_gate policy now k approved actor reason s).0 ≡ ok r'
    → (r : PackageRow) × (get_row s k ≡ some r)
      × (r.status ≡ in_review)
      × (has_role actor Role.reviewer ≡ true)
      × FourEyes rerun_gate policy r actor
      × (get_row (transition rerun_gate policy now k approved actor reason s).1 k
          ≡ some (record r { status = approved }))
unfolding is_transition check_transition
approval_is_reviewed rerun_gate policy now k actor reason s r' accepted =
    let (r, h) = accepted_row rerun_gate policy now k actor reason s approved accepted in
    let (step, checked, e) =
      accepted_writes rerun_gate policy now k actor reason s approved h accepted in
    (
      r,
      h,
      ground arith,
      (decide_role rerun_gate policy s r actor reason false checked).0,
      decide_FourEyes rerun_gate policy s r actor reason false checked,
      ap (λ t. get_row t k) e ∙ subst_status r h (ground arith),
    )
  where
    subst_status :
        (r : PackageRow)
        → get_row s k ≡ some r
        → r.status ≡ in_review
        → get_row (write_status k r.status approved actor reason now s) k
          ≡ some (record r { status = approved })
    subst_status r h e = read_after_status now k actor s h approved reason

written_KeysUnique :
    (k : Key) (from to : Status) (actor : Identity) (reason : Option String) (now : ℕ) (s : Store)
    → KeysUnique s
    → KeysUnique (write_status k from to actor reason now s)
unfolding write_status insert_audit
written_KeysUnique k from to actor reason now s unique j =
    subst (λ n. n ≤ 1)
      (sym (
        count-update (at_key j) (at_key_in k from) (λ x. record x { status = to }) s.packages
          (λ x. refl)))
      (unique j)

-- Of two moves of one package from the same status, made one after the other as two racing callers
-- would make them, the first is accepted and the second is refused as stale and writes nothing,
-- where keys are unique and the first leaves that status.
pub set_status_once :
    (k : Key) (to to' : Status) (first second : Identity) (reason reason' : Option String)
    (now later : ℕ) (s : Store) (r : PackageRow)
    → ((j : Key) → count_where (at_key j) s.packages ≤ 1)
    → get_row s k ≡ some r
    → to ≢ r.status
    → ((set_status now k r.status to first reason s).0 ≡ ok (record r { status = to }))
      × (set_status later k r.status to' second reason'
            (set_status now k r.status to first reason s).1
          ≡ (err stale_status, (set_status now k r.status to first reason s).1))
set_status_once k to to' first second reason reason' now later s r unique h moves =
    let e = set_status_moves now k first reason s to h in
    (
      ap (λ x. x.0) e,
      subst (λ t. set_status later k r.status to' second reason' t ≡ (err stale_status, t))
          (sym (ap (λ x. x.1) e))
          (set_status_stale later k second reason' (write_status k r.status to first reason now s)
            r.status to' (written_KeysUnique k r.status to first reason now s unique)
            (read_after_status now k first s h to reason) moves),
    )

module _ (now : ℕ) (k successor : Key) (actor : Identity) (reason : Option String) (s : Store)
    {r' : PackageRow}
    (accepted : (Lifecycle.supersede now k successor actor reason s).0 ≡ ok r') where
  superseded_row : (r : PackageRow) × (get_row s k ≡ some r)
  unfolding Lifecycle.supersede require get
  superseded_row = elim (Option-cases (get_row s k)) [
    | inl missing ↦ absurd (ground arith)
    | inr found ↦ found
  ]

  successor_row :
      {r : PackageRow} → get_row s k ≡ some r → (q : PackageRow) × (get_row s successor ≡ some q)
  unfolding Lifecycle.supersede require get good_successor
  successor_row {r} h = elim (Option-cases (get_row s successor)) [
    | inl missing ↦ absurd (ground arith)
    | inr found ↦ found
  ]

  module _ {r q : PackageRow} (h : get_row s k ≡ some r)
      (found : get_row s successor ≡ some q) where
    supersede_guards :
        (Lifecycle.is_transition r.status superseded ≡ true)
        × (reviewer_or_admin actor ≡ true)
        × (key_is successor k ≡ false)
        × (status_is q.status approved ≡ true)
    unfolding Lifecycle.supersede require get good_successor
    supersede_guards = ground arith

    superseded_after :
        key_is successor k ≡ false
        → get_row
            (write_link successor k actor now
              (write_status k r.status superseded actor reason now s))
            k
          ≡ some (record r { status = superseded })
    superseded_after other = elim (Bool-cases (key_is r.key successor)) [
      | inl same ↦
          let e : successor ≡ k =
            (sym ((key_is_iff r.key successor).0 same) ∙ get_row_key s k r h) in
          absurd (ground (arith, (key_is_iff successor k).1 e))
      | inr own ↦
          rw (get_row-write_link, read_after_status now k actor s h superseded reason) (rw own refl)
    ]

    linked_after :
        key_is successor k ≡ false
        → get_row
            (write_link successor k actor now
              (write_status k r.status superseded actor reason now s))
            successor
          ≡ some (record q { replaces = some k })
    linked_after other =
        read_after_link now successor actor (write_status k r.status superseded actor reason now s)
          (get_row-write_status_ne k r.status superseded actor reason now s successor q other found)
          k

    supersede_writes :
        r.status ≡ approved
        → key_is successor k ≡ false
        → status_is q.status approved ≡ true
        → (Lifecycle.supersede now k successor actor reason s).1
          ≡ write_link successor k actor now (write_status k r.status superseded actor reason now s)
    unfolding Lifecycle.supersede require get good_successor Lifecycle.is_transition
    supersede_writes st other good = ground (
      arith,
      set_status_moves now k actor reason s superseded h,
      link_replaces_writes now successor actor reason
          (write_status k r.status superseded actor reason now s) k {r = q}
          (get_row-write_status_ne k r.status superseded actor reason now s successor q other
            found),
    )

-- An accepted supersede was by a reviewer or an admin, of an approved package by another approved
-- one. The package is then superseded, otherwise as it was, and its successor is still approved and
-- says which package it replaces.
pub supersede_keeps_successor :
    (now : ℕ) (k successor : Key) (actor : Identity) (reason : Option String) (s : Store)
    (r' : PackageRow)
    → (Lifecycle.supersede now k successor actor reason s).0 ≡ ok r'
    → (r q : PackageRow) × (get_row s k ≡ some r)
      × (get_row s successor ≡ some q)
      × (r.status ≡ approved)
      × (q.status ≡ approved)
      × (reviewer_or_admin actor ≡ true)
      × (get_row (Lifecycle.supersede now k successor actor reason s).1 k
          ≡ some (record r { status = superseded }))
      × (get_row (Lifecycle.supersede now k successor actor reason s).1 successor
          ≡ some (record q { replaces = some k }))
supersede_keeps_successor now k successor actor reason s r' accepted =
    let (r, h) = superseded_row now k successor actor reason s accepted in
    let (q, found) = successor_row now k successor actor reason s accepted h in
    let (step, who, other, good) =
      supersede_guards now k successor actor reason s accepted h found in
    let st : r.status ≡ approved = (unfold Lifecycle.is_transition in ground arith) in
    let e = supersede_writes now k successor actor reason s accepted h found st other good in
    (
      r,
      q,
      h,
      found,
      st,
      (status_is_iff q.status approved).0 good,
      who,
      ap (λ t. get_row t k) e
          ∙ superseded_after now k successor actor reason s accepted h found other,
      ap (λ t. get_row t successor) e
          ∙ linked_after now k successor actor reason s accepted h found other,
    )
