-- ===== src/Changes/ByLifecycle.antt =====
-- The lifecycle workflow makes only changes of the abstract machine.
use analysis_package.Base.{
  ℕ, String, ◌≡◌, ◌≢◌, ◌⊎◌, refl, inl, inr, Bool, true, false, Option, none, some, arith,
  Bool-cases, Option-cases,
}
use analysis_package.Base.Text.{is_given}
use analysis_package.Identity.{Role, Identity, has_role}
use analysis_package.Store.Records.{
  Key, approved, superseded, recalled, PackageRow, Overall, Bytes, Store, status_is, status_is_iff,
  key_is,
}
use analysis_package.Store.Effects.{get_row, write_status, write_link, write_hold, write_purge}
use analysis_package.Store.Methods.{get}
use analysis_package.Store.Writes.{
  set_status_moves, link_replaces_writes, set_legal_hold_writes, purge_lem, purge_outcome,
}
use analysis_package.Store.Reads.{get_row-write_status_ne}
use analysis_package.Review.{ReviewPolicy}
use analysis_package.Lifecycle.{
  is_transition, require, reviewer_or_admin, good_successor, supersede, recall, restore,
  set_legal_hold, purge,
}
use analysis_package.Changes.{
  Allowed, Change, same, moved, linked, held, destroyed, Changes, done, next,
}

-- Without a row, the methods that begin with `_require` change nothing.
module _ (now : ℕ) (k : Key) (actor : Identity) (reason : Option String) (s : Store) where
  module _ (h : get_row s k ≡ none) where
    recall_missing : (recall now k actor reason s).1 ≡ s
    unfolding recall require get
    recall_missing = ground arith

    restore_missing : (restore now k actor reason s).1 ≡ s
    unfolding restore require get
    restore_missing = ground arith

    pub supersede_missing : (successor : Key) → (supersede now k successor actor reason s).1 ≡ s
    unfolding supersede require get
    supersede_missing successor = ground arith

    pub set_legal_hold_missing : (hold : Bool) → (set_legal_hold now k hold reason actor s).1 ≡ s
    unfolding set_legal_hold require get
    set_legal_hold_missing hold = ground arith

    purge_missing : (purge now k actor reason s).1 ≡ s
    unfolding purge require get
    purge_missing = ground arith

  -- With a row, either nothing changes or every guard held.
  module _ {r : PackageRow} (h : get_row s k ≡ some r) where
    recall_row :
        ((recall now k actor reason s).1 ≡ s)
        ⊎ (r.status ≡ approved)
          × (reviewer_or_admin actor ≡ true)
          × (is_given reason ≡ true)
          × ((recall now k actor reason s).1 ≡ write_status k r.status recalled actor reason now s)
    unfolding recall require get is_transition
    recall_row = ground (arith, set_status_moves now k actor reason s recalled h)

    restore_row :
        ((restore now k actor reason s).1 ≡ s)
        ⊎ ((r.status ≡ recalled) ⊎ (r.status ≡ superseded))
          × (has_role actor Role.admin ≡ true)
          × ((restore now k actor reason s).1 ≡ write_status k r.status approved actor reason now s)
    unfolding restore require get
    restore_row = ground (
      arith,
      set_status_moves now k actor reason s approved h,
      status_is_iff r.status recalled,
      status_is_iff r.status superseded,
    )

    pub set_legal_hold_row :
        (hold : Bool)
        → ((set_legal_hold now k hold reason actor s).1 ≡ s)
          ⊎ (has_role actor Role.admin ≡ true)
            × ((set_legal_hold now k hold reason actor s).1 ≡ write_hold k hold reason actor now s)
    unfolding set_legal_hold require get
    set_legal_hold_row hold = ground (arith, set_legal_hold_writes now k actor reason s hold h)

    purge_row :
        ((purge now k actor reason s).1 ≡ s)
        ⊎ (has_role actor Role.admin ≡ true)
          × (r.purged_at ≡ none)
          × (r.status ≢ approved)
          × (r.legal_hold ≡ false)
          × ((purge now k actor reason s).1 ≡ write_purge r actor reason now s)
    unfolding purge require get purge_outcome
    purge_row = ground (arith, purge_lem now k actor reason s h, status_is_iff r.status approved)

    supersede_good :
        (successor : Key) (q : PackageRow)
        → get_row s successor ≡ some q
        → key_is successor k ≡ false
        → status_is q.status approved ≡ true
        → ((supersede now k successor actor reason s).1 ≡ s)
          ⊎ (q : PackageRow) × (r.status ≡ approved)
            × (reviewer_or_admin actor ≡ true)
            × (get_row s successor ≡ some q)
            × (q.status ≡ approved)
            × (key_is successor k ≡ false)
            × ((supersede now k successor actor reason s).1
                ≡ write_link successor k actor now
                    (write_status k r.status superseded actor reason now s))
    unfolding supersede require get is_transition good_successor
    supersede_good successor q found other good = ground (
      arith,
      set_status_moves now k actor reason s superseded h,
      link_replaces_writes now successor actor reason
          (write_status k r.status superseded actor reason now s) k {r = q}
          (get_row-write_status_ne k r.status superseded actor reason now s successor q other
            found),
      status_is_iff q.status approved,
    )

    -- `supersede` writes the status, and then the link on the successor.
    pub supersede_row :
        (successor : Key)
        → ((supersede now k successor actor reason s).1 ≡ s)
          ⊎ (q : PackageRow) × (r.status ≡ approved)
            × (reviewer_or_admin actor ≡ true)
            × (get_row s successor ≡ some q)
            × (q.status ≡ approved)
            × (key_is successor k ≡ false)
            × ((supersede now k successor actor reason s).1
                ≡ write_link successor k actor now
                    (write_status k r.status superseded actor reason now s))
    unfolding supersede require get is_transition good_successor
    supersede_row successor = elim (Option-cases (get_row s successor)) [
      | inl none_there ↦ inl (ground arith)
      | inr (q, found) ↦ elim (Bool-cases (key_is successor k)) [
        | inl itself ↦ inl (ground arith)
        | inr other ↦ elim (Bool-cases (status_is q.status approved)) [
          | inl good ↦ supersede_good successor q found other good
          | inr bad ↦ inl (ground arith)
        ]
      ]
    ]

module _ (rerun_gate : Bytes → Overall) (policy : ReviewPolicy) (now : ℕ) (k : Key)
    (actor : Identity) (reason : Option String) (s : Store) where
  -- `recall` recalls an approved package or changes nothing.
  pub recall-Change : Change rerun_gate policy k s (recall now k actor reason s).1
  recall-Change = elim (Option-cases (get_row s k)) [
    | inl h ↦ same (recall_missing now k actor reason s h)
    | inr (r, h) ↦ elim (recall_row now k actor reason s h) [
      | inl e ↦ same e
      | inr (st, who, why, e) ↦
          moved r recalled actor reason now h (Allowed.recall st refl who why) e
    ]
  ]

  pub restore-Change : Change rerun_gate policy k s (restore now k actor reason s).1
  restore-Change = elim (Option-cases (get_row s k)) [
    | inl h ↦ same (restore_missing now k actor reason s h)
    | inr (r, h) ↦ elim (restore_row now k actor reason s h) [
      | inl e ↦ same e
      | inr (st, who, e) ↦ moved r approved actor reason now h (Allowed.restore st refl who) e
    ]
  ]

  pub set_legal_hold-Change :
      (hold : Bool) → Change rerun_gate policy k s (set_legal_hold now k hold reason actor s).1
  set_legal_hold-Change hold = elim (Option-cases (get_row s k)) [
    | inl h ↦ same (set_legal_hold_missing now k actor reason s h hold)
    | inr (r, h) ↦ elim (set_legal_hold_row now k actor reason s h hold) [
      | inl e ↦ same e
      | inr (who, e) ↦ held r hold reason actor now h who e
    ]
  ]

  pub purge-Change : Change rerun_gate policy k s (purge now k actor reason s).1
  purge-Change = elim (Option-cases (get_row s k)) [
    | inl h ↦ same (purge_missing now k actor reason s h)
    | inr (r, h) ↦ elim (purge_row now k actor reason s h) [
      | inl e ↦ same e
      | inr (who, live, st, free, e) ↦ destroyed r actor reason now h who live st free e
    ]
  ]

  -- `supersede` changes nothing, or supersedes a package and then links its successor.
  pub supersede-Changes :
      (successor : Key) → Changes rerun_gate policy s (supersede now k successor actor reason s).1
  supersede-Changes successor = elim (Option-cases (get_row s k)) [
    | inl h ↦ next {k = k} done (same (supersede_missing now k actor reason s h successor))
    | inr (r, h) ↦ elim (supersede_row now k actor reason s h successor) [
      | inl e ↦ next {k = k} done (same e)
      | inr (q, st, who, there, good, other, e) ↦
          next {k = k}
            (next done (moved r superseded actor reason now h (Allowed.supersede st refl who) refl))
            (linked successor k q actor now
              (get_row-write_status_ne k r.status superseded actor reason now s successor q other
                there)
              e)
    ]
  ]
