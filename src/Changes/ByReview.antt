-- ===== src/Changes/ByReview.antt =====
-- The review workflow makes only changes of the abstract machine.
use analysis_package.Base.{
  ℕ, String, ◌≡◌, ◌⊎◌, refl, inl, inr, Bool, true, false, Option, none, some, arith, Option-cases,
  opt_eq-some,
}
use analysis_package.Base.Exec.{ok}
use analysis_package.Base.Text.{is_given}
use analysis_package.Identity.{Role, Identity, has_role}
use analysis_package.Store.Records.{
  Key, Status, draft, in_review, approved, rejected, PackageRow, Overall, Bytes, Store,
}
use analysis_package.Store.Effects.{get_row, write_status}
use analysis_package.Store.Reads.{get_row_key}
use analysis_package.Store.Methods.{get, extract, blob_bytes}
use analysis_package.Store.Writes.{set_status_moves}
use analysis_package.Review.{
  ReviewPolicy, is_transition, check_submit, check_decide, check_pullback, check_transition,
  transition,
}
use analysis_package.Changes.{blob_of, GatePasses, FourEyes, Allowed, Change, same, moved}

module _ (rerun_gate : Bytes → Overall) (policy : ReviewPolicy) (s : Store) (r : PackageRow)
    (actor : Identity) (reason : Option String) where
  -- The checks read the store and change nothing.
  check_submit_reads : (check_submit rerun_gate policy r actor s).1 ≡ s
  unfolding check_submit extract blob_bytes
  check_submit_reads = ground arith

  check_decide_reads :
      (rejecting : Bool) → (check_decide rerun_gate policy r actor rejecting reason s).1 ≡ s
  unfolding check_decide
  check_decide_reads rejecting = ground arith

  check_pullback_reads : (check_pullback rerun_gate policy r actor s).1 ≡ s
  unfolding check_pullback
  check_pullback_reads = ground arith

  pub check_transition_reads :
      (to : Status) → (check_transition rerun_gate policy to r actor reason s).1 ≡ s
  unfolding check_transition
  check_transition_reads draft = check_pullback_reads
  check_transition_reads in_review = check_submit_reads
  check_transition_reads approved = check_decide_reads false
  check_transition_reads rejected = check_decide_reads true
  check_transition_reads _ = refl

  -- A submission that passes its check was made by an analyst, with the gate passing if it must.
  submit_gate :
      get_row s r.key ≡ some r
      → (check_submit rerun_gate policy r actor s).0 ≡ ok tt
      → policy.gate_before_review ≡ true
      → GatePasses rerun_gate policy s r
  unfolding check_submit extract blob_bytes blob_of
  submit_gate h c g = elim (Option-cases (blob_of s r.blob_sha256)) [
    | inl lost ↦ absurd (ground arith)
    | inr (b, found) ↦ (b, found, ground arith)
  ]

  submit_role :
      (check_submit rerun_gate policy r actor s).0 ≡ ok tt → has_role actor Role.analyst ≡ true
  unfolding check_submit
  submit_role c = ground arith

  pub decide_role :
      (rejecting : Bool)
      → (check_decide rerun_gate policy r actor rejecting reason s).0 ≡ ok tt
      → (has_role actor Role.reviewer ≡ true) × (rejecting ≡ true → is_given reason ≡ true)
  unfolding check_decide
  decide_role rejecting c = ground arith

  pub decide_FourEyes :
      (rejecting : Bool)
      → (check_decide rerun_gate policy r actor rejecting reason s).0 ≡ ok tt
      → FourEyes rerun_gate policy r actor
  unfolding check_decide
  decide_FourEyes rejecting c = ground (arith, opt_eq-some actor.id r.analyst_id)

  pullback_owner :
      (check_pullback rerun_gate policy r actor s).0 ≡ ok tt
      → (has_role actor Role.admin ≡ true) ⊎ (r.analyst_id ≡ some actor.id)
  unfolding check_pullback
  pullback_owner c = ground (arith, opt_eq-some actor.id r.analyst_id)

  -- A move in the table that passes its check is one that the abstract machine allows.
  check_transition_Allowed :
      (to : Status)
      → get_row s r.key ≡ some r
      → is_transition r.status to ≡ true
      → (check_transition rerun_gate policy to r actor reason s).0 ≡ ok tt
      → Allowed rerun_gate policy s r to actor reason
  unfolding check_transition is_transition
  check_transition_Allowed draft h t c = Allowed.pull_back (ground arith) refl (pullback_owner c)
  check_transition_Allowed in_review h t c =
      Allowed.submit (ground arith) refl (submit_role c) (submit_gate h c)
  check_transition_Allowed approved h t c =
      Allowed.approve (ground arith) refl (decide_role false c).0 (decide_FourEyes false c)
  check_transition_Allowed rejected h t c =
      Allowed.reject (ground arith) refl (decide_role true c).0 (decide_FourEyes true c)
        ((decide_role true c).1 refl)
  check_transition_Allowed _ h t c = absurd (ground arith)

module _ (rerun_gate : Bytes → Overall) (policy : ReviewPolicy) (now : ℕ) (k : Key) (to : Status)
    (actor : Identity) (reason : Option String) (s : Store) where
  transition_missing :
      get_row s k ≡ none → (transition rerun_gate policy now k to actor reason s).1 ≡ s
  unfolding transition get
  transition_missing h = ground arith

  transition_row :
      {r : PackageRow}
      → get_row s k ≡ some r
      → ((transition rerun_gate policy now k to actor reason s).1 ≡ s)
        ⊎ (is_transition r.status to ≡ true)
          × ((check_transition rerun_gate policy to r actor reason s).0 ≡ ok tt)
          × ((transition rerun_gate policy now k to actor reason s).1
              ≡ write_status k r.status to actor reason now s)
  unfolding transition get
  transition_row {r} h = ground (
    arith,
    set_status_moves now k actor reason s to h,
    check_transition_reads rerun_gate policy s r actor reason to,
  )

  -- A review transition makes one move that the abstract machine allows, or changes nothing.
  pub transition-Change :
      Change rerun_gate policy k s (transition rerun_gate policy now k to actor reason s).1
  transition-Change = elim (Option-cases (get_row s k)) [
    | inl h ↦ same (transition_missing h)
    | inr (r, h) ↦ elim (transition_row h) [
      | inl e ↦ same e
      | inr (step, checked, e) ↦
          let own : get_row s r.key ≡ some r = cc (get_row_key s k r h) in
          moved r to actor reason now h
            (check_transition_Allowed rerun_gate policy s r actor reason to own step checked) e
    ]
  ]
