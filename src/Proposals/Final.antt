-- ===== src/Proposals/Final.antt =====
-- A decided proposal stays as it was decided: src/ap_proposals/workflow.py.
use mathlib.Core.Path.{subst}
use mathlib.Core.Option
use analysis_package.Base.{
  ℕ, String, ◌≡◌, ◌≢◌, ◌⊎◌, refl, ap, sym, ◌∙◌, Bool, true, false, ◌&&◌, Option, none, some, List,
  [], ◌∷◌, ◌++◌, arith, Bool-cases, Option-cases, inl, inr, if◌then◌else◌,
}
use analysis_package.Base.Exec.{Result, ok, err}
use analysis_package.Base.Table.{find, update_where, or_else}
use analysis_package.Base.Table.Laws.{find-update, find-append}
use analysis_package.Identity.{Identity}
use analysis_package.Proposals.{
  Decision, pending_hitl, approved, rejected, withdrawn, ProposalKind, Proposal, Desk, Tools,
  ProposalError, decision_is, named_id, get_proposal, audit_decision, insert_proposal, new_proposal,
  create_proposal, decided_row, write_decision, set_decision, is_open_move, check_edit,
  check_verdict, apply_with, apply_step, decide_proposal, record_dry_run, is_declarative,
}

abbrev accepted : Result ProposalError (Unit {0}) → Bool
accepted (ok u) = true
accepted (err e) = false

-- one call of the proposal workflow
pub data DeskCall : Type 0 where
  create : String → ProposalKind → String → String → String → String → DeskCall
  decide : String → Decision → Option String → Option String → DeskCall
  dry_run : String → Option String → DeskCall

module _ {R : Type 0} (tools : Tools R) (require_dry_run : Bool) where
  unfoldable pub perform_call : ℕ → Identity → DeskCall → Desk R → Desk R
  perform_call now actor (DeskCall.create id kind summary rationale diff evidence) s =
      (create_proposal tools now id kind summary rationale diff evidence actor s).1
  perform_call now actor (DeskCall.decide id to reason edited) s =
      (decide_proposal tools require_dry_run now id to actor reason edited s).1
  perform_call now actor (DeskCall.dry_run id edited) s = (record_dry_run tools id edited s).1

  unfoldable pub run_calls : List (ℕ × Identity × DeskCall) → Desk R → Desk R
  run_calls [] s = s
  run_calls ((now, actor, call) ∷ rest) s = run_calls rest (perform_call now actor call s)

  module _ (now : ℕ) (id : String) (actor : Identity) (s : Desk R) where
    create_outcome :
        (kind : ProposalKind) (summary rationale diff evidence : String)
        → ((create_proposal tools now id kind summary rationale diff evidence actor s).1 ≡ s)
          ⊎ (p : Proposal) × ((create_proposal tools now id kind summary rationale diff evidence
                actor s).1.proposals
              ≡ s.proposals ++ p ∷ [])
    unfolding create_proposal insert_proposal audit_decision
    create_outcome kind summary rationale diff evidence =
        elim (written kind summary rationale diff evidence) [
          | inl e ↦ inl e
          | inr e ↦ inr (new_proposal now id kind summary rationale diff evidence actor, e)
        ]
      where
        written :
            (kind : ProposalKind) (summary rationale diff evidence : String)
            → ((create_proposal tools now id kind summary rationale diff evidence actor s).1 ≡ s)
              ⊎ ((create_proposal tools now id kind summary rationale diff evidence actor
                    s).1.proposals
                  ≡ s.proposals
                    ++ new_proposal now id kind summary rationale diff evidence actor ∷ [])
        written kind summary rationale diff evidence = ground arith

    dry_run_outcome :
        (edited : Option String)
        → ((record_dry_run tools id edited s).1 ≡ s)
          ⊎ (result : String) × ((record_dry_run tools id edited s).1.proposals
              ≡ update_where
                  (named_id id)
                  (λ q. record q { dry_run_json = some result })
                  s.proposals)
    unfolding record_dry_run
    dry_run_outcome edited = elim (Option-cases (get_proposal s id)) [
      | inl missing ↦ inl (ground arith)
      | inr (p, h) ↦
          elim (Option-cases
            (tools.run_dry_run p.kind (Option.get_or edited p.diff_json) s.applied)) [
              | inl failed ↦ inl (ground arith)
              | inr (result, found) ↦ elim (Bool-cases (is_declarative p.kind)) [
                | inr code ↦ inl (ground arith)
                | inl declarative ↦ inr (result, ground arith)
              ]
            ]
    ]

    set_outcome :
        (from to : Decision) (reason edited applied spec : Option String)
        → ((set_decision now id from to actor reason edited applied spec s).1 ≡ s)
          ⊎ ((set_decision now id from to actor reason edited applied spec s).1
              ≡ write_decision now id from to actor reason edited applied spec s)
    unfolding set_decision
    set_outcome from to reason edited applied spec = ground arith

    apply_step_reads :
        (p : Proposal) (to : Decision) (edited : Option String)
        → (apply_step tools require_dry_run p to actor edited s).1.proposals ≡ s.proposals
    unfolding apply_step apply_with
    apply_step_reads p approved edited = ground arith
    apply_step_reads p _ edited = refl

    check_edit_reads :
        (kind : ProposalKind) (to : Decision) (edited : Option String)
        → (check_edit tools kind to edited s).1 ≡ s
    unfolding check_edit
    check_edit_reads kind to none = refl
    check_edit_reads kind to (some diff) = ground arith

    check_verdict_reads :
        (to : Decision) (reason : Option String) → (check_verdict actor to reason s).1 ≡ s
    unfolding check_verdict
    check_verdict_reads to reason = ground arith

    decide_missing :
        (to : Decision) (reason edited : Option String)
        → get_proposal s id ≡ none
        → (decide_proposal tools require_dry_run now id to actor reason edited s).1 ≡ s
    unfolding decide_proposal
    decide_missing to reason edited missing = ground arith

    decide_stages :
        (p : Proposal) (to : Decision) (reason edited : Option String)
        → get_proposal s id ≡ some p
        → ((decide_proposal tools require_dry_run now id to actor reason edited s).1 ≡ s)
          ⊎ ((decide_proposal tools require_dry_run now id to actor reason edited s).1
              ≡ (apply_step tools require_dry_run p to actor edited s).1)
          ⊎ (is_open_move p.status to ≡ true)
            × (applied spec : Option String) × ((decide_proposal tools require_dry_run now id to
                  actor reason edited s).1
                ≡ (set_decision now id p.status to actor reason edited applied spec
                    (apply_step tools require_dry_run p to actor edited s).1).1)
    unfolding decide_proposal
    decide_stages p to reason edited h = elim (Bool-cases (is_open_move p.status to)) [
      | inr closed ↦ inl (ground arith)
      | inl may ↦ by_result (apply_step tools require_dry_run p to actor edited s) refl may
    ]
      where
        by_result :
            (x : Result ProposalError (Option String × Option String) × Desk R)
            → apply_step tools require_dry_run p to actor edited s ≡ x
            → is_open_move p.status to ≡ true
            → ((decide_proposal tools require_dry_run now id to actor reason edited s).1 ≡ s)
              ⊎ ((decide_proposal tools require_dry_run now id to actor reason edited s).1
                  ≡ (apply_step tools require_dry_run p to actor edited s).1)
              ⊎ (is_open_move p.status to ≡ true)
                × (applied spec : Option String) × ((decide_proposal tools require_dry_run now id to
                      actor reason edited s).1
                    ≡ (set_decision now id p.status to actor reason edited applied spec
                        (apply_step tools require_dry_run p to actor edited s).1).1)
        by_result (err e, t) eq may =
            ground (arith, check_edit_reads p.kind to edited, check_verdict_reads to reason)
        by_result (ok (applied, spec), t) eq may =
            elim (Bool-cases (accepted (check_edit tools p.kind to edited s).0)) [
              | inr refused ↦ inl (ground (arith, check_edit_reads p.kind to edited))
              | inl fine ↦ elim (Bool-cases (accepted (check_verdict actor to reason s).0)) [
                | inr refused ↦ inl (
                    ground
                      (arith, check_edit_reads p.kind to edited, check_verdict_reads to reason))
                | inl good ↦ inr (
                    inr (
                      may,
                      applied,
                      spec,
                      ground
                          (arith, check_edit_reads p.kind to edited, check_verdict_reads to reason),
                    ))
              ]
            ]

pub may_from_pending : (from to : Decision) → is_open_move from to ≡ true → from ≡ pending_hitl
unfolding is_open_move
may_from_pending pending_hitl to h = refl
may_from_pending approved to h = absurd (ground arith)
may_from_pending rejected to h = absurd (ground arith)
may_from_pending withdrawn to h = absurd (ground arith)

not_pending : (d : Decision) → d ≢ pending_hitl → decision_is d pending_hitl ≡ false
unfolding decision_is
not_pending pending_hitl h = absurd (h refl)
not_pending approved h = refl
not_pending rejected h = refl
not_pending withdrawn h = refl

module _ {R : Type 0} (s : Desk R) (j : String) (q : Proposal) (h : get_proposal s j ≡ some q) where
  read_same : (t : Desk R) → t.proposals ≡ s.proposals → get_proposal t j ≡ some q
  unfolding get_proposal
  read_same t e = ap (find (named_id j)) e ∙ h

  read_after_create :
      (t : Desk R) (p : Proposal) → t.proposals ≡ s.proposals ++ p ∷ [] → get_proposal t j ≡ some q
  unfolding get_proposal
  read_after_create t p e =
      ap (find (named_id j)) e
      ∙ find-append (named_id j) s.proposals p
      ∙ ap (λ o. or_else o (if named_id j p then some p else none)) h

  read_after_decision :
      (now : ℕ) (id : String) (to : Decision) (actor : Identity)
      (reason edited applied spec : Option String)
      → q.status ≢ pending_hitl
      → get_proposal (write_decision now id pending_hitl to actor reason edited applied spec s) j
        ≡ some q
  unfolding get_proposal write_decision audit_decision decided_row
  read_after_decision now id to actor reason edited applied spec decided = ground (
    arith,
    find-update (named_id j) (λ p. named_id id p && decision_is p.status pending_hitl)
        (decided_row now to actor reason edited applied spec) s.proposals (λ a. refl),
    not_pending q.status decided,
  )

  read_after_dry_run :
      (t : Desk R) (id result : String)
      → t.proposals
        ≡ update_where (named_id id) (λ p. record p { dry_run_json = some result }) s.proposals
      → (q' : Proposal) × (get_proposal t j ≡ some q')
        × (q' ≡ record q { dry_run_json = q'.dry_run_json })
  unfolding get_proposal
  read_after_dry_run t id result e = (
    (if named_id id q then record q { dry_run_json = some result } else q),
    ap (find (named_id j)) e
        ∙ find-update (named_id j) (named_id id) (λ p. record p { dry_run_json = some result })
            s.proposals (λ a. refl)
        ∙ ap
            (Option.map (λ (p : Proposal).
              if named_id id p then record p { dry_run_json = some result } else p))
            h,
    ground arith,
  )

module _ {R : Type 0} (tools : Tools R) (require_dry_run : Bool) (j : String) where
  -- what is known of the row of `j` after a call
  abbrev Keeps : Proposal → Desk R → Type 0
  Keeps q t =
      (q' : Proposal) × (get_proposal t j ≡ some q')
      × (q' ≡ record q { dry_run_json = q'.dry_run_json })

  decide_keeps :
      (now : ℕ) (id : String) (actor : Identity) (s : Desk R) (to : Decision)
      (reason edited : Option String) (q : Proposal)
      → get_proposal s j ≡ some q
      → q.status ≢ pending_hitl
      → get_proposal (decide_proposal tools require_dry_run now id to actor reason edited s).1 j
        ≡ some q
  decide_keeps now id actor s to reason edited q h decided =
      elim (Option-cases (get_proposal s id)) [
        | inl missing ↦
            ap (λ t. get_proposal t j)
              (decide_missing tools require_dry_run now id actor s to reason edited missing)
            ∙ h
        | inr (p, found) ↦
            let applied_desk = (apply_step tools require_dry_run p to actor edited s).1 in
            let kept =
              read_same s j q h applied_desk
                (apply_step_reads tools require_dry_run now id actor s p to edited) in
            elim (decide_stages tools require_dry_run now id actor s p to reason edited found) [
              | inl e ↦ ap (λ t. get_proposal t j) e ∙ h
              | inr (inl e) ↦ ap (λ t. get_proposal t j) e ∙ kept
              | inr (inr (may, applied, spec, e)) ↦
                  ap (λ t. get_proposal t j) e
                  ∙ after_set now id actor applied_desk p.status to reason edited applied spec q
                      kept decided (may_from_pending p.status to may)
            ]
      ]
    where
      after_set :
          (now : ℕ) (id : String) (actor : Identity) (t : Desk R) (from to : Decision)
          (reason edited applied spec : Option String) (q : Proposal)
          → get_proposal t j ≡ some q
          → q.status ≢ pending_hitl
          → from ≡ pending_hitl
          → get_proposal (set_decision now id from to actor reason edited applied spec t).1 j
            ≡ some q
      after_set now id actor t from to reason edited applied spec q kept decided e =
          elim (set_outcome tools require_dry_run now id actor t from to reason edited applied
            spec) [
              | inl same ↦ ap (λ u. get_proposal u j) same ∙ kept
              | inr written ↦
                  ap (λ u. get_proposal u j) written
                  ∙ subst
                      (λ f.
                        get_proposal (write_decision now id f to actor reason edited applied spec t)
                          j
                        ≡ some q)
                      (sym e)
                      (read_after_decision t j q kept now id to actor reason edited applied spec
                        decided)
            ]

  perform-Keeps :
      (now : ℕ) (actor : Identity) (c : DeskCall) (s : Desk R) (q : Proposal)
      → get_proposal s j ≡ some q
      → q.status ≢ pending_hitl
      → Keeps q (perform_call tools require_dry_run now actor c s)
  unfolding perform_call
  perform-Keeps now actor (DeskCall.create id kind summary rationale diff evidence) s q h decided =
      elim (create_outcome tools require_dry_run now id actor s kind summary rationale diff
        evidence) [
          | inl e ↦ (q, ap (λ t. get_proposal t j) e ∙ h, refl)
          | inr (p, e) ↦ (q, read_after_create s j q h _ p e, refl)
        ]
  perform-Keeps now actor (DeskCall.decide id to reason edited) s q h decided =
      (q, decide_keeps now id actor s to reason edited q h decided, refl)
  perform-Keeps now actor (DeskCall.dry_run id edited) s q h decided =
      elim (dry_run_outcome tools require_dry_run now id actor s edited) [
        | inl e ↦ (q, ap (λ t. get_proposal t j) e ∙ h, refl)
        | inr (result, e) ↦ read_after_dry_run s j q h _ id result e
      ]

  -- A decided proposal stays as it was decided: after any calls of the proposal workflow, refused
  -- ones included, its row is the row it was, but for the text of its dry run.
  pub decided_is_final :
      (calls : List (ℕ × Identity × DeskCall)) (s : Desk R) (q : Proposal)
      → get_proposal s j ≡ some q
      → q.status ≢ pending_hitl
      → (q' : Proposal) × (get_proposal (run_calls tools require_dry_run calls s) j ≡ some q')
        × (q' ≡ record q { dry_run_json = q'.dry_run_json })
  unfolding run_calls
  decided_is_final [] s q h decided = (q, h, refl)
  decided_is_final ((now, actor, call) ∷ rest) s q h decided =
      let (q', h', e) = perform-Keeps now actor call s q h decided in
      let (q'', h'', e') =
        decided_is_final rest (perform_call tools require_dry_run now actor call s) q' h'
          (λ p. decided (sym (ap (λ (x : Proposal). x.status) e) ∙ p)) in
      (q'', h'', e' ∙ ap (λ (x : Proposal). record x { dry_run_json = q''.dry_run_json }) e)
