-- ===== src/Proposals/Approval.antt =====
-- An approval applies the diff and records what was applied: `decide` of src/ap_proposals/workflow.py.
use mathlib.Core.Path.{subst}
use mathlib.Core.Option
use analysis_package.Base.{
  ℕ, String, ◌≡◌, refl, ap, sym, ◌∙◌, Bool, true, false, not, ◌&&◌, Option, none, some, arith,
  if◌then◌else◌, is_some,
}
use analysis_package.Base.Exec.{Result, ok, err, Exec, pure, guard, require_some, ◌>>=◌, ◌>>◌}
use analysis_package.Base.Exec.Hoare.{
  Hoare, Outcome, Hoare-bind, Hoare-guard, Hoare-gets, Hoare-pure, Hoare-weaken, Hoare-fact,
  Hoare-returns,
}
use analysis_package.Base.Table.Laws.{find-update, find_holds}
use analysis_package.Base.Text.{is_given}
use analysis_package.Identity.{Identity, Role, has_role}
use analysis_package.Proposals.{
  pending_hitl, approved, rejected, Proposal, Desk, Tools, ProposalError, no_such_proposal,
  no_transition, no_dry_run, apply_failed, edit_without_approval, invalid_diff, not_an_approver,
  no_reason, decision_is, named_id, get_proposal, audit_decision, decided_row, write_decision,
  set_decision, is_open_move, check_edit, check_verdict, apply_with, apply_step, decide_proposal,
  is_declarative,
}
use analysis_package.Proposals.Final.{may_from_pending}

module _ {R : Type 0} (tools : Tools R) (require_dry_run : Bool) (now : ℕ) (id : String)
    (actor : Identity) (reason edited : Option String) (start : Desk R) (p : Proposal)
    (found : get_proposal start id ≡ some p) (declarative : is_declarative p.kind ≡ true) where
  abbrev diff : String
  diff = Option.get_or edited p.diff_json

  abbrev step : Option String × R
  step = tools.apply_declarative p.kind diff actor.id start.applied

  abbrev Nothing : Desk R → Type 0
  Nothing s = Unit

  -- what the apply step leaves when it returns
  abbrev Stepped : Option String × Option String → Desk R → Type 0
  Stepped outcome s =
      (v : String) × (step.0 ≡ some v)
      × (outcome ≡ (some v, none))
      × (s ≡ record start { applied = step.1 })

  applies :
      Hoare
        (λ s. s ≡ start)
        (apply_with (tools.apply_declarative p.kind (Option.get_or edited p.diff_json) actor.id))
        (λ v s. (step.0 ≡ some v) × (s ≡ record start { applied = step.1 }))
        Nothing
  unfolding apply_with
  applies = record {
    run = λ s e.
        subst {A = Desk R}
          (λ t.
            Outcome (λ v u. (step.0 ≡ some v) × (u ≡ record start { applied = step.1 })) Nothing
              (require_some
                (tools.apply_declarative p.kind (Option.get_or edited p.diff_json) actor.id
                  t.applied).0
                apply_failed
                (record t {
                  applied =
                      (tools.apply_declarative p.kind (Option.get_or edited p.diff_json) actor.id
                        t.applied).1;
                })))
          (sym e) (from_start step.0 refl);
  }
    where
      from_start :
          (o : Option String)
          → step.0 ≡ o
          → Outcome
              (λ v s. (step.0 ≡ some v) × (s ≡ record start { applied = step.1 }))
              Nothing
              (require_some {E = ProposalError} o apply_failed (record start { applied = step.1 }))
      from_start none e = tt
      from_start (some v) e = (e, refl)

  steps :
      Hoare
        (λ s. s ≡ start)
        (apply_step tools require_dry_run p approved actor edited)
        Stepped
        Nothing
  unfolding apply_step
  steps = by_kind (is_declarative p.kind) declarative
    where
      by_kind :
          (b : Bool)
          → b ≡ true
          → Hoare
              (λ s. s ≡ start)
              (if b
                then (guard (not (require_dry_run && not (is_some p.dry_run_json))) no_dry_run
                    >> (apply_with (
                          tools.apply_declarative p.kind
                            (Option.get_or edited p.diff_json)
                            actor.id)
                        >>= λ version. pure (some version, none)))
                else (apply_with (tools.export_spec p (Option.get_or edited p.diff_json) actor.id)
                    >>= λ path. pure (none, some path)))
              Stepped
              Nothing
      by_kind false e = absurd (ground arith)
      by_kind true e =
          Hoare-bind
            (Hoare-weaken
              (Hoare-guard (not (require_dry_run && not (is_some p.dry_run_json))) no_dry_run
                (λ s h. tt))
              (λ u s h. h.0))
            λ u. Hoare-bind applies λ v. Hoare-pure (some v, none) λ s h. (v, h.0, refl, h.1)

  reads_edit :
      (change : Option String)
      → Hoare (λ s. s ≡ start) (check_edit tools p.kind approved change) (λ u s. s ≡ start) Nothing
  unfolding check_edit
  reads_edit none = Hoare-pure tt λ s h. h
  reads_edit (some d) =
      Hoare-bind
        (Hoare-weaken
          (Hoare-guard (decision_is approved approved) edit_without_approval (λ s h. tt))
          (λ u s h. h.0))
        λ u.
          Hoare-weaken (Hoare-guard (tools.is_valid_diff p.kind d) invalid_diff (λ s h. tt))
            (λ v s h. h.0)

  reads_verdict :
      Hoare
        (λ s. s ≡ start)
        (check_verdict actor approved reason)
        (λ u s. (s ≡ start) × (has_role actor Role.standard_approver ≡ true))
        Nothing
  unfolding check_verdict
  reads_verdict =
      Hoare-bind (Hoare-guard (has_role actor Role.standard_approver) not_an_approver (λ s h. tt))
        λ u.
          Hoare-weaken
            (Hoare-guard (not (decision_is approved rejected && not (is_given reason))) no_reason
              (λ s h. tt))
            (λ v s h. h.0)

  -- the row that an approval leaves
  abbrev Approved : Desk R → Type 0
  Approved s =
      (v : String) × (q : Proposal) × (step.0 ≡ some v)
      × (s.applied ≡ step.1)
      × (get_proposal s id ≡ some q)
      × (q.status ≡ approved)
      × (q.applied_version ≡ some v)

  named_and_pending :
      p.status ≡ pending_hitl → (named_id id p && decision_is p.status p.status) ≡ true
  unfolding get_proposal decision_is
  named_and_pending pending =
      ground (arith, pending, find_holds (named_id id) start.proposals p found)

  -- the row of `id` after the UPDATE
  row_after :
      (v : String)
      → p.status ≡ pending_hitl
      → get_proposal
          (write_decision now id p.status approved actor reason edited
            (some v)
            none
            (record start { applied = step.1 }))
          id
        ≡ some (decided_row now approved actor reason edited (some v) none p)
  unfolding get_proposal write_decision audit_decision decided_row decision_is
  row_after v pending =
      find-update (named_id id) (λ q. named_id id q && decision_is q.status p.status)
        (decided_row now approved actor reason edited (some v) none) start.proposals (λ q. refl)
      ∙ ap
          (Option.map (λ (q : Proposal).
            if named_id id q && decision_is q.status p.status
            then decided_row now approved actor reason edited (some v) none q
            else q))
          found
      ∙ ap
          (λ (b : Bool).
            some (if b then decided_row now approved actor reason edited (some v) none p else p))
          (named_and_pending pending)

  -- the UPDATE went through where `set_status` returned
  set_writes :
      (v : String) (s : Desk R)
      → (set_decision now id p.status approved actor reason edited (some v) none s).0 ≡ ok tt
      → (set_decision now id p.status approved actor reason edited (some v) none s).1
        ≡ write_decision now id p.status approved actor reason edited (some v) none s
  unfolding set_decision
  set_writes v s h = ground (arith, h)

  outcome_of :
      (r : Result ProposalError (Unit {0}) × Desk R)
      → (r.0 ≡ ok tt → Approved r.1)
      → Outcome (λ u s. Approved s) Nothing r
  outcome_of (ok tt, s) h = h refl
  outcome_of (err e, s) h = tt

  applied_kept :
      (v : String)
      → (write_decision now id p.status approved actor reason edited
          (some v)
          none
          (record start { applied = step.1 })).applied
        ≡ step.1
  unfolding write_decision audit_decision
  applied_kept v = refl

  status_set :
      (v : String)
      → (decided_row now approved actor reason edited (some v) none p).status ≡ approved
  unfolding decided_row
  status_set v = refl

  version_set :
      (v : String)
      → (decided_row now approved actor reason edited (some v) none p).applied_version ≡ some v
  unfolding decided_row
  version_set v = refl

  approved_after :
      (v : String)
      → p.status ≡ pending_hitl
      → step.0 ≡ some v
      → Approved (
          write_decision now id p.status approved actor reason edited
            (some v)
            none
            (record start { applied = step.1 }))
  approved_after v pending e = (
    v,
    decided_row now approved actor reason edited (some v) none p,
    e,
    applied_kept v,
    row_after v pending,
    status_set v,
    version_set v,
  )

  sets :
      (v : String)
      → p.status ≡ pending_hitl
      → step.0 ≡ some v
      → Hoare
          (λ s. s ≡ record start { applied = step.1 })
          (set_decision now id p.status approved actor reason edited (some v) none)
          (λ u s. Approved s)
          Nothing
  sets v pending e = record {
    run = λ s at.
        outcome_of (set_decision now id p.status approved actor reason edited (some v) none s)
          λ returned.
            subst {A = Desk R} Approved
              (sym (
                set_writes v s returned
                ∙ ap (write_decision now id p.status approved actor reason edited (some v) none)
                    at))
              (approved_after v pending e);
  }

  requires :
      (row : Option Proposal)
      → Hoare
          (λ s. (s ≡ start) × (row ≡ get_proposal s id))
          (require_some row no_such_proposal)
          (λ q s. (s ≡ start) × (q ≡ p))
          Nothing
  requires none = record { run = λ s h. tt }
  requires (some q) = record {
    run = λ s h.
        (h.0, Option.some-injective q p (h.1 ∙ ap (λ (t : Desk R). get_proposal t id) h.0 ∙ found));
  }

  -- `decide` behind the lookup of the row
  abbrev rest_of : Proposal → Exec (Desk R) ProposalError (Unit {0})
  rest_of q =
      guard (is_open_move q.status approved) no_transition
      >> (check_edit tools q.kind approved edited
          >> (check_verdict actor approved reason
              >> (apply_step tools require_dry_run q approved actor edited >>= λ outcome.
                  set_decision now id q.status approved actor reason edited outcome.0 outcome.1)))

  abbrev ByApprover : Desk R → Type 0
  ByApprover s = Approved s × (has_role actor Role.standard_approver ≡ true)

  finishes : Hoare (λ s. s ≡ start) (rest_of p) (λ u s. ByApprover s) Nothing
  finishes =
      Hoare-bind (Hoare-guard (is_open_move p.status approved) no_transition (λ s h. tt)) λ u.
        Hoare-fact λ (open_move : is_open_move p.status approved ≡ true).
          Hoare-bind (reads_edit edited) λ w. Hoare-bind reads_verdict λ x.
            Hoare-fact λ (approver : has_role actor Role.standard_approver ≡ true).
              Hoare-bind steps λ outcome. record {
                run = λ s h.
                    recorded outcome s (may_from_pending p.status approved open_move) approver h;
              }
    where
      recorded :
          (outcome : Option String × Option String) (s : Desk R)
          → p.status ≡ pending_hitl
          → has_role actor Role.standard_approver ≡ true
          → Stepped outcome s
          → Outcome
              (λ u t. ByApprover t)
              Nothing
              (set_decision now id p.status approved actor reason edited outcome.0 outcome.1 s)
      recorded outcome s pending approver (v, e, same, at) =
          subst {A = Option String × Option String}
            (λ o.
              Outcome (λ u t. ByApprover t) Nothing
                (set_decision now id p.status approved actor reason edited o.0 o.1 s))
            (sym same) ((Hoare-weaken (sets v pending e) (λ u t h. (h, approver))).run s at)

  decides :
      Hoare
        (λ s. s ≡ start)
        (decide_proposal tools require_dry_run now id approved actor reason edited)
        (λ u s. ByApprover s)
        Nothing
  unfolding decide_proposal
  decides = Hoare-bind (Hoare-gets (λ (s : Desk R). get_proposal s id)) λ row.
      Hoare-bind (requires row) λ q. Hoare-fact λ (same : q ≡ p).
        subst {A = Proposal} (λ x. Hoare (λ s. s ≡ start) (rest_of x) (λ u s. ByApprover s) Nothing)
          (sym same) finishes

  -- Of a proposal of a declarative kind, a decision to approve that returns was by a standard
  -- approver, and its registry write returned a version: what that write left is what stays, and the
  -- proposal's row is approved and names that version.
  pub approval_is_applied :
      (decide_proposal tools require_dry_run now id approved actor reason edited start).0 ≡ ok tt
      → ((v : String) × (q : Proposal) × ((tools.apply_declarative p.kind
              (Option.get_or edited p.diff_json)
              actor.id
              start.applied).0
            ≡ some v)
          × ((decide_proposal tools require_dry_run now id approved actor reason edited
                start).1.applied
              ≡ (tools.apply_declarative p.kind
                  (Option.get_or edited p.diff_json)
                  actor.id
                  start.applied).1)
          × (get_proposal
                (decide_proposal tools require_dry_run now id approved actor reason edited start).1
                id
              ≡ some q)
          × (q.status ≡ approved)
          × (q.applied_version ≡ some v))
        × (has_role actor Role.standard_approver ≡ true)
  approval_is_applied = Hoare-returns decides start refl tt
