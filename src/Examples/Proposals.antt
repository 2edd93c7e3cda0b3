-- ===== src/Examples/Proposals.antt =====
-- A run of the proposals at a concrete input.
use analysis_package.Base.{ℕ, String, ◌≡◌, refl, true, none, some, List, [], ◌∷◌, str_eq}
use analysis_package.Base.Table.{find, count_where}
use analysis_package.Base.Exec.{ok}
use analysis_package.Identity.{Role, no_roles, Identity, has_role, role_in}
use analysis_package.Proposals.{
  pending_hitl, approved, rejected, profile_change, Proposal, Desk, Tools, get_proposal,
  decide_proposal, is_open_move, check_edit, check_verdict, apply_step, apply_with, is_declarative,
  set_decision, decision_is,
}
use analysis_package.Proposals.Approval.{approval_is_applied}
use analysis_package.Proposals.Final.{DeskCall, run_calls, decided_is_final}

-- a registry that counts its versions
abbrev counting : Tools ℕ
counting = record {
  is_valid_diff = λ kind diff. true;
  apply_declarative = λ kind diff actor n. (some "0.2", 1);
  export_spec = λ p diff actor n. (some "spec.md", n);
  run_dry_run = λ kind diff n. some "{}";
}

abbrev approver : Identity
approver = record { id = "sam"; roles = record no_roles { standard_approver = true } }

abbrev turned_down : Proposal
turned_down = record {
  proposal_id = "prop_1";
  created_at = 1;
  kind = profile_change;
  summary = "s";
  rationale = "r";
  diff_json = "{}";
  evidence_json = "{}";
  status = rejected;
  created_by_id = "bot";
  created_by_roles = no_roles;
  decided_by_id = some "sam";
  decided_at = some 2;
  decision_reason = some "no";
  edited_diff_json = none;
  dry_run_json = none;
  applied_version = none;
  applied_at = none;
  spec_artifact_path = none;
}

abbrev desk : Desk ℕ
desk = record { proposals = turned_down ∷ []; proposal_audit = []; applied = 0 }

abbrev calls : List (ℕ × Identity × DeskCall)
calls =
    (3, approver, DeskCall.dry_run "prop_1" none)
    ∷ (4, approver, DeskCall.decide "prop_1" approved none none)
    ∷ []

desk_reads : get_proposal desk "prop_1" ≡ some turned_down
unfolding get_proposal find str_eq
desk_reads = refl

decided_is_final_example :
    (q' : Proposal) × (get_proposal (run_calls counting true calls desk) "prop_1" ≡ some q')
    × (q' ≡ record turned_down { dry_run_json = q'.dry_run_json })
decided_is_final_example =
    decided_is_final counting true "prop_1" calls desk turned_down desk_reads (λ e. cc)

abbrev waiting : Proposal
waiting = record turned_down {
  status = pending_hitl;
  decided_by_id = none;
  decided_at = none;
  decision_reason = none;
  dry_run_json = some "{}";
}

abbrev waiting_desk : Desk ℕ
waiting_desk = record { proposals = waiting ∷ []; proposal_audit = []; applied = 0 }

waiting_reads : get_proposal waiting_desk "prop_1" ≡ some waiting
unfolding get_proposal find str_eq
waiting_reads = refl

waiting_declarative : is_declarative waiting.kind ≡ true
unfolding is_declarative
waiting_declarative = refl

approves :
    (decide_proposal counting true 5 "prop_1" approved approver none none waiting_desk).0 ≡ ok tt
unfolding decide_proposal get_proposal find str_eq is_open_move check_edit check_verdict has_role
    role_in apply_step apply_with is_declarative set_decision count_where decision_is
approves = refl

approval_is_applied_example :
    ((v : String) × (q : Proposal) × ((counting.apply_declarative profile_change "{}" "sam" 0).0
        ≡ some v)
      × ((decide_proposal counting true 5 "prop_1" approved approver none none
            waiting_desk).1.applied
          ≡ (counting.apply_declarative profile_change "{}" "sam" 0).1)
      × (get_proposal
            (decide_proposal counting true 5 "prop_1" approved approver none none waiting_desk).1
            "prop_1"
          ≡ some q)
      × (q.status ≡ approved)
      × (q.applied_version ≡ some v))
    × (has_role approver Role.standard_approver ≡ true)
approval_is_applied_example =
    approval_is_applied counting true 5 "prop_1" approver none none waiting_desk waiting
      waiting_reads waiting_declarative approves
