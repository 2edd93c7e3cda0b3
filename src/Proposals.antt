-- ===== src/Proposals.antt =====
-- The proposals: src/ap_proposals/store.py and `decide` and `record_dry_run` of
-- src/ap_proposals/workflow.py. A diff, its evidence and a dry run are their JSON texts. The schemas
-- of the diffs, the dry run, and the two ways to apply an approved diff are parameters.
pub mod Final
pub mod Apply
pub mod Changed
pub mod Applied
pub mod Approval
use mathlib.Core.Option
use analysis_package.Base.{
  ℕ, String, ◌==◌, Bool, true, false, not, ◌&&◌, ◌||◌, Option, none, some, List, [], ◌∷◌, ◌++◌,
  str_eq, is_some, if◌then◌else◌,
}
use analysis_package.Base.Exec.{
  Result, ok, err, Exec, pure, raise, gets, require_some, guard, modify, transaction, ◌>>=◌, ◌>>◌,
}
use analysis_package.Base.Table.{find, count_where, update_where, or_else}
use analysis_package.Base.Text.{has_text, is_given}
use analysis_package.Identity.{Role, RoleSet, Identity, has_role}

pub data Decision : Type 0 where
  pending_hitl approved rejected withdrawn : Decision

pub data ProposalKind : Type 0 where
  standard_change profile_change reason_code_add check_add : ProposalKind

-- `record.kind in DECLARATIVE_KINDS`
unfoldable pub is_declarative : ProposalKind → Bool
is_declarative profile_change = true
is_declarative reason_code_add = true
is_declarative _ = false

pub record Proposal : Type 0 where
  pub proposal_id : String
  pub created_at : ℕ
  pub kind : ProposalKind
  pub summary : String
  pub rationale : String
  pub diff_json : String
  pub evidence_json : String
  pub status : Decision
  pub created_by_id : String
  pub created_by_roles : RoleSet
  pub decided_by_id : Option String
  pub decided_at : Option ℕ
  pub decision_reason : Option String
  pub edited_diff_json : Option String
  pub dry_run_json : Option String
  pub applied_version : Option String
  pub applied_at : Option ℕ
  pub spec_artifact_path : Option String

pub record ProposalAudit : Type 0 where
  pub proposal_id : String
  pub from_status : Option Decision
  pub to_status : Decision
  pub actor_id : String
  pub actor_roles : RoleSet
  pub reason : Option String
  pub ts : ℕ

-- the two tables, and what approvals write outside them: the profile registry and the exported specs
pub record Desk (R : Type 0) : Type 0 where
  pub proposals : List Proposal
  pub proposal_audit : List ProposalAudit
  pub applied : R

pub data ProposalError : Type 0 where
  invalid_diff empty_summary empty_rationale no_such_proposal stale_decision : ProposalError
  no_transition edit_without_approval not_an_approver no_reason no_dry_run code_kind : ProposalError
  apply_failed dry_run_failed id_taken : ProposalError

unfoldable pub decision_is : Decision → Decision → Bool
decision_is pending_hitl pending_hitl = true
decision_is approved approved = true
decision_is rejected rejected = true
decision_is withdrawn withdrawn = true
decision_is _ _ = false

-- what the store and the workflow rely on: `validate_diff`, `apply_declarative`, `export_spec`,
-- `run_dry_run`. What an apply step that fails wrote before it failed stays.
pub record Tools (R : Type 0) : Type 0 where
  pub is_valid_diff : ProposalKind → String → Bool
  pub apply_declarative : ProposalKind → String → String → R → Option String × R
  pub export_spec : Proposal → String → String → R → Option String × R
  pub run_dry_run : ProposalKind → String → R → Option String

abbrev pub named_id : String → Proposal → Bool
named_id id p = str_eq p.proposal_id id

-- the row that `create` inserts; `id` is what `_new_proposal_id()` returned
unfoldable pub new_proposal :
    ℕ → String → ProposalKind → String → String → String → String → Identity → Proposal
new_proposal now id kind summary rationale diff evidence actor = record {
  proposal_id = id;
  created_at = now;
  kind = kind;
  summary = summary;
  rationale = rationale;
  diff_json = diff;
  evidence_json = evidence;
  status = pending_hitl;
  created_by_id = actor.id;
  created_by_roles = actor.roles;
  decided_by_id = none;
  decided_at = none;
  decision_reason = none;
  edited_diff_json = none;
  dry_run_json = none;
  applied_version = none;
  applied_at = none;
  spec_artifact_path = none;
}

-- `to_status in ("approved", "rejected")`
abbrev pub is_verdict : Decision → Bool
is_verdict approved = true
is_verdict rejected = true
is_verdict _ = false

-- the row that the UPDATE of `set_status` leaves; COALESCE keeps what was there
unfoldable pub decided_row :
    ℕ
    → Decision
    → Identity
    → Option String
    → Option String
    → Option String
    → Option String
    → Proposal
    → Proposal
decided_row now to actor reason edited applied spec p = record p {
  status = to;
  decided_by_id = if is_verdict to then some actor.id else p.decided_by_id;
  decided_at = if is_verdict to then some now else p.decided_at;
  decision_reason = or_else reason p.decision_reason;
  edited_diff_json = or_else edited p.edited_diff_json;
  applied_version = or_else applied p.applied_version;
  applied_at = if is_given_version applied then some now else p.applied_at;
  spec_artifact_path = or_else spec p.spec_artifact_path;
}
  where
    is_given_version : Option String → Bool
    is_given_version none = false
    is_given_version (some v) = not (str_eq v "")

-- `(from_status, to_status) in TRANSITIONS`
unfoldable pub is_open_move : Decision → Decision → Bool
is_open_move pending_hitl approved = true
is_open_move pending_hitl rejected = true
is_open_move pending_hitl withdrawn = true
is_open_move _ _ = false

module _ {R : Type 0} where
  -- `_get_row`
  unfoldable pub get_proposal : Desk R → String → Option Proposal
  get_proposal s id = find (named_id id) s.proposals

  unfoldable pub audit_decision :
      ℕ → String → Option Decision → Decision → Identity → Option String → Desk R → Desk R
  audit_decision now id from to actor reason s = record s {
    proposal_audit =
        s.proposal_audit
        ++ record {
          proposal_id = id;
          from_status = from;
          to_status = to;
          actor_id = actor.id;
          actor_roles = actor.roles;
          reason = reason;
          ts = now;
        }
          ∷ [];
  }

  unfoldable pub insert_proposal : ℕ → Identity → Proposal → Desk R → Desk R
  insert_proposal now actor p s =
      audit_decision now p.proposal_id none p.status actor (some "created")
        (record s { proposals = s.proposals ++ p ∷ [] })

  -- the UPDATE of `set_status` and its audit row
  unfoldable pub write_decision :
      ℕ
      → String
      → Decision
      → Decision
      → Identity
      → Option String
      → Option String
      → Option String
      → Option String
      → Desk R
      → Desk R
  write_decision now id from to actor reason edited applied spec s =
      audit_decision now id (some from) to actor reason (record s {
        proposals =
            update_where (λ p. named_id id p && decision_is p.status from)
              (decided_row now to actor reason edited applied spec) s.proposals;
      })

  -- `ProposalStore.set_status`
  unfoldable pub set_decision :
      ℕ
      → String
      → Decision
      → Decision
      → Identity
      → Option String
      → Option String
      → Option String
      → Option String
      → Exec (Desk R) ProposalError (Unit {0})
  set_decision now id from to actor reason edited applied spec = transaction (do
    rowcount ← gets (λ s. count_where (λ p. named_id id p && decision_is p.status from) s.proposals)
    current ← gets (λ s. get_proposal s id)
    if rowcount == 0
        then elim current [ none ↦ raise no_such_proposal | some p ↦ raise stale_decision ]
        else modify (write_decision now id from to actor reason edited applied spec))

  -- `_check_decide`, where `decide` calls it
  unfoldable pub check_verdict :
      Identity → Decision → Option String → Exec (Desk R) ProposalError (Unit {0})
  check_verdict actor to reason =
      if is_verdict to
      then (do
        guard (has_role actor Role.standard_approver) not_an_approver
        guard (not (decision_is to rejected && not (is_given reason))) no_reason)
      else pure tt

  -- an apply step: what it returns, or `ProposalApplyError`
  unfoldable pub apply_with : (R → Option String × R) → Exec (Desk R) ProposalError String
  apply_with step s =
      let (result, applied) = step s.applied in
      require_some result apply_failed (record s { applied = applied })

module _ {R : Type 0} (tools : Tools R) where
  unfoldable pub create_proposal :
      ℕ
      → String
      → ProposalKind
      → String
      → String
      → String
      → String
      → Identity
      → Exec (Desk R) ProposalError (Unit {0})
  create_proposal now id kind summary rationale diff evidence actor = do
    guard (tools.is_valid_diff kind diff) invalid_diff
    guard (has_text summary) empty_summary
    guard (has_text rationale) empty_rationale
    taken ← gets (λ s. get_proposal s id)
    guard (not (is_some taken)) id_taken
    modify
        (insert_proposal now actor (new_proposal now id kind summary rationale diff evidence actor))

  -- the `if edited_diff is not None` of `decide`
  unfoldable pub check_edit :
      ProposalKind → Decision → Option String → Exec (Desk R) ProposalError (Unit {0})
  check_edit kind to none = pure tt
  check_edit kind to (some diff) = do
    guard (decision_is to approved) edit_without_approval
    guard (tools.is_valid_diff kind diff) invalid_diff

  -- the `if to_status == "approved"` of `decide`: `applied_version` and `spec_artifact_path`
  unfoldable pub apply_step :
      Bool
      → Proposal
      → Decision
      → Identity
      → Option String
      → Exec (Desk R) ProposalError (Option String × Option String)
  apply_step require_dry_run p approved actor edited =
      let diff = Option.get_or edited p.diff_json in
      if is_declarative p.kind
      then (do
        guard (not (require_dry_run && not (is_some p.dry_run_json))) no_dry_run
        version ← apply_with (tools.apply_declarative p.kind diff actor.id)
        pure (some version, none))
      else (do path ← apply_with (tools.export_spec p diff actor.id); pure (none, some path))
  apply_step require_dry_run p _ actor edited = pure (none, none)

  -- `ProposalWorkflow.decide`, with the policy's `require_dry_run_for_declarative`
  unfoldable pub decide_proposal :
      Bool
      → ℕ
      → String
      → Decision
      → Identity
      → Option String
      → Option String
      → Exec (Desk R) ProposalError (Unit {0})
  decide_proposal require_dry_run now id to actor reason edited = do
    found ← gets (λ s. get_proposal s id)
    p ← require_some found no_such_proposal
    guard (is_open_move p.status to) no_transition
    check_edit p.kind to edited
    check_verdict actor to reason
    outcome ← apply_step require_dry_run p to actor edited
    set_decision now id p.status to actor reason edited outcome.0 outcome.1

  -- `ProposalWorkflow.record_dry_run` and `ProposalStore.record_dry_run`
  unfoldable pub record_dry_run : String → Option String → Exec (Desk R) ProposalError (Unit {0})
  record_dry_run id edited = do
    found ← gets (λ s. get_proposal s id)
    p ← require_some found no_such_proposal
    guard (is_declarative p.kind) code_kind
    dry_run ← gets (λ s. tools.run_dry_run p.kind (Option.get_or edited p.diff_json) s.applied)
    result ← require_some dry_run dry_run_failed
    modify (λ s. record s {
      proposals =
          update_where (named_id id) (λ q. record q { dry_run_json = some result }) s.proposals;
    })
