-- ===== src/Review.antt =====
-- The package review workflow, src/ap_review: policy.py and workflow.py.
use analysis_package.Base.{
  ℕ, String, Bool, true, false, ◌&&◌, not, Option, some, opt_eq, is_some, if◌then◌else◌,
}
use analysis_package.Base.Exec.{pure, raise, gets, require_some, guard, ◌>>=◌, ◌>>◌}
use analysis_package.Base.Text.{is_given}
use analysis_package.Identity.{Role, Identity, has_role}
use analysis_package.Store.Records.{
  Key, Status, draft, in_review, approved, rejected, Overall, passes, PackageRow, Bytes,
}
use analysis_package.Store.Methods.{
  M, no_such_package, review_policy, not_a_transition, not_an_analyst, gate_fails, not_a_reviewer,
  self_review, no_reason, not_the_owner, get, extract, set_status,
}

pub record ReviewPolicy : Type 0 where
  pub gate_before_review : Bool
  pub allow_self_review : Bool

-- the defaults of the dataclass
abbrev pub default_policy : ReviewPolicy
default_policy = record { gate_before_review = true; allow_self_review = false }

-- `(from_status, to_status) in TRANSITIONS`
unfoldable pub is_transition : Status → Status → Bool
is_transition draft in_review = true
is_transition in_review approved = true
is_transition in_review rejected = true
is_transition in_review draft = true
is_transition rejected draft = true
is_transition _ _ = false

module _ (rerun_gate : Bytes → Overall) (policy : ReviewPolicy) where
  -- `_check_submit`. `rerun_gate` is `load_manifest`, `run_all` and `build_report` on the extracted
  -- bytes (`_rerun_gate`), as one function of the bytes.
  unfoldable pub check_submit : PackageRow → Identity → M (Unit {0})
  check_submit row actor = do
    guard (has_role actor Role.analyst) (review_policy not_an_analyst)
    if policy.gate_before_review
        then (do
          bytes ← extract row.key
          guard (passes (rerun_gate bytes)) (review_policy gate_fails))
        else pure tt

  -- `_check_decide`
  unfoldable pub check_decide : PackageRow → Identity → Bool → Option String → M (Unit {0})
  check_decide row actor rejecting reason = do
    guard (has_role actor Role.reviewer) (review_policy not_a_reviewer)
    guard
        (not (
          not policy.allow_self_review
          && not (has_role actor Role.admin)
          && is_some row.analyst_id
          && opt_eq (some actor.id) row.analyst_id))
        (review_policy self_review)
    guard (not (rejecting && not (is_given reason))) (review_policy no_reason)

  -- `_check_pullback`
  unfoldable pub check_pullback : PackageRow → Identity → M (Unit {0})
  check_pullback row actor =
      if has_role actor Role.admin
      then pure tt
      else if is_some row.analyst_id && opt_eq (some actor.id) row.analyst_id
      then pure tt
      else raise (review_policy not_the_owner)

  -- the `if`/`elif` on `to_status` in `transition`
  unfoldable pub check_transition : Status → PackageRow → Identity → Option String → M (Unit {0})
  check_transition in_review row actor reason = check_submit row actor
  check_transition approved row actor reason = check_decide row actor false reason
  check_transition rejected row actor reason = check_decide row actor true reason
  check_transition draft row actor reason = check_pullback row actor
  check_transition _ row actor reason = pure tt

  -- `ReviewWorkflow.transition`
  unfoldable pub transition : ℕ → Key → Status → Identity → Option String → M PackageRow
  transition now k to actor reason = do
    found ← gets (get k)
    row ← require_some found no_such_package
    guard (is_transition row.status to) (review_policy not_a_transition)
    check_transition to row actor reason
    set_status now k row.status to actor reason
