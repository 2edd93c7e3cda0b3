-- ===== src/Lifecycle.antt =====
-- The package lifecycle workflow, src/ap_lifecycle/workflow.py. `LifecyclePolicy` has no field.
use analysis_package.Base.{ℕ, String, Bool, true, false, ◌&&◌, ◌||◌, not, Option, none, some}
use analysis_package.Base.Exec.{pure, gets, require_some, guard, ◌>>=◌, ◌>>◌}
use analysis_package.Base.Text.{is_given}
use analysis_package.Identity.{Role, Identity, has_role}
use analysis_package.Store.Records.{
  Key, Status, approved, superseded, recalled, PackageRow, key_is, status_is,
}
use analysis_package.Base.Int.{ℤ}
use analysis_package.Store.Methods
use analysis_package.Store.Settings
use analysis_package.Store.Methods.{
  M, no_such_package, lifecycle_policy, bad_transition, no_reviewer, supersedes_itself,
  bad_successor, needs_reason, not_restorable, no_admin, is_approved, is_held, get, set_status,
  link_replaces,
}

-- `(from_status, to_status) in TRANSITIONS`
unfoldable pub is_transition : Status → Status → Bool
is_transition approved superseded = true
is_transition approved recalled = true
is_transition recalled approved = true
is_transition superseded approved = true
is_transition _ _ = false

-- `_require`
unfoldable pub require : Key → M PackageRow
require k = do found ← gets (get k); require_some found no_such_package

-- `_require_reviewer_or_admin`
unfoldable pub reviewer_or_admin : Identity → Bool
reviewer_or_admin actor = has_role actor Role.reviewer || has_role actor Role.admin

-- `successor is None or successor.status != "approved"`, negated
unfoldable pub good_successor : Option PackageRow → Bool
good_successor none = false
good_successor (some row) = status_is row.status approved

unfoldable pub supersede : ℕ → Key → Key → Identity → Option String → M PackageRow
supersede now k successor actor reason = do
  row ← require k
  guard (is_transition row.status superseded) (lifecycle_policy bad_transition)
  guard (reviewer_or_admin actor) (lifecycle_policy no_reviewer)
  guard (not (key_is successor k)) (lifecycle_policy supersedes_itself)
  found ← gets (get successor)
  guard (good_successor found) (lifecycle_policy bad_successor)
  updated ← set_status now k approved superseded actor reason
  link_replaces now successor k actor
  pure updated

unfoldable pub recall : ℕ → Key → Identity → Option String → M PackageRow
recall now k actor reason = do
  row ← require k
  guard (is_transition row.status recalled) (lifecycle_policy bad_transition)
  guard (reviewer_or_admin actor) (lifecycle_policy no_reviewer)
  guard (is_given reason) (lifecycle_policy needs_reason)
  set_status now k approved recalled actor reason

unfoldable pub restore : ℕ → Key → Identity → Option String → M PackageRow
restore now k actor reason = do
  row ← require k
  guard (status_is row.status recalled || status_is row.status superseded)
      (lifecycle_policy not_restorable)
  guard (has_role actor Role.admin) (lifecycle_policy no_admin)
  set_status now k row.status approved actor reason

unfoldable pub set_legal_hold : ℕ → Key → Bool → Option String → Identity → M PackageRow
set_legal_hold now k hold reason actor = do
  require k
  guard (has_role actor Role.admin) (lifecycle_policy no_admin)
  guard (not (hold && not (is_given reason))) (lifecycle_policy needs_reason)
  Methods.set_legal_hold now k hold reason actor

unfoldable pub set_retention_days : (ℕ → String) → ℕ → ℤ → Identity → M (Unit {0})
set_retention_days str_of now days actor = do
  guard (has_role actor Role.admin) (lifecycle_policy no_admin)
  Settings.set_retention_days str_of now days actor

unfoldable pub purge : ℕ → Key → Identity → Option String → M PackageRow
purge now k actor reason = do
  row ← require k
  guard (has_role actor Role.admin) (lifecycle_policy no_admin)
  guard (not (status_is row.status approved)) (lifecycle_policy is_approved)
  guard (not row.legal_hold) (lifecycle_policy is_held)
  Methods.purge now k actor reason
