-- ===== src/Guarantees/Audit.antt =====
-- The audit table of src/ap_store/store.py after any run of requests.
use analysis_package.Base.{◌≡◌, refl, none, List}
use analysis_package.Base.Table.{find}
use analysis_package.Store.Effects.{get_row}
use analysis_package.Store.Records.{Key}
use analysis_package.Changes.Statuses.{status_at}
use analysis_package.History.{replay, Chained, IsTold, Changes-IsTold}
use analysis_package.Requests.{Env, Request, run, run-Changes, empty_store}

empty_store-IsTold : IsTold empty_store
unfolding status_at replay Chained get_row find
empty_store-IsTold = record { statuses = λ j. refl; chained = λ j. tt }

-- From a new store, after any requests, whether they fail or not, replaying the audit table of any
-- package gives its live status, and each recorded move starts from the status where the move
-- recorded before it ended.
pub audit_tells_statuses :
    (env : Env) (requests : List Request) (j : Key)
    → (status_at (run env requests empty_store) j
        ≡ replay j none (run env requests empty_store).package_audit)
      × Chained j none (run env requests empty_store).package_audit
audit_tells_statuses env requests j =
    let told =
      Changes-IsTold env.rerun_gate env.policy (run-Changes env requests empty_store)
        empty_store-IsTold in
    (told.statuses j, told.chained j)
