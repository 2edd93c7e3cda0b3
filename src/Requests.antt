-- ===== src/Requests.antt =====
-- A client's requests to the package store, as the routes of src/ap_api/app.py and
-- src/ap_api/lifecycle_routes.py make them, and a run of any number of them. A request that raises
-- leaves behind what its method had committed.
use analysis_package.Base.{ℕ, String, Bool, Option, List, [], ◌∷◌}
use analysis_package.Base.Int.{ℤ}
use analysis_package.Identity.{Identity}
use analysis_package.Store.Records.{Key, Status, Overall, Bytes, Store}
use analysis_package.Store.Methods
use analysis_package.Store.Methods.{PackageDir}
use analysis_package.Review.{ReviewPolicy, transition}
use analysis_package.Lifecycle
use analysis_package.Changes.{Changes, done, Changes-one, Changes-trans}
use analysis_package.Changes.ByStore.{publish-Change}
use analysis_package.Changes.ByReview.{transition-Change}
use analysis_package.Changes.BySettings.{set_retention_days-Change}
use analysis_package.Changes.ByLifecycle.{
  supersede-Changes, recall-Change, restore-Change, set_legal_hold-Change, purge-Change,
}

-- what the store and the workflows rely on and do not implement: sha256, the gate on extracted
-- bytes, the deployment's policy, and `str(n)`
pub record Env : Type 0 where
  pub blob_sha256 : Bytes → String
  pub rerun_gate : Bytes → Overall
  pub policy : ReviewPolicy
  pub str_of : ℕ → String

pub data Action : Type 0 where
  publish : PackageDir → Option Overall → Action
  review : Key → Status → Option String → Action
  supersede : Key → Key → Option String → Action
  recall : Key → Option String → Action
  restore : Key → Option String → Action
  legal_hold : Key → Bool → Option String → Action
  purge : Key → Option String → Action
  retention : ℤ → Action

pub record Request : Type 0 where
  pub now : ℕ
  pub actor : Identity
  pub action : Action

module _ (env : Env) where
  -- the store after one request
  unfoldable pub perform : ℕ → Identity → Action → Store → Store
  perform now actor (Action.publish dir gate_report) s =
      (Methods.publish env.blob_sha256 now dir actor gate_report s).1
  perform now actor (Action.review k to reason) s =
      (transition env.rerun_gate env.policy now k to actor reason s).1
  perform now actor (Action.supersede k successor reason) s =
      (Lifecycle.supersede now k successor actor reason s).1
  perform now actor (Action.recall k reason) s = (Lifecycle.recall now k actor reason s).1
  perform now actor (Action.restore k reason) s = (Lifecycle.restore now k actor reason s).1
  perform now actor (Action.legal_hold k hold reason) s =
      (Lifecycle.set_legal_hold now k hold reason actor s).1
  perform now actor (Action.purge k reason) s = (Lifecycle.purge now k actor reason s).1
  perform now actor (Action.retention days) s =
      (Lifecycle.set_retention_days env.str_of now days actor s).1

  unfoldable pub run : List Request → Store → Store
  run [] s = s
  run (q ∷ rest) s = run rest (perform q.now q.actor q.action s)

  -- Whatever the request, the store goes through changes of the abstract machine.
  pub perform-Changes :
      (now : ℕ) (actor : Identity) (a : Action) (s : Store)
      → Changes env.rerun_gate env.policy s (perform now actor a s)
  unfolding perform
  perform-Changes now actor (Action.publish dir gate_report) s =
      Changes-one _ _
        (publish-Change env.rerun_gate env.policy env.blob_sha256 now dir actor gate_report s)
  perform-Changes now actor (Action.review k to reason) s =
      Changes-one _ _ (transition-Change env.rerun_gate env.policy now k to actor reason s)
  perform-Changes now actor (Action.supersede k successor reason) s =
      supersede-Changes env.rerun_gate env.policy now k actor reason s successor
  perform-Changes now actor (Action.recall k reason) s =
      Changes-one _ _ (recall-Change env.rerun_gate env.policy now k actor reason s)
  perform-Changes now actor (Action.restore k reason) s =
      Changes-one _ _ (restore-Change env.rerun_gate env.policy now k actor reason s)
  perform-Changes now actor (Action.legal_hold k hold reason) s =
      Changes-one _ _ (set_legal_hold-Change env.rerun_gate env.policy now k actor reason s hold)
  perform-Changes now actor (Action.purge k reason) s =
      Changes-one _ _ (purge-Change env.rerun_gate env.policy now k actor reason s)
  perform-Changes now actor (Action.retention days) s =
      Changes-one _ _ {k = record { package_id = ""; package_version = "" }}
        (set_retention_days-Change env.rerun_gate env.policy env.str_of now _ actor s days)

  -- A run of requests of any kind, valid or not, is a walk of the abstract machine.
  pub run-Changes :
      (requests : List Request) (s : Store) → Changes env.rerun_gate env.policy s (run requests s)
  unfolding run
  run-Changes [] s = done
  run-Changes (q ∷ rest) s =
      Changes-trans _ _ (perform-Changes q.now q.actor q.action s)
        (run-Changes rest (perform q.now q.actor q.action s))

-- a store that was just created
abbrev pub empty_store : Store
empty_store = record {
  packages = [];
  package_audit = [];
  settings = [];
  settings_audit = [];
  blobs = [];
  sidecars = [];
}
