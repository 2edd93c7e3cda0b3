-- ===== src/Changes/BySettings.antt =====
-- The methods on settings change no package.
use analysis_package.Base.{ℕ, String, refl, Bool-cases, inl, inr}
use analysis_package.Base.Int.{ℤ, pos, negsuc}
use analysis_package.Identity.{Role, Identity, has_role}
use analysis_package.Store.Records.{Key, Overall, Bytes, Store}
use analysis_package.Store.Settings
use analysis_package.Store.Settings.{write_setting, set_setting}
use analysis_package.Lifecycle.{set_retention_days}
use analysis_package.Review.{ReviewPolicy}
use analysis_package.Changes.{Change, same, configured}

module _ (rerun_gate : Bytes → Overall) (policy : ReviewPolicy) (str_of : ℕ → String) (now : ℕ)
    (k : Key) (actor : Identity) (s : Store) where
  by_store :
      (days : ℤ)
      → Change rerun_gate policy k s (Settings.set_retention_days str_of now days actor s).1
  unfolding Settings.set_retention_days set_setting write_setting
  by_store (negsuc n) = same refl
  by_store (pos n) = configured _ _ refl

  -- Setting the retention marker touches the settings alone.
  pub set_retention_days-Change :
      (days : ℤ) → Change rerun_gate policy k s (set_retention_days str_of now days actor s).1
  unfolding set_retention_days
  set_retention_days-Change days = elim (Bool-cases (has_role actor Role.admin)) [
    | inl yes_admin ↦ rw yes_admin (by_store days)
    | inr not_admin ↦ rw not_admin (same refl)
  ]
