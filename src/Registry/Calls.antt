-- ===== src/Registry/Calls.antt =====
-- Any writes and loads of profiles, in any order: src/ap_registry/profile_registry.py and
-- src/ap_gate/profiles.py.
use analysis_package.Base.{ℕ, String, ◌≡◌, Bool, Option, some, List, [], ◌∷◌}
use analysis_package.Base.Exec.Hoare.{Preserves-state}
use analysis_package.Base.Json.{Json}
use analysis_package.Registry.{
  Files, Version, Registry, find_version, seed_version, ensure_seeded, bump_version,
}
use analysis_package.Registry.Effects.{
  Effects, keeps-seed_version, keeps-ensure_seeded, keeps-bump_version,
}
use analysis_package.Registry.Loads.{load_profile_file}
use analysis_package.Registry.LoadEffects.{keeps-load_profile_file}
use analysis_package.Registry.Immutable.{HasVersion-Effects}

-- one call that writes, or a load for a manifest's profile
pub data RegistryCall : Type 0 where
  ensure : String → String → RegistryCall
  bump : String → String → List (String × Option Json) → String → Option String → RegistryCall
  scratch : String → String → Files → RegistryCall
  load : Bool → Bool → String → Json → RegistryCall

module _ (vendored : String → Option Files) where
  unfoldable pub registry_call : ℕ → RegistryCall → Registry → Registry
  registry_call now (RegistryCall.ensure name initial) s =
      (ensure_seeded vendored now name initial s).1
  registry_call now (RegistryCall.bump name version changes note actor) s =
      (bump_version vendored now name version changes note actor s).1
  registry_call now (RegistryCall.scratch name version files) s =
      (seed_version name version files s).1
  registry_call now (RegistryCall.load has_registry fail_closed filename profile) s =
      (load_profile_file vendored has_registry fail_closed filename profile s).1

  unfoldable pub registry_calls : List (ℕ × RegistryCall) → Registry → Registry
  registry_calls [] s = s
  registry_calls ((now, call) ∷ calls) s = registry_calls calls (registry_call now call s)

  keeps-registry_call :
      (P : Registry → Type 0)
      → Effects P
      → (now : ℕ) (call : RegistryCall) (s : Registry) → P s
      → P (registry_call now call s)
  unfolding registry_call
  keeps-registry_call P effects now (RegistryCall.ensure name initial) s =
      Preserves-state (keeps-ensure_seeded P effects vendored now name initial) s
  keeps-registry_call P effects now (RegistryCall.bump name version changes note actor) s =
      Preserves-state (keeps-bump_version P effects vendored now name version changes note actor) s
  keeps-registry_call P effects now (RegistryCall.scratch name version files) s =
      Preserves-state (keeps-seed_version P effects name version files) s
  keeps-registry_call P effects now (RegistryCall.load has_registry fail_closed filename profile)
        s =
      Preserves-state
        (keeps-load_profile_file P effects vendored has_registry fail_closed filename profile) s

  -- What each effect of a write keeps, any calls keep.
  pub keeps-registry_calls :
      (P : Registry → Type 0)
      → Effects P
      → (calls : List (ℕ × RegistryCall)) (s : Registry) → P s
      → P (registry_calls calls s)
  unfolding registry_calls
  keeps-registry_calls P effects [] s h = h
  keeps-registry_calls P effects ((now, call) ∷ calls) s h =
      keeps-registry_calls P effects calls (registry_call now call s)
        (keeps-registry_call P effects now call s h)

  -- A version directory that exists keeps exactly its files, whatever calls of the registry follow,
  -- whether they return or raise.
  pub written_version_stays :
      (calls : List (ℕ × RegistryCall)) (s : Registry) (name version : String) (x : Version)
      → find_version name version s ≡ some x
      → find_version name version (registry_calls calls s) ≡ some x
  written_version_stays calls s name version x =
      keeps-registry_calls _ (HasVersion-Effects name version x) calls s
