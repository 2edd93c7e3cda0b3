-- ===== src/Registry/Immutable.antt =====
-- A version directory, once written, is never written again: src/ap_registry/profile_registry.py.
use mathlib.Core.Option
use analysis_package.Base.{
  String, ◌≡◌, refl, ap, sym, ◌∙◌, ◌⊎◌, true, false, Option, none, some, arith, Bool-cases, inl,
  inr, if◌then◌else◌, is_some, str_eq, str_eq_iff,
}
use analysis_package.Base.Table.{find}
use analysis_package.Base.Table.Laws.{find-append}
use analysis_package.Registry.{
  Files, Version, Profile, Registry, find_profile, versions_of, find_version, named_profile,
  named_version, make_dir, empty_profile, update_profile, add_version, is_taken, drop_cached,
}
use analysis_package.Registry.Loads.{store_entry}
use analysis_package.Registry.Effects.{
  Effects, set_pointer, add_row, find_profile-update, find_profile_named, versions-make_dir,
  find_version-update,
}

module _ (name version other added : String) (files : Files) where
  find-added_row :
      (o : Option Profile)
      → ((p : Profile) → o ≡ some p → p.name ≡ name)
      → (find (named_version version) (
            versions_of (
              Option.map
                (λ (p : Profile). if named_profile other p then add_version added files p else p)
                o))
          ≡ find (named_version version) (versions_of o))
        ⊎ (name ≡ other) × (version ≡ added)
  unfolding versions_of find
  find-added_row none named = inl refl
  find-added_row (some p) named = elim (Bool-cases (named_profile other p)) [
    | inr away ↦ inl (ground arith)
    | inl here ↦ elim (Bool-cases (str_eq added version)) [
      | inr away ↦ inl (ground arith)
      | inl same ↦ inr (
          (
            sym (named p refl) ∙ (str_eq_iff p.name other).0 here,
            sym ((str_eq_iff added version).0 same),
          ))
    ]
  ]

  -- a new version of one profile, read at any name and version
  pub find-add_version :
      (s : Registry)
      → (find_version name version (update_profile other (add_version added files) s)
          ≡ find_version name version s)
        ⊎ (name ≡ other) × (version ≡ added)
  unfolding find_version
  find-add_version s = elim (find-added_row (find_profile name s) (find_profile_named name s)) [
    | inl e ↦ inl (
        ap (λ o. find (named_version version) (versions_of o))
          (find_profile-update name other (add_version added files) s (λ p. refl))
        ∙ e)
    | inr same ↦ inr same
  ]

profile-make_dir :
    (name other : String) (s : Registry)
    → is_some (find_profile name s) ≡ true
    → is_some (find_profile name (make_dir other s)) ≡ true
unfolding find_profile make_dir
profile-make_dir name other s h =
    ground (arith, find-append (named_profile name) s.profiles (empty_profile other))

-- the profiles of `s` are in `t`, and its versions with the same files
pub record Extends (s t : Registry) : Type 0 where
  pub profiles_stay :
      (name : String) → is_some (find_profile name s) ≡ true → is_some (find_profile name t) ≡ true
  pub versions_stay :
      (name version : String) (x : Version)
      → find_version name version s ≡ some x
      → find_version name version t ≡ some x

pub Extends-make_dir : (other : String) (s : Registry) → Extends s (make_dir other s)
unfolding find_version
Extends-make_dir other s = record {
  profiles_stay = stays;
  versions_stay =
      λ name version x h. ap (find (named_version version)) (versions-make_dir name other s) ∙ h;
}
  where
    stays :
        (name : String)
        → is_some (find_profile name s) ≡ true
        → is_some (find_profile name (make_dir other s)) ≡ true
    stays name h = profile-make_dir name other s h

-- an UPDATE keeps the profiles
profile-update :
    (name other : String) (f : Profile → Profile) (s : Registry)
    → ((p : Profile) → (f p).name ≡ p.name)
    → is_some (find_profile name s) ≡ true
    → is_some (find_profile name (update_profile other f s)) ≡ true
profile-update name other f s named h =
    ap is_some (find_profile-update name other f s named) ∙ same (find_profile name s) ∙ h
  where
    same :
        (o : Option Profile)
        → is_some (Option.map (λ (p : Profile). if named_profile other p then f p else p) o)
          ≡ is_some o
    same none = refl
    same (some p) = refl

pub Extends-update :
    (other : String) (f : Profile → Profile) (s : Registry)
    → ((p : Profile) → (f p).name ≡ p.name)
    → ((p : Profile) → (f p).versions ≡ p.versions)
    → Extends s (update_profile other f s)
Extends-update other f s named keeps = record {
  profiles_stay = λ name h. profile-update name other f s named h;
  versions_stay = λ name version x h. find_version-update name other version f s named keeps ∙ h;
}

pub Extends-add_version :
    (other added : String) (files : Files) (s : Registry)
    → is_taken other added s ≡ false
    → Extends s (update_profile other (add_version added files) s)
unfolding is_taken
Extends-add_version other added files s free = record {
  profiles_stay = λ name h. profile-update name other (add_version added files) s (λ p. refl) h;
  versions_stay = stays;
}
  where
    stays :
        (name version : String) (x : Version)
        → find_version name version s ≡ some x
        → find_version name version (update_profile other (add_version added files) s) ≡ some x
    stays name version x h = elim (find-add_version name version other added files s) [
      | inl e ↦ e ∙ h
      | inr (n, v) ↦
          let known : is_some (find_version other added s) ≡ true =
            (ap (λ (m : String). is_some (find_version m added s)) (sym n)
              ∙ ap (λ (w : String). is_some (find_version name w s)) (sym v)
              ∙ ap is_some h) in
          absurd (ground (arith, known))
    ]

pub Extends-drop_cached : (other : String) (s : Registry) → Extends s (drop_cached other s)
unfolding drop_cached find_version find_profile
Extends-drop_cached other s = record {
  profiles_stay = λ name h. h;
  versions_stay = λ name version x h. h;
}

-- The files `x` of a version are there.
abbrev pub HasVersion : String → String → Version → Registry → Type 0
HasVersion name version x s = find_version name version s ≡ some x

pub HasVersion-Effects : (name version : String) (x : Version) → Effects (HasVersion name version x)
unfolding drop_cached find_version find_profile store_entry
HasVersion-Effects name version x = record {
  makes = λ other s h. (Extends-make_dir other s).versions_stay name version x h;
  adds = λ other added files s h free.
      (Extends-add_version other added files s free).versions_stay name version x h;
  points = λ other added s h there.
      (Extends-update other (set_pointer added) s (λ p. refl) (λ p. refl)).versions_stay name
        version x h;
  logs = λ other row s h.
      (Extends-update other (add_row row) s (λ p. refl) (λ p. refl)).versions_stay name version x h;
  drops = λ other s h. h;
  stores = λ other added filename place s h dir. h;
}
