-- ===== src/Registry/Pointer.antt =====
-- The pointer of a profile names a version that is there: src/ap_registry/profile_registry.py.
use mathlib.Core.Path.{subst}
use mathlib.Core.Option
use analysis_package.Base.{
  ℕ, String, ◌≡◌, refl, ap, sym, ◌∙◌, ◌⊎◌, true, Option, none, some, List, arith, Bool-cases,
  Option-cases, inl, inr, if◌then◌else◌, is_some, str_eq_iff,
}
use analysis_package.Base.Table.{find}
use analysis_package.Base.Table.Laws.{find-append}
use analysis_package.Registry.{
  Files, Profile, Registry, find_profile, find_version, named_profile, make_dir, empty_profile,
  empty_registry, update_profile, add_version, drop_cached, pointer, pointer_of,
}
use analysis_package.Registry.Calls.{RegistryCall, registry_calls, keeps-registry_calls}
use analysis_package.Registry.Effects.{
  Effects, IsThere, set_pointer, add_row, find_profile-update, find_profile_named,
}
use analysis_package.Registry.Immutable.{
  Extends, Extends-make_dir, Extends-update, Extends-add_version,
}
use analysis_package.Registry.Loads.{store_entry}

-- every pointer names a version of its profile
abbrev pub PointsToVersion : Registry → Type 0
PointsToVersion s = (name version : String) → pointer name s ≡ some version → IsThere name version s

pub pointer-make_dir :
    (name other : String) (s : Registry) → pointer name (make_dir other s) ≡ pointer name s
unfolding pointer pointer_of find_profile make_dir
pointer-make_dir name other s =
    ground (arith, find-append (named_profile name) s.profiles (empty_profile other))

pub pointer-update :
    (name other : String) (f : Profile → Profile) (s : Registry)
    → ((p : Profile) → (f p).name ≡ p.name)
    → ((p : Profile) → (f p).pointer ≡ p.pointer)
    → pointer name (update_profile other f s) ≡ pointer name s
unfolding pointer pointer_of
pointer-update name other f s named keeps =
    ap pointer_of (find_profile-update name other f s named) ∙ same (find_profile name s)
  where
    same :
        (o : Option Profile)
        → pointer_of (Option.map (λ (p : Profile). if named_profile other p then f p else p) o)
          ≡ pointer_of o
    same none = refl
    same (some p) = ground (arith, keeps p)

set_row :
    (name other version : String) (o : Option Profile)
    → ((p : Profile) → o ≡ some p → p.name ≡ name)
    → (pointer_of (
          Option.map
            (λ (p : Profile). if named_profile other p then set_pointer version p else p)
            o)
        ≡ pointer_of o)
      ⊎ (name ≡ other)
        × (pointer_of (
              Option.map
                (λ (p : Profile). if named_profile other p then set_pointer version p else p)
                o)
            ≡ some version)
unfolding pointer_of
set_row name other version none named = inl refl
set_row name other version (some p) named = elim (Bool-cases (named_profile other p)) [
  | inr away ↦ inl (ground arith)
  | inl here ↦ inr (sym (named p refl) ∙ (str_eq_iff p.name other).0 here, ground arith)
]

pub pointer-set_pointer :
    (name other version : String) (s : Registry)
    → (pointer name (update_profile other (set_pointer version) s) ≡ pointer name s)
      ⊎ (name ≡ other)
        × (pointer name (update_profile other (set_pointer version) s) ≡ some version)
unfolding pointer
pointer-set_pointer name other version s =
    let e = find_profile-update name other (set_pointer version) s (λ p. refl) in
    elim (set_row name other version (find_profile name s) (find_profile_named name s)) [
      | inl same ↦ inl (ap pointer_of e ∙ same)
      | inr (n, set) ↦ inr (n, ap pointer_of e ∙ set)
    ]

IsThere-Extends :
    {s t : Registry} (name version : String)
    → Extends s t
    → IsThere name version s
    → IsThere name version t
IsThere-Extends {s} name version more h = elim (Option-cases (find_version name version s)) [
  | inl missing ↦ absurd (ground (arith, h, missing))
  | inr (x, found) ↦ ap is_some (more.versions_stay name version x found)
]

PointsToVersion-Effects : Effects PointsToVersion
unfolding pointer find_profile drop_cached store_entry find_version
PointsToVersion-Effects = record {
  makes = λ other s h name version e.
      IsThere-Extends name version (Extends-make_dir other s)
        (h name version (sym (pointer-make_dir name other s) ∙ e));
  adds = λ other added files s h free name version e.
      IsThere-Extends name version (Extends-add_version other added files s free) (
        h name version (
          sym (pointer-update name other (add_version added files) s (λ p. refl) (λ p. refl)) ∙ e));
  points = pointed;
  logs = λ other row s h name version e.
      IsThere-Extends name version (Extends-update other (add_row row) s (λ p. refl) (λ p. refl)) (
        h name version
          (sym (pointer-update name other (add_row row) s (λ p. refl) (λ p. refl)) ∙ e));
  drops = λ other s h. h;
  stores = λ other added filename place s h dir. h;
}
  where
    pointed :
        (other added : String) (s : Registry)
        → PointsToVersion s
        → IsThere other added s
        → PointsToVersion (update_profile other (set_pointer added) s)
    pointed other added s h there name version e =
        IsThere-Extends name version
          (Extends-update other (set_pointer added) s (λ p. refl) (λ p. refl))
          (elim (pointer-set_pointer name other added s) [
            | inl same ↦ h name version (sym same ∙ e)
            | inr (n, set) ↦
                subst (λ m. IsThere m version s) (sym n)
                  (subst (λ v. IsThere other v s)
                    (Option.some-injective added version (sym set ∙ e)) there)
          ])

nothing_yet : PointsToVersion empty_registry
unfolding pointer find_profile pointer_of find
nothing_yet name version e = absurd (ground arith)

-- From an empty registry, after any calls, whether they return or raise, the pointer of every
-- profile names a version directory of that profile.
pub pointer_names_version :
    (vendored : String → Option Files) (calls : List (ℕ × RegistryCall)) (name version : String)
    → pointer name (registry_calls vendored calls empty_registry) ≡ some version
    → is_some (find_version name version (registry_calls vendored calls empty_registry)) ≡ true
pointer_names_version vendored calls =
    keeps-registry_calls vendored PointsToVersion PointsToVersion-Effects calls empty_registry
      nothing_yet
