-- ===== src/Registry/Bumped.antt =====
-- The steps of a bump, and what each leaves: src/ap_registry/profile_registry.py.
use mathlib.Core.Option
use analysis_package.Base.{
  String, ◌≡◌, refl, ap, ◌∙◌, true, not, ◌||◌, Option, none, some, arith, Option-cases, inl, inr,
  if◌then◌else◌, is_some, str_eq_iff, str_eq_refl,
}
use analysis_package.Base.Exec.{Exec, Result, ok, err, guard}
use analysis_package.Base.Exec.Hoare.{
  Hoare, Outcome, Hoare-bind, Hoare-guard, Hoare-gets, Hoare-modify, Hoare-weaken,
}
use analysis_package.Base.Table.{find}
use analysis_package.Registry.{
  Files, Version, Profile, Registry, RegistryError, LogRow, find_profile, find_version, versions_of,
  named_profile, named_version, make_dir, is_taken, is_component, all_components, invalid_component,
  already_exists, pointer_of, update_profile, add_version, drop_cached, pointer, write_version_dir,
  write_pointer, append_changelog, name_dir, os_error, is_blocked,
}
use analysis_package.Registry.Effects.{
  set_pointer, add_row, find_profile-update, find_profile_named, find_profile-make_dir,
}
use analysis_package.Registry.Immutable.{Extends-update}
use analysis_package.Registry.Pointer.{pointer-update}

pub anything :
    {A : Type 0} {P : Registry → Type 0} (m : Exec Registry RegistryError A)
    → Hoare P m (λ a s. Unit {0}) (λ s. Unit {0})
anything {A = A} m = record { run = λ s p. either (m s) }
  where
    either : (r : Result RegistryError A × Registry) → Outcome (λ a s. Unit {0}) (λ s. Unit {0}) r
    either (ok a, t) = tt
    either (err e, t) = tt

abbrev pub Nothing : Registry → Type 0
Nothing s = Unit

-- a bump's new version with its files, and the pointer at it
abbrev pub Bumped : String → String → Files → Registry → Type 0
Bumped name version files s =
    (find_version name version s ≡ some (record { version = version; files = files }))
    × (pointer name s ≡ some version)

find-added_here :
    (name version : String) (files : Files) (p : Profile) (s : Registry)
    → find_profile name s ≡ some p
    → find_version name version (update_profile name (add_version version files) s)
      ≡ some (record { version = version; files = files })
unfolding find_version versions_of find
find-added_here name version files p s found =
    ap (λ o. find (named_version version) (versions_of o))
      (find_profile-update name name (add_version version files) s (λ q. refl))
    ∙ ap
        (λ o. find (named_version version) (
          versions_of (
            Option.map
              (λ (q : Profile). if named_profile name q then add_version version files q else q)
              o)))
        found
    ∙ ground
        (arith, (str_eq_iff p.name name).1 (find_profile_named name s p found), str_eq_refl version)

pointed_here :
    (name version : String) (s : Registry)
    → is_some (find_profile name s) ≡ true
    → pointer name (update_profile name (set_pointer version) s) ≡ some version
unfolding pointer pointer_of
pointed_here name version s there =
    ap pointer_of (find_profile-update name name (set_pointer version) s (λ p. refl))
    ∙ by_row (find_profile name s) refl there
  where
    by_row :
        (o : Option Profile)
        → find_profile name s ≡ o
        → is_some o ≡ true
        → pointer_of (
            Option.map
              (λ (p : Profile). if named_profile name p then set_pointer version p else p)
              o)
          ≡ some version
    by_row none missing h = absurd (ground arith)
    by_row (some p) found h =
        ground (arith, (str_eq_iff p.name name).1 (find_profile_named name s p found))

-- a version that is there is in a profile that is there
profile_of_version :
    (name version : String) (x : Version) (s : Registry)
    → find_version name version s ≡ some x
    → is_some (find_profile name s) ≡ true
unfolding find_version versions_of find
profile_of_version name version x s h = elim (Option-cases (find_profile name s)) [
  | inl missing ↦
      absurd (ground (arith, ap (λ o. find (named_version version) (versions_of o)) missing))
  | inr (p, found) ↦ ground (arith, found)
]

pub writes-files :
    (name version : String) (files : Files)
    → Hoare Nothing
        (write_version_dir name version files)
        (λ u s. find_version name version s ≡ some (record { version = version; files = files }))
        Nothing
unfolding write_version_dir
writes-files name version files = Hoare-bind (anything (name_dir name)) λ a.
    Hoare-bind (anything (guard (is_component version) invalid_component)) λ b.
      Hoare-bind (anything (guard (all_components files) invalid_component)) λ c.
        Hoare-bind
          (Hoare-modify {Q = λ s. (p : Profile) × (find_profile name s ≡ some p)} (make_dir name)
            (λ s h. find_profile-make_dir name s))
          λ d.
            Hoare-bind (Hoare-weaken (Hoare-gets (is_taken name version)) (λ t s h. h.0)) λ taken.
              Hoare-bind (Hoare-guard (not taken) already_exists (λ s h. tt)) λ e.
                Hoare-modify (update_profile name (add_version version files))
                  λ s h. find-added_here name version files h.0.0 s h.0.1

pub points-Bumped :
    (name version : String) (files : Files)
    → Hoare
        (λ s. find_version name version s ≡ some (record { version = version; files = files }))
        (write_pointer name version)
        (λ u s. Bumped name version files s)
        Nothing
unfolding write_pointer
points-Bumped name version files =
    Hoare-bind
      (Hoare-weaken
        (Hoare-gets
          (λ s. is_blocked name "_pointer.json.tmp" s || is_blocked name "_pointer.json" s))
        (λ b s h. h.0))
      λ blocked. Hoare-bind (Hoare-guard (not blocked) os_error (λ s h. tt)) λ a.
        Hoare-modify (update_profile name (set_pointer version)) λ s h. (
          (Extends-update name (set_pointer version) s (λ p. refl) (λ p. refl)).versions_stay name
              version _ h.0,
          pointed_here name version s (profile_of_version name version _ s h.0),
        )

pub logs-Bumped :
    (name version : String) (files : Files) (row : LogRow)
    → Hoare
        (Bumped name version files)
        (append_changelog name row)
        (λ u s. Bumped name version files s)
        Nothing
unfolding append_changelog
logs-Bumped name version files row =
    Hoare-bind (Hoare-weaken (Hoare-gets (is_blocked name "_changelog.jsonl")) (λ b s h. h.0))
      λ blocked. Hoare-bind (Hoare-guard (not blocked) os_error (λ s h. tt)) λ a.
        Hoare-modify (update_profile name (add_row row)) λ s h. (
          (Extends-update name (add_row row) s (λ p. refl) (λ p. refl)).versions_stay name version _
              h.0.0,
          pointer-update name name (add_row row) s (λ p. refl) (λ p. refl) ∙ h.0.1,
        )

pub drops-Bumped :
    (name version : String) (files : Files) (s : Registry)
    → Bumped name version files s
    → Bumped name version files (drop_cached name s)
unfolding drop_cached find_version find_profile pointer
drops-Bumped name version files s h = h
