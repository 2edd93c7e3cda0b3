-- ===== src/Registry/Effects.antt =====
-- What a write of src/ap_registry/profile_registry.py keeps, when each of its effects keeps it: a new
-- directory, a new version, the pointer, a changelog row, the dropped cache entries; and a stored
-- cache entry of src/ap_gate/profiles.py.
use analysis_package.Base.{
  ℕ, String, ◌≡◌, refl, ap, ◌∙◌, Bool, true, false, not, ◌||◌, Option, none, some, List, [], ◌∷◌,
  ◌++◌, arith, inl, inr, if◌then◌else◌, is_some, str_eq, str_eq_iff, str_eq_refl, Option-cases,
}
use mathlib.Core.Option
use analysis_package.Base.Exec.{pure, modify}
use analysis_package.Base.Exec.Hoare.{
  Hoare, Preserves, Hoare-bind, Hoare-guard, Hoare-gets, Hoare-modify, Hoare-pure, Preserves-guard,
  Preserves-gets,
}
use analysis_package.Base.Json.{Json}
use analysis_package.Base.Table.{find}
use analysis_package.Base.Table.Laws.{find-update, find-append, find_holds}
use analysis_package.Registry.{
  Files, Profile, Registry, RegistryError, LogRow, find_profile, versions_of, find_version,
  named_profile, named_version, name_dir, make_dir, empty_profile, update_profile, add_version,
  is_taken, write_version_dir, write_pointer, append_changelog, drop_cached, seed_version,
  ensure_seeded, bump_version, seed, current_version, is_component, all_components, is_blocked,
  is_behind, base_files, pointer, invalid_component, already_exists, os_error, not_greater,
  change_files,
}
use analysis_package.Registry.Loads.{Place, version_dir, file_at, store_entry}

abbrev pub set_pointer : String → Profile → Profile
set_pointer version p = record p { pointer = some version }

abbrev pub add_row : LogRow → Profile → Profile
add_row row p = record p { changelog = p.changelog ++ row ∷ [] }

abbrev pub IsThere : String → String → Registry → Type 0
IsThere name version s = is_some (find_version name version s) ≡ true

-- each effect of a write keeps `P`
pub record Effects (P : Registry → Type 0) : Type 0 where
  pub makes : (name : String) (s : Registry) → P s → P (make_dir name s)
  pub adds :
      (name version : String) (files : Files) (s : Registry)
      → P s
      → is_taken name version s ≡ false
      → P (update_profile name (add_version version files) s)
  pub points :
      (name version : String) (s : Registry)
      → P s
      → IsThere name version s
      → P (update_profile name (set_pointer version) s)
  pub logs :
      (name : String) (row : LogRow) (s : Registry) → P s → P (update_profile name (add_row row) s)
  pub drops : (name : String) (s : Registry) → P s → P (drop_cached name s)
  pub stores :
      (name version filename : String) (place : Place) (s : Registry)
      → P s
      → version_dir name version s ≡ some place
      → P (store_entry name version filename (file_at filename place s) s)

-- an UPDATE of one profile, read at any name
pub find_profile-update :
    (name other : String) (f : Profile → Profile) (s : Registry)
    → ((p : Profile) → (f p).name ≡ p.name)
    → find_profile name (update_profile other f s)
      ≡ Option.map (λ (p : Profile). if named_profile other p then f p else p) (find_profile name s)
unfolding find_profile update_profile
find_profile-update name other f s keeps =
    find-update (named_profile name) (named_profile other) f s.profiles
      λ p. ap (λ n. str_eq n name) (keeps p)

pub versions-make_dir :
    (name other : String) (s : Registry)
    → versions_of (find_profile name (make_dir other s)) ≡ versions_of (find_profile name s)
unfolding versions_of find_profile make_dir
versions-make_dir name other s =
    ground (arith, find-append (named_profile name) s.profiles (empty_profile other))

-- an UPDATE that leaves a profile's versions
pub versions-update :
    (name other : String) (f : Profile → Profile) (s : Registry)
    → ((p : Profile) → (f p).name ≡ p.name)
    → ((p : Profile) → (f p).versions ≡ p.versions)
    → versions_of (find_profile name (update_profile other f s)) ≡ versions_of (find_profile name s)
unfolding versions_of
versions-update name other f s named keeps =
    ap versions_of (find_profile-update name other f s named) ∙ either (find_profile name s)
  where
    either :
        (o : Option Profile)
        → versions_of (Option.map (λ (p : Profile). if named_profile other p then f p else p) o)
          ≡ versions_of o
    either none = refl
    either (some p) = ground (arith, keeps p)

-- the directory is there once it is made
pub find_profile-make_dir :
    (name : String) (s : Registry) → (p : Profile) × (find_profile name (make_dir name s) ≡ some p)
unfolding find_profile make_dir
find_profile-make_dir name s = elim (Option-cases (find_profile name s)) [
  | inr (p, found) ↦ (p, ground arith)
  | inl missing ↦ (
    empty_profile name,
    ground
        (arith, find-append (named_profile name) s.profiles (empty_profile name), str_eq_refl name),
  )
]

-- the row found is of the name it was looked for
pub find_profile_named :
    (name : String) (s : Registry) (p : Profile) → find_profile name s ≡ some p → p.name ≡ name
unfolding find_profile
find_profile_named name s p h =
    (str_eq_iff p.name name).0 (find_holds (named_profile name) s.profiles p h)

-- the new version is there once it is written
IsThere-add_version :
    (name version : String) (files : Files) (s : Registry) (p : Profile)
    → find_profile name s ≡ some p
    → IsThere name version (update_profile name (add_version version files) s)
unfolding find_version versions_of find
IsThere-add_version name version files s p found =
    ap (λ o. is_some (find (named_version version) (versions_of o)))
      (find_profile-update name name (add_version version files) s (λ q. refl))
    ∙ ap
        (λ o. is_some (
          find (named_version version) (
            versions_of (
              Option.map
                (λ (q : Profile). if named_profile name q then add_version version files q else q)
                o))))
        found
    ∙ ground
        (arith, (str_eq_iff p.name name).1 (find_profile_named name s p found), str_eq_refl version)

pub find_version-update :
    (name other version : String) (f : Profile → Profile) (s : Registry)
    → ((p : Profile) → (f p).name ≡ p.name)
    → ((p : Profile) → (f p).versions ≡ p.versions)
    → find_version name version (update_profile other f s) ≡ find_version name version s
unfolding find_version
find_version-update name other version f s named keeps =
    ap (find (named_version version)) (versions-update name other f s named keeps)

module _ (P : Registry → Type 0) (effects : Effects P) where
  keeps-name_dir : (name : String) → Preserves P (name_dir name)
  unfolding name_dir
  keeps-name_dir name = Preserves-guard (is_component name) invalid_component

  pub keeps-current_version : (name : String) → Preserves P (current_version name)
  unfolding current_version
  keeps-current_version name = Hoare-bind (keeps-name_dir name) λ a. Preserves-gets (pointer name)

  pub writes-version_dir :
      (name version : String) (files : Files)
      → Hoare P (write_version_dir name version files) (λ u s. P s × IsThere name version s) P
  unfolding write_version_dir
  writes-version_dir name version files = Hoare-bind (keeps-name_dir name) λ a.
      Hoare-bind (Preserves-guard (is_component version) invalid_component) λ b.
        Hoare-bind (Preserves-guard (all_components files) invalid_component) λ c.
          Hoare-bind
            (Hoare-modify {Q = λ s. P s × (p : Profile) × (find_profile name s ≡ some p)}
              (make_dir name) made)
            λ d. Hoare-bind (Hoare-gets (is_taken name version)) λ taken.
              Hoare-bind (Hoare-guard (not taken) already_exists (λ s h. h.0.0))
                λ e. Hoare-modify (update_profile name (add_version version files)) added
    where
      made :
          (s : Registry)
          → P s
          → P (make_dir name s) × (p : Profile) × (find_profile name (make_dir name s) ≡ some p)
      made s h = let (p, found) = find_profile-make_dir name s in (effects.makes name s h, p, found)

      added :
          {taken : Bool} (s : Registry)
          → ((P s × (p : Profile) × (find_profile name s ≡ some p))
              × (taken ≡ is_taken name version s))
            × (not taken ≡ true)
          → P (update_profile name (add_version version files) s)
            × IsThere name version (update_profile name (add_version version files) s)
      added s (((h, p, found), e), free) = (
        effects.adds name version files s h (ground arith),
        IsThere-add_version name version files s p found,
      )

  pub writes-pointer :
      (name version : String)
      → Hoare (λ s. P s × IsThere name version s) (write_pointer name version) (λ u s. P s) P
  unfolding write_pointer
  writes-pointer name version =
      Hoare-bind
        (Hoare-gets
          (λ s. is_blocked name "_pointer.json.tmp" s || is_blocked name "_pointer.json" s))
        λ blocked. Hoare-bind (Hoare-guard (not blocked) os_error (λ s h. h.0.0)) λ a.
          Hoare-modify (update_profile name (set_pointer version))
            λ s h. effects.points name version s h.0.0.0 h.0.0.1

  keeps-append_changelog : (name : String) (row : LogRow) → Preserves P (append_changelog name row)
  unfolding append_changelog
  keeps-append_changelog name row =
      Hoare-bind (Preserves-gets (is_blocked name "_changelog.jsonl")) λ blocked.
        Hoare-bind (Preserves-guard (not blocked) os_error)
          λ a. Hoare-modify (update_profile name (add_row row)) (effects.logs name row)

  keeps-drop_cached : (name : String) → Preserves {E = RegistryError} P (modify (drop_cached name))
  keeps-drop_cached name = Hoare-modify (drop_cached name) (effects.drops name)

  pub keeps-seed_version :
      (name version : String) (files : Files) → Preserves P (seed_version name version files)
  unfolding seed_version
  keeps-seed_version name version files =
      Hoare-bind (writes-version_dir name version files)
        λ a. Hoare-bind (writes-pointer name version) λ b. keeps-drop_cached name

  module _ (vendored : String → Option Files) where
    -- `ensure_seeded`'s writes, behind its early return
    pub keeps-seed :
        (now : ℕ) (name initial : String) → Preserves P (seed vendored now name initial)
    unfolding seed
    keeps-seed now name initial =
        Hoare-bind (writes-version_dir name initial (Option.get_or (vendored name) [])) λ a.
          Hoare-bind (writes-pointer name initial) λ b.
            Hoare-bind (keeps-append_changelog name _)
              λ c. Hoare-bind (keeps-drop_cached name) λ d. Hoare-pure initial λ s h. h

    pub keeps-ensure_seeded :
        (now : ℕ) (name initial : String) → Preserves P (ensure_seeded vendored now name initial)
    unfolding ensure_seeded
    keeps-ensure_seeded now name initial = Hoare-bind (keeps-current_version name) by_pointer
      where
        by_pointer :
            (existing : Option String)
            → Preserves P
                (elim existing [ some v ↦ pure v | none ↦ seed vendored now name initial ])
        by_pointer (some v) = Hoare-pure v λ s h. h
        by_pointer none = keeps-seed now name initial

    pub keeps-bump_version :
        (now : ℕ) (name version : String) (changes : List (String × Option Json)) (note : String)
        (actor : Option String)
        → Preserves P (bump_version vendored now name version changes note actor)
    unfolding bump_version
    keeps-bump_version now name version changes note actor =
        Hoare-bind (keeps-ensure_seeded now name "0.1") λ a.
          Hoare-bind (keeps-current_version name) λ current.
            Hoare-bind (Preserves-guard (not (is_behind version current)) not_greater) λ b.
              Hoare-bind (Preserves-gets (base_files name current)) λ base.
                Hoare-bind (writes-version_dir name version (change_files changes base)) λ c.
                  Hoare-bind (writes-pointer name version) λ d.
                    Hoare-bind
                      (keeps-append_changelog name (record {
                        version = version;
                        previous = current;
                        note = note;
                        actor = actor;
                        ts = now;
                      }))
                      λ e. Hoare-bind (keeps-drop_cached name) λ f. Hoare-pure version λ s h. h
