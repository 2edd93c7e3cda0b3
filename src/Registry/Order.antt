-- ===== src/Registry/Order.antt =====
-- A bump that returns moved the pointer forward: src/ap_registry/profile_registry.py.
use mathlib.Core.Path.{subst}
use analysis_package.Base.{
  ℕ, String, ◌≡◌, refl, ap, sym, ◌∙◌, true, not, Option, none, some, List, arith,
}
use analysis_package.Base.Exec.{ok, pure}
use analysis_package.Base.Exec.Hoare.{
  Hoare, Hoare-bind, Hoare-guard, Hoare-gets, Hoare-modify, Hoare-pure, Hoare-weaken, Hoare-fact,
  Hoare-returns,
}
use analysis_package.Base.Json.{Json}
use analysis_package.Registry.{
  Files, Registry, find_version, is_component, invalid_component, drop_cached, pointer,
  current_version, is_behind, bump_version, ensure_seeded, seed, change_files, base_files, name_dir,
  not_greater,
}
use analysis_package.Registry.Versions.{version_sort_key, key_lt}
use analysis_package.Registry.Bumped.{
  Nothing, Bumped, writes-files, points-Bumped, logs-Bumped, drops-Bumped,
}

not_behind :
    (version current : String)
    → not (is_behind version (some current)) ≡ true
    → key_lt (version_sort_key current) (version_sort_key version) ≡ true
unfolding is_behind
not_behind version current h = ground arith

module _ (vendored : String → Option Files) (now : ℕ) (name version current : String)
    (changes : List (String × Option Json)) (note : String) (actor : Option String)
    (start : Registry) (at : pointer name start ≡ some current) where
  pub reads_current :
      Hoare
        (λ s. s ≡ start)
        (current_version name)
        (λ c s. (s ≡ start) × (c ≡ some current))
        Nothing
  unfolding current_version name_dir
  reads_current = Hoare-bind (Hoare-guard (is_component name) invalid_component (λ s h. tt)) λ a.
      Hoare-weaken (Hoare-gets (pointer name)) λ c s h. (h.0.0, h.1 ∙ ap (pointer name) h.0.0 ∙ at)

  pub stays_seeded :
      Hoare (λ s. s ≡ start) (ensure_seeded vendored now name "0.1") (λ a s. s ≡ start) Nothing
  unfolding ensure_seeded
  stays_seeded = Hoare-bind reads_current by_existing
    where
      by_existing :
          (existing : Option String)
          → Hoare
              (λ s. (s ≡ start) × (existing ≡ some current))
              (elim existing [ some v ↦ pure v | none ↦ seed vendored now name "0.1" ])
              (λ a s. s ≡ start)
              Nothing
      by_existing (some v) = Hoare-pure v λ s h. h.0
      by_existing none = record { run = λ s h. absurd (ground (arith, h.1)) }

  abbrev pub Moved : String → Registry → Type 0
  Moved answer s =
      (answer ≡ version)
      × (pointer name s ≡ some version)
      × (key_lt (version_sort_key current) (version_sort_key version) ≡ true)
      × (find_version name version s
          ≡ some (record {
            version = version;
            files = change_files changes (base_files name (some current) start);
          }))

  pub bump_moves :
      Hoare
        (λ s. s ≡ start)
        (bump_version vendored now name version changes note actor)
        Moved
        Nothing
  unfolding bump_version
  bump_moves = Hoare-bind stays_seeded λ a. Hoare-bind reads_current λ c.
      Hoare-bind (Hoare-guard (not (is_behind version c)) not_greater (λ s h. tt)) λ b.
        Hoare-bind (Hoare-weaken (Hoare-gets (base_files name c)) (facts c)) λ base.
          Hoare-fact
            λ (fact : (key_lt (version_sort_key current) (version_sort_key version) ≡ true)
                × (base ≡ base_files name (some current) start)).
              Hoare-bind (writes-files name version (change_files changes base)) λ d.
                Hoare-bind (points-Bumped name version (change_files changes base)) λ e.
                  Hoare-bind
                    (logs-Bumped name version (change_files changes base) (record {
                      version = version;
                      previous = c;
                      note = note;
                      actor = actor;
                      ts = now;
                    }))
                    λ f.
                      Hoare-bind
                        (Hoare-modify {Q = Bumped name version (change_files changes base)}
                          (drop_cached name)
                          (drops-Bumped name version (change_files changes base)))
                        λ g. Hoare-pure version λ s h. (
                          refl,
                          h.1,
                          fact.0,
                          subst
                              (λ fs.
                                find_version name version s
                                ≡ some
                                    (record { version = version; files = change_files changes fs }))
                              fact.1 h.0,
                        )
    where
      facts :
          (c : Option String) (base : Files) (s : Registry)
          → (((s ≡ start) × (c ≡ some current)) × (not (is_behind version c) ≡ true))
            × (base ≡ base_files name c s)
          → Unit {0}
            × ((key_lt (version_sort_key current) (version_sort_key version) ≡ true)
                × (base ≡ base_files name (some current) start))
      facts c base s (((e, now_at), ahead), read) = (
        tt,
        (
          not_behind version current (ap (λ o. not (is_behind version o)) (sym now_at) ∙ ahead),
          read ∙ ap (λ o. base_files name o s) now_at ∙ ap (base_files name (some current)) e,
        ),
      )

  -- Of a profile whose pointer is at `current`, a bump that returns answers the new version, which
  -- comes after `current`, and leaves the pointer at it and, in its directory, the files of
  -- `current` with the changes applied.
  pub bump_moves_forward :
      (answer : String)
      → (bump_version vendored now name version changes note actor start).0 ≡ ok answer
      → (answer ≡ version)
        × (pointer name (bump_version vendored now name version changes note actor start).1
            ≡ some version)
        × (key_lt (version_sort_key current) (version_sort_key version) ≡ true)
        × (find_version name version
              (bump_version vendored now name version changes note actor start).1
            ≡ some (record {
              version = version;
              files = change_files changes (base_files name (some current) start);
            }))
  bump_moves_forward answer = Hoare-returns bump_moves start refl answer
