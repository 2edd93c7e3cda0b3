-- ===== src/Proposals/Applied.antt =====
-- What an approved declarative diff leaves in the registry: src/ap_proposals/apply.py.
use mathlib.Core.Path.{subst}
use mathlib.Core.Option
use analysis_package.Base.{ℕ, String, ◌≡◌, refl, ap, sym, ◌∙◌, true, Option, none, some, List, []}
use analysis_package.Base.Exec.{ok}
use analysis_package.Base.Exec.Hoare.{Hoare, Hoare-bind, Hoare-weaken, Hoare-fact, Hoare-returns}
use analysis_package.Base.Json.{Json, Fields, get_field}
use analysis_package.Proposals.{ProposalKind}
use analysis_package.Proposals.Apply.{
  text_of, apply_declarative, wrong_type, bad_version, applied_note,
}
use analysis_package.Registry.{
  Files, Version, Registry, pointer, find_version, change_files, base_files,
}
use analysis_package.Registry.Bumped.{Nothing}
use analysis_package.Registry.Order.{bump_moves, reads_current, stays_seeded}
use analysis_package.Registry.Versions.{version_sort_key, key_lt, bump_minor}
use analysis_package.Proposals.Changed.{
  Applied, Does, Hoare-wrap, Hoare-require, reads-text, Does-changes,
}

module _ (vendored : String → Option Files) (now : ℕ) (kind : ProposalKind) (diff : Fields)
    (actor name current : String) (start : Registry)
    (of_profile : text_of (get_field "profile" diff) ≡ some name)
    (at : pointer name start ≡ some current) where
  abbrev Final : String → String → Registry → Type 0
  Final n answer s =
      (bump_minor current ≡ some answer)
      × (pointer n s ≡ some answer)
      × (key_lt (version_sort_key current) (version_sort_key answer) ≡ true)
      × (x : Version) × (find_version n answer s ≡ some x)
      × Applied kind diff x.files

  applies :
      Hoare (λ s. s ≡ start) (apply_declarative vendored now kind diff actor) (Final name) Nothing
  unfolding apply_declarative
  applies = Hoare-bind (reads-text vendored "profile" diff) λ n.
      Hoare-fact λ (found : text_of (get_field "profile" diff) ≡ some n).
        let same : name ≡ n = Option.some-injective name n (sym of_profile ∙ found) in
        let at_n : pointer n start ≡ some current = ap (λ m. pointer m start) (sym same) ∙ at in
        Hoare-weaken
          (Hoare-bind (Hoare-wrap (stays_seeded vendored now n "" current [] "" none start at_n))
            λ a.
              Hoare-bind
                (Hoare-wrap (reads_current vendored now n "" current [] "" none start at_n))
                λ v. Hoare-fact λ (read : v ≡ some current).
                  Hoare-bind (Hoare-require v wrong_type) λ version.
                    Hoare-fact λ (is : v ≡ some version).
                      Hoare-bind (Does-changes vendored kind diff) λ changes.
                        Hoare-fact λ (does : Does kind diff changes).
                          Hoare-bind (Hoare-require (bump_minor version) bad_version) λ new.
                            Hoare-fact λ (bumped : bump_minor version ≡ some new).
                              Hoare-weaken
                                (Hoare-wrap (
                                  bump_moves vendored now n new current changes
                                    (applied_note vendored kind) (some actor) start at_n))
                                (final n v version changes new read is does bumped))
          λ answer s h. subst (λ m. Final m answer s) (sym same) h
    where
      final :
          (n : String) (v : Option String) (version : String)
          (changes : List (String × Option Json)) (new : String)
          → v ≡ some current
          → v ≡ some version
          → Does kind diff changes
          → bump_minor version ≡ some new
          → (answer : String) (s : Registry)
          → (answer ≡ new)
            × (pointer n s ≡ some new)
            × (key_lt (version_sort_key current) (version_sort_key new) ≡ true)
            × (find_version n new s
                ≡ some (record {
                  version = new;
                  files = change_files changes (base_files n (some current) start);
                }))
          → Final n answer s
      final n v version changes new read is does bumped answer s (e, points, later, there) =
          subst (λ w. Final n w s) (sym e)
            (
              ap bump_minor (Option.some-injective current version (sym read ∙ is)) ∙ bumped,
              points,
              later,
              record {
                version = new;
                files = change_files changes (base_files n (some current) start);
              },
              there,
              does (base_files n (some current) start),
            )

  -- Of a profile whose pointer is at `current`, an applied diff that returns a version answers the
  -- minor version after `current`, which comes after it in the registry's order, leaves the pointer
  -- at it, and its files say what the diff asks for: the file is changed or deleted, or the code is
  -- among the reason codes.
  pub effect_is_current :
      (answer : String)
      → (apply_declarative vendored now kind diff actor start).0 ≡ ok answer
      → (bump_minor current ≡ some answer)
        × (pointer name (apply_declarative vendored now kind diff actor start).1 ≡ some answer)
        × (key_lt (version_sort_key current) (version_sort_key answer) ≡ true)
        × (x : Version) × (find_version name answer
              (apply_declarative vendored now kind diff actor start).1
            ≡ some x)
        × Applied kind diff x.files
  effect_is_current answer = Hoare-returns applies start refl answer
