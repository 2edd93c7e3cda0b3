-- ===== src/Registry/Cache.antt =====
-- The cache of src/ap_gate/profiles.py never answers what the registry's files do not say.
use mathlib.Core.Path.{subst}
use mathlib.Core.Option
use analysis_package.Base.{
  ℕ, String, ◌≡◌, refl, ap, sym, ◌∙◌, Bool, true, false, not, Option, none, some, List, [], ◌∷◌,
  arith, Option-cases, inl, inr, if◌then◌else◌, str_eq, str_eq_iff,
}
use analysis_package.Base.Exec.{ok}
use analysis_package.Base.Json.{Json}
use analysis_package.Base.Table.{All, find, select}
use analysis_package.Base.Table.Laws.{All-map, All-find, find_holds}
use analysis_package.Registry.{
  Files, Registry, Cached, find_profile, find_version, drop_cached, update_profile, make_dir,
  add_version, Profile, empty_registry,
}
use analysis_package.Registry.Calls.{RegistryCall, registry_calls, keeps-registry_calls}
use analysis_package.Registry.Effects.{Effects, set_pointer, add_row}
use analysis_package.Registry.Immutable.{
  Extends, Extends-make_dir, Extends-update, Extends-add_version, Extends-drop_cached,
}
use analysis_package.Registry.Loads.{
  Place, version_dir, file_at, store_entry, is_entry, read_through, read_registry_file,
}
use analysis_package.Registry.Places.{version_dir-Extends, file_at-Extends, version_dir-IsPlace}

-- what a cache entry says is what its file says
abbrev EntryHolds : Registry → Cached → Type 0
EntryHolds s entry =
    (place : Place) × (version_dir entry.name entry.version s ≡ some place)
    × (entry.content ≡ file_at entry.filename place s)

abbrev CacheHolds : Registry → Type 0
CacheHolds s = All (EntryHolds s) s.cache

EntryHolds-Extends :
    {s t : Registry} → Extends s t → (entry : Cached) → EntryHolds s entry → EntryHolds t entry
EntryHolds-Extends {s} more entry (place, dir, e) = (
  place,
  version_dir-Extends more entry.name entry.version place dir,
  e
      ∙ sym (
          file_at-Extends more entry.filename place
            (version_dir-IsPlace entry.name entry.version place s dir)),
)

cache_after : {s t : Registry} → Extends s t → s.cache ≡ t.cache → CacheHolds s → CacheHolds t
cache_after {s} {t} more same holds =
    subst (All (EntryHolds t)) same
      (All-map (EntryHolds s) (EntryHolds t) s.cache (EntryHolds-Extends more) holds)

All-select :
    {A : Type 0} (P : A → Type 0) (p : A → Bool) (l : List A) → All P l → All P (select p l)
unfolding select
All-select P p [] h = h
All-select P p (x ∷ xs) (hx, h) = kept (p x) (All-select P p xs h)
  where
    kept : (b : Bool) → All P (select p xs) → All P (if b then x ∷ select p xs else select p xs)
    kept true rest = (hx, rest)
    kept false rest = rest

same_make_dir : (other : String) (s : Registry) → s.cache ≡ (make_dir other s).cache
unfolding make_dir
same_make_dir other s = ground arith

same_update :
    (other : String) (f : Profile → Profile) (s : Registry)
    → s.cache ≡ (update_profile other f s).cache
unfolding update_profile
same_update other f s = refl

Extends-store_entry :
    (name version filename : String) (content : Option Json) (s : Registry)
    → Extends s (store_entry name version filename content s)
unfolding store_entry find_version find_profile
Extends-store_entry name version filename content s = record {
  profiles_stay = λ name h. h;
  versions_stay = λ name version x h. h;
}

CacheHolds-Effects : Effects CacheHolds
unfolding drop_cached store_entry
CacheHolds-Effects = record {
  makes = λ other s. cache_after (Extends-make_dir other s) (same_make_dir other s);
  adds = λ other added files s h free.
      cache_after (Extends-add_version other added files s free)
        (same_update other (add_version added files) s) h;
  points = λ other added s h there.
      cache_after (Extends-update other (set_pointer added) s (λ p. refl) (λ p. refl))
        (same_update other (set_pointer added) s) h;
  logs = λ other row s.
      cache_after (Extends-update other (add_row row) s (λ p. refl) (λ p. refl))
        (same_update other (add_row row) s);
  drops = dropped;
  stores = stored;
}
  where
    dropped : (other : String) (s : Registry) → CacheHolds s → CacheHolds (drop_cached other s)
    dropped other s h =
        All-select (EntryHolds (drop_cached other s)) (λ entry. not (str_eq entry.name other))
          s.cache
          (All-map (EntryHolds s) (EntryHolds (drop_cached other s)) s.cache
            (EntryHolds-Extends (Extends-drop_cached other s)) h)

    stored :
        (name version filename : String) (place : Place) (s : Registry)
        → CacheHolds s
        → version_dir name version s ≡ some place
        → CacheHolds (store_entry name version filename (file_at filename place s) s)
    stored name version filename place s h dir =
        let more = Extends-store_entry name version filename (file_at filename place s) s in
        (
          EntryHolds-Extends more
              (record {
                name = name;
                version = version;
                filename = filename;
                content = file_at filename place s;
              })
              (place, dir, refl),
          All-map (EntryHolds s)
              (EntryHolds (store_entry name version filename (file_at filename place s) s)) s.cache
              (EntryHolds-Extends more) h,
        )

-- `_read_registry_file` as it would be without its cache
unfoldable pub read_from_disk : String → String → String → Registry → Option Json × Bool
read_from_disk name version filename s = elim (version_dir name version s) [
  | none ↦ (none, false)
  | some place ↦ (file_at filename place s, true)
]

entry_content :
    (name version filename : String) (place : Place) (s : Registry) (entry : Cached)
    → EntryHolds s entry
    → is_entry name version filename entry ≡ true
    → version_dir name version s ≡ some place
    → entry.content ≡ file_at filename place s
entry_content name version filename place s entry (found, dir, e) same h =
    let n = (str_eq_iff entry.name name).0 (ground arith) in
    let v = (str_eq_iff entry.version version).0 (ground arith) in
    let f = (str_eq_iff entry.filename filename).0 (ground arith) in
    let there : found ≡ place = Option.some-injective found place (
      sym dir
      ∙ ap (λ (m : String). version_dir m entry.version s) n
      ∙ ap (λ (w : String). version_dir name w s) v
      ∙ h) in
    e ∙ ap (λ (g : String). file_at g found s) f ∙ ap (λ (q : Place). file_at filename q s) there

read_when_holds :
    (name version filename : String) (s : Registry)
    → CacheHolds s
    → (read_registry_file name version filename s).0 ≡ ok (read_from_disk name version filename s)
unfolding read_registry_file read_from_disk read_through
read_when_holds name version filename s holds = elim (Option-cases (version_dir name version s)) [
  | inl missing ↦ ground (arith, missing)
  | inr (place, dir) ↦ elim (Option-cases (find (is_entry name version filename) s.cache)) [
    | inl miss ↦ ground (arith, dir, miss)
    | inr (entry, hit) ↦ ground (
      arith,
      dir,
      hit,
      entry_content name version filename place s entry
          (All-find (EntryHolds s) (is_entry name version filename) s.cache holds hit)
          (find_holds (is_entry name version filename) s.cache entry hit) dir,
    )
  ]
]

-- From an empty registry with an empty cache, after any writes and loads, whether they return or
-- raise, a cached read of a profile's file answers exactly what a read without the cache answers.
pub cached_read_is_disk_read :
    (vendored : String → Option Files) (calls : List (ℕ × RegistryCall))
    (name version filename : String)
    → (read_registry_file name version filename (registry_calls vendored calls empty_registry)).0
      ≡ ok (read_from_disk name version filename (registry_calls vendored calls empty_registry))
cached_read_is_disk_read vendored calls name version filename =
    read_when_holds name version filename _
      (keeps-registry_calls vendored CacheHolds CacheHolds-Effects calls empty_registry tt)
