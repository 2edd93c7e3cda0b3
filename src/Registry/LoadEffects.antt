-- ===== src/Registry/LoadEffects.antt =====
-- What a load of src/ap_gate/profiles.py keeps, when a stored cache entry keeps it.
use mathlib.Core.Path.{subst}
use analysis_package.Base.{
  String, ◌≡◌, sym, Bool, true, false, not, Option, none, some, str_eq, if◌then◌else◌,
}
use analysis_package.Base.Exec.{pure, raise, gets, ◌>>=◌}
use analysis_package.Base.Exec.Hoare.{
  Hoare, Preserves, Hoare-bind, Hoare-gets, Hoare-modify, Hoare-pure, Hoare-weaken, Preserves-raise,
}
use analysis_package.Base.Json.{Json}
use analysis_package.Base.Table.{find}
use analysis_package.Registry.{Files, Registry, Cached}
use analysis_package.Registry.Effects.{Effects}
use analysis_package.Registry.Loads.{
  Place, LoadError, unknown_profile_version, version_dir, file_at, store_entry, is_entry,
  read_through, read_registry_file, profile_short_name, resolve_profile_declaration, load_declared,
  load_profile_file, vendored_file,
}

-- what one load keeps
module _ (P : Registry → Type 0) (effects : Effects P) where
  keeps-read_through :
      (name version filename : String) (place : Place) (hit : Option Cached)
      → Hoare
          (λ s. P s × (some place ≡ version_dir name version s))
          (read_through name version filename place hit)
          (λ u s. P s)
          P
  unfolding read_through
  keeps-read_through name version filename place (some entry) = Hoare-pure entry.content λ s h. h.0
  keeps-read_through name version filename place none =
      Hoare-bind (Hoare-gets (file_at filename place)) λ content.
        Hoare-bind (Hoare-modify (store_entry name version filename content) (stored content))
          λ u. Hoare-pure content λ s h. h
    where
      stored :
          (content : Option Json) (s : Registry)
          → (P s × (some place ≡ version_dir name version s)) × (content ≡ file_at filename place s)
          → P (store_entry name version filename content s)
      stored content s ((h, dir), e) =
          subst (λ c. P (store_entry name version filename c s)) (sym e)
            (effects.stores name version filename place s h (sym dir))

  pub keeps-read_registry_file :
      (name version filename : String) → Preserves P (read_registry_file name version filename)
  unfolding read_registry_file
  keeps-read_registry_file name version filename =
      Hoare-bind (Hoare-gets (version_dir name version)) by_dir
    where
      by_dir :
          (dir : Option Place)
          → Hoare {E = LoadError} {A = Option Json × Bool}
              (λ s. P s × (dir ≡ version_dir name version s))
              (elim dir [
                | none ↦ pure (none, false)
                | some place ↦ gets (λ s. find (is_entry name version filename) s.cache) >>= λ hit.
                    read_through name version filename place hit >>= λ content. pure (content, true)
              ])
              (λ a s. P s)
              P
      by_dir none = Hoare-pure (none, false) λ s h. h.0
      by_dir (some place) =
          Hoare-bind
            (Hoare-weaken
              (Hoare-gets (λ (s : Registry). find (is_entry name version filename) s.cache))
              (λ hit s h. h.0))
            λ hit.
              Hoare-bind (keeps-read_through name version filename place hit)
                λ content. Hoare-pure (content, true) λ s h. h

  module _ (vendored : String → Option Files) (has_registry fail_closed : Bool) where
    keeps-load_declared :
        (filename name : String) (declared : Option (String × String))
        → Preserves P (load_declared vendored has_registry fail_closed filename name declared)
    unfolding load_declared
    keeps-load_declared filename name none = Hoare-pure _ λ s h. h
    keeps-load_declared filename name (some declared) = by_setting has_registry
      where
        by_known :
            (found : Option Json × Bool) (known fail : Bool)
            → Preserves {E = LoadError} {A = Option Json} P (
                if known
                then pure found.0
                else if fail
                then raise unknown_profile_version
                else pure (vendored_file vendored name filename))
        by_known found true fail = Hoare-pure _ λ s h. h
        by_known found false true = Preserves-raise unknown_profile_version
        by_known found false false = Hoare-pure _ λ s h. h

        by_setting :
            (b : Bool)
            → Preserves {E = LoadError} {A = Option Json} P (
                if not b
                then pure (vendored_file vendored name filename)
                else (read_registry_file name declared.1 filename >>= λ found.
                    if found.1
                    then pure found.0
                    else if fail_closed
                    then raise unknown_profile_version
                    else pure (vendored_file vendored name filename)))
        by_setting false = Hoare-pure _ λ s h. h
        by_setting true =
            Hoare-bind (keeps-read_registry_file name declared.1 filename)
              λ found. by_known found found.1 fail_closed

    pub keeps-load_profile_file :
        (filename : String) (profile : Json)
        → Preserves P (load_profile_file vendored has_registry fail_closed filename profile)
    unfolding load_profile_file
    keeps-load_profile_file filename profile = by_name (profile_short_name profile)
      where
        named :
            (empty : Bool) (name : String)
            → Preserves {E = LoadError} {A = Option Json} P (
                if empty
                then pure none
                else load_declared vendored has_registry fail_closed filename name
                    (resolve_profile_declaration profile))
        named true name = Hoare-pure none λ s h. h
        named false name = keeps-load_declared filename name (resolve_profile_declaration profile)

        by_name :
            (o : Option String)
            → Preserves {E = LoadError} {A = Option Json} P (elim o [
              | none ↦ pure none
              | some name ↦
                  if str_eq name ""
                  then pure none
                  else load_declared vendored has_registry fail_closed filename name
                      (resolve_profile_declaration profile)
            ])
        by_name none = Hoare-pure none λ s h. h
        by_name (some name) = named (str_eq name "") name
