-- ===== src/Proposals/Changed.antt =====
-- What the changed files of a declarative diff do to a version: src/ap_proposals/apply.py.
use analysis_package.Base.{
  String, ◌≡◌, refl, true, false, not, Option, none, some, List, [], ◌∷◌, ◌++◌, arith, Bool-cases,
  inl, inr, is_some, str_eq_refl,
}
use analysis_package.Base.Exec.{Exec, Result, ok, err, pure, gets, require_some}
use analysis_package.Base.Exec.Hoare.{
  Hoare, Outcome, Hoare-bind, Hoare-guard, Hoare-gets, Hoare-pure, Hoare-weaken,
}
use analysis_package.Base.Json.{
  Json, text, array, object, Items, nil, cons, Fields, end, field, get_field, set_field,
  has_text_item, append_item,
}
use analysis_package.Base.Table.{find, update_where, select}
use analysis_package.Proposals.{
  ProposalKind, profile_change, reason_code_add, standard_change, check_add,
}
use analysis_package.Proposals.Apply.{
  ApplyError, wrap, wrapped, text_of, diff_text, with_code, content_of, content_in,
  compute_changed_files, current_file_content, codes_file, codes_of, missing_key, wrong_type,
}
use analysis_package.Registry.{
  Files, Registry, RegistryError, pointer, name_dir, is_component, invalid_component, read_version,
  named_file, put_file, change_file, change_files, current_version,
}
use analysis_package.Registry.Loads.{vendored_file}
use analysis_package.Registry.Bumped.{Nothing}

find-replaced :
    (filename : String) (content : Json) (files : Files)
    → is_some (find (named_file filename) files) ≡ true
    → find
        (named_file filename)
        (update_where (named_file filename) (λ file. (filename, content)) files)
      ≡ some (filename, content)
unfolding find update_where
find-replaced filename content [] h = absurd (ground arith)
find-replaced filename content (file ∷ files) h =
    ground (arith, str_eq_refl filename, find-replaced filename content files)

find-appended :
    (filename : String) (content : Json) (files : Files)
    → is_some (find (named_file filename) files) ≡ false
    → find (named_file filename) (files ++ (filename, content) ∷ []) ≡ some (filename, content)
unfolding find
find-appended filename content [] h = ground (arith, str_eq_refl filename)
find-appended filename content (file ∷ files) h =
    ground (arith, find-appended filename content files)

find-deleted :
    (filename : String) (files : Files)
    → find (named_file filename) (select (λ file. not (named_file filename file)) files) ≡ none
unfolding find select
find-deleted filename [] = refl
find-deleted filename (file ∷ files) = ground (arith, find-deleted filename files)

-- A changed file reads back as its new content, and a deleted one as nothing.
content_in-change_file :
    (filename : String) (content : Option Json) (files : Files)
    → content_in filename (some (change_file filename content files)) ≡ content
unfolding content_in change_file put_file
content_in-change_file filename none files = ground (arith, find-deleted filename files)
content_in-change_file filename (some content) files =
    elim (Bool-cases (is_some (find (named_file filename) files))) [
      | inl there ↦ ground (arith, find-replaced filename content files there)
      | inr missing ↦ ground (arith, find-appended filename content files missing)
    ]

get_field-set_field :
    (key : String) (v : Json) (fields : Fields) → get_field key (set_field key v fields) ≡ v
unfolding get_field set_field
get_field-set_field key v end = ground (arith, str_eq_refl key)
get_field-set_field key v (field k w fields) = ground (arith, get_field-set_field key v fields)

has-append_item :
    (code : String) (codes : Items) → has_text_item code (append_item codes (text code)) ≡ true
unfolding has_text_item append_item
has-append_item code nil = ground (arith, str_eq_refl code)
has-append_item code (cons (text t) codes) = ground (arith, has-append_item code codes)
has-append_item code (cons _ codes) = has-append_item code codes

has-with_code : (code : String) (codes : Items) → has_text_item code (with_code code codes) ≡ true
unfolding with_code
has-with_code code codes = elim (Bool-cases (has_text_item code codes)) [
  | inl there ↦ ground (arith, there)
  | inr missing ↦ ground (arith, missing, has-append_item code codes)
]

-- the files say what the diff asks for: the changed file, or the added code among the reason codes
abbrev pub Applied : ProposalKind → Fields → Files → Type 0
Applied profile_change diff files =
    (file : String) × (text_of (get_field "file" diff) ≡ some file)
    × (content_in file (some files) ≡ content_of (get_field "after" diff))
Applied reason_code_add diff files =
    (code : String) × (text_of (get_field "code" diff) ≡ some code)
    × (fields : Fields) × (codes : Items) × (content_in "reason_codes.json" (some files)
        ≡ some (object fields))
    × (get_field "reason_codes" fields ≡ array codes)
    × (has_text_item code codes ≡ true)
Applied _ diff files = ⊥

-- the changes do to any files what the diff asks for
abbrev pub Does : ProposalKind → Fields → List (String × Option Json) → Type 0
Does kind diff changes = (files : Files) → Applied kind diff (change_files changes files)

module _ {B : Type 0} {P X : Registry → Type 0} {Q : B → Registry → Type 0} where
  pub Hoare-wrap : {m : Exec Registry RegistryError B} → Hoare P m Q X → Hoare P (wrap m) Q X
  unfolding wrap
  Hoare-wrap {m} first = record { run = λ s p. either (m s) (first.run s p) }
    where
      either : (r : Result RegistryError B × Registry) → Outcome Q X r → Outcome Q X (wrapped r)
      either (ok b, t) q = q
      either (err e, t) x = x

module _ {B : Type 0} {P : Registry → Type 0} where
  pub Hoare-require :
      (o : Option B) (e : ApplyError)
      → Hoare P (require_some o e) (λ b s. P s × (o ≡ some b)) Nothing
  Hoare-require none e = record { run = λ s p. tt }
  Hoare-require (some b) e = record { run = λ s p. (p, refl) }

module _ (vendored : String → Option Files) {P : Registry → Type 0} where
  pub reads-text :
      (key : String) (diff : Fields)
      → Hoare P (diff_text key diff) (λ t s. P s × (text_of (get_field key diff) ≡ some t)) Nothing
  unfolding diff_text
  reads-text key diff = Hoare-require (text_of (get_field key diff)) missing_key

  reads-content :
      (name filename : String)
      → Hoare P (current_file_content vendored name filename) (λ c s. P s) Nothing
  unfolding current_file_content current_version name_dir
  reads-content name filename =
      Hoare-bind
        (Hoare-wrap (
          Hoare-bind
            (Hoare-weaken (Hoare-guard (is_component name) invalid_component (λ s p. tt))
              (λ u s h. h.0))
            λ u. Hoare-weaken (Hoare-gets (pointer name)) (λ c s h. h.0)))
        by_version
    where
      by_version :
          (version : Option String)
          → Hoare {E = ApplyError} P
              (elim version [
                | none ↦ pure (vendored_file vendored name filename)
                | some v ↦ gets (λ r. content_in filename (read_version name v r))
              ])
              (λ c s. P s)
              Nothing
      by_version none = Hoare-pure _ λ s h. h
      by_version (some v) =
          Hoare-weaken (Hoare-gets (λ r. content_in filename (read_version name v r)))
            (λ c s h. h.0)

  Does-profile_change :
      (diff : Fields)
      → Hoare P
          (compute_changed_files vendored profile_change diff)
          (λ changes s. P s × Does profile_change diff changes)
          Nothing
  unfolding compute_changed_files change_files
  Does-profile_change diff = Hoare-bind (reads-text "file" diff) λ file.
      Hoare-pure ((file, content_of (get_field "after" diff)) ∷ []) λ s h. (
        h.0,
        λ files.
            (file, h.1, content_in-change_file file (content_of (get_field "after" diff)) files),
      )

  Does-reason_code_add :
      (diff : Fields)
      → Hoare P
          (compute_changed_files vendored reason_code_add diff)
          (λ changes s. P s × Does reason_code_add diff changes)
          Nothing
  unfolding compute_changed_files change_files
  Does-reason_code_add diff =
      Hoare-bind (Hoare-weaken (reads-text "profile" diff) (λ n s h. h.0)) λ name.
        Hoare-bind (reads-content name "reason_codes.json") λ content.
          Hoare-bind
            (Hoare-weaken (Hoare-require (codes_file name content) wrong_type) (λ f s h. h.0))
            λ current.
              Hoare-bind (Hoare-weaken (Hoare-require (codes_of current) wrong_type) (λ f s h. h.0))
                λ codes. Hoare-bind (reads-text "code" diff) λ code.
                  Hoare-pure
                    ((
                      "reason_codes.json",
                      some (
                          object (set_field "reason_codes" (array (with_code code codes)) current)),
                    )
                      ∷ [])
                    λ s h. (
                      h.0,
                      λ files. (
                        code,
                        h.1,
                        set_field "reason_codes" (array (with_code code codes)) current,
                        with_code code codes,
                        content_in-change_file "reason_codes.json" _ files,
                        get_field-set_field "reason_codes" (array (with_code code codes)) current,
                        has-with_code code codes,
                      ),
                    )

  pub Does-changes :
      (kind : ProposalKind) (diff : Fields)
      → Hoare P
          (compute_changed_files vendored kind diff)
          (λ changes s. P s × Does kind diff changes)
          Nothing
  unfolding compute_changed_files
  Does-changes profile_change diff = Does-profile_change diff
  Does-changes reason_code_add diff = Does-reason_code_add diff
  Does-changes standard_change diff = record { run = λ s p. tt }
  Does-changes check_add diff = record { run = λ s p. tt }
