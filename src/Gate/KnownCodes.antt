-- ===== src/Gate/KnownCodes.antt =====
-- What a passed check on the reason codes says of every row: src/ap_gate/checks/labels.py.
use mathlib.Core.Option
use analysis_package.Base.{
  ℕ, String, ◌≡◌, refl, Bool, true, false, not, ◌&&◌, Option, none, some, List, [], ◌∷◌, arith,
  Bool-cases, Option-cases, inl, inr,
}
use analysis_package.Base.Exec.{Result, ok, err}
use analysis_package.Base.Json.{
  Json, null, boolean, number, text, array, object, Items, Fields, get_field, is_truthy, is_text,
  has_text_item,
}
use analysis_package.Base.Table.{All}
use analysis_package.Gate.{CheckOutcome, Outcome}
use analysis_package.Gate.Clean.{both_clean, clean_of_pass, clean_of_map}
use analysis_package.Gate.Found.{Found, joined, verdict}
use analysis_package.Base.Text.{contains}
use analysis_package.Registry.{Files, Registry}
use analysis_package.Registry.Loads.{LoadError, load_profile_file, profile_short_name}
use analysis_package.Gate.Layout.{labels_of}
use analysis_package.Gate.Paths.{Look, escapes, no_file, has_file, FileSystem, PathParts, look}
use analysis_package.Gate.Labels.{
  is_allowed, check_reason_code, each_row, override_rows, split_lines, judge_codes, judge_file,
  judge_text, judge_path, allowed_codes, reason_codes_known, check_reason_codes_known,
}

-- the row's code is in the allow-list, and has its text where OTHER needs one
abbrev pub HasKnownCode : Items → Bool → ℕ × Fields → Type 0
HasKnownCode codes needs_text row =
    (code : String) × (get_field "reason_code" row.1 ≡ text code)
    × (has_text_item code codes ≡ true)
    × ((is_text "OTHER" (get_field "reason_code" row.1)
          && needs_text
          && not (is_truthy (get_field "reason_text" row.1)))
        ≡ false)

allowed_is_text :
    (codes : Items) (v : Json)
    → is_allowed codes v ≡ some true
    → (code : String) × (v ≡ text code) × (has_text_item code codes ≡ true)
unfolding is_allowed
allowed_is_text codes (text t) h = (t, refl, ground (arith, h))
allowed_is_text codes null h = absurd (ground (arith, h))
allowed_is_text codes (boolean b) h = absurd (ground (arith, h))
allowed_is_text codes (number n) h = absurd (ground (arith, h))
allowed_is_text codes (array items) h = absurd (ground (arith, h))
allowed_is_text codes (object fields) h = absurd (ground (arith, h))

module _ (loads : String → Option Json) (print repr : Json → String) (sorted_repr : Items → String)
    (refusal : Json → String) (profile : String) (codes : Items) (needs_text : Bool)
    (path : String) where
  abbrev check : ℕ → Fields → Option Found
  check = check_reason_code loads print repr sorted_repr refusal profile codes needs_text path

  row-HasKnownCode :
      (lineno : ℕ) (row : Fields) (f : Found)
      → check lineno row ≡ some f
      → f.problems ≡ []
      → HasKnownCode codes needs_text (lineno, row)
  unfolding check_reason_code
  row-HasKnownCode lineno row f h clean =
      by_allowed (is_allowed codes (get_field "reason_code" row)) refl
    where
      by_allowed :
          (o : Option Bool)
          → is_allowed codes (get_field "reason_code" row) ≡ o
          → HasKnownCode codes needs_text (lineno, row)
      by_allowed none e = absurd (ground (arith, e, h))
      by_allowed (some false) e = absurd (ground (arith, e, h, clean))
      by_allowed (some true) e =
          let (code, is, there) = allowed_is_text codes (get_field "reason_code" row) e in
          (code, is, there, ground (arith, e, h, clean))

  rows-HasKnownCode :
      (rows : List (ℕ × Fields)) (f : Found)
      → each_row loads print repr sorted_repr refusal check rows ≡ some f
      → f.problems ≡ []
      → All (HasKnownCode codes needs_text) rows
  unfolding each_row
  rows-HasKnownCode [] f h clean = tt
  rows-HasKnownCode ((lineno, row) ∷ rows) f h clean =
      let (a, b, first, rest, a_clean, b_clean) = both_clean _ _ f h clean in
      (row-HasKnownCode lineno row a first a_clean, rows-HasKnownCode rows b rest b_clean)

  judged-HasKnownCode :
      (content : String) (o : CheckOutcome)
      → judge_codes loads print repr sorted_repr refusal profile codes needs_text path content
        ≡ some o
      → o.result ≡ Outcome.pass
      → All
          (HasKnownCode codes needs_text)
          (override_rows loads print repr sorted_repr refusal 1 (split_lines content))
  unfolding judge_codes
  judged-HasKnownCode content o h passed =
      let (f, found, clean) =
        clean_of_map
          (λ (f : Found).
            verdict "reason_codes_known" "Reason code problems:\n" ""
              (joined ("all override reason codes valid for profile '" ∷ profile ∷ "'" ∷ []))
              (record f { paths = path ∷ [] }))
          _ o (λ f. clean_of_pass _ _ _ _ (record f { paths = path ∷ [] })) h passed in
      rows-HasKnownCode (override_rows loads print repr sorted_repr refusal 1 (split_lines content))
        f found clean

module _ (loads : String → Option Json) (print repr : Json → String) (sorted_repr : Items → String)
    (refusal : Json → String) (at : String → Look) where
  -- the declared path is a file of the package, whose rows have the codes of an allow-list
  abbrev pub RowsHaveCodes : Fields → Json → Type 0
  RowsHaveCodes allowlist declared =
      (path : String) × (content : String) × (codes : Items) × (declared ≡ text path)
      × (at path ≡ has_file content)
      × (allowed_codes allowlist ≡ some codes)
      × All (HasKnownCode codes (is_truthy (get_field "other_requires_reason_text" allowlist)))
          (override_rows loads print repr sorted_repr refusal 1 (split_lines content))

module _ (loads : String → Option Json) (print repr : Json → String) (sorted_repr : Items → String)
    (refusal : Json → String) (at : String → Look) (o : CheckOutcome)
    (passed : o.result ≡ Outcome.pass) where
  file-HasKnownCode :
      (profile : String) (allowlist : Fields) (path : String) (seen : Look)
      → at path ≡ seen
      → judge_file loads print repr sorted_repr refusal profile allowlist path seen ≡ some o
      → RowsHaveCodes loads print repr sorted_repr refusal at allowlist (text path)
  unfolding judge_file
  file-HasKnownCode profile allowlist path escapes e h = absurd (ground (arith, h, passed))
  file-HasKnownCode profile allowlist path no_file e h = absurd (ground (arith, h, passed))
  file-HasKnownCode profile allowlist path (has_file content) e h =
      by_codes (allowed_codes allowlist) refl
    where
      by_codes :
          (c : Option Items)
          → allowed_codes allowlist ≡ c
          → RowsHaveCodes loads print repr sorted_repr refusal at allowlist (text path)
      by_codes none none_e = absurd (ground (arith, none_e, h))
      by_codes (some codes) some_e = (
        path,
        content,
        codes,
        refl,
        e,
        some_e,
        judged-HasKnownCode loads print repr sorted_repr refusal profile codes
            (is_truthy (get_field "other_requires_reason_text" allowlist)) path content o
            (ground (arith, some_e, h)) passed,
      )

  text-HasKnownCode :
      (profile : String) (allowlist : Fields) (value : Json)
      → judge_text loads print repr sorted_repr refusal at profile allowlist value ≡ some o
      → RowsHaveCodes loads print repr sorted_repr refusal at allowlist value
  unfolding judge_text
  text-HasKnownCode profile allowlist (text path) h = elim (Bool-cases (contains 0 path)) [
    | inl bad ↦ absurd (ground (arith, bad, h))
    | inr good ↦ file-HasKnownCode profile allowlist path (at path) refl (ground (arith, good, h))
  ]
  text-HasKnownCode profile allowlist null h = absurd (ground arith)
  text-HasKnownCode profile allowlist (boolean b) h = absurd (ground arith)
  text-HasKnownCode profile allowlist (number n) h = absurd (ground arith)
  text-HasKnownCode profile allowlist (array items) h = absurd (ground arith)
  text-HasKnownCode profile allowlist (object fields) h = absurd (ground arith)

  path-HasKnownCode :
      (profile : String) (allowlist : Fields) (value : Json)
      → judge_path loads print repr sorted_repr refusal at profile allowlist value ≡ some o
      → RowsHaveCodes loads print repr sorted_repr refusal at allowlist value
  unfolding judge_path
  path-HasKnownCode profile allowlist value h = elim (Bool-cases (is_truthy value)) [
    | inr unset ↦ absurd (ground (arith, unset, h, passed))
    | inl set ↦ text-HasKnownCode profile allowlist value (ground (arith, set, h))
  ]

  loaded-HasKnownCode :
      (loaded : Result LoadError (Option Json)) (manifest : Fields)
      → reason_codes_known loads print repr sorted_repr refusal at loaded manifest ≡ some o
      → (allowlist labels : Fields) × (loaded ≡ ok (some (object allowlist)))
        × (labels_of manifest ≡ some labels)
        × RowsHaveCodes loads print repr sorted_repr refusal at allowlist
            (get_field "overrides_path" labels)
  unfolding reason_codes_known
  loaded-HasKnownCode (err e) manifest h = absurd (ground (arith, h, passed))
  loaded-HasKnownCode (ok none) manifest h = absurd (ground (arith, h, passed))
  loaded-HasKnownCode (ok (some (object allowlist))) manifest h =
      elim (Option-cases (labels_of manifest)) [
        | inl raised ↦ absurd (ground (arith, raised, h))
        | inr (labels, e) ↦ (
          allowlist,
          labels,
          refl,
          e,
          path-HasKnownCode (Option.get_or (profile_short_name (get_field "profile" manifest)) "")
              allowlist (get_field "overrides_path" labels) (ground (arith, e, h)),
        )
      ]
  loaded-HasKnownCode (ok (some null)) manifest h = absurd (ground (arith, h, passed))
  loaded-HasKnownCode (ok (some (boolean b))) manifest h = absurd (ground arith)
  loaded-HasKnownCode (ok (some (number n))) manifest h = absurd (ground arith)
  loaded-HasKnownCode (ok (some (text t))) manifest h = absurd (ground arith)
  loaded-HasKnownCode (ok (some (array items))) manifest h = absurd (ground arith)

-- Where the check on the reason codes passes, the profile's allow-list was loaded, the manifest's
-- `labels.overrides_path` is a file inside the package, and every line of that file that is a JSON
-- object has a code of the allow-list, and a non-empty reason text where its code is OTHER and the
-- profile asks for one.
pub passed_codes-HasKnownCode :
    (loads : String → Option Json) (print repr : Json → String) (sorted_repr : Items → String)
    (refusal : Json → String) (vendored : String → Option Files) (has_registry fail_closed : Bool)
    (fs : FileSystem) (pkg : PathParts) (manifest : Fields) (s : Registry) (o : CheckOutcome)
    → (check_reason_codes_known loads print repr sorted_repr refusal vendored has_registry
        fail_closed fs pkg manifest s).0
      ≡ some o
    → o.result ≡ Outcome.pass
    → (allowlist labels : Fields) × ((load_profile_file vendored has_registry fail_closed
          "reason_codes.json"
          (get_field "profile" manifest)
          s).0
        ≡ ok (some (object allowlist)))
      × (labels_of manifest ≡ some labels)
      × RowsHaveCodes loads print repr sorted_repr refusal
          (look fs pkg)
          allowlist
          (get_field "overrides_path" labels)
unfolding check_reason_codes_known
passed_codes-HasKnownCode loads print repr sorted_repr refusal vendored has_registry fail_closed fs
      pkg manifest s o h passed =
    loaded-HasKnownCode loads print repr sorted_repr refusal (look fs pkg) o passed _ manifest h
