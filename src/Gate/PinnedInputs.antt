-- ===== src/Gate/PinnedInputs.antt =====
-- What a passed check on the inputs says of every input: src/ap_gate/checks/inputs.py.
use analysis_package.Base.{
  ℕ, suc, String, ◌≡◌, ◌⊎◌, refl, Bool, true, not, ◌||◌, Option, none, some, [], arith, Bool-cases,
  inl, inr, str_eq,
}
use analysis_package.Base.Json.{
  Json, null, boolean, number, text, array, object, Items, nil, cons, Fields, get_field, is_truthy,
  is_text, items_or_none, count_items,
}
use Prim.Native.String.{◌++◌ as text_append}
use analysis_package.Base.Text.{contains}
use analysis_package.Base.Text.Number.{show_nat}
use analysis_package.Gate.{CheckOutcome, Outcome}
use analysis_package.Gate.Clean.{both_clean, clean_of_pass, clean_of_map}
use analysis_package.Gate.Found.{Found, each, verdict, with_path, label}
use analysis_package.Gate.Paths.{Look, escapes, no_file, has_file, FileSystem, PathParts, look}
use analysis_package.Gate.Pinned.{
  same_digest, declared_digest, check_digest, check_input_file, check_input, inputs_pinned,
  check_inputs_pinned,
}

abbrev pub AllItems : (Json → Type 0) → Items → Type 0
AllItems P nil = Unit
AllItems P (cons item items) = P item × AllItems P items

module _ (sha256 : String → String) where
  -- no digest is declared, or it is that of the content
  abbrev pub fits_digest : Json → String → Bool
  fits_digest (text hash) content =
      str_eq hash "" || same_digest (declared_digest hash) (sha256 content)
  fits_digest hash content = not (is_truthy hash)

  -- an external reference with a locator, or a file of the package whose digest is the declared one
  abbrev pub IsPinned : (String → Look) → Json → Type 0
  IsPinned at (object item) =
      (is_text "external_ref" (get_field "availability" item) ≡ true)
        × (is_truthy (get_field "external_ref" item) ≡ true)
      ⊎ (path : String) × (content : String) × (get_field "path" item ≡ text path)
        × (at path ≡ has_file content)
        × (fits_digest (get_field "content_sha256" item) content ≡ true)
  IsPinned at _ = ⊥

module _ (sha256 : String → String) (print : Json → String) (at : String → Look) where
  digest-fits :
      (name path content : String) (hash : Json) (f : Found)
      → check_digest sha256 print at name path content hash ≡ some f
      → f.problems ≡ []
      → fits_digest sha256 hash content ≡ true
  unfolding check_digest
  digest-fits name path content (text hash) f h clean =
      elim (Bool-cases (str_eq hash "" || same_digest (declared_digest hash) (sha256 content))) [
        | inl fits ↦ fits
        | inr differs ↦ absurd (ground (arith, differs, h, clean))
      ]
  digest-fits name path content hash f h clean = elim (Bool-cases (is_truthy hash)) [
    | inl given ↦ absurd (ground (arith, given, h))
    | inr empty ↦ ground (arith, empty)
  ]

  input_file-IsPinned :
      (name path : String) (hash : Json) (seen : Look) (f : Found)
      → check_input_file sha256 print at name hash path seen ≡ some f
      → f.problems ≡ []
      → (content : String) × (seen ≡ has_file content) × (fits_digest sha256 hash content ≡ true)
  unfolding check_input_file
  input_file-IsPinned name path hash escapes f h clean = absurd (ground (arith, h, clean))
  input_file-IsPinned name path hash no_file f h clean = absurd (ground (arith, h, clean))
  input_file-IsPinned name path hash (has_file content) f h clean =
      (content, refl, digest-fits name path content hash f h clean)

  path-IsPinned :
      (name : String) (hash value : Json) (f : Found)
      → with_path value (λ path. check_input_file sha256 print at name hash path (at path)) ≡ some f
      → f.problems ≡ []
      → (path : String) × (content : String) × (value ≡ text path)
        × (at path ≡ has_file content)
        × (fits_digest sha256 hash content ≡ true)
  unfolding with_path
  path-IsPinned name hash (text path) f h clean = elim (Bool-cases (contains 0 path)) [
    | inl bad ↦ absurd (ground (arith, bad, h))
    | inr good ↦
        let (content, seen, fits) =
          input_file-IsPinned name path hash (at path) f (ground (arith, good, h)) clean in
        (path, content, refl, seen, fits)
  ]
  path-IsPinned name hash null f h clean = absurd (ground arith)
  path-IsPinned name hash (boolean b) f h clean = absurd (ground arith)
  path-IsPinned name hash (number n) f h clean = absurd (ground arith)
  path-IsPinned name hash (array items) f h clean = absurd (ground arith)
  path-IsPinned name hash (object fields) f h clean = absurd (ground arith)

  input-IsPinned :
      (i : ℕ) (item : Json) (f : Found)
      → check_input sha256 print at i item ≡ some f
      → f.problems ≡ []
      → IsPinned sha256 at item
  unfolding check_input
  input-IsPinned i (object item) f h clean =
      elim (Bool-cases (is_text "external_ref" (get_field "availability" item))) [
        | inl external ↦ elim (Bool-cases (is_truthy (get_field "external_ref" item))) [
          | inl located ↦ inl (external, located)
          | inr empty ↦ absurd (ground (arith, external, empty, h, clean))
        ]
        | inr local ↦ elim (Bool-cases (is_truthy (get_field "path" item))) [
          | inr empty ↦ absurd (ground (arith, local, empty, h, clean))
          | inl set ↦ inr (
              path-IsPinned (label print "inputs" i item) (get_field "content_sha256" item)
                (get_field "path" item) f (ground (arith, local, set, h)) clean)
        ]
      ]
  input-IsPinned i null f h clean = absurd (ground (arith, h, clean))
  input-IsPinned i (boolean b) f h clean = absurd (ground (arith, h, clean))
  input-IsPinned i (number n) f h clean = absurd (ground (arith, h, clean))
  input-IsPinned i (text s) f h clean = absurd (ground (arith, h, clean))
  input-IsPinned i (array items) f h clean = absurd (ground (arith, h, clean))

  each-IsPinned :
      (i : ℕ) (items : Items) (f : Found)
      → each (check_input sha256 print at) i items ≡ some f
      → f.problems ≡ []
      → AllItems (IsPinned sha256 at) items
  unfolding each
  each-IsPinned i nil f h clean = tt
  each-IsPinned i (cons item items) f h clean =
      let (a, b, first, rest, a_clean, b_clean) = both_clean _ _ f h clean in
      (input-IsPinned i item a first a_clean, each-IsPinned (suc i) items b rest b_clean)

  looked-IsPinned :
      (manifest : Fields) (o : CheckOutcome) (listed : Option Items)
      → items_or_none (get_field "inputs" manifest) ≡ listed
      → inputs_pinned sha256 print at manifest ≡ some o
      → o.result ≡ Outcome.pass
      → (items : Items) × (items_or_none (get_field "inputs" manifest) ≡ some items)
        × AllItems (IsPinned sha256 at) items
  unfolding inputs_pinned
  looked-IsPinned manifest o none e h passed = absurd (ground (arith, e, h))
  looked-IsPinned manifest o (some items) e h passed =
      let (f, found, clean) =
        clean_of_map
          (verdict "inputs_pinned" "Input pinning problems:\n" "" (
            text_append (show_nat (count_items items))
              " input(s) pinned (path/hash or external_ref verified)"))
          (each (check_input sha256 print at) 0 items) o (clean_of_pass _ _ _ _)
          (ground (arith, e, h)) passed in
      (items, e, each-IsPinned 0 items f found clean)

-- A package whose check on the inputs passes has only pinned inputs: each is an external reference
-- with a locator, or a file found inside the package, whose SHA-256 is the declared one if one is
-- declared.
pub passed_inputs-IsPinned :
    (sha256 : String → String) (print : Json → String) (fs : FileSystem) (pkg : PathParts)
    (manifest : Fields) (o : CheckOutcome)
    → check_inputs_pinned sha256 print fs pkg manifest ≡ some o
    → o.result ≡ Outcome.pass
    → (items : Items) × (items_or_none (get_field "inputs" manifest) ≡ some items)
      × AllItems (IsPinned sha256 (look fs pkg)) items
unfolding check_inputs_pinned
passed_inputs-IsPinned sha256 print fs pkg manifest o =
    looked-IsPinned sha256 print (look fs pkg) manifest o _ refl
