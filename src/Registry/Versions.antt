-- ===== src/Registry/Versions.antt =====
-- The order of versions: `_version_sort_key` of src/ap_registry/profile_registry.py, and
-- `_bump_minor` of src/ap_proposals/apply.py.
use mathlib.Core.Option
use Prim.Native.String.{◌++◌ as text_append}
use analysis_package.Base.{
  zero, suc, String, ◌≡◌, refl, Bool, true, false, ◌||◌, ◌&&◌, Option, none, some, List, [], ◌∷◌,
  map, arith, ltb, ◌==◌, sym, ap, ◌∙◌, inl, inr,
}
use analysis_package.Base.Int.{ℤ, pos, negsuc}
use analysis_package.Base.Text.Split.{split, partition, split-partition, split-joined}
use analysis_package.Base.Text.Number.{parse_int, signed, drop_spaces, show_int, suc_int}
use analysis_package.Base.Text.Number.RoundTrip.{parse_int-show_int, split_of_parse_int}

-- `int(segment)`, or 0
abbrev pub segment_key : String → ℤ
segment_key s = Option.get_or (parse_int s) (pos 0)

-- `_version_sort_key`
unfoldable pub version_sort_key : String → List ℤ
version_sort_key version = map segment_key (split 46 version)

abbrev pub int_lt : ℤ → ℤ → Bool
int_lt (pos m) (pos n) = ltb m n
int_lt (pos m) (negsuc n) = false
int_lt (negsuc m) (pos n) = true
int_lt (negsuc m) (negsuc n) = ltb n m

abbrev pub int_eq : ℤ → ℤ → Bool
int_eq (pos m) (pos n) = m == n
int_eq (negsuc m) (negsuc n) = m == n
int_eq _ _ = false

-- Python's `<` of tuples of integers
unfoldable pub key_lt : List ℤ → List ℤ → Bool
key_lt [] [] = false
key_lt [] (y ∷ ys) = true
key_lt (x ∷ xs) [] = false
key_lt (x ∷ xs) (y ∷ ys) = int_lt x y || (int_eq x y && key_lt xs ys)

-- `f"{major}.{int(minor) + 1}"`
abbrev with_next_minor : String → ℤ → String
with_next_minor major minor = text_append major (text_append "." (show_int (suc_int minor)))

-- `_bump_minor`, or `ProposalApplyError`
unfoldable pub bump_minor : String → Option String
bump_minor version =
    Option.map (with_next_minor (partition 46 version).0) (parse_int (partition 46 version).1)

int_eq_refl : (x : ℤ) → int_eq x x ≡ true
int_eq_refl (pos n) = ground arith
int_eq_refl (negsuc n) = ground arith

int_lt_suc : (z : ℤ) → int_lt z (suc_int z) ≡ true
int_lt_suc (pos n) = ground arith
int_lt_suc (negsuc zero) = refl
int_lt_suc (negsuc (suc n)) = ground arith

key_lt_suc : (x z : ℤ) → key_lt (x ∷ z ∷ []) (x ∷ suc_int z ∷ []) ≡ true
unfolding key_lt
key_lt_suc x z = ground (arith, int_eq_refl x, int_lt_suc z)

-- the sort key of two numeric segments
key_of_two :
    (version head tail : String) (z : ℤ)
    → split 46 version ≡ head ∷ split 46 tail
    → parse_int tail ≡ some z
    → version_sort_key version ≡ segment_key head ∷ z ∷ []
unfolding version_sort_key
key_of_two version head tail z e h =
    ap (map segment_key)
      (e ∙ ap (λ (words : List String). head ∷ words) (split_of_parse_int tail z h))
    ∙ ap (λ (o : Option ℤ). segment_key head ∷ Option.get_or o (pos 0) ∷ []) h

parse_int_empty : parse_int "" ≡ none
unfolding parse_int signed drop_spaces
parse_int_empty = refl

split_of_version :
    (version : String) (z : ℤ)
    → parse_int (partition 46 version).1 ≡ some z
    → split 46 version ≡ (partition 46 version).0 ∷ split 46 (partition 46 version).1
split_of_version version z h = elim (split-partition 46 version) [
  | inl e ↦ e
  | inr missing ↦ absurd (none_is_some (sym no_number ∙ ap parse_int (sym missing) ∙ h))
]
  where
    no_number : parse_int "" ≡ none
    no_number = parse_int_empty

    none_is_some : ¬ (none ≡ some z)
    none_is_some e = cc

-- What `_bump_minor` returns comes after the version it was given, in the registry's order.
pub bump_minor_is_later :
    (version later : String)
    → bump_minor version ≡ some later
    → key_lt (version_sort_key version) (version_sort_key later) ≡ true
unfolding bump_minor
bump_minor_is_later version later h =
    let (z, read, written) =
      (Option.map-eq-some_iff (with_next_minor (partition 46 version).0)
          (parse_int (partition 46 version).1) {b = later}).0
        h in
    let head = (partition 46 version).0 in
    let shown = show_int (suc_int z) in
    rw
      (
        key_of_two version head (partition 46 version).1 z (split_of_version version z read) read,
        key_of_two later head shown (suc_int z)
            (ap (split 46) (sym written) ∙ split-joined "." version shown)
            (parse_int-show_int (suc_int z)),
      )
      (key_lt_suc (segment_key head) z)
