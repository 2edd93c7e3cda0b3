-- ===== src/Registry/Places.antt =====
-- A directory of the registry that a path finds is still found there after a write, with the same
-- files: the paths of src/ap_gate/profiles.py.
use mathlib.Core.Path.{subst}
use mathlib.Core.Option
use analysis_package.Base.{
  String, ◌≡◌, refl, ap, sym, ◌∙◌, true, ◌&&◌, ◌||◌, Option, none, some, List, [], ◌∷◌, arith,
  Bool-cases, Option-cases, inl, inr, is_some, str_eq,
}
use analysis_package.Base.Text.{contains}
use analysis_package.Base.Text.Split.{split, partition}
use analysis_package.Registry.{Registry, find_profile, find_version}
use analysis_package.Registry.Immutable.{Extends}
use analysis_package.Registry.Loads.{
  Place, root, in_profile, in_version, parent, child, enter, walk, version_dir, file_at,
}

-- a directory that is there
abbrev pub IsPlace : Place → Registry → Type 0
IsPlace (in_version name version) s = is_some (find_version name version s) ≡ true
IsPlace _ s = Unit

walk_nowhere : (segments : List String) (s : Registry) → walk segments none s ≡ none
unfolding walk
walk_nowhere [] s = refl
walk_nowhere (segment ∷ segments) s = refl

is_place :
    (place next : Place) (s : Registry) → some place ≡ some next → IsPlace place s → IsPlace next s
is_place place next s e there = subst (λ p. IsPlace p s) (Option.some-injective place next e) there

parent-IsPlace : (place next : Place) (s : Registry) → parent place ≡ some next → IsPlace next s
unfolding parent
parent-IsPlace root next s e = absurd (ground arith)
parent-IsPlace (in_profile name) next s e = is_place root next s e tt
parent-IsPlace (in_version name version) next s e = is_place (in_profile name) next s e tt

child-IsPlace :
    (segment : String) (place next : Place) (s : Registry)
    → child segment place s ≡ some next
    → IsPlace next s
unfolding child
child-IsPlace segment root next s e = elim (Bool-cases (is_some (find_profile segment s))) [
  | inl found ↦ is_place (in_profile segment) next s (ground arith) tt
  | inr missing ↦ absurd (ground arith)
]
child-IsPlace segment (in_profile name) next s e =
    elim (Bool-cases (is_some (find_version name segment s))) [
      | inl found ↦ is_place (in_version name segment) next s (ground arith) found
      | inr missing ↦ absurd (ground arith)
    ]
child-IsPlace segment (in_version name version) next s e = absurd (ground arith)

enter-IsPlace :
    (segment : String) (place next : Place) (s : Registry)
    → IsPlace place s
    → enter segment place s ≡ some next
    → IsPlace next s
unfolding enter
enter-IsPlace segment place next s there h =
    elim (Bool-cases (str_eq segment "" || str_eq segment ".")) [
      | inl here ↦ is_place place next s (ground arith) there
      | inr moves ↦ elim (Bool-cases (str_eq segment "..")) [
        | inl up ↦ parent-IsPlace place next s (ground arith)
        | inr down ↦ child-IsPlace segment place next s (ground arith)
      ]
    ]

walk-IsPlace :
    (segments : List String) (place end : Place) (s : Registry)
    → IsPlace place s
    → walk segments (some place) s ≡ some end
    → IsPlace end s
unfolding walk
walk-IsPlace [] place end s there h =
    subst (λ p. IsPlace p s) (Option.some-injective place end h) there
walk-IsPlace (segment ∷ segments) place end s there h =
    elim (Option-cases (enter segment place s)) [
      | inl missing ↦
          absurd (ground (arith, walk_nowhere segments s, ap (λ o. walk segments o s) missing))
      | inr (next, entered) ↦
          walk-IsPlace segments next end s (enter-IsPlace segment place next s there entered)
            (sym (ap (λ o. walk segments o s) entered) ∙ h)
    ]

module _ {s t : Registry} (more : Extends s t) where
  enter-Extends :
      (segment : String) (place next : Place)
      → enter segment place s ≡ some next
      → enter segment place t ≡ some next
  unfolding enter parent child
  enter-Extends segment root next h = ground (arith, more.profiles_stay segment)
  enter-Extends segment (in_profile name) next h =
      elim (Option-cases (find_version name segment s)) [
        | inl missing ↦ ground (arith, missing)
        | inr (x, found) ↦ ground (arith, found, more.versions_stay name segment x found)
      ]
  enter-Extends segment (in_version name version) next h = ground arith

  walk-Extends :
      (segments : List String) (place : Option Place) (end : Place)
      → walk segments place s ≡ some end
      → walk segments place t ≡ some end
  unfolding walk
  walk-Extends [] place end h = h
  walk-Extends (segment ∷ segments) none end h = absurd (ground arith)
  walk-Extends (segment ∷ segments) (some place) end h =
      elim (Option-cases (enter segment place s)) [
        | inl missing ↦
            absurd (ground (arith, walk_nowhere segments s, ap (λ o. walk segments o s) missing))
        | inr (next, entered) ↦
            ap (λ o. walk segments o t) (enter-Extends segment place next entered)
            ∙ walk-Extends segments (some next) end (sym (ap (λ o. walk segments o s) entered) ∙ h)
      ]

module _ {s t : Registry} (more : Extends s t) where
  pub version_dir-Extends :
      (name version : String) (place : Place)
      → version_dir name version s ≡ some place
      → version_dir name version t ≡ some place
  unfolding version_dir
  version_dir-Extends name version place h =
      elim (Bool-cases (str_eq (partition 47 version).0 "" && contains 47 version)) [
        | inl absolute ↦ absurd (ground arith)
        | inr relative ↦
            ground
              (arith, walk-Extends more (name ∷ split 47 version) (some root) place (ground arith))
      ]

  pub file_at-Extends :
      (filename : String) (place : Place)
      → IsPlace place s
      → file_at filename place t ≡ file_at filename place s
  unfolding file_at
  file_at-Extends filename root there = refl
  file_at-Extends filename (in_profile name) there = refl
  file_at-Extends filename (in_version name version) there =
      elim (Option-cases (find_version name version s)) [
        | inl missing ↦ absurd (ground (arith, there, missing))
        | inr (x, found) ↦ ground (arith, found, more.versions_stay name version x found)
      ]

pub version_dir-IsPlace :
    (name version : String) (place : Place) (s : Registry)
    → version_dir name version s ≡ some place
    → IsPlace place s
unfolding version_dir
version_dir-IsPlace name version place s h =
    elim (Bool-cases (str_eq (partition 47 version).0 "" && contains 47 version)) [
      | inl absolute ↦ absurd (ground arith)
      | inr relative ↦ walk-IsPlace (name ∷ split 47 version) root place s tt (ground arith)
    ]
