-- ===== src/Base/Text/Split.antt =====
-- `str.split(sep)` and `str.partition(sep)` at one character.
use Prim.Native.Nat.{ℕ}
use Prim.Native.Char.{Char, code}
use Prim.Native.String.{String, ◌++◌ as text_append}
use Prim.Native.String.append
use mathlib.Core.Path.{◌≡◌, refl, ap}
use mathlib.Core.Logic.{◌⊎◌, inl, inr}
use mathlib.Core.List.{List, [], ◌∷◌}
use native.Mathlib.Omega.{arith}
use analysis_package.Base.Tests.{◌==◌, if◌then◌else◌, Bool-cases}

-- the character in front of the first word
abbrev pub push : Char → List String → List String
push c [] = String.◌∷◌ c "" ∷ []
push c (w ∷ ws) = String.◌∷◌ c w ∷ ws

unfoldable pub split : ℕ → String → List String
split sep String.[] = "" ∷ []
split sep (String.◌∷◌ c s) =
    let words = split sep s in if code c == sep then "" ∷ words else push c words

-- what stands before the separator and what behind it; "" behind a missing one
unfoldable pub partition : ℕ → String → String × String
partition sep String.[] = ("", "")
partition sep (String.◌∷◌ c s) =
    let rest = partition sep s in if code c == sep then ("", s) else (String.◌∷◌ c rest.0, rest.1)

pub split-partition :
    (sep : ℕ) (s : String)
    → (split sep s ≡ (partition sep s).0 ∷ split sep (partition sep s).1)
      ⊎ ((partition sep s).1 ≡ "")
unfolding split partition
split-partition sep String.[] = inr refl
split-partition sep (String.◌∷◌ c s) = elim (Bool-cases (code c == sep)) [
  | inl same ↦ inl (ground arith)
  | inr other ↦ elim (split-partition sep s) [
    | inl e ↦ inl (ground (arith, ap (push c) e))
    | inr e ↦ inr (ground (arith, e))
  ]
]

-- a text that `partition` cut off, put before the separator and another text
pub split-joined :
    (sep : Char) (s t : String)
    → split (code sep) (text_append (partition (code sep) s).0 (text_append (String.◌∷◌ sep "") t))
      ≡ (partition (code sep) s).0 ∷ split (code sep) t
unfolding split partition
split-joined sep String.[] t =
    rw (append.nil (text_append (String.◌∷◌ sep "") t), append.cons sep "" t, append.nil t)
      (ground arith)
split-joined sep (String.◌∷◌ c s) t = elim (Bool-cases (code c == code sep)) [
  | inl same ↦
      ground
        (arith, append.nil (text_append (String.◌∷◌ sep "") t), append.cons sep "" t, append.nil t)
  | inr other ↦ ground (
    arith,
    append.cons c (partition (code sep) s).0 (text_append (String.◌∷◌ sep "") t),
    ap (push c) (split-joined sep s t),
  )
]
