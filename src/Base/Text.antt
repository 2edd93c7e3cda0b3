-- ===== src/Base/Text.antt =====
-- Python's texts, as far as the code reads into them: `strip`, `in`, and the children's `split`,
-- `partition`, `int` and `str`.
pub mod Split
pub mod Number
use Prim.Native.Nat.{ℕ}
use Prim.Native.Char.{code}
use Prim.Native.String.{String}
use mathlib.Core.Bool.{Bool, false, not, ◌&&◌, ◌||◌}
use mathlib.Core.Option.{Option, none, some}
use analysis_package.Base.Tests.{◌==◌, leb, str_eq}

-- `str.isspace` of one character
unfoldable pub is_space : ℕ → Bool
is_space c =
    (leb 9 c && leb c 13)
    || (leb 28 c && leb c 32)
    || c == 0x85
    || c == 0xa0
    || c == 0x1680
    || (leb 0x2000 c && leb c 0x200a)
    || c == 0x2028
    || c == 0x2029
    || c == 0x202f
    || c == 0x205f
    || c == 0x3000

-- the truth value of `s.strip()`: some character is no space
unfoldable pub has_text : String → Bool
unfolding is_space
has_text String.[] = false
has_text (String.◌∷◌ c s) = not (is_space (code c)) || has_text s

-- `chr(c) in s`
unfoldable pub contains : ℕ → String → Bool
contains c String.[] = false
contains c (String.◌∷◌ d s) = code d == c || contains c s

-- `s.endswith(suffix)`
unfoldable pub ends_with : String → String → Bool
ends_with suffix String.[] = str_eq "" suffix
ends_with suffix (String.◌∷◌ c s) = str_eq (String.◌∷◌ c s) suffix || ends_with suffix s

-- `bool(reason and reason.strip())`
abbrev pub is_given : Option String → Bool
is_given none = false
is_given (some s) = has_text s
