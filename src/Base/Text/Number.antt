-- ===== src/Base/Text/Number.antt =====
-- `int(s)` of a text of ASCII digits, with the spaces, the sign and the underscores that Python
-- allows, and `str(n)` of an integer.
pub mod RoundTrip
use Prim.Native.Nat.{ℕ, zero, suc, ◌+◌, ◌-◌, ◌*◌, ◌/◌, ◌%◌}
use Prim.Native.Char.{Char, code}
use Prim.Native.String.{String, ◌++◌ as text_append}
use mathlib.Core.Path.{◌≡◌, refl}
use mathlib.Core.Bool.{Bool, ◌&&◌}
use mathlib.Core.Option
use mathlib.Core.Option.{Option, none, some}
use analysis_package.Base.Tests.{leb, ◌==◌, if◌then◌else◌}
use analysis_package.Base.Int.{ℤ, pos, negsuc}
use analysis_package.Base.Text.{is_space}

-- how far the digits are read
pub data Scan : Type 0 where
  start : Scan
  after_digit : ℕ → Scan
  after_underscore : ℕ → Scan
  after_space : ℕ → Scan
  bad : Scan

abbrev pub is_digit : ℕ → Bool
is_digit c = leb 48 c && leb c 57

unfoldable pub scan_one : Scan → ℕ → Scan
unfolding is_space
scan_one start c = if is_digit c then after_digit (c - 48) else bad
scan_one (after_digit n) c =
    if is_digit c
    then after_digit (n * 10 + (c - 48))
    else if c == 95
    then after_underscore n
    else if is_space c
    then after_space n
    else bad
scan_one (after_underscore n) c = if is_digit c then after_digit (n * 10 + (c - 48)) else bad
scan_one (after_space n) c = if is_space c then after_space n else bad
scan_one bad c = bad

unfoldable pub scan : Scan → String → Scan
scan st String.[] = st
scan st (String.◌∷◌ c s) = scan (scan_one st (code c)) s

abbrev pub scanned : Scan → Option ℕ
scanned (after_digit n) = some n
scanned (after_space n) = some n
scanned _ = none

-- what stands behind the spaces at the front
unfoldable pub drop_spaces : String → String
unfolding is_space
drop_spaces String.[] = ""
drop_spaces (String.◌∷◌ c s) =
    let rest = drop_spaces s in if is_space (code c) then rest else String.◌∷◌ c s

abbrev pub negated : ℕ → ℤ
negated zero = pos 0
negated (suc n) = negsuc n

-- the sign and the digits
unfoldable pub signed : String → Option ℤ
signed String.[] = none
signed (String.◌∷◌ c s) =
    if code c == 45
    then Option.map negated (scanned (scan start s))
    else if code c == 43
    then Option.map pos (scanned (scan start s))
    else Option.map pos (scanned (scan start (String.◌∷◌ c s)))

-- `int(s)`, or ValueError
unfoldable pub parse_int : String → Option ℤ
parse_int s = signed (drop_spaces s)

abbrev pub digit_char : ℕ → Char
digit_char zero = "0"
digit_char (suc zero) = "1"
digit_char (suc (suc zero)) = "2"
digit_char (suc (suc (suc zero))) = "3"
digit_char (suc (suc (suc (suc zero)))) = "4"
digit_char (suc (suc (suc (suc (suc zero))))) = "5"
digit_char (suc (suc (suc (suc (suc (suc zero)))))) = "6"
digit_char (suc (suc (suc (suc (suc (suc (suc zero))))))) = "7"
digit_char (suc (suc (suc (suc (suc (suc (suc (suc zero)))))))) = "8"
digit_char _ = "9"

-- the digits of a number in front of a text; more fuel than the number is enough
unfoldable pub digits : ℕ → ℕ → String → String
digits zero n out = out
digits (suc fuel) n out =
    let shown = String.◌∷◌ (digit_char (n % 10)) out in
    let rest = digits fuel (n / 10) shown in if n / 10 == 0 then shown else rest

unfoldable pub show_nat : ℕ → String
show_nat n = digits (suc n) n ""

-- `str(n)`
unfoldable pub show_int : ℤ → String
show_int (pos n) = show_nat n
show_int (negsuc n) = text_append "-" (show_nat (suc n))

-- `n + 1`
abbrev pub suc_int : ℤ → ℤ
suc_int (pos n) = pos (suc n)
suc_int (negsuc zero) = pos 0
suc_int (negsuc (suc n)) = negsuc n

prints : (show_int (pos 120) ≡ "120") × (show_int (negsuc 8) ≡ "-9") × (show_int (pos 0) ≡ "0")
unfolding show_int show_nat digits
prints = (refl, refl, refl)

reads :
    (parse_int " 1_2 " ≡ some (pos 12))
    × (parse_int "-3" ≡ some (negsuc 2))
    × (parse_int "1__2" ≡ none)
    × (parse_int "" ≡ none)
    × (parse_int "+ 1" ≡ none)
unfolding parse_int signed drop_spaces scan scan_one
reads = (refl, refl, refl, refl, refl)
