-- ===== src/Base/Text/Number/RoundTrip.antt =====
-- What `int` reads of a printed number, and that a number has no separator in it.
use Prim.Native.Nat.{ℕ, zero, suc, ◌+◌, ◌/◌, ◌%◌, ◌≤◌, ◌<◌}
use Prim.Native.Char.{Char, code}
use Prim.Native.String.{String}
use Prim.Native.String.append
use mathlib.Core.Path.{◌≡◌, refl, sym, ap, ◌∙◌, subst}
use mathlib.Core.Option
use mathlib.Core.Option.{Option, none, some}
use mathlib.Core.List.{[], ◌∷◌}
use mathlib.Core.Logic.{◌≢◌, inl, inr}
use native.Mathlib.Omega.{arith}
use analysis_package.Base.Tests.{◌==◌, Bool-cases}
use analysis_package.Base.Int.{ℤ, pos, negsuc}
use analysis_package.Base.Text.{is_space}
use analysis_package.Base.Text.Split.{split, push}
use analysis_package.Base.Text.Number.{
  Scan, start, after_digit, after_underscore, after_space, bad, scan_one, scan, scanned,
  drop_spaces, signed, negated, parse_int, digit_char, digits, show_nat, show_int,
}

code-digit_char : (d : ℕ) → d < 10 → code (digit_char d) ≡ 48 + d
code-digit_char zero h = refl
code-digit_char (suc zero) h = refl
code-digit_char (suc (suc zero)) h = refl
code-digit_char (suc (suc (suc zero))) h = refl
code-digit_char (suc (suc (suc (suc zero)))) h = refl
code-digit_char (suc (suc (suc (suc (suc zero))))) h = refl
code-digit_char (suc (suc (suc (suc (suc (suc zero)))))) h = refl
code-digit_char (suc (suc (suc (suc (suc (suc (suc zero))))))) h = refl
code-digit_char (suc (suc (suc (suc (suc (suc (suc (suc zero)))))))) h = refl
code-digit_char (suc (suc (suc (suc (suc (suc (suc (suc (suc d))))))))) h = ground arith

-- reading the last digit of `n` after the digits before it gives `n`
scan_last_start : (n : ℕ) → n / 10 ≡ 0 → scan_one start (code (digit_char (n % 10))) ≡ after_digit n
unfolding scan_one
scan_last_start n h = rw (code-digit_char (n % 10) (omega arith)) (ground arith)

scan_last : (n : ℕ) → scan_one (after_digit (n / 10)) (code (digit_char (n % 10))) ≡ after_digit n
unfolding scan_one
scan_last n = rw (code-digit_char (n % 10) (omega arith)) (ground arith)

scan-digits :
    (fuel n : ℕ) (out : String)
    → n < fuel
    → scan start (digits fuel n out) ≡ scan (after_digit n) out
unfolding scan digits
scan-digits zero n out h = absurd (omega arith)
scan-digits (suc fuel) n out h = elim (Bool-cases (n / 10 == 0)) [
  | inl small ↦ ground (arith, ap (λ st. scan st out) (scan_last_start n (ground arith)))
  | inr large ↦ ground (
    arith,
    scan-digits fuel (n / 10) (String.◌∷◌ (digit_char (n % 10)) out) (ground arith),
    ap (λ st. scan st out) (scan_last n),
  )
]

scan-show_nat : (n : ℕ) → scan start (show_nat n) ≡ after_digit n
unfolding show_nat scan
scan-show_nat n = scan-digits (suc n) n "" (omega arith)

abbrev StartsWithDigit : String → Type 0
StartsWithDigit s = (c : Char) × (t : String) × (s ≡ String.◌∷◌ c t) × (48 ≤ code c) × (code c ≤ 57)

digits-StartsWithDigit :
    (fuel n : ℕ) (out : String) → n < fuel → StartsWithDigit (digits fuel n out)
unfolding digits
digits-StartsWithDigit zero n out h = absurd (omega arith)
digits-StartsWithDigit (suc fuel) n out h = elim (Bool-cases (n / 10 == 0)) [
  | inl small ↦ (
    digit_char (n % 10),
    out,
    ground arith,
    omega (arith, code-digit_char (n % 10) (omega arith)),
    omega (arith, code-digit_char (n % 10) (omega arith)),
  )
  | inr large ↦
      let shown = String.◌∷◌ (digit_char (n % 10)) out in
      let (c, t, e, low, high) = digits-StartsWithDigit fuel (n / 10) shown (ground arith) in
      (c, t, ground (arith, e), low, high)
]

parse_int_of_digits :
    (s : String) → StartsWithDigit s → parse_int s ≡ Option.map pos (scanned (scan start s))
unfolding parse_int drop_spaces signed is_space
parse_int_of_digits s (c, t, e, low, high) =
    subst (λ u. parse_int u ≡ Option.map pos (scanned (scan start u))) (sym e) (ground arith)

signed-minus : (s : String) → parse_int (String.◌∷◌ "-" s) ≡ signed (String.◌∷◌ "-" s)
unfolding parse_int drop_spaces is_space
signed-minus s = ground arith

show_nat-StartsWithDigit : (n : ℕ) → StartsWithDigit (show_nat n)
unfolding show_nat
show_nat-StartsWithDigit n = digits-StartsWithDigit (suc n) n "" (omega arith)

negative : (n : ℕ) → signed (String.◌∷◌ "-" (show_nat (suc n))) ≡ some (negsuc n)
unfolding signed
negative n = ap (λ st. Option.map negated (scanned st)) (scan-show_nat (suc n))

-- A printed integer is read back.
pub parse_int-show_int : (z : ℤ) → parse_int (show_int z) ≡ some z
unfolding show_int
parse_int-show_int (pos n) =
    parse_int_of_digits (show_nat n) (show_nat-StartsWithDigit n)
    ∙ ap (λ st. Option.map pos (scanned st)) (scan-show_nat n)
parse_int-show_int (negsuc n) =
    ap parse_int (append.cons "-" "" (show_nat (suc n)) ∙ ap (String.◌∷◌ "-") (append.nil _))
    ∙ signed-minus (show_nat (suc n))
    ∙ negative n

-- a scan that is not bad met no separator
scan-bad : (s : String) → scan bad s ≡ bad
unfolding scan scan_one
scan-bad String.[] = refl
scan-bad (String.◌∷◌ c s) = scan-bad s

scan_one-dot : (st : Scan) (c : ℕ) → c ≡ 46 → scan_one st c ≡ bad
unfolding scan_one is_space
scan_one-dot start c h = ground arith
scan_one-dot (after_digit n) c h = ground arith
scan_one-dot (after_underscore n) c h = ground arith
scan_one-dot (after_space n) c h = ground arith
scan_one-dot bad c h = refl

split_of_scan : (st : Scan) (s : String) → scan st s ≢ bad → split 46 s ≡ s ∷ []
unfolding scan split
split_of_scan st String.[] h = refl
split_of_scan st (String.◌∷◌ c s) h = elim (Bool-cases (code c == 46)) [
  | inl dot ↦ absurd (h (ap (λ r. scan r s) (scan_one-dot st (code c) (ground arith)) ∙ scan-bad s))
  | inr other ↦ ground (arith, ap (push c) (split_of_scan (scan_one st (code c)) s h))
]

not_bad : (st : Scan) (n : ℕ) → scanned st ≡ some n → st ≢ bad
not_bad (after_digit m) n h = cc
not_bad (after_space m) n h = cc
not_bad start n h = absurd (ground arith)
not_bad (after_underscore m) n h = absurd (ground arith)
not_bad bad n h = absurd (ground arith)

scanned_of_map :
    (f : ℕ → ℤ) (o : Option ℕ) (z : ℤ) → Option.map f o ≡ some z → (n : ℕ) × (o ≡ some n)
scanned_of_map f none z h = absurd (ground arith)
scanned_of_map f (some n) z h = (n, refl)

split_of_map :
    (f : ℕ → ℤ) (s : String) (z : ℤ)
    → Option.map f (scanned (scan start s)) ≡ some z
    → split 46 s ≡ s ∷ []
split_of_map f s z h = let (n, e) = scanned_of_map f _ z h in split_of_scan start s (not_bad _ n e)

split_of_signed : (s : String) (z : ℤ) → signed s ≡ some z → split 46 s ≡ s ∷ []
unfolding signed split
split_of_signed String.[] z h = refl
split_of_signed (String.◌∷◌ c s) z h = elim (Bool-cases (code c == 45)) [
  | inl minus ↦ ground (arith, ap (push c) (split_of_map negated s z (ground arith)))
  | inr no_minus ↦ elim (Bool-cases (code c == 43)) [
    | inl plus ↦ ground (arith, ap (push c) (split_of_map pos s z (ground arith)))
    | inr digit ↦ split_of_map pos (String.◌∷◌ c s) z (ground arith)
  ]
]

-- A text that `int` reads has no dot in it.
pub split_of_parse_int : (s : String) (z : ℤ) → parse_int s ≡ some z → split 46 s ≡ s ∷ []
unfolding parse_int drop_spaces split is_space
split_of_parse_int String.[] z h = refl
split_of_parse_int (String.◌∷◌ c s) z h = elim (Bool-cases (is_space (code c))) [
  | inl space ↦ ground (arith, ap (push c) (split_of_parse_int s z (ground arith)))
  | inr other ↦ split_of_signed (String.◌∷◌ c s) z (ground arith)
]
