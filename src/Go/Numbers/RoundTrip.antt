-- ===== src/Go/Numbers/RoundTrip.antt =====
-- ParseInt on the texts that %d prints.
use Prim.Native.String.{String, [], ◌∷◌, ◌++◌}
use text.Mathlib.TextLemmas.{nil-append, cons-append}
use mathlib.Core.Logic.{ite, if_pos, if_neg}
use native.Mathlib.Decide.{dec_lt}
use chatops.Base.{
  ℕ, zero, suc, ◌+◌, ◌/◌, ◌%◌, ◌≤◌, ◌<◌, ◌≡◌, refl, ap, inl, inr, true, false, Bool-cases, arith,
  code, ◌==◌, if◌then◌else◌, ℤ, pos, negsuc, InWidth, ◌∙◌,
}
use chatops.Go.Numbers.{
  max_u64, half_64, parsed, scanned, scan_digits, parse_uint, with_sign, parse_int, digit_char,
  digits, format_nat, format_int,
}

code-digit_char : (d : ℕ) → d < 10 → code (digit_char d) ≡ 48 + d
unfolding digit_char
code-digit_char zero h = refl
code-digit_char (suc zero) h = refl
code-digit_char (suc (suc zero)) h = refl
code-digit_char (suc (suc (suc zero))) h = refl
code-digit_char (suc (suc (suc (suc zero)))) h = refl
code-digit_char (suc (suc (suc (suc (suc zero))))) h = refl
code-digit_char (suc (suc (suc (suc (suc (suc zero)))))) h = refl
code-digit_char (suc (suc (suc (suc (suc (suc (suc zero))))))) h = refl
code-digit_char (suc (suc (suc (suc (suc (suc (suc (suc zero)))))))) h = refl
code-digit_char (suc (suc (suc (suc (suc (suc (suc (suc (suc d))))))))) h =
    let e : d ≡ 0 = omega arith in rw e

scan_last :
    (n : ℕ) (out : String)
    → n ≤ max_u64
    → scan_digits (digit_char (n % 10) ∷ out) (n / 10) ≡ scan_digits out n
unfolding scan_digits
scan_last n out h = ground (arith, code-digit_char (n % 10))

digits_round :
    (rounds n : ℕ) (out : String)
    → digits (suc rounds) n out
      ≡ ite (dec_lt 0 n) (digits rounds (n / 10) (digit_char (n % 10) ∷ out)) out
unfolding digits
digits_round rounds n out = refl

-- With as many rounds as the number, all of its digits are there.
scan_digits-digits :
    (rounds n : ℕ) (out : String)
    → n ≤ rounds
    → n ≤ max_u64
    → scan_digits (digits rounds n out) 0 ≡ scan_digits out n
unfolding digits
scan_digits-digits zero n out enough fits = let e : n ≡ 0 = omega arith in rw e refl
scan_digits-digits (suc rounds) n out enough fits =
    rw (digits_round rounds n out) (elim (dec_lt 0 n) [
      | yes h ↦ rw (if_pos (dec_lt 0 n) h) (
          scan_digits-digits rounds (n / 10) (digit_char (n % 10) ∷ out) (omega arith) (omega arith)
          ∙ scan_last n out fits)
      | no h ↦ let e : n ≡ 0 = omega arith in rw (if_neg (dec_lt 0 n) h) (rw e refl)
    ])

-- A print begins with a digit.
abbrev StartsWithDigit : String → Type 0
StartsWithDigit [] = ⊥
StartsWithDigit (c ∷ s) = (48 ≤ code c) × (code c ≤ 57)

digits-StartsWithDigit :
    (rounds n : ℕ) (out : String) → StartsWithDigit out → StartsWithDigit (digits rounds n out)
unfolding digits
digits-StartsWithDigit zero n out h = h
digits-StartsWithDigit (suc rounds) n out h = rw (digits_round rounds n out) (elim (dec_lt 0 n) [
  | yes p ↦ rw (if_pos (dec_lt 0 n) p) (
      digits-StartsWithDigit rounds (n / 10) (digit_char (n % 10) ∷ out)
        (omega (arith, code-digit_char (n % 10))))
  | no p ↦ rw (if_neg (dec_lt 0 n) p) h
])

positive-StartsWithDigit : (rounds n : ℕ) → 0 < n → StartsWithDigit (digits (suc rounds) n "")
unfolding digits
positive-StartsWithDigit rounds n h = rw (digits_round rounds n "") (elim (dec_lt 0 n) [
  | yes p ↦ rw (if_pos (dec_lt 0 n) p) (
      digits-StartsWithDigit rounds (n / 10) (digit_char (n % 10) ∷ "")
        (omega (arith, code-digit_char (n % 10))))
  | no z ↦ absurd (z h)
])

format_nat_lem : (n : ℕ) → format_nat n ≡ (if n == 0 then "0" else digits n n "")
unfolding format_nat
format_nat_lem n = refl

format_nat-StartsWithDigit : (n : ℕ) → StartsWithDigit (format_nat n)
format_nat-StartsWithDigit zero = unfold format_nat in omega arith
format_nat-StartsWithDigit (suc n) =
    let nonzero : (suc n == 0) ≡ false = ground arith in
    rw (format_nat_lem (suc n)) (rw nonzero (positive-StartsWithDigit n (suc n) (omega arith)))

parse_uint-scan : (s : String) → StartsWithDigit s → parse_uint s ≡ scan_digits s 0
unfolding parse_uint
parse_uint-scan [] h = absurd h
parse_uint-scan (c ∷ s) h = refl

scan_digits-format_nat : (n : ℕ) → n ≤ max_u64 → scan_digits (format_nat n) 0 ≡ scanned n
scan_digits-format_nat n fits = rw (format_nat_lem n) (elim (Bool-cases (n == 0)) [
  | inl e ↦ let z : n ≡ 0 = ground arith in rw z (unfold scan_digits in refl)
  | inr e ↦ rw e (rw (scan_digits-digits n n "" (omega arith) fits) (unfold scan_digits in refl))
])

parse_uint-format_nat : (n : ℕ) → n ≤ max_u64 → parse_uint (format_nat n) ≡ scanned n
parse_uint-format_nat n fits =
    rw (parse_uint-scan (format_nat n) (format_nat-StartsWithDigit n))
      (scan_digits-format_nat n fits)

parse_int-unsigned : (s : String) → StartsWithDigit s → parse_int s ≡ with_sign false (parse_uint s)
unfolding parse_int
parse_int-unsigned [] h = absurd h
parse_int-unsigned (c ∷ s) h = ground arith

parse_int-negative : (s : String) → parse_int ("-" ++ s) ≡ with_sign true (parse_uint s)
unfolding parse_int
parse_int-negative s = rw (cons-append, nil-append)

format_int-negsuc : (n : ℕ) → format_int (negsuc n) ≡ "-" ++ format_nat (suc n)
unfolding format_int
format_int-negsuc n = refl

-- Every int64, printed by %d, is read back by ParseInt.
pub parse_int-format_int : (z : ℤ) → InWidth half_64 z → parse_int (format_int z) ≡ parsed z
parse_int-format_int (pos n) (fits, _) =
    unfold format_int in
    rw (parse_int-unsigned (format_nat n) (format_nat-StartsWithDigit n))
      (rw (parse_uint-format_nat n (omega arith)) (unfold with_sign in ground arith))
parse_int-format_int (negsuc n) (_, fits) =
    rw (format_int-negsuc n, parse_int-negative (format_nat (suc n)))
      (rw (parse_uint-format_nat (suc n) (omega arith)) (unfold with_sign in ground arith))

-- Two int64 with one decimal form are one number.
pub format_int-injective :
    (y z : ℤ) → InWidth half_64 y → InWidth half_64 z → format_int y ≡ format_int z → y ≡ z
format_int-injective y z hy hz e =
    cc (parse_int-format_int y hy, parse_int-format_int z hz, ap parse_int e)
