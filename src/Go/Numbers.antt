-- ===== src/Go/Numbers.antt =====
-- Go's package strconv and fmt's %d, for base 10: ParseInt(s, 10, 64), Atoi, the conversion
-- int32(n), and fmt.Sscanf(s, "%d", &n).
pub mod RoundTrip
pub mod Bounds
mod Tests
use Prim.Native.String.{String, [], ◌∷◌, ◌++◌}
use mathlib.Core.Logic.{dite}
use mathlib.Core.WellFounded.{Acc, WellFounded}
use native.Mathlib.Decide.{dec_lt}
use chatops.Base.{
  ℕ, zero, suc, ◌+◌, ◌-◌, ◌*◌, ◌/◌, ◌%◌, ◌^◌, ◌<◌, ◌≡◌, refl, Bool, true, false, ◌||◌, ◌&&◌, not,
  arith, Char, code, ltb, leb, ◌==◌, if◌then◌else◌, ℤ, pos, negsuc, signed, residue, pred_ℤ,
}
use chatops.Go.Strings.{is_space}

abbrev pub max_u64 : ℕ
max_u64 = 2 ^ 64 - 1

-- 2 ^ 63, the number of non-negative values of an int64
abbrev pub half_64 : ℕ
half_64 = 2 ^ 63

-- 2 ^ 31, the number of non-negative values of an int32
abbrev pub half_32 : ℕ
half_32 = 2 ^ 31

-- What ParseInt returns: a value, or its two kinds of *NumError. A value out of range comes with
-- the end of the range that it passed.
pub data Parsed : Type 0 where
  parsed : ℤ → Parsed
  bad_syntax : Parsed
  out_of_range : ℤ → Parsed

-- The first result of ParseInt, which a caller that drops the error goes on with.
unfoldable pub parsed_value : Parsed → ℤ
parsed_value (parsed z) = z
parsed_value bad_syntax = pos 0
parsed_value (out_of_range z) = z

-- What ParseUint's loop returns.
pub data Scanned : Type 0 where
  scanned : ℕ → Scanned
  not_digit : Scanned
  too_large : Scanned

-- The loop of ParseUint(s, 10, 64): a value past the range ends it before the rest is read.
unfoldable pub scan_digits : String → ℕ → Scanned
scan_digits [] n = scanned n
scan_digits (ch ∷ s) n =
    let c = code ch in
    let m = n * 10 + (c - 48) in
    let rest = scan_digits s m in
    if ltb c 48 || ltb 57 c then not_digit else if ltb max_u64 m then too_large else rest

unfoldable pub parse_uint : String → Scanned
unfolding scan_digits
parse_uint [] = not_digit
parse_uint (c ∷ s) = scan_digits (c ∷ s) 0

-- -n, for n that is not 0
abbrev pub negated : ℕ → ℤ
negated zero = pos 0
negated (suc n) = negsuc n

-- The sign and the range of an int64, put on what ParseUint found.
unfoldable pub with_sign : Bool → Scanned → Parsed
with_sign neg not_digit = bad_syntax
with_sign false too_large = out_of_range (pos (half_64 - 1))
with_sign true too_large = out_of_range (negated half_64)
with_sign false (scanned n) =
    if leb half_64 n then out_of_range (pos (half_64 - 1)) else parsed (pos n)
with_sign true (scanned n) =
    if ltb half_64 n then out_of_range (negated half_64) else parsed (negated n)

-- strconv.ParseInt(s, 10, 64), and strconv.Atoi(s), whose int is 64 bits wide
unfoldable pub parse_int : String → Parsed
unfolding parse_uint with_sign
parse_int [] = bad_syntax
parse_int (c ∷ s) =
    if code c == b'+'
    then with_sign false (parse_uint s)
    else if code c == b'-'
    then with_sign true (parse_uint s)
    else with_sign false (parse_uint (c ∷ s))

-- int32(n) for an int n
unfoldable pub to_int32 : ℤ → ℤ
unfolding signed residue
to_int32 z = signed half_32 (residue half_32 z)

-- n - 1 in an int64
unfoldable pub pred_int64 : ℤ → ℤ
unfolding signed residue
pred_int64 z = signed half_64 (residue half_64 (pred_ℤ z))

unfoldable pub digit_char : ℕ → Char
digit_char zero = "0"
digit_char (suc zero) = "1"
digit_char (suc (suc zero)) = "2"
digit_char (suc (suc (suc zero))) = "3"
digit_char (suc (suc (suc (suc zero)))) = "4"
digit_char (suc (suc (suc (suc (suc zero))))) = "5"
digit_char (suc (suc (suc (suc (suc (suc zero)))))) = "6"
digit_char (suc (suc (suc (suc (suc (suc (suc zero))))))) = "7"
digit_char (suc (suc (suc (suc (suc (suc (suc (suc zero)))))))) = "8"
digit_char (suc (suc (suc (suc (suc (suc (suc (suc (suc d))))))))) = "9"

-- The digits of `n`, the last one first to be put before `out`; `n` rounds are more than enough.
unfoldable pub digits : ℕ → ℕ → String → String
unfolding digit_char dec_lt
digits zero n out = out
digits (suc rounds) n out =
    dite (dec_lt 0 n) (λ _. digits rounds (n / 10) (digit_char (n % 10) ∷ out)) (λ _. out)

-- %d of a number that is not negative
unfoldable pub format_nat : ℕ → String
unfolding digits
format_nat n = if n == 0 then "0" else digits n n []

-- %d
unfoldable pub format_int : ℤ → String
unfolding format_nat
format_int (pos n) = format_nat n
format_int (negsuc n) = "-" ++ format_nat (suc n)

abbrev is_digit : Char → Bool
is_digit c = leb 48 (code c) && leb (code c) 57

-- The longest prefix of digits.
unfoldable pub digit_prefix : String → String
digit_prefix [] = []
digit_prefix (c ∷ s) = if is_digit c then c ∷ digit_prefix s else []

-- fmt's SkipSpace under Sscanf: it stops at a newline.
unfoldable pub skip_space : String → String
unfolding is_space
skip_space [] = []
skip_space (c ∷ s) = if is_space c && not (code c == 10) then skip_space s else c ∷ s

-- The token of %d: a sign, if there is one, and digits.
unfoldable pub int_token : String → String
unfolding digit_prefix
int_token [] = []
int_token (c ∷ s) =
    if code c == b'+' || code c == b'-' then c ∷ digit_prefix s else digit_prefix (c ∷ s)

abbrev pub or_zero : Parsed → ℤ
or_zero (parsed z) = z
or_zero _ = pos 0

-- The variable after `var n int64; fmt.Sscanf(s, "%d", &n)`: what follows the number is ignored,
-- and every error leaves 0.
unfoldable pub sscan_int : String → ℤ
unfolding skip_space int_token parse_int
sscan_int s = or_zero (parse_int (int_token (skip_space s)))
