-- ===== src/Go/Numbers/Bounds.antt =====
-- The ranges of what ParseInt returns and of int32(n).
use Prim.Native.String.{String, [], ◌∷◌}
use chatops.Base.{
  ℕ, zero, suc, Char, Bool-cases, ◌==◌, inl, inr, if◌then◌else◌, ◌*◌, ◌+◌, ◌≡◌, refl, Bool, true,
  false, arith, code, ℤ, pos, negsuc, InWidth, ◌↔◌, pos_part, neg_part, residue, signed,
}
use chatops.Go.Numbers.{
  half_32, half_64, Scanned, scanned, not_digit, too_large, parsed_value, parse_uint, with_sign,
  parse_int, to_int32,
}

with_sign-InWidth : (neg : Bool) (r : Scanned) → InWidth half_64 (parsed_value (with_sign neg r))
unfolding with_sign parsed_value
with_sign-InWidth neg not_digit = omega arith
with_sign-InWidth false too_large = omega arith
with_sign-InWidth true too_large = omega arith
with_sign-InWidth false (scanned n) = ground arith
with_sign-InWidth true (scanned zero) = ground arith
with_sign-InWidth true (scanned (suc n)) = ground arith

parse_int_lem :
    (c : Char) (s : String)
    → parse_int (c ∷ s) ≡ (
        if code c == b'+'
        then with_sign false (parse_uint s)
        else if code c == b'-'
        then with_sign true (parse_uint s)
        else with_sign false (parse_uint (c ∷ s)))
unfolding parse_int
parse_int_lem c s = refl

-- Whatever the text, the value that ParseInt returns is an int64, on every error too.
pub parse_int-InWidth : (s : String) → InWidth half_64 (parsed_value (parse_int s))
parse_int-InWidth [] = unfold parse_int parsed_value in omega arith
parse_int-InWidth (c ∷ s) = rw (parse_int_lem c s) (elim (Bool-cases (code c == b'+')) [
  | inl e ↦ rw e (with_sign-InWidth false (parse_uint s))
  | inr e ↦ rw e (elim (Bool-cases (code c == b'-')) [
    | inl d ↦ rw d (with_sign-InWidth true (parse_uint s))
    | inr d ↦ rw d (with_sign-InWidth false (parse_uint (c ∷ s)))
  ])
])

pub to_int32-InWidth : (z : ℤ) → InWidth half_32 (to_int32 z)
unfolding to_int32
to_int32-InWidth (pos n) = ground arith
to_int32-InWidth (negsuc n) = ground arith

-- The conversion keeps exactly the numbers that an int32 holds.
pub to_int32_iff : (z : ℤ) → (to_int32 z ≡ z) ↔ InWidth half_32 z
to_int32_iff z = (λ e. rw e at (to_int32-InWidth z), fixed z)
  where
    fixed : (y : ℤ) → InWidth half_32 y → to_int32 y ≡ y
    fixed (pos n) h = unfold to_int32 in ground arith
    fixed (negsuc n) h = unfold to_int32 in ground arith

-- The int32 that a number becomes: in its range, and the same modulo 2 ^ 32.
pub record IsInt32Of (num reached : ℤ) : Type 0 where
  pub fits : InWidth half_32 reached
  pub congruent : residue half_32 reached ≡ residue half_32 num

residue-to_int32 : (z : ℤ) → residue half_32 (to_int32 z) ≡ residue half_32 z
unfolding to_int32 residue signed
residue-to_int32 (pos n) = ground arith
residue-to_int32 (negsuc n) = ground arith

pub to_int32-IsInt32Of : (num : ℤ) → IsInt32Of num (to_int32 num)
to_int32-IsInt32Of num = record { fits = to_int32-InWidth num; congruent = residue-to_int32 num }

-- Integers that differ by `k` times 2 ^ 32.
pub record Apart (k : ℕ) (y z : ℤ) : Type 0 where
  pub parts : pos_part y + neg_part z ≡ pos_part z + neg_part y + k * (half_32 + half_32)

-- Numbers that differ by a multiple of 2 ^ 32 become one int32.
pub to_int32-Apart : (k : ℕ) (y z : ℤ) → Apart k y z → to_int32 y ≡ to_int32 z
unfolding to_int32
to_int32-Apart k (pos n) (pos m) h = ground arith
to_int32-Apart k (pos n) (negsuc m) h = ground arith
to_int32-Apart k (negsuc n) (pos m) h = ground arith
to_int32-Apart k (negsuc n) (negsuc m) h = ground arith
