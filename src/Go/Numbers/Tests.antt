-- ===== src/Go/Numbers/Tests.antt =====
-- Runs of the number functions, beside what Go prints for them.
use chatops.Base.{◌≡◌, refl, pos, negsuc, ◌-◌}
use chatops.Go.Numbers.{
  parsed, bad_syntax, out_of_range, parse_int, to_int32, pred_int64, format_int, sscan_int, half_64,
}

parse_tests :
    (parse_int "-42" ≡ parsed (negsuc 41))
    × (parse_int "+7" ≡ parsed (pos 7))
    × (parse_int "-" ≡ bad_syntax)
    × (parse_int "1 " ≡ bad_syntax)
    × (parse_int "9223372036854775808" ≡ out_of_range (pos (half_64 - 1)))
    × (parse_int "-9223372036854775808" ≡ parsed (negsuc (half_64 - 1)))
    × (parse_int "99999999999999999999x" ≡ out_of_range (pos (half_64 - 1)))
unfolding parse_int
parse_tests = (refl, refl, refl, refl, refl, refl, refl)

format_tests : (format_int (negsuc 41) ≡ "-42") × (format_int (pos 0) ≡ "0")
unfolding format_int
format_tests = (refl, refl)

width_tests :
    (to_int32 (pos 4294967297) ≡ pos 1)
    × (to_int32 (pos 2147483648) ≡ negsuc 2147483647)
    × (to_int32 (negsuc 0) ≡ negsuc 0)
    × (pred_int64 (negsuc (half_64 - 1)) ≡ pos (half_64 - 1))
unfolding to_int32 pred_int64
width_tests = (refl, refl, refl, refl)

sscan_tests :
    (sscan_int " 12abc" ≡ pos 12) × (sscan_int "v3" ≡ pos 0) × (sscan_int "-5-6" ≡ negsuc 4)
unfolding sscan_int
sscan_tests = (refl, refl, refl)
