-- ===== src/Go/Tests.antt =====
-- The library functions at concrete arguments.
use chatops.Go.Numbers.{parse_int, to_int32, format_int, half_64, parsed_value, parsed, half_32}
use chatops.Go.Strings.{join, split, split_n}
use chatops.Base.{All, InWidth, pos, ◌≡◌, negsuc, ◌↔◌, arith}
use chatops.Go.Strings.Split.{Lacks, split-Lacks, join-split, join-split_n}
use chatops.Go.Numbers.Bounds.{parse_int-InWidth, to_int32_iff}
use chatops.Go.Numbers.RoundTrip.{parse_int-format_int}

parse_int-format_int_example : parse_int (format_int (negsuc 41)) ≡ parsed (negsuc 41)
parse_int-format_int_example = parse_int-format_int (negsuc 41) (ground arith)

parse_int-InWidth_example : InWidth half_64 (parsed_value (parse_int "99999999999999999999"))
parse_int-InWidth_example = parse_int-InWidth "99999999999999999999"

to_int32_iff_example :
    (to_int32 (pos 4294967297) ≡ pos 4294967297) ↔ InWidth half_32 (pos 4294967297)
to_int32_iff_example = to_int32_iff (pos 4294967297)

join-split_n_example : join "/" (split_n 2 "/" "shop/web/1") ≡ "shop/web/1"
join-split_n_example = join-split_n 1 "/" "shop/web/1"

join-split_example : join " " (split " " "/metric web cpu") ≡ "/metric web cpu"
join-split_example = join-split " " "/metric web cpu"

split-Lacks_example : All (Lacks " ") (split " " "/metric web cpu")
split-Lacks_example = split-Lacks " " "/metric web cpu"
