-- ===== src/Tests/Format.antt =====
-- Counts as they are printed.
use lft.Base.{◌+◌, ◌^◌, ◌≡◌, refl, some, codes}
use lft.Wire.Number.{print_u64}
use lft.Format.Near.{Shows, format_bytes-Shows}
use lft.Format.{round_half_even, last_place, to_double, pick_unit, format_bytes}

few : format_bytes 1023 ≡ some (codes "1023 B")
unfolding format_bytes print_u64
few = refl

-- A count just below a megabyte rounds up to 1024.0 KB.
nearly : format_bytes 1048575 ≡ some (codes "1024.0 KB")
unfolding format_bytes print_u64 to_double last_place round_half_even pick_unit
nearly = refl

-- `2 ^ 53 + 1` is a tie, and the even neighbour is kept.
tie : to_double (2 ^ 53 + 1) ≡ 2 ^ 53
unfolding to_double last_place round_half_even
tie = refl

format_bytes-Shows_example : Shows 1536 (format_bytes 1536)
format_bytes-Shows_example = format_bytes-Shows 1536
