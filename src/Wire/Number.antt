-- ===== src/Wire/Number.antt =====
-- The number of src/transfer/quic_transfer.cpp's header: `parse_full_u64`, and the decimal print
-- of a `uint64_t` by `operator<<`.
pub mod RoundTrip
pub mod Sound
use lft.Base.{
  ℕ, zero, suc, ◌+◌, ◌-◌, ◌*◌, ◌/◌, ◌%◌, ◌^◌, Bool, ◌&&◌, [], ◌∷◌, Option, none, some, Bytes, leb,
  ◌==◌, if◌then◌else◌,
}

abbrev pub u64_mod : ℕ
u64_mod = 2 ^ 64

unfoldable pub is_digit : ℕ → Bool
is_digit c = leb b'0' c && leb c b'9'

-- The longest run of digits at the front, read behind `v`, and what follows it.
unfoldable pub scan_digits : Bytes → ℕ → ℕ × Bytes
scan_digits [] v = (v, [])
scan_digits (c ∷ s) v =
    let more = scan_digits s (v * 10 + (c - b'0')) in if is_digit c then more else (v, c ∷ s)

-- `std::from_chars(begin, end, out)` at `uint64_t`: the value and the text from `ptr` on, or
-- `none` for `invalid_argument` and `result_out_of_range`.
from_chars : Bytes → Option (ℕ × Bytes)
from_chars [] = none
from_chars (c ∷ s) =
    let r = scan_digits (c ∷ s) 0 in
    if is_digit c then (if leb u64_mod r.0 then none else some r) else none

at_end : Option (ℕ × Bytes) → Option ℕ
at_end none = none
at_end (some (v, [])) = some v
at_end (some (v, c ∷ s)) = none

unfoldable pub parse_full_u64 : Bytes → Option ℕ
unfolding from_chars at_end
parse_full_u64 [] = none
parse_full_u64 (c ∷ s) = at_end (from_chars (c ∷ s))

-- The digits of `n` in front of `out`, in at most as many rounds as the first argument says.
print_from : ℕ → ℕ → Bytes → Bytes
print_from zero n out = out
print_from (suc k) n out =
    let more = print_from k (n / 10) ((b'0' + n % 10) ∷ out) in if n == 0 then out else more

-- `oss << n`. A number has no more digits than its value says.
unfoldable pub print_u64 : ℕ → Bytes
unfolding print_from
print_u64 n = if n == 0 then b'0' ∷ [] else print_from n n []
