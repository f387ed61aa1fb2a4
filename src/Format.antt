-- ===== src/Format.antt =====
-- `format_bytes` of src/common/format.cpp, which gui/format.cpp passes on. The `double` that it
-- divides is a number of 53 bits; dividing it by 1024 is exact, so it is kept as a numerator and a
-- power of 1024.
pub mod Near
use lft.Base.{
  ℕ, zero, suc, ◌+◌, ◌-◌, ◌*◌, ◌/◌, ◌%◌, ◌^◌, Bool, ◌&&◌, ◌||◌, List, [], ◌∷◌, ◌++◌, Option, none,
  some, Bytes, codes, ltb, leb, ◌==◌, if◌then◌else◌,
}
use lft.Wire.Number.{print_u64}

-- The integer nearest to `a / b`, and at a tie the even one.
unfoldable pub round_half_even : ℕ → ℕ → ℕ
round_half_even a b =
    let q = a / b in
    let r = a % b in if ltb b (2 * r) || ((2 * r == b) && (q % 2 == 1)) then q + 1 else q

-- The power of two that numbers below `2 ^ (53 + k)` keep as their last place, at most `2 ^ k`.
unfoldable pub last_place : ℕ → ℕ → ℕ
last_place zero n = 1
last_place (suc k) n = let less = last_place k n in if ltb n (2 ^ (53 + k)) then less else 2 ^ suc k

-- `static_cast<double>(n)` at a `uint64_t`.
unfoldable pub to_double : ℕ → ℕ
to_double n = let place = last_place 11 n in round_half_even n place * place

-- The loop: `value` is `m / p`, and `unit` the last one passed, or `none` for the index -1.
unfoldable pub pick_unit : ℕ → ℕ → Option Bytes → List Bytes → ℕ × Option Bytes
pick_unit m p unit [] = (p, unit)
pick_unit m p unit (next ∷ units) =
    let more = pick_unit m (1024 * p) (some next) units in
    if leb (1024 * p) m then more else (p, unit)

abbrev pub units : List Bytes
units = codes "KB" ∷ codes "MB" ∷ codes "GB" ∷ codes "TB" ∷ []

-- `os << std::fixed << std::setprecision(1)` at a number of tenths.
abbrev pub print_tenths : ℕ → Bytes
print_tenths t = print_u64 (t / 10) ++ b'.' ∷ print_u64 (t % 10)

-- `none` stands for `units[-1]`.
abbrev pub print_value : ℕ → ℕ × Option Bytes → Option Bytes
print_value m (p, none) = none
print_value m (p, some unit) = some (print_tenths (round_half_even (10 * m) p) ++ b' ' ∷ unit)

unfoldable pub format_bytes : ℕ → Option Bytes
format_bytes n =
    let m = to_double n in
    if ltb n 1024
    then some (print_u64 n ++ codes " B")
    else print_value m (pick_unit m 1 none units)
