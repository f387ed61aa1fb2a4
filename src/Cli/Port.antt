-- ===== src/Cli/Port.antt =====
-- `parse_port` of src/main.cpp, with `strtol` at base 10 in the "C" locale.
use lft.Base.{
  ℕ, ◌≤◌, ◌-◌, ◌^◌, Bool, true, false, not, ◌||◌, [], ◌∷◌, Option, none, some, ◌≡◌, ◌≢◌, refl,
  arith, Bytes, equal, ltb, ◌==◌, if◌then◌else◌, ◌>>=◌, AllSome, Option-cases, inl, inr, if_cases,
  All,
}
use lft.Wire.Name.{is_space, trim_front}
use lft.Wire.Number.{is_digit, scan_digits, print_u64}
use lft.Wire.Number.RoundTrip.{IsDigit, print_u64-ne-nil, print_u64-digits, scan_digits-print_u64}

-- The largest `long`.
abbrev pub long_max : ℕ
long_max = 2 ^ 63 - 1

-- The digits: the value, which stops at the largest `long`, and what follows. `none` if there are
-- none, where `end == s.c_str()`.
unfoldable pub strtol_digits : Bytes → Option (ℕ × Bytes)
strtol_digits [] = none
strtol_digits (c ∷ s) =
    let (value, rest) = scan_digits (c ∷ s) 0 in
    if is_digit c then some (if ltb long_max value then long_max else value, rest) else none

abbrev pub with_sign : Bool → Option (ℕ × Bytes) → Option ((Bool × ℕ) × Bytes)
with_sign negative none = none
with_sign negative (some (value, rest)) = some ((negative, value), rest)

-- A sign, and whether it is '-', in front of the absolute value.
unfoldable pub strtol_signed : Bytes → Option ((Bool × ℕ) × Bytes)
strtol_signed [] = none
strtol_signed (c ∷ s) =
    if c == b'-'
    then with_sign true (strtol_digits s)
    else if c == b'+'
    then with_sign false (strtol_digits s)
    else with_sign false (strtol_digits (c ∷ s))

unfoldable pub strtol : Bytes → Option ((Bool × ℕ) × Bytes)
strtol s = strtol_signed (trim_front s)

-- `*end != '\0' || value < 1 || value > 65535`.
abbrev pub in_range : (Bool × ℕ) × Bytes → Option ℕ
in_range ((negative, value), rest) =
    if not (equal rest []) || (negative || (ltb value 1 || ltb 65535 value))
    then none
    else some value

unfoldable pub parse_port : Bytes → Option ℕ
parse_port s = strtol s >>= in_range

in_range-AllSome : (r : (Bool × ℕ) × Bytes) → AllSome (λ p. (1 ≤ p) × (p ≤ 65535)) (in_range r)
in_range-AllSome ((negative, value), rest) =
    if_cases (AllSome (λ p. (1 ≤ p) × (p ≤ 65535)))
      (not (equal rest []) || (negative || (ltb value 1 || ltb 65535 value))) (λ e. tt)
      (λ e. ground arith)

-- Whatever text is given: a port that is accepted is one of 1 to 65535, so that the cast to
-- `uint16_t` keeps it.
pub parse_port-AllSome : (s : Bytes) → AllSome (λ p. (1 ≤ p) × (p ≤ 65535)) (parse_port s)
unfolding parse_port
parse_port-AllSome s = elim (Option-cases (strtol s)) [
  | inl e ↦ rw e tt
  | inr (r, e) ↦ rw e (in_range-AllSome r)
]

digit-cases :
    (c : ℕ) → IsDigit c → (is_space c ≡ false) × ((c == b'-') ≡ false) × ((c == b'+') ≡ false)
unfolding is_space is_digit
digit-cases c h = (ground arith, ground arith, ground arith)

parse_port-eq :
    (s : Bytes) (p : ℕ)
    → s ≢ []
    → All IsDigit s
    → scan_digits s 0 ≡ (p, [])
    → 1 ≤ p
    → p ≤ 65535
    → parse_port s ≡ some p
unfolding parse_port strtol strtol_signed trim_front strtol_digits equal
parse_port-eq [] p ne h e lo hi = absurd (ne refl)
parse_port-eq (c ∷ s) p ne h e lo hi =
    let (space, minus, plus) = digit-cases c h.0 in
    let digit : is_digit c ≡ true = h.0 in rw (space, minus, plus, digit, e) (ground arith)

-- Every port is read back from its decimal print.
pub parse_port-print_u64 : (p : ℕ) → 1 ≤ p → p ≤ 65535 → parse_port (print_u64 p) ≡ some p
parse_port-print_u64 p lo hi =
    parse_port-eq _ p (print_u64-ne-nil p) (print_u64-digits p) (scan_digits-print_u64 p) lo hi
