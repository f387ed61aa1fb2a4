-- ===== src/Wire/Number/RoundTrip.antt =====
-- Reading back the decimal print of a number.
use mathlib.Core.List.{cons-ne-nil}
use lft.Base.{
  ℕ, zero, suc, ◌+◌, ◌/◌, ◌%◌, ◌≤◌, ◌<◌, true, [], ◌∷◌, some, ◌≡◌, ◌≢◌, refl, arith, Bytes, All,
}
use lft.Wire.Number.{
  u64_mod, is_digit, scan_digits, from_chars, at_end, parse_full_u64, print_from, print_u64,
}

abbrev pub IsDigit : ℕ → Type 0
IsDigit c = is_digit c ≡ true

IsDigit-of : (n : ℕ) → IsDigit (b'0' + n % 10)
unfolding is_digit
IsDigit-of n = ground arith

-- One digit in front of the rest: reading goes from `n / 10` to `n`.
scan_digit :
    (n : ℕ) (out : Bytes) → scan_digits ((b'0' + n % 10) ∷ out) (n / 10) ≡ scan_digits out n
unfolding scan_digits is_digit
scan_digit n out = ground arith

scan_digits-print_from :
    (k n : ℕ) (out : Bytes) → n ≤ k → scan_digits (print_from k n out) 0 ≡ scan_digits out n
unfolding print_from
scan_digits-print_from zero n out h = let e : n ≡ 0 = omega arith in rw e
scan_digits-print_from (suc k) n out h = ground (
  arith,
  scan_digits-print_from k (n / 10) ((b'0' + n % 10) ∷ out) (omega arith),
  scan_digit n out,
)

print_from-digits : (k n : ℕ) (out : Bytes) → All IsDigit out → All IsDigit (print_from k n out)
unfolding print_from
print_from-digits zero n out h = h
print_from-digits (suc k) n out h =
    ground (arith, print_from-digits k (n / 10) ((b'0' + n % 10) ∷ out) (IsDigit-of n, h))

print_from-ne-nil : (k n : ℕ) (out : Bytes) → out ≢ [] → print_from k n out ≢ []
unfolding print_from
print_from-ne-nil zero n out h = h
print_from-ne-nil (suc k) n out h =
    ground (
      arith,
      print_from-ne-nil k (n / 10) ((b'0' + n % 10) ∷ out) (cons-ne-nil (b'0' + n % 10) out),
    )

pub print_u64-digits : (n : ℕ) → All IsDigit (print_u64 n)
unfolding print_u64 is_digit
print_u64-digits n = ground (arith, print_from-digits n n [] tt)

pub print_u64-ne-nil : (n : ℕ) → print_u64 n ≢ []
unfolding print_u64
print_u64-ne-nil zero = cc
print_u64-ne-nil (suc n) =
    ground (arith, print_from-ne-nil n (suc n / 10) _ (cons-ne-nil (b'0' + suc n % 10) []))

pub scan_digits-print_u64 : (n : ℕ) → scan_digits (print_u64 n) 0 ≡ (n, [])
unfolding print_u64 scan_digits is_digit
scan_digits-print_u64 n = ground (arith, scan_digits-print_from n n [] (omega arith))

-- On one or more digits the parser returns what was read, if it fits.
pub parse_full_u64-eq :
    (s : Bytes) (v : ℕ)
    → s ≢ []
    → All IsDigit s
    → scan_digits s 0 ≡ (v, [])
    → v < u64_mod
    → parse_full_u64 s ≡ some v
parse_full_u64-eq [] v ne h e fits = absurd (ne refl)
parse_full_u64-eq (c ∷ s) v ne h e fits =
    unfold parse_full_u64 from_chars at_end in rw (h.0, e) (ground arith)

-- Every `uint64_t` is read back from its decimal print.
pub parse_full_u64-print_u64 : (n : ℕ) → n < u64_mod → parse_full_u64 (print_u64 n) ≡ some n
parse_full_u64-print_u64 n h =
    parse_full_u64-eq _ n (print_u64-ne-nil n) (print_u64-digits n) (scan_digits-print_u64 n) h
