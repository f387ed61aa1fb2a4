-- ===== src/Wire/Number/Sound.antt =====
-- What `parse_full_u64` accepts, and what it returns.
use lft.Base.{
  ℕ, ◌+◌, ◌-◌, ◌*◌, ◌<◌, [], ◌∷◌, some, none, ◌≡◌, ◌≢◌, ◌↔◌, refl, arith, Bytes, All, leb,
  if◌then◌else◌, Bool,
}
use lft.Wire.Number.{u64_mod, is_digit, scan_digits, at_end, parse_full_u64}
use lft.Wire.Number.RoundTrip.{IsDigit, parse_full_u64-eq}

-- The number that a text of digits spells behind `v`, with no bound.
abbrev pub value : ℕ → Bytes → ℕ
value v [] = v
value v (c ∷ s) = value (v * 10 + (c - b'0')) s

scan_digits-value : (s : Bytes) (v : ℕ) → All IsDigit s → scan_digits s v ≡ (value v s, [])
unfolding scan_digits
scan_digits-value [] v h = refl
scan_digits-value (c ∷ s) v h = rw h.0 (scan_digits-value s (v * 10 + (c - b'0')) h.1)

scan_digits-All :
    (s : Bytes) (v w : ℕ) → scan_digits s v ≡ (w, []) → All IsDigit s × (w ≡ value v s)
unfolding scan_digits
scan_digits-All [] v w h = (tt, ground arith)
scan_digits-All (c ∷ s) v w h = ground (arith, scan_digits-All s (v * 10 + (c - b'0')) w)

fits-some :
    (b : Bool) (r : ℕ × Bytes) (n : ℕ)
    → at_end (if b then (if leb u64_mod r.0 then none else some r) else none) ≡ some n
    → (r ≡ (n, [])) × (n < u64_mod)
unfolding at_end
fits-some b (w, []) n h = ground arith
fits-some b (w, x ∷ t) n h = ground arith

-- The parser accepts exactly the texts of one or more digits whose value fits `uint64_t`, and
-- returns that value: no sign, no other byte and no overflow passes.
pub parse_full_u64_iff :
    (s : Bytes) (n : ℕ)
    → (parse_full_u64 s ≡ some n) ↔ ((s ≢ []) × All IsDigit s × (n ≡ value 0 s) × (n < u64_mod))
unfolding at_end parse_full_u64
parse_full_u64_iff s n =
    (sound s, λ h. parse_full_u64-eq s n h.0 h.1 (rw h.2 (scan_digits-value s 0 h.1)) h.3)
  where
    sound :
        (s : Bytes)
        → parse_full_u64 s ≡ some n
        → (s ≢ []) × All IsDigit s × (n ≡ value 0 s) × (n < u64_mod)
    sound [] h = cc
    sound (c ∷ s) h =
        let (read, fits) = fits-some (is_digit c) (scan_digits (c ∷ s) 0) n h in
        let (digits, exact) = scan_digits-All (c ∷ s) 0 n read in (cc, digits, exact, fits)
