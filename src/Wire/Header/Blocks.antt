-- ===== src/Wire/Header/Blocks.antt =====
-- The blank line that ends a header block, and the lines of the block.
use lft.Base.{
  ◌+◌, ◌≤◌, ◌&&◌, ◌==◌, length, Bool-cases, false, [], ◌∷◌, ◌++◌, some, ◌≡◌, refl, inl, inr, arith,
  Bytes, Lacks, ◌>>=◌, Option-cases,
}
use lft.Wire.Header.{newline, starts_line, cut_blank, split_lines}

-- More bytes behind a complete block do not move its end.
pub cut_blank-append :
    (s t : Bytes) {b r : Bytes} → cut_blank s ≡ some (b, r) → cut_blank (s ++ t) ≡ some (b, r ++ t)
unfolding cut_blank starts_line
cut_blank-append [] t h = cc
cut_blank-append (c ∷ []) t h = ground arith
cut_blank-append (c ∷ d ∷ s) t {b} {r} h = elim (Option-cases (cut_blank (d ∷ s))) [
  | inl e ↦ ground arith
  | inr ((b', r'), e) ↦ ground (arith, cut_blank-append (d ∷ s) t e)
]

-- A block and its blank line stand at the front of the data.
pub cut_blank-splits :
    (s : Bytes) {b r : Bytes} → cut_blank s ≡ some (b, r) → s ≡ b ++ newline ∷ newline ∷ r
unfolding cut_blank starts_line
cut_blank-splits [] h = cc
cut_blank-splits (c ∷ []) h = ground arith
cut_blank-splits (c ∷ d ∷ s) h = elim (Option-cases (cut_blank (d ∷ s))) [
  | inl e ↦ ground arith
  | inr ((b', r'), e) ↦ ground (arith, cut_blank-splits (d ∷ s) e)
]

pub cut_blank-line :
    (l s : Bytes)
    → Lacks newline l
    → starts_line s ≡ false
    → cut_blank (l ++ newline ∷ s) ≡ (cut_blank s >>= λ r. some (l ++ newline ∷ r.0, r.1))
unfolding cut_blank
cut_blank-line [] s h e = rw e
cut_blank-line (c ∷ l) s h e = elim (Option-cases (cut_blank s)) [
  | inl n ↦ ground (arith, cut_blank-line l s h.1 e)
  | inr (r, n) ↦ ground (arith, cut_blank-line l s h.1 e)
]

pub cut_blank_last :
    (l s : Bytes) → Lacks newline l → cut_blank (l ++ newline ∷ newline ∷ s) ≡ some (l, s)
unfolding cut_blank starts_line
cut_blank_last [] s h = refl
cut_blank_last (c ∷ l) s h = ground (arith, cut_blank_last l s h.1)

pub split_lines-line :
    (l s : Bytes)
    → Lacks newline l
    → split_lines (l ++ newline ∷ s) ≡ (l, (split_lines s).0 ∷ (split_lines s).1)
unfolding split_lines
split_lines-line [] s h = refl
split_lines-line (c ∷ l) s h = ground (arith, split_lines-line l s h.1)

pub split_lines_last : (l : Bytes) → Lacks newline l → split_lines l ≡ (l, [])
unfolding split_lines
split_lines_last [] h = refl
split_lines_last (c ∷ l) h = ground (arith, split_lines_last l h.1)

-- A block that ends in the front part of a text is found in that part alone.
pub cut_blank-prefix :
    (s t b r : Bytes)
    → cut_blank (s ++ t) ≡ some (b, r)
    → length b + 2 ≤ length s
    → (r' : Bytes) × (cut_blank s ≡ some (b, r'))
unfolding cut_blank starts_line
cut_blank-prefix [] t b r e h = absurd (omega arith)
cut_blank-prefix (c ∷ []) t b r e h = absurd (omega arith)
cut_blank-prefix (c ∷ d ∷ s) t b r e h = elim (Bool-cases (c == newline && d == newline)) [
  | inl here ↦ (s, rw here (ground arith))
  | inr later ↦ elim (Option-cases (cut_blank (d ∷ s ++ t))) [
    | inl n ↦ absurd (ground arith)
    | inr ((b', r'), n) ↦
        let (r'', found) = cut_blank-prefix (d ∷ s) t b' r' n (ground arith) in
        (r'', rw later (ground (arith, found)))
  ]
]
