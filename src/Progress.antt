-- ===== src/Progress.antt =====
-- The progress of a transfer: the percentage that src/main.cpp, src/gui/send_worker.cpp and
-- src/gui/recv_worker.cpp compute, and the line that `make_progress` of src/main.cpp draws.
pub mod Bounds
pub mod Lines
use lft.Base.{
  ℕ, ◌-◌, ◌*◌, ◌/◌, ◌%◌, ◌^◌, Bool, List, [], ◌∷◌, ◌++◌, Option, none, some, ◌==◌, if◌then◌else◌,
}
use lft.Wire.Number.{u64_mod}

-- An `int` is its pattern of 32 bits.
abbrev pub int_mod : ℕ
int_mod = 2 ^ 32

-- `total == 0 ? 100 : static_cast<int>((done * 100) / total)`.
unfoldable pub percent : ℕ → ℕ → ℕ
percent done total = if total == 0 then 100 else done * 100 % u64_mod / total % int_mod

-- The pattern of -1.
abbrev pub minus_one : ℕ
minus_one = int_mod - 1

-- A line: the percentage and the two counts.
pub record Line : Type 0 where
  pub pct : ℕ
  pub done : ℕ
  pub total : ℕ

-- A call of the callback, with `last_pct`: the new `last_pct`, and the line if one is drawn.
unfoldable pub draw : ℕ → ℕ × ℕ → ℕ × Option Line
draw last_pct (done, total) =
    let pct = percent done total in
    if pct == last_pct
    then (last_pct, none)
    else (pct, some (record { pct = pct; done = done; total = total }))

abbrev pub drawn : Option Line → List Line → List Line
drawn none lines = lines
drawn (some line) lines = line ∷ lines

-- What a sequence of calls draws.
unfoldable pub draw_from : ℕ → List (ℕ × ℕ) → List Line
draw_from last_pct [] = []
draw_from last_pct (call ∷ calls) =
    let (next, line) = draw last_pct call in drawn line (draw_from next calls)

-- `make_progress`: nothing if the output is no terminal.
unfoldable pub make_progress : Bool → List (ℕ × ℕ) → List Line
make_progress is_tty calls = if is_tty then draw_from minus_one calls else []
