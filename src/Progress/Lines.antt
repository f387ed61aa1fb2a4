-- ===== src/Progress/Lines.antt =====
-- The lines that a transfer draws.
use lft.Base.{
  ℕ, ◌+◌, ◌*◌, ◌≤◌, ◌<◌, List, [], ◌∷◌, Option, ◌≡◌, ◌≢◌, refl, arith, ◌==◌, length, if_cases,
  subst,
}
use lft.Wire.Number.{u64_mod}
use lft.Progress.{minus_one, percent, Line, draw, drawn, draw_from}
use lft.Progress.Bounds.{percent-IsPercent, percent_mono}

-- Calls about `total` bytes, each with as many done as the one before or more.
abbrev pub IsGrowing : ℕ → ℕ → List (ℕ × ℕ) → Type 0
IsGrowing total low [] = Unit
IsGrowing total low ((done, t) ∷ calls) =
    (t ≡ total) × (low ≤ done) × (done ≤ total) × IsGrowing total done calls

-- Each line has another percentage than the one before.
abbrev pub IsChanging : ℕ → List Line → Type 0
IsChanging last [] = Unit
IsChanging last (line ∷ lines) = (line.pct ≢ last) × IsChanging (line.pct) lines

-- The percentage on the screen, and that of the last call.
abbrev pub shown : ℕ → List Line → ℕ
shown last [] = last
shown last (line ∷ lines) = shown line.pct lines

abbrev pub reported : ℕ → List (ℕ × ℕ) → ℕ
reported last [] = last
reported last ((done, total) ∷ calls) = reported (percent done total) calls

pub record IsThrottled (calls : List (ℕ × ℕ)) (lines : List Line) : Type 0 where
  pub changing : IsChanging minus_one lines
  pub current : shown minus_one lines ≡ reported minus_one calls
  pub few : length lines ≤ 101

draw_from-IsChanging : (last : ℕ) (calls : List (ℕ × ℕ)) → IsChanging last (draw_from last calls)
unfolding draw_from draw
draw_from-IsChanging last [] = tt
draw_from-IsChanging last ((done, total) ∷ calls) =
    let p = percent done total in
    if_cases (λ (r : ℕ × Option Line). IsChanging last (drawn r.1 (draw_from r.0 calls)))
      (p == last) (λ e. draw_from-IsChanging last calls)
      (λ e. (ground arith, draw_from-IsChanging p calls))

shown-draw_from :
    (last : ℕ) (calls : List (ℕ × ℕ)) → shown last (draw_from last calls) ≡ reported last calls
unfolding draw_from draw
shown-draw_from last [] = refl
shown-draw_from last ((done, total) ∷ calls) =
    let p = percent done total in
    if_cases
      (λ (r : ℕ × Option Line). shown last (drawn r.1 (draw_from r.0 calls)) ≡ reported p calls)
      (p == last)
      (λ e.
        subst (λ l. shown l (draw_from l calls) ≡ reported p calls) (ground arith)
          (shown-draw_from p calls))
      (λ e. shown-draw_from p calls)

-- Behind a line for `low` bytes there are as many more as there are percentages left.
draw_from-few :
    (total low : ℕ) (calls : List (ℕ × ℕ))
    → 100 * total < u64_mod
    → low ≤ total
    → IsGrowing total low calls
    → length (draw_from (percent low total) calls) + percent low total ≤ 100
unfolding draw_from draw
draw_from-few total low [] fits part h = omega (arith, (percent-IsPercent low total part).at_most)
draw_from-few total low ((done, t) ∷ calls) fits part (same, order, below, h) =
    let p = percent done total in
    let last = percent low total in
    let rest = draw_from-few total done calls fits below h in
    rw same (
      if_cases (λ (r : ℕ × Option Line). length (drawn r.1 (draw_from r.0 calls)) + last ≤ 100)
        (p == last) (λ e. subst (λ l. length (draw_from l calls) + l ≤ 100) (ground arith) rest)
        (λ e. ground (arith, rest, percent_mono low done total order below fits)))

draw_from-few_first :
    (total : ℕ) (calls : List (ℕ × ℕ))
    → 100 * total < u64_mod
    → IsGrowing total 0 calls
    → length (draw_from minus_one calls) ≤ 101
unfolding draw_from draw
draw_from-few_first total [] fits h = omega arith
draw_from-few_first total ((done, t) ∷ calls) fits (same, order, below, h) =
    let p = percent done total in
    let rest = draw_from-few total done calls fits below h in
    let bound = (percent-IsPercent done total below).at_most in
    rw same (
      if_cases (λ (r : ℕ × Option Line). length (drawn r.1 (draw_from r.0 calls)) ≤ 101)
        (p == minus_one) (λ e. absurd (ground (arith, bound))) (λ e. ground (arith, rest)))

-- For calls about one total with ever more bytes done, as a transfer makes them, where 100 times
-- the total does not wrap: a line is drawn just when the percentage changes, the line on the
-- screen always has the last percentage, and at most 101 lines are drawn, however many calls there
-- are.
pub draw_from-IsThrottled :
    (total : ℕ) (calls : List (ℕ × ℕ))
    → 100 * total < u64_mod
    → IsGrowing total 0 calls
    → IsThrottled calls (draw_from minus_one calls)
draw_from-IsThrottled total calls fits h = record {
  changing = draw_from-IsChanging minus_one calls;
  current = shown-draw_from minus_one calls;
  few = draw_from-few_first total calls fits h;
}
