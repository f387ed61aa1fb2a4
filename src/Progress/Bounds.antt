-- ===== src/Progress/Bounds.antt =====
-- The range of the percentage.
use native.Mathlib.Nat.{div-add-mod', mod-lt, mul-le-mul_right}
use lft.Base.{
  ℕ, zero, suc, ◌+◌, ◌*◌, ◌%◌, ◌≤◌, ◌<◌, ◌≡◌, arith, ◌==◌, if_cases, Bool-cases, ltb, lt_of_ltb,
  le_of_ltb, inl, inr,
}
use lft.Wire.Number.{u64_mod}
use lft.Progress.{int_mod, percent}

-- The percentage is at most 100, and the whole part of `100 * done / total` where that product
-- does not wrap.
pub record IsPercent (done total pct : ℕ) : Type 0 where
  pub at_most : pct ≤ 100
  pub floor : 100 * done < u64_mod → pct * total ≤ 100 * done
  pub next : 100 * done < u64_mod → 1 ≤ total → 100 * done < (pct + 1) * total

quotient_bound : (x t q r : ℕ) → q * t + r ≡ x → x ≤ 100 * t → r < t → q ≤ 100
quotient_bound x t q r split small rest = elim (Bool-cases (ltb 100 q)) [
  | inl e ↦
      let more : 101 * t ≤ q * t = mul-le-mul_right t (lt_of_ltb 100 q e) in
      absurd (omega (arith, split, small, rest, more))
  | inr e ↦ le_of_ltb 100 q e
]

-- A percentage before the cast to `int`, of a product that may have wrapped.
quotient-IsPercent :
    (done total x q r : ℕ)
    → done ≤ total
    → x ≡ 100 * done % u64_mod
    → q * total + r ≡ x
    → r < total
    → IsPercent done total (q % int_mod)
quotient-IsPercent done total x q r part product split rest =
    let small = quotient_bound x total q r split (omega (arith, part, product)) rest in
    let same : q % int_mod ≡ q = omega (arith, small) in
    let next : (q + 1) * total ≡ q * total + total = omega arith in
    rw same (record {
      at_most = small;
      floor = λ h. omega (arith, h, product, split);
      next = λ h some_bytes. omega (arith, h, product, split, rest, next);
    })

-- As long as no more is done than there is, the percentage is at most 100, however large the
-- counts are: also where `done * 100` wraps. Where it does not, the percentage is the whole part
-- of `100 * done / total`.
pub percent-IsPercent : (done total : ℕ) → done ≤ total → IsPercent done total (percent done total)
unfolding percent
percent-IsPercent done total part =
    if_cases (IsPercent done total) (total == 0)
      (λ e. record {
        at_most = omega arith;
        floor = λ h. ground arith;
        next = λ h some_bytes. absurd (ground arith);
      })
      (λ e.
        quotient-IsPercent done total (done * 100 % u64_mod) _ _ part (omega arith)
          (div-add-mod' _ total) (mod-lt _ (ground arith)))

pub percent_mono :
    (less more total : ℕ)
    → less ≤ more
    → more ≤ total
    → 100 * total < u64_mod
    → percent less total ≤ percent more total
percent_mono less more zero order part fits =
    let e : less ≡ more = omega (arith, order, part) in rw e (omega arith)
percent_mono less more (suc t) order part fits =
    let total = suc t in
    let p = percent less total in
    let q = percent more total in
    let low = percent-IsPercent less total (omega (arith, order, part)) in
    let high = percent-IsPercent more total part in
    elim (Bool-cases (ltb q p)) [
      | inl e ↦
          let above : (q + 1) * total ≤ p * total =
            mul-le-mul_right total (omega (arith, lt_of_ltb q p e)) in
          absurd (
            omega (
              arith,
              above,
              low.floor (omega (arith, order, part, fits)),
              high.next (omega (arith, part, fits)) (omega arith),
              order,
            ))
      | inr e ↦ le_of_ltb q p e
    ]
