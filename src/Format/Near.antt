-- ===== src/Format/Near.antt =====
-- How near the printed count is.
use native.Mathlib.Nat.{div-add-mod', mod-lt, pow-le-pow_right}
use lft.Base.{
  ℕ, zero, suc, ◌+◌, ◌*◌, ◌/◌, ◌%◌, ◌^◌, ◌≤◌, ◌<◌, ◌&&◌, ◌||◌, ◌∷◌, ◌++◌, Option, none, some, ◌≡◌,
  refl, ◌⊎◌, inl, inr, arith, Bytes, codes, ltb, leb, ◌==◌, if◌then◌else◌, if_cases, if_both,
  Bool-cases, lt_of_ltb, le_of_ltb,
}
use lft.Wire.Number.{print_u64}
use lft.Format.{
  round_half_even, last_place, to_double, pick_unit, units, print_tenths, print_value, format_bytes,
}

-- `t` is the nearest multiple of `b` to `a`, up to half of `b`.
pub record IsNearest (a b t : ℕ) : Type 0 where
  pub above : 2 * a ≤ 2 * (t * b) + b
  pub below : 2 * (t * b) ≤ 2 * a + b

quotient-IsNearest :
    (a b q r : ℕ)
    → q * b + r ≡ a
    → r < b
    → IsNearest a b (if ltb b (2 * r) || ((2 * r == b) && (q % 2 == 1)) then q + 1 else q)
quotient-IsNearest a b q r split small =
    let next : (q + 1) * b ≡ q * b + b = omega arith in
    if_cases (IsNearest a b) (ltb b (2 * r) || ((2 * r == b) && (q % 2 == 1)))
      (λ e. record { above = ground arith; below = ground arith })
      (λ e. record { above = ground arith; below = ground arith })

pub round_half_even-IsNearest : (a b : ℕ) → 1 ≤ b → IsNearest a b (round_half_even a b)
unfolding round_half_even
round_half_even-IsNearest a b h =
    quotient-IsNearest a b (a / b) (a % b) (div-add-mod' a b) (mod-lt a h)

round_half_even-exact : (n : ℕ) → round_half_even n 1 * 1 ≡ n
round_half_even-exact n =
    let h = round_half_even-IsNearest n 1 (omega arith) in omega (arith, h.above, h.below)

last_place-bounds : (k n : ℕ) → (1 ≤ last_place k n) × (last_place k n ≤ 2 ^ k)
unfolding last_place
last_place-bounds zero n = (omega arith, omega arith)
last_place-bounds (suc k) n =
    let (low, high) = last_place-bounds k n in
    let double : 2 ^ suc k ≡ 2 * 2 ^ k = omega arith in
    if_both (λ place. (1 ≤ place) × (place ≤ 2 ^ suc k)) (ltb n (2 ^ (53 + k)))
      (low, omega (arith, high, double)) (omega (arith, low, high, double), omega arith)

pow_grows : (k : ℕ) → 2 ^ 53 ≤ 2 ^ (53 + k)
pow_grows k = pow-le-pow_right {n = 2} (omega arith) {i = 53} {j = 53 + k} (omega arith)

last_place-one : (k n : ℕ) → n < 2 ^ 53 → last_place k n ≡ 1
unfolding last_place
last_place-one zero n h = refl
last_place-one (suc k) n h =
    let more : 2 ^ 53 ≤ 2 ^ (53 + k) = pow_grows k in
    if_cases (λ place. place ≡ 1) (ltb n (2 ^ (53 + k))) (λ e. last_place-one k n h)
      (λ e. absurd (ground arith))

-- What a `double` keeps of `n`: all below `2 ^ 53`, and beyond all but 1024.
pub record IsDouble (n m : ℕ) : Type 0 where
  pub exact : n < 2 ^ 53 → m ≡ n
  pub above : n ≤ m + 1024
  pub below : m ≤ n + 1024

pub to_double-IsDouble : (n : ℕ) → IsDouble n (to_double n)
unfolding to_double
to_double-IsDouble n =
    let place = last_place 11 n in
    let (low, high) = last_place-bounds 11 n in
    let nearest = round_half_even-IsNearest n place low in
    record {
      exact = λ h. rw (last_place-one 11 n h) (round_half_even-exact n);
      above = omega (arith, nearest.above, high);
      below = omega (arith, nearest.below, high);
    }

to_double-large : (n : ℕ) → 1024 ≤ n → 1024 ≤ to_double n
to_double-large n h =
    let double = to_double-IsDouble n in
    elim (Bool-cases (ltb n (2 ^ 53))) [
      | inl e ↦ omega (arith, double.exact (lt_of_ltb n _ e), h)
      | inr e ↦ omega (arith, le_of_ltb n _ e, double.above)
    ]

-- The unit that the name stands for.
pub data IsUnit : ℕ → Bytes → Type 0 where
  kb : IsUnit 1024 (codes "KB")
  mb : IsUnit 1048576 (codes "MB")
  gb : IsUnit 1073741824 (codes "GB")
  tb : IsUnit 1099511627776 (codes "TB")

-- The largest unit that `m` reaches, or the last.
abbrev IsPicked : ℕ → ℕ × Option Bytes → Type 0
IsPicked m (p, none) = ⊥
IsPicked m (p, some name) = IsUnit p name × (p ≤ m) × ((m < 1024 * p) ⊎ (name ≡ codes "TB"))

pick_unit-IsPicked : (m : ℕ) → 1024 ≤ m → IsPicked m (pick_unit m 1 none units)
unfolding pick_unit
pick_unit-IsPicked m h =
    let P = IsPicked m in
    if_cases P (leb 1024 m)
      (λ a.
        if_cases P (leb 1048576 m)
          (λ b.
            if_cases P (leb 1073741824 m)
              (λ c.
                if_cases P (leb 1099511627776 m) (λ d. (tb, ground arith, inr refl))
                  (λ d. (gb, ground arith, inl (ground arith))))
              (λ c. (mb, ground arith, inl (ground arith))))
          (λ b. (kb, ground arith, inl (ground arith))))
      (λ a. absurd (ground arith))

-- A text that shows `n`: the count itself below 1024, and above a number of tenths of a unit that
-- is the nearest to what a `double` keeps of `n`.
pub record IsScaled (n : ℕ) (text : Bytes) : Type 0 where
  pub value : ℕ
  pub tenths : ℕ
  pub unit : ℕ
  pub name : Bytes
  pub double : IsDouble n value
  pub named : IsUnit unit name
  pub reached : unit ≤ value
  pub largest : (value < 1024 * unit) ⊎ (name ≡ codes "TB")
  pub nearest : IsNearest (10 * value) unit tenths
  pub printed : text ≡ print_tenths tenths ++ b' ' ∷ name

pub Shows : ℕ → Option Bytes → Type 0
Shows n none = ⊥
Shows n (some text) =
    ((n < 1024) × (text ≡ print_u64 n ++ codes " B")) ⊎ ((1024 ≤ n) × IsScaled n text)

unit-positive : (p : ℕ) (name : Bytes) → IsUnit p name → 1 ≤ p
unit-positive p name kb = omega arith
unit-positive p name mb = omega arith
unit-positive p name gb = omega arith
unit-positive p name tb = omega arith

print_value-Shows :
    (n : ℕ) (picked : ℕ × Option Bytes)
    → 1024 ≤ n
    → IsPicked (to_double n) picked
    → Shows n (print_value (to_double n) picked)
unfolding Shows
print_value-Shows n (p, none) h picked = picked
print_value-Shows n (p, some name) h (named, reached, largest) = inr (
  h,
  record {
    value = to_double n;
    tenths = round_half_even (10 * to_double n) p;
    unit = p;
    name = name;
    double = to_double-IsDouble n;
    named = named;
    reached = reached;
    largest = largest;
    nearest = round_half_even-IsNearest (10 * to_double n) p (unit-positive p name named);
    printed = refl;
  },
)

-- Every count is printed, and no name outside the list of units is read. Below 1024 it is the
-- count with "B"; from there the unit is the largest of KB, MB, GB and TB that the count reaches,
-- and the tenths printed are the nearest to the count, which a `double` keeps exactly below
-- `2 ^ 53` and up to 1024 beyond.
pub format_bytes-Shows : (n : ℕ) → Shows n (format_bytes n)
unfolding format_bytes Shows
format_bytes-Shows n =
    let double = to_double-IsDouble n in
    if_cases (Shows n) (ltb n 1024) (λ e. inl (ground arith, refl))
      (λ e.
        print_value-Shows n _ (ground arith)
          (pick_unit-IsPicked (to_double n) (to_double-large n (ground arith))))
