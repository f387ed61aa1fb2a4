-- ===== src/Base/Text.antt =====
-- Texts as lists of bytes, with the comparisons and the searches that `std::string` has.
use Prim.Native.Nat.{ℕ}
use Prim.Native.Char.{code}
use Prim.Native.String.{String}
use mathlib.Core.Path.{◌≡◌, refl}
use mathlib.Core.Logic.{◌≢◌, ◌↔◌, inl, inr}
use mathlib.Core.Bool.{Bool, true, false, ◌&&◌}
use mathlib.Core.Option.{Option, none, some}
use mathlib.Core.List.{List, [], ◌∷◌, ◌++◌}
use native.Mathlib.Omega.{arith}
use lft.Base.Tests.{◌==◌, if◌then◌else◌, ◌>>=◌, Bool-cases}
use lft.Base.Lists.{All}

abbrev pub Bytes : Type 0
Bytes = List ℕ

-- The code points of a literal: its bytes, as the literals here are ASCII.
abbrev pub codes : String → Bytes
codes String.[] = []
codes (String.◌∷◌ c s) = code c ∷ codes s

-- `a == b` on texts.
unfoldable pub equal : Bytes → Bytes → Bool
equal [] [] = true
equal [] (y ∷ b) = false
equal (x ∷ a) [] = false
equal (x ∷ a) (y ∷ b) = x == y && equal a b

pub equal_iff : (a b : Bytes) → (equal a b ≡ true) ↔ (a ≡ b)
unfolding equal
equal_iff [] [] = ground arith
equal_iff [] (y ∷ b) = ground arith
equal_iff (x ∷ a) [] = ground arith
equal_iff (x ∷ a) (y ∷ b) = ground (arith, equal_iff a b)

pub equal_refl : (a : Bytes) → equal a a ≡ true
equal_refl a = (equal_iff a a).1 refl

-- `s.starts_with(p)`.
unfoldable pub starts_with : Bytes → Bytes → Bool
starts_with [] s = true
starts_with (x ∷ p) [] = false
starts_with (x ∷ p) (y ∷ s) = x == y && starts_with p s

pub starts_with-append : (p s : Bytes) → starts_with p (p ++ s) ≡ true
unfolding starts_with
starts_with-append [] s = refl
starts_with-append (x ∷ p) s = ground (arith, starts_with-append p s)

pub starts_with-more : (p s t : Bytes) → starts_with p s ≡ true → starts_with p (s ++ t) ≡ true
unfolding starts_with
starts_with-more [] s t h = refl
starts_with-more (x ∷ p) [] t h = absurd (ground arith)
starts_with-more (x ∷ p) (y ∷ s) t h = elim (Bool-cases (x == y)) [
  | inl e ↦ rw e (starts_with-more p s t (ground arith))
  | inr e ↦ absurd (ground arith)
]

-- `s.find(c) != npos`.
unfoldable pub contains : ℕ → Bytes → Bool
contains c [] = false
contains c (x ∷ s) = if x == c then true else contains c s

-- The texts around the first `c`: `s.substr(0, i)` and `s.substr(i + 1)` for `i = s.find(c)`.
unfoldable pub cut_at : ℕ → Bytes → Option (Bytes × Bytes)
cut_at c [] = none
cut_at c (x ∷ s) = if x == c then some ([], s) else cut_at c s >>= λ r. some (x ∷ r.0, r.1)

abbrev pub Lacks : ℕ → Bytes → Type 0
Lacks b = All (λ c. c ≢ b)

pub cut_at-append : (c : ℕ) (a b : Bytes) → Lacks c a → cut_at c (a ++ c ∷ b) ≡ some (a, b)
unfolding cut_at
cut_at-append c [] b h = ground arith
cut_at-append c (x ∷ a) b h = ground (arith, cut_at-append c a b h.1)

pub cut_at-none : (c : ℕ) (s : Bytes) → Lacks c s → cut_at c s ≡ none
unfolding cut_at
cut_at-none c [] h = refl
cut_at-none c (x ∷ s) h = ground (arith, cut_at-none c s h.1)

pub equal_comm : (a b : Bytes) → equal a b ≡ equal b a
unfolding equal
equal_comm [] [] = refl
equal_comm [] (y ∷ b) = refl
equal_comm (x ∷ a) [] = refl
equal_comm (x ∷ a) (y ∷ b) = ground (arith, equal_comm a b)
