-- ===== src/Cli/Flags/Given.antt =====
-- Which flags are given, and whether a command knows them.
use Prim.{tt}
use lft.Base.{
  true, false, List, [], ◌∷◌, some, ◌≡◌, ◌≢◌, ◌⊎◌, inl, inr, refl, arith, Bytes, equal, equal_iff,
  All, Option-cases, Bool-cases,
}
use lft.Cli.Flags.{Flags, find, is_allowed, reject_unknown_flags, flag_or}
use lft.Cli.Commands.{given}

-- One of the texts.
abbrev pub IsOneOf : List Bytes → Bytes → Type 0
IsOneOf [] key = ⊥
IsOneOf (a ∷ allowed) key = (key ≡ a) ⊎ IsOneOf allowed key

-- Every flag has one of these keys.
abbrev pub HasKeys : List Bytes → Flags → Type 0
HasKeys allowed flags = All (λ (f : Bytes × Bytes). IsOneOf allowed f.0) flags

-- The flag has this value, which is not empty.
abbrev pub Gives : Bytes → Bytes → Flags → Type 0
Gives key value flags = (find key flags ≡ some value) × (value ≢ [])

abbrev pub IsGiven : Bytes → Flags → Type 0
IsGiven key flags = (value : Bytes) × Gives key value flags

is_allowed-IsOneOf :
    (allowed : List Bytes) (key : Bytes) → is_allowed allowed key ≡ true → IsOneOf allowed key
unfolding is_allowed
is_allowed-IsOneOf [] key h = absurd (ground arith)
is_allowed-IsOneOf (a ∷ allowed) key h = elim (Bool-cases (equal key a)) [
  | inl e ↦ inl ((equal_iff key a).0 e)
  | inr e ↦ inr (is_allowed-IsOneOf allowed key (ground (arith, e)))
]

IsOneOf-is_allowed :
    (allowed : List Bytes) (key : Bytes) → IsOneOf allowed key → is_allowed allowed key ≡ true
unfolding is_allowed
IsOneOf-is_allowed [] key m = elim m [ ]
IsOneOf-is_allowed (a ∷ allowed) key (inl e) = ground (arith, (equal_iff key a).1 e)
IsOneOf-is_allowed (a ∷ allowed) key (inr m) = ground (arith, IsOneOf-is_allowed allowed key m)

pub reject_unknown_flags-HasKeys :
    (allowed : List Bytes) (flags : Flags)
    → reject_unknown_flags flags allowed ≡ true
    → HasKeys allowed flags
unfolding reject_unknown_flags
reject_unknown_flags-HasKeys allowed [] h = tt
reject_unknown_flags-HasKeys allowed ((key, value) ∷ flags) h = (
  is_allowed-IsOneOf allowed key (ground arith),
  reject_unknown_flags-HasKeys allowed flags (ground arith),
)

pub HasKeys-reject_unknown_flags :
    (allowed : List Bytes) (flags : Flags)
    → HasKeys allowed flags
    → reject_unknown_flags flags allowed ≡ true
unfolding reject_unknown_flags
HasKeys-reject_unknown_flags allowed [] h = refl
HasKeys-reject_unknown_flags allowed ((key, value) ∷ flags) (h, hs) =
    let here = IsOneOf-is_allowed allowed key h in
    let later = HasKeys-reject_unknown_flags allowed flags hs in ground (arith, here, later)

pub given-IsGiven : (key : Bytes) (flags : Flags) → given key flags ≡ true → IsGiven key flags
given-IsGiven key flags h = elim (Option-cases (find key flags)) [
  | inl e ↦ absurd (ground (arith, h, e))
  | inr (value, e) ↦ (value, (e, λ nil. absurd (ground (arith, h, e, (equal_iff value []).1 nil))))
]

pub Gives-given :
    (key value : Bytes) (flags : Flags) → Gives key value flags → given key flags ≡ true
Gives-given key value flags (e, more) = elim (Bool-cases (equal value [])) [
  | inl nil ↦ absurd (more ((equal_iff value []).0 nil))
  | inr h ↦ ground (arith, e, h)
]

pub Gives-flag_or :
    (key value fallback : Bytes) (flags : Flags)
    → Gives key value flags
    → flag_or flags key fallback ≡ value
unfolding flag_or
Gives-flag_or key value fallback flags (e, more) = ground (arith, e)

pub not_given : (key : Bytes) (flags : Flags) → given key flags ≡ false → IsGiven key flags → ⊥
not_given key flags h (value, g) = let e = Gives-given key value flags g in ground (arith, h, e)
