-- ===== src/Cli/Flags.antt =====
-- `parse_flags`, `reject_unknown_flags` and `flag_or` of src/main.cpp. The map of the flags is an
-- association list in the order of insertion, which the program does not read.
pub mod Distinct
pub mod RoundTrip
pub mod Given
use lft.Base.{
  ℕ, Bool, true, false, not, ◌&&◌, ◌||◌, List, [], ◌∷◌, ◌++◌, Option, none, some, Bytes, codes,
  equal, cut_at, starts_with, length, drop, all, ltb, if◌then◌else◌, ◌>>=◌, is_some,
}

abbrev pub Flags : Type 0
Flags = List (Bytes × Bytes)

unfoldable pub find : Bytes → Flags → Option Bytes
find key [] = none
find key ((k, v) ∷ flags) = let later = find key flags in if equal k key then some v else later

-- `flags.emplace(key, value)`; `none` if the key is there already.
unfoldable pub emplace : Bytes → Bytes → Flags → Option Flags
emplace key value flags =
    if is_some (find key flags) then none else some (flags ++ (key, value) ∷ [])

-- `tok.size() < 3 || tok.substr(0, 2) != "--"`.
unfoldable pub is_no_flag : Bytes → Bool
is_no_flag tok = ltb (length tok) 3 || not (starts_with (codes "--") tok)

-- The loop, with the flags read so far. A token without '=' takes the next token as its value.
unfoldable pub parse_from : Flags → List Bytes → Option Flags
parse_from flags [] = some flags
parse_from flags (tok ∷ []) = if is_no_flag tok then none else elim (cut_at b'=' (drop 2 tok)) [
  | some (key, value) ↦ emplace key value flags
  | none ↦ none
]
parse_from flags (tok ∷ next ∷ args) =
    if is_no_flag tok then none else elim (cut_at b'=' (drop 2 tok)) [
      | some (key, value) ↦ emplace key value flags >>= λ more. parse_from more (next ∷ args)
      | none ↦ emplace (drop 2 tok) next flags >>= λ more. parse_from more args
    ]

unfoldable pub parse_flags : List Bytes → Option Flags
parse_flags args = parse_from [] args

unfoldable pub is_allowed : List Bytes → Bytes → Bool
is_allowed [] key = false
is_allowed (a ∷ allowed) key = equal key a || is_allowed allowed key

unfoldable pub reject_unknown_flags : Flags → List Bytes → Bool
reject_unknown_flags [] allowed = true
reject_unknown_flags ((key, value) ∷ flags) allowed =
    is_allowed allowed key && reject_unknown_flags flags allowed

unfoldable pub flag_or : Flags → Bytes → Bytes → Bytes
flag_or flags key fallback = elim (find key flags) [ none ↦ fallback | some value ↦ value ]
