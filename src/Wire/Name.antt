-- ===== src/Wire/Name.antt =====
-- `sanitize_file_name` of src/transfer/quic_transfer.cpp.
-- Paths are POSIX paths; `isspace` is that of the "C" locale.
pub mod Safe
use lft.Base.{
  ℕ, Bool, ◌||◌, ◌&&◌, List, [], ◌∷◌, map, Bytes, codes, equal, contains, ltb, leb, ◌==◌,
  if◌then◌else◌,
}

-- `std::filesystem::path(raw).filename()`: what follows the last slash.
unfoldable pub filename : Bytes → Bytes
filename [] = []
filename (c ∷ s) = if contains b'/' s then filename s else if c == b'/' then s else c ∷ s

unfoldable pub is_space : ℕ → Bool
is_space c = c == b' ' || (leb 9 c && leb c 13)

-- `while (!name.empty() && isspace(name.front())) name.erase(name.begin());`
unfoldable pub trim_front : Bytes → Bytes
trim_front [] = []
trim_front (c ∷ s) = let rest = trim_front s in if is_space c then rest else c ∷ s

keep_back : ℕ → Bytes → Bytes
keep_back c [] = if is_space c then [] else c ∷ []
keep_back c (x ∷ s) = c ∷ x ∷ s

-- `while (!name.empty() && isspace(name.back())) name.pop_back();`
trim_back : Bytes → Bytes
unfolding keep_back
trim_back [] = []
trim_back (c ∷ s) = keep_back c (trim_back s)

-- The body of the loop over the characters of the name.
replace_control : ℕ → ℕ
replace_control c = if ltb c 0x20 || (c == b'/' || c == b'\\') then b'_' else c

abbrev pub fallback_name : Bytes
fallback_name = codes "received.bin"

useless : Bytes → Bool
useless name = equal name [] || (equal name (codes ".") || equal name (codes ".."))

unfoldable pub sanitize_file_name : Bytes → Bytes
unfolding filename is_space trim_front trim_back replace_control useless
sanitize_file_name raw =
    let name = trim_back (trim_front (filename raw)) in
    if useless name then fallback_name else map replace_control name
