-- ===== src/Wire/Header.antt =====
-- `is_sha256_hex`, `encode_file_header` and `decode_file_header` of src/transfer/quic_transfer.cpp.
mod Blocks
pub mod RoundTrip
pub mod Sound
use lft.Base.{
  ℕ, ◌+◌, Bool, true, false, not, ◌&&◌, ◌||◌, List, [], ◌∷◌, ◌++◌, map, Option, none, some, Bytes,
  codes, equal, cut_at, drop, length, all, leb, ◌==◌, if◌then◌else◌, ◌>>=◌,
}
use lft.Wire.Name.{sanitize_file_name}
use lft.Wire.Number.{is_digit, parse_full_u64, print_u64}

pub record FileTransferHeader : Type 0 where
  pub name : Bytes
  pub size : ℕ
  pub sha256_hex : Bytes

-- `FileTransferHeader{}`.
abbrev pub no_header : FileTransferHeader
no_header = record { name = []; size = 0; sha256_hex = [] }

abbrev pub newline : ℕ
newline = b'\n'

abbrev pub magic : Bytes
magic = codes "LFT/1"

unfoldable pub to_lower_ascii : ℕ → ℕ
to_lower_ascii c = if leb b'A' c && leb c b'Z' then c + 32 else c

-- `isxdigit`.
unfoldable pub is_xdigit : ℕ → Bool
is_xdigit c = is_digit c || ((leb b'a' c && leb c b'f') || (leb b'A' c && leb c b'F'))

unfoldable pub is_sha256_hex : Bytes → Bool
unfolding is_xdigit is_digit
is_sha256_hex s = if not (length s == 64) then false else all is_xdigit s

unfoldable pub encode_file_header : FileTransferHeader → Bytes
encode_file_header h =
    magic
    ++ newline
      ∷ (codes "name="
          ++ (sanitize_file_name h.name
              ++ newline
                ∷ (codes "size="
                    ++ (print_u64 h.size
                        ++ newline
                          ∷ (codes "hash="
                              ++ (map to_lower_ascii h.sha256_hex ++ newline ∷ newline ∷ []))))))

unfoldable pub starts_line : Bytes → Bool
starts_line [] = false
starts_line (c ∷ s) = c == newline

-- `data.find("\n\n")`: the text in front of the first blank line, and the text behind it.
unfoldable pub cut_blank : Bytes → Option (Bytes × Bytes)
cut_blank [] = none
cut_blank (c ∷ s) =
    if c == newline && starts_line s
    then some ([], drop 1 s)
    else cut_blank s >>= λ r. some (c ∷ r.0, r.1)

-- The loop over `block.find('\n', pos)`: the first line, and the lines behind it.
unfoldable pub split_lines : Bytes → Bytes × List Bytes
split_lines [] = ([], [])
split_lines (c ∷ s) =
    let (line, lines) = split_lines s in
    if c == newline then ([], line ∷ lines) else (c ∷ line, lines)

-- The local variables of the loop: what `header` holds, and which keys were seen.
pub record Fields : Type 0 where
  pub header : FileTransferHeader
  pub has_name : Bool
  pub has_size : Bool
  pub has_hash : Bool

abbrev pub no_fields : Fields
no_fields = record { header = no_header; has_name = false; has_size = false; has_hash = false }

abbrev pub with_name : Bytes → Fields → Fields
with_name n f = record f {
  header = record (f.header) { name = sanitize_file_name n };
  has_name = true;
}

abbrev pub with_size : ℕ → Fields → Fields
with_size n f = record f { header = record (f.header) { size = n }; has_size = true }

abbrev pub with_hash : Bytes → Fields → Fields
with_hash v f = record f {
  header = record (f.header) { sha256_hex = map to_lower_ascii v };
  has_hash = true;
}

unfoldable pub decode_field : Bytes → Bytes → Fields → Option Fields
decode_field key value f =
    if equal key (codes "name")
    then some (with_name value f)
    else if equal key (codes "size")
    then parse_full_u64 value >>= (λ n. some (with_size n f))
    else if equal key (codes "hash")
    then (if is_sha256_hex value then some (with_hash value f) else none)
    else some f

-- A line behind the first one. An empty line is passed over.
unfoldable pub decode_line : Bytes → Fields → Option Fields
decode_line [] f = some f
decode_line (c ∷ s) f = do (key, value) ← cut_at b'=' (c ∷ s); decode_field key value f

unfoldable pub decode_lines : List Bytes → Fields → Option Fields
decode_lines [] f = some f
decode_lines (line ∷ lines) f = do g ← decode_line line f; decode_lines lines g

unfoldable pub complete : Fields → Bool
complete f = f.has_name && (f.has_size && (f.has_hash && not (equal f.header.name [])))

-- The header block with no blank line.
unfoldable pub decode_block : Bytes → Option FileTransferHeader
decode_block block =
    let (first, lines) = split_lines block in
    if not (equal first magic)
    then none
    else decode_lines lines no_fields >>= λ f. if complete f then some f.header else none

-- The header and `header_byte_count`; `none` for `false`. The two out parameters are read by the
-- caller only if the result is `true`.
unfoldable pub decode_file_header : Bytes → Option (FileTransferHeader × ℕ)
decode_file_header data' = do
  (block, rest) ← cut_blank data'
  h ← decode_block block
  some (h, length block + 2)
