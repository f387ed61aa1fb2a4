-- ===== src/Wire/Header/RoundTrip.antt =====
-- Decoding an encoded header, with any bytes behind it.
use lft.Base.{
  ℕ, ◌+◌, ◌<◌, true, [], ◌∷◌, ◌++◌, map, append_assoc, append-nil, Option, some, ◌≡◌, ◌≢◌, refl, ap,
  ◌∙◌, sym, arith, Bytes, codes, equal, equal_iff, equal_refl, cut_at-append, Lacks, All-append,
  All-weaken, All-map, All-of_all, all_of_All, length, length-append, length-map, ◌↔◌, ◌>>=◌, all,
}
use lft.Wire.Name.{sanitize_file_name}
use lft.Wire.Name.Safe.{sanitize_file_name-IsFileName, sanitize_file_name_idem, plain_Lacks_newline}
use lft.Wire.Number.{u64_mod, is_digit, print_u64, parse_full_u64}
use lft.Wire.Number.RoundTrip.{IsDigit, print_u64-digits, parse_full_u64-print_u64}
use lft.Wire.Header.Blocks.{cut_blank-line, cut_blank_last, split_lines-line, split_lines_last}
use lft.Wire.Header.{
  FileTransferHeader, newline, magic, to_lower_ascii, is_xdigit, is_sha256_hex, encode_file_header,
  starts_line, cut_blank, split_lines, Fields, no_fields, with_name, with_size, with_hash,
  decode_field, decode_line, decode_lines, complete, decode_block, decode_file_header,
}

abbrev name_line : Bytes → Bytes
name_line n = codes "name=" ++ n

abbrev size_line : Bytes → Bytes
size_line p = codes "size=" ++ p

abbrev hash_line : Bytes → Bytes
hash_line x = codes "hash=" ++ x

abbrev block_of : Bytes → Bytes → Bytes → Bytes
block_of n p x =
    magic ++ newline ∷ (name_line n ++ newline ∷ (size_line p ++ newline ∷ hash_line x))

abbrev text_of : Bytes → Bytes → Bytes → Bytes → Bytes
text_of n p x rest =
    magic
    ++ newline
      ∷ (name_line n
          ++ newline ∷ (size_line p ++ newline ∷ (hash_line x ++ newline ∷ newline ∷ rest)))

encode_file_header-append :
    (h : FileTransferHeader) (rest : Bytes)
    → encode_file_header h ++ rest
      ≡ text_of
          (sanitize_file_name h.name)
          (print_u64 h.size)
          (map to_lower_ascii h.sha256_hex)
          rest
unfolding encode_file_header
encode_file_header-append h rest = simp append_assoc

-- The line `l` put in front of a block.
abbrev behind : Bytes → Bytes × Bytes → Option (Bytes × Bytes)
behind l r = some (l ++ newline ∷ r.0, r.1)

module _ (n p x : Bytes) (hn : Lacks newline n) (hp : Lacks newline p) (hx : Lacks newline x) where
  name_line-Lacks : Lacks newline (name_line n)
  name_line-Lacks = All-append _ (codes "name=") n (omega arith) hn

  size_line-Lacks : Lacks newline (size_line p)
  size_line-Lacks = All-append _ (codes "size=") p (omega arith) hp

  hash_line-Lacks : Lacks newline (hash_line x)
  hash_line-Lacks = All-append _ (codes "hash=") x (omega arith) hx

  cut_blank-text_of : (rest : Bytes) → cut_blank (text_of n p x rest) ≡ some (block_of n p x, rest)
  unfolding starts_line
  cut_blank-text_of rest =
      let third =
        cut_blank-line (size_line p) (hash_line x ++ newline ∷ newline ∷ rest) size_line-Lacks refl
        ∙ ap (λ o. o >>= behind (size_line p))
            (cut_blank_last (hash_line x) rest hash_line-Lacks) in
      let second =
        cut_blank-line (name_line n) _ name_line-Lacks refl
        ∙ ap (λ o. o >>= behind (name_line n)) third in
      cut_blank-line magic _ (omega arith) refl ∙ ap (λ o. o >>= behind magic) second

  split_lines-block_of :
      split_lines (block_of n p x) ≡ (magic, name_line n ∷ size_line p ∷ hash_line x ∷ [])
  split_lines-block_of =
      split_lines-line magic _ (omega arith)
      ∙ ap (λ r. (magic, r.0 ∷ r.1))
          (split_lines-line (name_line n) _ name_line-Lacks
            ∙ ap (λ r. (name_line n, r.0 ∷ r.1))
                (split_lines-line (size_line p) _ size_line-Lacks
                  ∙ ap (λ r. (size_line p, r.0 ∷ r.1))
                      (split_lines_last (hash_line x) hash_line-Lacks)))

name_line-decode : (n : Bytes) (f : Fields) → decode_line (name_line n) f ≡ some (with_name n f)
unfolding decode_line decode_field equal
name_line-decode n f = rw (cut_at-append b'=' (codes "name") n (omega arith))

size_line-decode :
    (p : Bytes) (v : ℕ) (f : Fields)
    → parse_full_u64 p ≡ some v
    → decode_line (size_line p) f ≡ some (with_size v f)
unfolding decode_line decode_field equal
size_line-decode p v f h = rw (cut_at-append b'=' (codes "size") p (omega arith), h)

hash_line-decode :
    (x : Bytes) (f : Fields)
    → is_sha256_hex x ≡ true
    → decode_line (hash_line x) f ≡ some (with_hash x f)
unfolding decode_line decode_field equal
hash_line-decode x f h = rw (cut_at-append b'=' (codes "hash") x (omega arith), h)

-- Three good lines, in the order in which the encoder writes them.
decode_block-block_of :
    (n p x : Bytes) (v : ℕ)
    → Lacks newline n
    → Lacks newline p
    → Lacks newline x
    → sanitize_file_name n ≢ []
    → parse_full_u64 p ≡ some v
    → is_sha256_hex x ≡ true
    → decode_block (block_of n p x)
      ≡ some (record { name = sanitize_file_name n; size = v; sha256_hex = map to_lower_ascii x })
unfolding decode_block decode_lines complete
decode_block-block_of n p x v hn hp hx ne hv hs =
    rw
      (
        split_lines-block_of n p x hn hp hx,
        equal_refl magic,
        name_line-decode n no_fields,
        size_line-decode p v (with_name n no_fields) hv,
        hash_line-decode x (with_size v (with_name n no_fields)) hs,
      )
      (ground (arith, equal_iff (sanitize_file_name n) []))

decode_file_header-text_of :
    (n p x rest : Bytes) (v : ℕ)
    → Lacks newline n
    → Lacks newline p
    → Lacks newline x
    → sanitize_file_name n ≢ []
    → parse_full_u64 p ≡ some v
    → is_sha256_hex x ≡ true
    → decode_file_header (text_of n p x rest)
      ≡ some (
        record { name = sanitize_file_name n; size = v; sha256_hex = map to_lower_ascii x },
        length (block_of n p x) + 2,
      )
unfolding decode_file_header
decode_file_header-text_of n p x rest v hn hp hx ne hv hs =
    rw (cut_blank-text_of n p x hn hp hx rest, decode_block-block_of n p x v hn hp hx ne hv hs)

IsDigit-ne_newline : (c : ℕ) → IsDigit c → c ≢ newline
unfolding is_digit
IsDigit-ne_newline c h = ground arith

abbrev pub IsXdigit : ℕ → Type 0
IsXdigit c = is_xdigit c ≡ true

IsXdigit-ne_newline : (c : ℕ) → IsXdigit c → c ≢ newline
unfolding is_xdigit is_digit
IsXdigit-ne_newline c h = ground arith

IsXdigit-to_lower_ascii : (c : ℕ) → IsXdigit c → IsXdigit (to_lower_ascii c)
unfolding is_xdigit is_digit to_lower_ascii
IsXdigit-to_lower_ascii c h = ground arith

to_lower_ascii_idem : (c : ℕ) → to_lower_ascii (to_lower_ascii c) ≡ to_lower_ascii c
unfolding to_lower_ascii
to_lower_ascii_idem c = ground arith

pub map-to_lower_ascii_idem :
    (s : Bytes) → map to_lower_ascii (map to_lower_ascii s) ≡ map to_lower_ascii s
map-to_lower_ascii_idem [] = refl
map-to_lower_ascii_idem (c ∷ s) = cc (to_lower_ascii_idem c, map-to_lower_ascii_idem s)

pub is_sha256_hex_iff :
    (s : Bytes) → (is_sha256_hex s ≡ true) ↔ ((length s ≡ 64) × (all is_xdigit s ≡ true))
unfolding is_sha256_hex
is_sha256_hex_iff s = ground arith

pub is_sha256_hex-map :
    (s : Bytes) → is_sha256_hex s ≡ true → is_sha256_hex (map to_lower_ascii s) ≡ true
is_sha256_hex-map s h =
    let (len, hex) = (is_sha256_hex_iff s).0 h in
    (is_sha256_hex_iff _).1 (
      length-map to_lower_ascii s ∙ len,
      all_of_All is_xdigit _ (
          All-map IsXdigit IsXdigit to_lower_ascii IsXdigit-to_lower_ascii s
            (All-of_all is_xdigit s hex)),
    )

is_sha256_hex-Lacks : (s : Bytes) → is_sha256_hex s ≡ true → Lacks newline s
is_sha256_hex-Lacks s h =
    All-weaken IsXdigit-ne_newline s (All-of_all is_xdigit s ((is_sha256_hex_iff s).0 h).1)

length-text_of : (n p x : Bytes) → length (text_of n p x []) ≡ length (block_of n p x) + 2
length-text_of n p x = omega (
  arith,
  length-append n (newline ∷ (size_line p ++ newline ∷ (hash_line x ++ newline ∷ newline ∷ []))),
  length-append p (newline ∷ (hash_line x ++ newline ∷ newline ∷ [])),
  length-append x (newline ∷ newline ∷ []),
  length-append n (newline ∷ (size_line p ++ newline ∷ hash_line x)),
  length-append p (newline ∷ hash_line x),
)

length-encode_file_header :
    (h : FileTransferHeader)
    → length (encode_file_header h)
      ≡ length (
          block_of (sanitize_file_name h.name) (print_u64 h.size) (map to_lower_ascii h.sha256_hex))
        + 2
length-encode_file_header h =
    ap length (sym (append-nil (encode_file_header h)) ∙ encode_file_header-append h [])
    ∙ length-text_of _ _ _

-- What the receiver learns of a header: the sanitized name, the size, the hash in lower case.
abbrev pub received : FileTransferHeader → FileTransferHeader
received h = record {
  name = sanitize_file_name h.name;
  size = h.size;
  sha256_hex = map to_lower_ascii h.sha256_hex;
}

-- A header whose size is a `uint64_t` and whose hash has the right form is decoded to its
-- sanitized form, whatever bytes follow it, and exactly the encoded bytes are consumed.
pub decode-encode :
    (h : FileTransferHeader) (body : Bytes)
    → h.size < u64_mod
    → is_sha256_hex h.sha256_hex ≡ true
    → decode_file_header (encode_file_header h ++ body)
      ≡ some (received h, length (encode_file_header h))
decode-encode h body fits hex = rw (encode_file_header-append h body) (
    rw
      (decode_file_header-text_of _ _ _ body h.size
        (plain_Lacks_newline _ (sanitize_file_name-IsFileName h.name).plain)
        (All-weaken IsDigit-ne_newline _ (print_u64-digits h.size))
        (is_sha256_hex-Lacks _ (is_sha256_hex-map _ hex))
        (sanitize_file_name-IsFileName (sanitize_file_name h.name)).ne_nil
        (parse_full_u64-print_u64 h.size fits) (is_sha256_hex-map _ hex))
      (rw (sanitize_file_name_idem, map-to_lower_ascii_idem, length-encode_file_header)))
