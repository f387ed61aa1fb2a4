-- ===== src/Tests/Wire.antt =====
-- Runs of the header's code, and its theorems at concrete inputs.
use lft.Base.{
  ◌∷◌, [], ◌≡◌, ◌≢◌, ◌↔◌, ◌<◌, refl, true, ◌++◌, none, some, arith, Bytes, codes, equal, contains,
  cut_at, length, All,
}
use lft.Wire.Name.{sanitize_file_name}
use lft.Wire.Name.Safe.{IsFileName, IsTrimmed, sanitize_file_name_cleans}
use lft.Wire.Number.{u64_mod, print_u64, parse_full_u64, is_digit, scan_digits}
use lft.Wire.Number.RoundTrip.{IsDigit, parse_full_u64-print_u64}
use lft.Wire.Number.Sound.{value, parse_full_u64_iff}
use lft.Wire.Header.{
  FileTransferHeader, encode_file_header, decode_file_header, starts_line, cut_blank, split_lines,
  decode_field, decode_line, decode_lines, complete, decode_block, is_sha256_hex, to_lower_ascii,
}
use lft.Wire.Header.RoundTrip.{received, decode-encode}
use lft.Wire.Header.Sound.{IsWellFormed, decode_file_header-IsWellFormed, decode_file_header-append}

names :
    (sanitize_file_name (codes "../etc/ a\tb.txt \n") ≡ codes "a_b.txt")
    × (sanitize_file_name (codes "dir/..") ≡ codes "received.bin")
    × (sanitize_file_name (codes "c:\\x") ≡ codes "c:_x")
    × (sanitize_file_name (97 ∷ 127 ∷ []) ≡ 97 ∷ 127 ∷ [])
unfolding sanitize_file_name equal contains
names = (refl, refl, refl, refl)

numbers :
    (print_u64 0 ≡ codes "0")
    × (print_u64 18446744073709551615 ≡ codes "18446744073709551615")
    × (parse_full_u64 (codes "18446744073709551615") ≡ some 18446744073709551615)
    × (parse_full_u64 (codes "18446744073709551616") ≡ none)
    × (parse_full_u64 (codes "12a") ≡ none)
unfolding print_u64 parse_full_u64 is_digit scan_digits
numbers = (refl, refl, refl, refl, refl)

abbrev digest : Bytes
digest = codes "0123456789ABCDEF0123456789abcdef0123456789abcdef0123456789abcdef"

abbrev notes : FileTransferHeader
notes = record { name = codes "docs/notes.txt"; size = 11; sha256_hex = digest }

abbrev notes_text : Bytes
notes_text =
    codes "LFT/1\nname=notes.txt\nsize=11\nhash="
    ++ codes "0123456789abcdef0123456789abcdef0123456789abcdef0123456789abcdef\n\n"

encode_notes : encode_file_header notes ≡ notes_text
unfolding encode_file_header sanitize_file_name print_u64 to_lower_ascii equal contains
encode_notes = refl

decode_notes :
    decode_file_header (notes_text ++ codes "hello")
    ≡ some (
      record {
        name = codes "notes.txt";
        size = 11;
        sha256_hex = codes "0123456789abcdef0123456789abcdef0123456789abcdef0123456789abcdef";
      },
      100,
    )
unfolding decode_file_header starts_line cut_blank split_lines decode_field decode_line decode_lines
    complete decode_block sanitize_file_name parse_full_u64 scan_digits is_digit is_sha256_hex
    to_lower_ascii equal contains cut_at
decode_notes = refl

sanitize_file_name_cleans_example :
    IsFileName (sanitize_file_name (codes "../a\tb"))
    × (IsTrimmed (sanitize_file_name (codes "../a\tb"))
        × (IsFileName (codes "../a\tb")
            → IsTrimmed (codes "../a\tb")
            → sanitize_file_name (codes "../a\tb") ≡ codes "../a\tb"))
sanitize_file_name_cleans_example = sanitize_file_name_cleans (codes "../a\tb")

parse_full_u64-print_u64_example : parse_full_u64 (print_u64 1024) ≡ some 1024
parse_full_u64-print_u64_example = parse_full_u64-print_u64 1024 (omega arith)

parse_full_u64_iff_example :
    (parse_full_u64 (codes "007") ≡ some 7)
    ↔ ((codes "007" ≢ []) × All IsDigit (codes "007") × (7 ≡ value 0 (codes "007")) × (7 < u64_mod))
parse_full_u64_iff_example = parse_full_u64_iff (codes "007") 7

notes_hash : is_sha256_hex digest ≡ true
unfolding is_sha256_hex
notes_hash = refl

decode-encode_example :
    decode_file_header (encode_file_header notes ++ codes "hello")
    ≡ some (received notes, length (encode_file_header notes))
decode-encode_example = decode-encode notes (codes "hello") (omega arith) notes_hash

abbrev decoded_notes : FileTransferHeader
decoded_notes = record {
  name = codes "notes.txt";
  size = 11;
  sha256_hex = codes "0123456789abcdef0123456789abcdef0123456789abcdef0123456789abcdef";
}

decode_file_header-IsWellFormed_example : IsWellFormed decoded_notes
decode_file_header-IsWellFormed_example =
    (decode_file_header-IsWellFormed (notes_text ++ codes "hello") decoded_notes 100 decode_notes).0

decode_file_header-append_example :
    decode_file_header ((notes_text ++ codes "hello") ++ codes " world") ≡ some (decoded_notes, 100)
decode_file_header-append_example =
    decode_file_header-append (notes_text ++ codes "hello") (codes " world") decoded_notes 100
      decode_notes
