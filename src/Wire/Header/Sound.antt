-- ===== src/Wire/Header/Sound.antt =====
-- What a decoded header is, and how decoding behaves on the front of a longer text.
use lft.Base.{
  ℕ, ◌+◌, ◌≤◌, ◌<◌, true, false, [], ◌∷◌, ◌++◌, map, List, Option, none, some, ◌≡◌, refl, ap, ◌∙◌,
  subst, arith, Bytes, equal, cut_at, length, length-append, >>=-eq-some, if◌then◌else◌,
  Option-cases, Bool-cases, inl, inr, Bool,
}
use lft.Wire.Name.Safe.{IsFileName, sanitize_file_name-IsFileName}
use lft.Wire.Number.{u64_mod, parse_full_u64}
use lft.Wire.Number.Sound.{parse_full_u64_iff}
use lft.Wire.Header.Blocks.{cut_blank-append, cut_blank-splits, cut_blank-prefix}
use lft.Wire.Header.RoundTrip.{is_sha256_hex-map, map-to_lower_ascii_idem}
use lft.Wire.Header.{
  FileTransferHeader, newline, magic, to_lower_ascii, is_sha256_hex, cut_blank, split_lines, Fields,
  no_fields, decode_field, decode_line, decode_lines, complete, decode_block, decode_file_header,
}

-- A header that the receiver can act on.
pub record IsWellFormed (h : FileTransferHeader) : Type 0 where
  pub name_plain : IsFileName h.name
  pub size_fits : h.size < u64_mod
  pub hash_form : is_sha256_hex h.sha256_hex ≡ true
  pub hash_lower : map to_lower_ascii h.sha256_hex ≡ h.sha256_hex

record FieldsInv (f : Fields) : Type 0 where
  name_seen : f.has_name ≡ true → IsFileName f.header.name
  size_seen : f.has_size ≡ true → f.header.size < u64_mod
  hash_form : f.has_hash ≡ true → is_sha256_hex f.header.sha256_hex ≡ true
  hash_lower : f.has_hash ≡ true → map to_lower_ascii f.header.sha256_hex ≡ f.header.sha256_hex

decode_field-FieldsInv :
    (key value : Bytes) (f g : Fields)
    → FieldsInv f
    → decode_field key value f ≡ some g
    → FieldsInv g
unfolding decode_field
decode_field-FieldsInv key value f g v h = elim (Option-cases (parse_full_u64 value)) [
  | inl e ↦ ground (
    arith,
    sanitize_file_name-IsFileName value,
    is_sha256_hex-map value,
    map-to_lower_ascii_idem value,
  )
  | inr (n, e) ↦ ground (
    arith,
    sanitize_file_name-IsFileName value,
    is_sha256_hex-map value,
    map-to_lower_ascii_idem value,
    ((parse_full_u64_iff value n).0 e).3,
  )
]

decode_line-FieldsInv :
    (line : Bytes) (f g : Fields) → FieldsInv f → decode_line line f ≡ some g → FieldsInv g
unfolding decode_line
decode_line-FieldsInv [] f g v h = ground arith
decode_line-FieldsInv (c ∷ s) f g v h =
    let ((key, value), _, e) = >>=-eq-some (cut_at b'=' (c ∷ s)) _ h in
    decode_field-FieldsInv key value f g v e

decode_lines-FieldsInv :
    (lines : List Bytes) (f g : Fields) → FieldsInv f → decode_lines lines f ≡ some g → FieldsInv g
unfolding decode_lines
decode_lines-FieldsInv [] f g v h = ground arith
decode_lines-FieldsInv (l ∷ ls) f g v h =
    let (k, first, rest) = >>=-eq-some (decode_line l f) _ h in
    decode_lines-FieldsInv ls k g (decode_line-FieldsInv l f k v first) rest

no_fields-FieldsInv : FieldsInv no_fields
no_fields-FieldsInv = record {
  name_seen = λ e. cc;
  size_seen = λ e. cc;
  hash_form = λ e. cc;
  hash_lower = λ e. cc;
}

complete-IsWellFormed : (f : Fields) → FieldsInv f → complete f ≡ true → IsWellFormed f.header
unfolding complete
complete-IsWellFormed f v h = record {
  name_plain = v.name_seen (ground arith);
  size_fits = v.size_seen (ground arith);
  hash_form = v.hash_form (ground arith);
  hash_lower = v.hash_lower (ground arith);
}

pub some_pair_inj :
    {a c : FileTransferHeader} {b d : ℕ}
    → ◌≡◌ {A = Option (FileTransferHeader × ℕ)} (some (a, b)) (some (c, d))
    → (a ≡ c) × (b ≡ d)
some_pair_inj e = ground arith

if-some :
    {h : FileTransferHeader} (b : Bool) (x : FileTransferHeader)
    → (if b then some x else none) ≡ some h
    → (b ≡ true) × (x ≡ h)
if-some true x e = (refl, cc)
if-some false x e = cc

-- `decode_block` returned a header: the lines were read, and all three keys were there.
decode_block-some :
    (b : Bytes) {h : FileTransferHeader}
    → decode_block b ≡ some h
    → (f : Fields) × (decode_lines (split_lines b).1 no_fields ≡ some f)
      × (complete f ≡ true)
      × (f.header ≡ h)
unfolding decode_block
decode_block-some b e = elim (Bool-cases (equal (split_lines b).0 magic)) [
  | inl m ↦
      let (f, read, e') = >>=-eq-some (decode_lines (split_lines b).1 no_fields) _ (rw m at e) in
      let (full, same) = if-some (complete f) f.header e' in (f, read, full, same)
  | inr m ↦ absurd (ground arith)
]

-- The parts of a successful decoding: the block up to the first blank line, and its header.
pub decode_file_header-some :
    (s : Bytes) {h : FileTransferHeader} {n : ℕ}
    → decode_file_header s ≡ some (h, n)
    → (b r : Bytes) × (cut_blank s ≡ some (b, r)) × (decode_block b ≡ some h) × (length b + 2 ≡ n)
unfolding decode_file_header
decode_file_header-some s e =
    let ((b, r), cut, e') = >>=-eq-some (cut_blank s) _ e in
    let (h', block, same) = >>=-eq-some (decode_block b) _ e' in
    let (header_eq, count_eq) = some_pair_inj same in
    (b, r, cut, block ∙ ap some header_eq, count_eq)

-- Whatever the decoder returns has a plain file name, a size that fits `uint64_t` and a hash of 64
-- hexadecimal letters in lower case; and the bytes that it says it consumed are there, the last
-- two of them being the blank line.
pub decode_file_header-IsWellFormed :
    (s : Bytes) (h : FileTransferHeader) (n : ℕ)
    → decode_file_header s ≡ some (h, n)
    → IsWellFormed h
      × ((b r : Bytes) × (s ≡ b ++ newline ∷ newline ∷ r) × (length b + 2 ≡ n) × (n ≤ length s))
decode_file_header-IsWellFormed s h n e =
    let (b, r, cut, block, count) = decode_file_header-some s e in
    let (f, read, full, same) = decode_block-some b block in
    let splits = cut_blank-splits s cut in
    (
      subst IsWellFormed same
          (complete-IsWellFormed f (decode_lines-FieldsInv _ _ f no_fields-FieldsInv read) full),
      (
        b,
        r,
        splits,
        count,
        omega (arith, ap length splits, length-append b (newline ∷ newline ∷ r)),
      ),
    )

-- A header is decoded from the first bytes that hold all of it: more bytes change neither the
-- header nor where it ends. So the receiver may retry after each piece that arrives.
pub decode_file_header-append :
    (s t : Bytes) (h : FileTransferHeader) (n : ℕ)
    → decode_file_header s ≡ some (h, n)
    → decode_file_header (s ++ t) ≡ some (h, n)
decode_file_header-append s t h n e =
    let (b, r, cut, block, count) = decode_file_header-some s e in
    unfold decode_file_header in rw (cut_blank-append s t cut, block, count)

-- A header that ends in the front part of a text is decoded from that part alone.
pub decode_file_header-prefix :
    (s t : Bytes) (h : FileTransferHeader) (n : ℕ)
    → decode_file_header (s ++ t) ≡ some (h, n)
    → n ≤ length s
    → decode_file_header s ≡ some (h, n)
decode_file_header-prefix s t h n e fits =
    let (b, r, cut, block, count) = decode_file_header-some (s ++ t) e in
    let (r', found) = cut_blank-prefix s t b r cut (omega arith) in
    unfold decode_file_header in rw (found, block, count)
