-- ===== src/Hash/Hex.antt =====
-- What the print of a digest looks like.
use lft.Base.{
  ℕ, ◌*◌, ◌/◌, ◌%◌, ◌<◌, true, [], ◌∷◌, ◌≡◌, refl, arith, Bytes, length, take, concat, map, All,
  ltb, if_cases, take-eq_of_le, length-append, All-append, All-weaken, all_of_All,
}
use lft.Wire.Number.{is_digit}
use lft.Wire.Header.{is_xdigit, is_sha256_hex, to_lower_ascii}
use lft.Hash.{digest_size, hex_digit, hex_byte, digest_to_hex}

-- A byte of a digest.
abbrev pub IsByte : ℕ → Type 0
IsByte n = n < 256

-- A hexadecimal digit in lower case.
record IsLowerHex (c : ℕ) : Type 0 where
  xdigit : is_xdigit c ≡ true
  lower : to_lower_ascii c ≡ c

hex_digit-IsLowerHex : (n : ℕ) → n < 16 → IsLowerHex (hex_digit n)
unfolding hex_digit is_xdigit is_digit to_lower_ascii
hex_digit-IsLowerHex n h = ground arith

zero-IsLowerHex : IsLowerHex b'0'
unfolding is_xdigit is_digit to_lower_ascii
zero-IsLowerHex = record { xdigit = refl; lower = refl }

hex_byte-IsLowerHex : (n : ℕ) → IsByte n → All IsLowerHex (hex_byte n)
unfolding hex_byte
hex_byte-IsLowerHex n h =
    if_cases (All IsLowerHex) (ltb n 16)
      (λ e. (zero-IsLowerHex, (hex_digit-IsLowerHex n (ground arith), tt)))
      (λ e. (
        hex_digit-IsLowerHex (n / 16) (omega arith),
        (hex_digit-IsLowerHex (n % 16) (omega arith), tt),
      ))

length-hex_byte : (n : ℕ) → length (hex_byte n) ≡ 2
unfolding hex_byte
length-hex_byte n = if_cases (λ (s : Bytes). length s ≡ 2) (ltb n 16) (λ e. refl) (λ e. refl)

length-concat-hex_byte : (d : Bytes) → length (concat (map hex_byte d)) ≡ 2 * length d
length-concat-hex_byte [] = refl
length-concat-hex_byte (b ∷ d) = omega (
  arith,
  length-append (hex_byte b) (concat (map hex_byte d)),
  length-hex_byte b,
  length-concat-hex_byte d,
)

concat-IsLowerHex : (d : Bytes) → All IsByte d → All IsLowerHex (concat (map hex_byte d))
concat-IsLowerHex [] h = tt
concat-IsLowerHex (b ∷ d) h =
    All-append IsLowerHex (hex_byte b) _ (hex_byte-IsLowerHex b h.0) (concat-IsLowerHex d h.1)

map-lower : (s : Bytes) → All IsLowerHex s → map to_lower_ascii s ≡ s
map-lower [] h = refl
map-lower (c ∷ s) h = ground (arith, h.0.lower, map-lower s h.1)

-- The print of a SHA-256 digest is a hash as a header wants it: 64 hexadecimal digits, and in
-- lower case already.
pub digest_to_hex-IsSha256Hex :
    (d : Bytes)
    → length d ≡ digest_size
    → All IsByte d
    → (is_sha256_hex (digest_to_hex d) ≡ true)
      × (map to_lower_ascii (digest_to_hex d) ≡ digest_to_hex d)
unfolding digest_to_hex is_sha256_hex
digest_to_hex-IsSha256Hex d size bytes =
    let whole : take digest_size d ≡ d = take-eq_of_le digest_size d (omega arith) in
    let hex = concat-IsLowerHex d bytes in
    let two : length (concat (map hex_byte d)) ≡ 64 =
      omega (arith, length-concat-hex_byte d, size) in
    let digits = all_of_All is_xdigit _ (All-weaken (λ c h. h.xdigit) _ hex) in
    rw whole (rw two digits, map-lower _ hex)
