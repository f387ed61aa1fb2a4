-- ===== src/Hash.antt =====
-- `digest_to_hex`, `sha256_bytes` and `sha256_file` of src/transfer/sha256.cpp, over OpenSSL's EVP
-- interface as a parameter. A file is its bytes; a read that fails is the end of the file, as it
-- is for the code.
pub mod Hex
pub mod Blocks
use lft.Base.{
  ℕ, zero, suc, ◌+◌, ◌-◌, ◌/◌, ◌%◌, Bool, List, [], ◌∷◌, ◌++◌, Option, none, some, Bytes, length,
  take, drop, concat, map, ltb, ◌==◌, if◌then◌else◌, ◌>>=◌,
}

-- `EVP_DigestInit_ex` on a new context, `EVP_DigestUpdate` and `EVP_DigestFinal_ex`; `none` for a
-- result other than 1, and for a null context.
pub record Evp : Type 1 where
  pub Context : Type 0
  pub init : Option Context
  pub update : Context → Bytes → Option Context
  pub final : Context → Option Bytes

-- `EVP_MD_size(EVP_sha256())`.
abbrev pub digest_size : ℕ
digest_size = 32

abbrev pub block_size : ℕ
block_size = 65536

unfoldable pub hex_digit : ℕ → ℕ
hex_digit n = if ltb n 10 then b'0' + n else b'a' + (n - 10)

-- `oss << std::hex << std::setw(2) << std::setfill('0') << n`, for a byte.
unfoldable pub hex_byte : ℕ → Bytes
unfolding hex_digit
hex_byte n =
    if ltb n 16 then b'0' ∷ hex_digit n ∷ [] else hex_digit (n / 16) ∷ hex_digit (n % 16) ∷ []

unfoldable pub digest_to_hex : Bytes → Bytes
digest_to_hex digest = concat (map hex_byte (take digest_size digest))

unfoldable pub sha256_bytes : Evp → Bytes → Option Bytes
sha256_bytes evp data' = do
  begun ← evp.init
  updated ← evp.update begun data'
  digest ← evp.final updated
  some (digest_to_hex digest)

-- One read of a block that has the bytes `block`.
unfoldable pub feed : (evp : Evp) → evp.Context → Bytes → Option evp.Context
feed evp ctx block = if ltb 0 (length block) then evp.update ctx block else some ctx

-- `while (file)`: a block that is not full ends the loop.
unfoldable pub feed_blocks : (evp : Evp) → ℕ → evp.Context → Bytes → Option evp.Context
feed_blocks evp zero ctx rest = none
feed_blocks evp (suc fuel) ctx rest =
    let block = take block_size rest in
    feed evp ctx block >>= λ next.
    let more = feed_blocks evp fuel next (drop block_size rest) in
    if ltb (length block) block_size then some next else more

-- The file, or `none` if it does not open. Each full block takes at least one byte.
unfoldable pub sha256_file : Evp → Option Bytes → Option Bytes
sha256_file evp none = none
sha256_file evp (some content) = do
  begun ← evp.init
  updated ← feed_blocks evp (suc (length content)) begun content
  digest ← evp.final updated
  some (digest_to_hex digest)
