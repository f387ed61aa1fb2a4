-- ===== src/Hash/Blocks.antt =====
-- Reading a file in blocks gives the hash of its bytes.
use lft.Base.{
  ℕ, zero, suc, ◌≤◌, ◌<◌, true, [], ◌∷◌, ◌++◌, some, ◌≡◌, ◌∙◌, refl, sym, ap, arith, Bytes, length,
  take, drop, ltb, ◌>>=◌, take-append-drop, length-take, length-drop, drop-eq-nil, Bool-cases,
  lt_of_ltb, le_of_ltb, Option-cases, inl, inr,
}
use lft.Hash.{Evp, digest_to_hex, block_size, sha256_bytes, feed, feed_blocks, sha256_file}

-- What OpenSSL says of `EVP_DigestUpdate`: called several times, it hashes additional data.
pub record Appends (evp : Evp) : Type 0 where
  pub update-nil : (c : evp.Context) → evp.update c [] ≡ some c
  pub update-append :
      (c : evp.Context) (a b : Bytes)
      → evp.update c (a ++ b) ≡ (evp.update c a >>= λ d. evp.update d b)

module _ (evp : Evp) (laws : Appends evp) where
  feed-update : (ctx : evp.Context) (block : Bytes) → feed evp ctx block ≡ evp.update ctx block
  unfolding feed
  feed-update ctx [] = sym (laws.update-nil ctx)
  feed-update ctx (x ∷ block) =
      let e : ltb 0 (length (x ∷ block)) ≡ true = ground arith in rw e refl

  feed_blocks-update :
      (fuel : ℕ) (ctx : evp.Context) (rest : Bytes)
      → length rest < fuel
      → feed_blocks evp fuel ctx rest ≡ evp.update ctx rest
  unfolding feed_blocks
  feed_blocks-update zero ctx rest h = absurd (omega arith)
  feed_blocks-update (suc fuel) ctx rest h =
      let block = take block_size rest in
      let splits = take-append-drop block_size rest in
      let whole : evp.update ctx rest
          ≡ (evp.update ctx block >>= λ d. evp.update d (drop block_size rest)) =
        ap (evp.update ctx) (sym splits) ∙ laws.update-append ctx block (drop block_size rest) in
      rw (feed-update ctx block, whole)
        (elim (Option-cases (evp.update ctx block)) [
          | inl e ↦ rw e refl
          | inr (d, e) ↦ rw e (elim (Bool-cases (ltb (length block) block_size)) [
            | inl short ↦
                let size : length rest < block_size =
                  omega (
                    arith,
                    lt_of_ltb (length block) block_size short,
                    length-take block_size rest,
                  ) in
                rw (short, drop-eq-nil block_size rest (omega arith)) (sym (laws.update-nil d))
            | inr full ↦
                let size : block_size ≤ length rest =
                  omega (
                    arith,
                    le_of_ltb (length block) block_size full,
                    length-take block_size rest,
                  ) in
                rw full (
                  feed_blocks-update fuel d (drop block_size rest)
                    (omega (arith, length-drop block_size rest)))
          ])
        ])

  -- A file that opens has the hash of its bytes, however many blocks it takes; the loop ends within
  -- one round more than there are bytes.
  pub sha256_file-sha256_bytes :
      (content : Bytes) → sha256_file evp (some content) ≡ sha256_bytes evp content
  unfolding sha256_file sha256_bytes feed_blocks digest_to_hex feed
  sha256_file-sha256_bytes content = elim (Option-cases evp.init) [
    | inl e ↦ rw e refl
    | inr (c, e) ↦ rw (e, feed_blocks-update (suc (length content)) c content (omega arith)) refl
  ]
