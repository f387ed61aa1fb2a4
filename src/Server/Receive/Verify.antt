-- ===== src/Server/Receive/Verify.antt =====
-- When a received file passes the tests of `finish_file_receive`.
use lft.Base.{
  ℕ, ◌++◌, true, false, [], ◌∷◌, some, ◌≡◌, ◌≢◌, arith, equal_iff, is_some, Option-cases,
  Bool-cases, inl, inr,
}
use lft.Server.State.{ServerEnv, Server, FileReceiveResult, stream_send, ok_message, fail_message}
use lft.Server.Receive.{verify, summary, finish_file_receive}

-- The file on disk is the one that the header announced.
pub record IsComplete (env : ServerEnv) (s : Server) : Type 0 where
  pub no_io_error : s.file_io_error ≡ false
  pub parsed : s.file_header_parsed ≡ true
  pub opened : is_some s.file_out ≡ true
  pub no_overflow : s.file_overflow ≡ false
  pub size_exact : s.file_bytes_written ≡ s.file_header.size
  pub hash_exact : env.sha256_file s.disk ≡ some s.file_header.sha256_hex

pub verify_sound :
    (env : ServerEnv) (s : Server) (r : FileReceiveResult)
    → (verify env s r).1 ≡ true
    → IsComplete env s
unfolding verify
verify_sound env s r h = elim (Option-cases (env.sha256_file s.disk)) [
  | inl e ↦ ground arith
  | inr (d, e) ↦ ground (arith, equal_iff d s.file_header.sha256_hex)
]

pub verify_complete :
    (env : ServerEnv) (s : Server) (r : FileReceiveResult)
    → IsComplete env s
    → (verify env s r).1 ≡ true
unfolding verify
verify_complete env s r c =
    ground (arith, equal_iff s.file_header.sha256_hex s.file_header.sha256_hex)

verify-hash :
    (env : ServerEnv) (s : Server) (r : FileReceiveResult)
    → (verify env s r).1 ≡ true
    → (verify env s r).0.computed_hash ≡ s.file_header.sha256_hex
unfolding verify
verify-hash env s r h = elim (Option-cases (env.sha256_file s.disk)) [
  | inl e ↦ ground arith
  | inr (d, e) ↦ ground (arith, equal_iff d s.file_header.sha256_hex)
]

verify-error :
    (env : ServerEnv) (s : Server) (r : FileReceiveResult)
    → (verify env s r).1 ≡ false
    → (verify env s r).0.error ≢ []
unfolding verify
verify-error env s r h = elim (Option-cases (env.sha256_file s.disk)) [
  | inl e ↦ ground (arith, equal_iff r.error [])
  | inr (d, e) ↦ ground (arith, equal_iff r.error [])
]

-- The end of a transfer. A result that says success is the result of a complete file: opened, of
-- the declared size, with no overflow and no error, and with the declared hash. A complete file is
-- acknowledged by "OK" and, if msquic takes that message, reported as a success with its hash. Any
-- other file is answered by "FAIL" and reported as a failure with a reason.
pub finish_file_receive-judges :
    (env : ServerEnv) (s : Server) (stream : ℕ)
    → let t = finish_file_receive env s stream in
      (t.file_result.success ≡ true → IsComplete env s)
      × (IsComplete env s
          → (t.calls ≡ s.calls ++ stream_send stream ok_message true ∷ [])
            × (t.file_result.computed_hash ≡ s.file_header.sha256_hex)
            × (t.file_result.success ≡ env.send_ok s.calls))
      × (¬ IsComplete env s
          → (t.calls ≡ s.calls ++ stream_send stream fail_message true ∷ [])
            × (t.file_result.success ≡ false)
            × (t.file_result.error ≢ []))
unfolding finish_file_receive
finish_file_receive-judges env s stream = elim (Bool-cases (verify env s (summary s)).1) [
  | inl e ↦ (
    (λ h. verify_sound env s (summary s) e),
    (λ c. ground (arith, e, verify-hash env s (summary s) e)),
    (λ n. absurd (n (verify_sound env s (summary s) e))),
  )
  | inr e ↦ (
    (λ h. absurd (ground (arith, e))),
    (λ c. absurd (ground (arith, e, verify_complete env s (summary s) c))),
    (λ n. ground (arith, e, verify-error env s (summary s) e)),
  )
]
