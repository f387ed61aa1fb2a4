-- ===== src/Server/Receive/Cases.antt =====
-- The three ways through `append_file_bytes`.
use lft.Base.{
  ℕ, ◌++◌, true, false, not, Option, none, some, ◌≡◌, sym, subst, Bytes, if◌then◌else◌,
  Option-cases, Bool-cases, inl, inr,
}
use lft.Wire.Header.{FileTransferHeader, decode_file_header}
use lft.Server.State.{ServerEnv, Server}
use lft.Server.Receive.{
  append_body, header_missing, header_arrived, try_parse_file_header, append_file_bytes,
}

-- The state with the new bytes in the buffer.
abbrev pub buffered : Server → Bytes → Server
buffered s d = record s { stream_receive_buffer = s.stream_receive_buffer ++ d }

module _ {ℓ} (P : Server → Type ℓ) (env : ServerEnv) (s : Server) (d : Bytes) where
  abbrev try_decoded : Server → Option (FileTransferHeader × ℕ) → Server
  try_decoded b none = header_missing b
  try_decoded b (some (h, n)) = header_arrived env b h n

  pub append_file_bytes-cases :
      (s.file_header_parsed ≡ true → P (append_body env s d))
      → (s.file_header_parsed ≡ false
          → decode_file_header (s.stream_receive_buffer ++ d) ≡ none
          → P (header_missing (buffered s d)))
      → ((h : FileTransferHeader) (n : ℕ)
          → s.file_header_parsed ≡ false
          → decode_file_header (s.stream_receive_buffer ++ d) ≡ some (h, n)
          → P (header_arrived env (buffered s d) h n))
      → P (append_file_bytes env s d)
  unfolding append_file_bytes try_parse_file_header
  append_file_bytes-cases body missing arrived = elim (Bool-cases s.file_header_parsed) [
    | inl p ↦
        subst
          (λ b. P (if not b then try_parse_file_header env (buffered s d) else append_body env s d))
          (sym p) (body p)
    | inr p ↦
        subst
          (λ b. P (
            if not b
            then (if b
                then buffered s d
                else elim (decode_file_header (s.stream_receive_buffer ++ d)) [
                  | none ↦ header_missing (buffered s d)
                  | some (h, n) ↦ header_arrived env (buffered s d) h n
                ])
            else append_body env s d))
          (sym p)
          (elim (Option-cases (decode_file_header (s.stream_receive_buffer ++ d))) [
            | inl e ↦ rw e (missing p e)
            | inr ((h, n), e) ↦ rw e (arrived h n p e)
          ])
  ]
