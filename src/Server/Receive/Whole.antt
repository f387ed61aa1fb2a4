-- ===== src/Server/Receive/Whole.antt =====
-- A whole stream, from its first byte to the answer, without a prompt.
use lft.Base.{
  ℕ, ◌≤◌, ◌<◌, true, false, List, [], ◌∷◌, ◌++◌, Option, some, ◌≡◌, inl, inr, refl, sym, ap, ◌∙◌,
  subst, arith, Bytes, length, take, drop, concat, length-append, length-take, drop-append,
  append-nil, take-eq_of_le, All, is_some,
}
use lft.Wire.Number.{u64_mod}
use lft.Wire.Header.{FileTransferHeader, is_sha256_hex, encode_file_header, decode_file_header}
use lft.Wire.Header.Sound.{decode_file_header-IsWellFormed}
use lft.Wire.Header.RoundTrip.{received, decode-encode}
use lft.Server.State.{ServerEnv, Server, max_header_bytes, stream_send, ok_message, fail_message}
use lft.Server.Receive.{
  header_missing, header_arrived, auto_accept, append_body, append_file_bytes, finish_file_receive,
}
use lft.Server.Receive.Cases.{append_file_bytes-cases}
use lft.Server.Receive.Verify.{IsComplete, finish_file_receive-judges}
use lft.Server.Receive.Delivery.{Works, IsAwaiting, IsWriting}
use lft.Server.Receive.Pieces.{IsPiece, pieces-HasReceived}
use lft.Server.Events.{append_all, on_stream_event, peer_send_shutdown}

-- The body is what the header announced.
abbrev pub IsAnnounced : ServerEnv → FileTransferHeader → Bytes → Type 0
IsAnnounced env h body = (length body ≡ h.size) × (env.sha256_file body ≡ some h.sha256_hex)

module _ (env : ServerEnv) (h : FileTransferHeader) (body : Bytes) (s : Server)
    (v : IsWriting h body s) where
  same_size : s.file_header.size ≡ h.size
  same_size = ap (λ (k : FileTransferHeader). k.size) v.header

  same_hash : ◌≡◌ {A = Option Bytes} (some s.file_header.sha256_hex) (some h.sha256_hex)
  same_hash = ap {B = Option Bytes} (λ (k : FileTransferHeader). some k.sha256_hex) v.header

  complete_size : IsComplete env s → length body ≡ h.size
  complete_size c = ground (arith, length-take h.size body, same_size, v.overflow, c.no_overflow)

  whole_disk : length body ≡ h.size → s.disk ≡ body
  whole_disk e = v.on_disk ∙ take-eq_of_le h.size body (omega arith)

  IsComplete-IsAnnounced : IsComplete env s → IsAnnounced env h body
  IsComplete-IsAnnounced c =
      let size = complete_size c in
      (size, ap env.sha256_file (sym (whole_disk size)) ∙ (c.hash_exact ∙ same_hash))

  IsAnnounced-IsComplete : IsAnnounced env h body → IsComplete env s
  IsAnnounced-IsComplete (size, hash) = record {
    no_io_error = v.no_error;
    parsed = v.parsed;
    opened = ap is_some v.opened;
    no_overflow = v.overflow ∙ ground arith;
    size_exact = omega (arith, v.counted, same_size, length-take h.size body);
    hash_exact = ap env.sha256_file (whole_disk size) ∙ (hash ∙ sym same_hash);
  }

append_file_bytes-receiving :
    (env : ServerEnv) (s : Server) (d : Bytes)
    → (append_file_bytes env s d).receiving_file ≡ s.receiving_file
append_file_bytes-receiving env s d =
    append_file_bytes-cases (λ t. t.receiving_file ≡ s.receiving_file) env s d
      (λ p. unfold append_body in ground arith) (λ p e. unfold header_missing in ground arith)
      (λ h n p e. unfold header_arrived auto_accept append_body in ground arith)

pub append_all-receiving :
    (env : ServerEnv) (s : Server) (cs : List Bytes)
    → (append_all env s cs).receiving_file ≡ s.receiving_file
unfolding append_all
append_all-receiving env s [] = refl
append_all-receiving env s (c ∷ cs) =
    append_all-receiving env (append_file_bytes env s c) cs ∙ append_file_bytes-receiving env s c

-- A receiver with no prompt, at the start of a stream.
pub record IsFresh (s : Server) : Type 0 where
  pub receiving : s.receiving_file ≡ true
  pub awaiting : IsAwaiting [] s

stream-IsWriting :
    (env : ServerEnv) (h : FileTransferHeader) (body : Bytes) (cs : List Bytes) (s : Server)
    → Works env
    → h.size < u64_mod
    → is_sha256_hex h.sha256_hex ≡ true
    → length (encode_file_header h) ≤ max_header_bytes
    → All IsPiece cs
    → concat cs ≡ encode_file_header h ++ body
    → IsAwaiting [] s
    → IsWriting (received h) body (append_all env s cs)
stream-IsWriting env h body cs s w fits hex small pieces whole fresh =
    let n = length (encode_file_header h) in
    let decoded = ap decode_file_header whole ∙ decode-encode h body fits hex in
    let (_, _, _, count, _) =
      (decode_file_header-IsWellFormed (concat cs) (received h) n decoded).1 in
    let r =
      pieces-HasReceived env w (received h) n small cs [] [] s
        (ap decode_file_header (append-nil (concat cs)) ∙ decoded) pieces
        (inl (omega (arith, count), fresh)) in
    elim r [
      | inl (short, _) ↦
          absurd (omega (arith, ap length whole, length-append (encode_file_header h) body))
      | inr (_, v) ↦
          subst (λ b. IsWriting (received h) b (append_all env s cs))
            (ap (drop n) whole ∙ drop-append (encode_file_header h) body) v
    ]

shutdown-finishes :
    (env : ServerEnv) (s : Server) (stream : ℕ)
    → s.receiving_file ≡ true
    → s.file_accepted ≡ true
    → on_stream_event env s stream peer_send_shutdown ≡ finish_file_receive env s stream
unfolding on_stream_event
shutdown-finishes env s stream r a = ground arith

-- A sender's stream is the encoded header and then `body`. However msquic cuts it into pieces, the
-- receiver (with no prompt, and a file system that takes every byte) has the first `h.size` bytes
-- of `body` on disk at the end, and answers "OK" if `body` has the declared size and hash, and
-- "FAIL" if not; its result says success only in the first case, where it does if msquic takes the
-- answer.
pub stream-judged :
    (env : ServerEnv) (h : FileTransferHeader) (body : Bytes) (cs : List Bytes) (s : Server)
    (stream : ℕ)
    → Works env
    → h.size < u64_mod
    → is_sha256_hex h.sha256_hex ≡ true
    → length (encode_file_header h) ≤ max_header_bytes
    → All IsPiece cs
    → concat cs ≡ encode_file_header h ++ body
    → IsFresh s
    → let m = append_all env s cs in
      let t = on_stream_event env m stream peer_send_shutdown in
      (m.disk ≡ take h.size body)
      × (IsAnnounced env (received h) body
          → (t.calls ≡ m.calls ++ stream_send stream ok_message true ∷ [])
            × (t.file_result.success ≡ env.send_ok m.calls))
      × (¬ IsAnnounced env (received h) body
          → (t.calls ≡ m.calls ++ stream_send stream fail_message true ∷ [])
            × (t.file_result.success ≡ false))
stream-judged env h body cs s stream w fits hex small pieces whole fresh =
    let m = append_all env s cs in
    let v = stream-IsWriting env h body cs s w fits hex small pieces whole fresh.awaiting in
    let j = finish_file_receive-judges env m stream in
    let here = append_all-receiving env s cs ∙ fresh.receiving in
    rw (shutdown-finishes env m stream here v.accepted) (
      v.on_disk,
      (λ good. let r = j.1 (IsAnnounced-IsComplete env (received h) body m v good) in (r.0, r.2)),
      (λ bad.
          let r = j.2 (λ c. bad (IsComplete-IsAnnounced env (received h) body m v c)) in
          (r.0, r.1)),
    )
