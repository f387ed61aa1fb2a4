-- ===== src/Server/Receive/Pieces.antt =====
-- The receiver's state depends on the bytes that have arrived, and not on how they were cut.
use lft.Base.{
  ℕ, ◌+◌, ◌≤◌, ◌<◌, true, List, [], ◌∷◌, ◌++◌, append_assoc, append-nil, Option, none, some, ◌≡◌,
  ◌⊎◌, inl, inr, sym, ap, ◌∙◌, arith, Bytes, length, drop, concat, length-append, drop-append_left,
  All, Bool-cases, ltb,
}
use lft.Wire.Header.{FileTransferHeader, decode_file_header}
use lft.Wire.Header.Sound.{
  decode_file_header-IsWellFormed, decode_file_header-append, decode_file_header-prefix,
  some_pair_inj,
}
use lft.Server.State.{ServerEnv, Server, max_header_bytes, u32_mod}
use lft.Server.Receive.{header_missing, append_file_bytes}
use lft.Server.Events.{append_all}
use lft.Server.Receive.Cases.{buffered, append_file_bytes-cases}
use lft.Server.Receive.Delivery.{
  Works, IsAwaiting, IsWriting, append_body-IsWriting, header_arrived-IsWriting,
}

-- A piece of the stream that msquic may hand over in one buffer, with room for a header in the
-- `uint32_t` length of what stands behind the header.
abbrev pub IsPiece : Bytes → Type 0
IsPiece c = length c + max_header_bytes < u32_mod

-- `d` has arrived; the header `h` of the stream ends at byte `n`.
abbrev pub HasReceived : FileTransferHeader → ℕ → Bytes → Server → Type 0
HasReceived h n d s =
    ((length d < n) × IsAwaiting d s) ⊎ ((n ≤ length d) × IsWriting h (drop n d) s)

module _ (env : ServerEnv) (w : Works env) (h : FileTransferHeader) (n : ℕ)
    (small_header : n ≤ max_header_bytes) where
  header_missing-IsAwaiting :
      (d : Bytes) (s : Server)
      → length s.stream_receive_buffer ≤ max_header_bytes
      → IsAwaiting d s
      → IsAwaiting d (header_missing s)
  unfolding header_missing
  header_missing-IsAwaiting d s fits v = ground arith

  piece_while_awaiting :
      (d c rest : Bytes) (s : Server)
      → decode_file_header ((d ++ c) ++ rest) ≡ some (h, n)
      → length (d ++ c) < u32_mod
      → IsAwaiting d s
      → HasReceived h n (d ++ c) (append_file_bytes env s c)
  piece_while_awaiting d c rest s whole small v =
      append_file_bytes-cases (HasReceived h n (d ++ c)) env s c
        (λ p. absurd (ground (arith, v.unparsed)))
        (λ p missing. elim (Bool-cases (ltb (length (d ++ c)) n)) [
          | inl short ↦ inl (
            ground arith,
            header_missing-IsAwaiting (d ++ c) (buffered s c)
                (omega (arith, ap length same, lt_of_ltb short)) b,
          )
          | inr enough ↦ absurd (
              never (
                sym missing
                ∙ (ap decode_file_header same
                    ∙ decode_file_header-prefix (d ++ c) rest h n whole (ground arith))))
        ])
        (λ h' n' p found.
          let found' = ap decode_file_header (sym same) ∙ found in
          let (same_h, same_n) =
            some_pair_inj (sym (decode_file_header-append (d ++ c) rest h' n' found') ∙ whole) in
          let (_, _, _, _, n'_fits) = (decode_file_header-IsWellFormed (d ++ c) h' n' found').1 in
          let fits = (decode_file_header-IsWellFormed ((d ++ c) ++ rest) h n whole).0.size_fits in
          rw (same_h, same_n)
            (inr (
              omega arith,
              header_arrived-IsWriting env w h fits (d ++ c) (buffered s c) n b small,
            )))
    where
      same : s.stream_receive_buffer ++ c ≡ d ++ c
      same = ap (λ x. x ++ c) v.buffer

      b : IsAwaiting (d ++ c) (buffered s c)
      b = record {
        no_prompt = v.no_prompt;
        unparsed = v.unparsed;
        buffer = same;
        no_error = v.no_error;
        no_overflow = v.no_overflow;
        nothing_written = v.nothing_written;
      }

      never : ◌≡◌ {A = Option (FileTransferHeader × ℕ)} none (some (h, n)) → ⊥
      never e = cc

      lt_of_ltb : ltb (length (d ++ c)) n ≡ true → length (d ++ c) < n
      lt_of_ltb e = ground arith

  piece_while_writing :
      (d c rest : Bytes) (s : Server)
      → decode_file_header ((d ++ c) ++ rest) ≡ some (h, n)
      → n ≤ length d
      → IsWriting h (drop n d) s
      → HasReceived h n (d ++ c) (append_file_bytes env s c)
  piece_while_writing d c rest s whole past v =
      append_file_bytes-cases (HasReceived h n (d ++ c)) env s c
        (λ p. inr (
          omega (arith, length-append d c),
          rw (drop-append_left n d c past) (
              append_body-IsWriting env w h
                (decode_file_header-IsWellFormed ((d ++ c) ++ rest) h n whole).0.size_fits
                (drop n d) c s v),
        ))
        (λ p e. absurd (ground (arith, v.parsed))) (λ h' n' p e. absurd (ground (arith, v.parsed)))

  -- `rest` is still to come.
  pub pieces-HasReceived :
      (cs : List Bytes) (d rest : Bytes) (s : Server)
      → decode_file_header ((d ++ concat cs) ++ rest) ≡ some (h, n)
      → All IsPiece cs
      → HasReceived h n d s
      → HasReceived h n (d ++ concat cs) (append_all env s cs)
  unfolding append_all
  pieces-HasReceived [] d rest s whole small v = rw append-nil v
  pieces-HasReceived (c ∷ cs) d rest s whole (small, smaller) v =
      let regroup = append_assoc d c (concat cs) in
      let whole' = ap (λ x. decode_file_header (x ++ rest)) regroup ∙ whole in
      let here = ap decode_file_header (sym (append_assoc (d ++ c) (concat cs) rest)) ∙ whole' in
      let next : HasReceived h n (d ++ c) (append_file_bytes env s c) = elim v [
        | inl (short, a) ↦
            piece_while_awaiting d c (concat cs ++ rest) s here (omega (arith, length-append d c)) a
        | inr (past, b) ↦ piece_while_writing d c (concat cs ++ rest) s here past b
      ] in
      rw (← regroup)
        (pieces-HasReceived cs (d ++ c) rest (append_file_bytes env s c) whole' smaller next)
