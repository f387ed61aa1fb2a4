-- ===== src/Server/Receive/Delivery.antt =====
-- What the receiver has on disk, however the bytes of the stream are cut into pieces. Here no
-- prompt is registered, and the file system takes every byte.
use mathlib.Core.List.{append-nil}
use lft.Base.{
  ℕ, zero, suc, ◌+◌, ◌-◌, ◌%◌, ◌<◌, true, false, not, ◌||◌, [], ◌∷◌, ◌++◌, none, some, ◌≡◌, inl,
  inr, refl, sym, ap, ◌∙◌, arith, Bytes, equal, equal_iff, length, take, drop, length-append,
  length-take, length-drop, take-append_more, take-eq_of_le, ltb, if◌then◌else◌, Bool-cases,
}
use lft.Wire.Number.{u64_mod}
use lft.Wire.Header.{FileTransferHeader}
use lft.Server.State.{ServerEnv, Server, u32_mod, stream_send, accept_message}
use lft.Server.Receive.{remaining, write_out, write_up_to, append_body, auto_accept, header_arrived}

-- Every file opens, and a write appends its bytes.
pub record Works (env : ServerEnv) : Type 0 where
  pub opens : (path : Bytes) → env.open_ok path ≡ true
  pub writes : (disk chunk : Bytes) → env.write disk chunk ≡ (disk ++ chunk, true)

take-nil : (n : ℕ) → ◌≡◌ {A = Bytes} (take n []) []
take-nil zero = refl
take-nil (suc n) = refl

-- `d` has arrived, and the header is not complete.
pub record IsAwaiting (d : Bytes) (s : Server) : Type 0 where
  pub no_prompt : s.file_offer ≡ none
  pub unparsed : s.file_header_parsed ≡ false
  pub buffer : s.stream_receive_buffer ≡ d
  pub no_error : s.file_io_error ≡ false
  pub no_overflow : s.file_overflow ≡ false
  pub nothing_written : s.file_bytes_written ≡ 0

-- The header `h` was accepted, and `body` has arrived behind it: as much of it as the header
-- declares is on disk, and whether there was more is known.
pub record IsWriting (h : FileTransferHeader) (body : Bytes) (s : Server) : Type 0 where
  pub parsed : s.file_header_parsed ≡ true
  pub header : s.file_header ≡ h
  pub accepted : s.file_accepted ≡ true
  pub opened : s.file_out ≡ some true
  pub no_error : s.file_io_error ≡ false
  pub on_disk : s.disk ≡ take h.size body
  pub counted : s.file_bytes_written ≡ length (take h.size body)
  pub overflow : s.file_overflow ≡ ltb h.size (length body)

abbrev at_most : ℕ → Bytes → ℕ
at_most r d = if ltb r (length d) then r else length d

take-at_most : (r : ℕ) (d : Bytes) → take (at_most r d) d ≡ take r d
take-at_most r d = elim (Bool-cases (ltb r (length d))) [
  | inl more ↦ rw more
  | inr fits ↦
      rw fits (take-eq_of_le (length d) d (omega arith) ∙ sym (take-eq_of_le r d (ground arith)))
]

-- The state behind a write of the first `r` bytes of `d`.
record Wrote (r : ℕ) (d : Bytes) (s t : Server) : Type 0 where
  disk : t.disk ≡ s.disk ++ take r d
  written : t.file_bytes_written ≡ s.file_bytes_written + length (take r d)
  overflow : t.file_overflow ≡ (ltb r (length d) || s.file_overflow)
  parsed : t.file_header_parsed ≡ s.file_header_parsed
  header : t.file_header ≡ s.file_header
  accepted : t.file_accepted ≡ s.file_accepted
  out : t.file_out ≡ s.file_out
  no_error : t.file_io_error ≡ s.file_io_error

module _ (env : ServerEnv) (w : Works env) where
  write_out-Wrote :
      (r : ℕ) (d : Bytes) (s : Server)
      → s.file_bytes_written + r < u64_mod
      → Wrote r d s (
          write_out env
            (record s { file_overflow = ltb r (length d) || s.file_overflow })
            (take r d))
  unfolding write_out
  write_out-Wrote r d s fits = ground (arith, w.writes s.disk (take r d), length-take r d)

  write_up_to-Wrote :
      (r : ℕ) (d : Bytes) (s : Server)
      → s.file_bytes_written + r < u64_mod
      → Wrote r d s (write_up_to env r s d)
  unfolding write_up_to
  write_up_to-Wrote r d s fits = elim (Bool-cases (ltb 0 (at_most r d))) [
    | inl some_bytes ↦ rw (some_bytes, take-at_most r d) (write_out-Wrote r d s fits)
    | inr none_left ↦
        let at : at_most r d ≡ 0 = ground arith in
        let nothing : take r d ≡ [] = sym (take-at_most r d) ∙ ap (λ k. take k d) at in
        rw none_left (ground (arith, nothing, append-nil s.disk, ap length nothing))
  ]

  append_body-eq :
      (s : Server) (c : ℕ) (d : Bytes)
      → s.file_accepted ≡ true
      → s.file_io_error ≡ false
      → s.file_out ≡ some true
      → append_body env s (c ∷ d) ≡ write_up_to env (remaining s) s (c ∷ d)
  unfolding append_body
  append_body-eq s c d a e o = ground arith

module _ (env : ServerEnv) (w : Works env) (h : FileTransferHeader) (fits : h.size < u64_mod) where
  Wrote-IsWriting :
      (body d : Bytes) (s t : Server)
      → IsWriting h body s
      → Wrote (h.size - length (take h.size body)) d s t
      → IsWriting h (body ++ d) t
  Wrote-IsWriting body d s t v o = record {
    parsed = o.parsed ∙ v.parsed;
    header = o.header ∙ v.header;
    accepted = o.accepted ∙ v.accepted;
    opened = o.out ∙ v.opened;
    no_error = o.no_error ∙ v.no_error;
    on_disk = disk;
    counted = omega (
      arith,
      o.written,
      v.counted,
      ap length disk,
      ap length o.disk,
      ap length v.on_disk,
      length-append s.disk (take (h.size - length (take h.size body)) d),
    );
    overflow =
        ground (arith, o.overflow, v.overflow, length-take h.size body, length-append body d);
  }
    where
      missing : h.size - length (take h.size body) ≡ h.size - length body
      missing = omega (arith, length-take h.size body)

      disk : t.disk ≡ take h.size (body ++ d)
      disk = o.disk ∙ rw (v.on_disk, missing, take-append_more h.size body d)

  pub append_body-IsWriting :
      (body d : Bytes) (s : Server)
      → IsWriting h body s
      → IsWriting h (body ++ d) (append_body env s d)
  append_body-IsWriting body [] s v = rw append-nil (unfold append_body in ground arith)
  append_body-IsWriting body (c ∷ d) s v =
      let left : remaining s ≡ h.size - length (take h.size body) = omega (
        arith,
        v.counted,
        ap (λ (k : FileTransferHeader). k.size) v.header,
        length-take h.size body,
      ) in
      let wrote =
        write_up_to-Wrote env w (h.size - length (take h.size body)) (c ∷ d) s
          (omega (arith, v.counted, length-take h.size body)) in
      rw (append_body-eq env w s c d v.accepted v.no_error v.opened, left)
        (Wrote-IsWriting body (c ∷ d) s _ v wrote)

  nothing-IsWriting :
      (s : Server)
      → s.file_header_parsed ≡ true
      → s.file_header ≡ h
      → s.file_io_error ≡ false
      → s.file_overflow ≡ false
      → s.file_bytes_written ≡ 0
      → s.disk ≡ []
      → s.file_accepted ≡ true
      → s.file_out ≡ some true
      → IsWriting h [] s
  nothing-IsWriting s p e no_error no_overflow none_written empty a o = record {
    parsed = p;
    header = e;
    accepted = a;
    opened = o;
    no_error = no_error;
    on_disk = empty ∙ sym (take-nil h.size);
    counted = none_written ∙ ap length (sym (take-nil h.size));
    overflow = ground arith;
  }

  append_rest-IsWriting :
      (body : Bytes) (a : Server)
      → IsWriting h [] a
      → length body < u32_mod
      → IsWriting h body
          (if not (equal body []) then append_body env a (take (length body % u32_mod) body) else a)
  append_rest-IsWriting body a v small = elim (Bool-cases (equal body [])) [
    | inl empty ↦ rw (empty, (equal_iff body []).0 empty) v
    | inr more ↦
        let whole : take (length body % u32_mod) body ≡ body = take-eq_of_le _ body (omega arith) in
        rw (more, whole) (append_body-IsWriting [] body a v)
  ]

  -- The header is complete: the transfer is accepted, and the bytes behind the header are written.
  auto_accept-IsWriting :
      (s : Server) (n : ℕ)
      → s.file_header_parsed ≡ true
      → s.file_header ≡ h
      → s.file_io_error ≡ false
      → s.file_overflow ≡ false
      → s.file_bytes_written ≡ 0
      → length (drop n s.stream_receive_buffer) < u32_mod
      → IsWriting h (drop n s.stream_receive_buffer) (auto_accept env s n)
  unfolding auto_accept
  auto_accept-IsWriting s n p e no_error no_overflow none_written small =
      let a = record s {
        file_out = some true;
        disk = [];
        file_accepted = true;
        calls = s.calls ++ stream_send s.file_stream accept_message false ∷ [];
      } in
      let v =
        append_rest-IsWriting (drop n s.stream_receive_buffer) a
          (nothing-IsWriting a p e no_error no_overflow none_written refl refl refl) small in
      rw (w.opens s.file_output_path) (record {
        parsed = v.parsed;
        header = v.header;
        accepted = v.accepted;
        opened = v.opened;
        no_error = v.no_error;
        on_disk = v.on_disk;
        counted = v.counted;
        overflow = v.overflow;
      })

  pub header_arrived-IsWriting :
      (d : Bytes) (s : Server) (n : ℕ)
      → IsAwaiting d s
      → length d < u32_mod
      → IsWriting h (drop n d) (header_arrived env s h n)
  unfolding header_arrived
  header_arrived-IsWriting d s n v small =
      rw (v.no_prompt, ← v.buffer)
        (auto_accept-IsWriting _ n refl refl v.no_error v.no_overflow v.nothing_written
          (omega (arith, length-drop n s.stream_receive_buffer, ap length v.buffer)))
