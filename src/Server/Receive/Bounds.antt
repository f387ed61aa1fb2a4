-- ===== src/Server/Receive/Bounds.antt =====
-- The byte counters of a transfer, through every function on the path of received bytes.
use lft.Base.{
  ℕ, ◌+◌, ◌-◌, ◌%◌, ◌≤◌, ◌<◌, true, false, ◌≡◌, refl, arith, Bytes, length, take, drop, length-take,
  is_some, Bool-cases, inl, inr,
}
use lft.Wire.Number.{u64_mod}
use lft.Wire.Header.{FileTransferHeader}
use lft.Wire.Header.Sound.{decode_file_header-IsWellFormed}
use lft.Server.State.{ServerEnv, Server, u32_mod, accept_message, stream_send_copy}
use lft.Server.Receive.Cases.{buffered, append_file_bytes-cases}
use lft.Server.Receive.{
  open_output_file, remaining, write_out, append_body, header_missing, auto_accept, header_arrived,
  append_file_bytes, finish_file_receive,
}

-- The counters are `uint64_t` and never wrap: no more bytes are written than were declared, and
-- none before the header is parsed and the transfer accepted.
pub record InBounds (s : Server) : Type 0 where
  pub size_fits : s.file_header.size < u64_mod
  pub within : s.file_bytes_written ≤ s.file_header.size
  pub unparsed : s.file_header_parsed ≡ false → s.file_bytes_written ≡ 0
  pub unaccepted : s.file_accepted ≡ false → s.file_bytes_written ≡ 0

pub remaining-eq :
    (s : Server) → InBounds s → remaining s ≡ s.file_header.size - s.file_bytes_written
remaining-eq s v = omega (arith, v)

write_out-InBounds :
    (env : ServerEnv) (s : Server) (chunk : Bytes)
    → InBounds s
    → s.file_header_parsed ≡ true
    → s.file_accepted ≡ true
    → s.file_bytes_written + length chunk ≤ s.file_header.size
    → InBounds (write_out env s chunk)
unfolding write_out
write_out-InBounds env s chunk v p a h = ground arith

append_body-InBounds :
    (env : ServerEnv) (s : Server) (d : Bytes)
    → InBounds s
    → s.file_header_parsed ≡ true
    → InBounds (append_body env s d)
unfolding append_body
append_body-InBounds env s d v p =
    ground (arith, remaining-eq s v, length-take (remaining s) d, length-take (length d) d)

buffered-InBounds : (s : Server) (d : Bytes) → InBounds s → InBounds (buffered s d)
buffered-InBounds s d v = ground arith

header_missing-InBounds : (s : Server) → InBounds s → InBounds (header_missing s)
unfolding header_missing
header_missing-InBounds s v = ground arith

auto_accept-InBounds :
    (env : ServerEnv) (s : Server) (n : ℕ)
    → InBounds s
    → s.file_header_parsed ≡ true
    → InBounds (auto_accept env s n)
unfolding auto_accept
auto_accept-InBounds env s n v p =
    let o = (open_output_file env s).0 in
    let a =
      (stream_send_copy env (record o { file_accepted = true }) o.file_stream accept_message
        false).0 in
    let body = drop n s.stream_receive_buffer in
    ground (arith, append_body-InBounds env a (take (length body % u32_mod) body))

header_arrived-InBounds :
    (env : ServerEnv) (s : Server) (h : FileTransferHeader) (n : ℕ)
    → InBounds s
    → s.file_header_parsed ≡ false
    → h.size < u64_mod
    → InBounds (header_arrived env s h n)
unfolding header_arrived
header_arrived-InBounds env s h n v p fits = elim (Bool-cases (is_some s.file_offer)) [
  | inl o ↦
      rw (o, header_arrived)
        (record {
          size_fits = fits;
          within = ground arith;
          unparsed = ground arith;
          unaccepted = ground arith;
        })
  | inr o ↦
      rw (o, header_arrived)
        (auto_accept-InBounds env _ n
          (record {
            size_fits = fits;
            within = ground arith;
            unparsed = ground arith;
            unaccepted = ground arith;
          })
          refl)
]

pub append_file_bytes-InBounds :
    (env : ServerEnv) (s : Server) (d : Bytes) → InBounds s → InBounds (append_file_bytes env s d)
append_file_bytes-InBounds env s d v =
    append_file_bytes-cases InBounds env s d (append_body-InBounds env s d v)
      (λ p e. header_missing-InBounds (buffered s d) (buffered-InBounds s d v))
      λ h n p e.
        header_arrived-InBounds env (buffered s d) h n (buffered-InBounds s d v) p
          (decode_file_header-IsWellFormed _ h n e).0.size_fits

pub finish_file_receive-InBounds :
    (env : ServerEnv) (s : Server) (stream : ℕ)
    → InBounds s
    → InBounds (finish_file_receive env s stream)
unfolding finish_file_receive
finish_file_receive-InBounds env s stream v = ground arith
