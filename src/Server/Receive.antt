-- ===== src/Server/Receive.antt =====
-- The path of received bytes: `append_file_bytes`, `try_parse_file_header`, `open_output_file`,
-- `finish_file_receive` and `send_file_ack` of src/transfer/quic_server.cpp.
pub mod Cases
pub mod Verify
pub mod Bounds
pub mod Delivery
pub mod Pieces
pub mod Whole
use lft.Base.{
  ℕ, ◌+◌, ◌-◌, ◌%◌, Bool, true, false, not, ◌&&◌, ◌||◌, List, [], ◌∷◌, ◌++◌, Option, none, some,
  Bytes, codes, equal, length, take, drop, ltb, ◌==◌, if◌then◌else◌, is_some,
}
use lft.Wire.Number.{u64_mod}
use lft.Wire.Header.{FileTransferHeader, decode_file_header}
use lft.Server.State.{
  FileReceiveResult, ServerEnv, Server, Call, with_error, max_header_bytes, u32_mod, is_open,
  closed, accept_message, ok_message, fail_message, stream_send_copy, notify_file_waiter,
}

last_is_slash : Bytes → Bool
last_is_slash [] = false
last_is_slash (c ∷ []) = c == b'/'
last_is_slash (c ∷ d ∷ s) = last_is_slash (d ∷ s)

begins_with_slash : Bytes → Bool
begins_with_slash [] = false
begins_with_slash (c ∷ s) = c == b'/'

-- `(std::filesystem::path(dir) / name).string()`.
unfoldable pub join_path : Bytes → Bytes → Bytes
unfolding last_is_slash begins_with_slash
join_path dir name =
    if begins_with_slash name
    then name
    else if equal dir [] || last_is_slash dir
    then dir ++ name
    else dir ++ b'/' ∷ name

-- The second result is that of the function. A file that opens is empty.
unfoldable pub open_output_file : ServerEnv → Server → Server × Bool
open_output_file env s =
    if env.open_ok s.file_output_path
    then (record s { file_out = some true; disk = [] }, true)
    else (
      record s {
        file_io_error = true;
        file_result = with_error (codes "failed to open output file") s.file_result;
        file_out = none;
      },
      false,
    )

-- The call of `write` on at most as many bytes as are missing, and what follows it.
write_out : ServerEnv → Server → Bytes → Server
write_out env s chunk =
    let (bytes, good) = env.write s.disk chunk in
    let written = (s.file_bytes_written + length chunk) % u64_mod in
    if not good
    then record s {
      disk = bytes;
      file_io_error = true;
      file_result = with_error (codes "failed while writing output file") s.file_result;
    }
    else record s {
      disk = bytes;
      file_bytes_written = written;
      progress =
          if s.file_progress then s.progress ++ (written, s.file_header.size) ∷ [] else s.progress;
    }

-- `file_header_.size - file_bytes_written_`, in `uint64_t`.
abbrev pub remaining : Server → ℕ
remaining s = (s.file_header.size + u64_mod - s.file_bytes_written) % u64_mod

-- The end of `append_file_bytes`, with `left` bytes missing.
write_up_to : ServerEnv → ℕ → Server → Bytes → Server
unfolding write_out
write_up_to env left s data' =
    let too_many = ltb left (length data') in
    let to_write = if too_many then left else length data' in
    let marked = record s { file_overflow = too_many || s.file_overflow } in
    if ltb 0 to_write then write_out env marked (take to_write data') else marked

-- `append_file_bytes` behind its first test: the header is parsed already.
unfoldable pub append_body : ServerEnv → Server → Bytes → Server
unfolding write_up_to
append_body env s data' =
    if not s.file_accepted
    then s
    else if s.file_io_error || not (is_open s.file_out)
    then s
    else if length data' == 0
    then s
    else write_up_to env (remaining s) s data'

-- The header is not complete: wait, unless the peer has sent too much.
unfoldable pub header_missing : Server → Server
unfolding notify_file_waiter
header_missing s =
    if ltb max_header_bytes (length s.stream_receive_buffer)
    then notify_file_waiter false (record s {
      file_io_error = true;
      file_result = with_error (codes "header too large or malformed") s.file_result;
      file_header_parsed = true;
      stream_receive_buffer = [];
    })
    else s

-- The last part of `try_parse_file_header`, on the callback thread: accept, and write what has
-- arrived behind the header. `append_file_bytes` finds the header parsed.
unfoldable pub auto_accept : ServerEnv → Server → ℕ → Server
unfolding open_output_file stream_send_copy
auto_accept env s header_bytes =
    let (o, opened) = open_output_file env s in
    let (a, _) =
      stream_send_copy env (record o { file_accepted = true }) o.file_stream accept_message false in
    let body = drop header_bytes s.stream_receive_buffer in
    let w =
      if not (equal body []) then append_body env a (take (length body % u32_mod) body) else a in
    if not opened
    then record o { stream_receive_buffer = [] }
    else record w { stream_receive_buffer = [] }

unfoldable pub header_arrived : ServerEnv → Server → FileTransferHeader → ℕ → Server
unfolding join_path
header_arrived env s h header_bytes =
    let path =
      if s.file_output_is_dir then join_path s.file_output_dir h.name else s.file_output_path in
    let p = record s { file_header = h; file_header_parsed = true; file_output_path = path } in
    if is_some s.file_offer
    then record p { offer_ready = true; stream_receive_buffer = [] }
    else auto_accept env p header_bytes

unfoldable pub try_parse_file_header : ServerEnv → Server → Server
try_parse_file_header env s =
    if s.file_header_parsed then s else elim (decode_file_header s.stream_receive_buffer) [
      | none ↦ header_missing s
      | some (h, n) ↦ header_arrived env s h n
    ]

unfoldable pub append_file_bytes : ServerEnv → Server → Bytes → Server
append_file_bytes env s data' =
    if not s.file_header_parsed
    then try_parse_file_header env
        (record s { stream_receive_buffer = s.stream_receive_buffer ++ data' })
    else append_body env s data'

send_file_ack : ServerEnv → Server → ℕ → Bool → Server × Bool
unfolding stream_send_copy
send_file_ack env s stream ok =
    stream_send_copy env s stream (if ok then ok_message else fail_message) true

-- The chain of tests of `finish_file_receive`: the result as it is after it, and `verify_ok`.
verify_hash : ServerEnv → Server → FileReceiveResult → FileReceiveResult × Bool
verify_hash env s r = elim (env.sha256_file s.disk) [
  | none ↦ (with_error (codes "failed to hash received file") r, false)
  | some digest ↦
      let hashed = record r { computed_hash = digest } in
      if not (equal digest s.file_header.sha256_hex)
      then (with_error (codes "hash mismatch") hashed, false)
      else (hashed, true)
]

unfoldable pub verify : ServerEnv → Server → FileReceiveResult → FileReceiveResult × Bool
unfolding verify_hash
verify env s r =
    if s.file_io_error
    then (if equal r.error [] then with_error (codes "output I/O error") r else r, false)
    else if not s.file_header_parsed || not (is_some s.file_out)
    then (with_error (codes "file header not received") r, false)
    else if s.file_overflow
    then (with_error (codes "peer sent more bytes than declared") r, false)
    else if not (s.file_bytes_written == s.file_header.size)
    then (with_error (codes "size mismatch") r, false)
    else verify_hash env s r

-- The members that `finish_file_receive` fills in before the tests.
abbrev pub summary : Server → FileReceiveResult
summary s = record (s.file_result) {
  path = s.file_output_path;
  bytes_received = s.file_bytes_written;
  expected_hash = s.file_header.sha256_hex;
}

unfoldable pub finish_file_receive : ServerEnv → Server → ℕ → Server
unfolding send_file_ack notify_file_waiter
finish_file_receive env s stream =
    let (r, ok) = verify env s (summary s) in
    let judged = record s {
      file_out = closed s.file_out;
      file_result = record r { success = ok };
      sending_final_ack = true;
    } in
    let (acked, queued) = send_file_ack env judged stream ok in
    if not queued
    then notify_file_waiter false (record acked { sending_final_ack = false })
    else acked
