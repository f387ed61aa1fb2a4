-- ===== src/Client/Send.antt =====
-- `send_file` and `send_file_internal` of src/transfer/quic_client.cpp, cut at their waits, and
-- their interleaving with the callbacks. Each wait has an end by its predicate and one by its
-- timeout.
pub mod Callbacks
pub mod Opening
pub mod Sent
pub mod OnWire
pub mod Success
pub mod Consent
pub mod Termination
pub mod Completion
use lft.Base.{
  ℕ, ◌+◌, ◌-◌, ◌%◌, Bool, true, false, not, ◌&&◌, ◌||◌, List, [], ◌∷◌, ◌++◌, Option, none, some,
  Bytes, length, ltb, leb, ◌==◌, if◌then◌else◌,
}
use lft.Wire.Name.{filename}
use lft.Wire.Number.{u64_mod}
use lft.Wire.Header.{FileTransferHeader, encode_file_header}
use lft.Msquic.{stream_open, stream_start, stream_close, stream_abort, stream_send}
use lft.Client.State.{ClientEnv, Client, call, file_chunk_size}
use lft.Client.Events.{StreamEvent, ConnectionEvent, on_stream_event, on_connection_event}

-- The arguments of `send_file_internal`; `file_size` is `bytes_to_send.value_or(header.size)`, and
-- `on_progress` says that there is a callback.
pub record Job : Type 0 where
  pub file_path : Bytes
  pub header : FileTransferHeader
  pub file_size : ℕ
  pub on_progress : Bool

-- Where the thread stands: in the wait for the header's SEND_COMPLETE, for the decision, for the
-- SEND_COMPLETE of the empty body or of the chunk up to `sent`, for the acknowledgement.
pub data Phase : Type 0 where
  sending_header waiting_decision sending_empty : Phase
  sending_chunk : ℕ → Phase
  waiting_ack : Phase
  returned : Bool → Phase

pub record System : Type 0 where
  pub client : Client
  pub phase : Phase

-- `open_stream`: the result is the function's.
unfoldable pub open_stream : ClientEnv → Client → Client × Bool
open_stream env c = elim (env.stream_open_handle c.calls) [
  | none ↦ (record c { stream = 0 }, false)
  | some stream ↦
      let opened = call (stream_open stream) c in
      let started = call (stream_start stream) opened in
      if env.stream_start_ok opened.calls
      then (record started { stream = stream }, true)
      else (record (call (stream_close stream) started) { stream = 0 }, false)
]

unfoldable pub abort_stream : Client → Client
abort_stream c = if c.api && not (c.stream == 0) then call (stream_abort c.stream) c else c

-- `stream_send_and_wait` up to its wait: `false` if msquic refuses the send, which
-- `stream_send_copy` hands to it in one call; a failed allocation counts as that.
unfoldable pub begin_send : ClientEnv → Client → Bytes → Bool → Client × Bool
begin_send env c data' fin =
    (call (stream_send c.stream data' fin) (record c { send_done = false }), env.send_ok c.calls)

unfoldable pub fail : Client → System
fail c = record { client = c; phase = returned false }

unfoldable pub abort_and_fail : Client → System
unfolding fail abort_stream
abort_and_fail c = fail (abort_stream c)

-- A send and its failure, before the wait that `next` stands for.
unfoldable pub send_or_abort : ClientEnv → Client → Bytes → Bool → Phase → System
unfolding abort_and_fail begin_send
send_or_abort env c data' fin next =
    let (sent, queued) = begin_send env c data' fin in
    if not queued then abort_and_fail sent else record { client = sent; phase = next }

-- What follows the loop over the chunks.
unfoldable pub after_chunks : Job → ℕ → Client → System
unfolding abort_and_fail
after_chunks job sent c =
    if not (sent == job.file_size)
    then abort_and_fail c
    else record { client = c; phase = waiting_ack }

abbrev pub want : Job → ℕ → ℕ
want job sent =
    if ltb (job.file_size - sent) file_chunk_size then job.file_size - sent else file_chunk_size

-- The loop over the chunks, up to the next wait.
unfoldable pub next_chunk : ClientEnv → Job → ℕ → Client → System
unfolding send_or_abort after_chunks
next_chunk env job sent c =
    let chunk = env.read job.file_path sent (want job sent) in
    let more = (sent + length chunk) % u64_mod in
    if not (ltb sent job.file_size)
    then after_chunks job sent c
    else if length chunk == 0
    then after_chunks job sent c
    else send_or_abort env c chunk (leb job.file_size more) (sending_chunk more)

abbrev pub show : Job → ℕ → ℕ → Client → Client
show job done total c =
    if job.on_progress then record c { progress = c.progress ++ (done, total) ∷ [] } else c

-- The body, once the receiver has accepted.
unfoldable pub begin_body : ClientEnv → Job → Client → System
unfolding send_or_abort next_chunk abort_and_fail
begin_body env job c =
    if job.file_size == 0
    then send_or_abort env c [] true sending_empty
    else if not (env.open_ok job.file_path)
    then abort_and_fail c
    else next_chunk env job 0 c

-- `send_file_internal` up to its first wait.
unfoldable pub send_file_internal : ClientEnv → Job → Client → System
unfolding open_stream send_or_abort fail
send_file_internal env job c =
    let cleared = record c {
      file_ack = [];
      rejected = false;
      decision_buf = [];
      decision_ready = false;
      decision_accepted = false;
      file_done = false;
      file_ok = false;
    } in
    let (o, opened) = open_stream env cleared in
    if not c.connected || (c.connection == 0 || not c.api)
    then fail c
    else if not opened
    then fail o
    else send_or_abort env (record o { awaiting_decision = true }) (encode_file_header job.header)
        false sending_header

-- The header and the size that `send_file` takes from the file.
abbrev pub job_of : Bytes → Bool → ℕ → Bytes → Job
job_of path on_progress size hash = record {
  file_path = path;
  header = record { name = filename path; size = size; sha256_hex = hash };
  file_size = size;
  on_progress = on_progress;
}

-- The end of `send_file`, with the file's size and hash if they can be had.
unfoldable pub send_measured : ClientEnv → Bytes → Bool → Option ℕ → Option Bytes → Client → System
unfolding fail
send_measured env path on_progress none hash c = fail c
send_measured env path on_progress (some size) none c = fail c
send_measured env path on_progress (some size) (some hash) c =
    send_file_internal env (job_of path on_progress size hash) c

unfoldable pub send_file : ClientEnv → Bytes → Bool → Client → System
unfolding send_measured fail
send_file env path on_progress c =
    if not c.connected || (c.connection == 0 || not c.api)
    then fail c
    else if not (env.exists path)
    then fail c
    else if env.is_directory path
    then fail c
    else if not (env.is_regular_file path)
    then fail c
    else send_measured env path on_progress (env.file_size path) (env.sha256_file path) c

-- The wait for the decision.
unfoldable pub decision_wait : ClientEnv → Job → Client → System
unfolding begin_body abort_and_fail
decision_wait env job c =
    if not c.decision_ready
    then abort_and_fail c
    else if not c.decision_accepted
    then abort_and_fail (record c { rejected = true })
    else begin_body env job c

-- The end of the wait that a phase stands for.
unfoldable pub resume : ClientEnv → Job → Phase → Client → System
unfolding abort_and_fail decision_wait next_chunk
resume env job sending_header c =
    if not c.send_done then abort_and_fail c else record { client = c; phase = waiting_decision }
resume env job waiting_decision c = decision_wait env job c
resume env job sending_empty c =
    if not c.send_done
    then abort_and_fail c
    else record { client = show job 0 0 c; phase = waiting_ack }
resume env job (sending_chunk sent) c =
    if not c.send_done
    then abort_and_fail c
    else next_chunk env job sent (show job sent job.header.size c)
resume env job waiting_ack c = record { client = c; phase = returned (c.file_done && c.file_ok) }
resume env job (returned result) c = record { client = c; phase = returned result }

-- The predicate of that wait.
abbrev pub is_ready : Phase → Client → Bool
is_ready sending_header c = c.send_done
is_ready waiting_decision c = c.decision_ready
is_ready sending_empty c = c.send_done
is_ready (sending_chunk sent) c = c.send_done
is_ready waiting_ack c = c.file_done
is_ready (returned result) c = true

pub data Event : Type 0 where
  stream_event : ℕ → StreamEvent → Event
  connection_event : ℕ → ConnectionEvent → Event
  app : Bool → Event

-- A callback, or a look at the current wait; the flag says that its time is over.
unfoldable pub step : ClientEnv → Job → System → Event → System
unfolding resume
step env job y (stream_event stream e) = record y { client = on_stream_event y.client stream e }
step env job y (connection_event connection e) = record y {
  client = on_connection_event y.client connection e;
}
step env job y (app timed_out) =
    if is_ready y.phase y.client || timed_out then resume env job y.phase y.client else y

unfoldable pub run : ClientEnv → Job → System → List Event → System
run env job y [] = y
run env job y (e ∷ es) = run env job (step env job y e) es
