-- ===== src/Client/State.antt =====
-- The members of `QuicClient` (include/transfer/quic_client.h), and what the client asks of msquic
-- and of the file system.
use lft.Base.{ℕ, Bool, true, false, List, [], ◌∷◌, ◌++◌, Option, Bytes}
use lft.Msquic.{Call}

-- What msquic answers to a call depends on the calls before it. `read path offset want` are the
-- bytes that `input.read` stores, which `gcount()` counts.
pub record ClientEnv : Type 0 where
  pub stream_open_handle : List Call → Option ℕ
  pub stream_start_ok : List Call → Bool
  pub send_ok : List Call → Bool
  pub exists : Bytes → Bool
  pub is_directory : Bytes → Bool
  pub is_regular_file : Bytes → Bool
  pub file_size : Bytes → Option ℕ
  pub sha256_file : Bytes → Option Bytes
  pub open_ok : Bytes → Bool
  pub read : Bytes → ℕ → ℕ → Bytes

-- A handle that is 0 is a null pointer; `api` says whether `api_` is not null. Behind the members
-- stand the calls made, and the calls of the progress callback.
pub record Client : Type 0 where
  pub connected : Bool
  pub api : Bool
  pub registration : ℕ
  pub configuration : ℕ
  pub connection : ℕ
  pub connect_done : Bool
  pub connect_ok : Bool
  pub shutdown_complete : Bool
  pub stream : ℕ
  pub send_done : Bool
  pub file_ack : Bytes
  pub file_done : Bool
  pub file_ok : Bool
  pub rejected : Bool
  pub awaiting_decision : Bool
  pub decision_buf : Bytes
  pub decision_ready : Bool
  pub decision_accepted : Bool
  pub calls : List Call
  pub progress : List (ℕ × ℕ)

abbrev pub new_client : Client
new_client = record {
  connected = false;
  api = false;
  registration = 0;
  configuration = 0;
  connection = 0;
  connect_done = false;
  connect_ok = false;
  shutdown_complete = false;
  stream = 0;
  send_done = false;
  file_ack = [];
  file_done = false;
  file_ok = false;
  rejected = false;
  awaiting_decision = false;
  decision_buf = [];
  decision_ready = false;
  decision_accepted = false;
  calls = [];
  progress = [];
}

-- `kFileChunkSize`.
abbrev pub file_chunk_size : ℕ
file_chunk_size = 65536

abbrev pub call : Call → Client → Client
call e c = record c { calls = c.calls ++ e ∷ [] }

abbrev pub notify_connect_waiter : Bool → Client → Client
notify_connect_waiter success c = record c { connect_done = true; connect_ok = success }

abbrev pub notify_send_waiter : Client → Client
notify_send_waiter c = record c { send_done = true }

abbrev pub notify_file_waiter : Bool → Client → Client
notify_file_waiter success c = record c { file_done = true; file_ok = success }

abbrev pub resolve_decision : Bool → Client → Client
resolve_decision accepted c = record c {
  awaiting_decision = false;
  decision_accepted = accepted;
  decision_ready = true;
}
