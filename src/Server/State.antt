-- ===== src/Server/State.antt =====
-- The transfer state of `QuicServer` (include/transfer/quic_server.h), the result that it reports
-- (include/transfer/quic_transfer.h), and what the server asks of msquic and of the file system.
use lft.Base.{ℕ, Bool, true, false, List, [], ◌∷◌, ◌++◌, ◌^◌, Option, none, some, Bytes, codes}
use lft.Wire.Header.{FileTransferHeader, no_header}
pub use lft.Msquic.{
  Call, stream_send, stream_close, connection_close, connection_shutdown, set_stream_callback,
  set_connection_callback, set_configuration, create_directories,
}

pub record FileReceiveResult : Type 0 where
  pub success : Bool
  pub rejected : Bool
  pub path : Bytes
  pub expected_hash : Bytes
  pub computed_hash : Bytes
  pub bytes_received : ℕ
  pub error : Bytes

-- `FileReceiveResult{}`.
abbrev pub no_result : FileReceiveResult
no_result = record {
  success = false;
  rejected = false;
  path = [];
  expected_hash = [];
  computed_hash = [];
  bytes_received = 0;
  error = [];
}

-- What msquic, the file system and the hash answer. A send is answered by what was called before;
-- a write gives the bytes of the file behind it and `good()`; the hash reads the file's bytes.
pub record ServerEnv : Type 0 where
  pub send_ok : List Call → Bool
  pub configure_ok : List Call → Bool
  pub open_ok : Bytes → Bool
  pub is_directory : Bytes → Bool
  pub write : Bytes → Bytes → Bytes × Bool
  pub sha256_file : Bytes → Option Bytes

-- `file_out` is `none` for a null pointer, and otherwise holds `is_open()`. Behind the members
-- stand the bytes of the output file, the calls made and the calls of the progress callback.
pub record Server : Type 0 where
  pub client_connection : Option ℕ
  pub stream_receive_buffer : Bytes
  pub receiving_file : Bool
  pub file_done : Bool
  pub file_ok : Bool
  pub file_offer : Option (FileTransferHeader → Bool)
  pub file_progress : Bool
  pub offer_ready : Bool
  pub file_accepted : Bool
  pub sending_final_ack : Bool
  pub file_stream : ℕ
  pub file_output_is_dir : Bool
  pub file_output_dir : Bytes
  pub file_output_path : Bytes
  pub file_header : FileTransferHeader
  pub file_header_parsed : Bool
  pub file_io_error : Bool
  pub file_overflow : Bool
  pub file_bytes_written : ℕ
  pub file_out : Option Bool
  pub file_result : FileReceiveResult
  pub disk : Bytes
  pub calls : List Call
  pub progress : List (ℕ × ℕ)

-- `QuicServer(port)`, in front of a file that holds `disk`.
abbrev pub new_server : Bytes → Server
new_server disk = record {
  client_connection = none;
  stream_receive_buffer = [];
  receiving_file = false;
  file_done = false;
  file_ok = false;
  file_offer = none;
  file_progress = false;
  offer_ready = false;
  file_accepted = false;
  sending_final_ack = false;
  file_stream = 0;
  file_output_is_dir = false;
  file_output_dir = [];
  file_output_path = [];
  file_header = no_header;
  file_header_parsed = false;
  file_io_error = false;
  file_overflow = false;
  file_bytes_written = 0;
  file_out = none;
  file_result = no_result;
  disk = disk;
  calls = [];
  progress = [];
}

abbrev pub with_error : Bytes → FileReceiveResult → FileReceiveResult
with_error e r = record r { error = e }

-- `kMaxHeaderBytes`.
abbrev pub max_header_bytes : ℕ
max_header_bytes = 65536

abbrev pub u32_mod : ℕ
u32_mod = 2 ^ 32

-- `file_out_ != nullptr && file_out_->is_open()`.
abbrev pub is_open : Option Bool → Bool
is_open none = false
is_open (some b) = b

-- `if (file_out_ != nullptr && file_out_->is_open()) file_out_->close();`
abbrev pub closed : Option Bool → Option Bool
closed none = none
closed (some b) = some false

abbrev pub accept_message : Bytes
accept_message = codes "ACCEPT\n"

abbrev pub reject_message : Bytes
reject_message = codes "REJECT\n"

abbrev pub ok_message : Bytes
ok_message = codes "OK\n"

abbrev pub fail_message : Bytes
fail_message = codes "FAIL\n"

-- `stream_send_copy` (src/transfer/quic_send_buffer.h): the bytes are copied and handed to msquic
-- in one call; a failed allocation counts as a send that is refused. The flag is `QUIC_SEND_FLAG_FIN`; the result is the status' success.
unfoldable pub stream_send_copy : ServerEnv → Server → ℕ → Bytes → Bool → Server × Bool
stream_send_copy env s stream message fin =
    (record s { calls = s.calls ++ stream_send stream message fin ∷ [] }, env.send_ok s.calls)

unfoldable pub notify_file_waiter : Bool → Server → Server
notify_file_waiter success s = record s {
  file_done = true;
  file_ok = success;
  file_result = record (s.file_result) { success = success };
}
