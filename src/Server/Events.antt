-- ===== src/Server/Events.antt =====
-- The msquic callbacks of src/transfer/quic_server.cpp: `on_stream_event`, `on_connection_event`
-- and `on_listener_event`. A callback gets the handle that the event is about.
use lft.Base.{
  ℕ, Bool, true, false, not, ◌&&◌, ◌||◌, List, [], ◌∷◌, ◌++◌, Option, none, some, Bytes, codes,
  equal, ◌==◌, if◌then◌else◌,
}
use lft.Server.State.{
  ServerEnv, Server, stream_close, connection_close, set_stream_callback, set_connection_callback,
  set_configuration, with_error, closed, notify_file_waiter,
}
use lft.Server.Receive.{append_file_bytes, finish_file_receive}

pub data StreamEvent : Type 0 where
  receive : List Bytes → StreamEvent
  peer_send_shutdown send_complete peer_send_aborted peer_receive_aborted : StreamEvent
  -- The flag is `AppCloseInProgress`, here and below.
  stream_shutdown_complete : Bool → StreamEvent
  other_stream_event : StreamEvent

pub data ConnectionEvent : Type 0 where
  connected : ConnectionEvent
  shutdown_complete : Bool → ConnectionEvent
  peer_stream_started : ℕ → ConnectionEvent
  other_connection_event : ConnectionEvent

pub data ListenerEvent : Type 0 where
  new_connection : ℕ → ListenerEvent
  stop_complete other_listener_event : ListenerEvent

-- The loop over the buffers of one RECEIVE event.
unfoldable pub append_all : ServerEnv → Server → List Bytes → Server
append_all env s [] = s
append_all env s (b ∷ bs) = append_all env (append_file_bytes env s b) bs

abort_transfer : Server → Server
unfolding notify_file_waiter
abort_transfer s =
    let error = s.file_result.error in
    notify_file_waiter false (record s {
      file_out = closed s.file_out;
      file_result =
          if equal error []
          then with_error (codes "peer aborted the transfer") s.file_result
          else s.file_result;
    })

unfoldable pub on_stream_event : ServerEnv → Server → ℕ → StreamEvent → Server
unfolding abort_transfer notify_file_waiter
on_stream_event env s stream (receive buffers) =
    if s.receiving_file then append_all env s buffers else s
on_stream_event env s stream peer_send_shutdown =
    if s.receiving_file
    then (if s.file_accepted || s.file_io_error then finish_file_receive env s stream else s)
    else s
on_stream_event env s stream send_complete =
    if s.receiving_file && s.sending_final_ack
    then notify_file_waiter s.file_result.success s
    else s
on_stream_event env s stream peer_send_aborted = if s.receiving_file then abort_transfer s else s
on_stream_event env s stream peer_receive_aborted = if s.receiving_file then abort_transfer s else s
on_stream_event env s stream (stream_shutdown_complete app_close) =
    if not app_close then record s { calls = s.calls ++ stream_close stream ∷ [] } else s
on_stream_event env s stream other_stream_event = s

abbrev same_handle : Option ℕ → ℕ → Bool
same_handle none c = false
same_handle (some d) c = d == c

-- A new stream starts from an empty buffer and no header.
abbrev pub start_stream : ℕ → Server → Server
start_stream stream s = record s {
  stream_receive_buffer = [];
  file_header_parsed = false;
  file_io_error = false;
  file_overflow = false;
  file_bytes_written = 0;
  file_out = none;
  file_stream = stream;
  file_accepted = false;
  sending_final_ack = false;
  calls = s.calls ++ set_stream_callback stream ∷ [];
}

unfoldable pub on_connection_event : Server → ℕ → ConnectionEvent → Server
on_connection_event s connection connected = record s { client_connection = some connection }
on_connection_event s connection (shutdown_complete app_close) =
    let c =
      if not app_close
      then record s { calls = s.calls ++ connection_close connection ∷ [] }
      else s in
    record c {
      client_connection =
          if same_handle s.client_connection connection then none else s.client_connection;
    }
on_connection_event s connection (peer_stream_started stream) = start_stream stream s
on_connection_event s connection other_connection_event = s

-- The second result is the status that msquic gets.
unfoldable pub on_listener_event : ServerEnv → Server → ListenerEvent → Server × Bool
on_listener_event env s (new_connection connection) =
    let calls = s.calls ++ set_connection_callback connection ∷ [] in
    (record s { calls = calls ++ set_configuration connection ∷ [] }, env.configure_ok calls)
on_listener_event env s stop_complete = (s, true)
on_listener_event env s other_listener_event = (s, true)
