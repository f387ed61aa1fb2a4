-- ===== src/Client/Events.antt =====
-- The msquic callbacks of src/transfer/quic_client.cpp: `on_stream_event` and
-- `on_connection_event`. A callback gets the handle that the event is about.
use lft.Base.{
  ℕ, Bool, true, false, not, ◌&&◌, List, [], ◌∷◌, ◌++◌, Bytes, codes, contains, starts_with,
  if◌then◌else◌,
}
use lft.Msquic.{stream_close, connection_close}
use lft.Client.State.{
  Client, call, notify_connect_waiter, notify_send_waiter, notify_file_waiter, resolve_decision,
}

pub data StreamEvent : Type 0 where
  receive : List Bytes → StreamEvent
  peer_send_shutdown send_complete : StreamEvent
  -- The flag is `AppCloseInProgress`, here and below.
  stream_shutdown_complete : Bool → StreamEvent
  other_stream_event : StreamEvent

pub data ConnectionEvent : Type 0 where
  connected shutdown_by_transport shutdown_by_peer : ConnectionEvent
  shutdown_complete : Bool → ConnectionEvent
  other_connection_event : ConnectionEvent

-- The loop over the buffers of one RECEIVE event.
unfoldable pub append_buffers : Client → List Bytes → Client
append_buffers c [] = c
append_buffers c (b ∷ bs) =
    append_buffers
      (if c.awaiting_decision
        then record c { decision_buf = c.decision_buf ++ b }
        else record c { file_ack = c.file_ack ++ b })
      bs

abbrev pub says_accept : Client → Bool
says_accept c = starts_with (codes "ACCEPT") c.decision_buf

-- What follows the loop.
unfoldable pub decide : Client → Client
decide c =
    if c.awaiting_decision && contains b'\n' c.decision_buf
    then resolve_decision (says_accept c) c
    else c

unfoldable pub on_stream_event : Client → ℕ → StreamEvent → Client
on_stream_event c stream (receive buffers) = decide (append_buffers c buffers)
on_stream_event c stream peer_send_shutdown =
    if c.awaiting_decision
    then resolve_decision (says_accept c) c
    else notify_file_waiter (starts_with (codes "OK") c.file_ack) c
on_stream_event c stream send_complete = notify_send_waiter c
on_stream_event c stream (stream_shutdown_complete app_close) =
    record (if not app_close then call (stream_close stream) c else c) { stream = 0 }
on_stream_event c stream other_stream_event = c

unfoldable pub on_connection_event : Client → ℕ → ConnectionEvent → Client
on_connection_event c connection connected =
    notify_connect_waiter true (record c { connected = true })
on_connection_event c connection shutdown_by_transport =
    if not c.connected then notify_connect_waiter false c else c
on_connection_event c connection shutdown_by_peer =
    if not c.connected then notify_connect_waiter false c else c
on_connection_event c connection (shutdown_complete app_close) =
    record (if not app_close then call (connection_close connection) c else c) {
      connected = false;
      connection = 0;
      shutdown_complete = true;
    }
on_connection_event c connection other_connection_event = c
