-- ===== src/Server/Session/Bounds.antt =====
-- The byte counters, through every interleaving of callbacks and steps of `receive_file`.
use lft.Base.{ℕ, ◌<◌, Bool, List, [], ◌∷◌, Option, arith, Bytes}
use lft.Wire.Number.{u64_mod}
use lft.Wire.Header.{FileTransferHeader}
use lft.Server.State.{ServerEnv, Server, new_server}
use lft.Server.Receive.{append_file_bytes}
use lft.Server.Receive.Bounds.{InBounds, append_file_bytes-InBounds, finish_file_receive-InBounds}
use lft.Server.Events.{
  StreamEvent, receive, peer_send_shutdown, ConnectionEvent, connected, ListenerEvent,
  stop_complete, append_all, on_stream_event, on_connection_event, on_listener_event,
}
use lft.Server.Session.{
  Phase, waiting_offer, System, receive_file, app_step, Event, stream_event, connection_event,
  listener_event, app, step, run, run_keeps,
}

append_all-InBounds :
    (env : ServerEnv) (s : Server) (bs : List Bytes) → InBounds s → InBounds (append_all env s bs)
unfolding append_all
append_all-InBounds env s [] v = v
append_all-InBounds env s (b ∷ bs) v =
    append_all-InBounds env (append_file_bytes env s b) bs (append_file_bytes-InBounds env s b v)

on_stream_event-InBounds :
    (env : ServerEnv) (s : Server) (stream : ℕ) (e : StreamEvent)
    → InBounds s
    → InBounds (on_stream_event env s stream e)
unfolding on_stream_event
on_stream_event-InBounds env s stream (receive bs) v =
    ground (arith, append_all-InBounds env s bs v)
on_stream_event-InBounds env s stream peer_send_shutdown v =
    ground (arith, finish_file_receive-InBounds env s stream v)
on_stream_event-InBounds env s stream _ v = ground arith

on_connection_event-InBounds :
    (s : Server) (connection : ℕ) (e : ConnectionEvent)
    → InBounds s
    → InBounds (on_connection_event s connection e)
unfolding on_connection_event
on_connection_event-InBounds s connection connected v = ground arith
on_connection_event-InBounds s connection _ v = ground arith

on_listener_event-InBounds :
    (env : ServerEnv) (s : Server) (e : ListenerEvent)
    → InBounds s
    → InBounds (on_listener_event env s e).0
unfolding on_listener_event
on_listener_event-InBounds env s stop_complete v = v
on_listener_event-InBounds env s _ v = ground arith

app_step-InBounds :
    (env : ServerEnv) (t : Bool) (p : Phase) (s : Server)
    → InBounds s
    → InBounds (app_step env t p s).server
unfolding app_step
app_step-InBounds env t waiting_offer s v = ground arith
app_step-InBounds env t _ s v = ground arith

step-InBounds :
    (env : ServerEnv) (y : System) (e : Event) → InBounds y.server → InBounds (step env y e).server
unfolding step
step-InBounds env y (stream_event stream e) v = on_stream_event-InBounds env y.server stream e v
step-InBounds env y (connection_event c e) v = on_connection_event-InBounds y.server c e v
step-InBounds env y (listener_event e) v = on_listener_event-InBounds env y.server e v
step-InBounds env y (app t) v = app_step-InBounds env t y.phase y.server v

receive_file-InBounds :
    (env : ServerEnv) (path : Bytes) (offer : Option (FileTransferHeader → Bool)) (bar : Bool)
    (s : Server)
    → s.file_header.size < u64_mod
    → InBounds (receive_file env path offer bar s).server
unfolding receive_file
receive_file-InBounds env path offer bar s h = ground arith

-- Whatever the peers send, in whatever pieces and order, with whatever answers of the file system
-- and of msquic, and however the callbacks and the waiting thread interleave: a receiver never
-- counts more bytes than the header declares, none before a header is parsed or while the transfer
-- is not accepted, and the two `uint64_t` operations on the counters never wrap.
pub run-receive_file-InBounds :
    (env : ServerEnv) (path : Bytes) (offer : Option (FileTransferHeader → Bool)) (bar : Bool)
    (disk : Bytes) (es : List Event)
    → InBounds (run env (receive_file env path offer bar (new_server disk)) es).server
run-receive_file-InBounds env path offer bar disk es =
    run_keeps (λ y. InBounds y.server) env (step-InBounds env) es
      (receive_file env path offer bar (new_server disk))
      (receive_file-InBounds env path offer bar (new_server disk) (omega arith))
