-- ===== src/Network/Content.antt =====
-- A `send_file` that returns true, over the network: the file has come across.
use lft.Base.{
  ℕ, ◌≤◌, ◌<◌, Bool, true, false, List, ◌∷◌, none, some, ◌≡◌, inl, refl, arith, Bytes, length, All,
  drop-append,
}
use lft.Wire.Number.{u64_mod}
use lft.Wire.Header.{encode_file_header, is_sha256_hex}
use lft.Wire.Header.Sound.{decode_file_header-IsWellFormed}
use lft.Wire.Header.RoundTrip.{received, decode-encode}
use lft.Client.State.{ClientEnv, Client}
use lft.Client.Send as Sender
use lft.Client.Send.{Job, returned, job_of, send_file}
use lft.Client.Send.Callbacks.{IsHonest}
use lft.Client.Send.Sent.{Reads}
use lft.Client.Send.Success.{send_file-IsSending}
use lft.Server.State.{ServerEnv, new_server, max_header_bytes}
use lft.Server.Receive.Delivery.{Works}
use lft.Server.Session.Quiet.{ok_sent, is_ok_send}
use lft.Server.Session.Following.{live}
use lft.Server.Session.Following.Steps.{GoesOn}
use lft.Server.Events as ServerEvents
use lft.Server.Session as Receiver
use lft.Network.{Net, NetEvent, server_does, net_step, net_run}
use lft.Network.Delivered.{IsOrderly, IsDelivered, run-IsDelivered}
use lft.Network.Success.{returned-ok_sent}

-- The stream has started at the receiver.
abbrev pub stream_starts : ℕ → ℕ → NetEvent
stream_starts connection stream =
    server_does (Receiver.connection_event connection (ServerEvents.peer_stream_started stream))

started-ok_sent :
    (senv : ServerEnv) (dest : Bytes) (bar : Bool) (disk : Bytes) (connection stream : ℕ)
    → ok_sent
        (Receiver.step senv (Receiver.receive_file senv dest none bar (new_server disk)) (
          Receiver.connection_event connection
            (ServerEvents.peer_stream_started stream))).server.calls
      ≡ false
unfolding Receiver.step Receiver.receive_file ServerEvents.on_connection_event ok_sent is_ok_send
started-ok_sent senv dest bar disk connection stream = ground arith

started-GoesOn :
    (senv : ServerEnv) (w : Works senv) (h : _) (n : ℕ) (small : n ≤ max_header_bytes)
    (whole dest : Bytes) (bar : Bool) (disk : Bytes) (connection stream : ℕ)
    → 0 < n
    → GoesOn senv w h n small whole 0 (
        Receiver.step senv
          (Receiver.receive_file senv dest none bar (new_server disk))
          (Receiver.connection_event connection (ServerEvents.peer_stream_started stream)))
unfolding Receiver.step Receiver.receive_file ServerEvents.on_connection_event
started-GoesOn senv w h n small whole dest bar disk connection stream positive = (
  live (
      inl (
        positive,
        record {
          no_prompt = ground arith;
          unparsed = refl;
          buffer = refl;
          no_error = refl;
          no_overflow = refl;
          nothing_written = refl;
        },
      )),
  refl,
)

-- However msquic cuts and delays the bytes of the stream, and whatever else happens on both sides:
-- if `send_file` returns true, then at some moment of the run the file on the receiver's disk was
-- complete, and its bytes were those of the file that was sent. The receiver has no prompt and a
-- file system that takes every byte; its stream starts first, and no other does, and the length of
-- a buffer, with the limit of a header added, fits 32 bits; the flags of the sender agree with
-- what it has heard; the file does not change meanwhile, its hash is of the right form, and its
-- header fits the receiver's limit.
pub send_file_returns-IsDelivered :
    (cenv : ClientEnv) (senv : ServerEnv) (path content hash : Bytes) (on_progress : Bool)
    (c : Client) (dest : Bytes) (bar : Bool) (disk : Bytes)
    (client_stream server_stream connection : ℕ) (es : List NetEvent)
    → Reads cenv path content
    → length content < u64_mod
    → cenv.file_size path ≡ some (length content)
    → cenv.sha256_file path ≡ some hash
    → is_sha256_hex hash ≡ true
    → IsHonest c
    → Works senv
    → All IsOrderly es
    → let job = job_of path on_progress (length content) hash in
      length (encode_file_header job.header) ≤ max_header_bytes
      → let start : Net = record {
        client = send_file cenv path on_progress c;
        server = Receiver.receive_file senv dest none bar (new_server disk);
        heard = 0;
        read = 0;
      } in
        let first =
          net_step cenv senv job client_stream server_stream start
            (stream_starts connection server_stream) in
        (net_run cenv senv job client_stream server_stream first es).client.phase ≡ returned true
        → IsDelivered cenv senv job client_stream server_stream content first es
unfolding net_run net_step Sender.run Receiver.run Receiver.step
send_file_returns-IsDelivered cenv senv path content hash on_progress c dest bar disk client_stream
      server_stream connection es reads fits measured hashed hex honest w orderly small ended =
    let job = job_of path on_progress (length content) hash in
    let start : Net = record {
      client = send_file cenv path on_progress c;
      server = Receiver.receive_file senv dest none bar (new_server disk);
      heard = 0;
      read = 0;
    } in
    let starts = stream_starts connection server_stream in
    let first = net_step cenv senv job client_stream server_stream start starts in
    let decoded = decode-encode job.header content fits hex in
    let positive : 0 < length (encode_file_header job.header) =
      let (_, _, _, count, _) = (decode_file_header-IsWellFormed _ _ _ decoded).1 in
      omega (arith, count) in
    let (_, said) =
      returned-ok_sent cenv senv path content hash on_progress c dest none bar disk client_stream
        server_stream (starts ∷ es) reads fits measured hashed honest ended in
    run-IsDelivered cenv senv job client_stream server_stream content reads fits w
      (received job.header) (length (encode_file_header job.header)) small decoded
      (drop-append (encode_file_header job.header) content) refl es first orderly
      (record {
        sending =
            send_file-IsSending cenv path content on_progress (length content) hash reads fits c
              measured hashed honest;
        goes_on =
            started-GoesOn senv w (received job.header) _ small _ dest bar disk connection
              server_stream positive;
      })
      (started-ok_sent senv dest bar disk connection server_stream) said ended
