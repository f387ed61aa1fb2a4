-- ===== src/Server/Session.antt =====
-- `receive_file` of src/transfer/quic_server.cpp, cut at its waits, and its interleaving with the
-- callbacks. A callback runs as a whole between two steps of the waiting thread; each wait on a
-- condition variable has an end by its predicate and one by its timeout.
pub mod Bounds
pub mod Quiet
pub mod Sound
pub mod Success
pub mod Termination
pub mod Consent
pub mod Calls
pub mod Following
use lft.Base.{
  ℕ, Bool, true, false, not, ◌&&◌, ◌||◌, List, [], ◌∷◌, ◌++◌, Option, none, some, ◌≡◌, Bytes, codes,
  equal, ◌==◌, if◌then◌else◌, is_some,
}
use lft.Wire.Header.{FileTransferHeader}
use lft.Server.State.{
  ServerEnv, Server, Call, create_directories, no_result, with_error, closed, accept_message,
  reject_message, stream_send_copy,
}
use lft.Server.Receive.{open_output_file}
use lft.Server.Events.{
  StreamEvent, ConnectionEvent, ListenerEvent, on_stream_event, on_connection_event,
  on_listener_event,
}

ends_with : ℕ → Bytes → Bool
ends_with c [] = false
ends_with c (d ∷ []) = d == c
ends_with c (d ∷ e ∷ s) = ends_with c (e ∷ s)

unfoldable pub looks_like_dir : ServerEnv → Bytes → Bool
unfolding ends_with
looks_like_dir env path =
    equal path [] || (ends_with b'/' path || (ends_with b'\\' path || env.is_directory path))

-- What stands in front of the last slash.
before_slash : Bytes → Option Bytes
before_slash [] = none
before_slash (c ∷ s) = elim (before_slash s) [
  | none ↦ if c == b'/' then some [] else none
  | some d ↦ some (c ∷ d)
]

-- `std::filesystem::path(path).parent_path()`, with slashes that stand together kept.
parent_path : Bytes → Bytes
unfolding before_slash
parent_path path = elim (before_slash path) [
  | none ↦ []
  | some d ↦ if equal d [] then b'/' ∷ [] else d
]

-- The directories that `receive_file` creates; failures are ignored.
prepare : Bool → Bytes → Server → Server
unfolding parent_path
prepare dir path s =
    let parent = parent_path path in
    if dir
    then record s { calls = s.calls ++ create_directories path ∷ [] }
    else if not (equal parent [])
    then record s { calls = s.calls ++ create_directories parent ∷ [] }
    else s

-- The block that resets the transfer state, under the lock.
unfoldable pub arm : ServerEnv → Bytes → Option (FileTransferHeader → Bool) → Bool → Server → Server
unfolding prepare
arm env path on_offer on_progress s =
    let dir = looks_like_dir env path in
    record (prepare dir path s) {
      receiving_file = true;
      file_output_is_dir = dir;
      file_output_dir = if dir then path else [];
      file_output_path = if dir then [] else path;
      file_offer = on_offer;
      file_progress = on_progress;
      offer_ready = false;
      file_accepted = false;
      sending_final_ack = false;
      file_header_parsed = false;
      file_io_error = false;
      file_overflow = false;
      file_bytes_written = 0;
      file_done = false;
      file_ok = false;
      file_result = no_result;
      stream_receive_buffer = [];
      file_out = none;
    }

-- Where the thread that called `receive_file` stands. `prompting` holds the copy of the header
-- and runs the callback with the lock released; `draining` waits for the connection to close.
pub data Phase : Type 0 where
  waiting_offer : Phase
  prompting : FileTransferHeader → Phase
  transferring : Phase
  draining : Bool → Phase
  returned : Bool → Phase

pub record System : Type 0 where
  pub server : Server
  pub phase : Phase

-- `receive_file` up to its first wait.
unfoldable pub receive_file :
    ServerEnv → Bytes → Option (FileTransferHeader → Bool) → Bool → Server → System
unfolding arm
receive_file env path on_offer on_progress s = record {
  server = arm env path on_offer on_progress s;
  phase = if is_some on_offer then waiting_offer else transferring;
}

abbrev give_up : Server → System
give_up s = record { server = record s { receiving_file = false }; phase = returned false }

-- The wait for the header: its predicate, then its timeout.
on_offer_wait : Bool → Server → System
on_offer_wait timed_out s =
    if s.offer_ready || s.file_done
    then (if s.file_done then give_up s else record { server = s; phase = prompting s.file_header })
    else if timed_out
    then give_up s
    else record { server = s; phase = waiting_offer }

abbrev pub asked : Option (FileTransferHeader → Bool) → FileTransferHeader → Bool
asked none h = false
asked (some f) h = f h

-- The callback has answered.
pub decide_offer : ServerEnv → FileTransferHeader → Server → System
unfolding open_output_file stream_send_copy
decide_offer env h s =
    let (refused, _) = stream_send_copy env s s.file_stream reject_message true in
    let (o, opened) = open_output_file env s in
    let (unopened, _) = stream_send_copy env o o.file_stream reject_message true in
    let (accepted, _) =
      stream_send_copy env (record o { file_accepted = true }) o.file_stream accept_message false in
    if not (asked s.file_offer h)
    then record {
      server = record refused {
        file_result = record (with_error (codes "rejected by receiver") refused.file_result) {
          rejected = true;
        };
      };
      phase = draining false;
    }
    else if not opened
    then record { server = unopened; phase = draining false }
    else record { server = accepted; phase = transferring }

-- The wait for the end of the transfer.
finish_wait : Bool → Server → System
finish_wait timed_out s =
    if not (s.file_done || timed_out)
    then record { server = s; phase = transferring }
    else if not s.file_done || not s.file_ok
    then give_up (record s { file_out = closed s.file_out })
    else record { server = s; phase = draining true }

-- The wait for the client to close, two seconds at most.
drain_wait : Bool → Bool → Server → System
drain_wait timed_out result s =
    if not (is_some s.client_connection) || timed_out
    then record { server = record s { receiving_file = false }; phase = returned result }
    else record { server = s; phase = draining result }

-- One step of the waiting thread. The flag says that the time of the current wait is over.
unfoldable pub app_step : ServerEnv → Bool → Phase → Server → System
unfolding on_offer_wait decide_offer finish_wait drain_wait
app_step env timed_out waiting_offer s = on_offer_wait timed_out s
app_step env timed_out (prompting h) s = decide_offer env h s
app_step env timed_out transferring s = finish_wait timed_out s
app_step env timed_out (draining result) s = drain_wait timed_out result s
app_step env timed_out (returned result) s = record { server = s; phase = returned result }

pub data Event : Type 0 where
  stream_event : ℕ → StreamEvent → Event
  connection_event : ℕ → ConnectionEvent → Event
  listener_event : ListenerEvent → Event
  app : Bool → Event

unfoldable pub step : ServerEnv → System → Event → System
unfolding app_step
step env y (stream_event stream e) = record y { server = on_stream_event env y.server stream e }
step env y (connection_event connection e) = record y {
  server = on_connection_event y.server connection e;
}
step env y (listener_event e) = record y { server = (on_listener_event env y.server e).0 }
step env y (app timed_out) = app_step env timed_out y.phase y.server

-- An interleaving of callbacks and steps of the waiting thread.
unfoldable pub run : ServerEnv → System → List Event → System
run env y [] = y
run env y (e ∷ es) = run env (step env y e) es

-- What every step keeps holds after every interleaving.
pub run_keeps {ℓ} :
    (P : System → Type ℓ) (env : ServerEnv)
    → ((y : System) (e : Event) → P y → P (step env y e))
    → (es : List Event) (y : System) → P y
    → P (run env y es)
unfolding run
run_keeps P env keep [] y h = h
run_keeps P env keep (e ∷ es) y h = run_keeps P env keep es (step env y e) (keep y e h)
