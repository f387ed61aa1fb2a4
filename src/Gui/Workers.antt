-- ===== src/Gui/Workers.antt =====
-- `BrowseWorker` and `SendWorker` of src/gui/send_worker.cpp, and `RecvWorker` of
-- src/gui/recv_worker.cpp: what they ask of the other parts and which signals they emit, in order.
pub mod Send
pub mod Thread
pub mod Receive
use lft.Base.{
  ℕ, Bool, true, false, not, ◌&&◌, ◌||◌, List, [], ◌∷◌, ◌++◌, map, Option, none, some, Bytes, codes,
  take, equal, ◌==◌, if◌then◌else◌,
}
use lft.Format.{format_bytes}
use lft.Progress.{percent}
use lft.Server.State.{FileReceiveResult}
use lft.Mdns.{PeerInfo, MdnsEnv, browse}
use lft.Cli.Commands.{
  Action, create_directories, receive_into, send, start_server, advertise, connect, stop_server,
  disconnect, CliEnv,
}
use lft.Gui.{Text, Qt, PeerRow, Signal, status, progress, finished}

-- How an invocation of a slot reaches its object: `Qt::QueuedConnection` or
-- `Qt::DirectConnection`.
pub data Connection : Type 0 where
  queued direct : Connection

-- A signal, a call, or an invocation of `reportProgress` on the worker itself.
pub data Step : Type 0 where
  emit : Signal → Step
  call : Action → Step
  invoke : Connection → ℕ × Text → Step

unfoldable pub peer_rows : Qt → List PeerInfo → List PeerRow
peer_rows qt [] = []
peer_rows qt (p ∷ peers) =
    record { name = qt.from_std p.name; host = qt.from_std p.host; port = p.port }
    ∷ peer_rows qt peers

-- `BrowseWorker::run`: the arguments of its `finished`.
unfoldable pub browse_run : Qt → MdnsEnv → List PeerRow × Text
browse_run qt env = elim (peer_rows qt (browse env)) [
  | [] ↦ ([], codes "No receivers found. Start receive mode on the other device.")
  | r ∷ rows ↦ (r ∷ rows, [])
]

-- `formatBytes` of src/gui/format.cpp.
abbrev pub gui_format_bytes : Qt → ℕ → Text
gui_format_bytes qt n = elim (format_bytes n) [ none ↦ [] | some text ↦ qt.from_std text ]

-- The arguments that the progress callback passes on.
unfoldable pub report : Qt → ℕ × ℕ → ℕ × Text
report qt (done, total) = (
  percent done total,
  qt.arg (codes "%1 / %2") (gui_format_bytes qt done ∷ gui_format_bytes qt total ∷ []),
)

-- `SendWorker::reportProgress`.
unfoldable pub report_progress : ℕ × Text → Signal
report_progress (percent, detail) = progress percent detail

-- A call of the progress callback.
abbrev pub on_progress : Qt → ℕ × ℕ → Step
on_progress qt counts = invoke queued (report qt counts)

abbrev pub finished_send : Qt → Text → Bool → Bool → Signal
finished_send qt file_path ok rejected =
    if not ok
    then (if rejected
        then finished false (codes "Transfer rejected by receiver.")
        else finished false (codes "Transfer failed."))
    else finished true (qt.arg (codes "Sent \"%1\" successfully.") (file_path ∷ []))

-- From the connection on. `reports` are the calls of the callback that `send_file` makes.
unfoldable pub run_connected : Qt → CliEnv → List (ℕ × ℕ) → Text → Text → ℕ → List Step
run_connected qt env reports file_path host port =
    let path = qt.to_std file_path in
    let connecting =
      status (qt.arg_number (qt.arg (codes "Connecting to %1:%2…") (host ∷ [])) port) in
    let refused = qt.arg_number (qt.arg (codes "Could not connect to %1:%2") (host ∷ [])) port in
    let (ok, rejected) = env.send_file path in
    let target = connect (qt.to_std host) port in
    if not (env.connect (qt.to_std host) port)
    then emit connecting ∷ call target ∷ emit (finished false refused) ∷ []
    else emit connecting
      ∷ call target
      ∷ emit (status (codes "Sending file…"))
      ∷ call (send path)
      ∷ (map (on_progress qt) reports
          ++ call disconnect ∷ emit (finished_send qt file_path ok rejected) ∷ [])

-- `SendWorker::runManual`.
unfoldable pub run_manual : Qt → CliEnv → List (ℕ × ℕ) → Text → Text → ℕ → List Step
unfolding run_connected
run_manual qt env reports file_path host port =
    let path = qt.to_std file_path in
    if not (env.exists path) || env.is_directory path
    then emit (finished false (codes "File not found: " ++ file_path)) ∷ []
    else run_connected qt env reports file_path host port

-- `SendWorker::run`.
unfoldable pub send_run : Qt → CliEnv → List (ℕ × ℕ) → Text → PeerRow → List Step
send_run qt env reports file_path peer = run_manual qt env reports file_path (peer.host) (peer.port)

-- The signals that the slot itself emits.
abbrev pub signals : List Step → List Signal
signals [] = []
signals (emit s ∷ steps) = s ∷ signals steps
signals (call a ∷ steps) = signals steps
signals (invoke connection r ∷ steps) = signals steps

abbrev pub calls : List Step → List Action
calls [] = []
calls (emit s ∷ steps) = calls steps
calls (call a ∷ steps) = a ∷ calls steps
calls (invoke connection r ∷ steps) = calls steps

-- What the receiving worker asks. Its callbacks go to the page's thread at once, and are no steps.
pub record RecvEnv : Type 0 where
  pub absolute : Bytes → Bytes
  pub is_directory : Bytes → Bool
  pub server_start : ℕ → Bool
  pub advertise : Bytes → ℕ → Bool
  pub host_name : Option Text
  pub receive_file : Bytes → Bool × FileReceiveResult

unfoldable pub ends_with_separator : Bytes → Bool
ends_with_separator [] = false
ends_with_separator (c ∷ []) = c == b'/' || c == b'\\'
ends_with_separator (c ∷ d ∷ path) = ends_with_separator (d ∷ path)

unfoldable pub with_separator : Bytes → Bytes
with_separator path = if ends_with_separator path then path else path ++ b'/' ∷ []

-- `defaultHostName`.
abbrev pub default_host_name : Option Text → Text
default_host_name none = codes "this device"
default_host_name (some name) = name

abbrev pub saved_message : Qt → FileReceiveResult → Text
saved_message qt r =
    qt.arg (codes "Saved to:\n%1\n\n(%2, SHA-256 verified)")
      (qt.from_std r.path ∷ gui_format_bytes qt r.bytes_received ∷ [])

abbrev pub finished_receive : Qt → Bool → FileReceiveResult → Signal
finished_receive qt ok r =
    if not ok
    then (if r.rejected
        then finished true (codes "Transfer declined.")
        else finished false (
            codes "Receive failed."
            ++ (if not (equal r.error []) then codes " " ++ qt.from_std r.error else [])))
    else finished true (saved_message qt r)

-- From the folder on.
unfoldable pub receive_in : Qt → RecvEnv → Bytes → Text → ℕ → List Step
receive_in qt env out_path device_name port =
    let out = with_separator out_path in
    let name = qt.trimmed device_name in
    let shown = if equal name [] then default_host_name env.host_name else name in
    let waiting =
      if env.advertise (qt.to_std name) port
      then qt.arg (codes "Waiting for sender… discoverable as \"%1\"") (shown ∷ [])
      else codes "Waiting for sender… (LAN discovery unavailable)" in
    let (ok, result) = env.receive_file out in
    if not (env.server_start port)
    then call (start_server port)
      ∷ emit (finished false (qt.arg_number (codes "Failed to listen on port %1") port))
      ∷ []
    else call (start_server port)
      ∷ call (advertise (qt.to_std name) port)
      ∷ emit (status waiting)
      ∷ call (receive_into out)
      ∷ call stop_server
      ∷ emit (finished_receive qt ok result)
      ∷ []

-- `RecvWorker::run`.
unfoldable pub recv_run : Qt → RecvEnv → Text → Text → ℕ → List Step
recv_run qt env out_dir device_name port =
    let out_path = env.absolute (qt.to_std out_dir) in
    if not (env.is_directory out_path)
    then call (create_directories out_path)
      ∷ emit (finished false (qt.arg (codes "Save folder is not valid: %1") (out_dir ∷ [])))
      ∷ []
    else call (create_directories out_path) ∷ receive_in qt env out_path device_name port
