-- ===== src/Network/Success.antt =====
-- What the sender may conclude from a `send_file` that returns true.
use lft.Base.{
  ℕ, ◌<◌, Bool, true, false, not, ◌||◌, List, [], ◌∷◌, ◌++◌, Option, none, some, ◌≡◌, ◌⊎◌, inl, inr,
  refl, sym, ap, ◌∙◌, arith, Bytes, contains, length, take, take-eq_of_le, ◌==◌, if_both,
}
use lft.Wire.Number.{u64_mod}
use lft.Wire.Header.{FileTransferHeader, encode_file_header}
use lft.Client.State.{ClientEnv, Client}
use lft.Client.Replay.{replay}
use lft.Client.Send.{
  Job, returned, job_of, send_file, send_measured, send_file_internal, open_stream, send_or_abort,
  begin_send, abort_and_fail, fail,
}
use lft.Client.Send.Opening.{cleared}
use lft.Client.Send.Callbacks.{IsHonest, says_ok}
use lft.Client.Send.Sent.{Reads}
use lft.Client.Send.Success.{send_file_returns_sent}
use lft.Server.State.{ServerEnv, new_server}
use lft.Server.Session.Quiet.{ok_sent}
use lft.Server.Session.Success.{Witnessed, run-Witnessed, receive_file-ok_sent}
use lft.Client.Send as Sender
use lft.Server.Session as Receiver
use lft.Network.{sent_on, Net, NetEvent, net_run}
use lft.Network.Heard.{knows}
use lft.Network.Agreement.{
  says_ok-knows, client_trace, server_trace, client_trace-run, server_trace-run, IsInformed,
  net_run-IsInformed,
}

-- A sender that has failed already, or knows no 'O'.
abbrev StartsUnknowing : Sender.System → Type 0
StartsUnknowing y = (y.phase ≡ returned false) ⊎ (knows b'O' y.client ≡ false)

open_stream-knows : (env : ClientEnv) (c : Client) → knows b'O' (open_stream env c).0 ≡ knows b'O' c
unfolding open_stream
open_stream-knows env c = ground arith

internal-StartsUnknowing :
    (env : ClientEnv) (job : Job) (c : Client) → StartsUnknowing (send_file_internal env job c)
unfolding send_file_internal send_or_abort begin_send abort_and_fail fail contains
internal-StartsUnknowing env job c =
    let P = StartsUnknowing in
    let o = (open_stream env (cleared c)).0 in
    let none_known = open_stream-knows env (cleared c) in
    if_both P (not c.connected || (c.connection == 0 || not c.api)) (inl refl) (
      if_both P (not (open_stream env (cleared c)).1) (inl refl)
        (if_both P (not (env.send_ok o.calls)) (inl refl) (inr none_known)))

measured-StartsUnknowing :
    (env : ClientEnv) (path : Bytes) (bar : Bool) (size : Option ℕ) (hash : Option Bytes)
    (c : Client)
    → StartsUnknowing (send_measured env path bar size hash c)
unfolding send_measured fail
measured-StartsUnknowing env path bar none hash c = inl refl
measured-StartsUnknowing env path bar (some size) none c = inl refl
measured-StartsUnknowing env path bar (some size) (some hash) c =
    internal-StartsUnknowing env (job_of path bar size hash) c

send_file-StartsUnknowing :
    (env : ClientEnv) (path : Bytes) (bar : Bool) (c : Client)
    → StartsUnknowing (send_file env path bar c)
unfolding send_file fail
send_file-StartsUnknowing env path bar c =
    let P = StartsUnknowing in
    if_both P (not c.connected || (c.connection == 0 || not c.api)) (inl refl) (
      if_both P (not (env.exists path)) (inl refl) (
        if_both P (env.is_directory path) (inl refl) (
          if_both P (not (env.is_regular_file path)) (inl refl)
            (measured-StartsUnknowing env path bar (env.file_size path) (env.sha256_file path) c))))

resume-returned :
    (env : ClientEnv) (job : Job) (y : Sender.System) (e : Sender.Event)
    → y.phase ≡ returned false
    → (Sender.step env job y e).phase ≡ returned false
unfolding Sender.step Sender.resume
resume-returned env job y (Sender.stream_event stream e) h = h
resume-returned env job y (Sender.connection_event c e) h = h
resume-returned env job y (Sender.app timed_out) h = rw h refl

pub run-returned :
    (env : ClientEnv) (job : Job) (es : List Sender.Event) (y : Sender.System)
    → y.phase ≡ returned false
    → (Sender.run env job y es).phase ≡ returned false
unfolding Sender.run
run-returned env job [] y h = h
run-returned env job (e ∷ es) y h =
    run-returned env job es (Sender.step env job y e) (resume-returned env job y e h)

pub receive_file-silent :
    (env : ServerEnv) (stream : ℕ) (dest : Bytes) (offer : Option (FileTransferHeader → Bool))
    (bar : Bool) (disk : Bytes)
    → sent_on stream (Receiver.receive_file env dest offer bar (new_server disk)).server.calls ≡ []
unfolding Receiver.receive_file
receive_file-silent env stream dest offer bar disk = ground arith

start-IsInformed :
    (cenv : ClientEnv) (senv : ServerEnv) (job : Job) (here stream : ℕ) (y : Sender.System)
    (dest : Bytes) (offer : Option (FileTransferHeader → Bool)) (bar : Bool) (disk : Bytes)
    → knows b'O' y.client ≡ false
    → IsInformed cenv senv job here stream (record {
      client = y;
      server = Receiver.receive_file senv dest offer bar (new_server disk);
      heard = 0;
      read = 0;
    })
unfolding contains
start-IsInformed cenv senv job here stream y dest offer bar disk unknown =
    let nothing = ap (contains b'O') (receive_file-silent senv stream dest offer bar disk) in
    record {
      spoken = λ h. absurd (ground (arith, nothing));
      informed = λ h. absurd (ground (arith, unknown));
    }

-- The receiver has sent "OK" when `send_file` returns true.
pub returned-ok_sent :
    (cenv : ClientEnv) (senv : ServerEnv) (path content hash : Bytes) (on_progress : Bool)
    (c : Client) (dest : Bytes) (offer : Option (FileTransferHeader → Bool)) (bar : Bool)
    (disk : Bytes) (client_stream server_stream : ℕ) (es : List NetEvent)
    → Reads cenv path content
    → length content < u64_mod
    → cenv.file_size path ≡ some (length content)
    → cenv.sha256_file path ≡ some hash
    → IsHonest c
    → let job = job_of path on_progress (length content) hash in
      let start : Net = record {
        client = send_file cenv path on_progress c;
        server = Receiver.receive_file senv dest offer bar (new_server disk);
        heard = 0;
        read = 0;
      } in
      let n = net_run cenv senv job client_stream server_stream start es in
      n.client.phase ≡ returned true
      → (replay n.client.client.calls ≡ some (encode_file_header job.header ++ content, true))
        × (ok_sent n.server.server.calls ≡ true)
returned-ok_sent cenv senv path content hash on_progress c dest offer bar disk client_stream
      server_stream es reads fits measured hashed honest e =
    let job = job_of path on_progress (length content) hash in
    let start : Net = record {
      client = send_file cenv path on_progress c;
      server = Receiver.receive_file senv dest offer bar (new_server disk);
      heard = 0;
      read = 0;
    } in
    let n = net_run cenv senv job client_stream server_stream start es in
    let trace = client_trace cenv senv job client_stream server_stream start es in
    let traced = client_trace-run cenv senv job client_stream server_stream es start in
    let ended : (Sender.run cenv job start.client trace).phase ≡ returned true =
      ap (λ (y : Sender.System). y.phase) (sym traced) ∙ e in
    let sent =
      send_file_returns_sent cenv path content on_progress (length content) hash reads fits c trace
        measured hashed honest ended in
    let ok : says_ok n.client.client ≡ true =
      ap (λ (y : Sender.System). says_ok y.client) traced ∙ sent.3 in
    let unknown : knows b'O' start.client.client ≡ false =
      elim (send_file-StartsUnknowing cenv path on_progress c) [
        | inl failed ↦
            let still = run-returned cenv job trace start.client failed in
            absurd (ground (arith, ended, still))
        | inr unknown ↦ unknown
      ] in
    let informed = net_run-IsInformed cenv senv job client_stream server_stream es start (
      start-IsInformed cenv senv job client_stream server_stream start.client dest offer bar disk
        unknown) in
    let said = informed.informed (says_ok-knows n.client.client ok) in
    let whole : take (length content) content ≡ content = take-eq_of_le _ content (omega arith) in
    (
      ap (λ (y : Sender.System). replay y.client.calls) traced
          ∙ (sent.0 ∙ ap (λ body. some (encode_file_header job.header ++ body, true)) whole),
      said,
    )

-- However msquic cuts and delays the bytes of the stream, and whatever else happens on both sides,
-- with or without a prompt: if `send_file` returns true, then the sender has put the encoded
-- header, the whole file and the end of the stream on it, and at some moment of the receiver's run
-- the file on its disk was complete, with the size and the hash that its header declares. The file
-- that is sent does not change meanwhile.
pub send_file_returns_received :
    (cenv : ClientEnv) (senv : ServerEnv) (path content hash : Bytes) (on_progress : Bool)
    (c : Client) (dest : Bytes) (offer : Option (FileTransferHeader → Bool)) (bar : Bool)
    (disk : Bytes) (client_stream server_stream : ℕ) (es : List NetEvent)
    → Reads cenv path content
    → length content < u64_mod
    → cenv.file_size path ≡ some (length content)
    → cenv.sha256_file path ≡ some hash
    → IsHonest c
    → let job = job_of path on_progress (length content) hash in
      let start : Net = record {
        client = send_file cenv path on_progress c;
        server = Receiver.receive_file senv dest offer bar (new_server disk);
        heard = 0;
        read = 0;
      } in
      let n = net_run cenv senv job client_stream server_stream start es in
      n.client.phase ≡ returned true
      → (replay n.client.client.calls ≡ some (encode_file_header job.header ++ content, true))
        × Witnessed senv start.server
            (server_trace cenv senv job client_stream server_stream start es)
send_file_returns_received cenv senv path content hash on_progress c dest offer bar disk
      client_stream server_stream es reads fits measured hashed honest e =
    let job = job_of path on_progress (length content) hash in
    let start : Net = record {
      client = send_file cenv path on_progress c;
      server = Receiver.receive_file senv dest offer bar (new_server disk);
      heard = 0;
      read = 0;
    } in
    let (sent, said) =
      returned-ok_sent cenv senv path content hash on_progress c dest offer bar disk client_stream
        server_stream es reads fits measured hashed honest e in
    let followed = server_trace-run cenv senv job client_stream server_stream es start in
    (
      sent,
      run-Witnessed senv _ start.server (receive_file-ok_sent senv dest offer bar disk)
          (ap (λ (y : Receiver.System). ok_sent y.server.calls) (sym followed) ∙ said),
    )
