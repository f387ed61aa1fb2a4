-- ===== src/Transfer.antt =====
-- A whole transfer: `QuicClient::send_file` (src/transfer/quic_client.cpp), the network between, and
-- the receive path of `QuicServer` (src/transfer/quic_server.cpp).
use lft.Base.{
  ℕ, ◌*◌, ◌≤◌, ◌<◌, Bool, true, not, ◌&&◌, ◌==◌, List, [], ◌∷◌, ◌++◌, Option, none, some, ◌≡◌, refl,
  sym, ap, ◌∙◌, arith, Bytes, length, take, concat, All, take-eq_of_le,
}
use lft.Wire.Number.{u64_mod}
use lft.Wire.Header.{encode_file_header}
use lft.Wire.Header.RoundTrip.{received}
use lft.Hash.{digest_size, digest_to_hex}
use lft.Hash.Hex.{IsByte, digest_to_hex-IsSha256Hex}
use lft.Client.State.{ClientEnv, Client}
use lft.Client.Replay.{Outgoing, replay}
use lft.Client.Send.{returned, Event, job_of, run, send_file}
use lft.Client.Send.Callbacks.{IsHonest}
use lft.Client.Send.Sent.{Reads}
use lft.Client.Send.Completion.{IsWilling, unhindered}
use lft.Client.Send.Completion.Start.{unhindered-returns}
use lft.Client.Send.Success.{send_file_returns_sent}
use lft.Server.State.{ServerEnv, Server, max_header_bytes, stream_send, ok_message}
use lft.Server.Receive.Delivery.{Works}
use lft.Server.Receive.Pieces.{IsPiece}
use lft.Server.Receive.Whole.{IsFresh, IsAnnounced, stream-judged}
use lft.Server.Events.{append_all, on_stream_event, peer_send_shutdown}

-- The file of the sender, and what both sides know of it.
pub record IsFile (cenv : ClientEnv) (senv : ServerEnv) (path content digest : Bytes) : Type 0 where
  pub reads : Reads cenv path content
  pub measured : cenv.file_size path ≡ some (length content)
  pub size_fits : length content < u64_mod
  pub digest_length : length digest ≡ digest_size
  pub digest_bytes : All IsByte digest
  pub hashed : cenv.sha256_file path ≡ some (digest_to_hex digest)
  pub hashed_again : senv.sha256_file content ≡ some (digest_to_hex digest)

abbrev bytes_of : Option Outgoing → Bytes
bytes_of none = []
bytes_of (some (sent, fin)) = sent

-- A sender whose `send_file` returns true has put on its stream what makes the receiver of that
-- stream, in whatever pieces it comes, end with exactly the bytes of the file on disk, answer "OK",
-- and report a success if msquic takes the answer. The receiver has no prompt and a file system
-- that takes every byte; the file does not change, both sides hash it to the same digest, and the
-- encoded header fits the receiver's limit.
pub transfer-delivers :
    (cenv : ClientEnv) (senv : ServerEnv) (path content digest : Bytes) (on_progress : Bool)
    (c : Client) (es : List Event) (cs : List Bytes) (s : Server) (stream : ℕ)
    → IsFile cenv senv path content digest
    → IsHonest c
    → Works senv
    → IsFresh s
    → All IsPiece cs
    → let job = job_of path on_progress (length content) (digest_to_hex digest) in
      let y = run cenv job (send_file cenv path on_progress c) es in
      let m = append_all senv s cs in
      let t = on_stream_event senv m stream peer_send_shutdown in
      length (encode_file_header job.header) ≤ max_header_bytes
      → y.phase ≡ returned true
      → replay y.client.calls ≡ some (concat cs, true)
      → (m.disk ≡ content)
        × (t.calls ≡ m.calls ++ stream_send stream ok_message true ∷ [])
        × (t.file_result.success ≡ senv.send_ok m.calls)
transfer-delivers cenv senv path content digest on_progress c es cs s stream f honest works fresh
      pieces small e carried =
    let hash = digest_to_hex digest in
    let job = job_of path on_progress (length content) hash in
    let (hex, lower) = digest_to_hex-IsSha256Hex digest f.digest_length f.digest_bytes in
    let sent =
      send_file_returns_sent cenv path content on_progress (length content) hash f.reads f.size_fits
        c es f.measured f.hashed honest e in
    let all : take (length content) content ≡ content =
      take-eq_of_le (length content) content (omega arith) in
    let whole : concat cs ≡ encode_file_header job.header ++ content =
      ap bytes_of (sym carried ∙ sent.0) ∙ ap (encode_file_header job.header ++◌) all in
    let judged =
      stream-judged senv job.header content cs s stream works f.size_fits hex small pieces whole
        fresh in
    let announced : IsAnnounced senv (received job.header) content =
      (refl, f.hashed_again ∙ ap {B = Option Bytes} some (sym lower)) in
    let good = judged.1 announced in (judged.0 ∙ all, good.0, good.1)

-- A transfer that nobody hinders comes to a good end on both sides. Where msquic takes every call
-- of a sender that is connected, the receiver accepts and answers "OK", and as many sends are
-- completed as the file has blocks of 65536 bytes, or one for an empty file: `send_file` returns
-- true with no wait run out. And a receiver that gets those bytes, in whatever pieces, ends with
-- exactly the file on its disk and does answer "OK". It has no prompt and a file system that takes
-- every byte; the file does not change, both sides hash it to the same digest, and the encoded
-- header fits the receiver's limit.
pub transfer-completes :
    (cenv : ClientEnv) (senv : ServerEnv) (path content digest : Bytes) (on_progress : Bool)
    (c : Client) (n : ℕ) (cs : List Bytes) (s : Server) (stream : ℕ)
    → IsWilling cenv path content (digest_to_hex digest)
    → IsFile cenv senv path content digest
    → IsHonest c
    → (c.connected && (not (c.connection == 0) && c.api)) ≡ true
    → 1 ≤ n
    → length content ≤ 65536 * n
    → Works senv
    → IsFresh s
    → All IsPiece cs
    → let job = job_of path on_progress (length content) (digest_to_hex digest) in
      let y = run cenv job (send_file cenv path on_progress c) (unhindered stream n) in
      let m = append_all senv s cs in
      let t = on_stream_event senv m stream peer_send_shutdown in
      length (encode_file_header job.header) ≤ max_header_bytes
      → concat cs ≡ encode_file_header job.header ++ content
      → (y.phase ≡ returned true)
        × ((m.disk ≡ content) × (t.calls ≡ m.calls ++ stream_send stream ok_message true ∷ []))
transfer-completes cenv senv path content digest on_progress c n cs s stream willing f honest online
      positive enough works fresh pieces small carried =
    let hash = digest_to_hex digest in
    let job = job_of path on_progress (length content) hash in
    let es = unhindered stream n in
    let e =
      unhindered-returns cenv path content hash on_progress c n stream willing online positive
        enough in
    let sent =
      send_file_returns_sent cenv path content on_progress (length content) hash f.reads f.size_fits
        c es f.measured f.hashed honest e in
    let whole =
      ap (λ body. some (encode_file_header job.header ++ body, true))
        (take-eq_of_le (length content) content (omega arith)) in
    let received =
      transfer-delivers cenv senv path content digest on_progress c es cs s stream f honest works
        fresh pieces small e
        (sent.0 ∙ (whole ∙ ap {B = Option Outgoing} (λ bytes. some (bytes, true)) (sym carried))) in
    (e, (received.0, received.1))
