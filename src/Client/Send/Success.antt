-- ===== src/Client/Send/Success.antt =====
-- When `send_file` returns true.
use lft.Base.{
  ℕ, ◌≤◌, ◌<◌, Bool, true, List, ◌++◌, some, ◌≡◌, Bytes, length, take, ◌==◌, ◌||◌, not, if_both,
}
use lft.Wire.Number.{u64_mod}
use lft.Wire.Header.{encode_file_header}
use lft.Client.State.{ClientEnv, Client}
use lft.Client.Events.{says_accept}
use lft.Client.Replay.{replay}
use lft.Client.Send.{returned, Event, job_of, run, send_file}
use lft.Client.Send.Callbacks.{IsHonest, says_ok}
use lft.Client.Send.Sent.{Reads, IsSending-returned, IsSending, fail-IsSending}
use lft.Client.Send.OnWire.{run-IsSending, send_file_internal-IsSending}

module _ (env : ClientEnv) (path content : Bytes) (on_progress : Bool) (size : ℕ) (hash : Bytes)
    (reads : Reads env path content) (fits : size < u64_mod) where
  pub send_file-IsSending :
      (c : Client)
      → env.file_size path ≡ some size
      → env.sha256_file path ≡ some hash
      → IsHonest c
      → IsSending (job_of path on_progress size hash) content (send_file env path on_progress c)
  unfolding send_file
  send_file-IsSending c s h v =
      let job = job_of path on_progress size hash in
      let failed = fail-IsSending job content c v in
      if_both (IsSending job content) (not c.connected || (c.connection == 0 || not c.api)) failed (
        if_both (IsSending job content) (not (env.exists path)) failed (
          if_both (IsSending job content) (env.is_directory path) failed (
            if_both (IsSending job content) (not (env.is_regular_file path)) failed
              (rw (s, h) (send_file_internal-IsSending job content env reads fits c v)))))

  -- However the sending thread and the callbacks interleave: if `send_file` returns true, then
  -- its last stream carried exactly the encoded header of the file's name, size and hash, then
  -- the first `size` bytes of the file, of which there are that many, and then the end of the
  -- stream; and the receiver's answers begin with "ACCEPT" and with "OK". The file may be read in
  -- any number of chunks.
  pub send_file_returns_sent :
      (c : Client) (es : List Event)
      → env.file_size path ≡ some size
      → env.sha256_file path ≡ some hash
      → IsHonest c
      → let job = job_of path on_progress size hash in
        let y = run env job (send_file env path on_progress c) es in
        y.phase ≡ returned true
        → (replay y.client.calls ≡ some (encode_file_header job.header ++ take size content, true))
          × (size ≤ length content)
          × (says_accept y.client ≡ true)
          × (says_ok y.client ≡ true)
  send_file_returns_sent c es s h v e =
      let job = job_of path on_progress size hash in
      let y = run env job (send_file env path on_progress c) es in
      let at_end =
        run-IsSending job content env reads fits es (send_file env path on_progress c)
          (send_file-IsSending c s h v) in
      let (all, ok) = IsSending-returned job content y e at_end in
      (all.on_stream, all.whole, all.after_accept, ok)
