-- ===== src/Server/Session/Following.antt =====
-- A receiver that gets one stream, bit by bit, while everything else happens: what is on its disk.
-- Here no prompt is registered, and the file system takes every byte.
pub mod Steps
use lft.Base.{
  ℕ, ◌+◌, ◌≤◌, Bool, true, false, not, ◌&&◌, ◌||◌, List, [], ◌∷◌, ◌++◌, Option, some, ◌≡◌, inl, inr,
  refl, sym, ap, ◌∙◌, arith, Bytes, length, take, drop, concat, All, subst, if_both, if_cases,
  is_some, length-take, length-drop, take-eq_of_le, take-append-drop,
}
use lft.Wire.Header.{FileTransferHeader, decode_file_header}
use lft.Server.State.{ServerEnv, Server, max_header_bytes, is_open, closed}
use lft.Server.Receive.{append_body, append_file_bytes, finish_file_receive}
use lft.Server.Receive.Cases.{append_file_bytes-cases}
use lft.Server.Receive.Verify.{IsComplete}
use lft.Server.Receive.Delivery.{Works, IsAwaiting, IsWriting}
use lft.Server.Receive.Pieces.{IsPiece, HasReceived, pieces-HasReceived}
use lft.Server.Events.{
  StreamEvent, receive, peer_send_shutdown, send_complete, peer_send_aborted, peer_receive_aborted,
  stream_shutdown_complete, other_stream_event, ConnectionEvent, connected, shutdown_complete,
  peer_stream_started, other_connection_event, ListenerEvent, new_connection, stop_complete,
  other_listener_event, append_all, on_stream_event, on_connection_event, on_listener_event,
}
use lft.Server.Session.{
  Phase, waiting_offer, prompting, transferring, draining, returned, System, app_step, Event,
  stream_event, connection_event, listener_event, app, step,
}

-- The members that the received bytes depend on.
pub record View : Type 0 where
  pub offer : Option (FileTransferHeader → Bool)
  pub parsed : Bool
  pub buffer : Bytes
  pub io_error : Bool
  pub overflow : Bool
  pub written : ℕ
  pub header : FileTransferHeader
  pub accepted : Bool
  pub out : Option Bool
  pub disk : Bytes
  pub receiving : Bool

abbrev pub view : Server → View
view s = record {
  offer = s.file_offer;
  parsed = s.file_header_parsed;
  buffer = s.stream_receive_buffer;
  io_error = s.file_io_error;
  overflow = s.file_overflow;
  written = s.file_bytes_written;
  header = s.file_header;
  accepted = s.file_accepted;
  out = s.file_out;
  disk = s.disk;
  receiving = s.receiving_file;
}

abbrev pub IsLike : Server → Server → Type 0
IsLike s t = view t ≡ view s

IsLike-IsAwaiting : (d : Bytes) (s t : Server) → IsLike s t → IsAwaiting d s → IsAwaiting d t
IsLike-IsAwaiting d s t e v = record {
  no_prompt = ap (λ (x : View). x.offer) e ∙ v.no_prompt;
  unparsed = ap (λ (x : View). x.parsed) e ∙ v.unparsed;
  buffer = ap (λ (x : View). x.buffer) e ∙ v.buffer;
  no_error = ap (λ (x : View). x.io_error) e ∙ v.no_error;
  no_overflow = ap (λ (x : View). x.overflow) e ∙ v.no_overflow;
  nothing_written = ap (λ (x : View). x.written) e ∙ v.nothing_written;
}

IsLike-IsWriting :
    (h : FileTransferHeader) (body : Bytes) (s t : Server)
    → IsLike s t
    → IsWriting h body s
    → IsWriting h body t
IsLike-IsWriting h body s t e v = record {
  parsed = ap (λ (x : View). x.parsed) e ∙ v.parsed;
  header = ap (λ (x : View). x.header) e ∙ v.header;
  accepted = ap (λ (x : View). x.accepted) e ∙ v.accepted;
  opened = ap (λ (x : View). x.out) e ∙ v.opened;
  no_error = ap (λ (x : View). x.io_error) e ∙ v.no_error;
  on_disk = ap (λ (x : View). x.disk) e ∙ v.on_disk;
  counted = ap (λ (x : View). x.written) e ∙ v.counted;
  overflow = ap (λ (x : View). x.overflow) e ∙ v.overflow;
}

-- The same with the file closed.
abbrev pub shut : Server → Server
shut s = record s { file_out = closed s.file_out }

-- The thread that waits is behind the prompt.
abbrev pub is_running : Phase → Bool
is_running waiting_offer = false
is_running (prompting h) = false
is_running _ = true

-- An event that neither brings bytes nor starts a stream.
abbrev pub is_other : Event → Bool
is_other (stream_event stream (receive buffers)) = false
is_other (connection_event c (peer_stream_started stream)) = false
is_other _ = true

-- No byte goes into a closed file.
closed-same :
    (env : ServerEnv) (s : Server) (d : Bytes)
    → s.file_header_parsed ≡ true
    → s.file_out ≡ some false
    → append_file_bytes env s d ≡ s
unfolding append_body
closed-same env s d parsed out =
    append_file_bytes-cases (λ t. t ≡ s) env s d
      (λ p.
        if_both (λ t. t ≡ s) (not s.file_accepted) refl
          (if_cases (λ t. t ≡ s) (s.file_io_error || not (is_open s.file_out)) (λ e. refl)
            (λ e. absurd (ground (arith, out)))))
      (λ p e. absurd (ground (arith, parsed))) (λ h n p e. absurd (ground (arith, parsed)))

pub all-same :
    (env : ServerEnv) (bs : List Bytes) (s : Server)
    → s.file_header_parsed ≡ true
    → s.file_out ≡ some false
    → append_all env s bs ≡ s
unfolding append_all
all-same env [] s parsed out = refl
all-same env (b ∷ bs) s parsed out =
    ap (λ t. append_all env t bs) (closed-same env s b parsed out) ∙ all-same env bs s parsed out

module _ (env : ServerEnv) (w : Works env) (h : FileTransferHeader) (n : ℕ)
    (small : n ≤ max_header_bytes) (whole : Bytes) where
  -- What a receiver has on disk behind `q` bytes of the stream.
  abbrev pub body_at : ℕ → Bytes
  body_at q = take h.size (drop n (take q whole))

  -- The file was closed behind `q` bytes.
  pub record IsKept (q : ℕ) (s : Server) : Type 0 where
    pub parsed : s.file_header_parsed ≡ true
    pub header : s.file_header ≡ h
    pub out : s.file_out ≡ some false
    pub counted : s.file_bytes_written ≡ length (body_at q)
    pub on_disk : s.disk ≡ body_at q

  -- Behind `r` bytes of the stream.
  pub data IsFollowing (r : ℕ) (s : Server) : Type 0 where
    live : HasReceived h n (take r whole) s → IsFollowing r s
    kept : (q : ℕ) → IsKept q s → IsFollowing r s
    idle : s.receiving_file ≡ false → IsFollowing r s

  pub IsLike-IsFollowing : (r : ℕ) (s t : Server) → IsLike s t → IsFollowing r s → IsFollowing r t
  IsLike-IsFollowing r s t e (live (inl (short, v))) =
      live (inl (short, IsLike-IsAwaiting _ s t e v))
  IsLike-IsFollowing r s t e (live (inr (past, v))) =
      live (inr (past, IsLike-IsWriting h _ s t e v))
  IsLike-IsFollowing r s t e (kept q v) = kept q (record {
    parsed = ap (λ (x : View). x.parsed) e ∙ v.parsed;
    header = ap (λ (x : View). x.header) e ∙ v.header;
    out = ap (λ (x : View). x.out) e ∙ v.out;
    counted = ap (λ (x : View). x.written) e ∙ v.counted;
    on_disk = ap (λ (x : View). x.disk) e ∙ v.on_disk;
  })
  IsLike-IsFollowing r s t e (idle v) = idle (ap (λ (x : View). x.receiving) e ∙ v)

  shut-IsFollowing : (r : ℕ) (s : Server) → IsFollowing r s → IsFollowing r (shut s)
  shut-IsFollowing r s (live (inl (short, v))) = live (
      inl (
        short,
        record {
          no_prompt = v.no_prompt;
          unparsed = v.unparsed;
          buffer = v.buffer;
          no_error = v.no_error;
          no_overflow = v.no_overflow;
          nothing_written = v.nothing_written;
        },
      ))
  shut-IsFollowing r s (live (inr (past, v))) = kept r (record {
    parsed = v.parsed;
    header = v.header;
    out = ap closed v.opened;
    counted = v.counted;
    on_disk = v.on_disk;
  })
  shut-IsFollowing r s (kept q v) = kept q (record {
    parsed = v.parsed;
    header = v.header;
    out = ap closed v.out;
    counted = v.counted;
    on_disk = v.on_disk;
  })
  shut-IsFollowing r s (idle v) = idle v

  pub closes : (r : ℕ) (s t : Server) → IsLike (shut s) t → IsFollowing r s → IsFollowing r t
  closes r s t e v = IsLike-IsFollowing r (shut s) t e (shut-IsFollowing r s v)

  pub finish-IsLike : (s : Server) (stream : ℕ) → IsLike (shut s) (finish_file_receive env s stream)
  unfolding finish_file_receive
  finish-IsLike s stream = if_both (IsLike (shut s)) (not (env.send_ok s.calls)) refl refl
