-- ===== src/Client/Send/Opening.antt =====
-- How a stream is opened and sent on: `open_stream` and `stream_send_and_wait` of
-- src/transfer/quic_client.cpp.
use lft.Base.{
  Bool, true, false, [], ◌∷◌, ◌++◌, some, ◌≡◌, inl, inr, refl, ◌∙◌, arith, Bytes, Option-cases,
}
use lft.Msquic.{stream_open, stream_start, stream_send}
use lft.Client.State.{ClientEnv, Client}
use lft.Client.Replay.{replay, replay-snoc, after}
use lft.Client.Send.{open_stream, begin_send}
use lft.Client.Send.Callbacks.{IsHonest}

-- The client as `send_file_internal` has it when it opens the stream.
abbrev pub cleared : Client → Client
cleared c = record c {
  file_ack = [];
  rejected = false;
  decision_buf = [];
  decision_ready = false;
  decision_accepted = false;
  file_done = false;
  file_ok = false;
}

-- A send on an open stream puts its bytes behind those that are there.
pub replay-begin_send :
    (env : ClientEnv) (c : Client) (b d : Bytes) (fin : Bool)
    → replay c.calls ≡ some (b, false)
    → replay (begin_send env c d fin).0.calls ≡ some (b ++ d, fin)
unfolding begin_send after
replay-begin_send env c b d fin h = replay-snoc c.calls (stream_send c.stream d fin) ∙ rw h refl

pub open_stream-IsHonest :
    (env : ClientEnv) (c : Client) → IsHonest c → IsHonest (open_stream env c).0
unfolding open_stream
open_stream-IsHonest env c h = ground (arith, h)

pub open_stream-rejected :
    (env : ClientEnv) (c : Client) → (open_stream env c).0.rejected ≡ c.rejected
unfolding open_stream
open_stream-rejected env c = ground arith

pub open_stream-opens :
    (env : ClientEnv) (c : Client)
    → (open_stream env c).1 ≡ true
    → replay (open_stream env c).0.calls ≡ some ([], false)
unfolding open_stream after
open_stream-opens env c h = elim (Option-cases (env.stream_open_handle c.calls)) [
  | inl e ↦ absurd (ground arith)
  | inr (stream, e) ↦
      ground (arith, replay-snoc (c.calls ++ stream_open stream ∷ []) (stream_start stream))
]
