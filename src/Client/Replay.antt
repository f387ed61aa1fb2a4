-- ===== src/Client/Replay.antt =====
-- What the calls of `StreamSend` put on the stream that was started last, as its peer sees it.
use lft.Base.{Bool, true, false, List, [], ◌∷◌, ◌++◌, Option, none, some, ◌≡◌, refl, Bytes}
use lft.Msquic.{Call, stream_start, stream_send}

-- The bytes of a stream, and whether it has ended.
abbrev pub Outgoing : Type 0
Outgoing = Bytes × Bool

-- A send behind the end of the stream is an error.
unfoldable pub send_on : Bytes → Bool → Option Outgoing → Option Outgoing
send_on data' fin none = none
send_on data' fin (some (sent, true)) = none
send_on data' fin (some (sent, false)) = some (sent ++ data', fin)

unfoldable pub after : Call → Option Outgoing → Option Outgoing
unfolding send_on
after (stream_start stream) o = some ([], false)
after (stream_send stream data' fin) o = send_on data' fin o
after _ o = o

unfoldable pub replay_from : Option Outgoing → List Call → Option Outgoing
replay_from o [] = o
replay_from o (e ∷ es) = replay_from (after e o) es

-- The stream that was started last. Before the first start there is none.
unfoldable pub replay : List Call → Option Outgoing
replay es = replay_from none es

replay_from-snoc :
    (o : Option Outgoing) (es : List Call) (e : Call)
    → replay_from o (es ++ e ∷ []) ≡ after e (replay_from o es)
unfolding replay_from
replay_from-snoc o [] e = refl
replay_from-snoc o (d ∷ es) e = replay_from-snoc (after d o) es e

pub replay-snoc : (es : List Call) (e : Call) → replay (es ++ e ∷ []) ≡ after e (replay es)
unfolding replay
replay-snoc es e = replay_from-snoc none es e
