-- ===== src/Client/Send/Callbacks.antt =====
-- What the callbacks of the client leave as it is while a file is sent.
use lft.Base.{
  ℕ, Bool, true, List, [], ◌∷◌, ◌≡◌, refl, ◌∙◌, arith, Bytes, codes, contains, starts_with,
  starts_with-more, if_both, ◌&&◌, ◌++◌,
}
use lft.Msquic.{stream_close, connection_close}
use lft.Client.State.{Client, resolve_decision, notify_file_waiter}
use lft.Client.Replay.{replay, replay-snoc, after}
use lft.Client.Events.{
  StreamEvent, receive, peer_send_shutdown, stream_shutdown_complete, ConnectionEvent,
  shutdown_complete, append_buffers, says_accept, decide, on_stream_event, on_connection_event,
}

abbrev pub says_ok : Client → Bool
says_ok c = starts_with (codes "OK") c.file_ack

-- The decision and the acknowledgement are those of the bytes that have come.
pub record IsHonest (c : Client) : Type 0 where
  pub accepted : c.decision_accepted ≡ true → says_accept c ≡ true
  pub acknowledged : c.file_ok ≡ true → says_ok c ≡ true

-- The bytes received only become more, and nothing is sent.
pub record Grows (c d : Client) : Type 0 where
  pub same_replay : replay d.calls ≡ replay c.calls
  pub accepts : says_accept c ≡ true → says_accept d ≡ true
  pub acknowledges : says_ok c ≡ true → says_ok d ≡ true
  pub same_rejected : d.rejected ≡ c.rejected
  pub honest : IsHonest c → IsHonest d

Grows-refl : (c : Client) → Grows c c
Grows-refl c = record {
  same_replay = refl;
  accepts = λ h. h;
  acknowledges = λ h. h;
  same_rejected = refl;
  honest = λ h. h;
}

Grows-trans : {c d e : Client} → Grows c d → Grows d e → Grows c e
Grows-trans p q = record {
  same_replay = q.same_replay ∙ p.same_replay;
  accepts = λ h. q.accepts (p.accepts h);
  acknowledges = λ h. q.acknowledges (p.acknowledges h);
  same_rejected = q.same_rejected ∙ p.same_rejected;
  honest = λ h. q.honest (p.honest h);
}

grow_decision : (c : Client) (b : Bytes) → Grows c (record c { decision_buf = c.decision_buf ++ b })
grow_decision c b =
    let more = starts_with-more (codes "ACCEPT") c.decision_buf b in
    record {
      same_replay = refl;
      accepts = more;
      acknowledges = λ h. h;
      same_rejected = refl;
      honest = λ h. record { accepted = λ a. more (h.accepted a); acknowledged = h.acknowledged };
    }

grow_ack : (c : Client) (b : Bytes) → Grows c (record c { file_ack = c.file_ack ++ b })
grow_ack c b =
    let more = starts_with-more (codes "OK") c.file_ack b in
    record {
      same_replay = refl;
      accepts = λ h. h;
      acknowledges = more;
      same_rejected = refl;
      honest = λ h. record { accepted = h.accepted; acknowledged = λ a. more (h.acknowledged a) };
    }

append_buffers-Grows : (c : Client) (bs : List Bytes) → Grows c (append_buffers c bs)
unfolding append_buffers
append_buffers-Grows c [] = Grows-refl c
append_buffers-Grows c (b ∷ bs) =
    Grows-trans (if_both (Grows c) c.awaiting_decision (grow_decision c b) (grow_ack c b))
      (append_buffers-Grows _ bs)

resolve-Grows : (c : Client) → Grows c (resolve_decision (says_accept c) c)
resolve-Grows c = record {
  same_replay = refl;
  accepts = λ h. h;
  acknowledges = λ h. h;
  same_rejected = refl;
  honest = λ h. record { accepted = λ a. a; acknowledged = h.acknowledged };
}

wake-Grows : (c : Client) → Grows c (notify_file_waiter (says_ok c) c)
wake-Grows c = record {
  same_replay = refl;
  accepts = λ h. h;
  acknowledges = λ h. h;
  same_rejected = refl;
  honest = λ h. record { accepted = h.accepted; acknowledged = λ a. a };
}

decide-Grows : (c : Client) → Grows c (decide c)
unfolding decide
decide-Grows c =
    if_both (Grows c) (c.awaiting_decision && contains b'\n' c.decision_buf) (resolve-Grows c)
      (Grows-refl c)

pub on_stream_event-Grows :
    (c : Client) (stream : ℕ) (e : StreamEvent) → Grows c (on_stream_event c stream e)
unfolding on_stream_event after
on_stream_event-Grows c stream (receive bs) =
    Grows-trans (append_buffers-Grows c bs) (decide-Grows (append_buffers c bs))
on_stream_event-Grows c stream peer_send_shutdown =
    if_both (Grows c) c.awaiting_decision (resolve-Grows c) (wake-Grows c)
on_stream_event-Grows c stream (stream_shutdown_complete app_close) =
    ground (arith, replay-snoc c.calls (stream_close stream))
on_stream_event-Grows c stream _ = ground arith

pub on_connection_event-Grows :
    (c : Client) (connection : ℕ) (e : ConnectionEvent)
    → Grows c (on_connection_event c connection e)
unfolding on_connection_event after
on_connection_event-Grows c connection (shutdown_complete app_close) =
    ground (arith, replay-snoc c.calls (connection_close connection))
on_connection_event-Grows c connection _ = ground arith
