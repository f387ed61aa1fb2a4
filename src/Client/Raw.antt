-- ===== src/Client/Raw.antt =====
-- `send_raw_stream` and `is_connected` of src/transfer/quic_client.cpp. As `send_file_internal`, the
-- first is cut at its waits and interleaved with the callbacks.
use lft.Base.{
  Bool, true, false, not, ◌||◌, List, [], ◌∷◌, some, ◌≡◌, ◌∙◌, arith, Bytes, ◌==◌, if◌then◌else◌,
  if_both, if_cases, subst,
}
use lft.Client.State.{ClientEnv, Client}
use lft.Client.Events.{on_stream_event, on_connection_event}
use lft.Client.Replay.{replay}
use lft.Client.Send.{
  open_stream, abort_stream, begin_send, Event, stream_event, connection_event, app,
}
use lft.Client.Send.Opening.{open_stream-opens, replay-begin_send}
use lft.Client.Send.Callbacks.{on_stream_event-Grows, on_connection_event-Grows}

unfoldable pub is_connected : Client → Bool
is_connected c = c.connected

-- The wait for SEND_COMPLETE, and the one for the end of the peer's stream.
pub data RawPhase : Type 0 where
  raw_sending raw_ending : RawPhase
  raw_returned : Bool → RawPhase

pub record RawSystem : Type 0 where
  pub client : Client
  pub phase : RawPhase

unfoldable pub raw_fail : Client → RawSystem
raw_fail c = record { client = c; phase = raw_returned false }

-- `send_raw_stream` up to its first wait.
unfoldable pub send_raw_stream : ClientEnv → Bytes → Bool → Client → RawSystem
unfolding raw_fail
send_raw_stream env data' fin c =
    let ready = record c { file_ack = []; rejected = false; file_done = false; file_ok = false } in
    let (o, opened) = open_stream env ready in
    let (sent, queued) = begin_send env o data' fin in
    if not (is_connected c) || (c.connection == 0 || not c.api)
    then raw_fail c
    else if not opened
    then raw_fail o
    else if not queued
    then raw_fail (abort_stream sent)
    else record { client = sent; phase = raw_sending }

-- The end of a wait.
unfoldable pub raw_resume : Bool → RawPhase → Client → RawSystem
unfolding raw_fail
raw_resume fin raw_sending c =
    if not c.send_done
    then raw_fail (abort_stream c)
    else record { client = c; phase = if fin then raw_ending else raw_returned true }
raw_resume fin raw_ending c = record { client = c; phase = raw_returned true }
raw_resume fin (raw_returned result) c = record { client = c; phase = raw_returned result }

abbrev pub raw_ready : RawPhase → Client → Bool
raw_ready raw_sending c = c.send_done
raw_ready raw_ending c = c.file_done
raw_ready (raw_returned result) c = true

unfoldable pub raw_step : Bool → RawSystem → Event → RawSystem
unfolding raw_resume
raw_step fin y (stream_event stream e) = record y { client = on_stream_event y.client stream e }
raw_step fin y (connection_event connection e) = record y {
  client = on_connection_event y.client connection e;
}
raw_step fin y (app timed_out) =
    if raw_ready y.phase y.client || timed_out then raw_resume fin y.phase y.client else y

unfoldable pub raw_run : Bool → RawSystem → List Event → RawSystem
unfolding raw_step
raw_run fin y [] = y
raw_run fin y (e ∷ es) = raw_run fin (raw_step fin y e) es

module _ (env : ClientEnv) (data' : Bytes) (fin : Bool) where
  -- Unless it has failed, the data are on the stream.
  RawOnWire : RawPhase → Client → Type 0
  RawOnWire (raw_returned false) c = Unit
  RawOnWire _ c = replay c.calls ≡ some (data', fin)

  abbrev IsRaw : RawSystem → Type 0
  IsRaw y = RawOnWire y.phase y.client

  RawOnWire-same :
      (p : RawPhase) (c d : Client)
      → replay d.calls ≡ replay c.calls
      → RawOnWire p c
      → RawOnWire p d
  unfolding RawOnWire
  RawOnWire-same raw_sending c d e h = e ∙ h
  RawOnWire-same raw_ending c d e h = e ∙ h
  RawOnWire-same (raw_returned true) c d e h = e ∙ h
  RawOnWire-same (raw_returned false) c d e h = tt

  send_raw_stream-IsRaw : (c : Client) → IsRaw (send_raw_stream env data' fin c)
  unfolding send_raw_stream raw_fail RawOnWire
  send_raw_stream-IsRaw c =
      let ready = record c {
        file_ack = [];
        rejected = false;
        file_done = false;
        file_ok = false;
      } in
      let (o, opened) = open_stream env ready in
      if_both IsRaw (not (is_connected c) || (c.connection == 0 || not c.api)) tt (
        if_cases IsRaw (not opened) (λ e. tt)
          (λ e.
            if_both IsRaw (not (begin_send env o data' fin).1) tt
              (replay-begin_send env o [] data' fin (open_stream-opens env ready (ground arith)))))

  raw_resume-IsRaw : (p : RawPhase) (c : Client) → RawOnWire p c → IsRaw (raw_resume fin p c)
  unfolding raw_resume raw_fail RawOnWire
  raw_resume-IsRaw raw_sending c h =
      if_both IsRaw (not c.send_done) tt (if_both (λ p. RawOnWire p c) fin h h)
  raw_resume-IsRaw raw_ending c h = h
  raw_resume-IsRaw (raw_returned true) c h = h
  raw_resume-IsRaw (raw_returned false) c h = tt

  raw_step-IsRaw : (y : RawSystem) (e : Event) → IsRaw y → IsRaw (raw_step fin y e)
  unfolding raw_step
  raw_step-IsRaw y (stream_event stream e) h =
      RawOnWire-same y.phase y.client _ (on_stream_event-Grows y.client stream e).same_replay h
  raw_step-IsRaw y (connection_event connection e) h =
      RawOnWire-same y.phase y.client _
        (on_connection_event-Grows y.client connection e).same_replay h
  raw_step-IsRaw y (app timed_out) h =
      if_both IsRaw (raw_ready y.phase y.client || timed_out) (raw_resume-IsRaw y.phase y.client h)
        h

  raw_run-IsRaw : (es : List Event) (y : RawSystem) → IsRaw y → IsRaw (raw_run fin y es)
  unfolding raw_run
  raw_run-IsRaw [] y h = h
  raw_run-IsRaw (e ∷ es) y h = raw_run-IsRaw es _ (raw_step-IsRaw y e h)

  -- Whatever msquic and the peer do: if `send_raw_stream` returns true, it has put just its data
  -- on a stream of its own, and has ended the stream if it was to.
  pub send_raw_stream-on_stream :
      (c : Client) (es : List Event)
      → let y = raw_run fin (send_raw_stream env data' fin c) es in
        y.phase ≡ raw_returned true → replay y.client.calls ≡ some (data', fin)
  unfolding RawOnWire
  send_raw_stream-on_stream c es e =
      let y = raw_run fin (send_raw_stream env data' fin c) es in
      subst (λ p. RawOnWire p y.client) e (raw_run-IsRaw es _ (send_raw_stream-IsRaw c))
