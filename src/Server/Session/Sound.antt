-- ===== src/Server/Session/Sound.antt =====
-- Each step of a receiver either sends no "OK", or sends it for a complete file.
use lft.Base.{ℕ, Bool, true, false, ◌&&◌, ◌||◌, [], ◌∷◌, ◌++◌, ◌≡◌, refl, ◌∙◌, arith, not, if_both}
use lft.Server.State.{
  ServerEnv, Server, Call, stream_send, stream_close, connection_close, set_stream_callback,
  set_connection_callback, set_configuration, ok_message, fail_message, reject_message,
  accept_message, notify_file_waiter,
}
use lft.Server.Receive.{finish_file_receive, verify, summary}
use lft.Server.Receive.Verify.{IsComplete, verify_sound}
use lft.Server.Events.{
  StreamEvent, receive, peer_send_shutdown, send_complete, peer_send_aborted, peer_receive_aborted,
  stream_shutdown_complete, other_stream_event, ConnectionEvent, connected, shutdown_complete,
  peer_stream_started, other_connection_event, ListenerEvent, new_connection, stop_complete,
  other_listener_event, on_stream_event, on_connection_event, on_listener_event,
}
use lft.Server.Session.{Phase, waiting_offer, prompting, app_step}
use lft.Server.Session.Quiet.{
  is_ok_send, ok_sent, ok_sent-snoc, Justified, Quiet, Quiet-refl, append_all-Quiet,
}

-- A step either is quiet about "OK", or sends it for a complete file; in both cases what was
-- justified stays so.
pub record Sound (env : ServerEnv) (s t : Server) : Type 0 where
  pub justified : Justified s → Justified t
  pub kept : ok_sent s.calls ≡ true → ok_sent t.calls ≡ true
  pub complete : ok_sent s.calls ≡ false → ok_sent t.calls ≡ true → IsComplete env s

pub Quiet-Sound : (env : ServerEnv) {s t : Server} → Quiet s t → Sound env s t
Quiet-Sound env q = record {
  justified = λ j. record {
    success = λ h. q.sent ∙ j.success (q.success h);
    woken = λ h. q.sent ∙ j.woken (q.woken h);
  };
  kept = λ h. q.sent ∙ h;
  complete = λ none_yet now. absurd (ground (arith, q.sent));
}

pub finish-calls :
    (env : ServerEnv) (s : Server) (stream : ℕ)
    → ok_sent (finish_file_receive env s stream).calls
      ≡ (ok_sent s.calls || (verify env s (summary s)).1)
unfolding finish_file_receive is_ok_send
finish-calls env s stream = ground (
  arith,
  ok_sent-snoc s.calls (stream_send stream ok_message true),
  ok_sent-snoc s.calls (stream_send stream fail_message true),
)

pub finish-result :
    (env : ServerEnv) (s : Server) (stream : ℕ)
    → let t = finish_file_receive env s stream in
      (t.file_result.success ≡ true → (verify env s (summary s)).1 ≡ true)
      × (t.file_ok ≡ true → s.file_ok ≡ true)
unfolding finish_file_receive
finish-result env s stream = (λ h. ground arith, λ h. ground arith)

pub finish-Sound :
    (env : ServerEnv) (s : Server) (stream : ℕ) → Sound env s (finish_file_receive env s stream)
finish-Sound env s stream =
    let calls = finish-calls env s stream in
    let result = finish-result env s stream in
    record {
      justified = λ j. record {
        success = λ h. calls ∙ (let e = result.0 h in ground arith);
        woken = λ h. calls ∙ (let e = j.woken (result.1 h) in ground arith);
      };
      kept = λ h. calls ∙ ground arith;
      complete = λ none_yet now. verify_sound env s (summary s) (ground (arith, calls));
    }

-- A send of no "OK" and calls other than sends are quiet.
pub call-Quiet :
    (s : Server) (c : Call)
    → is_ok_send c ≡ false
    → Quiet s (record s { calls = s.calls ++ c ∷ [] })
call-Quiet s c h = record {
  success = λ e. e;
  woken = λ e. e;
  sent = ground (arith, ok_sent-snoc s.calls c);
}

pub wake-Sound :
    (env : ServerEnv) (s : Server) → Sound env s (notify_file_waiter s.file_result.success s)
unfolding notify_file_waiter
wake-Sound env s = record {
  justified = λ j. record { success = j.success; woken = j.success };
  kept = λ h. h;
  complete = λ none_yet now. absurd (ground arith);
}

pub on_stream_event-Sound :
    (env : ServerEnv) (s : Server) (stream : ℕ) (e : StreamEvent)
    → Sound env s (on_stream_event env s stream e)
unfolding on_stream_event is_ok_send
on_stream_event-Sound env s stream (receive bs) =
    if_both (Sound env s) s.receiving_file (Quiet-Sound env (append_all-Quiet env s bs))
      (Quiet-Sound env (Quiet-refl s))
on_stream_event-Sound env s stream peer_send_shutdown =
    if_both (Sound env s) s.receiving_file
      (if_both (Sound env s) (s.file_accepted || s.file_io_error) (finish-Sound env s stream)
        (Quiet-Sound env (Quiet-refl s)))
      (Quiet-Sound env (Quiet-refl s))
on_stream_event-Sound env s stream send_complete =
    if_both (Sound env s) (s.receiving_file && s.sending_final_ack) (wake-Sound env s)
      (Quiet-Sound env (Quiet-refl s))
on_stream_event-Sound env s stream peer_send_aborted = Quiet-Sound env (ground arith)
on_stream_event-Sound env s stream peer_receive_aborted = Quiet-Sound env (ground arith)
on_stream_event-Sound env s stream (stream_shutdown_complete c) =
    if_both (Sound env s) (not c) (Quiet-Sound env (call-Quiet s (stream_close stream) refl))
      (Quiet-Sound env (Quiet-refl s))
on_stream_event-Sound env s stream other_stream_event = Quiet-Sound env (Quiet-refl s)

pub on_connection_event-Quiet :
    (s : Server) (connection : ℕ) (e : ConnectionEvent)
    → Quiet s (on_connection_event s connection e)
unfolding on_connection_event is_ok_send
on_connection_event-Quiet s c connected = record { success = λ e. e; woken = λ e. e; sent = refl }
on_connection_event-Quiet s c (shutdown_complete app_close) =
    ground (arith, ok_sent-snoc s.calls (connection_close c))
on_connection_event-Quiet s c (peer_stream_started stream) =
    ground (arith, ok_sent-snoc s.calls (set_stream_callback stream))
on_connection_event-Quiet s c other_connection_event = Quiet-refl s

pub on_listener_event-Quiet :
    (env : ServerEnv) (s : Server) (e : ListenerEvent) → Quiet s (on_listener_event env s e).0
unfolding on_listener_event is_ok_send
on_listener_event-Quiet env s (new_connection c) = ground (
  arith,
  ok_sent-snoc (s.calls ++ set_connection_callback c ∷ []) (set_configuration c),
  ok_sent-snoc s.calls (set_connection_callback c),
)
on_listener_event-Quiet env s stop_complete = Quiet-refl s
on_listener_event-Quiet env s other_listener_event = Quiet-refl s

pub app_step-Quiet :
    (env : ServerEnv) (t : Bool) (p : Phase) (s : Server) → Quiet s (app_step env t p s).server
unfolding app_step is_ok_send
app_step-Quiet env t waiting_offer s = ground arith
app_step-Quiet env t (prompting h) s = ground (
  arith,
  ok_sent-snoc s.calls (stream_send s.file_stream reject_message true),
  ok_sent-snoc s.calls (stream_send s.file_stream accept_message false),
)
app_step-Quiet env t _ s = ground arith
