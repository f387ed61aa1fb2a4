-- ===== src/Server/Session/Success.antt =====
-- What a successful `receive_file` proves about the file on disk.
use lft.Base.{
  Bool, true, false, List, [], ◌∷◌, ◌++◌, Option, ◌≡◌, ◌⊎◌, inl, inr, refl, ap, arith, Bytes,
  Bool-cases,
}
use lft.Wire.Header.{FileTransferHeader}
use lft.Server.State.{ServerEnv, Server, new_server}
use lft.Server.Receive.Verify.{IsComplete}
use lft.Server.Session.{
  Phase, waiting_offer, draining, returned, System, receive_file, app_step, Event, stream_event,
  connection_event, listener_event, app, step, run, run_keeps,
}
use lft.Server.Session.Quiet.{is_ok_send, ok_sent, Justified}
use lft.Server.Session.Sound.{
  Sound, Quiet-Sound, on_stream_event-Sound, on_connection_event-Quiet, on_listener_event-Quiet,
  app_step-Quiet,
}

-- The waiting thread has seen a success.
abbrev claims : Phase → Bool
claims (draining b) = b
claims (returned b) = b
claims _ = false

app_step-claims :
    (env : ServerEnv) (t : Bool) (p : Phase) (s : Server)
    → claims (app_step env t p s).phase ≡ true
    → (claims p ≡ true) ⊎ (s.file_ok ≡ true)
unfolding app_step
app_step-claims env t waiting_offer s c = ground arith
app_step-claims env t _ s c = ground arith

record IsHonest (y : System) : Type 0 where
  justified : Justified y.server
  claimed : claims y.phase ≡ true → ok_sent y.server.calls ≡ true

-- A step either sends no "OK", or sends it for a file that is complete at that moment.
pub step-Sound :
    (env : ServerEnv) (y : System) (e : Event) → Sound env y.server (step env y e).server
unfolding step
step-Sound env y (stream_event stream e) = on_stream_event-Sound env y.server stream e
step-Sound env y (connection_event c e) = Quiet-Sound env (on_connection_event-Quiet y.server c e)
step-Sound env y (listener_event e) = Quiet-Sound env (on_listener_event-Quiet env y.server e)
step-Sound env y (app t) = Quiet-Sound env (app_step-Quiet env t y.phase y.server)

step-claims :
    (env : ServerEnv) (y : System) (e : Event)
    → claims (step env y e).phase ≡ true
    → (claims y.phase ≡ true) ⊎ (y.server.file_ok ≡ true)
unfolding step
step-claims env y (app t) c = app_step-claims env t y.phase y.server c
step-claims env y _ c = inl c

step-IsHonest : (env : ServerEnv) (y : System) (e : Event) → IsHonest y → IsHonest (step env y e)
step-IsHonest env y e v = record {
  justified = (step-Sound env y e).justified v.justified;
  claimed = λ c. (step-Sound env y e).kept (elim (step-claims env y e c) [
    | inl before ↦ v.claimed before
    | inr woken ↦ v.justified.woken woken
  ]);
}

receive_file-IsHonest :
    (env : ServerEnv) (path : Bytes) (offer : Option (FileTransferHeader → Bool)) (bar : Bool)
    (disk : Bytes)
    → IsHonest (receive_file env path offer bar (new_server disk))
unfolding receive_file
receive_file-IsHonest env path offer bar disk = record {
  justified = record { success = λ h. absurd (ground arith); woken = λ h. absurd (ground arith) };
  claimed = λ h. absurd (ground arith);
}

pub receive_file-ok_sent :
    (env : ServerEnv) (path : Bytes) (offer : Option (FileTransferHeader → Bool)) (bar : Bool)
    (disk : Bytes)
    → ok_sent (receive_file env path offer bar (new_server disk)).server.calls ≡ false
unfolding receive_file ok_sent is_ok_send
receive_file-ok_sent env path offer bar disk = ground arith

-- Some moment of the run had a complete file on disk.
pub record Witnessed (env : ServerEnv) (y : System) (es : List Event) : Type 0 where
  pub before : List Event
  pub after : List Event
  pub splits : es ≡ before ++ after
  pub complete : IsComplete env (run env y before).server

pub run-Witnessed :
    (env : ServerEnv) (es : List Event) (y : System)
    → ok_sent y.server.calls ≡ false
    → ok_sent (run env y es).server.calls ≡ true
    → Witnessed env y es
unfolding run
run-Witnessed env [] y none_yet now = absurd (ground arith)
run-Witnessed env (e ∷ es) y none_yet now =
    elim (Bool-cases (ok_sent (step env y e).server.calls)) [
      | inl here ↦ record {
        before = [];
        after = e ∷ es;
        splits = refl;
        complete = (step-Sound env y e).complete none_yet here;
      }
      | inr later ↦
          let w = run-Witnessed env es (step env y e) later now in
          record {
            before = e ∷ w.before;
            after = w.after;
            splits = ap (◌∷◌ e) w.splits;
            complete = w.complete;
          }
    ]

-- If `receive_file` returns true, then "OK" was sent, and at some moment of the run the file on
-- disk was complete: it had been opened, its size was the declared one, nothing had failed or
-- overflowed, and its bytes had the hash that the header declares.
pub receive_file_returns_verified :
    (env : ServerEnv) (path : Bytes) (offer : Option (FileTransferHeader → Bool)) (bar : Bool)
    (disk : Bytes) (es : List Event)
    → let y = receive_file env path offer bar (new_server disk) in
      (run env y es).phase ≡ returned true
      → (ok_sent (run env y es).server.calls ≡ true) × Witnessed env y es
receive_file_returns_verified env path offer bar disk es returned_true =
    let y = receive_file env path offer bar (new_server disk) in
    let v =
      run_keeps IsHonest env (step-IsHonest env) es y
        (receive_file-IsHonest env path offer bar disk) in
    let sent = v.claimed (ap claims returned_true) in
    (sent, run-Witnessed env es y (receive_file-ok_sent env path offer bar disk) sent)
