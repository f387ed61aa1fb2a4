-- ===== src/Client/Send/Completion.antt =====
-- A send that nobody hinders: what it takes, and its events.
pub mod Body
pub mod Start
use lft.Base.{
  ℕ, zero, suc, ◌+◌, ◌-◌, ◌*◌, ◌%◌, ◌≤◌, ◌<◌, Bool, true, false, not, ◌&&◌, ◌||◌, List, [], ◌∷◌,
  ◌++◌, Option, none, some, ◌≡◌, ◌≢◌, refl, arith, Bytes, codes, contains, starts_with, length,
  take, drop, length-take, length-drop, is_some, Option-cases, inl, inr, if_cases, if_both, ltb,
  leb, ◌==◌, subst, sym, ap, ◌∙◌,
}
use lft.Wire.Number.{u64_mod}
use lft.Wire.Header.{encode_file_header}
use lft.Msquic.{Call, stream_open}
use lft.Client.State.{ClientEnv, Client, file_chunk_size}
use lft.Client.Events.{
  receive, peer_send_shutdown, send_complete, append_buffers, says_accept, decide, on_stream_event,
}
use lft.Client.Send.{
  Job, Phase, sending_header, waiting_decision, sending_empty, sending_chunk, waiting_ack, returned,
  System, Event, stream_event, app, job_of, fail, abort_and_fail, send_or_abort, begin_send,
  after_chunks, want, next_chunk, begin_body, decision_wait, resume, is_ready, show, step, run,
  send_file, send_measured, send_file_internal, open_stream,
}
use lft.Client.Send.Opening.{cleared}
use lft.Client.Send.Sent.{Reads}

-- msquic takes all that is asked of it, and the file is there and does not change.
pub record IsWilling (env : ClientEnv) (path content hash : Bytes) : Type 0 where
  pub opens : (calls : List Call) → is_some (env.stream_open_handle calls) ≡ true
  pub starts : (calls : List Call) → env.stream_start_ok calls ≡ true
  pub sends : (calls : List Call) → env.send_ok calls ≡ true
  pub there : env.exists path ≡ true
  pub no_directory : env.is_directory path ≡ false
  pub regular : env.is_regular_file path ≡ true
  pub measured : env.file_size path ≡ some (length content)
  pub size_fits : length content < u64_mod
  pub hashed : env.sha256_file path ≡ some hash
  pub opened : env.open_ok path ≡ true
  pub reads : Reads env path content

-- Between the decision and the acknowledgement.
pub record IsMoving (c : Client) : Type 0 where
  pub decided : c.awaiting_decision ≡ false
  pub unanswered : c.file_ack ≡ []
  pub unfinished : c.file_done ≡ false

-- Each SEND_COMPLETE wakes the thread.
abbrev pub rounds : ℕ → ℕ → List Event
rounds stream zero = []
rounds stream (suc n) = stream_event stream send_complete ∷ app false ∷ rounds stream n

-- The header is sent, the receiver accepts, `n` sends are completed, and the receiver answers "OK".
abbrev pub unhindered : ℕ → ℕ → List Event
unhindered stream n =
    (rounds stream 1 ++ stream_event stream (receive (codes "ACCEPT\n" ∷ [])) ∷ app false ∷ [])
    ++ rounds stream n
    ++ stream_event stream (receive (codes "OK\n" ∷ []))
      ∷ stream_event stream peer_send_shutdown
      ∷ app false
      ∷ []

abbrev pub phase_of : System → Phase
phase_of y = y.phase

pub run-append :
    (env : ClientEnv) (job : Job) (es fs : List Event) (y : System)
    → run env job y (es ++ fs) ≡ run env job (run env job y es) fs
unfolding run
run-append env job [] fs y = refl
run-append env job (e ∷ es) fs y = run-append env job es fs (step env job y e)

pub receive-ok :
    (stream : ℕ) (c : Client)
    → IsMoving c
    → let d = on_stream_event c stream (receive (codes "OK\n" ∷ [])) in
      (d.awaiting_decision ≡ false) × (d.file_ack ≡ codes "OK\n")
unfolding on_stream_event append_buffers decide
receive-ok stream c m = rw (m.decided, m.unanswered) (refl, refl)

pub shutdown-ok :
    (stream : ℕ) (c : Client)
    → c.awaiting_decision ≡ false
    → c.file_ack ≡ codes "OK\n"
    → let d = on_stream_event c stream peer_send_shutdown in
      (d.file_done ≡ true) × (d.file_ok ≡ true)
unfolding on_stream_event starts_with
shutdown-ok stream c decided heard = rw (decided, heard) (refl, refl)
