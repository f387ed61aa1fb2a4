-- ===== src/Network/Heard.antt =====
-- What the sender has heard of the receiver: the bytes behind its decision and its acknowledgement.
use lft.Base.{
  ℕ, Bool, true, false, not, ◌||◌, List, [], ◌∷◌, ◌++◌, ◌≡◌, refl, ◌∙◌, arith, Bytes, contains,
  concat, if_both, ◌==◌, ltb, length,
}
use lft.Client.State.{ClientEnv, Client}
use lft.Client.Events.{
  StreamEvent, receive, ConnectionEvent, shutdown_complete, append_buffers, decide, on_stream_event,
  on_connection_event,
}
use lft.Client.Send.{
  Job, Phase, sending_header, waiting_decision, sending_empty, sending_chunk, waiting_ack, returned,
  System, Event, stream_event, connection_event, app, abort_and_fail, begin_send, send_or_abort,
  after_chunks, want, next_chunk, begin_body, decision_wait, resume, is_ready, show, step,
}

pub contains-append : (b : ℕ) (s t : Bytes) → contains b (s ++ t) ≡ (contains b s || contains b t)
unfolding contains
contains-append b [] t = refl
contains-append b (c ∷ s) t = ground (arith, contains-append b s t)

-- The byte is in one of the two texts that the client has gathered.
abbrev pub knows : ℕ → Client → Bool
knows b c = contains b c.decision_buf || contains b c.file_ack

-- The bytes that an event brings.
abbrev pub brought : Event → Bytes
brought (stream_event stream (receive buffers)) = concat buffers
brought _ = []

module _ (b : ℕ) where
  append_buffers-knows :
      (buffers : List Bytes) (c : Client)
      → knows b (append_buffers c buffers) ≡ (knows b c || contains b (concat buffers))
  unfolding append_buffers contains
  append_buffers-knows [] c = ground arith
  append_buffers-knows (x ∷ buffers) c =
      let all = concat (x ∷ buffers) in
      let rest = contains-append b x (concat buffers) in
      if_both (λ d. knows b (append_buffers d buffers) ≡ (knows b c || contains b all))
        c.awaiting_decision
        (append_buffers-knows buffers (record c { decision_buf = c.decision_buf ++ x })
          ∙ ground (arith, contains-append b c.decision_buf x, rest))
        (append_buffers-knows buffers (record c { file_ack = c.file_ack ++ x })
          ∙ ground (arith, contains-append b c.file_ack x, rest))

  decide-knows : (c : Client) → knows b (decide c) ≡ knows b c
  unfolding decide
  decide-knows c = ground arith

  on_stream_event-knows :
      (c : Client) (stream : ℕ) (e : StreamEvent)
      → knows b (on_stream_event c stream e)
        ≡ (knows b c || contains b (brought (stream_event stream e)))
  unfolding on_stream_event contains
  on_stream_event-knows c stream (receive buffers) =
      decide-knows (append_buffers c buffers) ∙ append_buffers-knows buffers c
  on_stream_event-knows c stream _ = ground arith

  on_connection_event-knows :
      (c : Client) (connection : ℕ) (e : ConnectionEvent)
      → knows b (on_connection_event c connection e) ≡ knows b c
  unfolding on_connection_event
  on_connection_event-knows c connection (shutdown_complete closing) = ground arith
  on_connection_event-knows c connection _ = ground arith

  abbrev Keeps : Client → System → Type 0
  Keeps c y = knows b y.client ≡ knows b c

  abort-Keeps : (c d : Client) → knows b d ≡ knows b c → Keeps c (abort_and_fail d)
  unfolding abort_and_fail
  abort-Keeps c d h = ground (arith, h)

  send_or_abort-Keeps :
      (env : ClientEnv) (c : Client) (d : Bytes) (fin : Bool) (next : Phase)
      → Keeps c (send_or_abort env c d fin next)
  unfolding send_or_abort begin_send
  send_or_abort-Keeps env c d fin next =
      if_both (Keeps c) (not (env.send_ok c.calls)) (abort-Keeps c (begin_send env c d fin).0 refl)
        refl

  after_chunks-Keeps : (job : Job) (sent : ℕ) (c : Client) → Keeps c (after_chunks job sent c)
  unfolding after_chunks
  after_chunks-Keeps job sent c =
      if_both (Keeps c) (not (sent == job.file_size)) (abort-Keeps c c refl) refl

  next_chunk-Keeps :
      (env : ClientEnv) (job : Job) (sent : ℕ) (c : Client) → Keeps c (next_chunk env job sent c)
  unfolding next_chunk
  next_chunk-Keeps env job sent c =
      let chunk = env.read job.file_path sent (want job sent) in
      if_both (Keeps c) (not (ltb sent job.file_size)) (after_chunks-Keeps job sent c) (
        if_both (Keeps c) (length chunk == 0) (after_chunks-Keeps job sent c)
          (send_or_abort-Keeps env c chunk _ _))

  show-knows :
      (job : Job) (done total : ℕ) (c : Client) → knows b (show job done total c) ≡ knows b c
  show-knows job done total c = if_both (λ d. knows b d ≡ knows b c) job.on_progress refl refl

  decision-Keeps : (env : ClientEnv) (job : Job) (c : Client) → Keeps c (decision_wait env job c)
  unfolding decision_wait begin_body
  decision-Keeps env job c = if_both (Keeps c) (not c.decision_ready) (abort-Keeps c c refl) (
      if_both (Keeps c) (not c.decision_accepted)
        (abort-Keeps c (record c { rejected = true }) refl)
        (if_both (Keeps c) (job.file_size == 0) (send_or_abort-Keeps env c [] true sending_empty) (
          if_both (Keeps c) (not (env.open_ok job.file_path)) (abort-Keeps c c refl)
            (next_chunk-Keeps env job 0 c))))

  resume-Keeps :
      (env : ClientEnv) (job : Job) (p : Phase) (c : Client) → Keeps c (resume env job p c)
  unfolding resume
  resume-Keeps env job sending_header c =
      if_both (Keeps c) (not c.send_done) (abort-Keeps c c refl) refl
  resume-Keeps env job waiting_decision c = decision-Keeps env job c
  resume-Keeps env job sending_empty c =
      if_both (Keeps c) (not c.send_done) (abort-Keeps c c refl) (show-knows job 0 0 c)
  resume-Keeps env job (sending_chunk sent) c =
      if_both (Keeps c) (not c.send_done) (abort-Keeps c c refl) (
        next_chunk-Keeps env job sent (show job sent job.header.size c)
        ∙ show-knows job sent job.header.size c)
  resume-Keeps env job waiting_ack c = refl
  resume-Keeps env job (returned result) c = refl

  -- A step of the sender brings no byte to its knowledge but those of the event.
  pub step-knows :
      (env : ClientEnv) (job : Job) (y : System) (e : Event)
      → knows b (step env job y e).client ≡ (knows b y.client || contains b (brought e))
  unfolding step contains
  step-knows env job y (stream_event stream e) = on_stream_event-knows y.client stream e
  step-knows env job y (connection_event connection e) =
      on_connection_event-knows y.client connection e ∙ ground arith
  step-knows env job y (app timed_out) =
      if_both (λ (z : System). knows b z.client ≡ (knows b y.client || false))
        (is_ready y.phase y.client || timed_out)
        (resume-Keeps env job y.phase y.client ∙ ground arith) (ground arith)
