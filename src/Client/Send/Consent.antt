-- ===== src/Client/Send/Consent.antt =====
-- No byte of a file leaves before the receiver has accepted.
use lft.Base.{
  ℕ, Bool, true, false, List, [], ◌∷◌, ◌++◌, some, ◌≡◌, ◌⊎◌, inl, inr, refl, ◌∙◌, arith, Bytes,
  if_both, if_cases, not, ◌||◌, ◌==◌, Option-cases,
}
use lft.Wire.Header.{encode_file_header}
use lft.Msquic.{stream_send, stream_abort, stream_open, stream_start, stream_close}
use lft.Client.State.{ClientEnv, Client, call}
use lft.Client.Events.{says_accept}
use lft.Client.Replay.{replay, replay-snoc, after}
use lft.Client.Send.{
  Job, Phase, sending_header, waiting_decision, sending_empty, sending_chunk, waiting_ack, returned,
  System, Event, stream_event, connection_event, app, abort_stream, begin_send, fail,
  abort_and_fail, send_or_abort, after_chunks, next_chunk, show, begin_body, decision_wait, resume,
  is_ready, step, run, send_file_internal, open_stream,
}
use lft.Client.Send.Opening.{
  cleared, replay-begin_send, open_stream-IsHonest, open_stream-opens, open_stream-rejected,
}
use lft.Client.Send.Callbacks.{Grows, IsHonest, on_stream_event-Grows, on_connection_event-Grows}

module _ (env : ClientEnv) (job : Job) (start : Client) where
  -- The client has put nothing but the header on a stream since `start`.
  abbrev pub IsQuiet : Client → Type 0
  IsQuiet c =
      (replay c.calls ≡ replay start.calls)
      ⊎ ((replay c.calls ≡ some ([], false))
          ⊎ (replay c.calls ≡ some (encode_file_header job.header, false)))

  -- "ACCEPT" has come, and the transfer is not reported as rejected.
  abbrev pub IsAccepted : Client → Type 0
  IsAccepted c = (says_accept c ≡ true) × (c.rejected ≡ false)

  unfoldable Stage : Phase → Client → Type 0
  Stage sending_header c = IsQuiet c × (c.rejected ≡ false)
  Stage waiting_decision c = IsQuiet c × (c.rejected ≡ false)
  Stage sending_empty c = IsAccepted c
  Stage (sending_chunk sent) c = IsAccepted c
  Stage waiting_ack c = IsAccepted c
  Stage (returned result) c = IsQuiet c ⊎ IsAccepted c

  Stage-Grows : (p : Phase) (c d : Client) → Grows c d → Stage p c → Stage p d
  unfolding Stage
  Stage-Grows sending_header c d g v = ground (arith, g.same_replay, g.same_rejected)
  Stage-Grows waiting_decision c d g v = ground (arith, g.same_replay, g.same_rejected)
  Stage-Grows sending_empty c d g v = (g.accepts v.0, g.same_rejected ∙ v.1)
  Stage-Grows (sending_chunk sent) c d g v = (g.accepts v.0, g.same_rejected ∙ v.1)
  Stage-Grows waiting_ack c d g v = (g.accepts v.0, g.same_rejected ∙ v.1)
  Stage-Grows (returned result) c d g (inl v) = inl (ground (arith, g.same_replay))
  Stage-Grows (returned result) c d g (inr v) = inr (g.accepts v.0, g.same_rejected ∙ v.1)

  -- Both at a time.
  record IsStaged (y : System) : Type 0 where
    stage : Stage y.phase y.client
    honest : IsHonest y.client

  -- The end of a failed transfer.
  abort-IsQuiet : (c : Client) → IsQuiet c → IsQuiet (abort_stream c)
  unfolding abort_stream after
  abort-IsQuiet c v = ground (arith, replay-snoc c.calls (stream_abort c.stream))

  abort-same :
      (c : Client)
      → ((abort_stream c).decision_buf ≡ c.decision_buf)
        × ((abort_stream c).rejected ≡ c.rejected)
        × (IsHonest c → IsHonest (abort_stream c))
  unfolding abort_stream
  abort-same c = (ground arith, ground arith, λ h. ground (arith, h))

  quiet_fail : (c : Client) → IsQuiet c → IsHonest c → IsStaged (abort_and_fail c)
  unfolding Stage abort_and_fail fail
  quiet_fail c v h = record { stage = inl (abort-IsQuiet c v); honest = (abort-same c).2 h }

  accepted_fail : (c : Client) → IsAccepted c → IsHonest c → IsStaged (abort_and_fail c)
  unfolding Stage abort_and_fail fail abort_stream
  accepted_fail c v h = record { stage = inr (ground arith); honest = (abort-same c).2 h }

  accepted_send :
      (c : Client) (d : Bytes) (fin : Bool) (next : Phase)
      → ((b : Client) → IsAccepted b → Stage next b)
      → IsAccepted c
      → IsHonest c
      → IsStaged (send_or_abort env c d fin next)
  unfolding send_or_abort begin_send
  accepted_send c d fin next k v h =
      let sent = call (stream_send c.stream d fin) (record c { send_done = false }) in
      let sent-IsHonest : IsHonest sent = record {
        accepted = h.accepted;
        acknowledged = h.acknowledged;
      } in
      if_both IsStaged (not (env.send_ok c.calls)) (accepted_fail sent (v.0, v.1) sent-IsHonest)
        (record { stage = k sent (v.0, v.1); honest = sent-IsHonest })

  accepted_end :
      (sent : ℕ) (c : Client) → IsAccepted c → IsHonest c → IsStaged (after_chunks job sent c)
  unfolding after_chunks Stage
  accepted_end sent c v h =
      if_both IsStaged (not (sent == job.file_size)) (accepted_fail c v h)
        (record { stage = v; honest = h })

  accepted_chunk :
      (sent : ℕ) (c : Client) → IsAccepted c → IsHonest c → IsStaged (next_chunk env job sent c)
  unfolding next_chunk Stage
  accepted_chunk sent c v h =
      if_both IsStaged _ (accepted_end sent c v h)
        (if_both IsStaged _ (accepted_end sent c v h) (accepted_send c _ _ _ (λ b a. a) v h))

  accepted_body : (c : Client) → IsAccepted c → IsHonest c → IsStaged (begin_body env job c)
  unfolding begin_body Stage
  accepted_body c v h =
      if_both IsStaged (job.file_size == 0) (accepted_send c [] true sending_empty (λ b a. a) v h) (
        if_both IsStaged (not (env.open_ok job.file_path)) (accepted_fail c v h)
          (accepted_chunk 0 c v h))

  show-same :
      (n m : ℕ) (c : Client)
      → IsAccepted c × IsHonest c
      → IsAccepted (show job n m c) × IsHonest (show job n m c)
  show-same n m c (v, h) =
      if_both (λ d. IsAccepted d × IsHonest d) job.on_progress
        ((v.0, v.1), record { accepted = h.accepted; acknowledged = h.acknowledged }) (v, h)

  resume-IsStaged :
      (p : Phase) (c : Client) → Stage p c → IsHonest c → IsStaged (resume env job p c)
  unfolding resume decision_wait Stage
  resume-IsStaged sending_header c v h =
      if_both IsStaged (not c.send_done) (quiet_fail c v.0 h) (record { stage = v; honest = h })
  resume-IsStaged waiting_decision c v h =
      if_both IsStaged (not c.decision_ready) (quiet_fail c v.0 h) (
        if_cases IsStaged (not c.decision_accepted)
          (λ e.
            quiet_fail (record c { rejected = true }) v.0
              (record { accepted = h.accepted; acknowledged = h.acknowledged }))
          (λ e. accepted_body c (h.accepted (ground arith), v.1) h))
  resume-IsStaged sending_empty c v h =
      let shown = show-same 0 0 c (v, h) in
      if_both IsStaged (not c.send_done) (accepted_fail c v h)
        (record { stage = shown.0; honest = shown.1 })
  resume-IsStaged (sending_chunk sent) c v h =
      let shown = show-same sent job.header.size c (v, h) in
      if_both IsStaged (not c.send_done) (accepted_fail c v h)
        (accepted_chunk sent _ shown.0 shown.1)
  resume-IsStaged waiting_ack c v h = record { stage = inr v; honest = h }
  resume-IsStaged (returned result) c v h = record { stage = v; honest = h }

  step-IsStaged : (y : System) (e : Event) → IsStaged y → IsStaged (step env job y e)
  unfolding step
  step-IsStaged y (stream_event stream e) v =
      let g = on_stream_event-Grows y.client stream e in
      record { stage = Stage-Grows y.phase _ _ g v.stage; honest = g.honest v.honest }
  step-IsStaged y (connection_event connection e) v =
      let g = on_connection_event-Grows y.client connection e in
      record { stage = Stage-Grows y.phase _ _ g v.stage; honest = g.honest v.honest }
  step-IsStaged y (app timed_out) v =
      if_both IsStaged (is_ready y.phase y.client || timed_out)
        (resume-IsStaged y.phase y.client v.stage v.honest) v

  run-IsStaged : (es : List Event) (y : System) → IsStaged y → IsStaged (run env job y es)
  unfolding run
  run-IsStaged [] y v = v
  run-IsStaged (e ∷ es) y v = run-IsStaged es (step env job y e) (step-IsStaged y e v)

  open_stream-IsQuiet :
      (c : Client) → replay c.calls ≡ replay start.calls → IsQuiet (open_stream env c).0
  unfolding open_stream after
  open_stream-IsQuiet c v = elim (Option-cases (env.stream_open_handle c.calls)) [
    | inl e ↦ ground (arith, v)
    | inr (stream, e) ↦
        let opened = c.calls ++ stream_open stream ∷ [] in
        ground (
          arith,
          replay-snoc opened (stream_start stream),
          replay-snoc (opened ++ stream_start stream ∷ []) (stream_close stream),
        )
  ]

  Stage-cases : (p : Phase) (c : Client) → Stage p c → IsQuiet c ⊎ IsAccepted c
  unfolding Stage
  Stage-cases sending_header c v = inl v.0
  Stage-cases waiting_decision c v = inl v.0
  Stage-cases sending_empty c v = inr v
  Stage-cases (sending_chunk sent) c v = inr v
  Stage-cases waiting_ack c v = inr v
  Stage-cases (returned result) c v = v

  -- The header's send, with its failure.
  quiet_send :
      (c : Client)
      → replay c.calls ≡ some ([], false)
      → c.rejected ≡ false
      → IsHonest c
      → IsStaged (send_or_abort env c (encode_file_header job.header) false sending_header)
  unfolding send_or_abort begin_send Stage
  quiet_send c v r h =
      let text = encode_file_header job.header in
      let sent = call (stream_send c.stream text false) (record c { send_done = false }) in
      let sent-IsHonest : IsHonest sent = record {
        accepted = h.accepted;
        acknowledged = h.acknowledged;
      } in
      let quiet : IsQuiet sent = inr (inr (replay-begin_send env c [] text false v)) in
      if_both IsStaged (not (env.send_ok c.calls)) (quiet_fail sent quiet sent-IsHonest)
        (record { stage = (quiet, r); honest = sent-IsHonest })

  quiet_end : (c : Client) → IsQuiet c → IsHonest c → IsStaged (fail c)
  unfolding fail Stage
  quiet_end c v h = record { stage = inl v; honest = h }

  send_file_internal-IsStaged : IsHonest start → IsStaged (send_file_internal env job start)
  unfolding send_file_internal
  send_file_internal-IsStaged h =
      let reset = cleared start in
      let clean : IsHonest reset = record {
        accepted = λ e. absurd (ground arith);
        acknowledged = λ e. absurd (ground arith);
      } in
      let opened = open_stream-IsHonest env reset clean in
      let armed = record ((open_stream env reset).0) { awaiting_decision = true } in
      if_both IsStaged (not start.connected || (start.connection == 0 || not start.api))
        (quiet_end start (inl refl) h)
        (if_cases IsStaged (not (open_stream env reset).1)
          (λ e. quiet_end (open_stream env reset).0 (open_stream-IsQuiet reset refl) opened)
          (λ e.
            quiet_send armed (open_stream-opens env reset (ground arith))
              (open_stream-rejected env reset)
              (record { accepted = opened.accepted; acknowledged = opened.acknowledged })))

  -- Whatever the receiver and msquic do, and whatever the files hold: until the receiver has sent
  -- "ACCEPT", at most the header is on the stream; and a transfer that is reported as rejected has
  -- put no byte of the file on it.
  pub run_waits_for_accept :
      (es : List Event)
      → IsHonest start
      → let c = (run env job (send_file_internal env job start) es).client in
        IsQuiet c ⊎ IsAccepted c
  run_waits_for_accept es h =
      let y = send_file_internal env job start in
      let v = run-IsStaged es y (send_file_internal-IsStaged h) in Stage-cases _ _ v.stage
