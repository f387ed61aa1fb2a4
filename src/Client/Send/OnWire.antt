-- ===== src/Client/Send/OnWire.antt =====
-- Every step of a sender keeps what it has put on its stream as it should be.
use lft.Base.{
  ℕ, ◌+◌, ◌-◌, ◌%◌, ◌≤◌, ◌<◌, true, false, List, [], ◌∷◌, ◌++◌, Option, some, ◌≡◌, refl, sym, ap,
  ◌∙◌, arith, Bytes, length, take, drop, length-take, length-drop, take-sum, take-length-take, ltb,
  ==_iff, leb, ◌==◌, append_assoc, append-nil, Bool-cases, inl, inr, if_both, if_cases, not, ◌||◌,
}
use lft.Wire.Number.{u64_mod}
use lft.Client.State.{ClientEnv, Client}
use lft.Client.Events.{says_accept}
use lft.Client.Replay.{Outgoing, replay}
use lft.Client.Send.{
  Job, Phase, sending_header, waiting_decision, sending_empty, sending_chunk, waiting_ack, returned,
  System, Event, stream_event, connection_event, app, begin_send, want, next_chunk, show,
  begin_body, decision_wait, resume, step, run, send_file_internal, open_stream,
}
use lft.Client.Send.Opening.{cleared, replay-begin_send, open_stream-IsHonest, open_stream-opens}
use lft.Client.Send.Callbacks.{IsHonest, on_stream_event-Grows, on_connection_event-Grows}
use lft.Client.Send.Sent.{
  Reads, text, HasSentUpTo, OnWire, IsSending, Grows-IsSending, fail-IsSending,
  abort_and_fail-IsSending, send_or_abort-IsSending, HasSentUpTo-HasSentAll, after_chunks-IsSending,
}

module _ (job : Job) (content : Bytes) (env : ClientEnv) (reads : Reads env job.file_path content)
    (fits : job.file_size < u64_mod) where
  want_le : (sent : ℕ) → want job sent ≤ job.file_size - sent
  want_le sent = ground arith

  -- One chunk more.
  begin_chunk :
      (sent : ℕ) (c : Client)
      → HasSentUpTo job content sent c
      → sent < job.file_size
      → let chunk = env.read job.file_path sent (want job sent) in
        let more = (sent + length chunk) % u64_mod in
        HasSentUpTo job content more (begin_send env c chunk (leb job.file_size more)).0
  unfolding begin_send
  begin_chunk sent c v more_left =
      let w = want job sent in
      let rest = drop sent content in
      let sum : (sent + length (take w rest)) % u64_mod ≡ sent + length (take w rest) =
        omega (arith, want_le sent, length-take w rest) in
      let still_open : replay c.calls ≡ some ((text job content) ++ take sent content, false) =
        v.on_stream ∙ (let e : leb job.file_size sent ≡ false = ground arith in rw e refl) in
      let bytes : take (sent + length (take w rest)) content ≡ take sent content ++ take w rest =
        take-sum sent (length (take w rest)) content
        ∙ ap (take sent content ++◌) (take-length-take w rest) in
      let whole_text : ((text job content) ++ take sent content) ++ take w rest
          ≡ (text job content) ++ take (sent + length (take w rest)) content =
        append_assoc (text job content) (take sent content) (take w rest)
        ∙ ap ((text job content) ++◌) (sym bytes) in
      rw (reads sent w, sum)
        (record {
          on_stream =
              replay-begin_send env c _ (take w rest) _ still_open
              ∙ ap {B = Option Outgoing}
                  (λ (x : Bytes). some (x, leb job.file_size (sent + length (take w rest))))
                  whole_text;
          within = omega (arith, want_le sent, length-take w rest);
          read_within = omega (arith, length-take w rest, length-drop sent content);
          after_accept = v.after_accept;
        })

  next_chunk-IsSending :
      (sent : ℕ) (c : Client)
      → IsHonest c
      → HasSentUpTo job content sent c
      → IsSending job content (next_chunk env job sent c)
  unfolding next_chunk OnWire
  next_chunk-IsSending sent c h v = elim (Bool-cases (ltb sent job.file_size)) [
    | inr e ↦ rw e (after_chunks-IsSending job content sent c h v)
    | inl e ↦ rw e (
        if_both (IsSending job content) (length (env.read job.file_path sent (want job sent)) == 0)
          (after_chunks-IsSending job content sent c h v)
          (send_or_abort-IsSending job content env c _ _ _ h (begin_chunk sent c v (ground arith))))
  ]

  begin_empty :
      (c : Client)
      → replay c.calls ≡ some ((text job content), false)
      → says_accept c ≡ true
      → job.file_size ≡ 0
      → OnWire job content sending_empty (begin_send env c [] true).0
  unfolding OnWire begin_send
  begin_empty c v a e = (
    record {
      on_stream = replay-begin_send env c (text job content) [] true v ∙ rw (e, append-nil) refl;
      within = omega arith;
      read_within = omega arith;
      after_accept = a;
    },
    e,
  )

  begin_body-IsSending :
      (c : Client)
      → IsHonest c
      → replay c.calls ≡ some ((text job content), false)
      → says_accept c ≡ true
      → IsSending job content (begin_body env job c)
  unfolding begin_body
  begin_body-IsSending c h v a = elim (Bool-cases (job.file_size == 0)) [
    | inl e ↦ rw e (
        send_or_abort-IsSending job content env c [] true sending_empty h
          (begin_empty c v a ((==_iff job.file_size 0).0 e)))
    | inr e ↦ rw e (
        if_both (IsSending job content) (not (env.open_ok job.file_path))
          (abort_and_fail-IsSending job content c h)
          (next_chunk-IsSending 0 c h (record {
            on_stream =
                v ∙ (let l : leb job.file_size 0 ≡ false = ground arith in rw (l, append-nil) refl);
            within = omega arith;
            read_within = omega arith;
            after_accept = a;
          })))
  ]

  decision_wait-IsSending :
      (c : Client)
      → IsHonest c
      → replay c.calls ≡ some ((text job content), false)
      → IsSending job content (decision_wait env job c)
  unfolding decision_wait
  decision_wait-IsSending c h v =
      let refused : IsHonest (record c { rejected = true }) = record {
        accepted = h.accepted;
        acknowledged = h.acknowledged;
      } in
      if_both (IsSending job content) (not c.decision_ready)
        (abort_and_fail-IsSending job content c h)
        (if_cases (IsSending job content) (not c.decision_accepted)
          (λ e. abort_and_fail-IsSending job content (record c { rejected = true }) refused)
          (λ e. begin_body-IsSending c h v (h.accepted (ground arith))))

  show-IsSending :
      (n m : ℕ) (c : Client) (p : Phase)
      → IsSending job content (record { client = c; phase = p })
      → IsSending job content (record { client = show job n m c; phase = p })
  show-IsSending n m c p v =
      if_both (λ d. IsSending job content (record { client = d; phase = p })) job.on_progress
        (Grows-IsSending job content p c _
          (record {
            same_replay = refl;
            accepts = λ h. h;
            acknowledges = λ h. h;
            same_rejected = refl;
            honest = λ h. record { accepted = h.accepted; acknowledged = h.acknowledged };
          })
          v)
        v

  resume-IsSending :
      (p : Phase) (c : Client)
      → IsSending job content (record { client = c; phase = p })
      → IsSending job content (resume env job p c)
  unfolding resume OnWire
  resume-IsSending sending_header c v =
      if_both (IsSending job content) (not c.send_done)
        (abort_and_fail-IsSending job content c v.honest)
        (record { on_wire = v.on_wire; honest = v.honest })
  resume-IsSending waiting_decision c v = decision_wait-IsSending c v.honest v.on_wire
  resume-IsSending sending_empty c v =
      if_both (IsSending job content) (not c.send_done)
        (abort_and_fail-IsSending job content c v.honest)
        (show-IsSending 0 0 c waiting_ack (record {
          on_wire = HasSentUpTo-HasSentAll job content 0 c v.on_wire.0 (sym v.on_wire.1);
          honest = v.honest;
        }))
  resume-IsSending (sending_chunk sent) c v =
      let shown = show-IsSending sent job.header.size c (sending_chunk sent) v in
      if_both (IsSending job content) (not c.send_done)
        (abort_and_fail-IsSending job content c v.honest)
        (next_chunk-IsSending sent _ shown.honest shown.on_wire)
  resume-IsSending waiting_ack c v = record {
    on_wire = λ e. (v.on_wire, v.honest.acknowledged (ground arith));
    honest = v.honest;
  }
  resume-IsSending (returned result) c v = v

  step-IsSending :
      (y : System) (e : Event) → IsSending job content y → IsSending job content (step env job y e)
  unfolding step
  step-IsSending y (stream_event stream e) v =
      Grows-IsSending job content y.phase _ _ (on_stream_event-Grows y.client stream e) v
  step-IsSending y (connection_event connection e) v =
      Grows-IsSending job content y.phase _ _ (on_connection_event-Grows y.client connection e) v
  step-IsSending y (app timed_out) v =
      if_both (IsSending job content) _ (resume-IsSending y.phase y.client v) v

  pub run-IsSending :
      (es : List Event) (y : System)
      → IsSending job content y
      → IsSending job content (run env job y es)
  unfolding run
  run-IsSending [] y v = v
  run-IsSending (e ∷ es) y v = run-IsSending es (step env job y e) (step-IsSending y e v)

  -- From any state of the client.
  pub send_file_internal-IsSending :
      (c : Client) → IsHonest c → IsSending job content (send_file_internal env job c)
  unfolding send_file_internal OnWire
  send_file_internal-IsSending c h =
      let reset = cleared c in
      let clean : IsHonest reset = record {
        accepted = λ e. absurd (ground arith);
        acknowledged = λ e. absurd (ground arith);
      } in
      let opened = open_stream-IsHonest env reset clean in
      let armed = record ((open_stream env reset).0) { awaiting_decision = true } in
      if_both (IsSending job content) (not c.connected || (c.connection == 0 || not c.api))
        (fail-IsSending job content c h)
        (if_cases (IsSending job content) (not (open_stream env reset).1)
          (λ e. fail-IsSending job content _ opened)
          (λ e.
            send_or_abort-IsSending job content env armed (text job content) false sending_header
              (record { accepted = opened.accepted; acknowledged = opened.acknowledged })
              (replay-begin_send env armed [] (text job content) false
                (open_stream-opens env reset (ground arith)))))
