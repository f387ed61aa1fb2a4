-- ===== src/Client/Send/Completion/Start.antt =====
-- The start of a send that nobody hinders, and its end.
use lft.Base.{
  ℕ, ◌*◌, ◌≤◌, Bool, true, false, not, ◌&&◌, ◌||◌, List, [], ◌∷◌, ◌++◌, ◌≡◌, refl, arith, Bytes,
  codes, contains, starts_with, length, Option-cases, inl, inr, if_cases, ◌==◌, subst, sym, ap, ◌∙◌,
}
use lft.Msquic.{stream_open}
use lft.Client.State.{ClientEnv, Client}
use lft.Client.Events.{receive, append_buffers, decide, on_stream_event}
use lft.Client.Send.{
  Job, sending_header, waiting_decision, sending_empty, returned, System, stream_event, app, job_of,
  send_or_abort, begin_send, begin_body, decision_wait, resume, step, run, send_file, send_measured,
  send_file_internal, open_stream,
}
use lft.Client.Send.Opening.{cleared}
use lft.Client.Send.Completion.{IsWilling, IsMoving, rounds, unhindered, phase_of, run-append}
use lft.Client.Send.Completion.Body.{InBody, queued, next_chunk-InBody, rounds-InBody, acknowledged}

module _ (env : ClientEnv) (path content hash : Bytes) (on_progress : Bool)
    (w : IsWilling env path content hash) where
  abbrev job : Job
  job = job_of path on_progress (length content) hash

  abbrev Sends : ℕ → System → Type 0
  Sends n y = InBody env path content hash on_progress w n y

  -- The header has been handed to msquic.
  record IsOffering (c : Client) : Type 0 where
    awaiting : c.awaiting_decision ≡ true
    unread : c.decision_buf ≡ []
    unanswered : c.file_ack ≡ []
    unfinished : c.file_done ≡ false

  stream_opened :
      (c : Client)
      → let (o, opened) = open_stream env c in
        (opened ≡ true)
        × ((o.decision_buf ≡ c.decision_buf)
            × ((o.file_ack ≡ c.file_ack) × (o.file_done ≡ c.file_done)))
  unfolding open_stream
  stream_opened c = elim (Option-cases (env.stream_open_handle c.calls)) [
    | inl e ↦ absurd (ground (arith, w.opens c.calls))
    | inr (stream, e) ↦ ground (arith, e, w.starts (c.calls ++ stream_open stream ∷ []))
  ]

  abbrev Offers : System → Type 0
  Offers y = (y.phase ≡ sending_header) × IsOffering y.client

  internal-Offers :
      (c : Client)
      → (c.connected && (not (c.connection == 0) && c.api)) ≡ true
      → Offers (send_file_internal env job c)
  unfolding send_file_internal send_or_abort begin_send
  internal-Offers c online =
      let o = (open_stream env (cleared c)).0 in
      let (opened, (unread, (unanswered, unfinished))) = stream_opened (cleared c) in
      if_cases Offers (not c.connected || (c.connection == 0 || not c.api))
        (λ e. absurd (ground arith))
        (λ e.
          if_cases Offers (not (open_stream env (cleared c)).1)
            (λ f. absurd (ground (arith, opened)))
            (λ f.
              if_cases Offers (not (env.send_ok o.calls))
                (λ g. absurd (ground (arith, w.sends o.calls)))
                (λ g. (
                  refl,
                  record {
                    awaiting = refl;
                    unread = unread;
                    unanswered = unanswered;
                    unfinished = unfinished;
                  },
                ))))

  offering :
      (c : Client)
      → (c.connected && (not (c.connection == 0) && c.api)) ≡ true
      → let y = send_file env path on_progress c in (y.phase ≡ sending_header) × IsOffering y.client
  unfolding send_file send_measured
  offering c online =
      if_cases Offers (not c.connected || (c.connection == 0 || not c.api))
        (λ e. absurd (ground arith))
        (λ e.
          rw (w.there, w.no_directory, w.regular, w.measured, w.hashed) (internal-Offers c online))

  accepted :
      (stream : ℕ) (c : Client)
      → IsOffering c
      → let d =
          on_stream_event
            (record c { send_done = true })
            stream
            (receive (codes "ACCEPT\n" ∷ [])) in
        (d.decision_ready ≡ true) × ((d.decision_accepted ≡ true) × IsMoving d)
  unfolding on_stream_event append_buffers decide contains starts_with
  accepted stream c o =
      rw (o.awaiting, o.unread)
        (
          refl,
          (refl, record { decided = refl; unanswered = o.unanswered; unfinished = o.unfinished }),
        )

  begin_body-InBody :
      (n : ℕ) (c : Client)
      → 1 ≤ n
      → (length content) ≤ 65536 * n
      → IsMoving c
      → Sends n (begin_body env job c)
  unfolding begin_body
  begin_body-InBody n c positive enough m =
      if_cases (Sends n) ((length content) == 0)
        (λ e.
          queued env path content hash on_progress w n c [] true sending_empty m
            (positive, ground arith))
        (λ e.
          if_cases (Sends n) (not (env.open_ok path)) (λ closed. absurd (ground (arith, w.opened)))
            (λ there.
              next_chunk-InBody env path content hash on_progress w n 0 c (omega arith)
                (omega arith) m))

  header_sent :
      (stream : ℕ) (c : Client)
      → run env job (record { client = c; phase = sending_header }) (rounds stream 1)
        ≡ record { client = record c { send_done = true }; phase = waiting_decision }
  unfolding run step resume on_stream_event
  header_sent stream c = refl

  decision_came :
      (stream : ℕ) (c : Client) (buffers : List Bytes)
      → let d = on_stream_event c stream (receive buffers) in
        d.decision_ready ≡ true
        → d.decision_accepted ≡ true
        → run env job
            (record { client = c; phase = waiting_decision })
            (stream_event stream (receive buffers) ∷ app false ∷ [])
          ≡ begin_body env job d
  unfolding run step resume decision_wait
  decision_came stream c buffers ready accepts = rw (ready, accepts) refl

  body_begins :
      (n stream : ℕ) (y : System)
      → 1 ≤ n
      → (length content) ≤ 65536 * n
      → Offers y
      → Sends n (
          run env job y (
            rounds stream 1
            ++ stream_event stream (receive (codes "ACCEPT\n" ∷ [])) ∷ app false ∷ []))
  body_begins n stream y positive enough (waits, o) =
      let answer = codes "ACCEPT\n" ∷ [] in
      let c = record (y.client) { send_done = true } in
      let d = on_stream_event c stream (receive answer) in
      let (ready, (accepts, moving)) = accepted stream y.client o in
      let reached : run env job y
            (rounds stream 1 ++ stream_event stream (receive answer) ∷ app false ∷ [])
          ≡ begin_body env job d =
        run-append env job (rounds stream 1) _ y
        ∙ (ap
              (λ p.
                run env job
                  (run env job (record { client = y.client; phase = p }) (rounds stream 1))
                  (stream_event stream (receive answer) ∷ app false ∷ []))
              waits
            ∙ (ap (λ z. run env job z (stream_event stream (receive answer) ∷ app false ∷ []))
                  (header_sent stream y.client)
                ∙ decision_came stream c answer ready accepts)) in
      subst (Sends n) (sym reached) (begin_body-InBody n d positive enough moving)

-- Over an msquic that takes every call and a file that is there and does not change: if the
-- receiver accepts and answers "OK", and as many sends are completed as the file has blocks of
-- 65536 bytes, or one for an empty file, `send_file` returns true, with no wait run out.
pub unhindered-returns :
    (env : ClientEnv) (path content hash : Bytes) (on_progress : Bool) (c : Client) (n stream : ℕ)
    → IsWilling env path content hash
    → (c.connected && (not (c.connection == 0) && c.api)) ≡ true
    → 1 ≤ n
    → length content ≤ 65536 * n
    → let job = job_of path on_progress (length content) hash in
      (run env job (send_file env path on_progress c) (unhindered stream n)).phase ≡ returned true
unhindered-returns env path content hash on_progress c n stream w online positive enough =
    let j = job_of path on_progress (length content) hash in
    let y = send_file env path on_progress c in
    let begun =
      body_begins env path content hash on_progress w n stream y positive enough
        (offering env path content hash on_progress w c online) in
    let sent = rounds-InBody env path content hash on_progress w n stream _ begun in
    let ending = acknowledged env path content hash on_progress w stream _ sent in
    let opening =
      rounds stream 1 ++ stream_event stream (receive (codes "ACCEPT\n" ∷ [])) ∷ app false ∷ [] in
    ap phase_of (run-append env j opening _ y)
    ∙ (ap phase_of (run-append env j (rounds stream n) _ _) ∙ ending)
