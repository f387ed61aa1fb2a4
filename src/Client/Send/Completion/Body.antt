-- ===== src/Client/Send/Completion/Body.antt =====
-- The body of a file, from the receiver's decision to its acknowledgement.
use lft.Base.{
  ℕ, zero, suc, ◌+◌, ◌*◌, ◌%◌, ◌≤◌, Bool, true, false, not, ◌||◌, [], ◌∷◌, ◌≡◌, refl, arith, Bytes,
  codes, length, drop, length-take, length-drop, if_cases, if_both, ltb, ◌==◌, ap, ◌∙◌,
}
use lft.Wire.Number.{u64_mod}
use lft.Client.State.{ClientEnv, Client}
use lft.Client.Events.{receive, peer_send_shutdown, on_stream_event}
use lft.Client.Send.{
  Job, Phase, sending_header, waiting_decision, sending_empty, sending_chunk, waiting_ack, returned,
  System, stream_event, app, job_of, send_or_abort, begin_send, after_chunks, want, next_chunk,
  resume, show, step, run,
}
use lft.Client.Send.Completion.{IsWilling, IsMoving, rounds, receive-ok, shutdown-ok}

module _ (env : ClientEnv) (path content hash : Bytes) (on_progress : Bool)
    (w : IsWilling env path content hash) where
  abbrev pub size : ℕ
  size = length content

  abbrev pub job : Job
  job = job_of path on_progress size hash

  -- At most `k` sends are left to complete.
  abbrev pub AtMost : ℕ → Phase → Type 0
  AtMost k (sending_chunk sent) = (sent ≤ size) × (size + 65536 ≤ sent + 65536 * k)
  AtMost k sending_empty = (1 ≤ k) × (size ≡ 0)
  AtMost k waiting_ack = Unit
  AtMost k _ = ⊥

  pub record InBody (k : ℕ) (y : System) : Type 0 where
    pub left : AtMost k y.phase
    pub moving : IsMoving y.client

  pub queued :
      (k : ℕ) (c : Client) (d : Bytes) (fin : Bool) (next : Phase)
      → IsMoving c
      → AtMost k next
      → InBody k (send_or_abort env c d fin next)
  unfolding send_or_abort begin_send
  queued k c d fin next m h =
      if_cases (InBody k) (not (env.send_ok c.calls))
        (λ e. absurd (ground (arith, w.sends c.calls)))
        (λ e. record {
          left = h;
          moving = record {
            decided = m.decided;
            unanswered = m.unanswered;
            unfinished = m.unfinished;
          };
        })

  chunk-length : (sent : ℕ) → length (env.read path sent (want job sent)) ≡ want job sent
  chunk-length sent =
      let n = want job sent in
      ap length (w.reads sent n)
      ∙ (length-take n (drop sent content)
          ∙ (let left = length-drop sent content in ground (arith, left)))

  after_chunks-InBody : (k : ℕ) (c : Client) → IsMoving c → InBody k (after_chunks job size c)
  unfolding after_chunks
  after_chunks-InBody k c m =
      if_cases (InBody k) (not (size == size)) (λ e. absurd (ground arith))
        (λ e. record { left = tt; moving = m })

  pub next_chunk-InBody :
      (k sent : ℕ) (c : Client)
      → sent ≤ size
      → size ≤ sent + 65536 * k
      → IsMoving c
      → InBody k (next_chunk env job sent c)
  unfolding next_chunk
  next_chunk-InBody k sent c part enough m =
      let chunk = env.read path sent (want job sent) in
      let exact = chunk-length sent in
      if_cases (InBody k) (not (ltb sent size))
        (λ e. let all : sent ≡ size = ground arith in rw all (after_chunks-InBody k c m))
        (λ e.
          if_cases (InBody k) (length chunk == 0) (λ none_read. absurd (ground (arith, exact)))
            (λ some_read.
              let fits = w.size_fits in
              let step_exact : (sent + length chunk) % u64_mod ≡ sent + want job sent =
                ground (arith, exact, fits) in
              queued k c chunk _ _ m (ground (arith, step_exact))))

  shown-IsMoving : (done total : ℕ) (c : Client) → IsMoving c → IsMoving (show job done total c)
  shown-IsMoving done total c m =
      if_both IsMoving on_progress
        (record { decided = m.decided; unanswered = m.unanswered; unfinished = m.unfinished }) m

  completed-IsMoving : (c : Client) → IsMoving c → IsMoving (record c { send_done = true })
  completed-IsMoving c m = record {
    decided = m.decided;
    unanswered = m.unanswered;
    unfinished = m.unfinished;
  }

  -- A round with a send that is completed.
  round-InBody :
      (k stream : ℕ) (c : Client) (p : Phase)
      → IsMoving c
      → AtMost (suc k) p
      → InBody k (run env job (record { client = c; phase = p }) (rounds stream 1))
  unfolding run step resume on_stream_event
  round-InBody k stream c sending_header m h = absurd h
  round-InBody k stream c waiting_decision m h = absurd h
  round-InBody k stream c (returned result) m h = absurd h
  round-InBody k stream c waiting_ack m h =
      if_cases (InBody k) (c.file_done || false) (λ e. absurd (ground (arith, m.unfinished)))
        (λ e. record { left = tt; moving = completed-IsMoving c m })
  round-InBody k stream c sending_empty m h = record {
    left = tt;
    moving = shown-IsMoving 0 0 _ (completed-IsMoving c m);
  }
  round-InBody k stream c (sending_chunk sent) m h =
      next_chunk-InBody k sent _ h.0 (omega (arith, h.1))
        (shown-IsMoving sent size _ (completed-IsMoving c m))

  pub rounds-InBody :
      (n stream : ℕ) (y : System) → InBody n y → InBody 0 (run env job y (rounds stream n))
  unfolding run
  rounds-InBody zero stream y b = b
  rounds-InBody (suc n) stream y b =
      rounds-InBody n stream _ (round-InBody n stream y.client y.phase b.moving b.left)

  waits_for_ack : (p : Phase) → AtMost 0 p → p ≡ waiting_ack
  waits_for_ack sending_header h = absurd h
  waits_for_ack waiting_decision h = absurd h
  waits_for_ack (returned result) h = absurd h
  waits_for_ack waiting_ack h = refl
  waits_for_ack sending_empty h = absurd (omega (arith, h.0))
  waits_for_ack (sending_chunk sent) h = absurd (omega (arith, h.0, h.1))

  ack-returned :
      (c : Client)
      → c.file_done ≡ true
      → c.file_ok ≡ true
      → (step env job (record { client = c; phase = waiting_ack }) (app false)).phase
        ≡ returned true
  unfolding step resume
  ack-returned c done ok = rw (done, ok) refl

  -- The acknowledgement.
  pub acknowledged :
      (stream : ℕ) (y : System)
      → InBody 0 y
      → (run env job y (
          stream_event stream (receive (codes "OK\n" ∷ []))
          ∷ stream_event stream peer_send_shutdown
          ∷ app false
          ∷ [])).phase
        ≡ returned true
  unfolding run step
  acknowledged stream y b =
      let c1 = on_stream_event y.client stream (receive (codes "OK\n" ∷ [])) in
      let c2 = on_stream_event c1 stream peer_send_shutdown in
      let (decided, heard) = receive-ok stream y.client b.moving in
      let (done, ok) = shutdown-ok stream c1 decided heard in
      rw (waits_for_ack y.phase b.left) (ack-returned c2 done ok)
