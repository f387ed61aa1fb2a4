-- ===== src/Client/Send/Termination.antt =====
-- `send_file_internal` returns, whatever the receiver and msquic do: each wait has a timeout.
use lft.Base.{
  ℕ, suc, ◌+◌, ◌-◌, ◌≤◌, ◌<◌, Bool, true, false, List, [], ◌∷◌, ◌≡◌, refl, arith, Bytes, length,
  if_both, if_cases, not, ◌||◌, ◌==◌, ltb,
}
use lft.Wire.Number.{u64_mod}
use lft.Client.State.{ClientEnv, Client}
use lft.Client.Send.{
  Job, Phase, sending_header, waiting_decision, sending_empty, sending_chunk, waiting_ack, returned,
  System, Event, stream_event, connection_event, app, fail, abort_and_fail, send_or_abort,
  begin_send, after_chunks, want, next_chunk, begin_body, decision_wait, resume, is_ready, step,
  run, send_file_internal, open_stream,
}
use lft.Client.Send.Opening.{cleared}

-- `gcount()` is at most the count that `read` was asked for.
abbrev pub IsBounded : ClientEnv → Bytes → Type 0
IsBounded env path = (offset want : ℕ) → length (env.read path offset want) ≤ want

-- How often the time of a wait ran out.
abbrev pub timeouts : List Event → ℕ
timeouts [] = 0
timeouts (app true ∷ es) = suc (timeouts es)
timeouts (e ∷ es) = timeouts es

module _ (env : ClientEnv) (job : Job) (bounded : IsBounded env job.file_path)
    (fits : job.file_size < u64_mod) where
  -- At most as many waits are left.
  abbrev waits_left : Phase → ℕ
  waits_left sending_header = job.file_size + 4
  waits_left waiting_decision = job.file_size + 3
  waits_left sending_empty = 2
  waits_left (sending_chunk sent) = job.file_size - sent + 2
  waits_left waiting_ack = 1
  waits_left (returned result) = 0

  abbrev Within : ℕ → System → Type 0
  Within n y = waits_left y.phase ≤ n

  abort-le : (n : ℕ) (c : Client) → Within n (abort_and_fail c)
  unfolding abort_and_fail fail
  abort-le n c = omega arith

  send_or_abort-le :
      (n : ℕ) (c : Client) (d : Bytes) (fin : Bool) (next : Phase)
      → waits_left next ≤ n
      → Within n (send_or_abort env c d fin next)
  unfolding send_or_abort begin_send
  send_or_abort-le n c d fin next h =
      if_both (Within n) (not (env.send_ok c.calls)) (abort-le n (begin_send env c d fin).0) h

  after_chunks-le : (n sent : ℕ) (c : Client) → 1 ≤ n → Within n (after_chunks job sent c)
  unfolding after_chunks
  after_chunks-le n sent c h = if_both (Within n) (not (sent == job.file_size)) (abort-le n c) h

  want_le : (sent : ℕ) → want job sent ≤ job.file_size - sent
  want_le sent = ground arith

  next_chunk-le :
      (sent : ℕ) (c : Client) → Within (job.file_size - sent + 1) (next_chunk env job sent c)
  unfolding next_chunk
  next_chunk-le sent c =
      let n = job.file_size - sent + 1 in
      let chunk = env.read job.file_path sent (want job sent) in
      let small = bounded sent (want job sent) in
      let done = after_chunks-le n sent c (omega arith) in
      if_cases (Within n) (not (ltb sent job.file_size)) (λ e. done)
        (λ more.
          if_cases (Within n) (length chunk == 0) (λ e. done)
            (λ some.
              let left : sent < job.file_size = ground arith in
              let positive : 0 < length chunk = ground arith in
              send_or_abort-le n c chunk _ _
                (omega (arith, small, want_le sent, left, positive, fits))))

  begin_body-le : (c : Client) → Within (job.file_size + 2) (begin_body env job c)
  unfolding begin_body
  begin_body-le c =
      let n = job.file_size + 2 in
      if_both (Within n) (job.file_size == 0)
        (send_or_abort-le n c [] true sending_empty (omega arith))
        (if_both (Within n) (not (env.open_ok job.file_path)) (abort-le n c)
          (omega (arith, next_chunk-le 0 c)))

  resume-le : (p : Phase) (c : Client) → Within (waits_left p - 1) (resume env job p c)
  unfolding resume decision_wait
  resume-le sending_header c =
      if_both (Within (job.file_size + 4 - 1)) (not c.send_done) (abort-le _ c) (omega arith)
  resume-le waiting_decision c =
      let n = job.file_size + 3 - 1 in
      if_both (Within n) (not c.decision_ready) (abort-le n c) (
        if_both (Within n) (not c.decision_accepted) (abort-le n (record c { rejected = true }))
          (omega (arith, begin_body-le c)))
  resume-le sending_empty c =
      if_both (Within (2 - 1)) (not c.send_done) (abort-le _ c) (omega arith)
  resume-le (sending_chunk sent) c =
      if_both (Within (job.file_size - sent + 2 - 1)) (not c.send_done) (abort-le _ c)
        (omega (arith, next_chunk-le sent _))
  resume-le waiting_ack c = omega arith
  resume-le (returned result) c = omega arith

  step-le :
      (y : System) (e : Event)
      → waits_left (step env job y e).phase ≤ waits_left y.phase - timeouts (e ∷ [])
  unfolding step
  step-le y (stream_event stream e) = omega arith
  step-le y (connection_event connection e) = omega arith
  step-le y (app true) =
      if_cases (Within (waits_left y.phase - 1)) (is_ready y.phase y.client || true)
        (λ e. resume-le y.phase y.client) (λ e. absurd (ground arith))
  step-le y (app false) =
      if_both (Within (waits_left y.phase - 0)) (is_ready y.phase y.client || false)
        (omega (arith, resume-le y.phase y.client)) (omega arith)

  timeouts-cons :
      (e : Event) (es : List Event) → timeouts (e ∷ es) ≡ timeouts (e ∷ []) + timeouts es
  timeouts-cons (stream_event stream e) es = omega arith
  timeouts-cons (connection_event connection e) es = omega arith
  timeouts-cons (app true) es = omega arith
  timeouts-cons (app false) es = omega arith

  run-le :
      (es : List Event) (y : System)
      → waits_left (run env job y es).phase ≤ waits_left y.phase - timeouts es
  unfolding run
  run-le [] y = omega arith
  run-le (e ∷ es) y = omega (arith, timeouts-cons e es, step-le y e, run-le es (step env job y e))

  returned_of_le : (p : Phase) → waits_left p ≤ 0 → (result : Bool) × (p ≡ returned result)
  returned_of_le sending_header h = absurd (omega arith)
  returned_of_le waiting_decision h = absurd (omega arith)
  returned_of_le sending_empty h = absurd (omega arith)
  returned_of_le (sending_chunk sent) h = absurd (omega arith)
  returned_of_le waiting_ack h = absurd (omega arith)
  returned_of_le (returned result) h = (result, refl)

  send_file_internal-le : (c : Client) → Within (job.file_size + 4) (send_file_internal env job c)
  unfolding send_file_internal fail
  send_file_internal-le c =
      let n = job.file_size + 4 in
      let o = (open_stream env (cleared c)).0 in
      if_both (Within n) (not c.connected || (c.connection == 0 || not c.api)) (omega arith) (
        if_both (Within n) (not (open_stream env (cleared c)).1) (omega arith) (
          send_or_abort-le n (record o { awaiting_decision = true }) _ false sending_header
            (omega arith)))

  -- Whatever the receiver and msquic do: when the time of `file_size + 4` waits has run out, if not
  -- before, `send_file_internal` has returned.
  pub run_returns :
      (c : Client) (es : List Event)
      → job.file_size + 4 ≤ timeouts es
      → (result : Bool) × ((run env job (send_file_internal env job c) es).phase ≡ returned result)
  run_returns c es h =
      let y = send_file_internal env job c in
      returned_of_le _ (omega (arith, h, run-le es y, send_file_internal-le c))
