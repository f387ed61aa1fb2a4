-- ===== src/Server/Session/Consent.antt =====
-- With a prompt registered, the file is not touched before the prompt's answer.
use lft.Base.{
  ℕ, Bool, true, false, List, [], ◌∷◌, some, ◌≡◌, ◌⊎◌, inl, inr, refl, ap, ◌++◌, arith, Bytes,
  Bool-cases, if_both, is_some,
}
use lft.Wire.Header.{FileTransferHeader}
use lft.Server.State.{ServerEnv, Server, new_server}
use lft.Server.Receive.{
  append_body, header_missing, header_arrived, append_file_bytes, finish_file_receive,
}
use lft.Server.Receive.Cases.{buffered, append_file_bytes-cases}
use lft.Server.Events.{
  StreamEvent, receive, peer_send_shutdown, ConnectionEvent, connected, ListenerEvent,
  new_connection, append_all, on_stream_event, on_connection_event, on_listener_event,
}
use lft.Server.Session.{
  Phase, waiting_offer, prompting, System, receive_file, app_step, Event, stream_event,
  connection_event, listener_event, app, step, run,
}

module _ (f : FileTransferHeader → Bool) (disk : Bytes) where
  -- The prompt is registered, and nothing was accepted or written.
  pub record IsUntouched (s : Server) : Type 0 where
    pub prompts : s.file_offer ≡ some f
    pub unaccepted : s.file_accepted ≡ false
    pub same_disk : s.disk ≡ disk

  append_body-IsUntouched :
      (env : ServerEnv) (s : Server) (d : Bytes) → IsUntouched s → IsUntouched (append_body env s d)
  unfolding append_body
  append_body-IsUntouched env s d u = ground arith

  header_missing-IsUntouched : (s : Server) → IsUntouched s → IsUntouched (header_missing s)
  unfolding header_missing
  header_missing-IsUntouched s u = ground arith

  header_arrived-IsUntouched :
      (env : ServerEnv) (s : Server) (h : FileTransferHeader) (n : ℕ)
      → IsUntouched s
      → IsUntouched (header_arrived env s h n)
  unfolding header_arrived
  header_arrived-IsUntouched env s h n u = elim (Bool-cases (is_some s.file_offer)) [
    | inl o ↦ rw (o, header_arrived) (ground arith)
    | inr o ↦ absurd (ground arith)
  ]

  append_file_bytes-IsUntouched :
      (env : ServerEnv) (s : Server) (d : Bytes)
      → IsUntouched s
      → IsUntouched (append_file_bytes env s d)
  append_file_bytes-IsUntouched env s d u =
      let b : IsUntouched (buffered s d) = ground arith in
      append_file_bytes-cases IsUntouched env s d (λ p. append_body-IsUntouched env s d u)
        (λ p e. header_missing-IsUntouched (buffered s d) b)
        (λ h n p e. header_arrived-IsUntouched env (buffered s d) h n b)

  append_all-IsUntouched :
      (env : ServerEnv) (s : Server) (bs : List Bytes)
      → IsUntouched s
      → IsUntouched (append_all env s bs)
  unfolding append_all
  append_all-IsUntouched env s [] u = u
  append_all-IsUntouched env s (b ∷ bs) u =
      append_all-IsUntouched env (append_file_bytes env s b) bs
        (append_file_bytes-IsUntouched env s b u)

  finish_file_receive-IsUntouched :
      (env : ServerEnv) (s : Server) (stream : ℕ)
      → IsUntouched s
      → IsUntouched (finish_file_receive env s stream)
  unfolding finish_file_receive
  finish_file_receive-IsUntouched env s stream u = ground arith

  on_stream_event-IsUntouched :
      (env : ServerEnv) (s : Server) (stream : ℕ) (e : StreamEvent)
      → IsUntouched s
      → IsUntouched (on_stream_event env s stream e)
  unfolding on_stream_event
  on_stream_event-IsUntouched env s stream (receive bs) u =
      if_both IsUntouched s.receiving_file (append_all-IsUntouched env s bs u) u
  on_stream_event-IsUntouched env s stream peer_send_shutdown u =
      ground (arith, finish_file_receive-IsUntouched env s stream u)
  on_stream_event-IsUntouched env s stream _ u = ground arith

  on_connection_event-IsUntouched :
      (s : Server) (c : ℕ) (e : ConnectionEvent)
      → IsUntouched s
      → IsUntouched (on_connection_event s c e)
  unfolding on_connection_event
  on_connection_event-IsUntouched s c connected u = ground arith
  on_connection_event-IsUntouched s c _ u = ground arith

  on_listener_event-IsUntouched :
      (env : ServerEnv) (s : Server) (e : ListenerEvent)
      → IsUntouched s
      → IsUntouched (on_listener_event env s e).0
  unfolding on_listener_event
  on_listener_event-IsUntouched env s (new_connection c) u = ground arith
  on_listener_event-IsUntouched env s _ u = u

  -- The prompt is shown a header, and its answer is yes.
  abbrev pub SaysYes : Phase → Type 0
  SaysYes p = (h : FileTransferHeader) × (p ≡ prompting h) × (f h ≡ true)

  app_step-IsUntouched :
      (env : ServerEnv) (t : Bool) (p : Phase) (s : Server)
      → IsUntouched s
      → IsUntouched (app_step env t p s).server ⊎ SaysYes p
  unfolding app_step
  app_step-IsUntouched env t waiting_offer s u = inl (ground arith)
  app_step-IsUntouched env t (prompting h) s u = elim (Bool-cases (f h)) [
    | inl accepts ↦ inr (h, refl, accepts)
    | inr refuses ↦ inl (ground arith)
  ]
  app_step-IsUntouched env t _ s u = inl (ground arith)

  pub step-IsUntouched :
      (env : ServerEnv) (y : System) (e : Event)
      → IsUntouched y.server
      → IsUntouched (step env y e).server ⊎ SaysYes y.phase
  unfolding step
  step-IsUntouched env y (stream_event stream e) u =
      inl (on_stream_event-IsUntouched env y.server stream e u)
  step-IsUntouched env y (connection_event c e) u =
      inl (on_connection_event-IsUntouched y.server c e u)
  step-IsUntouched env y (listener_event e) u = inl (on_listener_event-IsUntouched env y.server e u)
  step-IsUntouched env y (app t) u = app_step-IsUntouched env t y.phase y.server u

  -- At some moment of the run the prompt is shown a header and says yes.
  pub record IsConsented (env : ServerEnv) (y : System) (es : List Event) : Type 0 where
    pub before : List Event
    pub after : List Event
    pub splits : es ≡ before ++ after
    pub yes : SaysYes (run env y before).phase

  -- What every step keeps until the prompt says yes, a run keeps, or it has such a moment.
  pub run_unless_yes :
      (P : Server → Type 0) (env : ServerEnv)
      → ((y : System) (e : Event) → P y.server → P (step env y e).server ⊎ SaysYes y.phase)
      → (es : List Event) (y : System) → P y.server
      → P (run env y es).server ⊎ IsConsented env y es
  unfolding run
  run_unless_yes P env keeps [] y u = inl u
  run_unless_yes P env keeps (e ∷ es) y u = elim (keeps y e u) [
    | inr asked ↦ inr (record { before = []; after = e ∷ es; splits = refl; yes = asked })
    | inl v ↦ elim (run_unless_yes P env keeps es (step env y e) v) [
      | inl w ↦ inl w
      | inr c ↦ inr (record {
        before = e ∷ c.before;
        after = c.after;
        splits = ap (◌∷◌ e) c.splits;
        yes = c.yes;
      })
    ]
  ]

  pub receive_file-IsUntouched :
      (env : ServerEnv) (path : Bytes) (bar : Bool)
      → IsUntouched (receive_file env path (some f) bar (new_server disk)).server
  unfolding receive_file
  receive_file-IsUntouched env path bar = ground arith

  -- Whatever the peers send and however it interleaves with the waiting thread, the bytes of the
  -- output file are the old ones and no transfer is accepted, unless at some moment of the run the
  -- registered prompt was shown a header and said yes to it.
  pub run_guards_disk :
      (env : ServerEnv) (path : Bytes) (bar : Bool) (es : List Event)
      → let y = receive_file env path (some f) bar (new_server disk) in
        IsUntouched (run env y es).server ⊎ IsConsented env y es
  run_guards_disk env path bar es =
      run_unless_yes IsUntouched env (step-IsUntouched env) es
        (receive_file env path (some f) bar (new_server disk))
        (receive_file-IsUntouched env path bar)
