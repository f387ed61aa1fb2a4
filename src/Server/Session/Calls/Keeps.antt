-- ===== src/Server/Session/Calls/Keeps.antt =====
-- What every call of a receiver keeps, as a rule of induction on them.
use lft.Base.{
  ℕ, Bool, true, false, not, ◌&&◌, ◌||◌, List, [], ◌∷◌, ◌++◌, ◌≡◌, sym, ap, ◌∙◌, refl, Bytes, subst,
  if_both, if_cases, is_some, if◌then◌else◌, inl, inr,
}
use lft.Wire.Header.{FileTransferHeader}
use lft.Server.State.{ServerEnv, Server, Call, stream_send, ok_message, fail_message}
use lft.Server.Receive.{
  append_body, header_missing, auto_accept, header_arrived, append_file_bytes, finish_file_receive,
  verify, summary,
}
use lft.Server.Receive.Cases.{buffered, append_file_bytes-cases}
use lft.Server.Events.{
  StreamEvent, receive, peer_send_shutdown, send_complete, peer_send_aborted, peer_receive_aborted,
  stream_shutdown_complete, other_stream_event, ConnectionEvent, connected, shutdown_complete,
  peer_stream_started, other_connection_event, ListenerEvent, new_connection, stop_complete,
  other_listener_event, append_all, on_stream_event, on_connection_event, on_listener_event,
}
use lft.Server.Session.{
  Phase, waiting_offer, prompting, transferring, draining, returned, System, app_step, Event,
  stream_event, connection_event, listener_event, app, step, decide_offer, asked,
}
use lft.Server.Session.Calls.{
  IsUsual, accepts, rejects, confirms, denies, closes_stream, closes_connection, sets_stream,
  sets_connection, configures, IsLike, append_body-IsLike, header_missing-IsLike, auto_accept-calls,
  decide_offer-calls,
}

module _ (Agreed : Type 0) (P : List Call → Type 0)
    (more : (calls : List Call) (c : Call) → IsUsual Agreed c → P calls → P (calls ++ c ∷ [])) where
  -- With no prompt the user has agreed before.
  abbrev Keeps : Server → Type 0
  Keeps s = P s.calls × (is_some s.file_offer ≡ false → Agreed)

  like : (s t : Server) → IsLike s t → Keeps s → Keeps t
  like s t (calls, offer) (k, agreed) =
      (subst P (sym calls) k, λ none. agreed (ap is_some (sym offer) ∙ none))

  -- One more call.
  called :
      (s t : Server) (c : Call)
      → t.calls ≡ s.calls ++ c ∷ []
      → t.file_offer ≡ s.file_offer
      → IsUsual Agreed c
      → Keeps s
      → Keeps t
  called s t c calls offer usual (k, agreed) =
      (subst P (sym calls) (more s.calls c usual k), λ none. agreed (ap is_some (sym offer) ∙ none))

  auto_accept-Keeps :
      (env : ServerEnv) (s : Server) (n : ℕ)
      → is_some s.file_offer ≡ false
      → Keeps s
      → Keeps (auto_accept env s n)
  auto_accept-Keeps env s n none k = elim ((auto_accept-calls env s n).1) [
    | inl e ↦ like s (auto_accept env s n) (e, (auto_accept-calls env s n).0) k
    | inr e ↦
        called s (auto_accept env s n) _ e (auto_accept-calls env s n).0
          (accepts s.file_stream (k.1 none)) k
  ]

  header_arrived-Keeps :
      (env : ServerEnv) (s : Server) (h : FileTransferHeader) (n : ℕ)
      → Keeps s
      → Keeps (header_arrived env s h n)
  unfolding header_arrived
  header_arrived-Keeps env s h n k =
      if_cases Keeps (is_some s.file_offer) (λ e. k) (λ e. auto_accept-Keeps env _ n e k)

  append_file_bytes-Keeps :
      (env : ServerEnv) (s : Server) (d : Bytes) → Keeps s → Keeps (append_file_bytes env s d)
  append_file_bytes-Keeps env s d k =
      append_file_bytes-cases Keeps env s d
        (λ p. like s (append_body env s d) (append_body-IsLike env s d) k)
        (λ p e.
          like (buffered s d) (header_missing (buffered s d)) (header_missing-IsLike (buffered s d))
            k)
        (λ h n p e. header_arrived-Keeps env (buffered s d) h n k)

  append_all-Keeps :
      (env : ServerEnv) (bs : List Bytes) (s : Server) → Keeps s → Keeps (append_all env s bs)
  unfolding append_all
  append_all-Keeps env [] s k = k
  append_all-Keeps env (b ∷ bs) s k =
      append_all-Keeps env bs (append_file_bytes env s b) (append_file_bytes-Keeps env s b k)

  answered :
      (s : Server) (stream : ℕ) (ok : Bool)
      → P s.calls
      → P (s.calls ++ stream_send stream (if ok then ok_message else fail_message) true ∷ [])
  answered s stream true k = more s.calls _ (confirms stream) k
  answered s stream false k = more s.calls _ (denies stream) k

  finish-Keeps :
      (env : ServerEnv) (s : Server) (stream : ℕ)
      → Keeps s
      → Keeps (finish_file_receive env s stream)
  unfolding finish_file_receive
  finish-Keeps env s stream k =
      let ok = (verify env s (summary s)).1 in
      if_both Keeps (not (env.send_ok s.calls)) (answered s stream ok k.0, k.1)
        (answered s stream ok k.0, k.1)

  on_stream_event-Keeps :
      (env : ServerEnv) (s : Server) (stream : ℕ) (e : StreamEvent)
      → Keeps s
      → Keeps (on_stream_event env s stream e)
  unfolding on_stream_event
  on_stream_event-Keeps env s stream (receive bs) k =
      if_both Keeps s.receiving_file (append_all-Keeps env bs s k) k
  on_stream_event-Keeps env s stream peer_send_shutdown k =
      if_both Keeps s.receiving_file
        (if_both Keeps (s.file_accepted || s.file_io_error) (finish-Keeps env s stream k) k) k
  on_stream_event-Keeps env s stream send_complete k =
      if_both Keeps (s.receiving_file && s.sending_final_ack) k k
  on_stream_event-Keeps env s stream peer_send_aborted k = if_both Keeps s.receiving_file k k
  on_stream_event-Keeps env s stream peer_receive_aborted k = if_both Keeps s.receiving_file k k
  on_stream_event-Keeps env s stream (stream_shutdown_complete closing) k =
      if_both Keeps (not closing) (more s.calls _ (closes_stream stream) k.0, k.1) k
  on_stream_event-Keeps env s stream other_stream_event k = k

  on_connection_event-Keeps :
      (s : Server) (c : ℕ) (e : ConnectionEvent) → Keeps s → Keeps (on_connection_event s c e)
  unfolding on_connection_event
  on_connection_event-Keeps s c connected k = k
  on_connection_event-Keeps s c (shutdown_complete closing) k =
      if_both Keeps (not closing) (more s.calls _ (closes_connection c) k.0, k.1) k
  on_connection_event-Keeps s c (peer_stream_started stream) k =
      (more s.calls _ (sets_stream stream) k.0, k.1)
  on_connection_event-Keeps s c other_connection_event k = k

  on_listener_event-Keeps :
      (env : ServerEnv) (s : Server) (e : ListenerEvent)
      → Keeps s
      → Keeps (on_listener_event env s e).0
  unfolding on_listener_event
  on_listener_event-Keeps env s (new_connection c) k =
      (more _ _ (configures c) (more s.calls _ (sets_connection c) k.0), k.1)
  on_listener_event-Keeps env s stop_complete k = k
  on_listener_event-Keeps env s other_listener_event k = k

  abbrev KeepsPhase : System → Type 0
  KeepsPhase y = Keeps y.server

  app_step-Keeps :
      (env : ServerEnv) (t : Bool) (p : Phase) (s : Server)
      → ((h : FileTransferHeader) → p ≡ prompting h → asked s.file_offer h ≡ true → Agreed)
      → Keeps s
      → Keeps (app_step env t p s).server
  unfolding app_step
  app_step-Keeps env t waiting_offer s answer k =
      if_both KeepsPhase (s.offer_ready || s.file_done) (if_both KeepsPhase s.file_done k k)
        (if_both KeepsPhase t k k)
  app_step-Keeps env t (prompting h) s answer k =
      let (offer, cases) = decide_offer-calls env h s in
      elim cases [
        | inl e ↦ called s (decide_offer env h s).server _ e offer (rejects s.file_stream) k
        | inr (agrees, e) ↦
            called s (decide_offer env h s).server _ e offer
              (accepts s.file_stream (answer h refl agrees)) k
      ]
  app_step-Keeps env t transferring s answer k =
      if_both KeepsPhase (not (s.file_done || t)) k
        (if_both KeepsPhase (not s.file_done || not s.file_ok) k k)
  app_step-Keeps env t (draining result) s answer k =
      if_both KeepsPhase (not (is_some s.client_connection) || t) k k
  app_step-Keeps env t (returned result) s answer k = k

  -- What every usual call keeps of the calls made so far, every step keeps, where the user has
  -- agreed if there is no prompt, and agrees if the prompt says yes now.
  pub step-Keeps :
      (env : ServerEnv) (y : System) (e : Event)
      → (is_some y.server.file_offer ≡ false → Agreed)
      → ((h : FileTransferHeader)
          → y.phase ≡ prompting h
          → asked y.server.file_offer h ≡ true
          → Agreed)
      → P y.server.calls
      → P (step env y e).server.calls
  unfolding step
  step-Keeps env y (stream_event stream e) unasked answer k =
      (on_stream_event-Keeps env y.server stream e (k, unasked)).0
  step-Keeps env y (connection_event c e) unasked answer k =
      (on_connection_event-Keeps y.server c e (k, unasked)).0
  step-Keeps env y (listener_event e) unasked answer k =
      (on_listener_event-Keeps env y.server e (k, unasked)).0
  step-Keeps env y (app t) unasked answer k =
      (app_step-Keeps env t y.phase y.server answer (k, unasked)).0
