-- ===== src/Server/Session/Following/Steps.antt =====
-- The steps of a receiver that gets one stream.
use lft.Base.{
  ℕ, ◌-◌, ◌≤◌, Bool, true, false, not, ◌&&◌, ◌||◌, List, ◌++◌, some, ◌≡◌, inl, inr, refl, sym, ap,
  ◌∙◌, arith, Bytes, length, take, drop, concat, All, subst, if_both, if_cases, is_some,
  length-take, take-eq_of_le, take-append-drop, drop-take, Bool-cases,
}
use lft.Wire.Header.{FileTransferHeader, decode_file_header}
use lft.Server.State.{ServerEnv, Server, max_header_bytes, stream_close}
use lft.Server.Receive.Verify.{IsComplete}
use lft.Server.Receive.Delivery.{Works}
use lft.Server.Receive.Pieces.{IsPiece, HasReceived, pieces-HasReceived}
use lft.Server.Events.{
  StreamEvent, receive, peer_send_shutdown, send_complete, peer_send_aborted, peer_receive_aborted,
  stream_shutdown_complete, other_stream_event, ConnectionEvent, connected, shutdown_complete,
  peer_stream_started, other_connection_event, ListenerEvent, new_connection, stop_complete,
  other_listener_event, append_all, on_stream_event, on_connection_event, on_listener_event,
}
use lft.Server.Session.{
  Phase, waiting_offer, prompting, transferring, draining, returned, System, app_step, Event,
  stream_event, connection_event, listener_event, app, step,
}
use lft.Server.Receive.Whole.{append_all-receiving}
use lft.Server.Session.Quiet.{ok_sent, ok_sent-snoc, is_ok_send}
use lft.Server.Session.Sound.{on_connection_event-Quiet, on_listener_event-Quiet, app_step-Quiet}
use lft.Server.Session.Success.{step-Sound}
use lft.Server.Session.Following.{
  view, IsLike, is_running, is_other, all-same, body_at, IsFollowing, live, kept, idle,
  IsLike-IsFollowing, closes, finish-IsLike,
}

-- Without a receipt that runs, no step sends "OK".
idle-ok_sent :
    (env : ServerEnv) (y : System) (e : Event)
    → y.server.receiving_file ≡ false
    → ok_sent (step env y e).server.calls ≡ ok_sent y.server.calls
unfolding step on_stream_event is_ok_send
idle-ok_sent env y (stream_event stream (stream_shutdown_complete closing)) h =
    ground (arith, ok_sent-snoc y.server.calls (stream_close stream))
idle-ok_sent env y (stream_event stream e) h = ground (arith, h)
idle-ok_sent env y (connection_event c e) h = (on_connection_event-Quiet y.server c e).sent
idle-ok_sent env y (listener_event e) h = (on_listener_event-Quiet env y.server e).sent
idle-ok_sent env y (app t) h = (app_step-Quiet env t y.phase y.server).sent

module _ (env : ServerEnv) (w : Works env) (h : FileTransferHeader) (n : ℕ)
    (small : n ≤ max_header_bytes) (whole : Bytes) where
  abbrev Follows : ℕ → Server → Type 0
  Follows = IsFollowing env w h n small whole

  on_stream_event-Follows :
      (r : ℕ) (s : Server) (stream : ℕ) (e : StreamEvent)
      → is_other (stream_event stream e) ≡ true
      → Follows r s
      → Follows r (on_stream_event env s stream e)
  unfolding on_stream_event
  on_stream_event-Follows r s stream (receive bs) o k = absurd (ground (arith, o))
  on_stream_event-Follows r s stream peer_send_shutdown o k =
      if_both (Follows r) s.receiving_file
        (if_both (Follows r) (s.file_accepted || s.file_io_error)
          (closes env w h n small whole r s _ (finish-IsLike env w h n small whole s stream) k) k)
        k
  on_stream_event-Follows r s stream send_complete o k =
      if_both (Follows r) (s.receiving_file && s.sending_final_ack)
        (IsLike-IsFollowing env w h n small whole r s _ refl k) k
  on_stream_event-Follows r s stream peer_send_aborted o k =
      if_both (Follows r) s.receiving_file (closes env w h n small whole r s _ refl k) k
  on_stream_event-Follows r s stream peer_receive_aborted o k =
      if_both (Follows r) s.receiving_file (closes env w h n small whole r s _ refl k) k
  on_stream_event-Follows r s stream (stream_shutdown_complete closing) o k =
      if_both (Follows r) (not closing) (IsLike-IsFollowing env w h n small whole r s _ refl k) k
  on_stream_event-Follows r s stream other_stream_event o k = k

  on_connection_event-IsLike :
      (s : Server) (c : ℕ) (e : ConnectionEvent)
      → is_other (connection_event c e) ≡ true
      → IsLike s (on_connection_event s c e)
  unfolding on_connection_event
  on_connection_event-IsLike s c connected o = refl
  on_connection_event-IsLike s c (shutdown_complete closing) o =
      if_both (λ t. view (record t { client_connection = s.client_connection }) ≡ view s)
        (not closing) refl refl
  on_connection_event-IsLike s c (peer_stream_started stream) o = absurd (ground (arith, o))
  on_connection_event-IsLike s c other_connection_event o = refl

  on_listener_event-IsLike :
      (s : Server) (e : ListenerEvent) → IsLike s (on_listener_event env s e).0
  unfolding on_listener_event
  on_listener_event-IsLike s (new_connection c) = refl
  on_listener_event-IsLike s stop_complete = refl
  on_listener_event-IsLike s other_listener_event = refl

  -- The thread behind the prompt, too.
  abbrev pub GoesOn : ℕ → System → Type 0
  GoesOn r y = Follows r y.server × (is_running y.phase ≡ true)

  app_step-GoesOn :
      (r : ℕ) (t : Bool) (p : Phase) (s : Server)
      → is_running p ≡ true
      → Follows r s
      → GoesOn r (app_step env t p s)
  unfolding app_step
  app_step-GoesOn r t waiting_offer s o k = absurd (ground (arith, o))
  app_step-GoesOn r t (prompting header) s o k = absurd (ground (arith, o))
  app_step-GoesOn r t transferring s o k =
      if_both (GoesOn r) (not (s.file_done || t)) (k, refl)
        (if_both (GoesOn r) (not s.file_done || not s.file_ok) (idle refl, refl) (k, refl))
  app_step-GoesOn r t (draining result) s o k =
      if_both (GoesOn r) (not (is_some s.client_connection) || t) (idle refl, refl) (k, refl)
  app_step-GoesOn r t (returned result) s o k = (k, refl)

  pub other-GoesOn :
      (r : ℕ) (y : System) (e : Event) → is_other e ≡ true → GoesOn r y → GoesOn r (step env y e)
  unfolding step
  other-GoesOn r y (stream_event stream e) o k =
      (on_stream_event-Follows r y.server stream e o k.0, k.1)
  other-GoesOn r y (connection_event c e) o k = (
    IsLike-IsFollowing env w h n small whole r y.server _
        (on_connection_event-IsLike y.server c e o) k.0,
    k.1,
  )
  other-GoesOn r y (listener_event e) o k = (
    IsLike-IsFollowing env w h n small whole r y.server _ (on_listener_event-IsLike y.server e) k.0,
    k.1,
  )
  other-GoesOn r y (app t) o k = app_step-GoesOn r t y.phase y.server k.1 k.0

  module _ (decoded : decode_file_header whole ≡ some (h, n)) where
    received_more :
        (r q : ℕ) (s : Server) (bs : List Bytes)
        → take r whole ++ concat bs ≡ take q whole
        → All IsPiece bs
        → Follows r s
        → Follows q (append_all env s bs)
    received_more r q s bs more pieces (live v) = live (
        subst (λ d. HasReceived h n d (append_all env s bs)) more
          (pieces-HasReceived env w h n small bs (take r whole) (drop q whole) s
            (ap (λ d. decode_file_header (d ++ drop q whole)) more
              ∙ (ap decode_file_header (take-append-drop q whole) ∙ decoded))
            pieces v))
    received_more r q s bs more pieces (kept p v) =
        subst (Follows q) (sym (all-same env bs s v.parsed v.out)) (kept p v)
    received_more r q s bs more pieces (idle v) = idle (append_all-receiving env s bs ∙ v)

    pub receive-GoesOn :
        (r q : ℕ) (y : System) (stream : ℕ) (bs : List Bytes)
        → take r whole ++ concat bs ≡ take q whole
        → All IsPiece bs
        → GoesOn r y
        → GoesOn q (step env y (stream_event stream (receive bs)))
    unfolding step on_stream_event
    receive-GoesOn r q y stream bs more pieces k =
        if_cases (λ s. GoesOn q (record y { server = s })) y.server.receiving_file
          (λ e. (received_more r q y.server bs more pieces k.0, k.1)) (λ e. (idle e, k.1))

    module _ (content : Bytes) (rest : drop n whole ≡ content)
        (sized : h.size ≡ length content) where
      body_at-exact :
          (q : ℕ)
          → length (body_at env w h n small whole q) ≡ h.size
          → body_at env w h n small whole q ≡ content
      body_at-exact q e =
          let part : drop n (take q whole) ≡ take (q - n) content =
            drop-take n q whole ∙ ap (take (q - n)) rest in
          let size = ap (λ d. length (take h.size d)) (sym part) ∙ e in
          let enough : length content ≤ q - n = omega (
            arith,
            size,
            sized,
            length-take h.size (take (q - n) content),
            length-take (q - n) content,
          ) in
          ap (take h.size) (part ∙ take-eq_of_le (q - n) content enough)
          ∙ take-eq_of_le h.size content (omega (arith, sized))

      counted-exact :
          (q : ℕ) (s : Server)
          → IsComplete env s
          → s.file_header ≡ h
          → s.file_bytes_written ≡ length (body_at env w h n small whole q)
          → s.disk ≡ body_at env w h n small whole q
          → s.disk ≡ content
      counted-exact q s c header counted on_disk =
          on_disk
          ∙ body_at-exact q
              (sym counted ∙ (c.size_exact ∙ ap (λ (k : FileTransferHeader). k.size) header))

      complete-exact :
          (r : ℕ) (s : Server)
          → s.receiving_file ≡ true
          → IsComplete env s
          → Follows r s
          → s.disk ≡ content
      complete-exact r s here c (live (inl (short, v))) =
          let parsed = c.parsed in absurd (ground (arith, parsed, v.unparsed))
      complete-exact r s here c (live (inr (past, v))) =
          counted-exact r s c v.header v.counted v.on_disk
      complete-exact r s here c (kept q v) = counted-exact q s c v.header v.counted v.on_disk
      complete-exact r s here c (idle v) = absurd (ground (arith, here, v))

      -- The first "OK" is for the whole file.
      pub step-exact :
          (r : ℕ) (y : System) (e : Event)
          → GoesOn r y
          → ok_sent y.server.calls ≡ false
          → ok_sent (step env y e).server.calls ≡ true
          → IsComplete env y.server × (y.server.disk ≡ content)
      step-exact r y e k none_yet now =
          let c = (step-Sound env y e).complete none_yet now in
          elim (Bool-cases y.server.receiving_file) [
            | inl here ↦ (c, complete-exact r y.server here c k.0)
            | inr still ↦
                let same = idle-ok_sent env y e still in
                absurd (ground (arith, none_yet, now, same))
          ]
