-- ===== src/Server/Session/Calls.antt =====
-- The calls that a receiver makes while a transfer runs.
pub mod Keeps
use lft.Base.{
  ℕ, Bool, true, false, not, ◌&&◌, ◌||◌, List, [], ◌∷◌, ◌++◌, ◌≡◌, ◌⊎◌, sym, ap, ◌∙◌, refl, arith,
  Bytes, drop, take, length, ◌%◌, subst, if_both, if_cases, is_some, if◌then◌else◌, Bool-cases, inl,
  inr,
}
use lft.Wire.Header.{FileTransferHeader}
use lft.Server.State.{
  ServerEnv, Server, Call, stream_send, stream_close, connection_close, set_stream_callback,
  set_connection_callback, set_configuration, ok_message, fail_message, reject_message,
  accept_message, stream_send_copy, u32_mod,
}
use lft.Server.Receive.{
  append_body, header_missing, auto_accept, header_arrived, append_file_bytes, finish_file_receive,
  open_output_file, verify, summary,
}
use lft.Server.Receive.Cases.{buffered, append_file_bytes-cases}
use lft.Server.Events.{
  StreamEvent, receive, peer_send_shutdown, send_complete, peer_send_aborted, peer_receive_aborted,
  stream_shutdown_complete, other_stream_event, ConnectionEvent, connected, shutdown_complete,
  peer_stream_started, other_connection_event, ListenerEvent, new_connection, stop_complete,
  other_listener_event, append_all, on_stream_event, on_connection_event, on_listener_event,
}
use lft.Server.Session.{
  Phase, waiting_offer, prompting, transferring, draining, returned, System, app_step, Event,
  stream_event, connection_event, listener_event, app, step, decide_offer, asked,
}

-- The calls of the callbacks and of the waiting thread, where an offer is accepted only if `Agreed`.
pub data IsUsual (Agreed : Type 0) : Call → Type 0 where
  accepts : (stream : ℕ) → Agreed → IsUsual Agreed (stream_send stream accept_message false)
  rejects : (stream : ℕ) → IsUsual Agreed (stream_send stream reject_message true)
  confirms : (stream : ℕ) → IsUsual Agreed (stream_send stream ok_message true)
  denies : (stream : ℕ) → IsUsual Agreed (stream_send stream fail_message true)
  closes_stream : (stream : ℕ) → IsUsual Agreed (stream_close stream)
  closes_connection : (connection : ℕ) → IsUsual Agreed (connection_close connection)
  sets_stream : (stream : ℕ) → IsUsual Agreed (set_stream_callback stream)
  sets_connection : (connection : ℕ) → IsUsual Agreed (set_connection_callback connection)
  configures : (connection : ℕ) → IsUsual Agreed (set_configuration connection)

-- Neither a call nor a change of the prompt.
abbrev pub IsLike : Server → Server → Type 0
IsLike s t = (t.calls ≡ s.calls) × (t.file_offer ≡ s.file_offer)

pub append_body-IsLike : (env : ServerEnv) (s : Server) (d : Bytes) → IsLike s (append_body env s d)
unfolding append_body
append_body-IsLike env s d = (ground arith, ground arith)

pub header_missing-IsLike : (s : Server) → IsLike s (header_missing s)
unfolding header_missing
header_missing-IsLike s = (ground arith, ground arith)

pub auto_accept-calls :
    (env : ServerEnv) (s : Server) (n : ℕ)
    → ((auto_accept env s n).file_offer ≡ s.file_offer)
      × (((auto_accept env s n).calls ≡ s.calls)
          ⊎ ((auto_accept env s n).calls
              ≡ s.calls ++ stream_send s.file_stream accept_message false ∷ []))
unfolding auto_accept
auto_accept-calls env s n =
    let o = (open_output_file env s).0 in
    let a =
      (stream_send_copy env (record o { file_accepted = true }) o.file_stream accept_message
        false).0 in
    let body = drop n s.stream_receive_buffer in
    let same = append_body-IsLike env a (take (length body % u32_mod) body) in
    elim (Bool-cases (env.open_ok s.file_output_path)) [
      | inl e ↦ (ground (arith, same), inr (ground (arith, same)))
      | inr e ↦ (ground (arith, same), inl (ground (arith, same)))
    ]

pub decide_offer-calls :
    (env : ServerEnv) (h : FileTransferHeader) (s : Server)
    → ((decide_offer env h s).server.file_offer ≡ s.file_offer)
      × (((decide_offer env h s).server.calls
            ≡ s.calls ++ stream_send s.file_stream reject_message true ∷ [])
          ⊎ ((asked s.file_offer h ≡ true)
              × ((decide_offer env h s).server.calls
                  ≡ s.calls ++ stream_send s.file_stream accept_message false ∷ [])))
unfolding decide_offer
decide_offer-calls env h s = elim (Bool-cases (asked s.file_offer h)) [
  | inr refuses ↦ (ground arith, inl (ground arith))
  | inl agrees ↦ elim (Bool-cases (env.open_ok s.file_output_path)) [
    | inl opens ↦ (ground arith, inr (agrees, ground arith))
    | inr fails ↦ (ground arith, inl (ground arith))
  ]
]
