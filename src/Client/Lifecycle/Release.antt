-- ===== src/Client/Lifecycle/Release.antt =====
-- Every msquic object that `connect` opens is closed again, in reverse order.
use lft.Base.{
  ℕ, Bool, true, false, not, List, [], ◌∷◌, ◌++◌, Option, none, some, ◌≡◌, refl, arith,
  Option-cases, inl, inr, if_both, if_cases,
}
use lft.Handles.{
  Handle, opened, closed, api_table, registration, configuration, connection, one, held_api,
  held_after, held_after-snoc, apply_op,
}
use lft.Client.Lifecycle.{
  Link, ConnectEnv, Handshake, succeeded, failed, log, on_shutdown_complete, shut_down_link,
  close_configuration, close_registration, close_api, disconnect, configure, shake_hands,
  open_connection, register, connect,
}

-- The objects that the members point to, the last one first.
abbrev pub held_by : Link → List Handle
held_by s =
    one connection s.connection
    ++ (one configuration s.configuration ++ (one registration s.registration ++ held_api s.api))

-- The members point to just what is held.
record IsHeld (s : Link) : Type 0 where
  held : held_after s.ops ≡ some (held_by s)
  api : s.api ≡ true

-- Nothing is held, and no member points to anything.
pub record IsIdle (s : Link) : Type 0 where
  pub nothing_held : held_after s.ops ≡ some []
  pub no_api : s.api ≡ false
  pub no_registration : s.registration ≡ none
  pub no_configuration : s.configuration ≡ none
  pub no_connection : s.connection ≡ none
  pub not_connected : s.connected ≡ false

close_configuration-IsHeld :
    (s : Link)
    → IsHeld s
    → s.connection ≡ none
    → let t = close_configuration s in IsHeld t × (t.connection ≡ none) × (t.configuration ≡ none)
unfolding close_configuration apply_op
close_configuration-IsHeld s v l = elim (Option-cases s.configuration) [
  | inl e ↦ ground (arith, v, l)
  | inr (h, e) ↦
      ground (arith, v, l, held_after-snoc s.ops (closed (configuration h)) (held_by s) v.held)
]

close_registration-IsHeld :
    (s : Link)
    → IsHeld s
    → (s.connection ≡ none) × (s.configuration ≡ none)
    → let t = close_registration s in
      IsHeld t × (t.connection ≡ none) × (t.configuration ≡ none) × (t.registration ≡ none)
unfolding close_registration apply_op
close_registration-IsHeld s v l = elim (Option-cases s.registration) [
  | inl e ↦ ground (arith, v, l)
  | inr (h, e) ↦
      ground (arith, v, l, held_after-snoc s.ops (closed (registration h)) (held_by s) v.held)
]

close_api-IsIdle :
    (s : Link)
    → IsHeld s
    → (s.connection ≡ none) × (s.configuration ≡ none) × (s.registration ≡ none)
    → IsIdle (record (close_api s) { connected = false })
unfolding close_api apply_op
close_api-IsIdle s v l =
    ground (arith, v, l, held_after-snoc s.ops (closed api_table) (held_by s) v.held)

module _ (env : ConnectEnv) (in_time : env.shutdown_in_time ≡ true) where
  shut_down_link-IsHeld :
      (s : Link)
      → IsHeld s
      → IsHeld (shut_down_link env s) × ((shut_down_link env s).connection ≡ none)
  unfolding shut_down_link apply_op
  shut_down_link-IsHeld s v = elim (Option-cases s.connection) [
    | inl e ↦ ground (arith, v)
    | inr (h, e) ↦
        ground (arith, v, in_time, held_after-snoc s.ops (closed (connection h)) (held_by s) v.held)
  ]

  disconnect-IsIdle : (s : Link) → IsHeld s → IsIdle (disconnect env s)
  unfolding disconnect
  disconnect-IsIdle s v =
      let first = shut_down_link-IsHeld s v in
      let shut = shut_down_link env s in
      let second = close_configuration-IsHeld shut first.0 first.1 in
      let t = close_configuration shut in
      let third = close_registration-IsHeld t second.0 (second.1, second.2) in
      close_api-IsIdle (close_registration t) third.0 (third.1, third.2, third.3)

  -- The client is connected and holds its objects, or has been put back.
  abbrev IsConnected : Link × Bool → Type 0
  IsConnected (s, true) = IsHeld s × (s.connected ≡ true)
  IsConnected (s, false) = IsIdle s

  configure-IsHeld :
      (c : Option ℕ) (s : Link)
      → IsHeld s
      → (s.connection ≡ none) × (s.configuration ≡ none)
      → IsHeld (configure env c s).0 × ((configure env c s).0.connection ≡ none)
  unfolding configure apply_op
  configure-IsHeld none s v l = ground (arith, v, l)
  configure-IsHeld (some h) s v l =
      let held = s.ops ++ opened (configuration h) ∷ [] in
      let up = held_after-snoc s.ops (opened (configuration h)) (held_by s) v.held in
      let more = configuration h ∷ held_by s in
      ground (arith, v, l, up, held_after-snoc held (closed (configuration h)) more up)

  shake_hands-IsConnected :
      (h : ℕ) (o : Handshake) (s : Link)
      → IsHeld s
      → s.connection ≡ some h
      → IsConnected (shake_hands env h o s)
  unfolding shake_hands apply_op
  shake_hands-IsConnected h succeeded s v l = (record { held = v.held; api = v.api }, refl)
  shake_hands-IsConnected h (failed true) s v l =
      disconnect-IsIdle (on_shutdown_complete h s)
        (ground (arith, v, l, held_after-snoc s.ops (closed (connection h)) (held_by s) v.held))
  shake_hands-IsConnected h (failed false) s v l = disconnect-IsIdle s v

  open_connection-IsConnected :
      (c : Option ℕ) (s : Link)
      → IsHeld s
      → s.connection ≡ none
      → IsConnected (open_connection env c s)
  unfolding open_connection apply_op
  open_connection-IsConnected none s v l =
      disconnect-IsIdle (record s { connection = none }) (ground (arith, v, l))
  open_connection-IsConnected (some h) s v l =
      let t = log (opened (connection h)) (record s { connection = some h }) in
      let up : IsHeld t =
        ground (arith, v, l, held_after-snoc s.ops (opened (connection h)) (held_by s) v.held) in
      if_both IsConnected (not env.start_connection) (disconnect-IsIdle t up)
        (shake_hands-IsConnected h env.handshake t up refl)

  register-IsConnected :
      (r : Option ℕ) (s : Link)
      → IsHeld s
      → (s.connection ≡ none) × (s.configuration ≡ none) × (s.registration ≡ none)
      → IsConnected (register env r s)
  unfolding register apply_op
  register-IsConnected none s v l =
      disconnect-IsIdle (record s { registration = none }) (ground (arith, v, l))
  register-IsConnected (some h) s v l =
      let t = log (opened (registration h)) (record s { registration = some h }) in
      let up : IsHeld t =
        ground (arith, v, l, held_after-snoc s.ops (opened (registration h)) (held_by s) v.held) in
      let configured = configure-IsHeld env.open_configuration t up (l.0, l.1) in
      let c = (configure env env.open_configuration t).0 in
      if_both IsConnected (not (configure env env.open_configuration t).1)
        (disconnect-IsIdle c configured.0)
        (open_connection-IsConnected env.open_connection c configured.0 configured.1)

  connect-IsConnected : (s : Link) → IsIdle s → IsConnected (connect env s)
  unfolding connect apply_op
  connect-IsConnected s v =
      let t = log (opened api_table) (record s { api = true }) in
      let up : IsHeld t =
        ground (arith, v, held_after-snoc s.ops (opened api_table) [] v.nothing_held) in
      let still : IsIdle (record s { api = false }) = ground (arith, v) in
      if_cases IsConnected s.connected (λ e. absurd (ground (arith, v)))
        (λ e. if_both IsConnected (not env.open_api) still (
          register-IsConnected env.open_registration t up
            (v.no_connection, v.no_configuration, v.no_registration)))

  -- The client is connected, and its members point to just what it holds.
  pub record IsOnline (s : Link) : Type 0 where
    pub all_held : held_after s.ops ≡ some (held_by s)
    pub connected : s.connected ≡ true
    pub released : IsIdle (disconnect env s)

  IsConnected-cases :
      (o : Link × Bool) → IsConnected o → (o.1 ≡ true → IsOnline o.0) × (o.1 ≡ false → IsIdle o.0)
  IsConnected-cases (s, true) (v, r) = (
    λ e. record { all_held = v.held; connected = r; released = disconnect-IsIdle s v },
    λ e. absurd (ground arith),
  )
  IsConnected-cases (s, false) v = (λ e. absurd (ground arith), λ e. v)

  -- From an idle client, whatever else msquic answers, if SHUTDOWN_COMPLETE comes while
  -- `disconnect` waits: if `connect` returns true, the client holds just the objects that its
  -- members point to, and `disconnect` closes them all in reverse order; if it returns false, all
  -- that it had opened has been closed in reverse order already, and the client is idle again.
  pub connect-releases :
      (s : Link)
      → IsIdle s
      → let (t, ok) = connect env s in (ok ≡ true → IsOnline t) × (ok ≡ false → IsIdle t)
  connect-releases s v = IsConnected-cases (connect env s) (connect-IsConnected s v)
