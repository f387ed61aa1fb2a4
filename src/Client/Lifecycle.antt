-- ===== src/Client/Lifecycle.antt =====
-- `connect`, `disconnect` and `open_configuration` of src/transfer/quic_client.cpp. A handle is
-- `none` for a null pointer; `ops` are the objects opened and closed. What the callbacks do to
-- these members while a function waits is that of `on_connection_event` (Client/Events).
pub mod Release
use lft.Base.{
  ℕ, Bool, true, false, not, ◌&&◌, List, [], ◌∷◌, ◌++◌, Option, none, some, is_some, if◌then◌else◌,
}
use lft.Handles.{Op, opened, closed, api_table, registration, configuration, connection}

-- The members of `QuicClient` that `connect` and `disconnect` use. `shut_down` are the connections
-- that were asked to shut down, with whether it was done silently.
pub record Link : Type 0 where
  pub connected : Bool
  pub api : Bool
  pub registration : Option ℕ
  pub configuration : Option ℕ
  pub connection : Option ℕ
  pub shut_down : List (ℕ × Bool)
  pub ops : List Op

-- How the wait for the handshake ends. With a failure or at the timeout, the connection may have
-- been shut down and closed already.
pub data Handshake : Type 0 where
  succeeded : Handshake
  failed : Bool → Handshake

-- What msquic answers. An open that succeeds gives the handle; `shutdown_in_time` says that
-- SHUTDOWN_COMPLETE comes while `disconnect` waits.
pub record ConnectEnv : Type 0 where
  pub open_api : Bool
  pub open_registration : Option ℕ
  pub open_configuration : Option ℕ
  pub load_credential : Bool
  pub open_connection : Option ℕ
  pub start_connection : Bool
  pub handshake : Handshake
  pub shutdown_in_time : Bool

abbrev pub log : Op → Link → Link
log op s = record s { ops = s.ops ++ op ∷ [] }

-- `on_connection_event` at SHUTDOWN_COMPLETE, with no close by the application in progress.
abbrev pub on_shutdown_complete : ℕ → Link → Link
on_shutdown_complete h s =
    log (closed (connection h)) (record s { connected = false; connection = none })

unfoldable pub shut_down_link : ConnectEnv → Link → Link
shut_down_link env s = elim s.connection [
  | none ↦ s
  | some h ↦
      let asked = record s { shut_down = s.shut_down ++ (h, not s.connected) ∷ [] } in
      if not s.api then s else if env.shutdown_in_time then on_shutdown_complete h asked else asked
]

unfoldable pub close_configuration : Link → Link
close_configuration s = elim s.configuration [
  | none ↦ s
  | some h ↦ if s.api then log (closed (configuration h)) (record s { configuration = none }) else s
]

unfoldable pub close_registration : Link → Link
close_registration s = elim s.registration [
  | none ↦ s
  | some h ↦ if s.api then log (closed (registration h)) (record s { registration = none }) else s
]

unfoldable pub close_api : Link → Link
close_api s = if s.api then log (closed api_table) (record s { api = false }) else s

unfoldable pub disconnect : ConnectEnv → Link → Link
disconnect env s =
    let t = close_api (close_registration (close_configuration (shut_down_link env s))) in
    record t { connected = false }

-- `open_configuration`, with a handle or without one.
unfoldable pub configure : ConnectEnv → Option ℕ → Link → Link × Bool
configure env none s = (record s { configuration = none }, false)
configure env (some h) s =
    let held = log (opened (configuration h)) (record s { configuration = some h }) in
    if not env.load_credential
    then (log (closed (configuration h)) (record held { configuration = none }), false)
    else (held, true)

unfoldable pub shake_hands : ConnectEnv → ℕ → Handshake → Link → Link × Bool
shake_hands env h succeeded s = (record s { connected = true }, true)
shake_hands env h (failed gone) s =
    (disconnect env (if gone then on_shutdown_complete h s else s), false)

-- From `ConnectionOpen` on.
unfoldable pub open_connection : ConnectEnv → Option ℕ → Link → Link × Bool
open_connection env none s = (disconnect env (record s { connection = none }), false)
open_connection env (some h) s =
    let held = log (opened (connection h)) (record s { connection = some h }) in
    if not env.start_connection
    then (disconnect env held, false)
    else shake_hands env h env.handshake held

-- From `RegistrationOpen` on.
unfoldable pub register : ConnectEnv → Option ℕ → Link → Link × Bool
register env none s = (disconnect env (record s { registration = none }), false)
register env (some h) s =
    let (c, configured) =
      configure env env.open_configuration
        (log (opened (registration h)) (record s { registration = some h })) in
    if not configured then (disconnect env c, false) else open_connection env env.open_connection c

-- The second result is the function's.
unfoldable pub connect : ConnectEnv → Link → Link × Bool
connect env s =
    if s.connected
    then (s, true)
    else if not env.open_api
    then (record s { api = false }, false)
    else register env env.open_registration (log (opened api_table) (record s { api = true }))
