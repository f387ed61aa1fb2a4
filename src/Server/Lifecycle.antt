-- ===== src/Server/Lifecycle.antt =====
-- `start`, `stop`, `open_configuration` and `open_listener` of src/transfer/quic_server.cpp. A
-- handle is `none` for a null pointer; `ops` are the objects opened and closed.
pub mod Release
use lft.Base.{
  ℕ, Bool, true, false, not, ◌&&◌, ◌||◌, List, [], ◌∷◌, ◌++◌, Option, none, some, is_some,
  if◌then◌else◌,
}
use lft.Handles.{Handle, Op, opened, closed, api_table, registration, configuration, listener}

-- The members of `QuicServer` that `start` and `stop` use.
pub record Endpoint : Type 0 where
  pub api : Bool
  pub registration : Option ℕ
  pub configuration : Option ℕ
  pub listener : Option ℕ
  pub client_connection : Option ℕ
  pub running : Bool
  pub receiving_file : Bool
  pub shut_down : List ℕ
  pub ops : List Op

-- What msquic and the file system answer. An open that succeeds gives the handle.
pub record StartEnv : Type 0 where
  pub open_api : Bool
  pub open_registration : Option ℕ
  pub certificates_exist : Bool
  pub open_configuration : Option ℕ
  pub load_credential : Bool
  pub open_listener : Option ℕ
  pub parse_address : Bool
  pub start_listener : Bool

abbrev pub log : Op → Endpoint → Endpoint
log op s = record s { ops = s.ops ++ op ∷ [] }

unfoldable pub shut_down_connection : Endpoint → Endpoint
shut_down_connection s = elim s.client_connection [
  | none ↦ s
  | some c ↦ if s.api then record s { shut_down = s.shut_down ++ c ∷ [] } else s
]

unfoldable pub close_listener : Endpoint → Endpoint
close_listener s = elim s.listener [
  | none ↦ s
  | some h ↦ if s.api then log (closed (listener h)) (record s { listener = none }) else s
]

unfoldable pub close_configuration : Endpoint → Endpoint
close_configuration s = elim s.configuration [
  | none ↦ s
  | some h ↦ if s.api then log (closed (configuration h)) (record s { configuration = none }) else s
]

unfoldable pub close_registration : Endpoint → Endpoint
close_registration s = elim s.registration [
  | none ↦ s
  | some h ↦ if s.api then log (closed (registration h)) (record s { registration = none }) else s
]

unfoldable pub close_api : Endpoint → Endpoint
close_api s = if s.api then log (closed api_table) (record s { api = false }) else s

unfoldable pub stop : Endpoint → Endpoint
stop s =
    let t = close_api (
      close_registration (
        close_configuration
          (close_listener (shut_down_connection (record s { receiving_file = false }))))) in
    record t { running = false }

-- With a handle or without one.
unfoldable pub configure : StartEnv → Option ℕ → Endpoint → Endpoint × Bool
configure env none s = (record s { configuration = none }, false)
configure env (some h) s =
    let held = log (opened (configuration h)) (record s { configuration = some h }) in
    if not env.load_credential
    then (log (closed (configuration h)) (record held { configuration = none }), false)
    else (held, true)

unfoldable pub open_configuration : StartEnv → Endpoint → Endpoint × Bool
open_configuration env s =
    if not env.certificates_exist then (s, false) else configure env env.open_configuration s

unfoldable pub listen : StartEnv → Option ℕ → Endpoint → Endpoint × Bool
listen env none s = (record s { listener = none }, false)
listen env (some h) s =
    let held = log (opened (listener h)) (record s { listener = some h }) in
    let released = log (closed (listener h)) (record held { listener = none }) in
    if not env.parse_address
    then (released, false)
    else if not env.start_listener
    then (released, false)
    else (held, true)

unfoldable pub open_listener : StartEnv → Endpoint → Endpoint × Bool
open_listener env s = listen env env.open_listener s

-- `start` behind `MsQuicOpen2`.
unfoldable pub register : StartEnv → Option ℕ → Endpoint → Endpoint × Bool
register env none s = (stop (record s { registration = none }), false)
register env (some h) s =
    let (c, configured) =
      open_configuration env (log (opened (registration h)) (record s { registration = some h })) in
    let (l, listening) = open_listener env c in
    if not configured
    then (stop c, false)
    else if not listening
    then (stop l, false)
    else (record l { running = true }, true)

-- The second result is the function's.
unfoldable pub start : StartEnv → Endpoint → Endpoint × Bool
start env s =
    if s.running
    then (s, true)
    else if not env.open_api
    then (record s { api = false }, false)
    else register env env.open_registration (log (opened api_table) (record s { api = true }))
