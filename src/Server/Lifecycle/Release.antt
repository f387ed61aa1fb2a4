-- ===== src/Server/Lifecycle/Release.antt =====
-- Every msquic object that `start` opens is closed again, in reverse order.
use lft.Base.{
  ℕ, Bool, true, false, not, List, [], ◌∷◌, ◌++◌, Option, none, some, ◌≡◌, refl, arith,
  Option-cases, inl, inr, if_both, if_cases,
}
use lft.Handles.{
  Handle, opened, closed, api_table, registration, configuration, listener, one, held_api,
  held_after, held_after-snoc, apply_op,
}
use lft.Server.Lifecycle.{
  Endpoint, StartEnv, log, shut_down_connection, close_listener, close_configuration,
  close_registration, close_api, stop, configure, open_configuration, listen, open_listener,
  register, start,
}

-- The objects that the members point to, the last one first.
abbrev pub held_by : Endpoint → List Handle
held_by s =
    one listener s.listener
    ++ (one configuration s.configuration ++ (one registration s.registration ++ held_api s.api))

-- The members point to just what is held.
record IsHeld (s : Endpoint) : Type 0 where
  held : held_after s.ops ≡ some (held_by s)
  api : s.api ≡ true

shut_down_connection-IsHeld : (s : Endpoint) → IsHeld s → IsHeld (shut_down_connection s)
unfolding shut_down_connection
shut_down_connection-IsHeld s v = elim (Option-cases s.client_connection) [
  | inl e ↦ ground (arith, v)
  | inr (c, e) ↦ ground (arith, v)
]

close_listener-IsHeld :
    (s : Endpoint) → IsHeld s → IsHeld (close_listener s) × ((close_listener s).listener ≡ none)
unfolding close_listener apply_op
close_listener-IsHeld s v = elim (Option-cases s.listener) [
  | inl e ↦ ground (arith, v)
  | inr (h, e) ↦ ground (arith, v, held_after-snoc s.ops (closed (listener h)) (held_by s) v.held)
]

close_configuration-IsHeld :
    (s : Endpoint)
    → IsHeld s
    → s.listener ≡ none
    → let t = close_configuration s in IsHeld t × (t.listener ≡ none) × (t.configuration ≡ none)
unfolding close_configuration apply_op
close_configuration-IsHeld s v l = elim (Option-cases s.configuration) [
  | inl e ↦ ground (arith, v, l)
  | inr (h, e) ↦
      ground (arith, v, l, held_after-snoc s.ops (closed (configuration h)) (held_by s) v.held)
]

close_registration-IsHeld :
    (s : Endpoint)
    → IsHeld s
    → (s.listener ≡ none) × (s.configuration ≡ none)
    → let t = close_registration s in
      IsHeld t × (t.listener ≡ none) × (t.configuration ≡ none) × (t.registration ≡ none)
unfolding close_registration apply_op
close_registration-IsHeld s v l = elim (Option-cases s.registration) [
  | inl e ↦ ground (arith, v, l)
  | inr (h, e) ↦
      ground (arith, v, l, held_after-snoc s.ops (closed (registration h)) (held_by s) v.held)
]

-- Nothing is held, and no member points to anything.
pub record IsIdle (s : Endpoint) : Type 0 where
  pub nothing_held : held_after s.ops ≡ some []
  pub no_api : s.api ≡ false
  pub no_registration : s.registration ≡ none
  pub no_configuration : s.configuration ≡ none
  pub no_listener : s.listener ≡ none
  pub not_running : s.running ≡ false

close_api-IsIdle :
    (s : Endpoint)
    → IsHeld s
    → (s.listener ≡ none) × (s.configuration ≡ none) × (s.registration ≡ none)
    → IsIdle (record (close_api s) { running = false })
unfolding close_api apply_op
close_api-IsIdle s v l =
    ground (arith, v, l, held_after-snoc s.ops (closed api_table) (held_by s) v.held)

stop-IsIdle : (s : Endpoint) → IsHeld s → IsIdle (stop s)
unfolding stop
stop-IsIdle s v =
    let quiet = record s { receiving_file = false } in
    let shut = shut_down_connection quiet in
    let first =
      close_listener-IsHeld shut
        (shut_down_connection-IsHeld quiet (record { held = v.held; api = v.api })) in
    let second = close_configuration-IsHeld (close_listener shut) first.0 first.1 in
    let t = close_configuration (close_listener shut) in
    let third = close_registration-IsHeld t second.0 (second.1, second.2) in
    close_api-IsIdle (close_registration t) third.0 (third.1, third.2, third.3)

-- What `open_configuration` and `open_listener` leave held.
configure-IsHeld :
    (env : StartEnv) (c : Option ℕ) (s : Endpoint)
    → IsHeld s
    → (s.listener ≡ none) × (s.configuration ≡ none)
    → IsHeld (configure env c s).0 × ((configure env c s).0.listener ≡ none)
unfolding configure apply_op
configure-IsHeld env none s v l = ground (arith, v, l)
configure-IsHeld env (some h) s v l =
    let held = s.ops ++ opened (configuration h) ∷ [] in
    let up = held_after-snoc s.ops (opened (configuration h)) (held_by s) v.held in
    let more = configuration h ∷ held_by s in
    ground (arith, v, l, up, held_after-snoc held (closed (configuration h)) more up)

listen-IsHeld :
    (env : StartEnv) (c : Option ℕ) (s : Endpoint)
    → IsHeld s
    → s.listener ≡ none
    → IsHeld (listen env c s).0
unfolding listen apply_op
listen-IsHeld env none s v l = ground (arith, v, l)
listen-IsHeld env (some h) s v l =
    let held = s.ops ++ opened (listener h) ∷ [] in
    let up = held_after-snoc s.ops (opened (listener h)) (held_by s) v.held in
    let more = listener h ∷ held_by s in
    ground (arith, v, l, up, held_after-snoc held (closed (listener h)) more up)

open_configuration-IsHeld :
    (env : StartEnv) (s : Endpoint)
    → IsHeld s
    → (s.listener ≡ none) × (s.configuration ≡ none)
    → IsHeld (open_configuration env s).0 × ((open_configuration env s).0.listener ≡ none)
unfolding open_configuration
open_configuration-IsHeld env s v l =
    if_both (λ (t : Endpoint × Bool). IsHeld t.0 × (t.0.listener ≡ none))
      (not env.certificates_exist) (v, l.0) (configure-IsHeld env env.open_configuration s v l)

-- The server runs and holds its four objects, or has been put back.
abbrev IsStarted : Endpoint × Bool → Type 0
IsStarted (s, true) = IsHeld s × (s.running ≡ true)
IsStarted (s, false) = IsIdle s

register-IsStarted :
    (env : StartEnv) (r : Option ℕ) (s : Endpoint)
    → IsHeld s
    → (s.listener ≡ none) × (s.configuration ≡ none) × (s.registration ≡ none)
    → IsStarted (register env r s)
unfolding register apply_op open_listener
register-IsStarted env none s v l =
    stop-IsIdle (record s { registration = none }) (ground (arith, v, l))
register-IsStarted env (some h) s v l =
    let t = log (opened (registration h)) (record s { registration = some h }) in
    let up : IsHeld t =
      ground (arith, v, l, held_after-snoc s.ops (opened (registration h)) (held_by s) v.held) in
    let configured = open_configuration-IsHeld env t up (l.0, l.1) in
    let c = (open_configuration env t).0 in
    let listening = listen-IsHeld env env.open_listener c configured.0 configured.1 in
    if_both IsStarted (not (open_configuration env t).1) (stop-IsIdle c configured.0) (
      if_both IsStarted (not (open_listener env c).1)
        (stop-IsIdle (open_listener env c).0 listening)
        (record { held = listening.held; api = listening.api }, refl))

start-IsStarted : (env : StartEnv) (s : Endpoint) → IsIdle s → IsStarted (start env s)
unfolding start apply_op
start-IsStarted env s v =
    let t = log (opened api_table) (record s { api = true }) in
    let up : IsHeld t =
      ground (arith, v, held_after-snoc s.ops (opened api_table) [] v.nothing_held) in
    let still : IsIdle (record s { api = false }) = ground (arith, v) in
    if_cases IsStarted s.running (λ e. absurd (ground (arith, v)))
      (λ e. if_both IsStarted (not env.open_api) still (
        register-IsStarted env env.open_registration t up
          (v.no_listener, v.no_configuration, v.no_registration)))

-- The server runs, and its members point to just what it holds.
pub record IsRunning (s : Endpoint) : Type 0 where
  pub all_held : held_after s.ops ≡ some (held_by s)
  pub running : s.running ≡ true
  pub released : IsIdle (stop s)

IsStarted-cases :
    (o : Endpoint × Bool) → IsStarted o → (o.1 ≡ true → IsRunning o.0) × (o.1 ≡ false → IsIdle o.0)
IsStarted-cases (s, true) (v, r) = (
  λ e. record { all_held = v.held; running = r; released = stop-IsIdle s v },
  λ e. absurd (ground arith),
)
IsStarted-cases (s, false) v = (λ e. absurd (ground arith), λ e. v)

-- From an idle server, and whatever msquic and the file system answer: if `start` returns true, the
-- server runs and holds just the objects that its members point to, and `stop` closes them all in
-- reverse order; if it returns false, all that it had opened has been closed in reverse order
-- already, and the server is idle again.
pub start-releases :
    (env : StartEnv) (s : Endpoint)
    → IsIdle s
    → let (t, ok) = start env s in (ok ≡ true → IsRunning t) × (ok ≡ false → IsIdle t)
start-releases env s v = IsStarted-cases (start env s) (start-IsStarted env s v)
