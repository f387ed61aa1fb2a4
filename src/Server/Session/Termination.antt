-- ===== src/Server/Session/Termination.antt =====
-- `receive_file` returns, whatever the peers and msquic do: each wait has a timeout.
use lft.Base.{
  ℕ, suc, ◌+◌, ◌-◌, ◌≤◌, Bool, true, false, List, [], ◌∷◌, Option, ◌≡◌, refl, arith, Bytes,
}
use lft.Wire.Header.{FileTransferHeader}
use lft.Server.State.{ServerEnv, Server}
use lft.Server.Session.{
  Phase, waiting_offer, prompting, transferring, draining, returned, System, receive_file, app_step,
  Event, stream_event, connection_event, listener_event, app, step, run,
}

-- How often the time of a wait ran out.
abbrev pub timeouts : List Event → ℕ
timeouts [] = 0
timeouts (app true ∷ es) = suc (timeouts es)
timeouts (e ∷ es) = timeouts es

-- At most as many waits are left; the prompt counts as one.
abbrev waits_left : Phase → ℕ
waits_left waiting_offer = 4
waits_left (prompting h) = 3
waits_left transferring = 2
waits_left (draining result) = 1
waits_left (returned result) = 0

app_step-le :
    (env : ServerEnv) (p : Phase) (s : Server)
    → (waits_left (app_step env true p s).phase ≤ waits_left p - 1)
      × (waits_left (app_step env false p s).phase ≤ waits_left p)
unfolding app_step
app_step-le env waiting_offer s = (ground arith, ground arith)
app_step-le env (prompting h) s = (ground arith, ground arith)
app_step-le env transferring s = (ground arith, ground arith)
app_step-le env (draining result) s = (ground arith, ground arith)
app_step-le env (returned result) s = (omega arith, omega arith)

step-le :
    (env : ServerEnv) (y : System) (e : Event)
    → waits_left (step env y e).phase ≤ waits_left y.phase - timeouts (e ∷ [])
unfolding step
step-le env y (stream_event stream e) = omega arith
step-le env y (connection_event connection e) = omega arith
step-le env y (listener_event e) = omega arith
step-le env y (app true) = omega (arith, (app_step-le env y.phase y.server).0)
step-le env y (app false) = omega (arith, (app_step-le env y.phase y.server).1)

timeouts-cons : (e : Event) (es : List Event) → timeouts (e ∷ es) ≡ timeouts (e ∷ []) + timeouts es
timeouts-cons (stream_event stream e) es = omega arith
timeouts-cons (connection_event connection e) es = omega arith
timeouts-cons (listener_event e) es = omega arith
timeouts-cons (app true) es = omega arith
timeouts-cons (app false) es = omega arith

run-le :
    (env : ServerEnv) (es : List Event) (y : System)
    → waits_left (run env y es).phase ≤ waits_left y.phase - timeouts es
unfolding run
run-le env [] y = omega arith
run-le env (e ∷ es) y =
    omega (arith, timeouts-cons e es, step-le env y e, run-le env es (step env y e))

returned_of_le : (p : Phase) → waits_left p ≤ 0 → (result : Bool) × (p ≡ returned result)
returned_of_le waiting_offer h = absurd (omega arith)
returned_of_le (prompting header) h = absurd (omega arith)
returned_of_le transferring h = absurd (omega arith)
returned_of_le (draining result) h = absurd (omega arith)
returned_of_le (returned result) h = (result, refl)

receive_file-le :
    (env : ServerEnv) (path : Bytes) (offer : Option (FileTransferHeader → Bool)) (bar : Bool)
    (s : Server)
    → waits_left (receive_file env path offer bar s).phase ≤ 4
unfolding receive_file
receive_file-le env path offer bar s = ground arith

-- Whatever the peers, msquic and the file system do: when the time of four waits has run out (the
-- answer of the prompt counts as one of them), if not before, `receive_file` has returned.
pub run_receive_file_returns :
    (env : ServerEnv) (path : Bytes) (offer : Option (FileTransferHeader → Bool)) (bar : Bool)
    (s : Server) (es : List Event)
    → 4 ≤ timeouts es
    → (result : Bool) × ((run env (receive_file env path offer bar s) es).phase ≡ returned result)
run_receive_file_returns env path offer bar s es h =
    let y = receive_file env path offer bar s in
    returned_of_le _ (omega (arith, h, run-le env es y, receive_file-le env path offer bar s))
