-- ===== src/Gui/Workers/Receive.antt =====
-- How the receiving worker ends.
use lft.Base.{
  ℕ, Bool, true, false, not, ◌&&◌, ◌||◌, List, [], ◌∷◌, ◌++◌, some, ◌≡◌, refl, arith, Bytes, All,
  if_cases,
}
use lft.Server.State.{FileReceiveResult}
use lft.Cli.Commands.{Action, receive_into, start_server, stop_server}
use lft.Gui.{Text, Qt, status, progress, finished}
use lft.Gui.Workers.{
  Step, emit, call, invoke, RecvEnv, ends_with_separator, with_separator, finished_receive,
  receive_in, recv_run, signals, calls,
}
use lft.Gui.Workers.Send.{verdict}

-- There is one `finished`, and it is the last step.
abbrev pub EndsOnce : List Step → Type 0
EndsOnce [] = ⊥
EndsOnce (emit (finished ok t) ∷ steps) = steps ≡ []
EndsOnce (emit (status t) ∷ steps) = EndsOnce steps
EndsOnce (emit (progress p t) ∷ steps) = EndsOnce steps
EndsOnce (call a ∷ steps) = EndsOnce steps
EndsOnce (invoke connection r ∷ steps) = EndsOnce steps

-- Whether the server runs behind the calls.
abbrev pub runs_after : RecvEnv → Bool → List Action → Bool
runs_after env runs [] = runs
runs_after env runs (start_server port ∷ rest) = runs_after env (env.server_start port) rest
runs_after env runs (stop_server ∷ rest) = runs_after env false rest
runs_after env runs (a ∷ rest) = runs_after env runs rest

-- A file is received into a path that ends with a separator.
abbrev pub IntoFolder : Action → Type 0
IntoFolder (receive_into out) = ends_with_separator out ≡ true
IntoFolder _ = Unit

-- `good` is what the verdict should be.
pub record IsRecvRun (env : RecvEnv) (good : Bool) (steps : List Step) : Type 0 where
  pub once : EndsOnce steps
  pub honest : verdict (signals steps) ≡ some good
  pub stopped : runs_after env false (calls steps) ≡ false
  pub folder : All IntoFolder (calls steps)

ends_with_separator-append : (path : Bytes) → ends_with_separator (path ++ b'/' ∷ []) ≡ true
unfolding ends_with_separator
ends_with_separator-append [] = refl
ends_with_separator-append (c ∷ []) = refl
ends_with_separator-append (c ∷ d ∷ path) = ends_with_separator-append (d ∷ path)

with_separator-ends : (path : Bytes) → ends_with_separator (with_separator path) ≡ true
unfolding with_separator
with_separator-ends path =
    if_cases (λ p. ends_with_separator p ≡ true) (ends_with_separator path) (λ e. e)
      (λ e. ends_with_separator-append path)

verdict-finished_receive :
    (qt : Qt) (ok : Bool) (r : FileReceiveResult)
    → (verdict (finished_receive qt ok r ∷ []) ≡ some (ok || r.rejected))
      × EndsOnce (emit (finished_receive qt ok r) ∷ [])
verdict-finished_receive qt true r = (refl, refl)
verdict-finished_receive qt false r =
    if_cases (λ s. (verdict (s ∷ []) ≡ some (false || r.rejected)) × EndsOnce (emit s ∷ []))
      (r.rejected) (λ e. (ground arith, refl)) (λ e. (ground arith, refl))

module _ (qt : Qt) (env : RecvEnv) where
  receive_in-IsRecvRun :
      (out_path : Bytes) (name : Text) (port : ℕ)
      → let (ok, result) = env.receive_file (with_separator out_path) in
        IsRecvRun env
          (env.server_start port && (ok || result.rejected))
          (receive_in qt env out_path name port)
  unfolding receive_in
  receive_in-IsRecvRun out_path name port =
      let (ok, result) = env.receive_file (with_separator out_path) in
      let (said, once) = verdict-finished_receive qt ok result in
      let good = ok || result.rejected in
      if_cases (IsRecvRun env (env.server_start port && good)) (not (env.server_start port))
        (λ e. record {
          once = refl;
          honest = ground arith;
          stopped = ground arith;
          folder = (tt, tt);
        })
        (λ e. record {
          once = once;
          honest = ground (arith, said);
          stopped = refl;
          folder = (tt, (tt, (with_separator-ends out_path, (tt, tt))));
        })

  -- Whatever the file system, the server and the user answer, the run of the worker ends with just
  -- one `finished`. It says true just when the folder is there, the server listens on the port,
  -- and `receive_file` returned true or the user declined; every failure says false. A server that
  -- was started has been stopped by then, and the file is received into a path that ends with a
  -- separator.
  pub recv_run-IsRecvRun :
      (out_dir name : Text) (port : ℕ)
      → let out_path = env.absolute (qt.to_std out_dir) in
        let (ok, result) = env.receive_file (with_separator out_path) in
        IsRecvRun env
          (env.is_directory out_path && (env.server_start port && (ok || result.rejected)))
          (recv_run qt env out_dir name port)
  unfolding recv_run
  recv_run-IsRecvRun out_dir name port =
      let out_path = env.absolute (qt.to_std out_dir) in
      let (ok, result) = env.receive_file (with_separator out_path) in
      let rest = receive_in-IsRecvRun out_path name port in
      let good = env.server_start port && (ok || result.rejected) in
      if_cases (IsRecvRun env (env.is_directory out_path && good)) (not (env.is_directory out_path))
        (λ e. record { once = refl; honest = ground arith; stopped = refl; folder = (tt, tt) })
        (λ e. record {
          once = rest.once;
          honest = ground (arith, rest.honest);
          stopped = rest.stopped;
          folder = (tt, rest.folder);
        })
