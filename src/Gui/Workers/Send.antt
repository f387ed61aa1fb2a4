-- ===== src/Gui/Workers/Send.antt =====
-- The sending worker against the command line.
use lft.Base.{
  ℕ, Bool, true, false, not, ◌||◌, ◌++◌, ap, ◌∙◌, List, [], ◌∷◌, map, Option, none, some, ◌≡◌, ◌≢◌,
  ◌≤◌, refl, Bytes, codes, equal, equal_iff, cut_at, starts_with, ◌==◌, if◌then◌else◌, if_alike,
  Bool-cases, inl, inr,
}
use lft.Wire.Number.{print_u64}
use lft.Cli.Flags.{
  find, emplace, is_no_flag, parse_from, parse_flags, reject_unknown_flags, is_allowed, flag_or,
}
use lft.Cli.Port.{parse_port-print_u64}
use lft.Cli.Commands.{
  connect, send, disconnect, CliEnv, Outcome, run_send, send_with, send_at, connect_and_send,
}
use lft.Gui.{Text, Qt, Signal, status, progress, finished}
use lft.Gui.Workers.{
  Step, call, emit, on_progress, finished_send, run_connected, run_manual, signals, calls,
}

-- What the first `finished` says.
abbrev pub verdict : List Signal → Option Bool
verdict [] = none
verdict (status t ∷ rest) = verdict rest
verdict (progress p t ∷ rest) = verdict rest
verdict (finished ok t ∷ rest) = some ok

-- `lft send --host <host> --port <port> --file <path>`.
abbrev pub host_args : Bytes → ℕ → Bytes → List Bytes
host_args host port path =
    codes "--host" ∷ host ∷ codes "--port" ∷ print_u64 port ∷ codes "--file" ∷ path ∷ []

not_empty : (s : Bytes) → s ≢ [] → equal s [] ≡ false
not_empty s h = elim (Bool-cases (equal s [])) [
  | inl e ↦ absurd (h ((equal_iff s []).0 e))
  | inr e ↦ e
]

run_send-host_args :
    (env : CliEnv) (host : Bytes) (port : ℕ) (path : Bytes)
    → host ≢ []
    → path ≢ []
    → 1 ≤ port
    → port ≤ 65535
    → run_send env (host_args host port path) ≡ (
        if not (env.exists path) || env.is_directory path
        then ([], 1)
        else connect_and_send env [] path host port)
unfolding run_send send_with send_at parse_flags parse_from is_no_flag starts_with cut_at emplace
    find equal reject_unknown_flags is_allowed flag_or
run_send-host_args env host port path a b low high =
    rw (not_empty host a, not_empty path b, parse_port-print_u64 port low high) refl

-- A run of the worker that asks what the command asks, and ends well just when the exit code is 0.
pub record IsSame (run : List Step) (o : Outcome) : Type 0 where
  pub asked : calls run ≡ o.0
  pub ended : verdict (signals run) ≡ some (o.1 == 0)

verdict-finished_send :
    (qt : Qt) (file_path : Text) (ok rejected : Bool)
    → verdict (finished_send qt file_path ok rejected ∷ []) ≡ some ((if not ok then 1 else 0) == 0)
verdict-finished_send qt file_path true rejected = refl
verdict-finished_send qt file_path false true = refl
verdict-finished_send qt file_path false false = refl

-- The calls of the progress callback ask for nothing, and emit nothing of the slot's own.
calls-on_progress :
    (qt : Qt) (reports : List (ℕ × ℕ)) (rest : List Step)
    → calls (map (on_progress qt) reports ++ rest) ≡ calls rest
calls-on_progress qt [] rest = refl
calls-on_progress qt (r ∷ reports) rest = calls-on_progress qt reports rest

signals-on_progress :
    (qt : Qt) (reports : List (ℕ × ℕ)) (rest : List Step)
    → signals (map (on_progress qt) reports ++ rest) ≡ signals rest
signals-on_progress qt [] rest = refl
signals-on_progress qt (r ∷ reports) rest = signals-on_progress qt reports rest

module _ (qt : Qt) (env : CliEnv) (reports : List (ℕ × ℕ)) (file_path host : Text) (port : ℕ) where
  run_connected-IsSame :
      IsSame
        (run_connected qt env reports file_path host port)
        (connect_and_send env [] (qt.to_std file_path) (qt.to_std host) port)
  unfolding run_connected connect_and_send
  run_connected-IsSame =
      let (ok, rejected) = env.send_file (qt.to_std file_path) in
      if_alike IsSame (not (env.connect (qt.to_std host) port))
        (record { asked = refl; ended = refl })
        (record {
          asked =
              ap (λ later. connect (qt.to_std host) port ∷ send (qt.to_std file_path) ∷ later)
                (calls-on_progress qt reports
                  (call disconnect ∷ emit (finished_send qt file_path ok rejected) ∷ []));
          ended =
              ap verdict (
                signals-on_progress qt reports
                  (call disconnect ∷ emit (finished_send qt file_path ok rejected) ∷ []))
              ∙ verdict-finished_send qt file_path ok rejected;
        })

  run_manual-IsSame : IsSame (run_manual qt env reports file_path host port) (
      if not (env.exists (qt.to_std file_path)) || env.is_directory (qt.to_std file_path)
      then ([], 1)
      else connect_and_send env [] (qt.to_std file_path) (qt.to_std host) port)
  unfolding run_manual
  run_manual-IsSame =
      let path = qt.to_std file_path in
      if_alike IsSame (not (env.exists path) || env.is_directory path)
        (record { asked = refl; ended = refl }) run_connected-IsSame

  -- For a host and a path that are not empty and a port of 1 to 65535, whatever the file system,
  -- the client and the receiver answer: the worker's send asks the same of the client, in the same
  -- order, as `lft send --host --port --file` with that target, and its `finished` says true just
  -- when that command exits with 0.
  pub run_manual-run_send :
      qt.to_std host ≢ []
      → qt.to_std file_path ≢ []
      → 1 ≤ port
      → port ≤ 65535
      → IsSame
          (run_manual qt env reports file_path host port)
          (run_send env (host_args (qt.to_std host) port (qt.to_std file_path)))
  run_manual-run_send a b low high =
      rw (run_send-host_args env (qt.to_std host) port (qt.to_std file_path) a b low high)
        run_manual-IsSame
