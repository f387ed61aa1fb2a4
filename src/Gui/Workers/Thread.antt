-- ===== src/Gui/Workers/Thread.antt =====
-- The thread of the sending worker: its slot, and the invocations that the progress callback makes
-- on the worker itself meanwhile.
use Prim.{Unit, tt}
use lft.Base.{
  ℕ, zero, suc, Bool, true, false, not, ◌||◌, ◌≤◌, List, [], ◌∷◌, ◌++◌, map, ◌≡◌, refl, arith,
  length, is_some, All, if_both,
}
use lft.Cli.Commands.{CliEnv, disconnect}
use lft.Gui.{Text, Qt, Signal, status, progress, finished}
use lft.Gui.Workers.{
  queued, direct, Step, emit, call, invoke, on_progress, finished_send, report_progress,
  run_connected, run_manual,
}
use lft.Gui.Workers.Send.{verdict}

-- The signals that a thread emits in this many steps, with the rest of the slot that runs and the
-- queue of its event loop. As Qt documents it, a direct invocation runs at once; a queued one waits
-- in the queue of its object's thread, here the same, until control returns to the event loop.
unfoldable pub thread_run : ℕ → List Step → List (ℕ × Text) → List Signal
thread_run zero steps queue = []
thread_run (suc n) (emit s ∷ steps) queue = s ∷ thread_run n steps queue
thread_run (suc n) (call a ∷ steps) queue = thread_run n steps queue
thread_run (suc n) (invoke queued r ∷ steps) queue = thread_run n steps (queue ++ r ∷ [])
thread_run (suc n) (invoke direct r ∷ steps) queue = report_progress r ∷ thread_run n steps queue
thread_run (suc n) [] (r ∷ queue) = report_progress r ∷ thread_run n [] queue
thread_run (suc n) [] [] = []

abbrev pub IsProgress : Signal → Type 0
IsProgress (progress p t) = Unit
IsProgress _ = ⊥

-- All progress comes behind the end.
abbrev pub IsLate : List Signal → Type 0
IsLate [] = Unit
IsLate (status t ∷ rest) = IsLate rest
IsLate (progress p t ∷ rest) = ⊥
IsLate (finished ok t ∷ rest) = All IsProgress rest

-- A slot that ends with `finished`, and emits no progress itself.
abbrev EndsWell : List Step → Type 0
EndsWell [] = ⊥
EndsWell (emit (status t) ∷ steps) = EndsWell steps
EndsWell (emit (progress p t) ∷ steps) = ⊥
EndsWell (emit (finished ok t) ∷ steps) = steps ≡ []
EndsWell (call a ∷ steps) = EndsWell steps
EndsWell (invoke queued r ∷ steps) = EndsWell steps
EndsWell (invoke direct r ∷ steps) = ⊥

queue-IsProgress : (n : ℕ) (queue : List (ℕ × Text)) → All IsProgress (thread_run n [] queue)
unfolding thread_run report_progress
queue-IsProgress zero queue = tt
queue-IsProgress (suc n) [] = tt
queue-IsProgress (suc n) (r ∷ queue) = (tt, queue-IsProgress n queue)

EndsWell-IsLate :
    (n : ℕ) (steps : List Step) (queue : List (ℕ × Text))
    → EndsWell steps
    → IsLate (thread_run n steps queue)
unfolding thread_run
EndsWell-IsLate zero steps queue h = tt
EndsWell-IsLate (suc n) [] queue h = absurd h
EndsWell-IsLate (suc n) (emit (status t) ∷ steps) queue h = EndsWell-IsLate n steps queue h
EndsWell-IsLate (suc n) (emit (progress p t) ∷ steps) queue h = absurd h
EndsWell-IsLate (suc n) (emit (finished ok t) ∷ steps) queue h = rw h (queue-IsProgress n queue)
EndsWell-IsLate (suc n) (call a ∷ steps) queue h = EndsWell-IsLate n steps queue h
EndsWell-IsLate (suc n) (invoke queued r ∷ steps) queue h =
    EndsWell-IsLate n steps (queue ++ r ∷ []) h
EndsWell-IsLate (suc n) (invoke direct r ∷ steps) queue h = absurd h

EndsWell-ends :
    (n : ℕ) (steps : List Step) (queue : List (ℕ × Text))
    → EndsWell steps
    → length steps ≤ n
    → is_some (verdict (thread_run n steps queue)) ≡ true
unfolding thread_run
EndsWell-ends n [] queue h le = absurd h
EndsWell-ends zero (s ∷ steps) queue h le = absurd (omega arith)
EndsWell-ends (suc n) (emit (status t) ∷ steps) queue h le =
    EndsWell-ends n steps queue h (omega arith)
EndsWell-ends (suc n) (emit (progress p t) ∷ steps) queue h le = absurd h
EndsWell-ends (suc n) (emit (finished ok t) ∷ steps) queue h le = refl
EndsWell-ends (suc n) (call a ∷ steps) queue h le = EndsWell-ends n steps queue h (omega arith)
EndsWell-ends (suc n) (invoke queued r ∷ steps) queue h le =
    EndsWell-ends n steps (queue ++ r ∷ []) h (omega arith)
EndsWell-ends (suc n) (invoke direct r ∷ steps) queue h le = absurd h

on_progress-EndsWell :
    (qt : Qt) (reports : List (ℕ × ℕ)) (rest : List Step)
    → EndsWell rest
    → EndsWell (map (on_progress qt) reports ++ rest)
on_progress-EndsWell qt [] rest h = h
on_progress-EndsWell qt (r ∷ reports) rest h = on_progress-EndsWell qt reports rest h

finished_send-EndsWell :
    (qt : Qt) (file_path : Text) (ok rejected : Bool)
    → EndsWell (call disconnect ∷ emit (finished_send qt file_path ok rejected) ∷ [])
finished_send-EndsWell qt file_path true rejected = refl
finished_send-EndsWell qt file_path false true = refl
finished_send-EndsWell qt file_path false false = refl

module _ (qt : Qt) (env : CliEnv) (reports : List (ℕ × ℕ)) (file_path host : Text) (port : ℕ) where
  run_connected-EndsWell : EndsWell (run_connected qt env reports file_path host port)
  unfolding run_connected
  run_connected-EndsWell =
      let (ok, rejected) = env.send_file (qt.to_std file_path) in
      if_both EndsWell (not (env.connect (qt.to_std host) port)) refl
        (on_progress-EndsWell qt reports _ (finished_send-EndsWell qt file_path ok rejected))

  run_manual-EndsWell : EndsWell (run_manual qt env reports file_path host port)
  unfolding run_manual
  run_manual-EndsWell =
      let path = qt.to_std file_path in
      if_both EndsWell (not (env.exists path) || env.is_directory path) refl run_connected-EndsWell

  -- However the transfer goes, whatever progress the client reports, and wherever the thread
  -- stops: the thread of the worker, which delivers a queued invocation when no slot runs, emits
  -- no `progress` before `finished`, and nothing but `progress` behind it, so that the page hears
  -- of no progress while the file is being sent. And `finished` has come when the thread has made
  -- as many steps as the slot has.
  pub thread_run-IsLate :
      (n : ℕ)
      → let steps = run_manual qt env reports file_path host port in
        let emitted = thread_run n steps [] in
        IsLate emitted × (length steps ≤ n → is_some (verdict emitted) ≡ true)
  thread_run-IsLate n =
      let steps = run_manual qt env reports file_path host port in
      (EndsWell-IsLate n steps [] run_manual-EndsWell, EndsWell-ends n steps [] run_manual-EndsWell)
