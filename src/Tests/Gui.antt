-- ===== src/Tests/Gui.antt =====
-- Runs of the graphical interface, and its theorems at concrete inputs.
use lft.Base.{
  ℕ, ◌≡◌, refl, true, false, List, [], ◌∷◌, none, arith, codes, equal, equal_refl, is_some, length,
  ◌≤◌,
}
use lft.Server.State.{FileReceiveResult, no_result}
use lft.Cli.Commands.{CliEnv, run_send}
use lft.Gui.{Text, Qt}
use lft.Progress.{draw_from, minus_one, make_progress}
use lft.Progress.Lines.{IsThrottled, draw_from-IsThrottled}
use lft.Gui.Workers.{
  RecvEnv, run_manual, run_connected, report, report_progress, recv_run, saved_message,
}
use lft.Gui.Workers.Send.{IsSame, host_args, verdict, run_manual-run_send}
use lft.Gui.Workers.Thread.{thread_run, IsLate, thread_run-IsLate}
use lft.Gui.Workers.Receive.{IsRecvRun, recv_run-IsRecvRun}
use lft.Gui.SendPage.{SendPage, new_send_page, send_chosen_file}
use lft.Gui.SendPage.Target.{IsClick, send_chosen_file-IsClick}
use lft.Gui.RecvPage.{set_recv_busy, reset_recv, start_receive}
use lft.Gui.Window.{
  App, Event, new_app, run_app, step, allowed, happen, with_recv_effect, show_receive,
  click_receive, click_start, recv_finished, recv_asks, is_working, shows_recv,
}
use lft.Gui.Window.Guarded.{RecvGuarded, new_app-RecvGuarded, new_app-SendGuarded}
use lft.Gui.Window.Steps.{run_app-Guarded}
use lft.Gui.Window.Home.{IsHome, Endings, settle, run_app-IsHome}
use lft.Gui.Window.Silent.{recv_finished-silent}

-- Texts of ASCII. An argument stands behind the format.
abbrev qt : Qt
qt = record {
  from_std = λ s. s;
  to_std = λ s. s;
  trimmed = λ s. s;
  arg = λ format args. elim args [ [] ↦ format | first ∷ rest ↦ first ];
  arg_number = λ format n. format;
  contains = λ text word. equal text (codes "Declined.pdf");
}

abbrev env : CliEnv
env = record {
  exists = λ path. true;
  is_directory = λ path. false;
  server_start = λ port. true;
  receive_file = λ dir. (true, false);
  find_by_name = λ name. none;
  connect = λ host port. true;
  send_file = λ path. (true, false);
}

abbrev host : Text
host = codes "10.0.0.7"

abbrev file : Text
file = codes "a.txt"

run_manual-run_send_example :
    IsSame (run_manual qt env [] file host 53317) (run_send env (host_args host 53317 file))
run_manual-run_send_example =
    run_manual-run_send qt env [] file host 53317 (λ e. absurd (ground arith))
      (λ e. absurd (ground arith)) (omega arith) (omega arith)

abbrev reports : List (ℕ × ℕ)
reports = (1, 2) ∷ (2, 2) ∷ []

thread_run-IsLate_example :
    IsLate (thread_run 9 (run_manual qt env reports file host 53317) [])
    × (length (run_manual qt env reports file host 53317) ≤ 9
        → is_some (verdict (thread_run 9 (run_manual qt env reports file host 53317) [])) ≡ true)
thread_run-IsLate_example = thread_run-IsLate qt env reports file host 53317 9

-- Both reports come, behind the three signals of the slot.
brings_progress : length (thread_run 10 (run_manual qt env reports file host 53317) []) ≡ 5
unfolding thread_run run_manual run_connected report report_progress
brings_progress = refl

-- A receiver whose user declines.
abbrev recv_env : RecvEnv
recv_env = record {
  absolute = λ path. path;
  is_directory = λ path. true;
  server_start = λ port. true;
  advertise = λ name port. true;
  host_name = none;
  receive_file = λ out. (false, record no_result { rejected = true });
}

recv_run-IsRecvRun_example : IsRecvRun recv_env true (recv_run qt recv_env (codes "in") [] 53317)
recv_run-IsRecvRun_example = recv_run-IsRecvRun qt recv_env (codes "in") [] 53317

abbrev typed : SendPage
typed = record new_send_page { file = file; manual_host = host }

send_chosen_file-IsClick_example : IsClick qt typed (send_chosen_file qt typed)
send_chosen_file-IsClick_example = send_chosen_file-IsClick qt typed

-- The user opens the receiving page and starts to receive, and a sender makes an offer.
abbrev started : List Event
started = click_receive ∷ click_start ∷ []

abbrev events : List Event
events = click_receive ∷ click_start ∷ recv_asks file 3 ∷ []

abbrev endings : Endings
endings = record {
  send_ok = true;
  send_text = [];
  recv_ok = true;
  recv_text = file;
  rows = [];
  browse_text = [];
}

run_app-IsHome_example :
    IsHome (run_app qt (settle endings) (run_app qt events (new_app (codes "in"))))
run_app-IsHome_example = run_app-IsHome qt (codes "in") events endings

abbrev receiving : App
receiving = run_app qt started (new_app (codes "in"))

receives : is_working receiving.recv_worker ≡ true
unfolding run_app step allowed happen with_recv_effect show_receive start_receive set_recv_busy
    reset_recv equal
receives = refl

no_dialog : is_some receiving.dialog ≡ false
unfolding run_app step allowed happen with_recv_effect show_receive start_receive set_recv_busy
    reset_recv equal
no_dialog = refl

receiving-RecvGuarded : RecvGuarded receiving
receiving-RecvGuarded =
    (run_app-Guarded qt started (new_app (codes "in")) (new_app-SendGuarded _)
      (new_app-RecvGuarded _)).1

abbrev result : FileReceiveResult
result = record no_result { path = codes "Declined.pdf" }

recv_finished-silent_example :
    let b = step qt (recv_finished true (saved_message qt result)) receiving in
    (is_some b.dialog ≡ false)
    × ((shows_recv b.shown ≡ true) × (b.recv.status ≡ saved_message qt result))
recv_finished-silent_example =
    recv_finished-silent qt receiving result (λ path size h. h) (equal_refl (codes "Declined.pdf"))
      receiving-RecvGuarded receives no_dialog

abbrev calls : List (ℕ × ℕ)
calls = (1, 500) ∷ (2, 500) ∷ (10, 500) ∷ (500, 500) ∷ []

draw_from-IsThrottled_example : IsThrottled calls (draw_from minus_one calls)
draw_from-IsThrottled_example = draw_from-IsThrottled 500 calls (omega arith) (ground arith)

-- No line is drawn where the output is a file.
no_terminal : make_progress false calls ≡ []
unfolding make_progress
no_terminal = refl
