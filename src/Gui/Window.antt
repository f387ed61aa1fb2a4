-- ===== src/Gui/Window.antt =====
-- `MainWindow` of src/gui/main_window.cpp over its pages, with the workers behind their threads,
-- as a step function on events: what the user does, and the signals as the pages' thread gets
-- them. A disabled button, a page that is not shown and a worker that does not run have no effect;
-- nor has the user on anything but the dialog while one is open.
pub mod Guarded
pub mod Steps
pub mod Home
pub mod Silent
use lft.Base.{
  ℕ, zero, suc, Bool, true, false, not, ◌&&◌, List, [], ◌∷◌, Option, none, some, is_some,
  if◌then◌else◌,
}
use lft.Gui.{Text, Qt, PeerRow}
use lft.Gui.SendPage.{
  SendPage, new_send_page, Work, browse_work, send_work, Effect, reset_send, refresh_peers,
  on_browse_thread_finished, browse_file, send_chosen_file, on_send_thread_finished,
  on_send_page_status, on_browse_finished, on_send_progress, on_send_finished,
}
use lft.Gui.RecvPage.{
  RecvPage, new_recv_page, reset_recv, browse_out_dir, RecvEffect, start_receive, offer_question,
  on_recv_status, on_recv_progress, Ending, failed, silent, complete, on_recv_finished,
  on_worker_thread_finished,
}

pub data Shown : Type 0 where
  home_page recv_page send_page : Shown

-- There is no thread, or its worker runs, or its worker's `finished` has been handled.
pub data Worker : Type 0 where
  absent working ending : Worker

abbrev pub is_working : Worker → Bool
is_working working = true
is_working _ = false

abbrev pub is_ending : Worker → Bool
is_ending ending = true
is_ending _ = false

abbrev pub is_alive : Worker → Bool
is_alive absent = false
is_alive _ = true

-- A dialog: behind one the page goes back, and one is the question for which the receiving worker
-- waits.
pub data Dialog : Type 0 where
  notice back_after question : Text → Dialog

pub record App : Type 0 where
  pub shown : Shown
  pub dialog : Option Dialog
  pub send : SendPage
  pub recv : RecvPage
  pub browse_worker : Worker
  pub send_worker : Worker
  pub recv_worker : Worker

abbrev pub new_app : Text → App
new_app downloads = record {
  shown = home_page;
  dialog = none;
  send = new_send_page;
  recv = new_recv_page downloads;
  browse_worker = absent;
  send_worker = absent;
  recv_worker = absent;
}

pub data Event : Type 0 where
  click_receive click_send_file click_back click_refresh click_send click_start : Event
  choose_file type_host choose_dir type_name : Text → Event
  select : ℕ → Event
  browse_status send_status recv_status : Text → Event
  browse_finished : List PeerRow → Text → Event
  send_progress recv_progress : ℕ → Text → Event
  send_finished recv_finished : Bool → Text → Event
  recv_asks : Text → ℕ → Event
  browse_thread_ends send_thread_ends recv_thread_ends close_dialog : Event

abbrev pub shows_home : Shown → Bool
shows_home home_page = true
shows_home _ = false

abbrev pub shows_recv : Shown → Bool
shows_recv recv_page = true
shows_recv _ = false

abbrev pub shows_send : Shown → Bool
shows_send send_page = true
shows_send _ = false

-- The user can reach the page.
abbrev pub on_home : App → Bool
on_home a = shows_home a.shown && not (is_some a.dialog)

abbrev pub on_recv : App → Bool
on_recv a = shows_recv a.shown && not (is_some a.dialog)

abbrev pub on_send : App → Bool
on_send a = shows_send a.shown && not (is_some a.dialog)

abbrev pub opened : Option Text → Option Dialog → Option Dialog
opened none d = d
opened (some text) d = some (notice text)

abbrev pub with_work : Option Work → App → App
with_work none a = a
with_work (some browse_work) a = record a { browse_worker = working }
with_work (some (send_work file host port)) a = record a { send_worker = working }

unfoldable pub with_effect : Effect → App → App
with_effect e a = with_work e.work (record a { send = e.page; dialog = opened e.warning a.dialog })

unfoldable pub with_recv_effect : RecvEffect → App → App
with_recv_effect e a = record a {
  recv = e.page;
  dialog = opened e.warning a.dialog;
  recv_worker = if e.starts then working else a.recv_worker;
}

unfoldable pub show_home : App → App
show_home a = record a { shown = home_page }

unfoldable pub show_receive : App → App
show_receive a = record a { recv = reset_recv a.recv; shown = recv_page }

unfoldable pub show_send : App → App
unfolding with_effect
show_send a =
    let shown = record a { send = reset_send a.send; shown = send_page } in
    with_effect (refresh_peers shown.send) shown

abbrev pub nth : ℕ → List PeerRow → Option PeerRow
nth n [] = none
nth zero (r ∷ rows) = some r
nth (suc n) (r ∷ rows) = nth n rows

-- The Back button of the page that is shown.
abbrev pub can_go_back : App → Bool
can_go_back a = elim a.shown [
  | home_page ↦ false
  | recv_page ↦ a.recv.back_enabled
  | send_page ↦ a.send.back_enabled
]

abbrev pub ended : Ending → Option Dialog
ended (failed text) = some (notice text)
ended silent = none
ended (complete text) = some (back_after text)

unfoldable pub with_recv_finished : RecvPage × Ending → App → App
with_recv_finished (page, e) a = record a { recv = page; dialog = ended e; recv_worker = ending }

-- A dialog closes, and `exec()` returns.
unfoldable pub closed : Option Dialog → App → App
unfolding show_home
closed none a = a
closed (some (back_after text)) a = show_home (record a { dialog = none })
closed (some d) a = record a { dialog = none }

-- Whether the event can happen.
unfoldable pub allowed : Event → App → Bool
allowed click_receive a = on_home a
allowed click_send_file a = on_home a
allowed click_back a = not (is_some a.dialog) && can_go_back a
allowed click_refresh a = on_send a && a.send.refresh_enabled
allowed click_send a = on_send a && a.send.send_enabled
allowed click_start a = on_recv a && a.recv.start_enabled
allowed (choose_file f) a = on_send a
allowed (type_host h) a = on_send a && a.send.host_enabled
allowed (choose_dir d) a = on_recv a
allowed (type_name n) a = on_recv a && a.recv.name_enabled
allowed (select n) a = on_send a && a.send.list_enabled
allowed (browse_status t) a = is_working a.browse_worker
allowed (send_status t) a = is_working a.send_worker
allowed (recv_status t) a = is_working a.recv_worker && not (is_some a.dialog)
allowed (browse_finished rows t) a = is_working a.browse_worker
allowed (send_progress p t) a = is_alive a.send_worker
allowed (recv_progress p t) a = is_working a.recv_worker && not (is_some a.dialog)
allowed (send_finished ok t) a = is_working a.send_worker
allowed (recv_finished ok t) a = is_working a.recv_worker && not (is_some a.dialog)
allowed (recv_asks name size) a = is_working a.recv_worker && not (is_some a.dialog)
allowed browse_thread_ends a = is_ending a.browse_worker
allowed send_thread_ends a = is_ending a.send_worker
allowed recv_thread_ends a = is_ending a.recv_worker
allowed close_dialog a = is_some a.dialog

-- What it does then.
unfoldable pub happen : Qt → Event → App → App
unfolding with_effect with_recv_effect show_home show_receive show_send with_recv_finished closed
happen qt click_receive a = show_receive a
happen qt click_send_file a = show_send a
happen qt click_back a = show_home a
happen qt click_refresh a = with_effect (refresh_peers a.send) a
happen qt click_send a = with_effect (send_chosen_file qt a.send) a
happen qt click_start a = with_recv_effect (start_receive qt a.recv) a
happen qt (choose_file f) a = record a { send = browse_file f a.send }
happen qt (type_host h) a = record a { send = record (a.send) { manual_host = h } }
happen qt (choose_dir d) a = record a { recv = browse_out_dir d a.recv }
happen qt (type_name n) a = record a { recv = record (a.recv) { name = n } }
happen qt (select n) a = record a { send = record (a.send) { current_item = nth n a.send.peers } }
happen qt (browse_status t) a = record a { send = on_send_page_status t a.send }
happen qt (send_status t) a = record a { send = on_send_page_status t a.send }
happen qt (recv_status t) a = record a { recv = on_recv_status t a.recv }
happen qt (browse_finished rows t) a = record a {
  send = on_browse_finished qt rows t a.send;
  browse_worker = ending;
}
happen qt (send_progress p t) a = record a { send = on_send_progress qt p t a.send }
happen qt (recv_progress p t) a = record a { recv = on_recv_progress qt p t a.recv }
happen qt (send_finished ok t) a = record a {
  send = on_send_finished ok t a.send;
  dialog = some (back_after t);
  send_worker = ending;
}
happen qt (recv_finished ok t) a = with_recv_finished (on_recv_finished qt ok t a.recv) a
happen qt (recv_asks name size) a = record a {
  dialog = some (question (offer_question qt name size));
}
happen qt browse_thread_ends a = record a {
  send = on_browse_thread_finished a.send;
  browse_worker = absent;
}
happen qt send_thread_ends a = record a {
  send = on_send_thread_finished a.send;
  send_worker = absent;
}
happen qt recv_thread_ends a = record a {
  recv = on_worker_thread_finished a.recv;
  recv_worker = absent;
}
happen qt close_dialog a = closed a.dialog a

unfoldable pub step : Qt → Event → App → App
unfolding allowed happen
step qt e a = if allowed e a then happen qt e a else a

unfoldable pub run_app : Qt → List Event → App → App
unfolding step
run_app qt [] a = a
run_app qt (e ∷ events) a = run_app qt events (step qt e a)
