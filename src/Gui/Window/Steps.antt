-- ===== src/Gui/Window/Steps.antt =====
-- The invariants of the window are kept by all that happens.
use lft.Base.{true, ◌≡◌, arith, List, [], ◌∷◌, if_cases}
use lft.Gui.{Qt}
use lft.Gui.SendPage.{
  reset_send, refresh_peers, set_send_busy, on_browse_thread_finished, browse_file, start_send,
  send_chosen_file, on_send_thread_finished, on_send_page_status, on_browse_finished,
  on_send_progress, on_send_finished,
}
use lft.Gui.RecvPage.{
  reset_recv, set_recv_busy, browse_out_dir, start_receive, on_recv_status, on_recv_progress,
  on_recv_finished, on_worker_thread_finished,
}
use lft.Gui.Window.{
  App, Event, click_receive, click_send_file, click_back, click_refresh, click_send, click_start,
  choose_file, type_host, choose_dir, type_name, select, browse_status, send_status, recv_status,
  browse_finished, send_progress, recv_progress, send_finished, recv_finished, recv_asks,
  browse_thread_ends, send_thread_ends, recv_thread_ends, close_dialog, allowed, happen, step,
  run_app, with_effect, with_recv_effect, show_home, show_receive, show_send, with_recv_finished,
  closed,
}
use lft.Gui.Window.Guarded.{SendGuarded, RecvGuarded}

module _ (qt : Qt) where
  -- The send page after each event that can happen.
  happen-SendGuarded :
      (e : Event) (a : App)
      → SendGuarded a
      → RecvGuarded a
      → allowed e a ≡ true
      → SendGuarded (happen qt e a)
  unfolding allowed happen show_home show_receive show_send with_effect closed refresh_peers
      reset_send send_chosen_file set_send_busy on_send_thread_finished on_browse_thread_finished
      on_send_page_status on_browse_finished on_send_progress on_send_finished browse_file
      with_recv_effect with_recv_finished on_recv_finished
  happen-SendGuarded click_receive a s r h = ground arith
  happen-SendGuarded click_send_file a s r h = ground arith
  happen-SendGuarded click_back a s r h = ground arith
  happen-SendGuarded click_refresh a s r h = ground arith
  happen-SendGuarded click_send a s r h = ground arith
  happen-SendGuarded click_start a s r h = ground arith
  happen-SendGuarded (choose_file t) a s r h = ground arith
  happen-SendGuarded (type_host t) a s r h = ground arith
  happen-SendGuarded (choose_dir t) a s r h = ground arith
  happen-SendGuarded (type_name t) a s r h = ground arith
  happen-SendGuarded (select n) a s r h = ground arith
  happen-SendGuarded (browse_status t) a s r h = ground arith
  happen-SendGuarded (send_status t) a s r h = ground arith
  happen-SendGuarded (recv_status t) a s r h = ground arith
  happen-SendGuarded (browse_finished rows t) a s r h = ground arith
  happen-SendGuarded (send_progress p t) a s r h = ground arith
  happen-SendGuarded (recv_progress p t) a s r h = ground arith
  happen-SendGuarded (send_finished ok t) a s r h = ground arith
  happen-SendGuarded (recv_finished ok t) a s r h = ground arith
  happen-SendGuarded (recv_asks name size) a s r h = ground arith
  happen-SendGuarded browse_thread_ends a s r h = ground arith
  happen-SendGuarded send_thread_ends a s r h = ground arith
  happen-SendGuarded recv_thread_ends a s r h = ground arith
  happen-SendGuarded close_dialog a s r h = ground arith

  -- The receiving page after each event that can happen.
  happen-RecvGuarded :
      (e : Event) (a : App)
      → SendGuarded a
      → RecvGuarded a
      → allowed e a ≡ true
      → RecvGuarded (happen qt e a)
  unfolding allowed happen show_home show_receive show_send with_effect closed refresh_peers
      reset_send send_chosen_file set_send_busy start_send with_recv_effect start_receive reset_recv
      set_recv_busy on_recv_status on_recv_progress browse_out_dir with_recv_finished
      on_recv_finished on_worker_thread_finished
  happen-RecvGuarded click_receive a s r h = ground arith
  happen-RecvGuarded click_send_file a s r h = ground arith
  happen-RecvGuarded click_back a s r h = ground arith
  happen-RecvGuarded click_refresh a s r h = ground arith
  happen-RecvGuarded click_send a s r h = ground arith
  happen-RecvGuarded click_start a s r h = ground arith
  happen-RecvGuarded (choose_file t) a s r h = ground arith
  happen-RecvGuarded (type_host t) a s r h = ground arith
  happen-RecvGuarded (choose_dir t) a s r h = ground arith
  happen-RecvGuarded (type_name t) a s r h = ground arith
  happen-RecvGuarded (select n) a s r h = ground arith
  happen-RecvGuarded (browse_status t) a s r h = ground arith
  happen-RecvGuarded (send_status t) a s r h = ground arith
  happen-RecvGuarded (recv_status t) a s r h = ground arith
  happen-RecvGuarded (browse_finished rows t) a s r h = ground arith
  happen-RecvGuarded (send_progress p t) a s r h = ground arith
  happen-RecvGuarded (recv_progress p t) a s r h = ground arith
  happen-RecvGuarded (send_finished ok t) a s r h = ground arith
  happen-RecvGuarded (recv_finished ok t) a s r h = ground arith
  happen-RecvGuarded (recv_asks name size) a s r h = ground arith
  happen-RecvGuarded browse_thread_ends a s r h = ground arith
  happen-RecvGuarded send_thread_ends a s r h = ground arith
  happen-RecvGuarded recv_thread_ends a s r h = ground arith
  happen-RecvGuarded close_dialog a s r h = ground arith

  pub step-Guarded :
      (e : Event) (a : App)
      → SendGuarded a
      → RecvGuarded a
      → SendGuarded (step qt e a) × RecvGuarded (step qt e a)
  unfolding step
  step-Guarded e a s r =
      if_cases (λ b. SendGuarded b × RecvGuarded b) (allowed e a)
        (λ h. (happen-SendGuarded e a s r h, happen-RecvGuarded e a s r h)) (λ h. (s, r))

  pub run_app-Guarded :
      (events : List Event) (a : App)
      → SendGuarded a
      → RecvGuarded a
      → SendGuarded (run_app qt events a) × RecvGuarded (run_app qt events a)
  unfolding run_app
  run_app-Guarded [] a s r = (s, r)
  run_app-Guarded (e ∷ events) a s r =
      let (t, u) = step-Guarded e a s r in run_app-Guarded events (step qt e a) t u
