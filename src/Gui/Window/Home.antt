-- ===== src/Gui/Window/Home.antt =====
-- What the window comes to: one transfer at a time, and the way back to the home page.
use lft.Base.{Bool, true, false, is_some, ◌≡◌, ap, ◌∙◌, arith, List, [], ◌∷◌}
use lft.Gui.{Qt, Text, PeerRow}
use lft.Gui.Window.{
  App, Event, click_back, browse_finished, send_finished, recv_finished, browse_thread_ends,
  send_thread_ends, recv_thread_ends, close_dialog, allowed, happen, step, run_app, closed,
  with_recv_finished, show_home, is_working, is_alive, shows_home, new_app,
}
use lft.Gui.Window.Guarded.{SendGuarded, RecvGuarded, new_app-SendGuarded, new_app-RecvGuarded}
use lft.Gui.Window.Steps.{run_app-Guarded}

abbrev pub open_dialog : App → Bool
open_dialog a = is_some a.dialog

module _ (qt : Qt) where
  dialog-close :
      (a : App)
      → let b = step qt close_dialog a in
        (open_dialog b ≡ false)
        × ((b.send_worker ≡ a.send_worker)
            × ((b.recv_worker ≡ a.recv_worker) × (b.browse_worker ≡ a.browse_worker)))
  unfolding step allowed happen closed show_home
  dialog-close a = ground arith

  send_worker-finished :
      (ok : Bool) (t : Text) (a : App)
      → let b = step qt (send_finished ok t) a in
        (is_working b.send_worker ≡ false)
        × ((b.recv_worker ≡ a.recv_worker) × (b.browse_worker ≡ a.browse_worker))
  unfolding step allowed happen
  send_worker-finished ok t a = ground arith

  send_worker-ends :
      (a : App)
      → is_working a.send_worker ≡ false
      → let b = step qt send_thread_ends a in
        (is_alive b.send_worker ≡ false)
        × ((b.recv_worker ≡ a.recv_worker)
            × ((b.browse_worker ≡ a.browse_worker) × (open_dialog b ≡ open_dialog a)))
  unfolding step allowed happen
  send_worker-ends a h = ground arith

  recv_worker-finished :
      (ok : Bool) (t : Text) (a : App)
      → open_dialog a ≡ false
      → let b = step qt (recv_finished ok t) a in
        (is_working b.recv_worker ≡ false)
        × ((b.send_worker ≡ a.send_worker) × (b.browse_worker ≡ a.browse_worker))
  unfolding step allowed happen with_recv_finished
  recv_worker-finished ok t a h = ground arith

  recv_worker-ends :
      (a : App)
      → is_working a.recv_worker ≡ false
      → let b = step qt recv_thread_ends a in
        (is_alive b.recv_worker ≡ false)
        × ((b.send_worker ≡ a.send_worker)
            × ((b.browse_worker ≡ a.browse_worker) × (open_dialog b ≡ open_dialog a)))
  unfolding step allowed happen
  recv_worker-ends a h = ground arith

  browse_worker-finished :
      (rows : List PeerRow) (t : Text) (a : App)
      → let b = step qt (browse_finished rows t) a in
        (is_working b.browse_worker ≡ false)
        × ((b.send_worker ≡ a.send_worker)
            × ((b.recv_worker ≡ a.recv_worker) × (open_dialog b ≡ open_dialog a)))
  unfolding step allowed happen
  browse_worker-finished rows t a = ground arith

  browse_worker-ends :
      (a : App)
      → is_working a.browse_worker ≡ false
      → let b = step qt browse_thread_ends a in
        (is_alive b.browse_worker ≡ false)
        × ((b.send_worker ≡ a.send_worker)
            × ((b.recv_worker ≡ a.recv_worker) × (open_dialog b ≡ open_dialog a)))
  unfolding step allowed happen
  browse_worker-ends a h = ground arith

-- At rest on the home page.
pub record IsHome (a : App) : Type 0 where
  pub home : shows_home a.shown ≡ true
  pub no_dialog : open_dialog a ≡ false
  pub no_send : is_alive a.send_worker ≡ false
  pub no_receipt : is_alive a.recv_worker ≡ false
  pub no_browse : is_alive a.browse_worker ≡ false

-- How the workers that run end: the arguments of their `finished`.
pub record Endings : Type 0 where
  pub send_ok : Bool
  pub send_text : Text
  pub recv_ok : Bool
  pub recv_text : Text
  pub rows : List PeerRow
  pub browse_text : Text

-- The dialog is closed, each worker ends and its dialog is closed, and the user clicks on Back.
abbrev pub settle : Endings → List Event
settle w =
    close_dialog
    ∷ send_finished w.send_ok w.send_text
    ∷ close_dialog
    ∷ send_thread_ends
    ∷ recv_finished w.recv_ok w.recv_text
    ∷ close_dialog
    ∷ recv_thread_ends
    ∷ browse_finished w.rows w.browse_text
    ∷ browse_thread_ends
    ∷ click_back
    ∷ []

module _ (qt : Qt) where
  click_back-IsHome :
      (a : App)
      → SendGuarded a
      → RecvGuarded a
      → open_dialog a ≡ false
      → is_alive a.send_worker ≡ false
      → is_alive a.recv_worker ≡ false
      → is_alive a.browse_worker ≡ false
      → IsHome (step qt click_back a)
  unfolding step allowed happen show_home
  click_back-IsHome a s r d x y z = ground arith

  -- The send's part: no dialog, and no thread that sends.
  settle_send :
      (w : Endings) (a : App)
      → let b = step qt send_thread_ends (
          step qt close_dialog
            (step qt (send_finished w.send_ok w.send_text) (step qt close_dialog a))) in
        (open_dialog b ≡ false) × (is_alive b.send_worker ≡ false)
  settle_send w a =
      let a1 = step qt close_dialog a in
      let a2 = step qt (send_finished w.send_ok w.send_text) a1 in
      let a3 = step qt close_dialog a2 in
      let (done, kept) = send_worker-finished qt w.send_ok w.send_text a1 in
      let (shut, (send, others)) = dialog-close qt a2 in
      let (gone, (recv, (browse, same))) = send_worker-ends qt a3 (ap is_working send ∙ done) in
      (same ∙ shut, gone)

  -- The receipt's part.
  settle_recv :
      (w : Endings) (a : App)
      → open_dialog a ≡ false
      → let b =
          step qt recv_thread_ends
            (step qt close_dialog (step qt (recv_finished w.recv_ok w.recv_text) a)) in
        (open_dialog b ≡ false)
        × ((is_alive b.recv_worker ≡ false) × (b.send_worker ≡ a.send_worker))
  settle_recv w a d =
      let a1 = step qt (recv_finished w.recv_ok w.recv_text) a in
      let a2 = step qt close_dialog a1 in
      let (done, (send1, browse1)) = recv_worker-finished qt w.recv_ok w.recv_text a d in
      let (shut, (send2, (recv2, browse2))) = dialog-close qt a1 in
      let (gone, (send3, (browse3, same))) = recv_worker-ends qt a2 (ap is_working recv2 ∙ done) in
      (same ∙ shut, (gone, send3 ∙ (send2 ∙ send1)))

  -- The part of the search for receivers.
  settle_browse :
      (w : Endings) (a : App)
      → let b = step qt browse_thread_ends (step qt (browse_finished w.rows w.browse_text) a) in
        (open_dialog b ≡ open_dialog a)
        × ((is_alive b.browse_worker ≡ false)
            × ((b.send_worker ≡ a.send_worker) × (b.recv_worker ≡ a.recv_worker)))
  settle_browse w a =
      let a1 = step qt (browse_finished w.rows w.browse_text) a in
      let (done, (send1, (recv1, same1))) = browse_worker-finished qt w.rows w.browse_text a in
      let (gone, (send2, (recv2, same2))) = browse_worker-ends qt a1 done in
      (same2 ∙ same1, (gone, (send2 ∙ send1, recv2 ∙ recv1)))

  settle-IsHome :
      (w : Endings) (a : App) → SendGuarded a → RecvGuarded a → IsHome (run_app qt (settle w) a)
  unfolding run_app
  settle-IsHome w a s r =
      let a1 = step qt send_thread_ends (
        step qt close_dialog
          (step qt (send_finished w.send_ok w.send_text) (step qt close_dialog a))) in
      let a2 =
        step qt recv_thread_ends
          (step qt close_dialog (step qt (recv_finished w.recv_ok w.recv_text) a1)) in
      let a3 = step qt browse_thread_ends (step qt (browse_finished w.rows w.browse_text) a2) in
      let (d1, sent) = settle_send w a in
      let (d2, (received, send2)) = settle_recv w a1 d1 in
      let (d3, (browsed, (send3, recv3))) = settle_browse w a2 in
      let before : List Event =
        close_dialog
        ∷ send_finished w.send_ok w.send_text
        ∷ close_dialog
        ∷ send_thread_ends
        ∷ recv_finished w.recv_ok w.recv_text
        ∷ close_dialog
        ∷ recv_thread_ends
        ∷ browse_finished w.rows w.browse_text
        ∷ browse_thread_ends
        ∷ [] in
      let (s3, r3) = run_app-Guarded qt before a s r in
      click_back-IsHome a3 s3 r3 (d3 ∙ d2) (ap is_alive (send3 ∙ send2) ∙ sent)
        (ap is_alive recv3 ∙ received) browsed

  -- Whatever has happened to the window: once the workers that run have ended, well or not, the
  -- dialogs that they and the user opened have been closed and Back has been clicked, the home
  -- page is shown, with no dialog and no thread left.
  pub run_app-IsHome :
      (downloads : Text) (events : List Event) (w : Endings)
      → IsHome (run_app qt (settle w) (run_app qt events (new_app downloads)))
  run_app-IsHome downloads events w =
      let (s, r) =
        run_app-Guarded qt events (new_app downloads) (new_app-SendGuarded downloads)
          (new_app-RecvGuarded downloads) in
      settle-IsHome w _ s r
