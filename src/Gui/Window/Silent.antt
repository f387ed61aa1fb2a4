-- ===== src/Gui/Window/Silent.antt =====
-- What the window shows of a receipt that went well.
use lft.Base.{true, false, codes, [], ◌∷◌, is_some, ◌≡◌, arith}
use lft.Server.State.{FileReceiveResult}
use lft.Gui.{Text, Qt}
use lft.Gui.Workers.{gui_format_bytes, saved_message}
use lft.Gui.RecvPage.{on_recv_finished, set_recv_busy}
use lft.Gui.Window.{
  App, recv_finished, allowed, happen, step, with_recv_finished, is_working, shows_recv,
}
use lft.Gui.Window.Guarded.{RecvGuarded}

abbrev pub declined : Text
declined = codes "declined"

-- For a file that was received into a path with "declined" in it, in any case, where
-- `QString::arg` puts a text in with all that it contains: though the file has been saved, no
-- dialog says so, and the receiving page stays.
pub recv_finished-silent :
    (qt : Qt) (a : App) (r : FileReceiveResult)
    → ((path size : Text)
        → qt.contains path declined ≡ true
        → qt.contains
            (qt.arg (codes "Saved to:\n%1\n\n(%2, SHA-256 verified)") (path ∷ size ∷ []))
            declined
          ≡ true)
    → qt.contains (qt.from_std r.path) declined ≡ true
    → RecvGuarded a
    → is_working a.recv_worker ≡ true
    → is_some a.dialog ≡ false
    → let b = step qt (recv_finished true (saved_message qt r)) a in
      (is_some b.dialog ≡ false)
      × ((shows_recv b.shown ≡ true) × (b.recv.status ≡ saved_message qt r))
unfolding step allowed happen with_recv_finished on_recv_finished set_recv_busy
recv_finished-silent qt a r puts named guarded runs free =
    let heard = puts (qt.from_std r.path) (gui_format_bytes qt r.bytes_received) named in
    ground (arith, heard)
