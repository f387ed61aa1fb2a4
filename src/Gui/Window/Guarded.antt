-- ===== src/Gui/Window/Guarded.antt =====
-- What holds of the window between events.
use lft.Base.{Bool, true, false, not, ◌&&◌, ◌||◌, Option, some, is_some, ◌≡◌, arith}
use lft.Gui.{Text}
use lft.Gui.SendPage.{SendPage}
use lft.Gui.RecvPage.{RecvPage}
use lft.Gui.Window.{App, Dialog, question, is_working, is_alive, shows_send, shows_recv, new_app}

-- The dialog is the receiving worker's question.
abbrev pub asks : Option Dialog → Bool
asks (some (question t)) = true
asks _ = false

-- The buttons and the inputs that start or leave a transfer.
abbrev pub send_open : SendPage → Bool
send_open p = p.send_enabled && (p.back_enabled && (p.list_enabled && p.host_enabled))

abbrev pub send_shut : SendPage → Bool
send_shut p = not (p.send_enabled || (p.back_enabled || (p.list_enabled || p.host_enabled)))

abbrev pub recv_open : RecvPage → Bool
recv_open p = p.start_enabled && (p.back_enabled && p.name_enabled)

abbrev pub recv_shut : RecvPage → Bool
recv_shut p = not (p.start_enabled || (p.back_enabled || p.name_enabled))

-- The pointers to the threads and the workers agree, a send that runs has its page shown and shut
-- with no dialog open, and one that does not leaves it open.
pub record SendGuarded (a : App) : Type 0 where
  pub browse_pointer : a.send.browse_thread ≡ is_alive a.browse_worker
  pub send_pointer : a.send.send_thread ≡ is_alive a.send_worker
  pub one_kind : a.send.send_thread ≡ true → a.send.refresh_enabled ≡ false
  pub sending :
      is_working a.send_worker ≡ true
      → (shows_send a.shown && (send_shut a.send && not (is_some a.dialog))) ≡ true
  pub idle : is_alive a.send_worker ≡ false → send_open a.send ≡ true
  pub quiet :
      is_alive a.send_worker ≡ false
      → (is_alive a.browse_worker || (a.send.refresh_enabled || not (shows_send a.shown))) ≡ true

-- The same of receiving, whose worker may have asked its question.
pub record RecvGuarded (a : App) : Type 0 where
  pub recv_pointer : a.recv.worker_thread ≡ is_alive a.recv_worker
  pub receiving :
      is_working a.recv_worker ≡ true
      → (shows_recv a.shown && (recv_shut a.recv && (asks a.dialog || not (is_some a.dialog))))
        ≡ true
  pub idle : is_working a.recv_worker ≡ false → recv_open a.recv ≡ true
  pub asking : asks a.dialog ≡ true → is_working a.recv_worker ≡ true

pub new_app-SendGuarded : (downloads : Text) → SendGuarded (new_app downloads)
new_app-SendGuarded downloads = ground arith

pub new_app-RecvGuarded : (downloads : Text) → RecvGuarded (new_app downloads)
new_app-RecvGuarded downloads = ground arith

-- There is no more than one transfer; while one runs its page is shown and shut; while none does
-- the pages are open, and receivers are searched for or can be.
pub record OneTransfer (a : App) : Type 0 where
  pub one : (is_working a.send_worker && is_working a.recv_worker) ≡ false
  pub sending : is_working a.send_worker ≡ true → (shows_send a.shown && send_shut a.send) ≡ true
  pub receiving : is_working a.recv_worker ≡ true → (shows_recv a.shown && recv_shut a.recv) ≡ true
  pub idle_send :
      is_alive a.send_worker ≡ false
      → (send_open a.send
          && (is_alive a.browse_worker || (a.send.refresh_enabled || not (shows_send a.shown))))
        ≡ true
  pub idle_recv : is_working a.recv_worker ≡ false → recv_open a.recv ≡ true

pub Guarded-OneTransfer : (a : App) → SendGuarded a → RecvGuarded a → OneTransfer a
Guarded-OneTransfer a s r = ground arith
