-- ===== src/Gui/SendPage/Target.antt =====
-- To whom the send page sends.
use lft.Base.{
  ℕ, true, false, [], Option, none, some, ◌≡◌, ◌≢◌, ◌⊎◌, refl, inl, inr, arith, equal, equal_iff,
  if_cases, sym, subst, codes,
}
use lft.Cli.Commands.{default_port}
use lft.Gui.{Text, Qt, PeerRow}
use lft.Gui.SendPage.{
  SendPage, send_work, Effect, quietly, set_send_busy, choose_target, target, start_send,
  send_chosen_file,
}

-- The receiver that is selected, with no host typed in, or the host that is typed in, at the
-- default port, with no receiver selected.
abbrev pub IsTarget : Qt → SendPage → Text → ℕ → Type 0
IsTarget qt p host port =
    ((qt.trimmed p.manual_host ≡ [])
      × (peer : PeerRow) × (p.current_item ≡ some peer)
      × (host ≡ peer.host)
      × (port ≡ peer.port))
    ⊎ ((qt.trimmed p.manual_host ≢ [])
        × ((p.current_item ≡ none) × ((host ≡ qt.trimmed p.manual_host) × (port ≡ default_port))))

abbrev pub warn : Text → SendPage → Effect
warn text p = record { page = p; warning = some text; work = none }

-- A click on Send opens a warning that fits, does nothing while a thread sends, or starts one
-- worker with the file and its target. The cases exclude each other.
pub data IsClick (qt : Qt) (p : SendPage) : Effect → Type 0 where
  no_file : qt.trimmed p.file ≡ [] → IsClick qt p (warn (codes "Choose a file first.") p)
  ignored : qt.trimmed p.file ≢ [] → p.send_thread ≡ true → IsClick qt p (quietly p)
  two_targets :
      qt.trimmed p.file ≢ []
      → p.send_thread ≡ false
      → qt.trimmed p.manual_host ≢ []
      → (peer : PeerRow) → p.current_item ≡ some peer
      → IsClick qt p
          (warn (codes "Pick either a device from the list or enter a manual IP, not both.") p)
  no_target :
      qt.trimmed p.file ≢ []
      → p.send_thread ≡ false
      → qt.trimmed p.manual_host ≡ []
      → p.current_item ≡ none
      → IsClick qt p (warn (codes "Select a receiver or enter a manual IP.") p)
  started :
      (page : SendPage) (host : Text) (port : ℕ)
      → qt.trimmed p.file ≢ []
      → p.send_thread ≡ false
      → page.send_thread ≡ true
      → page.send_enabled ≡ false
      → IsTarget qt p host port
      → IsClick qt p (record {
        page = page;
        warning = none;
        work = some (send_work (qt.trimmed p.file) host port);
      })

nil_of : (s : Text) → equal s [] ≡ true → s ≡ []
nil_of s e = (equal_iff s []).0 e

not_nil_of : (s : Text) → equal s [] ≡ false → s ≢ []
not_nil_of s e h = absurd (ground (arith, (equal_iff s []).1 h))

-- The warning where there is no target.
said-none :
    (qt : Qt) (p : SendPage)
    → p.current_item ≡ none
    → start_send qt p none ≡ warn (codes "Select a receiver or enter a manual IP.") p
unfolding start_send
said-none qt p e = ground (arith, e)

said-some :
    (qt : Qt) (p : SendPage) (peer : PeerRow)
    → p.current_item ≡ some peer
    → start_send qt p none
      ≡ warn (codes "Pick either a device from the list or enter a manual IP, not both.") p
unfolding start_send
said-some qt p peer e = ground (arith, e)

start_send-IsClick :
    (qt : Qt) (p : SendPage) (item : Option PeerRow)
    → qt.trimmed p.file ≢ []
    → p.send_thread ≡ false
    → p.current_item ≡ item
    → IsClick qt p (start_send qt p (choose_target item (qt.trimmed p.manual_host)))
unfolding start_send set_send_busy
start_send-IsClick qt p none file free e =
    let manual = qt.trimmed p.manual_host in
    if_cases (λ o. IsClick qt p (start_send qt p o)) (equal manual [])
      (λ h. subst (IsClick qt p) (sym (said-none qt p e)) (no_target file free (nil_of manual h) e))
      (λ h.
        started _ manual default_port file free refl refl
          (inr (not_nil_of manual h, (e, (refl, refl)))))
start_send-IsClick qt p (some peer) file free e =
    let manual = qt.trimmed p.manual_host in
    if_cases (λ o. IsClick qt p (start_send qt p o)) (equal manual [])
      (λ h.
        started _ peer.host peer.port file free refl refl
          (inl (nil_of manual h, peer, e, refl, refl)))
      (λ h.
        subst (IsClick qt p) (sym (said-some qt p peer e))
          (two_targets file free (not_nil_of manual h) peer e))

-- Whatever the page holds, a click on Send has just these effects. With no file chosen, or, while
-- no thread sends, with both a receiver selected and a host typed in, or with neither, the page
-- stays as it is and a warning says which of these it is. While a thread sends, nothing happens.
-- In every other case one worker starts, with the file and with the selected receiver's host and
-- port, or with the typed host and the default port, and the button is disabled.
pub send_chosen_file-IsClick : (qt : Qt) (p : SendPage) → IsClick qt p (send_chosen_file qt p)
unfolding send_chosen_file target
send_chosen_file-IsClick qt p =
    if_cases (IsClick qt p) (equal (qt.trimmed p.file) []) (λ e. no_file (nil_of _ e))
      (λ e.
        if_cases (IsClick qt p) p.send_thread (λ h. ignored (not_nil_of _ e) h)
          (λ h. start_send-IsClick qt p p.current_item (not_nil_of _ e) h refl))
