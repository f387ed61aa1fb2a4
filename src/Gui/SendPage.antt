-- ===== src/Gui/SendPage.antt =====
-- `SendPage` of src/gui/send_page.cpp: the members, the slots, and what the ends of its threads
-- do. A member that points to a thread counts as whether it is no null pointer.
pub mod Target
use lft.Base.{
  ℕ, Bool, true, false, not, ◌&&◌, List, [], ◌∷◌, Option, none, some, codes, equal, is_some, length,
  leb, if◌then◌else◌,
}
use lft.Cli.Commands.{default_port}
use lft.Gui.{Text, Qt, PeerRow}

pub record SendPage : Type 0 where
  pub peers : List PeerRow
  pub current_item : Option PeerRow
  pub file : Text
  pub manual_host : Text
  pub status : Text
  pub bar : ℕ
  pub bar_visible : Bool
  pub refresh_enabled : Bool
  pub send_enabled : Bool
  pub back_enabled : Bool
  pub list_enabled : Bool
  pub host_enabled : Bool
  pub browse_thread : Bool
  pub send_thread : Bool

-- The constructor.
abbrev pub new_send_page : SendPage
new_send_page = record {
  peers = [];
  current_item = none;
  file = [];
  manual_host = [];
  status = codes "Searching for receivers on the LAN…";
  bar = 0;
  bar_visible = false;
  refresh_enabled = true;
  send_enabled = true;
  back_enabled = true;
  list_enabled = true;
  host_enabled = true;
  browse_thread = false;
  send_thread = false;
}

-- What a started worker is to do: `BrowseWorker::run` or `SendWorker::runManual`.
pub data Work : Type 0 where
  browse_work : Work
  send_work : Text → Text → ℕ → Work

-- A slot's effect: the page, the text of a warning that opens, and the work that starts.
pub record Effect : Type 0 where
  pub page : SendPage
  pub warning : Option Text
  pub work : Option Work

abbrev pub quietly : SendPage → Effect
quietly page = record { page = page; warning = none; work = none }

unfoldable pub reset_send : SendPage → SendPage
reset_send p = record p {
  peers = [];
  current_item = none;
  bar_visible = false;
  bar = 0;
  file = [];
  manual_host = [];
  status = codes "Searching for receivers on the LAN…";
  refresh_enabled = false;
  send_enabled = true;
  back_enabled = true;
  list_enabled = true;
  host_enabled = true;
}

unfoldable pub refresh_peers : SendPage → Effect
refresh_peers p =
    if p.browse_thread then quietly p else if p.send_thread then quietly p else record {
      page = record p {
        peers = [];
        current_item = none;
        status = codes "Searching…";
        refresh_enabled = false;
        browse_thread = true;
      };
      warning = none;
      work = some browse_work;
    }

-- The lambda at the end of the browsing thread.
unfoldable pub on_browse_thread_finished : SendPage → SendPage
on_browse_thread_finished p = record p {
  browse_thread = false;
  refresh_enabled = not p.send_thread;
}

-- `browseFile`, with the file that the dialog gives.
unfoldable pub browse_file : Text → SendPage → SendPage
browse_file chosen p = if not (equal chosen []) then record p { file = chosen } else p

unfoldable pub set_send_busy : Bool → SendPage → SendPage
set_send_busy busy p =
    let idle = not busy && not p.send_thread in
    record p {
      refresh_enabled = idle;
      send_enabled = idle;
      back_enabled = idle;
      list_enabled = idle;
      host_enabled = idle;
    }

-- The host and the port: of the peer that is selected, or of the host that is typed in.
abbrev pub choose_target : Option PeerRow → Text → Option (Text × ℕ)
choose_target none manual = if equal manual [] then none else some (manual, default_port)
choose_target (some peer) manual = if equal manual [] then some (peer.host, peer.port) else none

unfoldable pub target : Qt → SendPage → Option (Text × ℕ)
target qt p = choose_target p.current_item (qt.trimmed p.manual_host)

unfoldable pub start_send : Qt → SendPage → Option (Text × ℕ) → Effect
unfolding set_send_busy
start_send qt p none = record {
  page = p;
  warning = some (
      if is_some p.current_item
      then codes "Pick either a device from the list or enter a manual IP, not both."
      else codes "Select a receiver or enter a manual IP.");
  work = none;
}
start_send qt p (some (host, port)) = record {
  page = record (set_send_busy true p) { bar_visible = true; bar = 0; send_thread = true };
  warning = none;
  work = some (send_work (qt.trimmed p.file) host port);
}

-- `sendFile`.
unfoldable pub send_chosen_file : Qt → SendPage → Effect
unfolding start_send
send_chosen_file qt p =
    if equal (qt.trimmed p.file) []
    then record { page = p; warning = some (codes "Choose a file first."); work = none }
    else if p.send_thread
    then quietly p
    else start_send qt p (target qt p)

-- The lambda at the end of the sending thread.
unfoldable pub on_send_thread_finished : SendPage → SendPage
unfolding set_send_busy
on_send_thread_finished p = set_send_busy false (record p { send_thread = false })

unfoldable pub on_send_page_status : Text → SendPage → SendPage
on_send_page_status text p = record p { status = text }

unfoldable pub on_browse_finished : Qt → List PeerRow → Text → SendPage → SendPage
on_browse_finished qt rows error p = record p {
  peers = rows;
  current_item = none;
  status =
      if not (equal error [])
      then error
      else qt.arg_number (codes "Found %1 receiver(s). Select one and send.") (length rows);
}

-- The range of the bar is 0 to 100, and a value out of it leaves the bar as it is.
abbrev pub bar_at : ℕ → ℕ → ℕ
bar_at value bar = if leb value 100 then value else bar

unfoldable pub on_send_progress : Qt → ℕ → Text → SendPage → SendPage
on_send_progress qt percent detail p = record p {
  bar = bar_at percent p.bar;
  status = qt.arg (qt.arg_number (codes "Sending… %1% (%2)") percent) (detail ∷ []);
}

-- `onSendFinished` up to its dialog; behind that it asks to go back.
unfoldable pub on_send_finished : Bool → Text → SendPage → SendPage
on_send_finished ok message p = record p { bar = if ok then 100 else p.bar; status = message }
