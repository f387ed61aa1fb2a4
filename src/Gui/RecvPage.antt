-- ===== src/Gui/RecvPage.antt =====
-- `RecvPage` of src/gui/recv_page.cpp: the members, the slots, and what the end of its thread
-- does. The member that points to the thread counts as whether it is no null pointer.
use lft.Base.{ℕ, Bool, true, false, not, [], ◌∷◌, Option, none, some, codes, equal, if◌then◌else◌}
use lft.Cli.Commands.{default_port}
use lft.Gui.{Text, Qt}
use lft.Gui.Workers.{gui_format_bytes}
use lft.Gui.SendPage.{bar_at}

pub record RecvPage : Type 0 where
  pub out_dir : Text
  pub name : Text
  pub status : Text
  pub bar : ℕ
  pub bar_visible : Bool
  pub start_enabled : Bool
  pub back_enabled : Bool
  pub name_enabled : Bool
  pub worker_thread : Bool

-- The constructor, with the folder for downloads.
abbrev pub new_recv_page : Text → RecvPage
new_recv_page downloads = record {
  out_dir = downloads;
  name = [];
  status = codes "Pick a folder, then start receiving.";
  bar = 0;
  bar_visible = false;
  start_enabled = true;
  back_enabled = true;
  name_enabled = true;
  worker_thread = false;
}

unfoldable pub set_recv_busy : Bool → RecvPage → RecvPage
set_recv_busy busy p = record p {
  start_enabled = not busy;
  back_enabled = not busy;
  name_enabled = not busy;
}

unfoldable pub reset_recv : RecvPage → RecvPage
unfolding set_recv_busy
reset_recv p = set_recv_busy false (record p {
  bar_visible = false;
  bar = 0;
  status = codes "Pick a folder, then start receiving.";
})

-- `browseOutDir`, with the folder that the dialog gives.
unfoldable pub browse_out_dir : Text → RecvPage → RecvPage
browse_out_dir chosen p = if not (equal chosen []) then record p { out_dir = chosen } else p

-- What `startReceive` does: it warns, or it does nothing, or the worker starts. The lambda that
-- runs the worker reads the folder and the name later, in the worker's thread.
pub record RecvEffect : Type 0 where
  pub page : RecvPage
  pub warning : Option Text
  pub starts : Bool

unfoldable pub start_receive : Qt → RecvPage → RecvEffect
unfolding set_recv_busy
start_receive qt p =
    if equal (qt.trimmed p.out_dir) []
    then record { page = p; warning = some (codes "Choose a save folder first."); starts = false }
    else if p.worker_thread
    then record { page = p; warning = none; starts = false }
    else record {
      page = record (set_recv_busy true p) {
        bar_visible = true;
        bar = 0;
        status = codes "Starting receiver…";
        worker_thread = true;
      };
      warning = none;
      starts = true;
    }

-- The arguments of `run` that the lambda reads, with the port.
abbrev pub run_arguments : Qt → RecvPage → Text × (Text × ℕ)
run_arguments qt p = (qt.trimmed p.out_dir, (p.name, default_port))

-- The question of `askAcceptOffer`.
abbrev pub offer_question : Qt → Text → ℕ → Text
offer_question qt file_name size =
    qt.arg (codes "Accept \"%1\" (%2)?") (file_name ∷ gui_format_bytes qt size ∷ [])

unfoldable pub on_recv_status : Text → RecvPage → RecvPage
on_recv_status text p = record p { status = text }

unfoldable pub on_recv_progress : Qt → ℕ → Text → RecvPage → RecvPage
on_recv_progress qt percent detail p = record p {
  bar = bar_at percent p.bar;
  status = qt.arg (qt.arg_number (codes "Receiving… %1% (%2)") percent) (detail ∷ []);
}

-- The dialog of `onFinished`: a warning, or none, or the one that says that a file has come, behind
-- which the page asks to go back.
pub data Ending : Type 0 where
  failed : Text → Ending
  silent : Ending
  complete : Text → Ending

-- `onFinished` up to its dialog.
unfoldable pub on_recv_finished : Qt → Bool → Text → RecvPage → RecvPage × Ending
unfolding set_recv_busy
on_recv_finished qt ok message p = (
  set_recv_busy false (record p { bar = if ok then 100 else p.bar; status = message }),
  if not ok
      then failed message
      else if qt.contains message (codes "declined")
      then silent
      else complete message,
)

-- The lambda at the end of the thread.
unfoldable pub on_worker_thread_finished : RecvPage → RecvPage
on_worker_thread_finished p = record p { worker_thread = false }
