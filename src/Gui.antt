-- ===== src/Gui.antt =====
-- The graphical interface of src/gui: its workers, its pages and its window. A `QString` is the
-- list of its code units; what Qt does with texts is a parameter, as is what the dialogs answer.
pub mod Workers
pub mod SendPage
pub mod RecvPage
pub mod Window
use lft.Base.{ℕ, Bool, Option, List, ◌∷◌, Bytes}

abbrev pub Text : Type 0
Text = Bytes

pub record Qt : Type 0 where
  -- `QString::fromStdString`, `QString::toStdString`, `QString::trimmed`.
  pub from_std : Bytes → Text
  pub to_std : Text → Bytes
  pub trimmed : Text → Text
  -- `QString::arg` at several places, and at a number.
  pub arg : Text → List Text → Text
  pub arg_number : Text → ℕ → Text
  -- `contains(word, Qt::CaseInsensitive)`.
  pub contains : Text → Text → Bool

-- A row of the list of receivers (src/gui/send_page.h).
pub record PeerRow : Type 0 where
  pub name : Text
  pub host : Text
  pub port : ℕ

-- The signals of the workers that transfer.
pub data Signal : Type 0 where
  status : Text → Signal
  progress : ℕ → Text → Signal
  finished : Bool → Text → Signal
