-- ===== src/App.antt =====
-- internal/app: the service that the window calls. This file has its state; the children model the
-- files of these names. A call is one step: the locks that order the steps of two threads are not
-- modelled.
pub mod Reply
pub mod Newmail
pub mod Send
pub mod Undo
pub mod Actions
use nexus_mail.Base.{ℕ, List, Option}
use nexus_mail.Model.{Message}
use nexus_mail.Store.{Db}
use nexus_mail.Store.Actions.{Group}
use nexus_mail.Store.Undo.{MessageGroup}

-- What an action was, so that the window can name it.
pub data UndoableKind : Type 0 where
  nothing move delete trash : UndoableKind

-- An action held open, with the messages as they were. Times are nanoseconds.
pub record Undoable : Type 0 where
  pub kind : UndoableKind
  pub operation_ids : List ℕ
  pub snapshot : List Message
  pub target : ℕ
  pub expires : ℕ

pub record Redoable : Type 0 where
  pub kind : UndoableKind
  pub message_ids : List ℕ
  pub target : ℕ
  pub expires : ℕ

-- `window` is the live undo window in nanoseconds, and `emitted` counts the events by which the
-- window redraws its list.
pub record Service : Type 0 where
  pub db : Db
  pub undo : Option Undoable
  pub redo : Option Redoable
  pub window : ℕ
  pub emitted : ℕ

-- What a call meets: the time, and for each method of the store that it calls, by number, the times
-- that its insertions read and the orders in which Go walks its maps.
pub record Moment : Type 0 where
  pub now : ℕ
  pub clock : ℕ → ℕ → ℕ
  pub order : ℕ → List Group → List Group
  pub order' : ℕ → List Group → List Group
  pub restored : List MessageGroup → List MessageGroup
  pub trashes : List (ℕ × List ℕ) → List (ℕ × List ℕ)
