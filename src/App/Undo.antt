-- ===== src/App/Undo.antt =====
-- internal/app/undo.go: the one action that can be taken back, and the one that can be done again.
pub mod Slots
pub mod Back
use nexus_mail.Base.{
  ℕ, ◌+◌, Bool, true, false, not, ◌||◌, List, [], ◌∷◌, Option, none, some, length, ltb, ◌==◌,
  if◌then◌else◌,
}
use nexus_mail.Model.{Message}
use nexus_mail.Store.{Db}
use nexus_mail.Store.Undo.{cancel_operations, restore_messages}
use nexus_mail.App.{Service, Moment, Undoable, Redoable, UndoableKind, nothing}

abbrev pub is_none : List ℕ → Bool
is_none [] = true
is_none (i ∷ ids) = false

unfoldable pub remember_undo : Moment → UndoableKind → List ℕ → ℕ → List Message → Service → Service
remember_undo m kind ops target snapshot s = if is_none ops || s.window == 0 then s else record s {
  undo = some (record {
    kind = kind;
    operation_ids = ops;
    snapshot = snapshot;
    target = target;
    expires = m.now + s.window;
  });
  redo = none;
}

pub record UndoableDto : Type 0 where
  pub kind : UndoableKind
  pub count : ℕ
  pub expires : ℕ

abbrev pub no_offer : UndoableDto
no_offer = record { kind = nothing; count = 0; expires = 0 }

unfoldable pub undoable : Moment → Service → UndoableDto
undoable m s = elim s.undo [
  | none ↦ no_offer
  | some held ↦
      if ltb held.expires m.now
      then no_offer
      else record { kind = held.kind; count = length held.snapshot; expires = held.expires }
]

unfoldable pub redoable : Moment → Service → UndoableDto
redoable m s = elim s.redo [
  | none ↦ no_offer
  | some held ↦
      if ltb held.expires m.now
      then no_offer
      else record { kind = held.kind; count = length held.message_ids; expires = held.expires }
]

-- The messages come back, and the action is offered again.
unfoldable pub put_back : Moment → Undoable → Service → Service
unfolding restore_messages
put_back m held s =
    let (restored, db) = restore_messages m.restored held.snapshot s.db in
    record s {
      db = db;
      redo = some (record {
        kind = held.kind;
        message_ids = restored;
        target = held.target;
        expires = m.now + s.window;
      });
      emitted = s.emitted + 1;
    }

-- What follows the cancellation, which gives a count and the store without the operations.
unfoldable pub settle_undo : Moment → Undoable → Service → ℕ × Db → Bool × Service
unfolding put_back
settle_undo m held s (cancelled, db) =
    let left : Service = record s { undo = none; db = db } in
    if cancelled == length held.operation_ids then (true, put_back m held left) else (false, left)

-- Whether the action was taken back, and the service behind it.
unfoldable pub take_back : Moment → Undoable → Service → Bool × Service
unfolding cancel_operations settle_undo
take_back m held s = settle_undo m held s (cancel_operations held.operation_ids m.now s.db)

unfoldable pub undo_last_action : Moment → Service → Bool × Service
unfolding take_back
undo_last_action m s = elim s.undo [ none ↦ (false, s) | some held ↦ take_back m held s ]

unfoldable pub forget_undo : Service → Service
forget_undo s = record s { undo = none; redo = none }
