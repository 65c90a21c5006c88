-- ===== src/App/Undo/Slots.antt =====
-- The two slots over any run of the service: at most one of them is taken, and an action that is held
-- names an operation.
use nexus_mail.Base.{
  ℕ, false, List, [], ◌∷◌, Option, none, some, length, ◌==◌, ◌≡◌, refl, ◌⊎◌, inl, inr, Bool-cases,
  Option-cases,
}
use nexus_mail.Model.{Message}
use nexus_mail.Store.Undo.{cancel_operations}
use nexus_mail.App.{Service, Moment, Undoable, UndoableKind}
use nexus_mail.App.Undo.{is_none, remember_undo, undo_last_action, take_back, settle_undo, put_back}

abbrev HeldNames : Option Undoable → Type 0
HeldNames none = Unit
HeldNames (some held) = is_none held.operation_ids ≡ false

pub record IsSlotted (s : Service) : Type 0 where
  pub one : (s.undo ≡ none) ⊎ (s.redo ≡ none)
  pub names : HeldNames s.undo

pub remember_undo-IsSlotted :
    (m : Moment) (kind : UndoableKind) (ops : List ℕ) (target : ℕ) (snapshot : List Message)
    (s : Service)
    → IsSlotted s
    → IsSlotted (remember_undo m kind ops target snapshot s)
unfolding remember_undo
remember_undo-IsSlotted m kind [] target snapshot s v = v
remember_undo-IsSlotted m kind (i ∷ ops) target snapshot s v = elim (Bool-cases (s.window == 0)) [
  | inl off ↦ rw off v
  | inr on ↦ rw on (record { one = inr refl; names = refl })
]

take_back-IsSlotted :
    (m : Moment) (held : Undoable) (s : Service) → IsSlotted (take_back m held s).1
unfolding take_back settle_undo put_back
take_back-IsSlotted m held s =
    elim (Bool-cases
      ((cancel_operations held.operation_ids m.now s.db).0 == length held.operation_ids)) [
        | inl all ↦ rw all (record { one = inl refl; names = tt })
        | inr some_only ↦ rw some_only (record { one = inl refl; names = tt })
      ]

pub undo_last_action-IsSlotted :
    (m : Moment) (s : Service) → IsSlotted s → IsSlotted (undo_last_action m s).1
unfolding undo_last_action
undo_last_action-IsSlotted m s v = elim (Option-cases s.undo) [
  | inl empty ↦ rw (empty, undo_last_action) v
  | inr (held, here) ↦ rw (here, undo_last_action) (take_back-IsSlotted m held s)
]
