-- ===== src/App/Actions/Slotted.antt =====
-- What every call of the service keeps of the two slots.
use nexus_mail.Base.{
  ℕ, Bool, List, [], ◌∷◌, ◌++◌, none, ltb, ◌==◌, if◌then◌else◌, refl, inl, inr, Bool-cases,
  Option-cases,
}
use nexus_mail.Base.Text.{Text, Unicode}
use nexus_mail.Model.Errors.{Result, ok, err}
use nexus_mail.Store.{Db}
use nexus_mail.Store.Actions.{apply_move, apply_delete, apply_empty_folder}
use nexus_mail.Store.Undo.{messages_by_ids}
use nexus_mail.App.{Service, Moment, UndoableKind, nothing, move, delete, trash}
use nexus_mail.App.Undo.{undo_last_action, forget_undo}
use nexus_mail.App.Undo.Slots.{IsSlotted, remember_undo-IsSlotted, undo_last_action-IsSlotted}
use nexus_mail.App.Actions.{
  apply_flags, move_messages, queue_ready_at, split_by_destination, move_to_trashes, no_groups,
  trash_folder_id, delete_messages, do_again, redo_last_action, empty_trash, after_emptying,
  acknowledge_change_failures,
}

abbrev served : Result Service → Service → Service
served (ok s') s = s'
served (err e) s = s

-- One call of the service, or a change of the database or of the setting by someone else.
pub data Call (u : Unicode) : Service → Service → Type 0 where
  flagged :
      (m : Moment) (ids : List ℕ) (flags : List Text) (add : Bool) (s : Service)
      → Call u s (apply_flags u m ids flags add s)
  moved :
      (m : Moment) (ids : List ℕ) (target : ℕ) (s : Service)
      → Call u s (move_messages m ids target s)
  deleted : (m : Moment) (ids : List ℕ) (s : Service) → Call u s (delete_messages u m ids s)
  undone : (m : Moment) (s : Service) → Call u s (undo_last_action m s).1
  redone : (m : Moment) (s : Service) → Call u s (redo_last_action u m s).1
  emptied :
      (m : Moment) (account_id : ℕ) (s : Service)
      → Call u s (served (empty_trash u m account_id s) s)
  acknowledged :
      (account_id : ℕ) (s : Service) → Call u s (acknowledge_change_failures account_id s)
  synced : (db : Db) (s : Service) → Call u s (record s { db = db })
  configured : (window : ℕ) (s : Service) → Call u s (record s { window = window })

pub data Calls (u : Unicode) : Service → Service → Type 0 where
  stay : (s : Service) → Calls u s s
  call : (s s' s'' : Service) → Call u s s' → Calls u s' s'' → Calls u s s''

-- A change of the other fields.
with_db :
    (db : Db) (emitted : ℕ) (s : Service)
    → IsSlotted s
    → IsSlotted (record s { db = db; emitted = emitted })
with_db db emitted s v = record { one = v.one; names = v.names }

module _ (u : Unicode) (m : Moment) where
  move_messages-IsSlotted :
      (ids : List ℕ) (target : ℕ) (s : Service)
      → IsSlotted s
      → IsSlotted (move_messages m ids target s)
  unfolding move_messages
  move_messages-IsSlotted [] target s v = v
  move_messages-IsSlotted (i ∷ ids) target s v =
      let queued =
        apply_move (m.order 0) (m.order' 0) (m.clock 0) (i ∷ ids) target (queue_ready_at m s)
          s.db in
      remember_undo-IsSlotted m move queued.0 target (messages_by_ids (i ∷ ids) s.db)
        (record s { db = queued.1 }) (with_db queued.1 s.emitted s v)

  delete_messages-IsSlotted :
      (ids : List ℕ) (s : Service) → IsSlotted s → IsSlotted (delete_messages u m ids s)
  unfolding delete_messages
  delete_messages-IsSlotted [] s v = v
  delete_messages-IsSlotted (i ∷ ids) s v =
      let x = split_by_destination u (i ∷ ids) s.db in
      let moved = move_to_trashes 1 m (queue_ready_at m s) (m.trashes x.to_trash) [] s.db in
      let removed =
        apply_delete (m.order 0) (m.order' 0) (m.clock 0) x.permanent (queue_ready_at m s)
          moved.1 in
      remember_undo-IsSlotted m (if no_groups x.to_trash then delete else trash)
        (moved.0 ++ removed.0) 0 (messages_by_ids (i ∷ ids) s.db) (record s { db = removed.1 })
        (with_db removed.1 s.emitted s v)

  do_again-IsSlotted :
      (kind : UndoableKind) (ids : List ℕ) (target : ℕ) (s : Service)
      → IsSlotted s
      → IsSlotted (do_again u m kind ids target s).1
  unfolding do_again
  do_again-IsSlotted nothing ids target s v = v
  do_again-IsSlotted move ids target s v =
      let v' = move_messages-IsSlotted ids target s v in record { one = v'.one; names = v'.names }
  do_again-IsSlotted delete ids target s v =
      let v' = delete_messages-IsSlotted ids s v in record { one = v'.one; names = v'.names }
  do_again-IsSlotted trash ids target s v =
      let v' = delete_messages-IsSlotted ids s v in record { one = v'.one; names = v'.names }

  redo_last_action-IsSlotted : (s : Service) → IsSlotted s → IsSlotted (redo_last_action u m s).1
  unfolding redo_last_action
  redo_last_action-IsSlotted s v = elim (Option-cases s.redo) [
    | inl empty ↦ rw (empty, redo_last_action) v
    | inr (held, here) ↦
        let freed : IsSlotted (record s { redo = none }) = record {
          one = inr refl;
          names = v.names;
        } in
        elim (Bool-cases (ltb held.expires m.now)) [
          | inl late ↦ rw (here, redo_last_action) (rw late freed)
          | inr timely ↦
              rw (here, redo_last_action)
                (rw timely (
                  do_again-IsSlotted held.kind held.message_ids held.target
                    (record s { redo = none }) freed))
        ]
  ]

  after :
      (r : Result (ℕ × Db)) (s : Service) → IsSlotted s → IsSlotted (served (after_emptying r s) s)
  unfolding after_emptying forget_undo
  after (err e) s v = v
  after (ok (id, db)) s v = record { one = inl refl; names = tt }

  empty_trash-IsSlotted :
      (account_id : ℕ) (s : Service)
      → IsSlotted s
      → IsSlotted (served (empty_trash u m account_id s) s)
  unfolding empty_trash
  empty_trash-IsSlotted account_id s v =
      elim (Bool-cases (trash_folder_id u account_id s.db == 0)) [
        | inl no_trash ↦ rw no_trash v
        | inr some_trash ↦
            rw some_trash
              (after (apply_empty_folder m.now (trash_folder_id u account_id s.db) s.db) s v)
      ]

  apply_flags-IsSlotted :
      (ids : List ℕ) (flags : List Text) (add : Bool) (s : Service)
      → IsSlotted s
      → IsSlotted (apply_flags u m ids flags add s)
  unfolding apply_flags
  apply_flags-IsSlotted [] flags add s v = v
  apply_flags-IsSlotted (i ∷ ids) flags add s v = with_db _ s.emitted s v

pub Call-IsSlotted : (u : Unicode) {s s' : Service} → Call u s s' → IsSlotted s → IsSlotted s'
Call-IsSlotted u (flagged m ids flags add s) v = apply_flags-IsSlotted u m ids flags add s v
Call-IsSlotted u (moved m ids target s) v = move_messages-IsSlotted u m ids target s v
Call-IsSlotted u (deleted m ids s) v = delete_messages-IsSlotted u m ids s v
Call-IsSlotted u (undone m s) v = undo_last_action-IsSlotted m s v
Call-IsSlotted u (redone m s) v = redo_last_action-IsSlotted u m s v
Call-IsSlotted u (emptied m account_id s) v = empty_trash-IsSlotted u m account_id s v
Call-IsSlotted u (acknowledged account_id s) v =
    unfold acknowledge_change_failures in with_db _ s.emitted s v
Call-IsSlotted u (synced db s) v = with_db db s.emitted s v
Call-IsSlotted u (configured window s) v = record { one = v.one; names = v.names }

-- However the calls of the window, the passes of the engine and changes of the setting follow one
-- another, at most one of the two slots is taken, and a held action names an operation.
pub Calls-IsSlotted : (u : Unicode) {s s' : Service} → Calls u s s' → IsSlotted s → IsSlotted s'
Calls-IsSlotted u (stay s) v = v
Calls-IsSlotted u (call s s' s'' c cs) v = Calls-IsSlotted u cs (Call-IsSlotted u c v)
