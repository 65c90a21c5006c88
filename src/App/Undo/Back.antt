-- ===== src/App/Undo/Back.antt =====
-- What an undo does, in time and too late.
use nexus_mail.Base.{
  ℕ, ◌+◌, ◌≤◌, ◌<◌, true, false, not, List, [], ◌∷◌, none, some, length, ◌==◌, ◌≡◌, refl, ap, ◌∙◌,
  arith, All, All-map, filter-none, filter-All, ==_iff, inl, inr, ◌⊎◌,
}
use nexus_mail.Model.{Message}
use nexus_mail.Store.{Db, OperationRow, is_in}
use nexus_mail.Store.Messages.{upsert_message, upsert_rows, upsert_messages, upsert_attachments_tx}
use nexus_mail.Store.Undo.{
  MessageGroup, is_cancellable, cancel_operations, group_messages, restore_groups, restore_messages,
  messages_by_ids,
}
use nexus_mail.App.{Service, Moment, Undoable, UndoableKind, move}
use nexus_mail.App.Undo.{is_none, remember_undo, take_back, settle_undo, put_back, undo_last_action}

upsert_message-operations :
    (folder_id : ℕ) (m : Message) (db : Db)
    → (upsert_message folder_id m db).operations ≡ db.operations
unfolding upsert_message
upsert_message-operations folder_id m db = ground arith

upsert_rows-operations :
    (folder_id : ℕ) (ms : List Message) (db : Db)
    → (upsert_rows folder_id ms db).operations ≡ db.operations
unfolding upsert_rows
upsert_rows-operations folder_id [] db = refl
upsert_rows-operations folder_id (m ∷ ms) db =
    upsert_rows-operations folder_id ms (upsert_message folder_id m db)
    ∙ upsert_message-operations folder_id m db

restore_groups-operations :
    (gs : List MessageGroup) (db : Db) → (restore_groups gs db).1.operations ≡ db.operations
unfolding restore_groups upsert_messages upsert_attachments_tx
restore_groups-operations [] db = refl
restore_groups-operations ((folder_id, batch) ∷ gs) db =
    restore_groups-operations gs (upsert_messages folder_id batch db)
    ∙ upsert_rows-operations folder_id batch db

pub restore_messages-operations :
    (order : List MessageGroup → List MessageGroup) (ms : List Message) (db : Db)
    → (restore_messages order ms db).1.operations ≡ db.operations
unfolding restore_messages
restore_messages-operations order ms db =
    restore_groups-operations (order (group_messages ms [])) db

-- The action that a move holds.
abbrev pub held_move : Moment → List ℕ → ℕ → List ℕ → Service → Undoable
held_move m ids target queued s = record {
  kind = move;
  operation_ids = queued;
  snapshot = messages_by_ids ids s.db;
  target = target;
  expires = m.now + s.window;
}

pub settle_all :
    (m : Moment) (held : Undoable) (s : Service) (db : Db)
    → settle_undo m held s (length held.operation_ids, db)
      ≡ (true, put_back m held (record s { undo = none; db = db }))
unfolding settle_undo
settle_all m held s db = rw ((==_iff (length held.operation_ids) _).1 refl) refl

pub settle_none :
    (m : Moment) (held : Undoable) (s : Service)
    → is_none held.operation_ids ≡ false
    → settle_undo m held s (0, s.db) ≡ (false, record s { undo = none })
unfolding settle_undo
settle_none m held s some_ids = rw (differs held.operation_ids some_ids) refl
  where
    differs : (ids : List ℕ) → is_none ids ≡ false → (0 == length ids) ≡ false
    differs [] h = cc
    differs (i ∷ ids) h = ground arith

pub remembered :
    (m : Moment) (ops : List ℕ) (target : ℕ) (snapshot : List Message) (s : Service)
    → is_none ops ≡ false
    → 0 < s.window
    → (remember_undo m move ops target snapshot s).undo
      ≡ some (record {
        kind = move;
        operation_ids = ops;
        snapshot = snapshot;
        target = target;
        expires = m.now + s.window;
      })
unfolding remember_undo
remembered m ops target snapshot s some_ops open_window =
    let on : (s.window == 0) ≡ false = ground arith in rw (some_ops, on) refl

pub nothing_to_undo : (m : Moment) (s : Service) → s.undo ≡ none → undo_last_action m s ≡ (false, s)
unfolding undo_last_action
nothing_to_undo m s free = ground arith

-- An undo whose operations are all there to be cancelled.
pub undo_last_action_early :
    (m : Moment) (held : Undoable) (s : Service) (db : Db)
    → s.undo ≡ some held
    → cancel_operations held.operation_ids m.now s.db ≡ (length held.operation_ids, db)
    → undo_last_action m s ≡ (true, put_back m held (record s { undo = none; db = db }))
unfolding undo_last_action take_back
undo_last_action_early m held s db here all =
    rw (here, undo_last_action) (ap (settle_undo m held s) all ∙ settle_all m held s db)

pub remember_undo-db :
    (m : Moment) (kind : UndoableKind) (ops : List ℕ) (target : ℕ) (snapshot : List Message)
    (s : Service)
    → (remember_undo m kind ops target snapshot s).db ≡ s.db
unfolding remember_undo
remember_undo-db m kind ops target snapshot s = ground arith

-- A row that no undo at this time takes: it is another operation, or it is due.
abbrev pub IsBeyondUndo : List ℕ → ℕ → OperationRow → Type 0
IsBeyondUndo ids now r = (is_in ids r.id ≡ false) ⊎ (r.next_attempt_at ≤ now)

not_cancellable :
    (ids : List ℕ) (now : ℕ) (r : OperationRow)
    → IsBeyondUndo ids now r
    → is_cancellable ids now r ≡ false
unfolding is_cancellable
not_cancellable ids now r (inl other) = ground arith
not_cancellable ids now r (inr due) = ground arith

cancel-none :
    (ids : List ℕ) (now : ℕ) (db : Db)
    → All (IsBeyondUndo ids now) db.operations
    → cancel_operations ids now db ≡ (0, db)
unfolding cancel_operations
cancel-none ids now db h =
    let none_is =
      All-map (IsBeyondUndo ids now) _ db.operations (λ r b. not_cancellable ids now r b) h in
    λ i. (
      length (filter-none (is_cancellable ids now) db.operations none_is i),
      record db {
        operations =
            filter-All (λ r. not (is_cancellable ids now r)) db.operations
              (All-map _ _ db.operations (λ r e. ap not e) none_is) i;
      },
    )

-- An undo that comes when every operation of the action is due reports that it did nothing, and
-- changes nothing but that the action is no longer offered: messages and queue are as they were.
pub undo_last_action_late :
    (m : Moment) (held : Undoable) (s : Service)
    → s.undo ≡ some held
    → is_none held.operation_ids ≡ false
    → All (IsBeyondUndo held.operation_ids m.now) s.db.operations
    → undo_last_action m s ≡ (false, record s { undo = none })
unfolding undo_last_action take_back
undo_last_action_late m held s here some_ids late =
    rw (here, undo_last_action)
      (ap (settle_undo m held s) (cancel-none held.operation_ids m.now s.db late)
        ∙ settle_none m held s some_ids)
