-- ===== src/App/Actions/Undone.antt =====
-- A move that is taken back.
use nexus_mail.Base.{
  ℕ, ◌+◌, ◌<◌, Bool, true, false, List, [], ◌∷◌, ◌++◌, map, filter, In, none, some, length, ◌==◌,
  ◌≡◌, refl, sym, ap, subst, ◌∙◌, arith,
}
use nexus_mail.Model.{Message}
use nexus_mail.Store.{Db, OperationRow, is_in}
use nexus_mail.Store.Actions.{apply_move}
use nexus_mail.Store.Operations.{or_zero}
use nexus_mail.Store.Undo.{MessageGroup, cancel_operations, messages_by_ids, group_messages}
use nexus_mail.Store.Undo.Cancel.{actions-cancelled}
use nexus_mail.Store.Undo.Restore.{bare, flatten, KeysApart, restore_messages-bare}
use nexus_mail.Store.Undo.Found.{IsFound, restore_messages-IsFound}
use nexus_mail.App.{Service, Moment, Undoable, Redoable, UndoableKind, move}
use nexus_mail.App.Undo.{is_none, remember_undo, put_back, undo_last_action}
use nexus_mail.App.Undo.Back.{
  undo_last_action_early, nothing_to_undo, remember_undo-db, remembered,
  restore_messages-operations,
}
use nexus_mail.App.Actions.{move_messages, queue_ready_at}

-- The operations that a move queues, and the store behind it.
abbrev pub queued_move : Moment → List ℕ → ℕ → Service → List ℕ × Db
queued_move m ids target s =
    apply_move (m.order 0) (m.order' 0) (m.clock 0) ids target (queue_ready_at m s) s.db

moves :
    (m : Moment) (i : ℕ) (ids : List ℕ) (target : ℕ) (s : Service)
    → move_messages m (i ∷ ids) target s
      ≡ remember_undo m move
          (queued_move m (i ∷ ids) target s).0
          target
          (messages_by_ids (i ∷ ids) s.db)
          (record s { db = (queued_move m (i ∷ ids) target s).1 })
unfolding move_messages
moves m i ids target s = refl

-- What is restored of a snapshot, group after group.
abbrev pub restored_of : Moment → List Message → List Message
restored_of m snapshot = flatten (m.restored (group_messages snapshot []))

-- The map of the snapshot's folders is walked once over each, and no two of the messages that are
-- left and those of the snapshot share an account, folder and UID.
pub record IsRestorable (m : Moment) (left snapshot : List Message) : Type 0 where
  pub no_other :
      (g : MessageGroup)
      → In g (m.restored (group_messages snapshot []))
      → In g (group_messages snapshot [])
  pub all :
      (g : MessageGroup)
      → In g (group_messages snapshot [])
      → In g (m.restored (group_messages snapshot []))
  pub apart : KeysApart (map bare left ++ map bare (restored_of m snapshot))

-- What is left when an action was taken back: the queue is the given one; the store holds the
-- messages that were left and behind them those of the snapshot, as they were but for row id and
-- attachments; the action is offered again for the rows of the snapshot's messages, and a second
-- undo does nothing.
abbrev pub IsTakenBack :
    Moment
    → UndoableKind
    → ℕ
    → List OperationRow
    → List Message
    → List Message
    → Bool × Service
    → Type 0
IsTakenBack m kind target operations left snapshot undone =
    (undone.0 ≡ true)
    × (undone.1.db.operations ≡ operations)
    × (map bare undone.1.db.messages ≡ map bare left ++ map bare (restored_of m snapshot))
    × (undone.1.undo ≡ none)
    × ((again : Redoable) × (undone.1.redo ≡ some again)
        × (again.kind ≡ kind)
        × (again.target ≡ target)
        × ((x : Message) → In x snapshot → IsFound x undone.1.db.messages again.message_ids))
    × (undo_last_action m undone.1 ≡ (false, undone.1))

put_back-IsTakenBack :
    (m : Moment) (held : Undoable) (s : Service)
    → s.undo ≡ none
    → IsRestorable m s.db.messages held.snapshot
    → IsTakenBack m held.kind held.target s.db.operations s.db.messages held.snapshot
        (true, put_back m held s)
unfolding put_back
put_back-IsTakenBack m held s free back = (
  refl,
  restore_messages-operations m.restored held.snapshot s.db,
  (restore_messages-bare m.restored held.snapshot s.db back.no_other back.all back.apart).0,
  free,
  (
    _,
    refl,
    refl,
    refl,
    restore_messages-IsFound m.restored held.snapshot s.db back.no_other back.all back.apart,
  ),
  nothing_to_undo m (put_back m held s) free,
)

due :
    (m : Moment) (s : Service) (t : ℕ)
    → 0 < s.window
    → t < m.now + s.window
    → t < or_zero (queue_ready_at m s)
unfolding queue_ready_at
due m s t open_window h = let on : (s.window == 0) ≡ false = ground arith in rw on h

-- A move that queued something, undone before its window closes, when no two of the messages that
-- it left and those that it named share a key and Go walks each folder of the snapshot: the undo reports that it did it; the queue is the one
-- from before the move, row for row; the store holds what the move left and behind it every message
-- that was named, as it was before the move but for row id and attachments; the move is offered
-- again, under ids that name each of these messages' rows; and a second undo does nothing.
pub undo_last_action-move_messages :
    (m m' : Moment) (i : ℕ) (ids : List ℕ) (target : ℕ) (s : Service)
    → 0 < s.window
    → m'.now < m.now + s.window
    → is_none (queued_move m (i ∷ ids) target s).0 ≡ false
    → IsRestorable m'
        (queued_move m (i ∷ ids) target s).1.messages
        (filter (λ x. is_in (i ∷ ids) x.id) s.db.messages)
    → IsTakenBack m' move target s.db.operations
        (queued_move m (i ∷ ids) target s).1.messages
        (filter (λ x. is_in (i ∷ ids) x.id) s.db.messages)
        (undo_last_action m' (move_messages m (i ∷ ids) target s))
unfolding messages_by_ids
undo_last_action-move_messages m m' i ids target s open_window early queued restorable =
    let q = queued_move m (i ∷ ids) target s in
    let snapshot = messages_by_ids (i ∷ ids) s.db in
    let moved : Service = remember_undo m move q.0 target snapshot (record s { db = q.1 }) in
    let held : Undoable = record {
      kind = move;
      operation_ids = q.0;
      snapshot = snapshot;
      target = target;
      expires = m.now + s.window;
    } in
    let back : Db = record q.1 { operations = s.db.operations } in
    let same : moved.db ≡ q.1 =
      remember_undo-db m move q.0 target snapshot (record s { db = q.1 }) in
    let all : cancel_operations q.0 m'.now moved.db ≡ (length q.0, back) =
      ap (cancel_operations q.0 m'.now) same
      ∙ (actions-cancelled (m.order 0) (m.order' 0) (m.clock 0) (i ∷ ids) target
          (queue_ready_at m s) m'.now s.db (due m s m'.now open_window early)).0 in
    let here : moved.undo ≡ some held =
      remembered m q.0 target snapshot (record s { db = q.1 }) queued open_window in
    subst (IsTakenBack m' move target s.db.operations q.1.messages snapshot)
      (sym (
        ap (undo_last_action m') (moves m i ids target s)
        ∙ undo_last_action_early m' held moved back here all))
      (put_back-IsTakenBack m' held (record moved { undo = none; db = back }) refl restorable)
