-- ===== src/App/Actions.antt =====
-- internal/app/actions.go, with emptytrash.go and the redo of undo.go, which calls it: the actions of
-- the window on messages.
pub mod Destinations
pub mod Slotted
pub mod Undone
use nexus_mail.Base.{
  ℕ, ◌+◌, Bool, true, false, not, ◌||◌, ◌&&◌, List, [], ◌∷◌, ◌++◌, Option, none, some, find?, ltb,
  ◌==◌, if◌then◌else◌,
}
use nexus_mail.Base.Text.{Text, codes, Unicode}
use nexus_mail.Model.{Folder, Message, OperationState, pending, dropped, failed}
use nexus_mail.Model.Flags.{flag_seen, flag_flagged}
use nexus_mail.Model.Errors.{Result, ok, err, new_error}
use nexus_mail.Model.Roles.{role, is_trash}
use nexus_mail.Store.{Db}
use nexus_mail.Store.Folders.{list_folders}
use nexus_mail.Store.Actions.{apply_flag_change, apply_move, apply_delete, apply_empty_folder}
use nexus_mail.Store.Operations.{count_operations, forget_finished_operations}
use nexus_mail.Store.Undo.{messages_by_ids}
use nexus_mail.App.{Service, Moment, Redoable, UndoableKind, nothing, move, delete, trash}
use nexus_mail.App.Undo.{is_none, remember_undo, forget_undo}

-- The folder of a message: the join of FoldersOfMessages for one id.
unfoldable pub folder_of : Db → ℕ → Option Folder
folder_of db id = elim (find? (λ (m : Message). m.id == id) db.messages) [
  | none ↦ none
  | some m ↦ find? (λ (f : Folder). f.id == m.folder_id) db.folders
]

module _ (u : Unicode) where
  unfoldable pub apply_flags : Moment → List ℕ → List Text → Bool → Service → Service
  unfolding apply_flag_change
  apply_flags m ids flags add s =
      if is_none ids
      then s
      else record s { db = apply_flag_change u (m.order 0) (m.clock 0) ids flags add s.db }

  unfoldable pub mark_read : Moment → List ℕ → Bool → Service → Service
  unfolding apply_flags
  mark_read m ids read = apply_flags m ids (flag_seen ∷ []) read

  unfoldable pub set_starred : Moment → List ℕ → Bool → Service → Service
  unfolding apply_flags
  set_starred m ids starred = apply_flags m ids (flag_flagged ∷ []) starred

-- `none` is the zero time.
unfoldable pub queue_ready_at : Moment → Service → Option ℕ
queue_ready_at m s = if s.window == 0 then none else some (m.now + s.window)

unfoldable pub move_messages : Moment → List ℕ → ℕ → Service → Service
unfolding queue_ready_at apply_move messages_by_ids remember_undo
move_messages m ids target s =
    if is_none ids
    then s
    else (let (queued, db) =
          apply_move (m.order 0) (m.order' 0) (m.clock 0) ids target (queue_ready_at m s) s.db in
        remember_undo m move queued target (messages_by_ids ids s.db) (record s { db = db }))

-- The id of the account's trash, or zero.
unfoldable pub trash_folder_id : Unicode → ℕ → Db → ℕ
unfolding list_folders role is_trash
trash_folder_id u account_id db =
    elim (find? (λ f. is_trash (role u f)) (list_folders u account_id db)) [
      | none ↦ 0
      | some f ↦ f.id
    ]

-- `toTrash[trashID] = append(toTrash[trashID], id)`.
unfoldable pub add_to_trash : ℕ → ℕ → List (ℕ × List ℕ) → List (ℕ × List ℕ)
add_to_trash trash_id id [] = (trash_id, id ∷ []) ∷ []
add_to_trash trash_id id ((t, ids) ∷ rest) =
    if t == trash_id then (t, ids ++ id ∷ []) ∷ rest else (t, ids) ∷ add_to_trash trash_id id rest

-- What is to be moved to which trash, and what is to be destroyed. The cache of the source changes
-- no result, and is left out.
pub record Split : Type 0 where
  pub to_trash : List (ℕ × List ℕ)
  pub permanent : List ℕ

unfoldable pub send_to : ℕ → ℕ → Split → Split
unfolding add_to_trash
send_to trash_id id x =
    if trash_id == 0
    then record x { permanent = x.permanent ++ id ∷ [] }
    else record x { to_trash = add_to_trash trash_id id x.to_trash }

unfoldable pub split_loop : Unicode → Db → List ℕ → Split → Split
unfolding send_to folder_of trash_folder_id role is_trash
split_loop u db [] x = x
split_loop u db (id ∷ ids) x = split_loop u db ids (elim (folder_of db id) [
  | none ↦ x
  | some f ↦
      if is_trash (role u f)
      then record x { permanent = x.permanent ++ id ∷ [] }
      else send_to (trash_folder_id u f.account_id db) id x
])

unfoldable pub split_by_destination : Unicode → List ℕ → Db → Split
unfolding split_loop
split_by_destination u ids db = split_loop u db ids (record { to_trash = []; permanent = [] })

-- One move for each trash, `call` being the number of the first.
unfoldable pub move_to_trashes :
    ℕ → Moment → Option ℕ → List (ℕ × List ℕ) → List ℕ → Db → List ℕ × Db
unfolding apply_move
move_to_trashes call m not_before [] queued db = (queued, db)
move_to_trashes call m not_before ((trash_id, ids) ∷ rest) queued db =
    let (ops, db') =
      apply_move (m.order call) (m.order' call) (m.clock call) ids trash_id not_before db in
    move_to_trashes (call + 1) m not_before rest (queued ++ ops) db'

abbrev pub no_groups : List (ℕ × List ℕ) → Bool
no_groups [] = true
no_groups (g ∷ gs) = false

unfoldable pub delete_messages : Unicode → Moment → List ℕ → Service → Service
unfolding split_by_destination move_to_trashes apply_delete queue_ready_at messages_by_ids
    remember_undo
delete_messages u m ids s =
    if is_none ids
    then s
    else (let x = split_by_destination u ids s.db in
        let not_before = queue_ready_at m s in
        let (moved, db) = move_to_trashes 1 m not_before (m.trashes x.to_trash) [] s.db in
        let (removed, db') =
          apply_delete (m.order 0) (m.order' 0) (m.clock 0) x.permanent not_before db in
        remember_undo m (if no_groups x.to_trash then delete else trash) (moved ++ removed) 0
          (messages_by_ids ids s.db) (record s { db = db' }))

-- The action of a redo, run as an action of its own.
unfoldable pub do_again : Unicode → Moment → UndoableKind → List ℕ → ℕ → Service → Bool × Service
unfolding move_messages delete_messages
do_again u m nothing ids target s = (false, s)
do_again u m move ids target s =
    let s' = move_messages m ids target s in (true, record s' { emitted = s'.emitted + 1 })
do_again u m delete ids target s =
    let s' = delete_messages u m ids s in (true, record s' { emitted = s'.emitted + 1 })
do_again u m trash ids target s =
    let s' = delete_messages u m ids s in (true, record s' { emitted = s'.emitted + 1 })

unfoldable pub redo_last_action : Unicode → Moment → Service → Bool × Service
unfolding do_again
redo_last_action u m s = elim s.redo [
  | none ↦ (false, s)
  | some held ↦
      if ltb held.expires m.now
      then (false, record s { redo = none })
      else do_again u m held.kind held.message_ids held.target (record s { redo = none })
]

unfoldable pub after_emptying : Result (ℕ × Db) → Service → Result Service
unfolding forget_undo
after_emptying (err e) s = err e
after_emptying (ok (id, db)) s = ok (forget_undo (record s { db = db; emitted = s.emitted + 1 }))

unfoldable pub empty_trash : Unicode → Moment → ℕ → Service → Result Service
unfolding trash_folder_id apply_empty_folder after_emptying
empty_trash u m account_id s =
    let trash_id = trash_folder_id u account_id s.db in
    if trash_id == 0
    then err (new_error (codes "app: account has no trash folder"))
    else after_emptying (apply_empty_folder m.now trash_id s.db) s

pub record PendingChanges : Type 0 where
  pub pending : ℕ
  pub dropped : ℕ
  pub failed : ℕ

unfoldable pub pending_change_count : ℕ → Service → PendingChanges
unfolding count_operations
pending_change_count account_id s = record {
  pending = count_operations account_id OperationState.pending s.db;
  dropped = count_operations account_id OperationState.dropped s.db;
  failed = count_operations account_id OperationState.failed s.db;
}

unfoldable pub acknowledge_change_failures : ℕ → Service → Service
unfolding forget_finished_operations
acknowledge_change_failures account_id s = record s {
  db = forget_finished_operations account_id s.db;
}
