-- ===== src/Store/Undo.antt =====
-- internal/store/undo.go: taking a queued change back.
pub mod Cancel
pub mod Restore
pub mod Found
use nexus_mail.Base.{
  ℕ, Bool, not, ◌&&◌, List, [], ◌∷◌, ◌++◌, map, filter, length, ltb, ◌==◌, if◌then◌else◌,
}
use nexus_mail.Model.{Message, state_eq, pending}
use nexus_mail.Store.{Db, OperationRow, is_in}
use nexus_mail.Store.Messages.{upsert_messages}

-- Whole rows, for a snapshot.
unfoldable pub messages_by_ids : List ℕ → Db → List Message
unfolding is_in
messages_by_ids ids db = filter (λ m. is_in ids m.id) db.messages

-- `WHERE state = 'pending' AND next_attempt_at > ? AND id IN (…)`.
unfoldable pub is_cancellable : List ℕ → ℕ → OperationRow → Bool
unfolding state_eq is_in
is_cancellable ids now r = state_eq r.state pending && (ltb now r.next_attempt_at && is_in ids r.id)

-- How many operations were taken out of the queue, and the store without them.
unfoldable pub cancel_operations : List ℕ → ℕ → Db → ℕ × Db
unfolding is_cancellable
cancel_operations ids now db = (
  length (filter (is_cancellable ids now) db.operations),
  record db { operations = filter (λ r. not (is_cancellable ids now r)) db.operations },
)

abbrev pub MessageGroup : Type 0
MessageGroup = ℕ × List Message

-- `byFolder[m.FolderID] = append(byFolder[m.FolderID], m)`.
unfoldable pub add_message : Message → List MessageGroup → List MessageGroup
add_message m [] = (m.folder_id, m ∷ []) ∷ []
add_message m ((folder_id, ms) ∷ gs) =
    if folder_id == m.folder_id
    then (folder_id, ms ++ m ∷ []) ∷ gs
    else (folder_id, ms) ∷ add_message m gs

unfoldable pub group_messages : List Message → List MessageGroup → List MessageGroup
unfolding add_message
group_messages [] gs = gs
group_messages (m ∷ ms) gs = group_messages ms (add_message m gs)

-- The ids of a batch, looked up by folder and UID.
unfoldable pub message_ids_in_folder : ℕ → List Message → Db → List ℕ
unfolding is_in
message_ids_in_folder folder_id ms db =
    map (λ m. m.id)
      (filter (λ m. m.folder_id == folder_id && is_in (map (λ x. x.uid) ms) m.uid) db.messages)

unfoldable pub restore_groups : List MessageGroup → Db → List ℕ × Db
unfolding upsert_messages message_ids_in_folder
restore_groups [] db = ([], db)
restore_groups ((folder_id, batch) ∷ gs) db =
    let db' = upsert_messages folder_id batch db in
    let (ids, db'') = restore_groups gs db' in
    (message_ids_in_folder folder_id batch db' ++ ids, db'')

-- The ids that the restored messages now have. `order` is that of the map.
unfoldable pub restore_messages :
    (List MessageGroup → List MessageGroup) → List Message → Db → List ℕ × Db
unfolding group_messages restore_groups
restore_messages order ms db = restore_groups (order (group_messages ms [])) db
