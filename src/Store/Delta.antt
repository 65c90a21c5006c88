-- ===== src/Store/Delta.antt =====
-- internal/store/messages_delta.go: what a delta sync reads and writes.
use nexus_mail.Base.{
  ℕ, zero, suc, Bool, ◌&&◌, List, [], ◌∷◌, map, length, take, drop, leb, ◌==◌, if◌then◌else◌,
}
use nexus_mail.Base.Sorting.{sort}
use nexus_mail.Model.{Message, FlagUpdate}
use nexus_mail.Store.{Db, is_in, delete_messages}
use nexus_mail.Store.Messages.{in_folder}

-- How many UIDs go into one DELETE.
abbrev pub delete_batch_size : ℕ
delete_batch_size = 500

-- The UIDs that a folder holds, ascending.
unfoldable pub list_message_uids : ℕ → Db → List ℕ
unfolding in_folder sort
list_message_uids folder_id db = sort leb (map (λ m. m.uid) (in_folder folder_id db))

-- `UPDATE messages SET flags = ? WHERE folder_id = ? AND uid = ?`.
unfoldable pub set_flags : ℕ → FlagUpdate → List Message → List Message
set_flags folder_id x =
    map
      (λ m. if m.folder_id == folder_id && m.uid == x.uid then record m { flags = x.flags } else m)

unfoldable pub set_all_flags : ℕ → List FlagUpdate → List Message → List Message
unfolding set_flags
set_all_flags folder_id [] ms = ms
set_all_flags folder_id (x ∷ xs) ms = set_all_flags folder_id xs (set_flags folder_id x ms)

unfoldable pub set_message_flags : ℕ → List FlagUpdate → Db → Db
unfolding set_all_flags
set_message_flags folder_id updates db = record db {
  messages = set_all_flags folder_id updates db.messages;
}

-- The messages that one DELETE names.
unfoldable pub is_named : ℕ → List ℕ → Message → Bool
unfolding is_in
is_named folder_id uids m = m.folder_id == folder_id && is_in uids m.uid

-- `for start := 0; start < len(uids); start += deleteBatchSize`, with `uids` what is left from
-- `start`. Each round drops a whole batch, so the length of the list is enough fuel.
unfoldable pub delete_batches : ℕ → ℕ → List ℕ → Db → Db
unfolding is_named delete_messages
delete_batches zero folder_id uids db = db
delete_batches (suc fuel) folder_id [] db = db
delete_batches (suc fuel) folder_id (x ∷ uids) db =
    delete_batches fuel folder_id (drop delete_batch_size (x ∷ uids))
      (delete_messages (is_named folder_id (take delete_batch_size (x ∷ uids))) db)

unfoldable pub delete_messages_by_uid : ℕ → List ℕ → Db → Db
unfolding delete_batches
delete_messages_by_uid folder_id uids db = delete_batches (length uids) folder_id uids db
