-- ===== src/Sync/Sqlite.antt =====
-- internal/store as the interface `Store` of internal/sync/engine.go: the engine over the tables of
-- Store.antt. Every statement succeeds here.
use nexus_mail.Base.Text.{Unicode}
use nexus_mail.Model.Errors.{Result, ok}
use nexus_mail.Store.{Db}
use nexus_mail.Store.Operations.{
  claim_operations, mark_operation_done, mark_operation_dropped, mark_operation_failed,
  mark_operation_permanently_failed,
}
use nexus_mail.Store.Folders.{upsert_folders, list_folders, reset_folder}
use nexus_mail.Store.Messages.{upsert_messages}
use nexus_mail.Store.Delta.{list_message_uids, set_message_flags, delete_messages_by_uid}
use nexus_mail.Store.Purge.{purge_folder}
use nexus_mail.Sync.{Store}

-- A statement that reads, and one that writes.
abbrev pub reading : {A : Type 0} → (Db → A) → Db → Result A × Db
reading f db = (ok (f db), db)

abbrev pub writing : (Db → Db) → Db → Result (Unit {0}) × Db
writing f db = (ok tt, f db)

abbrev pub sqlite : Unicode → Store
sqlite u = record {
  State = Db;
  upsert_folders = λ account_id fs. writing (upsert_folders account_id fs);
  list_folders = λ account_id. reading (list_folders u account_id);
  reset_folder = λ folder_id uid_validity. writing (reset_folder folder_id uid_validity);
  upsert_messages = λ folder_id ms. writing (upsert_messages folder_id ms);
  list_message_uids = λ folder_id. reading (list_message_uids folder_id);
  set_message_flags = λ folder_id updates. writing (set_message_flags folder_id updates);
  delete_messages_by_uid = λ folder_id uids. writing (delete_messages_by_uid folder_id uids);
  purge_folder = λ now folder_id policy db.
      let (n, db') = purge_folder u now folder_id policy db in (ok n, db');
  claim_operations = λ now account_id limit. reading (claim_operations now account_id limit);
  mark_done = λ id. writing (mark_operation_done id);
  mark_dropped = λ id. writing (mark_operation_dropped id);
  mark_failed = λ id reason retry_at. writing (mark_operation_failed id reason retry_at);
  mark_permanently_failed = λ id reason. writing (mark_operation_permanently_failed id reason);
}
