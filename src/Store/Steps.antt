-- ===== src/Store/Steps.antt =====
-- Every method of internal/store that writes messages, as one step of the database.
pub mod Keys
use nexus_mail.Base.{
  ℕ, Bool, true, false, not, ◌&&◌, ◌||◌, filter, List, [], ◌∷◌, ◌≡◌, refl, ap, sym, subst, ◌∙◌, map,
  any, Option, none, some, find?, ◌==◌, arith, if◌then◌else◌, Bool-cases, inl, inr, Option-cases,
}
use nexus_mail.Base.Text.{Text, Unicode}
use nexus_mail.Model.{
  Folder, Message, FlagUpdate, OperationKind, RetentionPolicy, add_flags, remove_flags, move,
  delete,
}
use nexus_mail.Model.Errors.{Result, ok, err}
use nexus_mail.Store.{Db, delete_messages, is_in}
use nexus_mail.Store.Operations.{is_nil}
use nexus_mail.Store.Folders.{same_folder, upsert_folder, upsert_folders, reset_folder}
use nexus_mail.Store.Messages.{upsert_messages}
use nexus_mail.Store.Messages.Keys.{
  Keyed, clash, Keyed-map, upsert_messages-Keyed, delete_messages-Keyed,
}
use nexus_mail.Store.Bodies.{set_message_body}
use nexus_mail.Store.Delta.{
  set_flags, set_all_flags, set_message_flags, delete_messages_by_uid, is_named,
}
use nexus_mail.Store.Deletions.{delete_messages_by_uid-one}
use nexus_mail.Store.Purge.{purge_folder, expired_uids}
use nexus_mail.Store.Actions.{
  Group, TargetMessage, set_flags_by_id, flag_loop, change_flags, apply_flag_change, apply_move,
  apply_delete, apply_empty_folder, delete_targets, remove_and_queue, queue_per_folder,
  group_by_folder, load_targets,
}
use nexus_mail.Store.Undo.{
  MessageGroup, cancel_operations, group_messages, restore_groups, restore_messages,
}
use nexus_mail.Model.Flags.{enabled}

-- A transaction that returns an error is rolled back.
abbrev pub committed : Result (ℕ × Db) → Db → Db
committed (ok (id, db')) db = db'
committed (err e) db = db

-- The same of an insertion that is refused.
abbrev pub kept_or : Option Db → Db → Db
kept_or (some db') db = db'
kept_or none db = db

-- One call of a method that writes the table messages.
pub data Step (u : Unicode) : Db → Db → Type 0 where
  upserted :
      (folder_id : ℕ) (ms : List Message) (db : Db) → Step u db (upsert_messages folder_id ms db)
  folders_upserted :
      (account_id : ℕ) (fs : List Folder) (db : Db) → Step u db (upsert_folders account_id fs db)
  flags_set :
      (folder_id : ℕ) (xs : List FlagUpdate) (db : Db)
      → Step u db (set_message_flags folder_id xs db)
  deleted :
      (folder_id : ℕ) (uids : List ℕ) (db : Db)
      → Step u db (delete_messages_by_uid folder_id uids db)
  purged :
      (now folder_id : ℕ) (policy : RetentionPolicy) (db : Db)
      → Step u db (purge_folder u now folder_id policy db).1
  reset :
      (folder_id uid_validity : ℕ) (db : Db) → Step u db (reset_folder folder_id uid_validity db)
  flagged :
      (order : List Group → List Group) (now : ℕ → ℕ) (ids : List ℕ) (flags : List Text)
      (add : Bool) (db : Db)
      → Step u db (apply_flag_change u order now ids flags add db)
  moved :
      (order order' : List Group → List Group) (now : ℕ → ℕ) (ids : List ℕ) (target : ℕ)
      (not_before : Option ℕ) (db : Db)
      → Step u db (apply_move order order' now ids target not_before db).1
  removed :
      (order order' : List Group → List Group) (now : ℕ → ℕ) (ids : List ℕ) (not_before : Option ℕ)
      (db : Db)
      → Step u db (apply_delete order order' now ids not_before db).1
  emptied :
      (now folder_id : ℕ) (db : Db) → Step u db (committed (apply_empty_folder now folder_id db) db)
  cancelled : (ids : List ℕ) (now : ℕ) (db : Db) → Step u db (cancel_operations ids now db).1
  body_set :
      (message_id : ℕ) (html text : Text) (db : Db)
      → Step u db (kept_or (set_message_body message_id html text db) db)
  restored :
      (order : List MessageGroup → List MessageGroup) (ms : List Message) (db : Db)
      → Step u db (restore_messages order ms db).1

-- Any number of calls, one after another.
pub data Steps (u : Unicode) : Db → Db → Type 0 where
  stay : (db : Db) → Steps u db db
  step : (db db' db'' : Db) → Step u db db' → Steps u db' db'' → Steps u db db''
