-- ===== src/Store/Steps/Keys.antt =====
-- The methods of internal/store keep the ids and the keys of messages distinct.
use nexus_mail.Base.{
  ℕ, Bool, not, ◌&&◌, ◌||◌, filter, List, [], ◌∷◌, ◌≡◌, refl, ap, sym, subst, ◌∙◌, map, any, Option,
  none, find?, ◌==◌, if◌then◌else◌, Bool-cases, inl, inr, Option-cases,
}
use nexus_mail.Base.Text.{Text, Unicode}
use nexus_mail.Model.{
  Folder, Message, FlagUpdate, OperationKind, RetentionPolicy, add_flags, remove_flags, move,
  delete,
}
use nexus_mail.Store.{Db, delete_messages, is_in}
use nexus_mail.Store.Operations.{is_nil}
use nexus_mail.Store.Folders.{same_folder, upsert_folder, upsert_folders, reset_folder}
use nexus_mail.Store.Messages.{upsert_messages}
use nexus_mail.Store.Messages.Keys.{
  Keyed, clash, Keyed-map, upsert_messages-Keyed, delete_messages-Keyed,
}
use nexus_mail.Store.Bodies.{set_message_body, mark_fetched}
use nexus_mail.Store.Delta.{
  set_flags, set_all_flags, set_message_flags, delete_messages_by_uid, is_named,
}
use nexus_mail.Store.Deletions.{delete_messages_by_uid-one}
use nexus_mail.Store.Purge.{purge_folder, expired_uids}
use nexus_mail.Store.Actions.{
  Group, TargetMessage, set_flags_by_id, flag_loop, change_flags, apply_flag_change, apply_move,
  apply_delete, apply_empty_folder, delete_targets, remove_and_queue, queue_per_folder,
  group_by_folder, load_targets,
}
use nexus_mail.Store.Actions.Rows.{queue_per_folder-rows}
use nexus_mail.Store.Undo.{
  MessageGroup, cancel_operations, group_messages, restore_groups, restore_messages,
}
use nexus_mail.Model.Flags.{enabled}
use nexus_mail.Store.Steps.{
  Step, Steps, committed, upserted, folders_upserted, flags_set, deleted, purged, reset, flagged,
  moved, removed, emptied, cancelled, restored, body_set, kept_or, stay, step,
}

module _ (u : Unicode) where
  flags-clash :
      (p : Message → Bool) (flags : List Text) (a b : Message)
      → clash
          (if p a then record a { flags = flags } else a)
          (if p b then record b { flags = flags } else b)
        ≡ clash a b
  flags-clash p flags a b = elim (Bool-cases (p a)) [
    | inl x ↦ elim (Bool-cases (p b)) [ inl y ↦ rw (x, y) refl | inr y ↦ rw (x, y) refl ]
    | inr x ↦ elim (Bool-cases (p b)) [ inl y ↦ rw (x, y) refl | inr y ↦ rw (x, y) refl ]
  ]

  set_all_flags-Keyed :
      (folder_id : ℕ) (xs : List FlagUpdate) (ms : List Message)
      → Keyed ms
      → Keyed (set_all_flags folder_id xs ms)
  unfolding set_all_flags set_flags
  set_all_flags-Keyed folder_id [] ms k = k
  set_all_flags-Keyed folder_id (x ∷ xs) ms k =
      set_all_flags-Keyed folder_id xs (set_flags folder_id x ms)
        (Keyed-map _ (flags-clash (λ m. m.folder_id == folder_id && m.uid == x.uid) x.flags) ms k)

  flag_loop-Keyed :
      (flags : List Text) (add : Bool) (ts : List TargetMessage) (ms : List Message)
      → Keyed ms
      → Keyed (flag_loop u flags add ts ms).0
  unfolding flag_loop set_flags_by_id
  flag_loop-Keyed flags add [] ms k = k
  flag_loop-Keyed flags add (t ∷ ts) ms k =
      let change = change_flags u t.flags flags add in
      elim (Bool-cases change.1) [
        | inl changed ↦ rw changed (
            flag_loop-Keyed flags add ts (set_flags_by_id t.id change.0 ms)
              (Keyed-map _ (flags-clash (λ m. m.id == t.id) change.0) ms k))
        | inr same ↦ rw same (flag_loop-Keyed flags add ts ms k)
      ]

  queue_per_folder-messages :
      (now : ℕ → ℕ) (gs : List Group) (kind : OperationKind) (flags : List Text) (target : ℕ)
      (not_before : Option ℕ) (db : Db)
      → (queue_per_folder now gs kind flags target not_before db).1.messages ≡ db.messages
  queue_per_folder-messages now gs kind flags target not_before db =
      ap (λ p. p.1.messages) (queue_per_folder-rows now gs kind flags target not_before db)

  delete_targets-Keyed :
      (gs : List Group) (db : Db) → Keyed db.messages → Keyed (delete_targets gs db).messages
  unfolding delete_targets
  delete_targets-Keyed [] db k = k
  delete_targets-Keyed ((folder_id, ts) ∷ gs) db k =
      let p = λ (m : Message). is_in (map (λ t. t.id) ts) m.id in
      delete_targets-Keyed gs (delete_messages p db) (delete_messages-Keyed p db k)

  remove_and_queue-Keyed :
      (order order' : List Group → List Group) (now : ℕ → ℕ) (ts : List TargetMessage)
      (kind : OperationKind) (target : ℕ) (not_before : Option ℕ) (db : Db)
      → Keyed db.messages
      → Keyed (remove_and_queue order order' now ts kind target not_before db).1.messages
  unfolding remove_and_queue
  remove_and_queue-Keyed order order' now ts kind target not_before db k =
      let gs = group_by_folder ts [] in
      subst Keyed
        (sym (
          queue_per_folder-messages now (order' gs) kind [] target not_before
            (delete_targets (order gs) db)))
        (delete_targets-Keyed (order gs) db k)

  restore_groups-Keyed :
      (gs : List MessageGroup) (db : Db)
      → Keyed db.messages
      → Keyed (restore_groups gs db).1.messages
  unfolding restore_groups
  restore_groups-Keyed [] db k = k
  restore_groups-Keyed ((folder_id, batch) ∷ gs) db k =
      restore_groups-Keyed gs (upsert_messages folder_id batch db)
        (upsert_messages-Keyed folder_id batch db k)

  upsert_folder-messages :
      (account_id : ℕ) (f : Folder) (db : Db)
      → (upsert_folder account_id f db).messages ≡ db.messages
  unfolding upsert_folder
  upsert_folder-messages account_id f db =
      elim (Bool-cases (any (same_folder account_id f.path) db.folders)) [
        | inl there ↦ rw there refl
        | inr absent ↦ rw absent refl
      ]

  upsert_folders-messages :
      (account_id : ℕ) (fs : List Folder) (db : Db)
      → (upsert_folders account_id fs db).messages ≡ db.messages
  unfolding upsert_folders upsert_folder
  upsert_folders-messages account_id [] db = refl
  upsert_folders-messages account_id (f ∷ fs) db =
      upsert_folders-messages account_id fs (upsert_folder account_id f db)
      ∙ upsert_folder-messages account_id f db

  delete_messages_by_uid-Keyed :
      (folder_id : ℕ) (uids : List ℕ) (db : Db)
      → Keyed db.messages
      → Keyed (delete_messages_by_uid folder_id uids db).messages
  delete_messages_by_uid-Keyed folder_id uids db k =
      subst (λ d. Keyed d.messages) (sym (delete_messages_by_uid-one folder_id uids db))
        (delete_messages-Keyed (is_named folder_id uids) db k)

  purge_folder-Keyed :
      (now folder_id : ℕ) (policy : RetentionPolicy) (db : Db)
      → Keyed db.messages
      → Keyed (purge_folder u now folder_id policy db).1.messages
  unfolding purge_folder
  purge_folder-Keyed now folder_id policy db k = elim (Bool-cases (enabled policy)) [
    | inl on ↦
        rw on (delete_messages_by_uid-Keyed folder_id (expired_uids u now folder_id policy db) db k)
    | inr off ↦ rw off k
  ]

  apply_flag_change-Keyed :
      (order : List Group → List Group) (now : ℕ → ℕ) (ids : List ℕ) (flags : List Text)
      (add : Bool) (db : Db)
      → Keyed db.messages
      → Keyed (apply_flag_change u order now ids flags add db).messages
  unfolding apply_flag_change
  apply_flag_change-Keyed order now ids flags add db k =
      let (messages, changed) = flag_loop u flags add (load_targets ids db) db.messages in
      elim (Bool-cases (is_nil ids || is_nil flags)) [
        | inl none_is ↦ rw none_is k
        | inr some_is ↦ rw some_is (
            subst Keyed
              (sym (
                queue_per_folder-messages now (order (group_by_folder changed []))
                  (if add then add_flags else remove_flags) flags 0 none
                  (record db { messages = messages })))
              (flag_loop-Keyed flags add (load_targets ids db) db.messages k))
      ]

  apply_move-Keyed :
      (order order' : List Group → List Group) (now : ℕ → ℕ) (ids : List ℕ) (target : ℕ)
      (not_before : Option ℕ) (db : Db)
      → Keyed db.messages
      → Keyed (apply_move order order' now ids target not_before db).1.messages
  unfolding apply_move is_nil
  apply_move-Keyed order order' now [] target not_before db k = k
  apply_move-Keyed order order' now (i ∷ ids) target not_before db k =
      remove_and_queue-Keyed order order' now
        (filter (λ t. not (t.folder_id == target)) (load_targets (i ∷ ids) db)) move target
        not_before db k

  apply_delete-Keyed :
      (order order' : List Group → List Group) (now : ℕ → ℕ) (ids : List ℕ) (not_before : Option ℕ)
      (db : Db)
      → Keyed db.messages
      → Keyed (apply_delete order order' now ids not_before db).1.messages
  unfolding apply_delete is_nil
  apply_delete-Keyed order order' now [] not_before db k = k
  apply_delete-Keyed order order' now (i ∷ ids) not_before db k =
      remove_and_queue-Keyed order order' now (load_targets (i ∷ ids) db) delete 0 not_before db k

  apply_empty_folder-Keyed :
      (now folder_id : ℕ) (db : Db)
      → Keyed db.messages
      → Keyed (committed (apply_empty_folder now folder_id db) db).messages
  unfolding apply_empty_folder
  apply_empty_folder-Keyed now folder_id db k =
      let cleared = delete_messages-Keyed (λ m. m.folder_id == folder_id) db k in
      elim (Option-cases (find? (λ f. f.id == folder_id) db.folders)) [
        | inl absent ↦ rw (absent, apply_empty_folder) k
        | inr (f, found) ↦ rw (found, apply_empty_folder) cleared
      ]

  fetched-clash :
      (message_id : ℕ) (a b : Message)
      → clash (mark_fetched message_id a) (mark_fetched message_id b) ≡ clash a b
  unfolding mark_fetched
  fetched-clash message_id a b = elim (Bool-cases (a.id == message_id)) [
    | inl x ↦ elim (Bool-cases (b.id == message_id)) [
      | inl y ↦ rw (x, y) refl
      | inr y ↦ rw (x, y) refl
    ]
    | inr x ↦ elim (Bool-cases (b.id == message_id)) [
      | inl y ↦ rw (x, y) refl
      | inr y ↦ rw (x, y) refl
    ]
  ]

  set_message_body-Keyed :
      (message_id : ℕ) (html text : Text) (db : Db)
      → Keyed db.messages
      → Keyed (kept_or (set_message_body message_id html text db) db).messages
  unfolding set_message_body
  set_message_body-Keyed message_id html text db k =
      elim (Bool-cases (any (λ m. m.id == message_id) db.messages)) [
        | inl there ↦
            rw there (Keyed-map (mark_fetched message_id) (fetched-clash message_id) db.messages k)
        | inr gone ↦ rw gone k
      ]

  -- Each method keeps ids and keys distinct.
  Step-Keyed : (db db' : Db) → Step u db db' → Keyed db.messages → Keyed db'.messages
  unfolding set_message_flags reset_folder cancel_operations restore_messages
  Step-Keyed _ _ (upserted folder_id ms db) k = upsert_messages-Keyed folder_id ms db k
  Step-Keyed _ _ (folders_upserted account_id fs db) k =
      subst Keyed (sym (upsert_folders-messages account_id fs db)) k
  Step-Keyed _ _ (flags_set folder_id xs db) k = set_all_flags-Keyed folder_id xs db.messages k
  Step-Keyed _ _ (deleted folder_id uids db) k = delete_messages_by_uid-Keyed folder_id uids db k
  Step-Keyed _ _ (purged now folder_id policy db) k = purge_folder-Keyed now folder_id policy db k
  Step-Keyed _ _ (reset folder_id uid_validity db) k =
      delete_messages-Keyed (λ m. m.folder_id == folder_id) db k
  Step-Keyed _ _ (flagged order now ids flags add db) k =
      apply_flag_change-Keyed order now ids flags add db k
  Step-Keyed _ _ (moved order order' now ids target not_before db) k =
      apply_move-Keyed order order' now ids target not_before db k
  Step-Keyed _ _ (removed order order' now ids not_before db) k =
      apply_delete-Keyed order order' now ids not_before db k
  Step-Keyed _ _ (emptied now folder_id db) k = apply_empty_folder-Keyed now folder_id db k
  Step-Keyed _ _ (body_set message_id html text db) k =
      set_message_body-Keyed message_id html text db k
  Step-Keyed _ _ (cancelled ids now db) k = k
  Step-Keyed _ _ (restored order ms db) k = restore_groups-Keyed (order (group_messages ms [])) db k

-- Whatever methods that write messages are called, in whatever order and however Go walks its maps:
-- if no two messages share an id, or an account, folder and UID, then none do afterwards.
pub Steps-Keyed :
    (u : Unicode) (db db' : Db) → Steps u db db' → Keyed db.messages → Keyed db'.messages
Steps-Keyed u _ _ (stay db) k = k
Steps-Keyed u _ _ (step db db' db'' first rest) k =
    Steps-Keyed u db' db'' rest (Step-Keyed u db db' first k)
