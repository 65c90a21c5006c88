-- ===== src/Store/Actions.antt =====
-- internal/store/actions.go: what the user does to messages, written locally and queued for the
-- server in one transaction.
--
-- `order` is the order in which Go walks a map of folders, which it does not specify. `now` gives
-- the readings of the clock, one for each row that is queued.
pub mod Rows
pub mod Flags
use nexus_mail.Base.{
  ℕ, suc, Bool, true, false, not, ◌||◌, List, [], ◌∷◌, ◌++◌, map, Option, none, some, filter, find?,
  length, ◌==◌, if◌then◌else◌,
}
use nexus_mail.Base.Text.{Text, Unicode, codes}
use nexus_mail.Model.{
  Folder, Message, OperationKind, pending, add_flags, remove_flags, move, delete, empty_folder,
}
use nexus_mail.Model.Errors.{Result, ok, err, new_error}
use nexus_mail.Model.Flags.{has_fold}
use nexus_mail.Store.{Db, OperationRow, is_in, next_id, delete_messages}
use nexus_mail.Store.Operations.{op_ids, is_nil, or_zero}

-- What an action needs of a message.
pub record TargetMessage : Type 0 where
  pub id : ℕ
  pub account_id : ℕ
  pub folder_id : ℕ
  pub uid : ℕ
  pub uid_validity : ℕ
  pub flags : List Text

abbrev pub Group : Type 0
Group = ℕ × List TargetMessage

-- `changeFlags` for an addition: the flags in their order, each added once.
module _ (u : Unicode) where
  unfoldable pub add_all : List Text → List Text → Bool → List Text × Bool
  unfolding has_fold
  add_all out [] changed = (out, changed)
  add_all out (f ∷ fs) changed =
      add_all (if has_fold u out f then out else out ++ f ∷ []) fs
        (if has_fold u out f then changed else true)

  -- The new flags, and whether anything moved.
  unfoldable pub change_flags : List Text → List Text → Bool → List Text × Bool
  unfolding add_all
  change_flags current change true = add_all current change false
  change_flags current change false =
      let kept = filter (λ f. not (has_fold u change f)) current in
      (kept, not (length kept == length current))

-- The JOIN with the folder of a message: its UIDVALIDITY.
unfoldable pub join_folder : Message → List Folder → Option TargetMessage
join_folder m [] = none
join_folder m (f ∷ fs) =
    if f.id == m.folder_id
    then some (record {
      id = m.id;
      account_id = m.account_id;
      folder_id = m.folder_id;
      uid = m.uid;
      uid_validity = f.uid_validity;
      flags = m.flags;
    })
    else join_folder m fs

-- Messages that are not there are absent from the result.
unfoldable pub targets_among : List ℕ → List Folder → List Message → List TargetMessage
unfolding join_folder is_in
targets_among ids folders [] = []
targets_among ids folders (m ∷ ms) =
    let rest = targets_among ids folders ms in
    if is_in ids m.id
    then elim (join_folder m folders) [ none ↦ rest | some t ↦ t ∷ rest ]
    else rest

unfoldable pub load_targets : List ℕ → Db → List TargetMessage
unfolding targets_among
load_targets ids db = targets_among ids db.folders db.messages

-- `byFolder[t.folderID] = append(byFolder[t.folderID], t)`.
unfoldable pub add_to_group : TargetMessage → List Group → List Group
add_to_group t [] = (t.folder_id, t ∷ []) ∷ []
add_to_group t ((folder_id, ts) ∷ gs) =
    if folder_id == t.folder_id
    then (folder_id, ts ++ t ∷ []) ∷ gs
    else (folder_id, ts) ∷ add_to_group t gs

unfoldable pub group_by_folder : List TargetMessage → List Group → List Group
unfolding add_to_group
group_by_folder [] gs = gs
group_by_folder (t ∷ ts) gs = group_by_folder ts (add_to_group t gs)

-- The row that `queuePerFolder` inserts for the targets `t ∷ ts` of one folder. A change that has
-- no `not_before` is due at once.
unfoldable pub queued_row :
    ℕ
    → ℕ
    → OperationKind
    → List Text
    → ℕ
    → Option ℕ
    → ℕ
    → TargetMessage
    → List TargetMessage
    → OperationRow
queued_row id now kind flags target_folder_id not_before folder_id t ts = record {
  id = id;
  account_id = t.account_id;
  folder_id = some folder_id;
  uid_validity = t.uid_validity;
  kind = kind;
  payload = record {
    uids = map (λ x. x.uid) (t ∷ ts);
    flags = flags;
    target_folder_id = target_folder_id;
    outbox = [];
    envelope_from = [];
    envelope_to = [];
  };
  state = pending;
  attempts = 0;
  last_error = [];
  created_at = now;
  next_attempt_at = or_zero not_before;
}

-- One operation per folder: the new ids, and the store with the rows.
unfoldable pub queue_per_folder :
    (ℕ → ℕ) → List Group → OperationKind → List Text → ℕ → Option ℕ → Db → List ℕ × Db
unfolding queued_row next_id
queue_per_folder now [] kind flags target not_before db = ([], db)
queue_per_folder now ((folder_id, []) ∷ gs) kind flags target not_before db =
    queue_per_folder now gs kind flags target not_before db
queue_per_folder now ((folder_id, t ∷ ts) ∷ gs) kind flags target not_before db =
    let id = next_id (op_ids db) in
    let row = queued_row id (now 0) kind flags target not_before folder_id t ts in
    let (created, db') =
      queue_per_folder (λ i. now (suc i)) gs kind flags target not_before
        (record db { operations = db.operations ++ row ∷ [] }) in
    (id ∷ created, db')

-- `UPDATE messages SET flags = ? WHERE id = ?`.
unfoldable pub set_flags_by_id : ℕ → List Text → List Message → List Message
set_flags_by_id id flags = map (λ m. if m.id == id then record m { flags = flags } else m)

-- The loop of `ApplyFlagChange`: the messages with their new flags, and the targets that changed.
module _ (u : Unicode) where
  unfoldable pub flag_loop :
      List Text → Bool → List TargetMessage → List Message → List Message × List TargetMessage
  unfolding change_flags set_flags_by_id
  flag_loop flags add [] ms = (ms, [])
  flag_loop flags add (t ∷ ts) ms =
      let (updated, changed) = change_flags u t.flags flags add in
      let (ms', rest) =
        flag_loop flags add ts (if changed then set_flags_by_id t.id updated ms else ms) in
      (ms', if changed then t ∷ rest else rest)

module _ (u : Unicode) (order : List Group → List Group) where
  unfoldable pub apply_flag_change : (ℕ → ℕ) → List ℕ → List Text → Bool → Db → Db
  unfolding load_targets flag_loop group_by_folder queue_per_folder is_nil
  apply_flag_change now ids flags add db =
      if is_nil ids || is_nil flags
      then db
      else (let (messages, changed) = flag_loop u flags add (load_targets ids db) db.messages in
          (queue_per_folder now (order (group_by_folder changed []))
            (if add then add_flags else remove_flags) flags 0 none
            (record db { messages = messages })).1)

-- `DELETE FROM messages WHERE id IN (…)`, one statement for each folder.
unfoldable pub delete_targets : List Group → Db → Db
unfolding delete_messages is_in
delete_targets [] db = db
delete_targets ((folder_id, ts) ∷ gs) db =
    delete_targets gs (delete_messages (λ m. is_in (map (λ t. t.id) ts) m.id) db)

module _ (order : List Group → List Group) where
  -- The groups are walked twice, and the two walks may differ.
  unfoldable pub remove_and_queue :
      (List Group → List Group)
      → (ℕ → ℕ)
      → List TargetMessage
      → OperationKind
      → ℕ
      → Option ℕ
      → Db
      → List ℕ × Db
  unfolding group_by_folder delete_targets queue_per_folder
  remove_and_queue order' now ts kind target not_before db =
      let gs = group_by_folder ts [] in
      queue_per_folder now (order' gs) kind [] target not_before (delete_targets (order gs) db)

  -- The row goes: the server gives the message a new UID in the destination.
  unfoldable pub apply_move :
      (List Group → List Group) → (ℕ → ℕ) → List ℕ → ℕ → Option ℕ → Db → List ℕ × Db
  unfolding load_targets remove_and_queue is_nil
  apply_move order' now ids target not_before db =
      if is_nil ids
      then ([], db)
      else remove_and_queue order' now
          (filter (λ t. not (t.folder_id == target)) (load_targets ids db)) move target not_before
          db

  unfoldable pub apply_delete :
      (List Group → List Group) → (ℕ → ℕ) → List ℕ → Option ℕ → Db → List ℕ × Db
  unfolding load_targets remove_and_queue is_nil
  apply_delete order' now ids not_before db =
      if is_nil ids
      then ([], db)
      else remove_and_queue order' now (load_targets ids db) delete 0 not_before db

-- The row that `ApplyEmptyFolder` inserts.
unfoldable pub empty_row : ℕ → ℕ → Folder → OperationRow
empty_row id now f = record {
  id = id;
  account_id = f.account_id;
  folder_id = some f.id;
  uid_validity = f.uid_validity;
  kind = empty_folder;
  payload = record {
    uids = [];
    flags = [];
    target_folder_id = 0;
    outbox = [];
    envelope_from = [];
    envelope_to = [];
  };
  state = pending;
  attempts = 0;
  last_error = [];
  created_at = now;
  next_attempt_at = 0;
}

-- Everything in the folder goes locally, and the server is told to destroy everything there.
unfoldable pub apply_empty_folder : ℕ → ℕ → Db → Result (ℕ × Db)
unfolding delete_messages empty_row next_id
apply_empty_folder now folder_id db = elim (find? (λ f. f.id == folder_id) db.folders) [
  | none ↦ err (new_error (codes "store: no folder to empty"))
  | some f ↦
      let id = next_id (op_ids db) in
      let cleared = delete_messages (λ m. m.folder_id == folder_id) db in
      ok (id, record cleared { operations = cleared.operations ++ empty_row id now f ∷ [] })
]
