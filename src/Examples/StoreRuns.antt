-- ===== src/Examples/StoreRuns.antt =====
-- The theorems on the store at concrete inputs.
use nexus_mail.Base.{
  inl, any, ◌&&◌, ◌||◌, ℕ, ◌≤◌, ◌<◌, true, false, not, List, [], ◌∷◌, ◌++◌, ◌≡◌, none, some, ◌⊎◌,
  refl, arith, map, length, filter, In, All, ◌==◌,
}
use nexus_mail.Base.Sorting.{Sorted}
use nexus_mail.Base.Text.{ascii, codes}
use nexus_mail.Model.{OperationState, pending}
use nexus_mail.Model.Errors.{ok, is_ok}
use nexus_mail.Model.Flags.{enabled}
use nexus_mail.Store.{Db, OperationRow, delete_messages}
use nexus_mail.Store.Delta.{delete_messages_by_uid, is_named}
use nexus_mail.Store.Deletions.{delete_messages_by_uid-one}
use nexus_mail.Store.Messages.{in_folder}
use nexus_mail.Store.Operations.{
  claimed_rows, count_operations, enqueue_operation, forget_finished_operations, is_finished,
  queued_before, mark_operation_done, mark_operation_dropped, mark_operation_failed,
  mark_operation_permanently_failed, op_ids, to_operation,
}
use nexus_mail.Store.Operations.Claims.{Claimable, claimed_rows-IsOldest}
use nexus_mail.Store.Operations.Enqueue.{as_queued, enqueue_operation-queues, is_complete}
use nexus_mail.Store.Operations.Marks.{
  cancel_operations-claims, forget_finished_operations-counts, marks-claims, without_operation,
}
use nexus_mail.Store.Purge.{purge_folder}
use nexus_mail.Store.Purge.Loop.{is_flagged, is_recent, within_cap}
use nexus_mail.Store.Purge.Retention.{folder_view, purge_folder-keeps}
use nexus_mail.Store.Identities.{
  Identity, count_identities, insert_identity, set_default_identity, update_identity,
  delete_identity,
}
use nexus_mail.Store.Identities.Defaults.{Settled, times}
use nexus_mail.Store.Identities.Steps.{after, after_insert, insert_identity-Settled}
use nexus_mail.Store.Identities.Removal.{identities-Settled}
use nexus_mail.Store.Undo.{cancel_operations, add_message, group_messages, restore_messages}
use nexus_mail.Store.Undo.Restore.{bare, flatten, restore_messages-bare}
use nexus_mail.Store.Actions.Flags.{change_flags-has_fold}
use nexus_mail.Store.Actions.{change_flags}
use nexus_mail.Model.Flags.{flag_flagged, flag_seen, has_fold}
use nexus_mail.Model.{Message}
use nexus_mail.Store.Undo.Cancel.{actions-cancelled}
use nexus_mail.Store.Actions.{apply_move, apply_delete}
use nexus_mail.Store.Folders.{upsert_folders, reset_folder}
use nexus_mail.Store.Folders.Generation.{
  Extends, Fresh, upsert_folders-Extends, reset_folder-IsScoped,
}
use nexus_mail.Store.Messages.Keys.{Keyed}
use nexus_mail.Store.Steps.{stay, step, purged, removed}
use nexus_mail.Store.Steps.Keys.{Steps-Keyed}
use nexus_mail.Examples.Data.{flagging, inbox, keep_one, mailbox, message}

-- At time 100 the flag change of row 4 is the oldest, and row 2 is not due.
abbrev batch : List OperationRow
batch = claimed_rows 100 1 5 mailbox

batch_ids : map (λ r. r.id) batch ≡ 4 ∷ 3 ∷ []
unfolding claimed_rows
batch_ids = refl

claimed_rows-IsOldest_example :
    All (Claimable 1 100) batch
    × Sorted queued_before batch
    × (length batch ≤ 5)
    × ((r : OperationRow)
        → In r mailbox.operations
        → Claimable 1 100 r
        → In r batch ⊎ ((length batch ≡ 5) × All (λ c. queued_before c r ≡ true) batch))
claimed_rows-IsOldest_example = claimed_rows-IsOldest 100 1 5 mailbox

marks-claims_example :
    (claimed_rows 100 1 5 (mark_operation_done 4 mailbox)
      ≡ claimed_rows 100 1 5 (without_operation 4 mailbox))
    × (claimed_rows 100 1 5 (mark_operation_dropped 4 mailbox)
        ≡ claimed_rows 100 1 5 (without_operation 4 mailbox))
    × (claimed_rows 100 1 5 (mark_operation_permanently_failed 4 (codes "no") mailbox)
        ≡ claimed_rows 100 1 5 (without_operation 4 mailbox))
    × (100 < 900
        → claimed_rows 100 1 5 (mark_operation_failed 4 (codes "no") 900 mailbox)
          ≡ claimed_rows 100 1 5 (without_operation 4 mailbox))
marks-claims_example = marks-claims 4 (codes "no") 900 100 1 5 mailbox

cancel_operations-claims_example :
    claimed_rows 100 1 5 (cancel_operations (2 ∷ 4 ∷ []) 200 mailbox).1
    ≡ claimed_rows 100 1 5 mailbox
cancel_operations-claims_example =
    cancel_operations-claims (2 ∷ 4 ∷ []) 200 100 1 5 mailbox (omega arith)

-- Only the operation that is not due is taken.
cancelled : (cancel_operations (2 ∷ 4 ∷ []) 200 mailbox).0 ≡ 1
unfolding cancel_operations
cancelled = refl

forget_finished_operations-counts_example :
    ((s : OperationState)
      → is_finished s ≡ true
      → count_operations 1 s (forget_finished_operations 1 mailbox) ≡ 0)
    × ((a : ℕ)
        → count_operations a pending (forget_finished_operations 1 mailbox)
          ≡ count_operations a pending mailbox)
    × ((a : ℕ) (s : OperationState)
        → (a == 1) ≡ false
        → count_operations a s (forget_finished_operations 1 mailbox)
          ≡ count_operations a s mailbox)
    × ((a : ℕ)
        → claimed_rows 100 a 5 (forget_finished_operations 1 mailbox)
          ≡ claimed_rows 100 a 5 mailbox)
forget_finished_operations-counts_example = forget_finished_operations-counts 1 100 5 mailbox

enqueue_operation-queues_example :
    (is_ok (enqueue_operation 50 flagging mailbox) ≡ is_complete flagging)
    × ((id : ℕ) (db' : Db)
        → enqueue_operation 50 flagging mailbox ≡ ok (id, db')
        → ((i : ℕ) → In i (op_ids mailbox) → i < id)
          × (map to_operation db'.operations
              ≡ map to_operation mailbox.operations ++ as_queued id 50 flagging ∷ []))
enqueue_operation-queues_example = enqueue_operation-queues 50 flagging mailbox

delete_messages_by_uid-one_example :
    delete_messages_by_uid 1 (31 ∷ 33 ∷ []) mailbox
    ≡ delete_messages (is_named 1 (31 ∷ 33 ∷ [])) mailbox
delete_messages_by_uid-one_example = delete_messages_by_uid-one 1 (31 ∷ 33 ∷ []) mailbox

purge_folder-keeps_example :
    (filter
        (λ m. not (is_flagged ascii m))
        (folder_view 1 (purge_folder ascii 1_000 1 keep_one mailbox).1)
      ≡ within_cap ascii 1_000 keep_one 0
          (filter (is_recent ascii 1_000 keep_one) (folder_view 1 mailbox)))
    × (filter (is_flagged ascii) (folder_view 1 (purge_folder ascii 1_000 1 keep_one mailbox).1)
        ≡ filter (is_flagged ascii) (folder_view 1 mailbox))
    × (filter (λ m. not (m.folder_id == 1)) (purge_folder ascii 1_000 1 keep_one mailbox).1.messages
        ≡ filter (λ m. not (m.folder_id == 1)) mailbox.messages)
unfolding enabled in_folder
purge_folder-keeps_example =
    purge_folder-keeps ascii 1_000 1 keep_one mailbox refl
      ((refl, (refl, tt)), ((refl, tt), (tt, tt)))

upsert_folders-Extends_example :
    Extends 1 mailbox.folders
      (upsert_folders 1 (record inbox { uid_validity = 8 } ∷ []) mailbox).folders
upsert_folders-Extends_example =
    upsert_folders-Extends 1 (record inbox { uid_validity = 8 } ∷ []) mailbox

reset_folder-IsScoped_example :
    (in_folder 1 (reset_folder 1 8 mailbox) ≡ [])
    × All (Fresh 8) (filter (λ f. f.id == 1) (reset_folder 1 8 mailbox).folders)
    × (filter (λ m. not (m.folder_id == 1)) (reset_folder 1 8 mailbox).messages
        ≡ filter (λ m. not (m.folder_id == 1)) mailbox.messages)
    × (filter (λ f. not (f.id == 1)) (reset_folder 1 8 mailbox).folders
        ≡ filter (λ f. not (f.id == 1)) mailbox.folders)
reset_folder-IsScoped_example = reset_folder-IsScoped 1 8 mailbox

actions-cancelled_example :
    (cancel_operations
        (apply_move (λ gs. gs) (λ gs. gs) (λ i. 50) (1 ∷ 4 ∷ []) 2 (some 900) mailbox).0
        400
        (apply_move (λ gs. gs) (λ gs. gs) (λ i. 50) (1 ∷ 4 ∷ []) 2 (some 900) mailbox).1
      ≡ (
        length (apply_move (λ gs. gs) (λ gs. gs) (λ i. 50) (1 ∷ 4 ∷ []) 2 (some 900) mailbox).0,
        record (apply_move (λ gs. gs) (λ gs. gs) (λ i. 50) (1 ∷ 4 ∷ []) 2 (some 900) mailbox).1 {
          operations = mailbox.operations;
        },
      ))
    × (cancel_operations
          (apply_delete (λ gs. gs) (λ gs. gs) (λ i. 50) (1 ∷ 4 ∷ []) (some 900) mailbox).0
          400
          (apply_delete (λ gs. gs) (λ gs. gs) (λ i. 50) (1 ∷ 4 ∷ []) (some 900) mailbox).1
        ≡ (
          length (apply_delete (λ gs. gs) (λ gs. gs) (λ i. 50) (1 ∷ 4 ∷ []) (some 900) mailbox).0,
          record (apply_delete (λ gs. gs) (λ gs. gs) (λ i. 50) (1 ∷ 4 ∷ []) (some 900) mailbox).1 {
            operations = mailbox.operations;
          },
        ))
actions-cancelled_example =
    actions-cancelled (λ gs. gs) (λ gs. gs) (λ i. 50) (1 ∷ 4 ∷ []) 2 (some 900) 400 mailbox
      (omega arith)

-- A purge, and a deletion of what is left.
abbrev purged_mailbox : Db
purged_mailbox = (purge_folder ascii 1_000 1 keep_one mailbox).1

abbrev deleted_mailbox : Db
deleted_mailbox = (apply_delete (λ gs. gs) (λ gs. gs) (λ i. 50) (1 ∷ 4 ∷ []) none purged_mailbox).1

Steps-Keyed_example : Keyed deleted_mailbox.messages
Steps-Keyed_example =
    Steps-Keyed ascii mailbox deleted_mailbox
      (step mailbox purged_mailbox deleted_mailbox (purged 1_000 1 keep_one mailbox) (
        step purged_mailbox deleted_mailbox deleted_mailbox
          (removed (λ gs. gs) (λ gs. gs) (λ i. 50) (1 ∷ 4 ∷ []) none purged_mailbox)
          (stay deleted_mailbox)))
      ((refl, (refl, (refl, tt))), ((refl, (refl, tt)), ((refl, tt), (tt, tt))))

change_flags-has_fold_example :
    (has_fold ascii (change_flags ascii (flag_seen ∷ []) (flag_flagged ∷ []) true).0 flag_seen
      ≡ has_fold ascii (flag_seen ∷ []) flag_seen || has_fold ascii (flag_flagged ∷ []) flag_seen)
    × ((change_flags ascii (flag_seen ∷ []) (flag_flagged ∷ []) true).1
        ≡ any (λ f. not (has_fold ascii (flag_seen ∷ []) f)) (flag_flagged ∷ []))
    × (has_fold ascii (change_flags ascii (flag_seen ∷ []) (flag_flagged ∷ []) false).0 flag_seen
        ≡ has_fold ascii (flag_seen ∷ []) flag_seen
          && not (has_fold ascii (flag_flagged ∷ []) flag_seen))
    × ((change_flags ascii (flag_seen ∷ []) (flag_flagged ∷ []) false).1
        ≡ any (has_fold ascii (flag_flagged ∷ [])) (flag_seen ∷ []))
change_flags-has_fold_example =
    change_flags-has_fold ascii (flag_seen ∷ []) (flag_flagged ∷ []) flag_seen

-- A message that an undone deletion brings back.
abbrev snapshot : List Message
snapshot = message 9 2 77 500 (flag_seen ∷ []) ∷ []

abbrev restored_mailbox : Db
restored_mailbox = (restore_messages (λ gs. gs) snapshot mailbox).1

restore_messages-bare_example :
    (map bare restored_mailbox.messages
      ≡ map bare mailbox.messages ++ map bare (flatten (group_messages snapshot [])))
    × ((m : Message) → In m snapshot → In (bare m) (map bare restored_mailbox.messages))
unfolding group_messages add_message
restore_messages-bare_example =
    restore_messages-bare (λ gs. gs) snapshot mailbox (λ g i. i) (λ g i. i)
      (
        (refl, (refl, (refl, (refl, tt)))),
        ((refl, (refl, (refl, tt))), ((refl, (refl, tt)), ((refl, tt), (tt, tt)))),
      )

-- Two addresses of one account.
abbrev work : Identity
work = record {
  id = 0;
  account_id = 1;
  email = codes "a@example.org";
  display_name = [];
  reply_to = [];
  signature_text = [];
  signature_html = [];
  is_default = false;
  sort_order = 2;
  created_at = none;
}

abbrev one_address : List Identity
one_address = after_insert (insert_identity 5 work []) []

abbrev home : Identity
home = record work { email = codes "b@example.org"; sort_order = 1 }

abbrev addresses : List Identity
addresses = after_insert (insert_identity 6 home one_address) one_address

-- The first is the default without being asked for.
address_defaults : map (λ r. r.is_default) addresses ≡ true ∷ false ∷ []
unfolding insert_identity
address_defaults = refl

-- An address that the account has already is refused.
address_refused :
    after_insert (insert_identity 7 (record work { is_default = true }) addresses) addresses
    ≡ addresses
unfolding insert_identity
address_refused = refl

none-Settled : Settled []
unfolding times count_identities
none-Settled = record { unique = λ id. omega arith; one_default = λ account_id. inl refl }

addresses-Settled : Settled addresses
addresses-Settled =
    insert_identity-Settled 6 home one_address (insert_identity-Settled 5 work [] none-Settled)

identities-Settled_example :
    Settled (after_insert (insert_identity 9 work addresses) addresses)
    × Settled (after (set_default_identity 2 addresses) addresses)
    × Settled (after (update_identity work addresses) addresses)
    × Settled (after (delete_identity 2 addresses) addresses)
identities-Settled_example = identities-Settled addresses 9 2 work addresses-Settled
