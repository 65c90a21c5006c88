-- ===== src/Store/Operations.antt =====
-- internal/store/operations.go: the queue of changes waiting for the server.
pub mod Claims
pub mod Enqueue
pub mod Marks
use nexus_mail.Base.{
  ℕ, ◌+◌, Bool, true, false, not, ◌&&◌, ◌||◌, List, [], ◌∷◌, ◌++◌, map, Option, none, some, length,
  take, filter, leb, ltb, ◌==◌, if◌then◌else◌,
}
use nexus_mail.Base.Sorting.{sort}
use nexus_mail.Base.Text.{Text, codes, text_eq}
use nexus_mail.Model.{
  Operation, OperationKind, OperationState, acts_on_uids, needs_folder, state_eq, pending, done,
  failed, dropped, send, other,
}
use nexus_mail.Model.Errors.{Result, ok, err, new_error, ◌>>=◌, ◌>>◌}
use nexus_mail.Store.{Db, OpPayload, OperationRow, next_id}

-- An early return with an error, as a step of a `do` block.
abbrev pub reject_if : Bool → Text → Result (Unit {0})
reject_if true message = err (new_error message)
reject_if false message = ok tt

unfoldable pub is_empty : Text → Bool
is_empty [] = true
is_empty (c ∷ s) = false

unfoldable pub is_nil {ℓ} : {A : Type ℓ} → List A → Bool
is_nil [] = true
is_nil (x ∷ xs) = false

-- `kind == ""`.
unfoldable pub is_no_kind : OperationKind → Bool
unfolding is_empty
is_no_kind (other name) = is_empty name
is_no_kind _ = false

unfoldable pub is_send : OperationKind → Bool
is_send send = true
is_send _ = false

-- NULL for an operation that belongs to no mailbox.
unfoldable pub nullable_folder : Operation → Option ℕ
unfolding needs_folder
nullable_folder op =
    if not (needs_folder op.kind) || op.folder_id == 0 then none else some op.folder_id

-- The checks of a send, in their order.
unfoldable pub check_send : Operation → Result (Unit {0})
unfolding is_empty is_nil
check_send op = do
  reject_if (is_empty op.outbox) (codes "store: a send must name the file holding the message")
  reject_if (is_empty op.envelope_from || is_nil op.envelope_to)
      (codes "store: a send needs a return path and at least one recipient")

-- The checks of `EnqueueOperation`, in their order.
unfoldable pub check_operation : Operation → Result (Unit {0})
unfolding acts_on_uids needs_folder is_nil is_no_kind is_send check_send
check_operation op = do
  reject_if (acts_on_uids op.kind && is_nil op.uids)
      (codes "store: an operation must name at least one UID")
  reject_if (is_no_kind op.kind) (codes "store: an operation must have a kind")
  reject_if (needs_folder op.kind && op.folder_id == 0)
      (codes "store: an operation must name the folder its UIDs belong to")
  if is_send op.kind then check_send op else ok tt

abbrev pub op_ids : Db → List ℕ
op_ids db = map (λ r. r.id) db.operations

-- The operation's own time, or the clock's for the zero time.
abbrev pub or_now : Option ℕ → ℕ → ℕ
or_now none now = now
or_now (some t) now = t

-- The row that `EnqueueOperation` inserts: pending, with no attempt made, and due at once.
unfoldable pub enqueued_row : ℕ → ℕ → Operation → OperationRow
unfolding nullable_folder
enqueued_row id now op = record {
  id = id;
  account_id = op.account_id;
  folder_id = nullable_folder op;
  uid_validity = op.uid_validity;
  kind = op.kind;
  payload = record {
    uids = op.uids;
    flags = op.flags;
    target_folder_id = op.target_folder_id;
    outbox = op.outbox;
    envelope_from = op.envelope_from;
    envelope_to = op.envelope_to;
  };
  state = pending;
  attempts = 0;
  last_error = [];
  created_at = or_now op.created_at now;
  next_attempt_at = 0;
}

-- The new row's id and the store with it, or the refusal. `now` is the clock's reading.
unfoldable pub enqueue_operation : ℕ → Operation → Db → Result (ℕ × Db)
unfolding check_operation enqueued_row next_id
enqueue_operation now op db = do
  check_operation op
  let id = next_id (op_ids db)
  ok (id, record db { operations = db.operations ++ enqueued_row id now op ∷ [] })

-- `WHERE account_id = ? AND state = 'pending' AND next_attempt_at <= ?`.
unfoldable pub is_claimable : ℕ → ℕ → OperationRow → Bool
unfolding state_eq
is_claimable account_id now r =
    r.account_id == account_id && (state_eq r.state pending && leb r.next_attempt_at now)

-- `ORDER BY created_at, id`.
unfoldable pub queued_before : OperationRow → OperationRow → Bool
queued_before a b = ltb a.created_at b.created_at || (a.created_at == b.created_at && leb a.id b.id)

abbrev pub or_zero : Option ℕ → ℕ
or_zero none = 0
or_zero (some i) = i

-- A row as the operation that it holds.
unfoldable pub to_operation : OperationRow → Operation
to_operation r = record {
  id = r.id;
  account_id = r.account_id;
  folder_id = or_zero r.folder_id;
  uid_validity = r.uid_validity;
  kind = r.kind;
  state = r.state;
  uids = r.payload.uids;
  flags = r.payload.flags;
  target_folder_id = r.payload.target_folder_id;
  outbox = r.payload.outbox;
  envelope_from = r.payload.envelope_from;
  envelope_to = r.payload.envelope_to;
  attempts = r.attempts;
  last_error = r.last_error;
  created_at = some r.created_at;
  next_attempt_at = r.next_attempt_at;
}

-- The rows that a claim reads.
unfoldable pub claimed_rows : ℕ → ℕ → ℕ → Db → List OperationRow
unfolding is_claimable queued_before sort
claimed_rows now account_id limit db =
    take limit (sort queued_before (filter (is_claimable account_id now) db.operations))

unfoldable pub claim_operations : ℕ → ℕ → ℕ → Db → List Operation
unfolding claimed_rows to_operation
claim_operations now account_id limit db = map to_operation (claimed_rows now account_id limit db)

-- `UPDATE operations SET … WHERE id = ?`.
unfoldable pub update_operation : ℕ → (OperationRow → OperationRow) → Db → Db
update_operation id f db = record db {
  operations = map (λ r. if r.id == id then f r else r) db.operations;
}

unfoldable pub set_operation_state : ℕ → OperationState → Text → Db → Db
unfolding update_operation
set_operation_state id state reason =
    update_operation id (λ r. record r { state = state; last_error = reason })

unfoldable pub mark_operation_done : ℕ → Db → Db
unfolding set_operation_state
mark_operation_done id = set_operation_state id done []

unfoldable pub mark_operation_dropped : ℕ → Db → Db
unfolding set_operation_state
mark_operation_dropped id = set_operation_state id dropped []

unfoldable pub mark_operation_permanently_failed : ℕ → Text → Db → Db
unfolding set_operation_state
mark_operation_permanently_failed id reason = set_operation_state id failed reason

-- The operation stays pending: one more attempt, and a later time.
unfoldable pub mark_operation_failed : ℕ → Text → ℕ → Db → Db
unfolding update_operation
mark_operation_failed id reason retry_at =
    update_operation id
      λ r. record r { attempts = r.attempts + 1; last_error = reason; next_attempt_at = retry_at }

unfoldable pub count_operations : ℕ → OperationState → Db → ℕ
unfolding state_eq
count_operations account_id state db =
    length (filter (λ r. r.account_id == account_id && state_eq r.state state) db.operations)

-- Done, dropped and failed operations of one account go; pending work stays.
unfoldable pub is_finished : OperationState → Bool
unfolding state_eq
is_finished s = state_eq s done || (state_eq s dropped || state_eq s failed)

unfoldable pub forget_finished_operations : ℕ → Db → Db
unfolding is_finished
forget_finished_operations account_id db = record db {
  operations = filter (λ r. not (r.account_id == account_id && is_finished r.state)) db.operations;
}

-- `PendingOutboxNames` of internal/store/outbox.go: the files that a queued send still needs.
unfoldable pub needs_outbox : OperationRow → Bool
unfolding is_send state_eq is_empty
needs_outbox r =
    is_send r.kind
    && ((state_eq r.state pending || state_eq r.state failed) && not (is_empty r.payload.outbox))

unfoldable pub pending_outbox_names : Db → List Text
unfolding needs_outbox
pending_outbox_names db = map (λ r. r.payload.outbox) (filter needs_outbox db.operations)
