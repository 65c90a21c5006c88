-- ===== src/Store/Operations/Enqueue.antt =====
-- EnqueueOperation of internal/store/operations.go: which operations the queue takes, and what a
-- taken one is in the table.
use nexus_mail.Base.{
  ℕ, ◌≤◌, ◌<◌, Bool, not, ◌&&◌, ◌||◌, List, [], ◌∷◌, ◌++◌, ◌≡◌, refl, inl, inr, ap, sym, subst, ◌∙◌,
  map, some, In, ◌==◌, arith, if◌then◌else◌,
}
use nexus_mail.Model.{Operation, acts_on_uids, needs_folder, pending}
use nexus_mail.Model.Errors.{Result, ok, err, ◌>>=◌, is_ok}
use nexus_mail.Store.{Db, OperationRow, next_id, max_id}
use nexus_mail.Store.Operations.{
  is_empty, is_nil, is_no_kind, is_send, check_send, check_operation, op_ids, enqueued_row,
  enqueue_operation, or_now, or_zero, nullable_folder, to_operation,
}

-- The conditions under which an operation may be queued, read off the error messages.
unfoldable pub is_complete : Operation → Bool
is_complete op =
    not (acts_on_uids op.kind && is_nil op.uids)
    && (not (is_no_kind op.kind)
        && (not (needs_folder op.kind && op.folder_id == 0)
            && (not (is_send op.kind)
                || (not (is_empty op.outbox)
                    && not (is_empty op.envelope_from || is_nil op.envelope_to)))))

check_send-is_ok :
    (op : Operation)
    → is_ok (check_send op)
      ≡ not (is_empty op.outbox) && not (is_empty op.envelope_from || is_nil op.envelope_to)
unfolding check_send
check_send-is_ok op = ground arith

check_operation-is_ok : (op : Operation) → is_ok (check_operation op) ≡ is_complete op
unfolding check_operation is_complete
check_operation-is_ok op = ground (arith, check_send-is_ok op)

max_id-bounds : (ids : List ℕ) (i : ℕ) → In i ids → i ≤ max_id ids
unfolding max_id
max_id-bounds [] i m = elim m [ ]
max_id-bounds (x ∷ ids) i (inl e) = omega arith
max_id-bounds (x ∷ ids) i (inr m) = omega (arith, max_id-bounds ids i m)

-- An id that an insert gives is larger than every id of the table.
pub next_id-IsFresh : (ids : List ℕ) (i : ℕ) → In i ids → i < next_id ids
unfolding next_id
next_id-IsFresh ids i m = omega (arith, max_id-bounds ids i m)

-- What the worker reads of a queued operation: the one that was queued, as a fresh pending one.
abbrev pub as_queued : ℕ → ℕ → Operation → Operation
as_queued id now op = record op {
  id = id;
  folder_id = if needs_folder op.kind then op.folder_id else 0;
  state = pending;
  attempts = 0;
  last_error = [];
  created_at = some (or_now op.created_at now);
  next_attempt_at = 0;
}

or_zero-nullable_folder :
    (op : Operation)
    → or_zero (nullable_folder op) ≡ (if needs_folder op.kind then op.folder_id else 0)
unfolding nullable_folder
or_zero-nullable_folder op = ground arith

to_operation-enqueued_row :
    (id now : ℕ) (op : Operation) → to_operation (enqueued_row id now op) ≡ as_queued id now op
unfolding to_operation enqueued_row
to_operation-enqueued_row id now op =
    λ i. record (as_queued id now op) { folder_id = or_zero-nullable_folder op i }

-- A step that cannot fail adds no failure, and its result is the step's.
is_ok-bind {ℓ} :
    {A : Type ℓ} {B : Type ℓ} (m : Result A) (b : B) → is_ok (m >>= λ _. ok b) ≡ is_ok m
is_ok-bind (ok a) b = refl
is_ok-bind (err e) b = refl

result-bind {ℓ} :
    {A : Type ℓ} {B : Type ℓ} (m : Result A) (b c : B) → (m >>= λ _. ok b) ≡ ok c → b ≡ c
result-bind (ok a) b c h = ground (arith, h)
result-bind (err e) b c h = ground (arith, h)

map-append :
    (xs : List OperationRow) (x : OperationRow)
    → map to_operation (xs ++ x ∷ []) ≡ map to_operation xs ++ to_operation x ∷ []
map-append [] x = refl
map-append (y ∷ xs) x = ap (◌∷◌ (to_operation y)) (map-append xs x)

-- An operation is queued exactly when it is complete. Its id is then larger than every id before,
-- and the worker reads the operations that it read before and, behind them, the new one, under this
-- id, pending, with no attempt made and due at once.
pub enqueue_operation-queues :
    (now : ℕ) (op : Operation) (db : Db)
    → (is_ok (enqueue_operation now op db) ≡ is_complete op)
      × ((id : ℕ) (db' : Db)
          → enqueue_operation now op db ≡ ok (id, db')
          → ((i : ℕ) → In i (op_ids db) → i < id)
            × (map to_operation db'.operations
                ≡ map to_operation db.operations ++ as_queued id now op ∷ []))
unfolding enqueue_operation
enqueue_operation-queues now op db = (
  is_ok-bind (check_operation op) _ ∙ check_operation-is_ok op,
  λ id db' h.
      let e = result-bind (check_operation op) _ (id, db') h in
      let id_is = ap (λ p. p.0) e in
      (
        λ i m. subst (λ x. i < x) id_is (next_id-IsFresh (op_ids db) i m),
        sym (ap (λ p. map to_operation p.1.operations) e)
            ∙ map-append db.operations (enqueued_row (next_id (op_ids db)) now op)
            ∙ ap (λ x. map to_operation db.operations ++ x ∷ [])
                (to_operation-enqueued_row (next_id (op_ids db)) now op
                  ∙ ap (λ x. as_queued x now op) id_is),
      ),
)
