-- ===== src/Store/Operations/Marks.antt =====
-- The Mark* methods and ForgetFinishedOperations of internal/store/operations.go, and
-- CancelOperations of internal/store/undo.go: what each leaves for the worker to claim.
use nexus_mail.Base.{
  ℕ, ◌+◌, ◌≤◌, ◌<◌, Bool, true, false, not, ◌&&◌, List, [], ◌∷◌, ◌≡◌, refl, ap, map, length, filter,
  take, ◌==◌, arith, if◌then◌else◌,
}
use nexus_mail.Base.Text.{Text}
use nexus_mail.Base.Sorting.{sort}
use nexus_mail.Model.{OperationState, state_eq, pending, done, failed, dropped}
use nexus_mail.Store.{Db, OperationRow}
use nexus_mail.Store.Operations.{
  is_claimable, queued_before, claimed_rows, update_operation, set_operation_state,
  mark_operation_done, mark_operation_dropped, mark_operation_permanently_failed,
  mark_operation_failed, count_operations, is_finished, forget_finished_operations,
}
use nexus_mail.Store.Undo.{is_cancellable, cancel_operations}

-- The table without one row.
abbrev pub without_operation : ℕ → Db → Db
without_operation id db = record db { operations = filter (λ r. not (r.id == id)) db.operations }

-- An update that takes a row out of a query has, for the query, the effect of deleting it.
filter-update :
    (p : OperationRow → Bool) (f : OperationRow → OperationRow) (id : ℕ) (rows : List OperationRow)
    → ((r : OperationRow) → p (f r) ≡ false)
    → filter p (map (λ r. if r.id == id then f r else r) rows)
      ≡ filter p (filter (λ r. not (r.id == id)) rows)
filter-update p f id [] h = refl
filter-update p f id (r ∷ rows) h = ground (arith, filter-update p f id rows h, h r)

claimed_rows-update :
    (now account_id limit id : ℕ) (f : OperationRow → OperationRow) (db : Db)
    → ((r : OperationRow) → is_claimable account_id now (f r) ≡ false)
    → claimed_rows now account_id limit (update_operation id f db)
      ≡ claimed_rows now account_id limit (without_operation id db)
unfolding claimed_rows update_operation
claimed_rows-update now account_id limit id f db h =
    ap (λ rows. take limit (sort queued_before rows))
      (filter-update (is_claimable account_id now) f id db.operations h)

-- Once an operation is marked done, dropped or failed for good, no claim at any time, for any
-- account, reads it again, and every other operation is claimed as it was; once it is marked
-- failed for now, the same holds of every claim before `retry_at`.
pub marks-claims :
    (id : ℕ) (reason : Text) (retry_at now account_id limit : ℕ) (db : Db)
    → (claimed_rows now account_id limit (mark_operation_done id db)
        ≡ claimed_rows now account_id limit (without_operation id db))
      × (claimed_rows now account_id limit (mark_operation_dropped id db)
          ≡ claimed_rows now account_id limit (without_operation id db))
      × (claimed_rows now account_id limit (mark_operation_permanently_failed id reason db)
          ≡ claimed_rows now account_id limit (without_operation id db))
      × (now < retry_at
          → claimed_rows now account_id limit (mark_operation_failed id reason retry_at db)
            ≡ claimed_rows now account_id limit (without_operation id db))
unfolding mark_operation_done mark_operation_dropped mark_operation_permanently_failed
    mark_operation_failed set_operation_state is_claimable state_eq
marks-claims id reason retry_at now account_id limit db = (
  claimed_rows-update now account_id limit id (λ r. record r { state = done; last_error = [] }) db
      (λ r. ground arith),
  claimed_rows-update now account_id limit id (λ r. record r { state = dropped; last_error = [] })
      db (λ r. ground arith),
  claimed_rows-update now account_id limit id
      (λ r. record r { state = failed; last_error = reason }) db (λ r. ground arith),
  λ early.
      claimed_rows-update now account_id limit id
        (λ r. record r {
          attempts = r.attempts + 1;
          last_error = reason;
          next_attempt_at = retry_at;
        })
        db (λ r. ground arith),
)

-- The query of a claim passes over every row that a cancellation takes.
filter-cancel :
    (account_id now t : ℕ) (ids : List ℕ) (rows : List OperationRow)
    → now ≤ t
    → filter (is_claimable account_id now) (filter (λ r. not (is_cancellable ids t r)) rows)
      ≡ filter (is_claimable account_id now) rows
unfolding is_claimable is_cancellable
filter-cancel account_id now t ids [] h = refl
filter-cancel account_id now t ids (r ∷ rows) h =
    ground (arith, filter-cancel account_id now t ids rows h)

-- A cancellation at `t` takes nothing that a worker can have claimed by then: every claim at a time
-- up to `t` reads the same rows before and after it.
pub cancel_operations-claims :
    (ids : List ℕ) (t now account_id limit : ℕ) (db : Db)
    → now ≤ t
    → claimed_rows now account_id limit (cancel_operations ids t db).1
      ≡ claimed_rows now account_id limit db
unfolding claimed_rows cancel_operations
cancel_operations-claims ids t now account_id limit db h =
    ap (λ rows. take limit (sort queued_before rows))
      (filter-cancel account_id now t ids db.operations h)

module _ (account_id : ℕ) where
  abbrev is_forgotten : OperationRow → Bool
  is_forgotten r = r.account_id == account_id && is_finished r.state

  -- A query that asks for no forgotten row reads the same after they are gone.
  filter-forget :
      (p : OperationRow → Bool) (rows : List OperationRow)
      → ((r : OperationRow) → is_forgotten r ≡ true → p r ≡ false)
      → filter p (filter (λ r. not (is_forgotten r)) rows) ≡ filter p rows
  filter-forget p [] h = refl
  filter-forget p (r ∷ rows) h = ground (arith, filter-forget p rows h, h r)

  filter-forgotten :
      (p : OperationRow → Bool) (rows : List OperationRow)
      → ((r : OperationRow) → p r ≡ true → is_forgotten r ≡ true)
      → filter p (filter (λ r. not (is_forgotten r)) rows) ≡ []
  filter-forgotten p [] h = refl
  filter-forgotten p (r ∷ rows) h = ground (arith, filter-forgotten p rows h, h r)

finished-not_pending : (s : OperationState) → is_finished s ≡ true → state_eq s pending ≡ false
unfolding is_finished state_eq
finished-not_pending pending h = ground arith
finished-not_pending done h = refl
finished-not_pending dropped h = refl
finished-not_pending failed h = refl

counted-finished :
    (s t : OperationState) → is_finished s ≡ true → state_eq t s ≡ true → is_finished t ≡ true
unfolding is_finished state_eq
counted-finished pending t h k = ground arith
counted-finished done done h k = refl
counted-finished done pending h k = ground arith
counted-finished done failed h k = ground arith
counted-finished done dropped h k = ground arith
counted-finished failed failed h k = refl
counted-finished failed pending h k = ground arith
counted-finished failed done h k = ground arith
counted-finished failed dropped h k = ground arith
counted-finished dropped dropped h k = refl
counted-finished dropped pending h k = ground arith
counted-finished dropped done h k = ground arith
counted-finished dropped failed h k = ground arith

-- Forgetting an account's finished operations leaves it no operation in a finished state; the
-- counts of pending operations, for every account, and all counts of the other accounts stay; and
-- every claim reads the same rows.
pub forget_finished_operations-counts :
    (account_id now limit : ℕ) (db : Db)
    → ((s : OperationState)
        → is_finished s ≡ true
        → count_operations account_id s (forget_finished_operations account_id db) ≡ 0)
      × ((a : ℕ)
          → count_operations a pending (forget_finished_operations account_id db)
            ≡ count_operations a pending db)
      × ((a : ℕ) (s : OperationState)
          → (a == account_id) ≡ false
          → count_operations a s (forget_finished_operations account_id db)
            ≡ count_operations a s db)
      × ((a : ℕ)
          → claimed_rows now a limit (forget_finished_operations account_id db)
            ≡ claimed_rows now a limit db)
unfolding count_operations forget_finished_operations claimed_rows is_claimable
forget_finished_operations-counts account_id now limit db = (
  λ s fin. ap length (
      filter-forgotten account_id (λ r. r.account_id == account_id && state_eq r.state s)
        db.operations (λ r. ground (arith, counted-finished s r.state fin))),
  λ a. ap length (
      filter-forget account_id (λ r. r.account_id == a && state_eq r.state pending) db.operations
        (λ r. ground (arith, finished-not_pending r.state))),
  λ a s other. ap length (
      filter-forget account_id (λ r. r.account_id == a && state_eq r.state s) db.operations
        (λ r. ground arith)),
  λ a.
      ap (λ rows. take limit (sort queued_before rows))
        (filter-forget account_id (is_claimable a now) db.operations
          (λ r. ground (arith, finished-not_pending r.state))),
)
