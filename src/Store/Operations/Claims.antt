-- ===== src/Store/Operations/Claims.antt =====
-- ClaimOperations of internal/store/operations.go: which rows a claim reads, and in which order.
use nexus_mail.Base.{
  ℕ, ◌≤◌, true, false, ◌≡◌, ◌⊎◌, refl, length, filter, arith, In, All, All-take, All-map,
  All-filter_self, In-filter, length-take,
}
use nexus_mail.Base.Sorting.{sort, Sorted, Sorted-take, All-sort, In-sort, In-take, Sorted-sort}
use nexus_mail.Model.{OperationState, state_eq, pending, done, failed, dropped}
use nexus_mail.Store.{Db, OperationRow}
use nexus_mail.Store.Operations.{is_claimable, queued_before, claimed_rows}

-- What the query of a claim asks of a row.
abbrev pub Claimable : ℕ → ℕ → OperationRow → Type 0
Claimable account_id now r =
    (r.account_id ≡ account_id) × (r.state ≡ pending) × (r.next_attempt_at ≤ now)

pub state_eq-pending : (s : OperationState) → state_eq s pending ≡ true → s ≡ pending
unfolding state_eq
state_eq-pending pending h = refl
state_eq-pending done h = ground arith
state_eq-pending failed h = ground arith
state_eq-pending dropped h = ground arith

is_claimable-Claimable :
    (account_id now : ℕ) (r : OperationRow)
    → is_claimable account_id now r ≡ true
    → Claimable account_id now r
unfolding is_claimable
is_claimable-Claimable account_id now r h = ground (arith, state_eq-pending r.state)

queued_before_total : (a b : OperationRow) → queued_before a b ≡ false → queued_before b a ≡ true
unfolding queued_before
queued_before_total a b h = ground arith

queued_before_trans :
    (a b c : OperationRow)
    → queued_before a b ≡ true
    → queued_before b c ≡ true
    → queued_before a c ≡ true
unfolding queued_before
queued_before_trans a b c h k = ground arith

Claimable-is_claimable :
    (account_id now : ℕ) (r : OperationRow)
    → Claimable account_id now r
    → is_claimable account_id now r ≡ true
unfolding is_claimable state_eq
Claimable-is_claimable account_id now r (a, s, d) = rw s (ground (arith, a, d))

-- The rows of a claim are all pending, due and of the account; they are at most `limit`, the oldest
-- first and by id among rows of one time; and a row of the table that the query asks for is either
-- among them or stands behind a full batch of them.
pub claimed_rows-IsOldest :
    (now account_id limit : ℕ) (db : Db)
    → All (Claimable account_id now) (claimed_rows now account_id limit db)
      × Sorted queued_before (claimed_rows now account_id limit db)
      × (length (claimed_rows now account_id limit db) ≤ limit)
      × ((r : OperationRow)
          → In r db.operations
          → Claimable account_id now r
          → In r (claimed_rows now account_id limit db)
            ⊎ ((length (claimed_rows now account_id limit db) ≡ limit)
                × All (λ c. queued_before c r ≡ true) (claimed_rows now account_id limit db)))
unfolding claimed_rows
claimed_rows-IsOldest now account_id limit db =
    let p = is_claimable account_id now in
    let rows = filter p db.operations in
    let sorted = Sorted-sort queued_before queued_before_total queued_before_trans rows in
    (
      All-take (Claimable account_id now) limit (sort queued_before rows) (
          All-sort queued_before (Claimable account_id now) rows (
            All-map (λ r. p r ≡ true) (Claimable account_id now) rows
              (is_claimable-Claimable account_id now) (All-filter_self p db.operations))),
      Sorted-take queued_before limit (sort queued_before rows) sorted,
      omega (arith, length-take limit (sort queued_before rows)),
      λ r m c. In-take queued_before limit (sort queued_before rows) r sorted (
          In-sort queued_before rows r
            (In-filter p db.operations r m (Claimable-is_claimable account_id now r c))),
    )
