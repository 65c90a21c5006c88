-- ===== src/Store/Actions/Rows.antt =====
-- The rows that queuePerFolder of internal/store/actions.go adds to the queue.
use nexus_mail.Base.{
  ℕ, suc, ◌<◌, true, List, [], ◌∷◌, ◌++◌, ◌≡◌, refl, ap, sym, ◌∙◌, inl, inr, map, append-nil,
  append_assoc, Option, In, All, All-map,
}
use nexus_mail.Base.Text.{Text}
use nexus_mail.Model.{OperationKind, state_eq, pending}
use nexus_mail.Store.{Db, OperationRow, next_id}
use nexus_mail.Store.Operations.{op_ids, or_zero}
use nexus_mail.Store.Operations.Enqueue.{next_id-IsFresh}
use nexus_mail.Store.Actions.{Group, queued_row, queue_per_folder}

-- The rows that `queue_per_folder` adds, for the table as it stands before.
abbrev pub rows_for :
    (ℕ → ℕ)
    → List Group
    → OperationKind
    → List Text
    → ℕ
    → Option ℕ
    → List OperationRow
    → List OperationRow
rows_for now [] kind flags target not_before rows = []
rows_for now ((folder_id, []) ∷ gs) kind flags target not_before rows =
    rows_for now gs kind flags target not_before rows
rows_for now ((folder_id, t ∷ ts) ∷ gs) kind flags target not_before rows =
    let row =
      queued_row (next_id (map (λ r. r.id) rows)) (now 0) kind flags target not_before folder_id t
        ts in
    row ∷ rows_for (λ i. now (suc i)) gs kind flags target not_before (rows ++ row ∷ [])

pub queue_per_folder-rows :
    (now : ℕ → ℕ) (gs : List Group) (kind : OperationKind) (flags : List Text) (target : ℕ)
    (not_before : Option ℕ) (db : Db)
    → let rows = rows_for now gs kind flags target not_before db.operations in
      (queue_per_folder now gs kind flags target not_before db)
      ≡ (map (λ r. r.id) rows, record db { operations = db.operations ++ rows })
unfolding queue_per_folder
queue_per_folder-rows now [] kind flags target not_before db =
    λ i. ([], record db { operations = sym (append-nil db.operations) i })
queue_per_folder-rows now ((folder_id, []) ∷ gs) kind flags target not_before db =
    queue_per_folder-rows now gs kind flags target not_before db
queue_per_folder-rows now ((folder_id, t ∷ ts) ∷ gs) kind flags target not_before db =
    let row =
      queued_row (next_id (op_ids db)) (now 0) kind flags target not_before folder_id t ts in
    let db' : Db = record db { operations = db.operations ++ row ∷ [] } in
    let ih = queue_per_folder-rows (λ i. now (suc i)) gs kind flags target not_before db' in
    let rest =
      rows_for (λ i. now (suc i)) gs kind flags target not_before (db.operations ++ row ∷ []) in
    ap (λ (p : List ℕ × Db). (row.id ∷ p.0, p.1)) ih ∙ λ i. (
      row.id ∷ map (λ r. r.id) rest,
      record db { operations = append_assoc db.operations (row ∷ []) rest i },
    )

-- Every row that is added is pending, has the given time, and has an id beyond the table's.
abbrev pub Queued : Option ℕ → List ℕ → OperationRow → Type 0
Queued not_before ids r =
    (state_eq r.state pending ≡ true)
    × (r.next_attempt_at ≡ or_zero not_before)
    × ((i : ℕ) → In i ids → i < r.id)

In-ids_append :
    (rows : List OperationRow) (row : OperationRow) (i : ℕ)
    → In i (map (λ r. r.id) rows)
    → In i (map (λ r. r.id) (rows ++ row ∷ []))
In-ids_append [] row i m = elim m [ ]
In-ids_append (r ∷ rows) row i (inl e) = inl e
In-ids_append (r ∷ rows) row i (inr m) = inr (In-ids_append rows row i m)

pub rows_for-Queued :
    (now : ℕ → ℕ) (gs : List Group) (kind : OperationKind) (flags : List Text) (target : ℕ)
    (not_before : Option ℕ) (rows : List OperationRow)
    → All
        (Queued not_before (map (λ r. r.id) rows))
        (rows_for now gs kind flags target not_before rows)
unfolding queued_row state_eq
rows_for-Queued now [] kind flags target not_before rows = tt
rows_for-Queued now ((folder_id, []) ∷ gs) kind flags target not_before rows =
    rows_for-Queued now gs kind flags target not_before rows
rows_for-Queued now ((folder_id, t ∷ ts) ∷ gs) kind flags target not_before rows =
    let row =
      queued_row (next_id (map (λ r. r.id) rows)) (now 0) kind flags target not_before folder_id t
        ts in
    (
      (refl, refl, next_id-IsFresh (map (λ r. r.id) rows)),
      All-map _ _ (rows_for (λ i. now (suc i)) gs kind flags target not_before (rows ++ row ∷ []))
          (λ r h. (h.0, h.1, λ i m. h.2 i (In-ids_append rows row i m)))
          (rows_for-Queued (λ i. now (suc i)) gs kind flags target not_before (rows ++ row ∷ [])),
    )
