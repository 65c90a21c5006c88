-- ===== src/Store/Undo/Cancel.antt =====
-- A queued move or deletion taken back (internal/store/actions.go and undo.go): the queue is as if
-- the action had never been made.
use nexus_mail.Base.{
  ℕ, ◌<◌, Bool, true, false, not, List, [], ◌∷◌, ◌++◌, ◌≡◌, refl, ap, sym, ◌∙◌, inl, inr, map,
  append-nil, Option, In, All, All-map, All-of_In, All-In, filter-append, filter-All, filter-none,
  length-map, length, filter, ◌==◌, arith,
}
use nexus_mail.Base.Text.{Text}
use nexus_mail.Model.{OperationKind, move, delete}
use nexus_mail.Store.{Db, OperationRow, is_in, delete_messages}
use nexus_mail.Store.Operations.{or_zero, is_nil}
use nexus_mail.Store.Actions.{
  TargetMessage, Group, queue_per_folder, delete_targets, remove_and_queue, load_targets,
  apply_move, apply_delete, group_by_folder,
}
use nexus_mail.Store.Actions.Rows.{rows_for, queue_per_folder-rows, Queued, rows_for-Queued}
use nexus_mail.Store.Undo.{is_cancellable, cancel_operations}

-- Old rows stay, since a list of larger ids has none of theirs.
is_in-larger : (ids : List ℕ) (x : ℕ) → All (λ i. x < i) ids → is_in ids x ≡ false
unfolding is_in
is_in-larger [] x h = refl
is_in-larger (i ∷ ids) x h = ground (arith, h.0, is_in-larger ids x h.1)

All-ids :
    (x : ℕ) (rows : List OperationRow)
    → All (λ r. x < r.id) rows
    → All (λ i. x < i) (map (λ r. r.id) rows)
All-ids x [] h = tt
All-ids x (r ∷ rows) h = (h.0, All-ids x rows h.1)

In-ids : (r : OperationRow) (rows : List OperationRow) → In r rows → In r.id (map (λ r. r.id) rows)
In-ids r [] m = elim m [ ]
In-ids r (x ∷ rows) (inl e) = inl (ap (λ q. q.id) e)
In-ids r (x ∷ rows) (inr m) = inr (In-ids r rows m)

is_in-ids :
    (rows : List OperationRow) (r : OperationRow)
    → In r rows
    → is_in (map (λ r. r.id) rows) r.id ≡ true
unfolding is_in
is_in-ids [] r m = elim m [ ]
is_in-ids (x ∷ rows) r (inl e) = rw e (ground arith)
is_in-ids (x ∷ rows) r (inr m) = ground (arith, is_in-ids rows r m)

module _ (not_before : Option ℕ) (t : ℕ) (due : t < or_zero not_before)
    (old rows : List OperationRow)
    (queued : All (Queued not_before (map (λ r. r.id) old)) rows) where
  abbrev ids : List ℕ
  ids = map (λ r. r.id) rows

  old-kept : All (λ r. is_cancellable ids t r ≡ false) old
  unfolding is_cancellable
  old-kept = All-of_In _ old λ r m.
      let larger = is_in-larger ids r.id (
        All-ids r.id rows
          (All-map _ (λ q. r.id < q.id) rows (λ q h. h.2 r.id (In-ids r old m)) queued)) in
      ground (arith, larger)

  new-taken : All (λ r. is_cancellable ids t r ≡ true) rows
  unfolding is_cancellable
  new-taken = All-of_In _ rows λ r m.
      let h = All-In (Queued not_before (map (λ r. r.id) old)) rows queued r m in
      let i = is_in-ids rows r m in ground (arith, h.0, h.1, i, due)

  cancel-rows :
      (db : Db)
      → cancel_operations ids t (record db { operations = old ++ rows })
        ≡ (length ids, record db { operations = old })
  unfolding cancel_operations
  cancel-rows db =
      let p = is_cancellable ids t in
      let taken =
        filter-append p old rows
        ∙ ap (λ xs. xs ++ filter p rows) (filter-none p old old-kept)
        ∙ filter-All p rows new-taken in
      let negate = λ (b c : Bool) (e : b ≡ c). ap not e in
      let kept =
        filter-append (λ r. not (p r)) old rows
        ∙ ap (λ xs. xs ++ filter (λ r. not (p r)) rows)
            (filter-All (λ r. not (p r)) old
              (All-map _ _ old (λ r e. negate (p r) false e) old-kept))
        ∙ ap (λ xs. old ++ xs)
            (filter-none (λ r. not (p r)) rows
              (All-map _ _ rows (λ r e. negate (p r) true e) new-taken))
        ∙ append-nil old in
      λ i.
        ((ap length taken ∙ sym (length-map (λ r. r.id) rows)) i, record db { operations = kept i })

queue_per_folder-cancelled :
    (now : ℕ → ℕ) (gs : List Group) (kind : OperationKind) (flags : List Text) (target : ℕ)
    (not_before : Option ℕ) (t : ℕ) (db : Db)
    → t < or_zero not_before
    → let queued = queue_per_folder now gs kind flags target not_before db in
      cancel_operations queued.0 t queued.1
      ≡ (length queued.0, record queued.1 { operations = db.operations })
queue_per_folder-cancelled now gs kind flags target not_before t db due =
    let rows = rows_for now gs kind flags target not_before db.operations in
    let e = queue_per_folder-rows now gs kind flags target not_before db in
    ap (λ (p : List ℕ × Db). cancel_operations p.0 t p.1) e
    ∙ cancel-rows not_before t due db.operations rows
        (rows_for-Queued now gs kind flags target not_before db.operations) db
    ∙ sym (ap (λ (p : List ℕ × Db). (length p.0, record p.1 { operations = db.operations })) e)

delete_targets-operations :
    (gs : List Group) (db : Db) → (delete_targets gs db).operations ≡ db.operations
unfolding delete_targets delete_messages
delete_targets-operations [] db = refl
delete_targets-operations ((folder_id, ts) ∷ gs) db =
    delete_targets-operations gs (delete_messages (λ m. is_in (map (λ t. t.id) ts) m.id) db)

cancel-nothing : (t : ℕ) (db : Db) → cancel_operations [] t db ≡ (0, db)
unfolding cancel_operations is_cancellable is_in
cancel-nothing t db =
    let none_is =
      All-of_In (λ r. is_cancellable [] t r ≡ false) db.operations (λ r m. ground arith) in
    λ i. (
      length (filter-none (is_cancellable [] t) db.operations none_is i),
      record db {
        operations =
            filter-All (λ r. not (is_cancellable [] t r)) db.operations
              (All-map _ _ db.operations (λ r e. ap not e) none_is) i;
      },
    )

remove_and_queue-cancelled :
    (order order' : List Group → List Group) (now : ℕ → ℕ) (ts : List TargetMessage)
    (kind : OperationKind) (target : ℕ) (not_before : Option ℕ) (t : ℕ) (db : Db)
    → t < or_zero not_before
    → let queued = remove_and_queue order order' now ts kind target not_before db in
      cancel_operations queued.0 t queued.1
      ≡ (length queued.0, record queued.1 { operations = db.operations })
unfolding remove_and_queue
remove_and_queue-cancelled order order' now ts kind target not_before t db due =
    let gs = group_by_folder ts [] in
    let cleared = delete_targets (order gs) db in
    let queued = queue_per_folder now (order' gs) kind [] target not_before cleared in
    queue_per_folder-cancelled now (order' gs) kind [] target not_before t cleared due
    ∙ ap (λ rows. (length queued.0, record queued.1 { operations = rows }))
        (delete_targets-operations (order gs) db)

-- A move or a deletion that is taken back before it is due, in whatever orders Go walked its maps:
-- every operation that the action queued is cancelled, and counted, and the queue is the one from
-- before the action, row for row.
pub actions-cancelled :
    (order order' : List Group → List Group) (now : ℕ → ℕ) (ids : List ℕ) (target : ℕ)
    (not_before : Option ℕ) (t : ℕ) (db : Db)
    → t < or_zero not_before
    → let moved = apply_move order order' now ids target not_before db in
      let deleted = apply_delete order order' now ids not_before db in
      (cancel_operations moved.0 t moved.1
        ≡ (length moved.0, record moved.1 { operations = db.operations }))
      × (cancel_operations deleted.0 t deleted.1
          ≡ (length deleted.0, record deleted.1 { operations = db.operations }))
unfolding apply_move apply_delete is_nil
actions-cancelled order order' now [] target not_before t db due =
    (cancel-nothing t db, cancel-nothing t db)
actions-cancelled order order' now (i ∷ ids) target not_before t db due = (
  remove_and_queue-cancelled order order' now
      (filter (λ t. not (t.folder_id == target)) (load_targets (i ∷ ids) db)) move target not_before
      t db due,
  remove_and_queue-cancelled order order' now (load_targets (i ∷ ids) db) delete 0 not_before t db
      due,
)
