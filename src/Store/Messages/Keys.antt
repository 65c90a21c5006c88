-- ===== src/Store/Messages/Keys.antt =====
-- The keys of the table messages: what INTEGER PRIMARY KEY and UNIQUE(account_id, folder_id, uid)
-- promise, kept by the statements that write it.
use nexus_mail.Base.{
  ℕ, ◌<◌, Bool, false, not, ◌&&◌, ◌||◌, List, [], ◌∷◌, ◌++◌, ◌≡◌, refl, ◌∙◌, inl, inr, map, any,
  filter, In, All, All-filter, ◌==◌, arith, if◌then◌else◌, Bool-cases,
}
use nexus_mail.Model.{Message}
use nexus_mail.Store.{Db, next_id, delete_messages}
use nexus_mail.Store.Messages.{
  has_key, message_ids, new_row, refresh_message, upsert_message, upsert_rows,
  upsert_attachments_tx, upsert_messages,
}
use nexus_mail.Store.Operations.Enqueue.{next_id-IsFresh}

-- Two rows with one id, or with one key.
abbrev pub clash : Message → Message → Bool
clash a b =
    a.id == b.id || (a.account_id == b.account_id && (a.folder_id == b.folder_id && a.uid == b.uid))

-- No two rows clash.
abbrev pub Keyed : List Message → Type 0
Keyed [] = Unit
Keyed (m ∷ ms) = All (λ x. clash m x ≡ false) ms × Keyed ms

-- A change of other columns.
module _ (f : Message → Message) (same : (a b : Message) → clash (f a) (f b) ≡ clash a b) where
  All-clash-map :
      (m : Message) (ms : List Message)
      → All (λ x. clash m x ≡ false) ms
      → All (λ x. clash (f m) x ≡ false) (map f ms)
  All-clash-map m [] h = tt
  All-clash-map m (x ∷ ms) h = (same m x ∙ h.0, All-clash-map m ms h.1)

  pub Keyed-map : (ms : List Message) → Keyed ms → Keyed (map f ms)
  Keyed-map [] k = tt
  Keyed-map (m ∷ ms) k = (All-clash-map m ms k.0, Keyed-map ms k.1)

pub Keyed-filter : (p : Message → Bool) (ms : List Message) → Keyed ms → Keyed (filter p ms)
Keyed-filter p [] k = tt
Keyed-filter p (m ∷ ms) k = elim (Bool-cases (p m)) [
  | inl here ↦ rw here (All-filter (λ x. clash m x ≡ false) p ms k.0, Keyed-filter p ms k.1)
  | inr other ↦ rw other (Keyed-filter p ms k.1)
]

-- A row that clashes with none may be added behind the others.
All-append_one :
    (P : Message → Type 0) (ms : List Message) (n : Message) → All P ms → P n → All P (ms ++ n ∷ [])
All-append_one P [] n h p = (p, tt)
All-append_one P (m ∷ ms) n h p = (h.0, All-append_one P ms n h.1 p)

Keyed-append :
    (ms : List Message) (n : Message)
    → All (λ x. clash x n ≡ false) ms
    → Keyed ms
    → Keyed (ms ++ n ∷ [])
Keyed-append [] n h k = (tt, tt)
Keyed-append (m ∷ ms) n h k =
    (All-append_one (λ x. clash m x ≡ false) ms n k.0 h.0, Keyed-append ms n h.1 k.1)

-- The new row's id is beyond the others, and its key is not there.
new-clash :
    (id account_id folder_id uid : ℕ) (n : Message) (ms : List Message)
    → n.id ≡ id
    → n.account_id ≡ account_id
    → n.folder_id ≡ folder_id
    → n.uid ≡ uid
    → ((i : ℕ) → In i (map (λ m. m.id) ms) → i < id)
    → any (has_key account_id folder_id uid) ms ≡ false
    → All (λ x. clash x n ≡ false) ms
unfolding has_key
new-clash id account_id folder_id uid n [] ei ea ef eu fresh absent = tt
new-clash id account_id folder_id uid n (m ∷ ms) ei ea ef eu fresh absent =
    let below = fresh m.id (inl refl) in
    (
      ground (arith, below, ei, ea, ef, eu, absent),
      new-clash id account_id folder_id uid n ms ei ea ef eu (λ i h. fresh i (inr h))
          (ground (arith, absent)),
    )

refresh-clash :
    (p : Message → Bool) (n : Message) (a b : Message)
    → clash (if p a then refresh_message n a else a) (if p b then refresh_message n b else b)
      ≡ clash a b
unfolding refresh_message
refresh-clash p n a b = elim (Bool-cases (p a)) [
  | inl x ↦ elim (Bool-cases (p b)) [ inl y ↦ rw (x, y) refl | inr y ↦ rw (x, y) refl ]
  | inr x ↦ elim (Bool-cases (p b)) [ inl y ↦ rw (x, y) refl | inr y ↦ rw (x, y) refl ]
]

upsert_message-Keyed :
    (folder_id : ℕ) (m : Message) (db : Db)
    → Keyed db.messages
    → Keyed (upsert_message folder_id m db).messages
unfolding upsert_message new_row
upsert_message-Keyed folder_id m db k =
    elim (Bool-cases (any (has_key m.account_id folder_id m.uid) db.messages)) [
      | inl there ↦
          rw there
            (Keyed-map _ (refresh-clash (has_key m.account_id folder_id m.uid) m) db.messages k)
      | inr absent ↦
          let n = new_row (next_id (message_ids db)) folder_id m in
          rw absent (
            Keyed-append db.messages n
              (new-clash (next_id (message_ids db)) m.account_id folder_id m.uid n db.messages refl
                refl refl refl (next_id-IsFresh (message_ids db)) absent)
              k)
    ]

upsert_rows-Keyed :
    (folder_id : ℕ) (ms : List Message) (db : Db)
    → Keyed db.messages
    → Keyed (upsert_rows folder_id ms db).messages
unfolding upsert_rows
upsert_rows-Keyed folder_id [] db k = k
upsert_rows-Keyed folder_id (m ∷ ms) db k =
    upsert_rows-Keyed folder_id ms (upsert_message folder_id m db)
      (upsert_message-Keyed folder_id m db k)

pub upsert_messages-Keyed :
    (folder_id : ℕ) (ms : List Message) (db : Db)
    → Keyed db.messages
    → Keyed (upsert_messages folder_id ms db).messages
unfolding upsert_messages upsert_attachments_tx
upsert_messages-Keyed folder_id ms db k = upsert_rows-Keyed folder_id ms db k

pub delete_messages-Keyed :
    (p : Message → Bool) (db : Db) → Keyed db.messages → Keyed (delete_messages p db).messages
unfolding delete_messages
delete_messages-Keyed p db k = Keyed-filter (λ m. not (p m)) db.messages k
