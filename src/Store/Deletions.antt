-- ===== src/Store/Deletions.antt =====
-- Deletions of messages with the cascades of the schema (internal/store/migrations), and the
-- batches of DeleteMessagesByUID in internal/store/messages_delta.go.
use nexus_mail.Base.{
  ℕ, zero, suc, ◌≤◌, Bool, true, false, not, ◌||◌, List, [], ◌∷◌, ◌++◌, ◌≡◌, refl, ap, sym, ◌∙◌,
  map, length, ◌==◌, ◌&&◌, take, drop, take-append-drop, length-drop, filter, arith,
}
use nexus_mail.Model.{Message}
use nexus_mail.Store.{Db, is_in, delete_messages}
use nexus_mail.Store.Messages.{in_folder}
use nexus_mail.Store.Delta.{is_named, delete_batch_size, delete_batches, delete_messages_by_uid}

filter-filter {ℓ} :
    {A : Type ℓ} (p q : A → Bool) (xs : List A)
    → filter (λ x. not (q x)) (filter (λ x. not (p x)) xs) ≡ filter (λ x. not (p x || q x)) xs
filter-filter p q [] = refl
filter-filter p q (x ∷ xs) = ground (arith, filter-filter p q xs)

filter-everything {ℓ} : {A : Type ℓ} (xs : List A) → filter (λ x. true) xs ≡ xs
filter-everything [] = refl
filter-everything (x ∷ xs) = ap (◌∷◌ x) (filter-everything xs)

-- The ids of the messages that a deletion takes.
abbrev gone : (Message → Bool) → List Message → List ℕ
gone p ms = map (λ m. m.id) (filter p ms)

is_in-gone :
    (p q : Message → Bool) (ms : List Message) (x : ℕ)
    → is_in (gone p ms) x || is_in (gone q (filter (λ m. not (p m)) ms)) x
      ≡ is_in (gone (λ m. p m || q m) ms) x
unfolding is_in
is_in-gone p q [] x = refl
is_in-gone p q (m ∷ ms) x = ground (arith, is_in-gone p q ms x)

-- Two deletions are one, of what either names.
pub delete_messages-twice :
    (p q : Message → Bool) (db : Db)
    → delete_messages q (delete_messages p db) ≡ delete_messages (λ m. p m || q m) db
unfolding delete_messages
delete_messages-twice p q db =
    let first = gone p db.messages in
    let second = gone q (filter (λ m. not (p m)) db.messages) in
    λ i. record db {
      messages = filter-filter p q db.messages i;
      bodies =
          (filter-filter (λ b. is_in first b.message_id) (λ b. is_in second b.message_id) db.bodies
              ∙ ap (λ (f : ℕ → Bool). filter (λ b. not (f b.message_id)) db.bodies)
                  (λ j x. is_in-gone p q db.messages x j))
            i;
      attachments =
          (filter-filter (λ b. is_in first b.message_id) (λ b. is_in second b.message_id)
                db.attachments
              ∙ ap (λ (f : ℕ → Bool). filter (λ b. not (f b.message_id)) db.attachments)
                  (λ j x. is_in-gone p q db.messages x j))
            i;
    }

gone-none : (ms : List Message) → gone (λ m. false) ms ≡ []
gone-none [] = refl
gone-none (m ∷ ms) = gone-none ms

pub delete_messages-none : (db : Db) → delete_messages (λ m. false) db ≡ db
unfolding delete_messages is_in
delete_messages-none db = λ i. record db {
  messages = filter-everything db.messages i;
  bodies =
      (ap (λ ids. filter (λ b. not (is_in ids b.message_id)) db.bodies) (gone-none db.messages)
          ∙ filter-everything db.bodies)
        i;
  attachments =
      (ap (λ ids. filter (λ b. not (is_in ids b.message_id)) db.attachments) (gone-none db.messages)
          ∙ filter-everything db.attachments)
        i;
}

is_in-append : (xs ys : List ℕ) (x : ℕ) → is_in (xs ++ ys) x ≡ is_in xs x || is_in ys x
unfolding is_in
is_in-append [] ys x = refl
is_in-append (y ∷ xs) ys x = ground (arith, is_in-append xs ys x)

is_named-append :
    (folder_id : ℕ) (xs ys : List ℕ) (m : Message)
    → is_named folder_id xs m || is_named folder_id ys m ≡ is_named folder_id (xs ++ ys) m
unfolding is_named
is_named-append folder_id xs ys m = ground (arith, is_in-append xs ys m.uid)

is_named-none : (folder_id : ℕ) (m : Message) → is_named folder_id [] m ≡ false
unfolding is_named is_in
is_named-none folder_id m = ground arith

delete_batches-nil : (fuel folder_id : ℕ) (db : Db) → delete_batches fuel folder_id [] db ≡ db
unfolding delete_batches
delete_batches-nil zero folder_id db = refl
delete_batches-nil (suc fuel) folder_id db = refl

batches-one :
    (fuel folder_id : ℕ) (uids : List ℕ) (db : Db)
    → length uids ≤ fuel
    → delete_batches fuel folder_id uids db ≡ delete_messages (is_named folder_id uids) db
unfolding delete_batches
batches-one fuel folder_id [] db h =
    delete_batches-nil fuel folder_id db
    ∙ sym (delete_messages-none db)
    ∙ ap (λ p. delete_messages p db) (λ i m. sym (is_named-none folder_id m) i)
batches-one zero folder_id (x ∷ uids) db h = ground arith
batches-one (suc fuel) folder_id (x ∷ uids) db h =
    let left = drop delete_batch_size (x ∷ uids) in
    let batch = take delete_batch_size (x ∷ uids) in
    batches-one fuel folder_id left (delete_messages (is_named folder_id batch) db)
      (omega (arith, length-drop delete_batch_size (x ∷ uids)))
    ∙ delete_messages-twice (is_named folder_id batch) (is_named folder_id left) db
    ∙ ap (λ p. delete_messages p db) (λ i m. is_named-append folder_id batch left m i)
    ∙ ap (λ us. delete_messages (is_named folder_id us) db)
        (take-append-drop delete_batch_size (x ∷ uids))

-- However many batches it takes, deleting by UID is one deletion of the folder's messages whose
-- UIDs are named: no other message goes, and the loop runs to its end.
pub delete_messages_by_uid-one :
    (folder_id : ℕ) (uids : List ℕ) (db : Db)
    → delete_messages_by_uid folder_id uids db ≡ delete_messages (is_named folder_id uids) db
unfolding delete_messages_by_uid
delete_messages_by_uid-one folder_id uids db =
    batches-one (length uids) folder_id uids db (omega arith)

in_folder-rows :
    (folder_id : ℕ) (doomed : List ℕ) (ms : List Message)
    → filter
        (λ m. m.folder_id == folder_id)
        (filter (λ m. not (m.folder_id == folder_id && is_in doomed m.uid)) ms)
      ≡ filter (λ m. not (is_in doomed m.uid)) (filter (λ m. m.folder_id == folder_id) ms)
in_folder-rows folder_id doomed [] = refl
in_folder-rows folder_id doomed (m ∷ ms) = ground (arith, in_folder-rows folder_id doomed ms)

-- A deletion by UID in a folder, seen from the folder and from the others.
pub in_folder-delete :
    (folder_id : ℕ) (doomed : List ℕ) (db : Db)
    → in_folder folder_id (delete_messages_by_uid folder_id doomed db)
      ≡ filter (λ m. not (is_in doomed m.uid)) (in_folder folder_id db)
unfolding in_folder delete_messages is_named
in_folder-delete folder_id doomed db =
    ap (in_folder folder_id) (delete_messages_by_uid-one folder_id doomed db)
    ∙ in_folder-rows folder_id doomed db.messages

others-delete :
    (folder_id : ℕ) (doomed : List ℕ) (ms : List Message)
    → filter
        (λ m. not (m.folder_id == folder_id))
        (filter (λ m. not (is_named folder_id doomed m)) ms)
      ≡ filter (λ m. not (m.folder_id == folder_id)) ms
unfolding is_named
others-delete folder_id doomed [] = refl
others-delete folder_id doomed (m ∷ ms) = ground (arith, others-delete folder_id doomed ms)

pub delete-others :
    (folder_id : ℕ) (doomed : List ℕ) (db : Db)
    → filter
        (λ m. not (m.folder_id == folder_id))
        (delete_messages_by_uid folder_id doomed db).messages
      ≡ filter (λ m. not (m.folder_id == folder_id)) db.messages
unfolding delete_messages
delete-others folder_id doomed db =
    ap (λ d. filter (λ m. not (m.folder_id == folder_id)) d.messages)
      (delete_messages_by_uid-one folder_id doomed db)
    ∙ others-delete folder_id doomed db.messages
