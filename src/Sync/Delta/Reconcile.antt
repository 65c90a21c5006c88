-- ===== src/Sync/Delta/Reconcile.antt =====
-- The two writes of reconcileWindow in internal/sync/delta.go, against the server's answer.
use nexus_mail.Base.{
  ℕ, Bool, true, not, ◌&&◌, List, [], ◌∷◌, ◌≡◌, refl, ap, ◌∙◌, map, filter, filter-same, All-of_In,
  In, inl, inr, leb, ◌==◌, arith, if◌then◌else◌, Bool-cases, ==_iff,
}
use nexus_mail.Base.Sorting.{sort, In-sort}
use nexus_mail.Base.Text.{Text}
use nexus_mail.Model.{Message, FlagUpdate}
use nexus_mail.Store.{Db, is_in}
use nexus_mail.Store.Delta.{
  list_message_uids, set_flags, set_all_flags, set_message_flags, delete_messages_by_uid,
}
use nexus_mail.Store.Deletions.{in_folder-delete, delete-others}
use nexus_mail.Store.Messages.{in_folder}
use nexus_mail.Sync.Delta.{missing_uids}

-- The flags that a list of updates leaves on a UID: those of its last update, or what it had.
unfoldable pub flags_after : List FlagUpdate → ℕ → List Text → List Text
flags_after [] uid flags = flags
flags_after (x ∷ xs) uid flags = flags_after xs uid (if uid == x.uid then x.flags else flags)

-- A message with the flags that the updates leave it.
abbrev pub with_flags : List FlagUpdate → Message → Message
with_flags xs m = record m { flags = flags_after xs m.uid m.flags }

-- A message of the folder with the flags that the server reports.
abbrev pub updated : ℕ → List FlagUpdate → Message → Message
updated folder_id xs m = if m.folder_id == folder_id then with_flags xs m else m

updated-first :
    (folder_id : ℕ) (x : FlagUpdate) (xs : List FlagUpdate) (m : Message)
    → updated folder_id xs
        (if m.folder_id == folder_id && m.uid == x.uid then record m { flags = x.flags } else m)
      ≡ updated folder_id (x ∷ xs) m
unfolding flags_after
updated-first folder_id x xs m = elim (Bool-cases (m.folder_id == folder_id)) [
  | inr other ↦ rw other (rw other refl)
  | inl here ↦ elim (Bool-cases (m.uid == x.uid)) [
    | inl same ↦ rw (here, same) (rw here refl)
    | inr other ↦ rw (here, other) (rw here refl)
  ]
]

map-updated :
    (folder_id : ℕ) (x : FlagUpdate) (xs : List FlagUpdate) (ms : List Message)
    → map (updated folder_id xs) (set_flags folder_id x ms) ≡ map (updated folder_id (x ∷ xs)) ms
unfolding set_flags
map-updated folder_id x xs [] = refl
map-updated folder_id x xs (m ∷ ms) =
    λ i. updated-first folder_id x xs m i ∷ map-updated folder_id x xs ms i

set_all_flags-updated :
    (folder_id : ℕ) (xs : List FlagUpdate) (ms : List Message)
    → set_all_flags folder_id xs ms ≡ map (updated folder_id xs) ms
unfolding set_all_flags set_flags flags_after
set_all_flags-updated folder_id [] [] = refl
set_all_flags-updated folder_id [] (m ∷ ms) = ground (arith, set_all_flags-updated folder_id [] ms)
set_all_flags-updated folder_id (x ∷ xs) ms =
    set_all_flags-updated folder_id xs (set_flags folder_id x ms) ∙ map-updated folder_id x xs ms

-- The server's answer names the UID.
abbrev pub is_reported : List FlagUpdate → Message → Bool
is_reported xs m = is_in (map (λ x. x.uid) xs) m.uid

in_folder-updated :
    (folder_id : ℕ) (xs : List FlagUpdate) (ms : List Message)
    → filter (λ m. m.folder_id == folder_id) (map (updated folder_id xs) ms)
      ≡ map (with_flags xs) (filter (λ m. m.folder_id == folder_id) ms)
in_folder-updated folder_id xs [] = refl
in_folder-updated folder_id xs (m ∷ ms) = elim (Bool-cases (m.folder_id == folder_id)) [
  | inl here ↦ rw here (rw here (ap (◌∷◌ (with_flags xs m)) (in_folder-updated folder_id xs ms)))
  | inr other ↦ rw other (rw other (in_folder-updated folder_id xs ms))
]

filter-updated :
    (xs : List FlagUpdate) (p : ℕ → Bool) (ms : List Message)
    → filter (λ m. p m.uid) (map (with_flags xs) ms)
      ≡ map (with_flags xs) (filter (λ m. p m.uid) ms)
filter-updated xs p [] = refl
filter-updated xs p (m ∷ ms) = elim (Bool-cases (p m.uid)) [
  | inl here ↦ rw here (ap (◌∷◌ (with_flags xs m)) (filter-updated xs p ms))
  | inr other ↦ rw other (filter-updated xs p ms)
]

others-updated :
    (folder_id : ℕ) (xs : List FlagUpdate) (ms : List Message)
    → filter (λ m. not (m.folder_id == folder_id)) (map (updated folder_id xs) ms)
      ≡ filter (λ m. not (m.folder_id == folder_id)) ms
others-updated folder_id xs [] = refl
others-updated folder_id xs (m ∷ ms) = elim (Bool-cases (m.folder_id == folder_id)) [
  | inl here ↦ rw here (rw here (others-updated folder_id xs ms))
  | inr other ↦ rw other (rw other (ap (◌∷◌ m) (others-updated folder_id xs ms)))
]

is_in-filter : (q : ℕ → Bool) (ids : List ℕ) (x : ℕ) → is_in (filter q ids) x ≡ is_in ids x && q x
unfolding is_in
is_in-filter q [] x = refl
is_in-filter q (i ∷ ids) x = elim (Bool-cases (i == x)) [
  | inl same ↦ ground (arith, is_in-filter q ids x, ap q ((==_iff i x).0 same))
  | inr other ↦ ground (arith, is_in-filter q ids x)
]

is_in-of_In : (ids : List ℕ) (x : ℕ) → In x ids → is_in ids x ≡ true
unfolding is_in
is_in-of_In [] x m = elim m [ ]
is_in-of_In (i ∷ ids) x (inl e) = ground arith
is_in-of_In (i ∷ ids) x (inr m) = ground (arith, is_in-of_In ids x m)

In-uids : (m : Message) (ms : List Message) → In m ms → In m.uid (map (λ m. m.uid) ms)
In-uids m [] i = elim i [ ]
In-uids m (x ∷ ms) (inl e) = inl (ap (λ q. q.uid) e)
In-uids m (x ∷ ms) (inr i) = inr (In-uids m ms i)

-- Of the UIDs that we hold, those not missing are the reported ones.
not_missing :
    (folder_id : ℕ) (xs : List FlagUpdate) (db : Db) (m : Message)
    → In m (in_folder folder_id db)
    → not (is_in (missing_uids (list_message_uids folder_id db) xs) m.uid) ≡ is_reported xs m
unfolding missing_uids list_message_uids
not_missing folder_id xs db m i =
    let uids = map (λ m. m.uid) (in_folder folder_id db) in
    let held =
      is_in-of_In (sort leb uids) m.uid
        (In-sort leb uids m.uid (In-uids m (in_folder folder_id db) i)) in
    let split = is_in-filter (λ uid. not (is_in (map (λ x. x.uid) xs) uid)) (sort leb uids) m.uid in
    ground (arith, held, split)

in_folder-set :
    (folder_id : ℕ) (xs : List FlagUpdate) (db : Db)
    → in_folder folder_id (set_message_flags folder_id xs db)
      ≡ map (with_flags xs) (in_folder folder_id db)
unfolding set_message_flags in_folder
in_folder-set folder_id xs db =
    ap (filter (λ m. m.folder_id == folder_id)) (set_all_flags-updated folder_id xs db.messages)
    ∙ in_folder-updated folder_id xs db.messages

-- After a reconciliation with a complete answer, the folder holds the messages that it held and
-- the answer names, in their order, each with the flags that the answer gives it, and no other; and
-- the other folders are as they were.
pub reconciled-in_folder :
    (folder_id : ℕ) (xs : List FlagUpdate) (db : Db)
    → let db' =
        delete_messages_by_uid folder_id
          (missing_uids (list_message_uids folder_id db) xs)
          (set_message_flags folder_id xs db) in
      (in_folder folder_id db'
        ≡ map (with_flags xs) (filter (is_reported xs) (in_folder folder_id db)))
      × (filter (λ m. not (m.folder_id == folder_id)) db'.messages
          ≡ filter (λ m. not (m.folder_id == folder_id)) db.messages)
unfolding set_message_flags
reconciled-in_folder folder_id xs db =
    let missing = missing_uids (list_message_uids folder_id db) xs in
    let held = in_folder folder_id db in
    (
      in_folder-delete folder_id missing (set_message_flags folder_id xs db)
          ∙ ap (filter (λ m. not (is_in missing m.uid))) (in_folder-set folder_id xs db)
          ∙ filter-updated xs (λ uid. not (is_in missing uid)) held
          ∙ ap (map (with_flags xs)) (
              filter-same (λ m. not (is_in missing m.uid)) (is_reported xs) held
                (All-of_In _ held (λ m i. not_missing folder_id xs db m i))),
      delete-others folder_id missing (set_message_flags folder_id xs db)
          ∙ ap (filter (λ m. not (m.folder_id == folder_id)))
              (set_all_flags-updated folder_id xs db.messages)
          ∙ others-updated folder_id xs db.messages,
    )
