-- ===== src/Store/Undo/Found.antt =====
-- RestoreMessages of internal/store/undo.go: the ids that it answers are those of the restored rows.
use nexus_mail.Base.{
  ℕ, Bool, true, false, ◌&&◌, List, [], ◌∷◌, ◌++◌, ◌≡◌, refl, ap, sym, subst, ◌∙◌, inl, inr, map,
  filter, append_assoc, In, All, All-of_In, All-In, any, ◌==◌, arith, Bool-cases,
}
use nexus_mail.Model.{Message}
use nexus_mail.Store.{Db, is_in}
use nexus_mail.Store.Messages.{
  has_key, upsert_message, upsert_rows, upsert_attachments_tx, upsert_messages,
}
use nexus_mail.Store.Undo.{
  MessageGroup, group_messages, restore_groups, restore_messages, message_ids_in_folder,
}
use nexus_mail.Store.Undo.Restore.{
  bare, KeysApart, flatten, OfFolder, any-has_key-bare, absent-has_key, map-bare_append,
  upsert_message-bare, upsert_rows-bare, group_messages-OfFolder, In-left, In-right, In-of_append,
  In-group_messages, In-flatten_order, In-bare,
}

In-append_left : (n : ℕ) (xs ys : List ℕ) → In n xs → In n (xs ++ ys)
In-append_left n [] ys i = elim i [ ]
In-append_left n (x ∷ xs) ys (inl e) = inl e
In-append_left n (x ∷ xs) ys (inr i) = inr (In-append_left n xs ys i)

In-append_right : (n : ℕ) (xs ys : List ℕ) → In n ys → In n (xs ++ ys)
In-append_right n [] ys i = i
In-append_right n (x ∷ xs) ys i = inr (In-append_right n xs ys i)

upsert_message-keeps :
    (folder_id : ℕ) (m : Message) (db : Db) (y : Message)
    → m.folder_id ≡ folder_id
    → any (has_key m.account_id m.folder_id m.uid) db.messages ≡ false
    → In y db.messages
    → In y (upsert_message folder_id m db).messages
unfolding upsert_message
upsert_message-keeps folder_id m db y e absent i =
    let absent' = subst (λ f. any (has_key m.account_id f m.uid) db.messages ≡ false) e absent in
    rw absent' (In-left y db.messages _ i)

upsert_rows-keeps :
    (folder_id : ℕ) (ms rest : List Message) (db : Db) (y : Message)
    → All (λ m. m.folder_id ≡ folder_id) ms
    → KeysApart (map bare db.messages ++ (map bare ms ++ rest))
    → In y db.messages
    → In y (upsert_rows folder_id ms db).messages
unfolding upsert_rows
upsert_rows-keeps folder_id [] rest db y h k i = i
upsert_rows-keeps folder_id (m ∷ ms) rest db y h k i =
    let old = map bare db.messages in
    let behind = map bare ms ++ rest in
    let absent = sym (any-has_key-bare m db.messages) ∙ absent-has_key old (bare m) behind k in
    let added = upsert_message-bare folder_id m db h.0 absent in
    upsert_rows-keeps folder_id ms rest (upsert_message folder_id m db) y h.1
      (subst (λ xs. KeysApart (xs ++ behind)) (sym added)
        (subst KeysApart (sym (append_assoc old (bare m ∷ []) behind)) k))
      (upsert_message-keeps folder_id m db y h.0 absent i)

-- The keys of what is left to restore, behind the group that was.
group-apart :
    (folder_id : ℕ) (ms : List Message) (gs : List MessageGroup) (db : Db)
    → All (λ m. m.folder_id ≡ folder_id) ms
    → KeysApart (map bare db.messages ++ map bare (ms ++ flatten gs))
    → KeysApart (map bare (upsert_rows folder_id ms db).messages ++ map bare (flatten gs))
group-apart folder_id ms gs db h k =
    let old = map bare db.messages in
    let rest = map bare (flatten gs) in
    let k' = subst (λ xs. KeysApart (old ++ xs)) (map-bare_append ms (flatten gs)) k in
    subst (λ xs. KeysApart (xs ++ rest)) (sym (upsert_rows-bare folder_id ms rest db h k'))
      (subst KeysApart (sym (append_assoc old (map bare ms) rest)) k')

restore_groups-keeps :
    (gs : List MessageGroup) (db : Db) (y : Message)
    → All OfFolder gs
    → KeysApart (map bare db.messages ++ map bare (flatten gs))
    → In y db.messages
    → In y (restore_groups gs db).1.messages
unfolding restore_groups upsert_messages upsert_attachments_tx
restore_groups-keeps [] db y h k i = i
restore_groups-keeps ((folder_id, ms) ∷ gs) db y h k i =
    let k' =
      subst (λ xs. KeysApart (map bare db.messages ++ xs)) (map-bare_append ms (flatten gs)) k in
    restore_groups-keeps gs (upsert_messages folder_id ms db) y h.1
      (group-apart folder_id ms gs db h.0 k)
      (upsert_rows-keeps folder_id ms (map bare (flatten gs)) db y h.0 k' i)

-- A message as it was is in the store, and its row's id is one of these.
abbrev pub IsFound : Message → List Message → List ℕ → Type 0
IsFound x rows ids = (y : Message) × In y rows × (bare y ≡ bare x) × In y.id ids

bare-In :
    (x : Message) (rows : List Message)
    → In (bare x) (map bare rows)
    → (y : Message) × In y rows × (bare y ≡ bare x)
bare-In x [] i = elim i [ ]
bare-In x (r ∷ rows) (inl e) = (r, inl refl, sym e)
bare-In x (r ∷ rows) (inr i) = let (y, m, e) = bare-In x rows i in (y, inr m, e)

is_in-uids : (x : Message) (ms : List Message) → In x ms → is_in (map (λ m. m.uid) ms) x.uid ≡ true
unfolding is_in
is_in-uids x [] i = elim i [ ]
is_in-uids x (m ∷ ms) (inl e) = ground (arith, ap (λ (z : Message). z.uid) e)
is_in-uids x (m ∷ ms) (inr i) = ground (arith, is_in-uids x ms i)

found-id :
    (y : Message) (p : Message → Bool) (rows : List Message)
    → In y rows
    → p y ≡ true
    → In y.id (map (λ m. m.id) (filter p rows))
found-id y p [] i h = elim i [ ]
found-id y p (r ∷ rows) (inl e) h =
    let here = subst (λ z. p z ≡ true) e h in rw here (inl (ap (λ (z : Message). z.id) e))
found-id y p (r ∷ rows) (inr i) h = elim (Bool-cases (p r)) [
  | inl in_it ↦ rw in_it (inr (found-id y p rows i h))
  | inr out ↦ rw out (found-id y p rows i h)
]

-- A group that was restored is found by its folder and its UIDs.
group-IsFound :
    (folder_id : ℕ) (ms rest : List Message) (db : Db) (x : Message)
    → All (λ m. m.folder_id ≡ folder_id) ms
    → KeysApart (map bare db.messages ++ (map bare ms ++ map bare rest))
    → In x ms
    → IsFound x
        (upsert_rows folder_id ms db).messages
        (message_ids_in_folder folder_id ms (upsert_rows folder_id ms db))
unfolding message_ids_in_folder
group-IsFound folder_id ms rest db x h k i =
    let rows = (upsert_rows folder_id ms db).messages in
    let there =
      subst (In (bare x)) (sym (upsert_rows-bare folder_id ms (map bare rest) db h k))
        (In-right (bare x) (map bare db.messages) (map bare ms) (In-bare x ms i)) in
    let (y, m, e) = bare-In x rows there in
    let folder : y.folder_id ≡ folder_id =
      ap (λ (z : Message). z.folder_id) e ∙ All-In (λ m. m.folder_id ≡ folder_id) ms h x i in
    let uid : y.uid ≡ x.uid = ap (λ (z : Message). z.uid) e in
    let named = subst (λ n. is_in (map (λ m. m.uid) ms) n ≡ true) (sym uid) (is_in-uids x ms i) in
    (
      y,
      m,
      e,
      found-id y (λ m. m.folder_id == folder_id && is_in (map (λ x. x.uid) ms) m.uid) rows m
          (ground (arith, folder, named)),
    )

restore_groups-IsFound :
    (gs : List MessageGroup) (db : Db) (x : Message)
    → All OfFolder gs
    → KeysApart (map bare db.messages ++ map bare (flatten gs))
    → In x (flatten gs)
    → IsFound x (restore_groups gs db).1.messages (restore_groups gs db).0
unfolding restore_groups upsert_messages upsert_attachments_tx
restore_groups-IsFound [] db x h k i = elim i [ ]
restore_groups-IsFound ((folder_id, ms) ∷ gs) db x h k i =
    let db' = upsert_messages folder_id ms db in
    let k' =
      subst (λ xs. KeysApart (map bare db.messages ++ xs)) (map-bare_append ms (flatten gs)) k in
    let next = group-apart folder_id ms gs db h.0 k in
    let ids = message_ids_in_folder folder_id ms db' in
    elim (In-of_append x ms (flatten gs) i) [
      | inl here ↦
          let (y, m, e, j) = group-IsFound folder_id ms (flatten gs) db x h.0 k' here in
          (y, restore_groups-keeps gs db' y h.1 next m, e, In-append_left y.id ids _ j)
      | inr there ↦
          let (y, m, e, j) = restore_groups-IsFound gs db' x h.1 next there in
          (y, m, e, In-append_right y.id ids _ j)
    ]

-- Under the conditions of `restore_messages-bare`, every message of the snapshot is found again under one
-- of the ids that the restoration answers.
pub restore_messages-IsFound :
    (order : List MessageGroup → List MessageGroup) (ms : List Message) (db : Db)
    → ((g : MessageGroup) → In g (order (group_messages ms [])) → In g (group_messages ms []))
    → ((g : MessageGroup) → In g (group_messages ms []) → In g (order (group_messages ms [])))
    → KeysApart (map bare db.messages ++ map bare (flatten (order (group_messages ms []))))
    → (x : Message) → In x ms
    → IsFound x (restore_messages order ms db).1.messages (restore_messages order ms db).0
unfolding restore_messages
restore_messages-IsFound order ms db no_other all apart x i =
    let gs = group_messages ms [] in
    restore_groups-IsFound (order gs) db x
      (All-of_In OfFolder (order gs)
        (λ g j. All-In OfFolder gs (group_messages-OfFolder ms [] tt) g (no_other g j)))
      apart (In-flatten_order x gs (order gs) all (In-group_messages x ms [] (inl i)))
