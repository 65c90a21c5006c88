-- ===== src/Store/Undo/Restore.antt =====
-- RestoreMessages of internal/store/undo.go: what a snapshot brings back.
use nexus_mail.Base.{
  ℕ, Bool, false, ◌&&◌, ◌||◌, List, [], ◌∷◌, ◌++◌, ◌≡◌, ◌⊎◌, refl, ap, sym, subst, ◌∙◌, inl, inr,
  map, append-nil, append_assoc, In, All, All-append, All-of_In, All-In, any, ◌==◌, ==_iff, arith,
  Bool-cases,
}
use nexus_mail.Model.{Message}
use nexus_mail.Store.{Db, next_id}
use nexus_mail.Store.Messages.{
  has_key, message_ids, new_row, upsert_message, upsert_rows, upsert_attachments_tx,
  upsert_messages,
}
use nexus_mail.Store.Undo.{
  MessageGroup, add_message, group_messages, restore_groups, restore_messages,
}

-- A message without its row id, which a restored one does not keep, and without the attachment
-- list, which stands in a table of its own.
abbrev pub bare : Message → Message
bare m = record m { id = 0; attachments = [] }

-- Two messages have one key.
abbrev pub same_key : Message → Message → Bool
same_key a b = a.account_id == b.account_id && (a.folder_id == b.folder_id && a.uid == b.uid)

abbrev pub KeysApart : List Message → Type 0
KeysApart [] = Unit
KeysApart (m ∷ ms) = All (λ x. same_key m x ≡ false) ms × KeysApart ms

pub any-has_key-bare :
    (m : Message) (xs : List Message)
    → any (has_key m.account_id m.folder_id m.uid) (map bare xs)
      ≡ any (has_key m.account_id m.folder_id m.uid) xs
unfolding has_key
any-has_key-bare m [] = refl
any-has_key-bare m (x ∷ xs) = ap (λ b. same_key x m || b) (any-has_key-bare m xs)

In-middle : (xs : List Message) (m : Message) (ys : List Message) → In m (xs ++ m ∷ ys)
In-middle [] m ys = inl refl
In-middle (x ∷ xs) m ys = inr (In-middle xs m ys)

-- A message behind others that are apart from it finds no row with its key.
pub absent-has_key :
    (xs : List Message) (m : Message) (ys : List Message)
    → KeysApart (xs ++ m ∷ ys)
    → any (has_key m.account_id m.folder_id m.uid) xs ≡ false
unfolding has_key
absent-has_key [] m ys k = refl
absent-has_key (x ∷ xs) m ys k =
    let apart = All-In (λ y. same_key x y ≡ false) (xs ++ m ∷ ys) k.0 m (In-middle xs m ys) in
    ground (arith, apart, absent-has_key xs m ys k.1)

pub map-bare_append : (xs ys : List Message) → map bare (xs ++ ys) ≡ map bare xs ++ map bare ys
map-bare_append [] ys = refl
map-bare_append (x ∷ xs) ys = ap (◌∷◌ (bare x)) (map-bare_append xs ys)

pub upsert_message-bare :
    (folder_id : ℕ) (m : Message) (db : Db)
    → m.folder_id ≡ folder_id
    → any (has_key m.account_id m.folder_id m.uid) db.messages ≡ false
    → map bare (upsert_message folder_id m db).messages ≡ map bare db.messages ++ bare m ∷ []
unfolding upsert_message new_row
upsert_message-bare folder_id m db e absent =
    let absent' = subst (λ f. any (has_key m.account_id f m.uid) db.messages ≡ false) e absent in
    rw absent' (
      map-bare_append db.messages (new_row (next_id (message_ids db)) folder_id m ∷ [])
      ∙ ap (λ f. map bare db.messages ++ record (bare m) { folder_id = f } ∷ []) (sym e))

pub upsert_rows-bare :
    (folder_id : ℕ) (ms rest : List Message) (db : Db)
    → All (λ m. m.folder_id ≡ folder_id) ms
    → KeysApart (map bare db.messages ++ (map bare ms ++ rest))
    → map bare (upsert_rows folder_id ms db).messages ≡ map bare db.messages ++ map bare ms
unfolding upsert_rows
upsert_rows-bare folder_id [] rest db h k = sym (append-nil (map bare db.messages))
upsert_rows-bare folder_id (m ∷ ms) rest db h k =
    let old = map bare db.messages in
    let behind = map bare ms ++ rest in
    let absent = sym (any-has_key-bare m db.messages) ∙ absent-has_key old (bare m) behind k in
    let added = upsert_message-bare folder_id m db h.0 absent in
    let shift = append_assoc old (bare m ∷ []) in
    upsert_rows-bare folder_id ms rest (upsert_message folder_id m db) h.1
      (subst (λ xs. KeysApart (xs ++ behind)) (sym added) (subst KeysApart (sym (shift behind)) k))
    ∙ ap (λ xs. xs ++ map bare ms) added
    ∙ shift (map bare ms)

-- The messages of a list of groups, in its order.
abbrev pub flatten : List MessageGroup → List Message
flatten [] = []
flatten ((folder_id, ms) ∷ gs) = ms ++ flatten gs

-- The messages of a group are of its folder.
abbrev pub OfFolder : MessageGroup → Type 0
OfFolder (folder_id, ms) = All (λ m. m.folder_id ≡ folder_id) ms

restore_groups-bare :
    (gs : List MessageGroup) (db : Db)
    → All OfFolder gs
    → KeysApart (map bare db.messages ++ map bare (flatten gs))
    → map bare (restore_groups gs db).1.messages ≡ map bare db.messages ++ map bare (flatten gs)
unfolding restore_groups upsert_messages upsert_attachments_tx
restore_groups-bare [] db h k = sym (append-nil (map bare db.messages))
restore_groups-bare ((folder_id, ms) ∷ gs) db h k =
    let old = map bare db.messages in
    let rest = map bare (flatten gs) in
    let split = map-bare_append ms (flatten gs) in
    let db' = upsert_messages folder_id ms db in
    let k' = subst (λ xs. KeysApart (old ++ xs)) split k in
    let added = upsert_rows-bare folder_id ms rest db h.0 k' in
    restore_groups-bare gs db' h.1 (
      subst (λ xs. KeysApart (xs ++ rest)) (sym added)
        (subst KeysApart (sym (append_assoc old (map bare ms) rest)) k'))
    ∙ ap (λ xs. xs ++ rest) added
    ∙ append_assoc old (map bare ms) rest
    ∙ ap (λ xs. old ++ xs) (sym split)

add_message-OfFolder :
    (m : Message) (gs : List MessageGroup) → All OfFolder gs → All OfFolder (add_message m gs)
unfolding add_message
add_message-OfFolder m [] h = ((refl, tt), tt)
add_message-OfFolder m ((folder_id, ms) ∷ gs) h = elim (Bool-cases (folder_id == m.folder_id)) [
  | inl same ↦ rw same (
    All-append (λ x. x.folder_id ≡ folder_id) ms (m ∷ []) h.0
        (sym ((==_iff folder_id m.folder_id).0 same), tt),
    h.1,
  )
  | inr other ↦ rw other (h.0, add_message-OfFolder m gs h.1)
]

pub group_messages-OfFolder :
    (ms : List Message) (gs : List MessageGroup)
    → All OfFolder gs
    → All OfFolder (group_messages ms gs)
unfolding group_messages
group_messages-OfFolder [] gs h = h
group_messages-OfFolder (m ∷ ms) gs h =
    group_messages-OfFolder ms (add_message m gs) (add_message-OfFolder m gs h)

pub In-left : (x : Message) (xs ys : List Message) → In x xs → In x (xs ++ ys)
In-left x [] ys m = elim m [ ]
In-left x (y ∷ xs) ys (inl e) = inl e
In-left x (y ∷ xs) ys (inr m) = inr (In-left x xs ys m)

pub In-right : (x : Message) (xs ys : List Message) → In x ys → In x (xs ++ ys)
In-right x [] ys m = m
In-right x (y ∷ xs) ys m = inr (In-right x xs ys m)

pub In-of_append : (x : Message) (xs ys : List Message) → In x (xs ++ ys) → In x xs ⊎ In x ys
In-of_append x [] ys m = inr m
In-of_append x (y ∷ xs) ys (inl e) = inl (inl e)
In-of_append x (y ∷ xs) ys (inr m) = elim (In-of_append x xs ys m) [
  | inl here ↦ inl (inr here)
  | inr there ↦ inr there
]

In-add_message :
    (x m : Message) (gs : List MessageGroup)
    → In x (m ∷ flatten gs)
    → In x (flatten (add_message m gs))
unfolding add_message
In-add_message x m [] h = h
In-add_message x m ((folder_id, ms) ∷ gs) h = elim (Bool-cases (folder_id == m.folder_id)) [
  | inl same ↦ rw same (elim h [
    | inl e ↦ In-left x (ms ++ m ∷ []) (flatten gs) (In-right x ms (m ∷ []) (inl e))
    | inr i ↦ elim (In-of_append x ms (flatten gs) i) [
      | inl here ↦ In-left x (ms ++ m ∷ []) (flatten gs) (In-left x ms (m ∷ []) here)
      | inr there ↦ In-right x (ms ++ m ∷ []) (flatten gs) there
    ]
  ])
  | inr other ↦ rw other (elim h [
    | inl e ↦ In-right x ms (flatten (add_message m gs)) (In-add_message x m gs (inl e))
    | inr i ↦ elim (In-of_append x ms (flatten gs) i) [
      | inl here ↦ In-left x ms (flatten (add_message m gs)) here
      | inr there ↦ In-right x ms (flatten (add_message m gs)) (In-add_message x m gs (inr there))
    ]
  ])
]

pub In-group_messages :
    (x : Message) (ms : List Message) (gs : List MessageGroup)
    → In x ms ⊎ In x (flatten gs)
    → In x (flatten (group_messages ms gs))
unfolding group_messages
In-group_messages x [] gs (inl i) = elim i [ ]
In-group_messages x [] gs (inr i) = i
In-group_messages x (m ∷ ms) gs (inl (inl e)) =
    In-group_messages x ms (add_message m gs) (inr (In-add_message x m gs (inl e)))
In-group_messages x (m ∷ ms) gs (inl (inr i)) = In-group_messages x ms (add_message m gs) (inl i)
In-group_messages x (m ∷ ms) gs (inr i) =
    In-group_messages x ms (add_message m gs) (inr (In-add_message x m gs (inr i)))

In-flatten :
    (x : Message) (g : MessageGroup) (gs : List MessageGroup)
    → In g gs
    → In x g.1
    → In x (flatten gs)
In-flatten x g [] i j = elim i [ ]
In-flatten x g ((folder_id, ms) ∷ gs) (inl e) j =
    In-left x ms (flatten gs) (subst (λ (h : MessageGroup). In x h.1) e j)
In-flatten x g ((folder_id, ms) ∷ gs) (inr i) j = In-right x ms (flatten gs) (In-flatten x g gs i j)

pub In-flatten_order :
    (x : Message) (gs hs : List MessageGroup)
    → ((g : MessageGroup) → In g gs → In g hs)
    → In x (flatten gs)
    → In x (flatten hs)
In-flatten_order x [] hs h i = elim i [ ]
In-flatten_order x ((folder_id, ms) ∷ gs) hs h i = elim (In-of_append x ms (flatten gs) i) [
  | inl here ↦ In-flatten x (folder_id, ms) hs (h (folder_id, ms) (inl refl)) here
  | inr there ↦ In-flatten_order x gs hs (λ g m. h g (inr m)) there
]

pub In-bare : (x : Message) (xs : List Message) → In x xs → In (bare x) (map bare xs)
In-bare x [] i = elim i [ ]
In-bare x (y ∷ xs) (inl e) = inl (ap bare e)
In-bare x (y ∷ xs) (inr i) = inr (In-bare x xs i)

-- A snapshot restored, in whatever order Go walks the map of its folders, when no two of the
-- messages concerned have one key: the store holds what it held, at its place, and behind it the
-- messages of the snapshot, each as it was but for its row id and its attachment rows.
pub restore_messages-bare :
    (order : List MessageGroup → List MessageGroup) (ms : List Message) (db : Db)
    → ((g : MessageGroup) → In g (order (group_messages ms [])) → In g (group_messages ms []))
    → ((g : MessageGroup) → In g (group_messages ms []) → In g (order (group_messages ms [])))
    → KeysApart (map bare db.messages ++ map bare (flatten (order (group_messages ms []))))
    → (map bare (restore_messages order ms db).1.messages
        ≡ map bare db.messages ++ map bare (flatten (order (group_messages ms []))))
      × ((m : Message) → In m ms → In (bare m) (map bare (restore_messages order ms db).1.messages))
unfolding restore_messages
restore_messages-bare order ms db no_other all apart =
    let gs = group_messages ms [] in
    let folders =
      All-of_In OfFolder (order gs)
        (λ g i. All-In OfFolder gs (group_messages-OfFolder ms [] tt) g (no_other g i)) in
    let e = restore_groups-bare (order gs) db folders apart in
    (
      e,
      λ m i. subst (In (bare m)) (sym e) (
          In-right (bare m) (map bare db.messages) (map bare (flatten (order gs))) (
            In-bare m (flatten (order gs))
              (In-flatten_order m gs (order gs) all (In-group_messages m ms [] (inl i))))),
    )
