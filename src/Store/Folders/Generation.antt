-- ===== src/Store/Folders/Generation.antt =====
-- UpsertFolders and ResetFolder of internal/store/folders.go: the generation of a mailbox changes
-- only with a reset.
use nexus_mail.Base.{
  ℕ, Bool, not, List, [], ◌∷◌, ◌++◌, ◌≡◌, refl, ap, sym, ◌∙◌, inl, inr, map, append-nil,
  append_assoc, All, All-append, any, filter, ◌==◌, arith, if◌then◌else◌, Bool-cases,
}
use nexus_mail.Base.Text.{Text}
use nexus_mail.Model.{Folder, Message}
use nexus_mail.Store.{Db, delete_messages}
use nexus_mail.Store.Messages.{in_folder}
use nexus_mail.Store.Folders.{
  same_folder, refresh_folder, upsert_folder, upsert_folders, reset_folder,
}

-- What an upsert never changes in a row: the id, the key, and the generation.
pub record Identity : Type 0 where
  pub id : ℕ
  pub account_id : ℕ
  pub path : Text
  pub uid_validity : ℕ

abbrev pub identity_of : Folder → Identity
identity_of f = record {
  id = f.id;
  account_id = f.account_id;
  path = f.path;
  uid_validity = f.uid_validity;
}

refreshed-identities :
    (new : Folder) (p : Folder → Bool) (fs : List Folder)
    → map identity_of (map (λ old. if p old then refresh_folder new old else old) fs)
      ≡ map identity_of fs
unfolding refresh_folder
refreshed-identities new p [] = refl
refreshed-identities new p (f ∷ fs) = elim (Bool-cases (p f)) [
  | inl here ↦ rw here (ap (◌∷◌ (identity_of f)) (refreshed-identities new p fs))
  | inr other ↦ rw other (ap (◌∷◌ (identity_of f)) (refreshed-identities new p fs))
]

map-append :
    (xs ys : List Folder) → map identity_of (xs ++ ys) ≡ map identity_of xs ++ map identity_of ys
map-append [] ys = refl
map-append (x ∷ xs) ys = ap (◌∷◌ (identity_of x)) (map-append xs ys)

-- The identities of a table are those of another, and behind them those of new rows of an account.
abbrev pub Extends : ℕ → List Folder → List Folder → Type 0
Extends account_id fs gs =
    (added : List Identity) × (map identity_of gs ≡ map identity_of fs ++ added)
    × All (λ i. i.account_id ≡ account_id) added

upsert_folder-Extends :
    (account_id : ℕ) (f : Folder) (db : Db)
    → Extends account_id db.folders (upsert_folder account_id f db).folders
unfolding upsert_folder
upsert_folder-Extends account_id f db =
    elim (Bool-cases (any (same_folder account_id f.path) db.folders)) [
      | inl there ↦ rw there (
        [],
        refreshed-identities f (same_folder account_id f.path) db.folders
            ∙ sym (append-nil (map identity_of db.folders)),
        tt,
      )
      | inr absent ↦ rw absent (_, map-append db.folders _, (refl, tt))
    ]

Extends-trans :
    (account_id : ℕ) (fs gs hs : List Folder)
    → Extends account_id fs gs
    → Extends account_id gs hs
    → Extends account_id fs hs
Extends-trans account_id fs gs hs (a, e, all_a) (b, k, all_b) = (
  a ++ b,
  k ∙ ap (λ xs. xs ++ b) e ∙ append_assoc (map identity_of fs) a b,
  All-append (λ i. i.account_id ≡ account_id) a b all_a all_b,
)

-- A refresh of the folder list, whatever the server reports: every row that was there keeps its id,
-- its account, its path and its UIDVALIDITY, at its place, and rows that come are the account's.
pub upsert_folders-Extends :
    (account_id : ℕ) (fs : List Folder) (db : Db)
    → Extends account_id db.folders (upsert_folders account_id fs db).folders
unfolding upsert_folders
upsert_folders-Extends account_id [] db = ([], sym (append-nil (map identity_of db.folders)), tt)
upsert_folders-Extends account_id (f ∷ fs) db =
    Extends-trans account_id db.folders (upsert_folder account_id f db).folders
      (upsert_folders account_id fs (upsert_folder account_id f db)).folders
      (upsert_folder-Extends account_id f db)
      (upsert_folders-Extends account_id fs (upsert_folder account_id f db))

-- A folder at the start of a new generation.
abbrev pub Fresh : ℕ → Folder → Type 0
Fresh uid_validity f =
    (f.uid_validity ≡ uid_validity)
    × (f.uid_next ≡ 0)
    × (f.highest_modseq ≡ 0)
    × (f.last_synced_at ≡ 0)

module _ (folder_id uid_validity : ℕ) where
  abbrev renewed : Folder → Folder
  renewed f =
      if f.id == folder_id
      then record f {
        uid_validity = uid_validity;
        uid_next = 0;
        highest_modseq = 0;
        last_synced_at = 0;
      }
      else f

  renewed-Fresh :
      (fs : List Folder)
      → All (Fresh uid_validity) (filter (λ f. f.id == folder_id) (map renewed fs))
  renewed-Fresh [] = tt
  renewed-Fresh (f ∷ fs) = elim (Bool-cases (f.id == folder_id)) [
    | inl here ↦ rw here (rw here ((refl, refl, refl, refl), renewed-Fresh fs))
    | inr other ↦ rw other (rw other (renewed-Fresh fs))
  ]

  others-renewed :
      (fs : List Folder)
      → filter (λ f. not (f.id == folder_id)) (map renewed fs)
        ≡ filter (λ f. not (f.id == folder_id)) fs
  others-renewed [] = refl
  others-renewed (f ∷ fs) = elim (Bool-cases (f.id == folder_id)) [
    | inl here ↦ rw here (rw here (others-renewed fs))
    | inr other ↦ rw other (rw other (ap (◌∷◌ f) (others-renewed fs)))
  ]

emptied-rows : (p : Message → Bool) (ms : List Message) → filter p (filter (λ m. not (p m)) ms) ≡ []
emptied-rows p [] = refl
emptied-rows p (m ∷ ms) = ground (arith, emptied-rows p ms)

kept-rows :
    (p : Message → Bool) (ms : List Message)
    → filter (λ m. not (p m)) (filter (λ m. not (p m)) ms) ≡ filter (λ m. not (p m)) ms
kept-rows p [] = refl
kept-rows p (m ∷ ms) = ground (arith, kept-rows p ms)

pub reset_folder-IsScoped :
    (folder_id uid_validity : ℕ) (db : Db)
    → (in_folder folder_id (reset_folder folder_id uid_validity db) ≡ [])
      × All
          (Fresh uid_validity)
          (filter (λ f. f.id == folder_id) (reset_folder folder_id uid_validity db).folders)
      × (filter
            (λ m. not (m.folder_id == folder_id))
            (reset_folder folder_id uid_validity db).messages
          ≡ filter (λ m. not (m.folder_id == folder_id)) db.messages)
      × (filter (λ f. not (f.id == folder_id)) (reset_folder folder_id uid_validity db).folders
          ≡ filter (λ f. not (f.id == folder_id)) db.folders)
unfolding reset_folder delete_messages in_folder
reset_folder-IsScoped folder_id uid_validity db = (
  emptied-rows (λ m. m.folder_id == folder_id) db.messages,
  renewed-Fresh folder_id uid_validity db.folders,
  kept-rows (λ m. m.folder_id == folder_id) db.messages,
  others-renewed folder_id uid_validity db.folders,
)
