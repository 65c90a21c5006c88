-- ===== src/Store/Folders.antt =====
-- internal/store/folders.go.
pub mod Generation
use nexus_mail.Base.{ℕ, Bool, ◌&&◌, List, [], ◌∷◌, ◌++◌, map, any, filter, ◌==◌, if◌then◌else◌}
use nexus_mail.Base.Sorting.{sort}
use nexus_mail.Base.Text.{Text, Unicode, codes, text_eq, text_le}
use nexus_mail.Model.{Folder}
use nexus_mail.Model.Roles.{sort_folders}
use nexus_mail.Store.{Db, next_id, delete_messages}
use nexus_mail.Store.Operations.{is_empty}

-- The key of UNIQUE(account_id, path).
unfoldable pub same_folder : ℕ → Text → Folder → Bool
unfolding text_eq
same_folder account_id path f = f.account_id == account_id && text_eq f.path path

-- A missing hierarchy delimiter is stored as "/".
unfoldable pub delimiter_or_default : Text → Text
unfolding is_empty
delimiter_or_default d = if is_empty d then codes "/" else d

abbrev pub folder_ids : Db → List ℕ
folder_ids db = map (λ f. f.id) db.folders

-- ON CONFLICT … DO UPDATE: every column but the key, the id and `uid_validity`.
unfoldable pub refresh_folder : Folder → Folder → Folder
unfolding delimiter_or_default
refresh_folder new old = record old {
  name = new.name;
  delimiter = delimiter_or_default new.delimiter;
  attributes = new.attributes;
  uid_next = new.uid_next;
  highest_modseq = new.highest_modseq;
  total_count = new.total_count;
  unread_count = new.unread_count;
  last_synced_at = new.last_synced_at;
}

-- One execution of the statement.
unfoldable pub upsert_folder : ℕ → Folder → Db → Db
unfolding same_folder refresh_folder next_id delimiter_or_default
upsert_folder account_id f db =
    if any (same_folder account_id f.path) db.folders
    then record db {
      folders =
          map (λ old. if same_folder account_id f.path old then refresh_folder f old else old)
            db.folders;
    }
    else record db {
      folders =
          db.folders
          ++ record f {
            id = next_id (folder_ids db);
            account_id = account_id;
            delimiter = delimiter_or_default f.delimiter;
          }
            ∷ [];
    }

unfoldable pub upsert_folders : ℕ → List Folder → Db → Db
unfolding upsert_folder
upsert_folders account_id [] db = db
upsert_folders account_id (f ∷ fs) db = upsert_folders account_id fs (upsert_folder account_id f db)

-- Path order out of SQL, then role order on top of it.
unfoldable pub list_folders : Unicode → ℕ → Db → List Folder
unfolding sort sort_folders text_le
list_folders u account_id db =
    sort_folders u
      (sort (λ a b. text_le a.path b.path) (filter (λ f. f.account_id == account_id) db.folders))

-- Every cached message of the folder goes, and the server's new UIDVALIDITY is recorded.
unfoldable pub reset_folder : ℕ → ℕ → Db → Db
unfolding delete_messages
reset_folder folder_id new_uid_validity db =
    record (delete_messages (λ m. m.folder_id == folder_id) db) {
      folders =
          map
            (λ f.
              if f.id == folder_id
              then record f {
                uid_validity = new_uid_validity;
                uid_next = 0;
                highest_modseq = 0;
                last_synced_at = 0;
              }
              else f)
            db.folders;
    }
