-- ===== src/Sync/Initial.antt =====
-- internal/sync/initial.go: the first sync of an account, and a folder on demand.
use nexus_mail.Base.{Bool, ◌||◌, List, [], ◌∷◌, any, filter, ℕ}
use nexus_mail.Base.Text.{Text, Unicode, codes}
use nexus_mail.Model.{Folder}
use nexus_mail.Model.Flags.{is_inbox, has_attribute}
use nexus_mail.Sync.{Outside, Store, Run, ◌>>=◌, ◌>>◌, wrapped, on_store, on_outside, for_each}
use nexus_mail.Sync.Queue.{select}
use nexus_mail.Sync.Delta.{about, reconcile_uid_validity, full_header_pass}

-- The folders whose headers are worth having at once.
abbrev pub eager_attributes : List Text
eager_attributes =
    codes "\\Sent" ∷ codes "\\Drafts" ∷ codes "\\Trash" ∷ codes "\\Junk" ∷ codes "\\Archive" ∷ []

module _ (u : Unicode) where
  unfoldable pub is_eager : Folder → Bool
  unfolding is_inbox has_attribute
  is_eager f = is_inbox u f || any (λ eager. has_attribute u f eager) eager_attributes

module _ (u : Unicode) (env : Outside) (st : Store) where
  -- The UIDVALIDITY is checked before any message is written.
  unfoldable pub sync_folder_headers : ℕ → Folder → Run env st (Unit {0})
  unfolding wrapped select reconcile_uid_validity full_header_pass ◌>>=◌
  sync_folder_headers account_id folder = do
    sel ← wrapped (about "sync: selecting " folder) (select u env st folder.path)
    checked ← reconcile_uid_validity env st folder sel
    full_header_pass env st account_id checked.0 sel

  unfoldable pub sync_folder : ℕ → Folder → Run env st (Unit {0})
  unfolding wrapped on_outside sync_folder_headers ◌>>=◌
  sync_folder account_id folder = do
    wrapped (codes "sync: connecting: ") (on_outside (env.dial account_id))
    sync_folder_headers account_id folder

  unfoldable pub initial_sync : ℕ → Run env st (Unit {0})
  unfolding wrapped on_outside on_store for_each is_eager sync_folder_headers ◌>>=◌
  initial_sync account_id = do
    wrapped (codes "sync: connecting: ") (on_outside (env.dial account_id))
    remote ← wrapped (codes "sync: listing folders: ") (on_outside env.list_mailboxes)
    wrapped (codes "sync: storing folders: ") (on_store (st.upsert_folders account_id remote))
    local ← wrapped (codes "sync: reading stored folders: ") (on_store (st.list_folders account_id))
    for_each (sync_folder_headers account_id) (filter (is_eager u) local)
