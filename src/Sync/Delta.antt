-- ===== src/Sync/Delta.antt =====
-- internal/sync/delta.go: bringing one folder up to date; and the parts of initial.go that it
-- shares with the first sync.
pub mod Reconcile
use nexus_mail.Base.{
  ℕ, ◌+◌, ◌-◌, ◌/◌, Bool, true, false, not, ◌||◌, List, [], ◌∷◌, ◌++◌, map, length, filter, last_or,
  leb, ltb, ◌==◌, if◌then◌else◌,
}
use Prim.Native.String.{String}
use nexus_mail.Base.Text.{Text, Unicode, codes}
use nexus_mail.Model.{Folder, Message, FlagUpdate}
use nexus_mail.Store.{is_in}
use nexus_mail.Sync.{
  Outside, Store, Run, SelectResult, UidRange, Capabilities, ◌>>=◌, ◌>>◌, pure, wrapped, on_store,
  on_outside, reads,
}
use nexus_mail.Sync.Queue.{select}

abbrev pub initial_header_count : ℕ
initial_header_count = 1000

-- The most recent UIDs, through the highest.
unfoldable pub initial_range : ℕ → UidRange
initial_range uid_next = record {
  start = if ltb initial_header_count uid_next then uid_next - initial_header_count else 1;
  end = 0;
}

-- Zero asks for the whole window; anything else asks for what changed since.
unfoldable pub cond_store_since : Capabilities → Folder → SelectResult → ℕ → ℕ
cond_store_since caps folder sel arrived =
    if not caps.cond_store || (folder.highest_modseq == 0 || folder.total_count == 0)
    then 0
    else if sel.num_messages == folder.total_count + arrived
    then folder.highest_modseq
    else 0

-- The UIDs that we hold and that the server did not mention.
unfoldable pub missing_uids : List ℕ → List FlagUpdate → List ℕ
unfolding is_in
missing_uids local present = filter (λ uid. not (is_in (map (λ x. x.uid) present) uid)) local

-- Ownership, which the backend does not know.
unfoldable pub stamp : ℕ → Folder → List Message → List Message
stamp account_id folder =
    map {A = Message} (λ m. record m { account_id = account_id; folder_id = folder.id })

-- The folder as a pass leaves it. The column holds seconds.
unfoldable pub synced_folder : Folder → SelectResult → ℕ → Folder
synced_folder folder sel now = record folder {
  uid_next = sel.uid_next;
  highest_modseq = sel.highest_modseq;
  total_count = sel.num_messages;
  last_synced_at = now / 1_000_000_000;
}

-- A folder whose generation the server has replaced.
unfoldable pub fresh_folder : Folder → SelectResult → Folder
fresh_folder folder sel = record folder {
  uid_validity = sel.uid_validity;
  uid_next = 0;
  highest_modseq = 0;
  total_count = 0;
}

-- The start of a message about a folder, whose path is quoted.
abbrev pub about : String → Folder → Text
about said folder = codes said ++ codes "\"" ++ folder.path ++ codes "\": "

-- Whether the server has recreated the mailbox. A stored zero was never synced.
unfoldable pub is_recreated : Folder → SelectResult → Bool
is_recreated folder sel = not (folder.uid_validity == 0 || sel.uid_validity == folder.uid_validity)

module _ (env : Outside) (st : Store) where
  unfoldable pub reconcile_uid_validity : Folder → SelectResult → Run env st (Folder × Bool)
  unfolding is_recreated wrapped on_store fresh_folder pure ◌>>=◌
  reconcile_uid_validity folder sel =
      if is_recreated folder sel
      then (do
        wrapped
            (codes "sync: resetting \"" ++ folder.path ++ codes "\" after a UIDVALIDITY change: ")
            (on_store (st.reset_folder folder.id sel.uid_validity))
        pure (fresh_folder folder sel, true))
      else pure (folder, false)

  unfoldable pub store_headers : ℕ → Folder → List Message → Run env st (Unit {0})
  unfolding stamp wrapped on_store
  store_headers account_id folder ms =
      wrapped (about "sync: storing headers for " folder)
        (on_store (st.upsert_messages folder.id (stamp account_id folder ms)))

  unfoldable pub record_sync_state : ℕ → Folder → SelectResult → Run env st (Unit {0})
  unfolding synced_folder wrapped on_store reads ◌>>=◌
  record_sync_state account_id folder sel = do
    now ← reads env.now
    wrapped (about "sync: recording sync state for " folder)
        (on_store (st.upsert_folders account_id (synced_folder folder sel now ∷ [])))

  unfoldable pub full_header_pass : ℕ → Folder → SelectResult → Run env st (Unit {0})
  unfolding initial_range wrapped on_outside store_headers record_sync_state ◌>>=◌
  full_header_pass account_id folder sel = do
    ms ←
        wrapped (about "sync: fetching headers for " folder)
          (on_outside (env.fetch_headers (initial_range sel.uid_next)))
    store_headers account_id folder ms
    record_sync_state account_id folder sel

  unfoldable pub fetch_arrivals : ℕ → Folder → SelectResult → Run env st ℕ
  unfolding wrapped on_outside store_headers pure ◌>>=◌
  fetch_arrivals account_id folder sel = if leb sel.uid_next folder.uid_next then pure 0 else (do
    ms ← wrapped (about "sync: fetching new headers for " folder) (
        on_outside (env.fetch_headers (record { start = folder.uid_next; end = sel.uid_next - 1 })))
    store_headers account_id folder ms
    pure (length ms))

  -- The flags of the window, and the deletions if the answer was complete.
  unfoldable pub reconcile_over : Folder → SelectResult → ℕ → List ℕ → Run env st (Unit {0})
  unfolding cond_store_since missing_uids wrapped on_outside on_store reads pure ◌>>=◌
  reconcile_over folder sel arrived [] = pure tt
  reconcile_over folder sel arrived (low ∷ local) = do
    caps ← reads env.capabilities
    let since = cond_store_since caps folder sel arrived
    updates ←
        wrapped (about "sync: fetching flags for " folder)
          (on_outside (env.fetch_flags (record { start = low; end = last_or low local }) since))
    on_store (st.set_message_flags folder.id updates)
    if since == 0
        then on_store (st.delete_messages_by_uid folder.id (missing_uids (low ∷ local) updates))
        else pure tt

  unfoldable pub reconcile_window : Folder → SelectResult → ℕ → Run env st (Unit {0})
  unfolding on_store reconcile_over ◌>>=◌
  reconcile_window folder sel arrived = do
    local ← on_store (st.list_message_uids folder.id)
    reconcile_over folder sel arrived local

  -- What follows the check of the UIDVALIDITY.
  unfoldable pub delta_pass : ℕ → SelectResult → Folder × Bool → Run env st (Unit {0})
  unfolding full_header_pass fetch_arrivals reconcile_window record_sync_state ◌>>=◌
  delta_pass account_id sel (folder, was_reset) =
      if was_reset || folder.uid_next == 0 then full_header_pass account_id folder sel else (do
        arrived ← fetch_arrivals account_id folder sel
        reconcile_window folder sel arrived
        record_sync_state account_id folder sel)

module _ (u : Unicode) (env : Outside) (st : Store) where
  unfoldable pub delta_sync_on : ℕ → Folder → Run env st (Unit {0})
  unfolding wrapped select reconcile_uid_validity delta_pass ◌>>=◌
  delta_sync_on account_id folder = do
    sel ← wrapped (about "sync: selecting " folder) (select u env st folder.path)
    checked ← reconcile_uid_validity env st folder sel
    delta_pass env st account_id sel checked

  unfoldable pub delta_sync : ℕ → Folder → Run env st (Unit {0})
  unfolding wrapped on_outside delta_sync_on ◌>>=◌
  delta_sync account_id folder = do
    wrapped (codes "sync: connecting: ") (on_outside (env.dial account_id))
    delta_sync_on account_id folder
