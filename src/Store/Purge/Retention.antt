-- ===== src/Store/Purge/Retention.antt =====
-- PurgeFolder of internal/store/messages_purge.go against the retention window it promises.
use nexus_mail.Base.{
  ℕ, true, false, not, List, [], ◌∷◌, ◌≡◌, ap, sym, ◌∙◌, filter, filter-and, All, ◌==◌, arith,
  Bool-cases, inl, inr,
}
use nexus_mail.Base.Sorting.{sort, insert, filter-sort, All-insert, All-sort}
use nexus_mail.Base.Text.{Unicode}
use nexus_mail.Model.{Message, RetentionPolicy}
use nexus_mail.Model.Flags.{enabled}
use nexus_mail.Store.{Db, is_in}
use nexus_mail.Store.Messages.{in_folder, newer_first}
use nexus_mail.Store.Delta.{delete_messages_by_uid}
use nexus_mail.Store.Deletions.{in_folder-delete, delete-others}
use nexus_mail.Store.Purge.Loop.{
  DistinctUids, is_flagged, is_recent, within_cap, left-is_recent, spared-all,
}
use nexus_mail.Store.Purge.{expired_loop, expired_uids, purge_folder}

newer_first_total : (a b : Message) → newer_first a b ≡ false → newer_first b a ≡ true
unfolding newer_first
newer_first_total a b h = ground arith

newer_first_trans :
    (a b c : Message) → newer_first a b ≡ true → newer_first b c ≡ true → newer_first a c ≡ true
unfolding newer_first
newer_first_trans a b c h k = ground arith

DistinctUids-insert :
    (m : Message) (ms : List Message)
    → All (λ x. (m.uid == x.uid) ≡ false) ms
    → DistinctUids ms
    → DistinctUids (insert newer_first m ms)
unfolding insert
DistinctUids-insert m [] h d = (tt, tt)
DistinctUids-insert m (x ∷ ms) h d = elim (Bool-cases (newer_first m x)) [
  | inl first ↦ rw first (h, d)
  | inr later ↦
      let apart : (x.uid == m.uid) ≡ false = ground (arith, h.0) in
      rw later (
        All-insert newer_first (λ y. (x.uid == y.uid) ≡ false) m ms apart d.0,
        DistinctUids-insert m ms h.1 d.1,
      )
]

DistinctUids-sort : (ms : List Message) → DistinctUids ms → DistinctUids (sort newer_first ms)
unfolding sort
DistinctUids-sort [] d = tt
DistinctUids-sort (m ∷ ms) d =
    DistinctUids-insert m (sort newer_first ms)
      (All-sort newer_first (λ x. (m.uid == x.uid) ≡ false) ms d.0) (DistinctUids-sort ms d.1)

-- A folder as a window shows it: newest first.
abbrev pub folder_view : ℕ → Db → List Message
folder_view folder_id db = sort newer_first (in_folder folder_id db)

folder_view-delete :
    (folder_id : ℕ) (doomed : List ℕ) (db : Db)
    → folder_view folder_id (delete_messages_by_uid folder_id doomed db)
      ≡ filter (λ m. not (is_in doomed m.uid)) (folder_view folder_id db)
folder_view-delete folder_id doomed db =
    ap (sort newer_first) (in_folder-delete folder_id doomed db)
    ∙ sym (
        filter-sort newer_first newer_first_total newer_first_trans (λ m. not (is_in doomed m.uid))
          (in_folder folder_id db))

-- A purge under a policy with a limit, of a folder whose UIDs are distinct. Of the unflagged
-- messages, newest first, those that the age limit keeps stay, up to the cap, and no other; every
-- flagged message stays; and no other folder changes.
pub purge_folder-keeps :
    (u : Unicode) (now folder_id : ℕ) (policy : RetentionPolicy) (db : Db)
    → enabled policy ≡ true
    → DistinctUids (in_folder folder_id db)
    → (filter
          (λ m. not (is_flagged u m))
          (folder_view folder_id (purge_folder u now folder_id policy db).1)
        ≡ within_cap u now policy 0 (filter (is_recent u now policy) (folder_view folder_id db)))
      × (filter (is_flagged u) (folder_view folder_id (purge_folder u now folder_id policy db).1)
          ≡ filter (is_flagged u) (folder_view folder_id db))
      × (filter
            (λ m. not (m.folder_id == folder_id))
            (purge_folder u now folder_id policy db).1.messages
          ≡ filter (λ m. not (m.folder_id == folder_id)) db.messages)
unfolding purge_folder expired_uids
purge_folder-keeps u now folder_id policy db on distinct =
    let view = folder_view folder_id db in
    let doomed = expired_loop u now policy 0 view in
    let d = DistinctUids-sort (in_folder folder_id db) distinct in
    rw on (
      ap (filter (λ m. not (is_flagged u m))) (folder_view-delete folder_id doomed db)
          ∙ filter-and _ _ view
          ∙ left-is_recent u now policy 0 view d,
      ap (filter (is_flagged u)) (folder_view-delete folder_id doomed db)
          ∙ filter-and _ _ view
          ∙ spared-all u now policy 0 view d,
      delete-others folder_id doomed db,
    )
