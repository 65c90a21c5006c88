-- ===== src/Store/Purge.antt =====
-- internal/store/messages_purge.go: the retention window.
pub mod Loop
pub mod Retention
use nexus_mail.Base.{
  ℕ, ◌+◌, ◌-◌, ◌*◌, Bool, true, false, ◌&&◌, ◌||◌, List, [], ◌∷◌, length, leb, ltb, if◌then◌else◌,
}
use nexus_mail.Base.Sorting.{sort}
use nexus_mail.Base.Text.{Unicode}
use nexus_mail.Model.{Message, RetentionPolicy}
use nexus_mail.Model.Flags.{has_flag, flag_flagged, enabled}
use nexus_mail.Store.{Db}
use nexus_mail.Store.Messages.{in_folder, newer_first}
use nexus_mail.Store.Delta.{delete_messages_by_uid}

abbrev pub nanos_per_second : ℕ
nanos_per_second = 1_000_000_000

-- `time.Unix(internal, 0).Before(now - max_age)`; both sides have `max_age` added, since numbers
-- do not go below zero.
unfoldable pub is_too_old : ℕ → RetentionPolicy → Message → Bool
is_too_old now policy m =
    ltb 0 policy.max_age && ltb (m.internal_date * nanos_per_second + policy.max_age) now

unfoldable pub is_beyond_cap : RetentionPolicy → ℕ → Bool
is_beyond_cap policy kept = ltb 0 policy.max_messages && leb policy.max_messages kept

module _ (u : Unicode) where
  -- The loop over the rows, newest first; `kept` counts the unflagged messages that stay.
  unfoldable pub expired_loop : ℕ → RetentionPolicy → ℕ → List Message → List ℕ
  unfolding is_too_old is_beyond_cap
  expired_loop now policy kept [] = []
  expired_loop now policy kept (m ∷ ms) = elim (has_flag u m flag_flagged) [
    | true ↦ expired_loop now policy kept ms
    | false ↦ elim (is_too_old now policy m || is_beyond_cap policy kept) [
      | true ↦ m.uid ∷ expired_loop now policy kept ms
      | false ↦ expired_loop now policy (kept + 1) ms
    ]
  ]

  unfoldable pub expired_uids : ℕ → ℕ → RetentionPolicy → Db → List ℕ
  unfolding expired_loop in_folder newer_first sort
  expired_uids now folder_id policy db =
      expired_loop now policy 0 (sort newer_first (in_folder folder_id db))

  -- How many messages went, and the store without them.
  unfoldable pub purge_folder : ℕ → ℕ → RetentionPolicy → Db → ℕ × Db
  unfolding enabled expired_uids delete_messages_by_uid
  purge_folder now folder_id policy db =
      if enabled policy
      then (let doomed = expired_uids now folder_id policy db in
          (length doomed, delete_messages_by_uid folder_id doomed db))
      else (0, db)
