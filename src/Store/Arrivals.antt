-- ===== src/Store/Arrivals.antt =====
-- internal/store/arrivals.go: the messages of a folder above a row id.
pub mod Window
use nexus_mail.Base.{ℕ, Bool, ◌&&◌, List, map, filter, take, ltb, leb, ◌==◌}
use nexus_mail.Base.Sorting.{sort}
use nexus_mail.Model.{Message}
use nexus_mail.Store.{Db, max_id}

-- `WHERE folder_id = ? AND id > ?`.
unfoldable pub is_after : ℕ → ℕ → Message → Bool
is_after folder_id after_id m = m.folder_id == folder_id && ltb after_id m.id

-- `ORDER BY id`.
unfoldable pub id_before : Message → Message → Bool
id_before a b = leb a.id b.id

unfoldable pub messages_after_id : ℕ → ℕ → ℕ → Db → List Message
unfolding is_after id_before sort
messages_after_id folder_id after_id limit db =
    take limit (sort id_before (filter (is_after folder_id after_id) db.messages))

-- `MAX(id)`, which is NULL and so zero where there is no row.
unfoldable pub highest_message_id : ℕ → Db → ℕ
unfolding max_id
highest_message_id folder_id db =
    max_id (map (λ m. m.id) (filter (λ m. m.folder_id == folder_id) db.messages))
