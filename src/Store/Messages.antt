-- ===== src/Store/Messages.antt =====
-- internal/store/messages.go, and the attachment rows that its upsert writes
-- (internal/store/attachments.go).
pub mod Keys
use nexus_mail.Base.{
  ℕ, Bool, false, ◌&&◌, ◌||◌, List, [], ◌∷◌, ◌++◌, map, Option, none, some, any, filter, take, drop,
  leb, ltb, ◌==◌, if◌then◌else◌,
}
use nexus_mail.Base.Sorting.{sort}
use nexus_mail.Base.Text.{Text, text_eq}
use nexus_mail.Model.{Message, AttachmentPart}
use nexus_mail.Store.{Db, AttachmentRow, next_id}
use nexus_mail.Store.Operations.{is_nil}

-- The key of UNIQUE(account_id, folder_id, uid).
unfoldable pub has_key : ℕ → ℕ → ℕ → Message → Bool
has_key account_id folder_id uid m =
    m.account_id == account_id && (m.folder_id == folder_id && m.uid == uid)

abbrev pub message_ids : Db → List ℕ
message_ids db = map (λ m. m.id) db.messages

-- ON CONFLICT … DO UPDATE: the five columns that a resync may change.
unfoldable pub refresh_message : Message → Message → Message
refresh_message new old = record old {
  subject = new.subject;
  snippet = new.snippet;
  flags = new.flags;
  thread_id = new.thread_id;
  has_attachments = new.has_attachments;
}

-- A new row: the folder is the call's, whatever the message says. Attachments stand in a table of
-- their own.
unfoldable pub new_row : ℕ → ℕ → Message → Message
new_row id folder_id m = record m { id = id; folder_id = folder_id; attachments = [] }

-- One execution of the statement.
unfoldable pub upsert_message : ℕ → Message → Db → Db
unfolding has_key refresh_message new_row next_id
upsert_message folder_id m db =
    if any (has_key m.account_id folder_id m.uid) db.messages
    then record db {
      messages =
          map
            (λ old. if has_key m.account_id folder_id m.uid old then refresh_message m old else old)
            db.messages;
    }
    else record db { messages = db.messages ++ new_row (next_id (message_ids db)) folder_id m ∷ [] }

unfoldable pub upsert_rows : ℕ → List Message → Db → Db
unfolding upsert_message
upsert_rows folder_id [] db = db
upsert_rows folder_id (m ∷ ms) db = upsert_rows folder_id ms (upsert_message folder_id m db)

-- `wanted[uid] = parts` of a map.
unfoldable pub set_wanted :
    ℕ → List AttachmentPart → List (ℕ × List AttachmentPart) → List (ℕ × List AttachmentPart)
set_wanted uid parts [] = (uid, parts) ∷ []
set_wanted uid parts ((k, v) ∷ rest) =
    if k == uid then (uid, parts) ∷ rest else (k, v) ∷ set_wanted uid parts rest

unfoldable pub wanted_of :
    List Message → List (ℕ × List AttachmentPart) → List (ℕ × List AttachmentPart)
unfolding set_wanted is_nil
wanted_of [] wanted = wanted
wanted_of (m ∷ ms) wanted =
    wanted_of ms (if is_nil m.attachments then wanted else set_wanted m.uid m.attachments wanted)

-- `ids[uid]`, where a later row of the query overwrites an earlier one.
unfoldable pub last_id : ℕ → ℕ → List Message → Option ℕ → Option ℕ
last_id folder_id uid [] found = found
last_id folder_id uid (m ∷ ms) found =
    last_id folder_id uid ms (if m.folder_id == folder_id && m.uid == uid then some m.id else found)

unfoldable pub has_part : ℕ → Text → AttachmentRow → Bool
unfolding text_eq
has_part message_id part_id a = a.message_id == message_id && text_eq a.part_id part_id

-- The downloaded file is not touched by the update.
unfoldable pub upsert_attachment : ℕ → AttachmentPart → List AttachmentRow → List AttachmentRow
unfolding has_part next_id
upsert_attachment message_id p rows =
    if any (has_part message_id p.part_id) rows
    then map
        (λ a.
          if has_part message_id p.part_id a
          then record a { filename = p.filename; mime_type = p.mime_type; size = p.size }
          else a)
        rows
    else rows
      ++ record {
        id = next_id (map (λ a. a.id) rows);
        message_id = message_id;
        part_id = p.part_id;
        filename = p.filename;
        mime_type = p.mime_type;
        size = p.size;
        local_path = [];
        downloaded = false;
      }
        ∷ []

unfoldable pub upsert_attachments :
    ℕ → List AttachmentPart → List AttachmentRow → List AttachmentRow
unfolding upsert_attachment
upsert_attachments message_id [] rows = rows
upsert_attachments message_id (p ∷ ps) rows =
    upsert_attachments message_id ps (upsert_attachment message_id p rows)

-- The parts of the messages whose rows are there. Go walks the map in any order, and here it is
-- that of the batch: the order of the rows of one message does not depend on it.
unfoldable pub store_wanted :
    ℕ → List Message → List (ℕ × List AttachmentPart) → List AttachmentRow → List AttachmentRow
unfolding last_id upsert_attachments
store_wanted folder_id messages [] rows = rows
store_wanted folder_id messages ((uid, parts) ∷ rest) rows =
    store_wanted folder_id messages rest (elim (last_id folder_id uid messages none) [
      | none ↦ rows
      | some id ↦ upsert_attachments id parts rows
    ])

unfoldable pub upsert_attachments_tx : ℕ → List Message → Db → Db
unfolding store_wanted wanted_of
upsert_attachments_tx folder_id ms db = record db {
  attachments = store_wanted folder_id db.messages (wanted_of ms []) db.attachments;
}

unfoldable pub upsert_messages : ℕ → List Message → Db → Db
unfolding upsert_rows upsert_attachments_tx
upsert_messages folder_id ms db = upsert_attachments_tx folder_id ms (upsert_rows folder_id ms db)

-- `ORDER BY internal_date DESC, uid DESC`.
unfoldable pub newer_first : Message → Message → Bool
newer_first a b =
    ltb b.internal_date a.internal_date || (a.internal_date == b.internal_date && leb b.uid a.uid)

unfoldable pub in_folder : ℕ → Db → List Message
in_folder folder_id db = filter (λ m. m.folder_id == folder_id) db.messages

-- One page of a folder, newest first.
unfoldable pub list_messages : ℕ → ℕ → ℕ → Db → List Message
unfolding newer_first in_folder sort
list_messages folder_id limit offset db =
    take limit (drop offset (sort newer_first (in_folder folder_id db)))
