-- ===== src/Store/Attachments.antt =====
-- internal/store/attachments.go: the methods on the files of messages. The write inside the upsert of
-- messages is in Messages.
pub mod Downloads
use nexus_mail.Base.{
  ℕ, Bool, true, List, [], ◌∷◌, Option, none, some, map, filter, find?, any, leb, ◌==◌,
  if◌then◌else◌,
}
use nexus_mail.Base.Sorting.{sort}
use nexus_mail.Base.Text.{Text}
use nexus_mail.Model.{AttachmentPart}
use nexus_mail.Store.{Db, AttachmentRow}
use nexus_mail.Store.Messages.{upsert_attachments}

-- The encoding is no column: it is read of the body structure.
abbrev pub to_part : AttachmentRow → AttachmentPart
to_part a = record {
  id = a.id;
  part_id = a.part_id;
  filename = a.filename;
  mime_type = a.mime_type;
  size = a.size;
  encoding = [];
  local_path = a.local_path;
  downloaded = a.downloaded;
}

-- A part of a message that is gone violates the foreign key, and the transaction is rolled back.
unfoldable pub store_attachments : ℕ → List AttachmentPart → Db → Option Db
unfolding upsert_attachments
store_attachments message_id [] db = some db
store_attachments message_id (p ∷ parts) db =
    if any (λ m. m.id == message_id) db.messages
    then some (record db { attachments = upsert_attachments message_id (p ∷ parts) db.attachments })
    else none

unfoldable pub list_attachments : ℕ → Db → List AttachmentPart
unfolding sort
list_attachments message_id db =
    map to_part
      (sort (λ a b. leb a.id b.id) (filter (λ a. a.message_id == message_id) db.attachments))

abbrev pub with_message : Option AttachmentRow → Option (AttachmentPart × ℕ)
with_message none = none
with_message (some a) = some (to_part a, a.message_id)

-- The part, and the id of its message.
unfoldable pub get_attachment : ℕ → Db → Option (AttachmentPart × ℕ)
get_attachment id db = with_message (find? (λ a. a.id == id) db.attachments)

abbrev pub downloaded_to : ℕ → Text → AttachmentRow → AttachmentRow
downloaded_to id local_path a =
    if a.id == id then record a { local_path = local_path; downloaded = true } else a

unfoldable pub mark_attachment_downloaded : ℕ → Text → Db → Db
mark_attachment_downloaded id local_path db = record db {
  attachments = map (downloaded_to id local_path) db.attachments;
}
