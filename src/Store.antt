-- ===== src/Store.antt =====
-- internal/store over SQLite: the tables of internal/store/migrations as lists of rows, in rowid
-- order, and what every method builds on. The children model the files of the package.
--
-- A row id is what SQLite gives an INTEGER PRIMARY KEY: one more than the largest in the table. The
-- JSON that some columns hold is kept as the value that it encodes. Statements that fail for want
-- of a disk or of a row that a foreign key names are not modelled.
pub mod Operations
pub mod Folders
pub mod Messages
pub mod Delta
pub mod Deletions
pub mod Steps
pub mod Purge
pub mod Actions
pub mod Undo
pub mod Identities
pub mod Arrivals
pub mod Attachments
pub mod Bodies
pub mod Outbox
use nexus_mail.Base.{ℕ, ◌+◌, List, [], ◌∷◌, map, filter, not, Option, max, any, ◌==◌, Bool}
use nexus_mail.Base.Text.{Text}
use nexus_mail.Model.{Folder, Message, OperationKind, OperationState}

-- The column operations.payload.
pub record OpPayload : Type 0 where
  pub uids : List ℕ
  pub flags : List Text
  pub target_folder_id : ℕ
  pub outbox : Text
  pub envelope_from : Text
  pub envelope_to : List Text

-- A row of the table operations; `folder_id` is nullable.
pub record OperationRow : Type 0 where
  pub id : ℕ
  pub account_id : ℕ
  pub folder_id : Option ℕ
  pub uid_validity : ℕ
  pub kind : OperationKind
  pub payload : OpPayload
  pub state : OperationState
  pub attempts : ℕ
  pub last_error : Text
  pub created_at : ℕ
  pub next_attempt_at : ℕ

-- A row of the table attachments.
pub record AttachmentRow : Type 0 where
  pub id : ℕ
  pub message_id : ℕ
  pub part_id : Text
  pub filename : Text
  pub mime_type : Text
  pub size : ℕ
  pub local_path : Text
  pub downloaded : Bool

-- A row of the table message_bodies.
pub record BodyRow : Type 0 where
  pub message_id : ℕ
  pub html_body : Text
  pub text_body : Text

pub record Db : Type 0 where
  pub folders : List Folder
  pub messages : List Message
  pub bodies : List BodyRow
  pub attachments : List AttachmentRow
  pub operations : List OperationRow

-- The largest of a list of row ids.
unfoldable pub max_id : List ℕ → ℕ
max_id [] = 0
max_id (i ∷ ids) = max i (max_id ids)

-- The id that an insert gives.
unfoldable pub next_id : List ℕ → ℕ
unfolding max_id
next_id ids = max_id ids + 1

-- `x IN (…)`.
unfoldable pub is_in : List ℕ → ℕ → Bool
is_in ids x = any (λ i. i == x) ids

-- `DELETE FROM messages WHERE …`: the bodies and the attachments of the rows that go are deleted by
-- the cascades of the schema.
unfoldable pub delete_messages : (Message → Bool) → Db → Db
unfolding is_in
delete_messages p db =
    let gone = map (λ m. m.id) (filter p db.messages) in
    record db {
      messages = filter (λ m. not (p m)) db.messages;
      bodies = filter (λ b. not (is_in gone b.message_id)) db.bodies;
      attachments = filter (λ a. not (is_in gone a.message_id)) db.attachments;
    }
