-- ===== src/Model.antt =====
-- internal/model/model.go: the data types that the layers share. The children model the roles of
-- mailboxes and the retention policy.
pub mod Errors
pub mod Roles
pub mod Flags
use nexus_mail.Base.{ℕ, Bool, true, false, List, Option}
use nexus_mail.Base.Text.{Text}

pub record Address : Type 0 where
  pub name : Text
  pub addr : Text

-- A mailbox. Times are seconds, and integers of the source are numbers.
pub record Folder : Type 0 where
  pub id : ℕ
  pub account_id : ℕ
  pub name : Text
  pub path : Text
  pub delimiter : Text
  pub attributes : List Text
  pub uid_validity : ℕ
  pub uid_next : ℕ
  pub highest_modseq : ℕ
  pub total_count : ℕ
  pub unread_count : ℕ
  pub last_synced_at : ℕ

pub record AttachmentPart : Type 0 where
  pub id : ℕ
  pub part_id : Text
  pub filename : Text
  pub mime_type : Text
  pub size : ℕ
  pub encoding : Text
  pub local_path : Text
  pub downloaded : Bool

pub record Message : Type 0 where
  pub id : ℕ
  pub account_id : ℕ
  pub folder_id : ℕ
  pub uid : ℕ
  pub message_id : Text
  pub thread_id : Text
  pub in_reply_to : Text
  pub references : List Text
  pub subject : Text
  pub from : Address
  pub to : List Address
  pub cc : List Address
  pub reply_to : List Address
  pub date : ℕ
  pub internal_date : ℕ
  pub size : ℕ
  pub snippet : Text
  pub flags : List Text
  pub has_attachments : Bool
  pub attachments : List AttachmentPart
  pub body_fetched : Bool

-- What an operation asks the server to do. The source's type is a string: `other` is one that
-- names no kind, the empty string included.
pub data OperationKind : Type 0 where
  add_flags remove_flags move delete empty_folder send : OperationKind
  other : Text → OperationKind

unfoldable pub acts_on_uids : OperationKind → Bool
acts_on_uids empty_folder = false
acts_on_uids send = false
acts_on_uids _ = true

unfoldable pub needs_folder : OperationKind → Bool
needs_folder send = false
needs_folder _ = true

pub data OperationState : Type 0 where
  pending done failed dropped : OperationState

unfoldable pub state_eq : OperationState → OperationState → Bool
state_eq pending pending = true
state_eq done done = true
state_eq failed failed = true
state_eq dropped dropped = true
state_eq _ _ = false

-- One change waiting to reach the server. `created_at` is `none` for the zero time; times are
-- nanoseconds since the epoch.
pub record Operation : Type 0 where
  pub id : ℕ
  pub account_id : ℕ
  pub folder_id : ℕ
  pub uid_validity : ℕ
  pub kind : OperationKind
  pub state : OperationState
  pub uids : List ℕ
  pub flags : List Text
  pub target_folder_id : ℕ
  pub outbox : Text
  pub envelope_from : Text
  pub envelope_to : List Text
  pub attempts : ℕ
  pub last_error : Text
  pub created_at : Option ℕ
  pub next_attempt_at : ℕ

-- Zero disables a limit. `max_age` is in nanoseconds.
pub record RetentionPolicy : Type 0 where
  pub max_age : ℕ
  pub max_messages : ℕ

pub record FlagUpdate : Type 0 where
  pub uid : ℕ
  pub flags : List Text
