-- ===== src/App/Newmail.antt =====
-- internal/app/newmail.go: what the reader is told when mail arrives. Printing a number is a call of
-- `fmt`, and so an argument.
pub mod Told
use nexus_mail.Base.{
  ℕ, suc, ◌-◌, Bool, true, false, not, ◌&&◌, List, [], ◌∷◌, ◌++◌, Option, none, some, filter, find?,
  length, last_or, if◌then◌else◌, ◌==◌, ltb,
}
use nexus_mail.Base.Text.{Text, codes, Unicode}
use nexus_mail.Model.{Folder, Message}
use nexus_mail.Model.Flags.{has_flag, flag_seen, is_inbox}
use nexus_mail.Mime.References.{is_empty}
use nexus_mail.Store.{Db}
use nexus_mail.Store.Folders.{list_folders}
use nexus_mail.Store.Arrivals.{messages_after_id, highest_message_id}

pub record NewMailEvent : Type 0 where
  pub account_id : ℕ
  pub email : Text
  pub count : ℕ
  pub from : Text
  pub subject : Text

abbrev pub max_arrivals_per_pass : ℕ
max_arrivals_per_pass = 50

-- The map `arrivals`: an account and its watermark.
abbrev pub Marks : Type 0
Marks = List (ℕ × ℕ)

unfoldable pub arrival_watermark : ℕ → Marks → Option ℕ
arrival_watermark account_id [] = none
arrival_watermark account_id ((id, mark) ∷ marks) =
    if id == account_id then some mark else arrival_watermark account_id marks

unfoldable pub set_arrival_watermark : ℕ → ℕ → Marks → Marks
set_arrival_watermark account_id mark [] = (account_id, mark) ∷ []
set_arrival_watermark account_id mark ((id, old) ∷ marks) =
    if id == account_id
    then (id, mark) ∷ marks
    else (id, old) ∷ set_arrival_watermark account_id mark marks

unfoldable pub sender_label : Message → Text
sender_label m =
    if not (is_empty m.from.name)
    then m.from.name
    else if not (is_empty m.from.addr)
    then m.from.addr
    else codes "Unknown sender"

unfoldable pub inbox_of : Unicode → ℕ → Db → Option Folder
unfolding list_folders
inbox_of u account_id db = find? (is_inbox u) (list_folders u account_id db)

-- What the event says of the messages that are unread; `m` is the first of them.
unfoldable pub new_mail_event : Bool → ℕ → Text → Message → List Message → NewMailEvent
unfolding sender_label
new_mail_event preview account_id email m ms = record {
  account_id = account_id;
  email = email;
  count = length (m ∷ ms);
  from = if preview then sender_label (last_or m ms) else [];
  subject = if preview then (last_or m ms).subject else [];
}

unfoldable pub announce_unread : Bool → ℕ → Text → List Message → Option NewMailEvent
unfolding new_mail_event
announce_unread preview account_id email [] = none
announce_unread preview account_id email (m ∷ ms) =
    some (new_mail_event preview account_id email m ms)

unfoldable pub announce_arrived :
    Unicode → Bool → ℕ → Text → List Message → Marks → Marks × Option NewMailEvent
unfolding announce_unread set_arrival_watermark
announce_arrived u preview account_id email [] marks = (marks, none)
announce_arrived u preview account_id email (m ∷ ms) marks = (
  set_arrival_watermark account_id (last_or m ms).id marks,
  announce_unread preview account_id email (filter (λ x. not (has_flag u x flag_seen)) (m ∷ ms)),
)

-- The new watermarks, and the event that is emitted if one is.
unfoldable pub announce_new_mail :
    Unicode → Bool → ℕ → Text → Db → Marks → Marks × Option NewMailEvent
unfolding inbox_of announce_arrived arrival_watermark messages_after_id highest_message_id
announce_new_mail u preview account_id email db marks = elim (inbox_of u account_id db) [
  | none ↦ (marks, none)
  | some inbox ↦ elim (arrival_watermark account_id marks) [
    | none ↦ (set_arrival_watermark account_id (highest_message_id inbox.id db) marks, none)
    | some mark ↦
        announce_arrived u preview account_id email
          (messages_after_id inbox.id mark max_arrivals_per_pass db) marks
  ]
]

unfoldable pub notification_title : (ℕ → Text) → NewMailEvent → Text
notification_title itoa e =
    if not (is_empty e.from)
    then e.from
    else if e.count == 1
    then codes "1 new message"
    else itoa e.count ++ codes " new messages"

unfoldable pub notification_body : (ℕ → Text) → NewMailEvent → Text
notification_body itoa e =
    let subject =
      if is_empty e.subject && not (is_empty e.from) then codes "(no subject)" else e.subject in
    if is_empty subject
    then e.email
    else if ltb 1 e.count
    then subject ++ (codes " — and " ++ (itoa (e.count - 1) ++ codes " more"))
    else subject
