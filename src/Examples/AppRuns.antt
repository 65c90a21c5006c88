-- ===== src/Examples/AppRuns.antt =====
-- The theorems on the service at concrete inputs.
use nexus_mail.Base.{
  ℕ, true, false, List, [], ◌∷◌, ◌++◌, none, some, length, filter, refl, arith, ◌≡◌, ◌==◌,
  if◌then◌else◌, inl, inr,
}
use nexus_mail.Base.Text.{Text, codes, ascii, equal_fold, has_prefix}
use nexus_mail.Model.{Address, Message}
use nexus_mail.Model.Errors.{Result, ok, is_ok}
use nexus_mail.Model.Roles.{folder_rank, role}
use nexus_mail.Model.Flags.{is_inbox, has_flag}
use nexus_mail.Store.{is_in}
use nexus_mail.Store.Actions.{apply_move}
use nexus_mail.Store.Undo.{group_messages}
use nexus_mail.Store.Arrivals.{messages_after_id}
use nexus_mail.Store.Folders.{list_folders}
use nexus_mail.Store.Identities.{Identity, list_identities}
use nexus_mail.App.{Service, Moment, Undoable, move}
use nexus_mail.App.Undo.{is_none, undo_last_action}
use nexus_mail.App.Undo.Slots.{IsSlotted}
use nexus_mail.App.Undo.Back.{undo_last_action_late}
use nexus_mail.App.Actions.{move_messages, queue_ready_at, split_by_destination}
use nexus_mail.App.Actions.Undone.{
  queued_move, IsRestorable, IsTakenBack, undo_last_action-move_messages,
}
use nexus_mail.App.Actions.Slotted.{moved, undone, stay, call, Calls-IsSlotted}
use nexus_mail.App.Actions.Destinations.{
  destination, is_destroyed, is_to, ids_to, split_by_destination-filter,
}
use nexus_mail.App.Newmail.{
  NewMailEvent, Marks, inbox_of, announce_arrived, arrival_watermark, announce_new_mail,
  notification_title, notification_body,
}
use nexus_mail.App.Newmail.Told.{IsPass, announce_new_mail-IsPass, announce_new_mail-withheld}
use nexus_mail.App.Reply.{own_addresses, address_set, reply_targets, reply_cc}
use nexus_mail.App.Reply.Recipients.{IsReplyAll, reply_cc-IsReplyAll}
use nexus_mail.App.Send.{Composed, Outgoing, Mailer, prepare, send_message}
use nexus_mail.App.Send.Queued.{IsSent}
use nexus_mail.App.Send.Accepted.{is_accepted, send_message-queues}
use nexus_mail.Examples.Data.{mailbox, inbox, message}

abbrev service : Service
service = record { db = mailbox; undo = none; redo = none; window = 500; emitted = 0 }

abbrev at : ℕ → Moment
at now = record {
  now = now;
  clock = λ call i. now;
  order = λ call gs. gs;
  order' = λ call gs. gs;
  restored = λ gs. gs;
  trashes = λ gs. gs;
}

move_queues : is_none (queued_move (at 100) (1 ∷ 3 ∷ []) 2 service).0 ≡ false
unfolding queue_ready_at apply_move
move_queues = refl

move_IsRestorable :
    IsRestorable
      (at 400)
      (queued_move (at 100) (1 ∷ 3 ∷ []) 2 service).1.messages
      (filter (λ x. is_in (1 ∷ 3 ∷ []) x.id) mailbox.messages)
unfolding queue_ready_at apply_move is_in group_messages
move_IsRestorable = record {
  no_other = λ g i. i;
  all = λ g i. i;
  apart = ((refl, (refl, (refl, tt))), ((refl, (refl, tt)), ((refl, tt), (tt, tt))));
}

undo_last_action-move_messages_example :
    IsTakenBack
      (at 400)
      move
      2
      mailbox.operations
      (queued_move (at 100) (1 ∷ 3 ∷ []) 2 service).1.messages
      (filter (λ x. is_in (1 ∷ 3 ∷ []) x.id) mailbox.messages)
      (undo_last_action (at 400) (move_messages (at 100) (1 ∷ 3 ∷ []) 2 service))
undo_last_action-move_messages_example =
    undo_last_action-move_messages (at 100) (at 400) 1 (3 ∷ []) 2 service (omega arith)
      (omega arith) move_queues move_IsRestorable

-- An action whose one operation is due.
abbrev held : Undoable
held = record { kind = move; operation_ids = 4 ∷ []; snapshot = []; target = 2; expires = 600 }

abbrev holding : Service
holding = record service { undo = some held }

undo_last_action_late_example :
    undo_last_action (at 400) holding ≡ (false, record holding { undo = none })
unfolding is_in
undo_last_action_late_example =
    undo_last_action_late (at 400) held holding refl refl
      (inl refl, (inl refl, (inl refl, (inr (omega arith), (inl refl, tt)))))

service-IsSlotted : IsSlotted service
service-IsSlotted = record { one = inl refl; names = tt }

Calls-IsSlotted_example :
    IsSlotted (undo_last_action (at 400) (move_messages (at 100) (1 ∷ 4 ∷ []) 2 service)).1
Calls-IsSlotted_example =
    let s' = move_messages (at 100) (1 ∷ 4 ∷ []) 2 service in
    let s'' = (undo_last_action (at 400) s').1 in
    Calls-IsSlotted ascii
      (call service s' s'' (moved (at 100) (1 ∷ 4 ∷ []) 2 service)
        (call s' s'' s'' (undone (at 400) s') (stay s'')))
      service-IsSlotted

split_by_destination-filter_example :
    ((split_by_destination ascii (1 ∷ 9 ∷ 4 ∷ []) mailbox).permanent
      ≡ filter (λ id. is_destroyed (destination ascii mailbox id)) (1 ∷ 9 ∷ 4 ∷ []))
    × ((t : ℕ)
        → ids_to t (split_by_destination ascii (1 ∷ 9 ∷ 4 ∷ []) mailbox).to_trash
          ≡ filter (λ id. is_to t (destination ascii mailbox id)) (1 ∷ 9 ∷ 4 ∷ []))
split_by_destination-filter_example = split_by_destination-filter ascii (1 ∷ 9 ∷ 4 ∷ []) mailbox

-- The second message was told last; the third is read.
abbrev marks : Marks
marks = (1, 1) ∷ []

inbox_is : inbox_of ascii 1 mailbox ≡ some inbox
unfolding inbox_of list_folders folder_rank role is_inbox equal_fold has_prefix
inbox_is = refl

mark_is : arrival_watermark 1 marks ≡ some 1
unfolding arrival_watermark
mark_is = refl

announce_new_mail-IsPass_example :
    IsPass ascii 1 1 1 mailbox
      (announce_new_mail ascii true 1 (codes "a@b.org") mailbox marks).0
      (announce_new_mail ascii true 1 (codes "a@b.org") mailbox marks).1
announce_new_mail-IsPass_example =
    announce_new_mail-IsPass ascii true 1 (codes "a@b.org") mailbox marks inbox 1
      ((refl, (refl, (refl, tt))), ((refl, (refl, tt)), ((refl, tt), (tt, tt)))) inbox_is mark_is

abbrev told : NewMailEvent
told = record { account_id = 1; email = codes "a@b.org"; count = 1; from = []; subject = [] }

one_is_told : (announce_new_mail ascii false 1 (codes "a@b.org") mailbox marks).1 ≡ some told
unfolding announce_new_mail inbox_of list_folders messages_after_id announce_arrived folder_rank
    role is_inbox equal_fold has_prefix has_flag
one_is_told = refl

announce_new_mail-withheld_example :
    (notification_title (λ n. []) told
      ≡ (if told.count == 1 then codes "1 new message" else [] ++ codes " new messages"))
    × (notification_body (λ n. []) told ≡ codes "a@b.org")
announce_new_mail-withheld_example =
    announce_new_mail-withheld ascii (λ n. []) 1 (codes "a@b.org") mailbox marks told one_is_told

abbrev address : Text → Address
address addr = record { name = []; addr = addr }

abbrev shared : Message
shared = record (message 5 1 34 400 []) {
  from = address (codes "c@example.org");
  to = address (codes "A@example.org") ∷ address (codes "b@example.org") ∷ [];
  cc = address (codes "c@example.org") ∷ address (codes "B@example.org") ∷ [];
}

abbrev me : Identity
me = record {
  id = 1;
  account_id = 1;
  email = codes "a@example.org";
  display_name = [];
  reply_to = [];
  signature_text = [];
  signature_html = [];
  is_default = true;
  sort_order = 1;
  created_at = none;
}

reply_cc-IsReplyAll_example :
    IsReplyAll ascii
      (own_addresses ascii 1 (me ∷ []))
      (address_set ascii (reply_targets ascii shared))
      (shared.to ++ shared.cc)
      (reply_cc ascii 1 (me ∷ []) shared true)
reply_cc-IsReplyAll_example = reply_cc-IsReplyAll ascii 1 (me ∷ []) shared

-- One copy goes to the second address.
reply_cc_run : length (reply_cc ascii 1 (me ∷ []) shared true) ≡ 1
unfolding reply_cc list_identities
reply_cc_run = refl

abbrev mailer : Mailer
mailer = record {
  db = mailbox;
  outbox = some (record {
    entries = [];
    refuses_write = none;
    refuses_rename = none;
    refuses_list = none;
    refuses_remove = λ name. none;
  });
  identities = me ∷ [];
}

abbrev composed : Composed
composed = record {
  identity_id = 0;
  account_id = 1;
  to = codes "b@example.org";
  cc = [];
  bcc = [];
  subject = codes "hi";
  text = codes "hi";
  html = [];
  in_reply_to = [];
  references = [];
}

-- A list of addresses is one address, and a message is written as its text.
abbrev parse : Text → Result (List Address)
parse line = ok (address line ∷ [])

abbrev assemble : Outgoing → Result (List ℕ)
assemble d = ok d.text

send_message-queues_example :
    (is_ok (send_message ascii parse assemble 700 (codes "0a1b") composed mailer).0
      ≡ is_accepted (codes "0a1b") (prepare ascii parse assemble composed (me ∷ [])) mailer.outbox)
    × IsSent 700
        (prepare ascii parse assemble composed (me ∷ []))
        mailer
        (send_message ascii parse assemble 700 (codes "0a1b") composed mailer)
send_message-queues_example =
    send_message-queues ascii parse assemble 700 (codes "0a1b") composed mailer refl

-- The new operation has the next id, and one recipient.
send_message_run :
    (send_message ascii parse assemble 700 (codes "0a1b") composed mailer).0 ≡ ok (6, 1)
unfolding send_message
send_message_run = refl
