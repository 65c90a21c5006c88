-- ===== src/Examples/Data.antt =====
-- A small mailbox, its queue, and a server, for the runs.
use nexus_mail.Base.{ℕ, ◌+◌, true, false, List, [], ◌∷◌, none, some}
use nexus_mail.Base.Text.{Text, codes, ascii}
use nexus_mail.Model.{
  Folder, Message, Operation, OperationKind, OperationState, RetentionPolicy, pending, done, failed,
  add_flags, delete, send,
}
use nexus_mail.Model.Errors.{Result, ok}
use nexus_mail.Model.Flags.{flag_flagged, flag_seen}
use nexus_mail.Store.{Db, OperationRow}
use nexus_mail.Sync.{Outside, World, SelectResult}
use nexus_mail.Sync.Sqlite.{sqlite}

abbrev pub inbox : Folder
inbox = record {
  id = 1;
  account_id = 1;
  name = codes "INBOX";
  path = codes "INBOX";
  delimiter = codes "/";
  attributes = [];
  uid_validity = 7;
  uid_next = 40;
  highest_modseq = 0;
  total_count = 3;
  unread_count = 0;
  last_synced_at = 0;
}

abbrev pub archive : Folder
archive = record inbox { id = 2; name = codes "Archive"; path = codes "Archive"; uid_validity = 9 }

abbrev pub message : ℕ → ℕ → ℕ → ℕ → List Text → Message
message id folder_id uid date flags = record {
  id = id;
  account_id = 1;
  folder_id = folder_id;
  uid = uid;
  message_id = [];
  thread_id = [];
  in_reply_to = [];
  references = [];
  subject = [];
  from = record { name = []; addr = [] };
  to = [];
  cc = [];
  reply_to = [];
  date = date;
  internal_date = date;
  size = 0;
  snippet = [];
  flags = flags;
  has_attachments = false;
  attachments = [];
  body_fetched = false;
}

abbrev pub row : ℕ → OperationKind → OperationState → ℕ → ℕ → OperationRow
row id kind state created_at next_attempt_at = record {
  id = id;
  account_id = 1;
  folder_id = some 1;
  uid_validity = 7;
  kind = kind;
  payload = record {
    uids = 31 ∷ [];
    flags = flag_seen ∷ [];
    target_folder_id = 0;
    outbox = codes "a.eml";
    envelope_from = codes "a@example.org";
    envelope_to = codes "b@example.org" ∷ [];
  };
  state = state;
  attempts = 0;
  last_error = [];
  created_at = created_at;
  next_attempt_at = next_attempt_at;
}

-- Two folders, four messages, and a queue: a flag change, a deletion that is not due, a send, and
-- work that is finished.
abbrev pub mailbox : Db
mailbox = record {
  folders = inbox ∷ archive ∷ [];
  messages =
      message 1 1 31 100 []
      ∷ message 2 1 32 300 (flag_flagged ∷ [])
      ∷ message 3 1 33 200 (flag_seen ∷ [])
      ∷ message 4 2 31 100 []
      ∷ [];
  bodies = record { message_id = 1; html_body = []; text_body = codes "hi" } ∷ [];
  attachments = [];
  operations =
      row 1 delete done 10 0
      ∷ row 2 delete pending 12 5_000
      ∷ row 3 send pending 11 0
      ∷ row 4 add_flags pending 10 0
      ∷ row 5 delete failed 9 0
      ∷ [];
}

-- A change that is about to be queued.
abbrev pub flagging : Operation
flagging = record {
  id = 0;
  account_id = 1;
  folder_id = 1;
  uid_validity = 7;
  kind = add_flags;
  state = pending;
  uids = 32 ∷ [];
  flags = flag_seen ∷ [];
  target_folder_id = 0;
  outbox = [];
  envelope_from = [];
  envelope_to = [];
  attempts = 0;
  last_error = [];
  created_at = none;
  next_attempt_at = 0;
}

-- A message to submit.
abbrev pub sending : Operation
sending = record flagging {
  id = 3;
  folder_id = 0;
  kind = send;
  outbox = codes "a.eml";
  envelope_from = codes "a@example.org";
  envelope_to = codes "b@example.org" ∷ [];
}

-- One message at most, whatever its age.
abbrev pub keep_one : RetentionPolicy
keep_one = record { max_age = 0; max_messages = 1 }

-- A server that says yes; its state is the clock, in nanoseconds.
abbrev pub selection : SelectResult
selection = record { uid_validity = 7; uid_next = 40; num_messages = 3; highest_modseq = 0 }

abbrev accepts : ℕ → Result (Unit {0}) × ℕ
accepts s = (ok tt, s + 1)

abbrev pub server : Outside
server = record {
  State = ℕ;
  now = λ s. s;
  ctx_err = λ s. none;
  dial = λ account_id. accepts;
  close = λ s. s;
  capabilities = λ s. record { cond_store = false; idle = true };
  list_mailboxes = λ s. (ok (inbox ∷ []), s);
  select = λ path s. (ok selection, s);
  fetch_headers = λ range s. (ok [], s);
  fetch_flags = λ range since s. (ok [], s);
  command = λ c. accepts;
  append = λ path raw flags at. accepts;
  pause = accepts;
  idle = accepts;
  on_pass = λ s. s;
  jitter = λ s spread. 0;
  sleep = λ d s. s + d;
  has_sender = λ s. true;
  dial_sender = λ account_id. accepts;
  close_sender = λ s. s;
  send = λ e raw. accepts;
  outbox_get = λ name s. (ok (104 ∷ 105 ∷ []), s);
  outbox_remove = λ name. accepts;
}

abbrev pub world : World server (sqlite ascii)
world = record { outside = 100; db = mailbox; trace = [] }
