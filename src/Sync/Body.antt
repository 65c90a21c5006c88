-- ===== src/Sync/Body.antt =====
-- internal/sync/body.go: the body of a message, fetched once, and the reads that keep nothing. The
-- connection is a parameter: each call may change it and may fail.
pub mod Cached
use nexus_mail.Base.{ℕ, Bool, true, false, ◌&&◌, List, [], ◌∷◌, Option, none, some, if◌then◌else◌}
use nexus_mail.Base.Text.{Text, codes}
use nexus_mail.Model.{Folder, Message, AttachmentPart}
use nexus_mail.Model.Errors.{Error, Result, ok, err, wrap, new_error}
use nexus_mail.Mime.References.{is_empty}
use nexus_mail.Store.{Db}
use nexus_mail.Store.Bodies.{get_message_body, set_message_body}

-- internal/imapx/backend.go: a message body in both forms.
pub record Body : Type 0 where
  pub html : Text
  pub text : Text

-- The calls of imapx.MailBackend that read one message.
pub record Mailbox : Type 1 where
  pub State : Type 0
  pub dial : ℕ → State → Result (Unit {0}) × State
  pub select : Text → State → Result (Unit {0}) × State
  pub fetch_body : ℕ → State → Result Body × State
  pub fetch_raw : ℕ → State → Result (List ℕ) × State
  pub fetch_part : ℕ → Text → Text → State → Result (List ℕ) × State

-- `fmt.Errorf("…: %w", err)` on the way out.
abbrev wrapped : {A : Type 0} → Text → Result A → Result A
wrapped said (ok a) = ok a
wrapped said (err e) = err (wrap said e)

module _ (mb : Mailbox) where
  abbrev after :
      {A B : Type 0} → Result A → (mb.State → Result B × mb.State) → mb.State → Result B × mb.State
  after (ok a) next w = next w
  after (err e) next w = (err e, w)

  -- What every read of this file does: connect, select the folder, then ask.
  unfoldable pub from_mailbox :
      {A : Type 0} → ℕ → Folder → (mb.State → Result A × mb.State) → mb.State → Result A × mb.State
  from_mailbox account_id folder ask w =
      let (dialled, w') = mb.dial account_id w in
      after (wrapped (codes "sync: connecting account: ") dialled)
        (λ v.
          let (chosen, v') = mb.select folder.path v in
          after (wrapped (codes "sync: selecting: ") chosen)
            (λ x. let (answer, x') = ask x in (wrapped (codes "sync: fetching: ") answer, x')) v')
        w'

  abbrev pub keep_body : Body → Db → mb.State → Option Db → Result Body × (Db × mb.State)
  keep_body body db w none = (err (new_error (codes "sync: caching body")), (db, w))
  keep_body body db w (some db') = (ok body, (db', w))

  -- The body that came is cached, and it is an error if that cannot be done.
  unfoldable pub cache_body : ℕ → Result Body × mb.State → Db → Result Body × (Db × mb.State)
  unfolding set_message_body
  cache_body message_id (err e, w) db = (err e, (db, w))
  cache_body message_id (ok body, w) db =
      keep_body body db w (set_message_body message_id body.html body.text db)

  unfoldable pub ensure_body : ℕ → Folder → Message → Db → mb.State → Result Body × (Db × mb.State)
  unfolding from_mailbox cache_body get_message_body
  ensure_body account_id folder msg db w =
      let (html, text) = get_message_body msg.id db in
      if is_empty html && is_empty text
      then cache_body msg.id (from_mailbox account_id folder (mb.fetch_body msg.uid) w) db
      else (ok (record { html = html; text = text }), (db, w))

  unfoldable pub fetch_raw_message : ℕ → Folder → Message → mb.State → Result (List ℕ) × mb.State
  unfolding from_mailbox
  fetch_raw_message account_id folder msg w =
      from_mailbox account_id folder (mb.fetch_raw msg.uid) w

  unfoldable pub fetch_attachment :
      ℕ → Folder → Message → AttachmentPart → mb.State → Result (List ℕ) × mb.State
  unfolding from_mailbox
  fetch_attachment account_id folder msg part w =
      from_mailbox account_id folder (mb.fetch_part msg.uid part.part_id part.encoding) w
