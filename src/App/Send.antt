-- ===== src/App/Send.antt =====
-- internal/app/send.go, with the checks and the recipients of mailmime/build.go: a message is
-- assembled, written to the outbox and queued. Parsing a list of addresses is a call of net/mail, and
-- writing the parts of a message one of go-message: both are arguments.
pub mod Accepted
pub mod Queued
use mathlib.Core.List.{reverse}
use nexus_mail.Base.{
  ℕ, Bool, true, false, List, [], ◌∷◌, ◌++◌, map, Option, none, some, find?, any, length,
  if◌then◌else◌, ◌==◌,
}
use nexus_mail.Base.Text.{Text, codes, Unicode, trim_space}
use nexus_mail.Base.Distinct.{first_by_key}
use nexus_mail.Model.{Address, Operation, OperationKind, send, pending}
use nexus_mail.Model.Errors.{Error, Result, ok, err, wrap, new_error, ◌>>=◌, ◌>>◌}
use nexus_mail.Mime.References.{is_empty}
use nexus_mail.Mime.Quote.{lf}
use nexus_mail.Store.{Db}
use nexus_mail.Store.Operations.{enqueue_operation}
use nexus_mail.Store.Identities.{Identity, list_identities, default_identity}
use nexus_mail.Store.Outbox.{Files, put, remove}

-- What the window hands over.
pub record Composed : Type 0 where
  pub identity_id : ℕ
  pub account_id : ℕ
  pub to : Text
  pub cc : Text
  pub bcc : Text
  pub subject : Text
  pub text : Text
  pub html : Text
  pub in_reply_to : Text
  pub references : List Text

pub record Attachment : Type 0 where
  pub filename : Text
  pub mime_type : Text
  pub content : List ℕ

-- A message as the writer left it. Its date and id are left to the builder.
pub record Outgoing : Type 0 where
  pub from : Address
  pub to : List Address
  pub cc : List Address
  pub bcc : List Address
  pub reply_to : List Address
  pub subject : Text
  pub text : Text
  pub html : Text
  pub attachments : List Attachment
  pub in_reply_to : Text
  pub references : List Text

-- `Draft.Recipients`.
unfoldable pub recipients : Outgoing → List Text
unfolding first_by_key
recipients d =
    map (λ (a : Address). a.addr)
      (first_by_key (λ a. a.addr) (λ a. is_empty a.addr) [] (d.to ++ (d.cc ++ d.bcc)))

abbrev pub no_recipients : List Text → Bool
no_recipients [] = true
no_recipients (r ∷ rs) = false

abbrev pub refuse_if : Bool → Text → Result (Unit {0})
refuse_if true said = err (new_error said)
refuse_if false said = ok tt

-- The checks of `Build`, and then what the builders write.
unfoldable pub build : (Outgoing → Result (List ℕ)) → Outgoing → Result (List ℕ)
unfolding recipients
build assemble d = do
  refuse_if (is_empty d.from.addr) (codes "mailmime: a message needs a sender")
  refuse_if (no_recipients (recipients d))
      (codes "mailmime: a message needs at least one recipient")
  refuse_if (any (λ (a : Attachment). is_empty a.filename) d.attachments)
      (codes "mailmime: an attachment needs a filename")
  assemble d

abbrev pub of_identity : Option Identity → Result Identity
of_identity none = err (new_error (codes "app: identity does not belong to account"))
of_identity (some i) = ok i

unfoldable pub identity_for : Composed → List Identity → Result Identity
unfolding list_identities default_identity
identity_for d identities =
    if d.identity_id == 0
    then (if d.account_id == 0
        then err (new_error (codes "app: a message needs an account to be sent from"))
        else default_identity d.account_id identities)
    else of_identity
        (find? (λ (i : Identity). i.id == d.identity_id) (list_identities d.account_id identities))

abbrev pub signature_separator : Text
signature_separator = codes "-- " ++ lf ∷ []

-- `strings.TrimRight(body, "\n")`, from the end.
unfoldable pub trim_newlines : Text → Text
trim_newlines [] = []
trim_newlines (c ∷ s) = if c == lf then trim_newlines s else c ∷ s

unfoldable pub html_escape : Text → Text
html_escape [] = []
html_escape (c ∷ s) =
    let rest = html_escape s in
    if c == b'&'
    then codes "&amp;" ++ rest
    else if c == b'<'
    then codes "&lt;" ++ rest
    else if c == b'>'
    then codes "&gt;" ++ rest
    else c ∷ rest

module _ (u : Unicode) where
  unfoldable pub with_signature : Text → Text → Text
  unfolding trim_space trim_newlines
  with_signature body signature =
      if is_empty (trim_space u signature)
      then body
      else reverse (trim_newlines (reverse body)) ++ lf ∷ lf ∷ (signature_separator ++ signature)

  unfoldable pub with_html_signature : Text → Text → Text → Text
  unfolding trim_space html_escape
  with_html_signature body html_signature text_signature =
      if is_empty (trim_space u html_signature)
      then (if is_empty (trim_space u text_signature)
          then body
          else body
            ++ lf
              ∷ (codes "<div class=\"nx-signature\"><pre>"
                  ++ (html_escape text_signature ++ (codes "</pre></div>" ++ lf ∷ []))))
      else body
        ++ lf
          ∷ (codes "<div class=\"nx-signature\">"
              ++ (html_signature ++ (codes "</div>" ++ lf ∷ [])))

  -- The draft of what was parsed.
  unfoldable pub draft_of :
      Composed → Identity → List Address → List Address → List Address → List Address → Outgoing
  unfolding with_signature with_html_signature
  draft_of d identity to cc bcc reply_to = record {
    from = record { name = identity.display_name; addr = identity.email };
    to = to;
    cc = cc;
    bcc = bcc;
    reply_to = reply_to;
    subject = d.subject;
    text = with_signature d.text identity.signature_text;
    html =
        if is_empty d.html
        then []
        else with_html_signature d.html identity.signature_html identity.signature_text;
    attachments = [];
    in_reply_to = d.in_reply_to;
    references = d.references;
  }

  module _ (parse : Text → Result (List Address)) where
    abbrev pub named : Text → Result (List Address) → Result (List Address)
    named field (ok addresses) = ok addresses
    named field (err e) = err (wrap (codes "app: the line is not a list of addresses: " ++ field) e)

    unfoldable pub parse_address_list : Text → Text → Result (List Address)
    unfolding trim_space
    parse_address_list field value =
        if is_empty (trim_space u value) then ok [] else named field (parse value)

    unfoldable pub draft_from_dto : Composed → Identity → Result Outgoing
    unfolding parse_address_list draft_of
    draft_from_dto d identity = do
      to ← parse_address_list (codes "To") d.to
      cc ← parse_address_list (codes "Cc") d.cc
      bcc ← parse_address_list (codes "Bcc") d.bcc
      reply_to ← parse_address_list (codes "Reply-To") identity.reply_to
      ok (draft_of d identity to cc bcc reply_to)

    -- What is settled before anything is written.
    unfoldable pub prepare :
        (Outgoing → Result (List ℕ))
        → Composed
        → List Identity
        → Result (Identity × Outgoing × List ℕ)
    unfolding identity_for draft_from_dto build
    prepare assemble d identities = do
      identity ← identity_for d identities
      draft ← draft_from_dto d identity
      raw ← build assemble draft
      ok (identity, draft, raw)

unfoldable pub queued_send : Identity → Outgoing → Text → Operation
unfolding recipients
queued_send identity draft name = record {
  id = 0;
  account_id = identity.account_id;
  folder_id = 0;
  uid_validity = 0;
  kind = send;
  state = pending;
  uids = [];
  flags = [];
  target_folder_id = 0;
  outbox = name;
  envelope_from = identity.email;
  envelope_to = recipients draft;
  attempts = 0;
  last_error = [];
  created_at = none;
  next_attempt_at = 0;
}

-- The state that a send reads and changes.
pub record Mailer : Type 0 where
  pub db : Db
  pub outbox : Option Files
  pub identities : List Identity

-- The id of the operation and the number of recipients.
abbrev pub Receipt : Type 0
Receipt = ℕ × ℕ

-- A refused row takes its file with it.
unfoldable pub after_enqueue : Text → ℕ → Files → Mailer → Result (ℕ × Db) → Result Receipt × Mailer
unfolding remove
after_enqueue name count files m (err e) = (err e, record m { outbox = some (remove name files).1 })
after_enqueue name count files m (ok (id, db)) =
    (ok (id, count), record m { db = db; outbox = some files })

unfoldable pub after_put :
    ℕ → Identity → Outgoing → Mailer → Result Text × Files → Result Receipt × Mailer
unfolding after_enqueue queued_send enqueue_operation recipients
after_put now identity draft m (err e, files) = (err e, record m { outbox = some files })
after_put now identity draft m (ok name, files) =
    after_enqueue name (length (recipients draft)) files m
      (enqueue_operation now (queued_send identity draft name) m.db)

unfoldable pub send_prepared :
    ℕ → Text → Files → Mailer → Result (Identity × Outgoing × List ℕ) → Result Receipt × Mailer
unfolding after_put put
send_prepared now hex files m (err e) = (err e, m)
send_prepared now hex files m (ok (identity, draft, raw)) =
    after_put now identity draft m (put hex raw files)

abbrev pub no_outbox : Error
no_outbox = new_error (codes "app: this build has nowhere to queue outgoing mail")

module _ (u : Unicode) (parse : Text → Result (List Address))
    (assemble : Outgoing → Result (List ℕ)) where
  unfoldable pub send_into : ℕ → Text → Composed → Mailer → Option Files → Result Receipt × Mailer
  unfolding send_prepared prepare
  send_into now hex d m none = (err no_outbox, m)
  send_into now hex d m (some files) =
      send_prepared now hex files m (prepare u parse assemble d m.identities)

  -- `hex` is what the random bytes of the file's name are encoded to.
  unfoldable pub send_message : ℕ → Text → Composed → Mailer → Result Receipt × Mailer
  unfolding send_into
  send_message now hex d m = send_into now hex d m m.outbox
