-- ===== src/App/Reply.antt =====
-- internal/app/reply.go: the draft of a reply and of a forward. Formatting a date and quoting a
-- display name are calls of `time` and `net/mail`, and so arguments; a body of `none` is one that
-- could not be read.
pub mod Recipients
use nexus_mail.Base.{
  ℕ, Bool, true, false, ◌||◌, List, [], ◌∷◌, ◌++◌, map, Option, none, some, if◌then◌else◌, ◌==◌,
}
use nexus_mail.Base.Text.{Text, codes, Unicode, to_lower, has_text}
use nexus_mail.Base.Distinct.{first_by_key}
use nexus_mail.Model.{Address, Message}
use nexus_mail.Mime.Subject.{Stripped, reply_subject, forward_subject}
use nexus_mail.Mime.References.{is_empty, reply_references}
use nexus_mail.Mime.Quote.{quote, lf}
use nexus_mail.Store.Identities.{Identity, list_identities}

-- What the packages `time` and `net/mail` write.
pub record Writers : Type 0 where
  pub date : ℕ → Text
  pub address : Text → Text → Text

pub record Draft : Type 0 where
  pub account_id : ℕ
  pub to : Text
  pub cc : Text
  pub subject : Stripped
  pub in_reply_to : Text
  pub references : List Text
  pub quoted : Text

module _ (u : Unicode) where
  abbrev pub address_key : Address → Text
  address_key a = to_lower u a.addr

  -- The emails of the identities, lowered.
  unfoldable pub own_addresses : ℕ → List Identity → List Text
  own_addresses account_id rows = map (λ i. to_lower u i.email) (list_identities account_id rows)

  unfoldable pub address_set : List Address → List Text
  address_set addrs = map (λ a. to_lower u a.addr) addrs

  abbrev pub is_excluded : List (List Text) → Text → Bool
  is_excluded [] key = false
  is_excluded (set ∷ sets) key = has_text set key || is_excluded sets key

  -- The first address under each key that is not empty and not excluded.
  unfoldable pub without_addresses : List Address → List (List Text) → List Address
  unfolding first_by_key has_text
  without_addresses addrs exclude =
      first_by_key address_key
        (λ a. is_empty (address_key a) || is_excluded exclude (address_key a)) [] addrs

  unfoldable pub reply_targets : Message → List Address
  unfolding without_addresses
  reply_targets msg = elim msg.reply_to [
    | [] ↦ msg.from ∷ []
    | a ∷ addrs ↦ without_addresses (a ∷ addrs) []
  ]

  -- Who is on the Cc line.
  unfoldable pub reply_cc : ℕ → List Identity → Message → Bool → List Address
  unfolding without_addresses own_addresses address_set reply_targets
  reply_cc account_id rows msg all =
      if all
      then without_addresses (msg.to ++ msg.cc)
          (own_addresses account_id rows ∷ address_set (reply_targets msg) ∷ [])
      else []

-- model.Address.String.
unfoldable pub address_text : Writers → Address → Text
address_text w a =
    if is_empty a.addr then a.name else if is_empty a.name then a.addr else w.address a.name a.addr

unfoldable pub format_addresses : Writers → List Address → Text
unfolding address_text
format_addresses w [] = []
format_addresses w (a ∷ []) = address_text w a
format_addresses w (a ∷ b ∷ addrs) =
    address_text w a ++ (codes ", " ++ format_addresses w (b ∷ addrs))

abbrev body_or_empty : Option Text → Text
body_or_empty none = []
body_or_empty (some body) = body

-- A `date` of 0 is the zero time.
abbrev date_of : Message → Option ℕ
date_of msg = if msg.date == 0 then none else some msg.date

unfoldable pub reply_draft :
    Unicode → Writers → ℕ → List Identity → Message → Bool → Option Text → Draft
unfolding reply_targets reply_cc format_addresses
reply_draft u w account_id rows msg all body = record {
  account_id = account_id;
  to = format_addresses w (reply_targets u msg);
  cc = format_addresses w (reply_cc u account_id rows msg all);
  subject = reply_subject u msg.subject;
  in_reply_to = msg.message_id;
  references = reply_references msg.references msg.message_id;
  quoted = quote w.date (address_text w msg.from) (date_of msg) (body_or_empty body);
}

abbrev line_if_any : Text → Text → List Address → (List Address → Text) → Text
line_if_any label rest [] text = rest
line_if_any label rest (a ∷ addrs) text = label ++ (text (a ∷ addrs) ++ lf ∷ rest)

unfoldable pub forwarded_header : Writers → Message → Text
unfolding format_addresses
forwarded_header w msg =
    let text = format_addresses w in
    let reply_to = line_if_any (codes "Reply-To: ") [] msg.reply_to text in
    let cc = line_if_any (codes "Cc: ") reply_to msg.cc text in
    let to = line_if_any (codes "To: ") cc msg.to text in
    let subject = codes "Subject: " ++ (msg.subject ++ lf ∷ to) in
    let dated =
      if msg.date == 0 then subject else codes "Date: " ++ (w.date msg.date ++ lf ∷ subject) in
    codes "---------- Forwarded message ----------"
    ++ lf ∷ (codes "From: " ++ (address_text w msg.from ++ lf ∷ dated))

unfoldable pub forward_draft : Unicode → Writers → ℕ → Message → Option Text → Draft
unfolding forwarded_header
forward_draft u w account_id msg body = record {
  account_id = account_id;
  to = [];
  cc = [];
  subject = forward_subject u msg.subject;
  in_reply_to = [];
  references = [];
  quoted = forwarded_header w msg ++ lf ∷ body_or_empty body;
}
