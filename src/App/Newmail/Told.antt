-- ===== src/App/Newmail/Told.antt =====
-- What a pass tells, and what it has told when it is over.
use nexus_mail.Base.{
  ℕ, ◌≤◌, Bool, false, not, List, [], ◌∷◌, ◌++◌, Option, none, some, filter, length, last_or,
  if◌then◌else◌, ◌==◌, ◌≡◌, refl, ap, ◌∙◌, arith, Option-cases, inl, inr, In,
}
use nexus_mail.Base.Text.{Text, codes, Unicode}
use nexus_mail.Model.{Folder, Message}
use nexus_mail.Model.Flags.{has_flag, flag_seen}
use nexus_mail.Store.{Db}
use nexus_mail.Store.Messages.Keys.{Keyed}
use nexus_mail.Store.Arrivals.{messages_after_id, highest_message_id}
use nexus_mail.Store.Arrivals.Window.{
  last_id, IsWindow, messages_after_id-IsWindow, Keyed-IdsDistinct, le-highest_message_id,
}
use nexus_mail.App.Newmail.{
  NewMailEvent, max_arrivals_per_pass, Marks, arrival_watermark, set_arrival_watermark, inbox_of,
  new_mail_event, announce_unread, announce_arrived, announce_new_mail, notification_title,
  notification_body,
}

watermark-set_watermark :
    (account_id mark : ℕ) (marks : Marks)
    → arrival_watermark account_id (set_arrival_watermark account_id mark marks) ≡ some mark
unfolding arrival_watermark set_arrival_watermark
watermark-set_watermark account_id mark [] = ground arith
watermark-set_watermark account_id mark ((id, old) ∷ marks) =
    ground (arith, watermark-set_watermark account_id mark marks)

abbrev pub count_of : Option NewMailEvent → ℕ
count_of none = 0
count_of (some e) = e.count

abbrev pub unseen : Unicode → Message → Bool
unseen u m = not (has_flag u m flag_seen)

-- A pass over the inbox `folder_id` from a watermark: the page that it read, the watermark behind
-- it, and how many messages were told.
pub record IsPass (u : Unicode) (account_id folder_id mark : ℕ) (db : Db) (marks : Marks)
    (told : Option NewMailEvent) : Type 0 where
  pub page : List Message
  pub window : IsWindow folder_id mark db.messages page
  pub advanced : arrival_watermark account_id marks ≡ some (last_id mark page)
  pub counted : count_of told ≡ length (filter (unseen u) page)

announce_unread-count :
    (preview : Bool) (account_id : ℕ) (email : Text) (ms : List Message)
    → count_of (announce_unread preview account_id email ms) ≡ length ms
unfolding announce_unread
announce_unread-count preview account_id email [] = refl
announce_unread-count preview account_id email (m ∷ ms) = refl

last_id-last_or : (m : Message) (ms : List Message) → (last_or m ms).id ≡ last_id m.id ms
last_id-last_or m [] = refl
last_id-last_or m (x ∷ ms) = last_id-last_or x ms

module _ (u : Unicode) (preview : Bool) (account_id : ℕ) (email : Text) (db : Db)
    (marks : Marks) where
  arrived-IsPass :
      (folder_id mark : ℕ) (page : List Message)
      → IsWindow folder_id mark db.messages page
      → arrival_watermark account_id marks ≡ some mark
      → IsPass u account_id folder_id mark db
          (announce_arrived u preview account_id email page marks).0
          (announce_arrived u preview account_id email page marks).1
  unfolding announce_arrived
  arrived-IsPass folder_id mark [] w known = record {
    page = [];
    window = w;
    advanced = known;
    counted = refl;
  }
  arrived-IsPass folder_id mark (m ∷ ms) w known = record {
    page = m ∷ ms;
    window = w;
    advanced =
        watermark-set_watermark account_id (last_or m ms).id marks ∙ ap some (last_id-last_or m ms);
    counted = announce_unread-count preview account_id email (filter (unseen u) (m ∷ ms));
  }

  pub announce_new_mail-IsPass :
      (inbox : Folder) (mark : ℕ)
      → Keyed db.messages
      → inbox_of u account_id db ≡ some inbox
      → arrival_watermark account_id marks ≡ some mark
      → IsPass u account_id inbox.id mark db
          (announce_new_mail u preview account_id email db marks).0
          (announce_new_mail u preview account_id email db marks).1
  unfolding announce_new_mail
  announce_new_mail-IsPass inbox mark keyed found known =
      rw (found, known, announce_new_mail)
        (arrived-IsPass inbox.id mark _
          (messages_after_id-IsWindow inbox.id mark max_arrivals_per_pass db
            (Keyed-IdsDistinct db.messages keyed))
          known)

  -- The first pass of an account tells nothing, and no message that the inbox holds lies above the
  -- watermark that it sets.
  pub announce_new_mail_first :
      (inbox : Folder)
      → inbox_of u account_id db ≡ some inbox
      → arrival_watermark account_id marks ≡ none
      → ((announce_new_mail u preview account_id email db marks).1 ≡ none)
        × (mark : ℕ) × (arrival_watermark account_id
              (announce_new_mail u preview account_id email db marks).0
            ≡ some mark)
        × ((m : Message) → In m db.messages → m.folder_id ≡ inbox.id → m.id ≤ mark)
  unfolding announce_new_mail
  announce_new_mail_first inbox found unknown =
      rw (found, unknown, announce_new_mail)
        (
          refl,
          highest_message_id inbox.id db,
          watermark-set_watermark account_id (highest_message_id inbox.id db) marks,
          λ m i f. le-highest_message_id inbox.id db m i f,
        )

-- An event that shows nothing of the messages.
abbrev IsWithheld : Text → NewMailEvent → Type 0
IsWithheld email e = (e.from ≡ []) × (e.subject ≡ []) × (e.email ≡ email)

module _ (u : Unicode) (account_id : ℕ) (email : Text) (e : NewMailEvent) where
  unread-IsWithheld :
      (ms : List Message) → announce_unread false account_id email ms ≡ some e → IsWithheld email e
  unfolding announce_unread new_mail_event
  unread-IsWithheld [] h = cc
  unread-IsWithheld (m ∷ ms) h = ground arith

  arrived-IsWithheld :
      (ms : List Message) (marks : Marks)
      → (announce_arrived u false account_id email ms marks).1 ≡ some e
      → IsWithheld email e
  unfolding announce_arrived
  arrived-IsWithheld [] marks h = cc
  arrived-IsWithheld (m ∷ ms) marks h = unread-IsWithheld (filter (unseen u) (m ∷ ms)) h

  announced-IsWithheld :
      (db : Db) (marks : Marks)
      → (announce_new_mail u false account_id email db marks).1 ≡ some e
      → IsWithheld email e
  unfolding announce_new_mail
  announced-IsWithheld db marks h = elim (Option-cases (inbox_of u account_id db)) [
    | inl gone ↦ cc (rw (gone, announce_new_mail) at h)
    | inr (inbox, found) ↦ elim (Option-cases (arrival_watermark account_id marks)) [
      | inl unknown ↦ cc (rw (found, unknown, announce_new_mail) at h)
      | inr (mark, known) ↦
          arrived-IsWithheld (messages_after_id inbox.id mark max_arrivals_per_pass db) marks
            (rw (found, known, announce_new_mail) at h)
    ]
  ]

-- With previews off a notification holds the number of the messages and the address of the account,
-- and nothing of the messages themselves.
pub announce_new_mail-withheld :
    (u : Unicode) (itoa : ℕ → Text) (account_id : ℕ) (email : Text) (db : Db) (marks : Marks)
    (e : NewMailEvent)
    → (announce_new_mail u false account_id email db marks).1 ≡ some e
    → (notification_title itoa e
        ≡ (if e.count == 1 then codes "1 new message" else itoa e.count ++ codes " new messages"))
      × (notification_body itoa e ≡ email)
unfolding notification_title notification_body
announce_new_mail-withheld u itoa account_id email db marks e h =
    let (f, s, m) = announced-IsWithheld u account_id email e db marks h in (rw f refl, rw (f, s) m)
