-- ===== src/Store/Bodies.antt =====
-- internal/store/bodies.go: the bodies that were fetched.
pub mod Reread
use nexus_mail.Base.{
  ℕ, Bool, true, List, [], ◌∷◌, Option, none, some, map, find?, any, if◌then◌else◌, ◌==◌,
}
use nexus_mail.Base.Text.{Text}
use nexus_mail.Model.{Message}
use nexus_mail.Store.{Db, BodyRow}

abbrev pub is_body_of : ℕ → BodyRow → Bool
is_body_of message_id b = b.message_id == message_id

-- `INSERT … ON CONFLICT(message_id) DO UPDATE`.
unfoldable pub upsert_body : BodyRow → List BodyRow → List BodyRow
upsert_body row bodies =
    if any (is_body_of row.message_id) bodies
    then map (λ b. if is_body_of row.message_id b then row else b) bodies
    else row ∷ bodies

unfoldable pub mark_fetched : ℕ → Message → Message
mark_fetched message_id m = if m.id == message_id then record m { body_fetched = true } else m

-- The foreign key lets no body in whose message is gone: the insertion fails, and the transaction is
-- rolled back.
unfoldable pub set_message_body : ℕ → Text → Text → Db → Option Db
unfolding upsert_body mark_fetched
set_message_body message_id html text db =
    if any (λ m. m.id == message_id) db.messages
    then some (record db {
      bodies =
          upsert_body (record { message_id = message_id; html_body = html; text_body = text })
            db.bodies;
      messages = map (mark_fetched message_id) db.messages;
    })
    else none

-- Both texts are empty where there is no row.
abbrev pub texts_of : Option BodyRow → Text × Text
texts_of none = ([], [])
texts_of (some b) = (b.html_body, b.text_body)

unfoldable pub get_message_body : ℕ → Db → Text × Text
get_message_body message_id db = texts_of (find? (is_body_of message_id) db.bodies)
