-- ===== src/Store/Bodies/Reread.antt =====
-- What is read back of the bodies.
use nexus_mail.Base.{
  ℕ, true, false, List, [], ◌∷◌, Option, none, some, map, find?, any, if◌then◌else◌, ◌==◌, ◌≡◌, ◌≢◌,
  refl, ap, arith, Bool-cases, inl, inr,
}
use nexus_mail.Base.Text.{Text}
use nexus_mail.Store.{Db, BodyRow}
use nexus_mail.Store.Bodies.{is_body_of, texts_of, upsert_body, set_message_body, get_message_body}

abbrev replaced : BodyRow → BodyRow → BodyRow
replaced row b = if is_body_of row.message_id b then row else b

find_replaced :
    (row : BodyRow) (bodies : List BodyRow)
    → any (is_body_of row.message_id) bodies ≡ true
    → find? (is_body_of row.message_id) (map (replaced row) bodies) ≡ some row
find_replaced row [] h = cc
find_replaced row (b ∷ bodies) h = ground (arith, find_replaced row bodies)

find-upsert_body :
    (row : BodyRow) (bodies : List BodyRow)
    → find? (is_body_of row.message_id) (upsert_body row bodies) ≡ some row
unfolding upsert_body
find-upsert_body row bodies = elim (Bool-cases (any (is_body_of row.message_id) bodies)) [
  | inl known ↦ rw known (find_replaced row bodies known)
  | inr new ↦ rw new (ground arith)
]

find_replaced_other :
    (row : BodyRow) (id : ℕ) (bodies : List BodyRow)
    → id ≢ row.message_id
    → find? (is_body_of id) (map (replaced row) bodies) ≡ find? (is_body_of id) bodies
find_replaced_other row id [] h = refl
find_replaced_other row id (b ∷ bodies) h = ground (arith, find_replaced_other row id bodies)

find-upsert_body_other :
    (row : BodyRow) (id : ℕ) (bodies : List BodyRow)
    → id ≢ row.message_id
    → find? (is_body_of id) (upsert_body row bodies) ≡ find? (is_body_of id) bodies
unfolding upsert_body
find-upsert_body_other row id bodies h =
    elim (Bool-cases (any (is_body_of row.message_id) bodies)) [
      | inl known ↦ rw known (find_replaced_other row id bodies h)
      | inr new ↦ rw new (ground arith)
    ]

-- What a write leaves: nothing without the message, and else its body among those of the others.
abbrev pub IsStored : ℕ → Text → Text → Db → Option Db → Type 0
IsStored message_id html text db none = any (λ m. m.id == message_id) db.messages ≡ false
IsStored message_id html text db (some db') =
    (any (λ m. m.id == message_id) db.messages ≡ true)
    × (get_message_body message_id db' ≡ (html, text))
    × ((id : ℕ) → id ≢ message_id → get_message_body id db' ≡ get_message_body id db)

-- A stored body is what is read back for the message, the bodies of the others stay, and nothing is
-- stored exactly if there is no such message.
pub get-set_message_body :
    (message_id : ℕ) (html text : Text) (db : Db)
    → IsStored message_id html text db (set_message_body message_id html text db)
unfolding set_message_body get_message_body
get-set_message_body message_id html text db =
    elim (Bool-cases (any (λ m. m.id == message_id) db.messages)) [
      | inl there ↦
          let row : BodyRow = record {
            message_id = message_id;
            html_body = html;
            text_body = text;
          } in
          rw there (
            there,
            ap texts_of (find-upsert_body row db.bodies),
            (λ id h. ap texts_of (find-upsert_body_other row id db.bodies h)),
          )
      | inr gone ↦ rw gone gone
    ]
