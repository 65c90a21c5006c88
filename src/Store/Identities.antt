-- ===== src/Store/Identities.antt =====
-- internal/store/identities.go: the addresses that an account can send as. The table is its own
-- list of rows. Positions in the picker are numbers from 0.
pub mod Defaults
pub mod Steps
pub mod Removal
use nexus_mail.Base.{
  ℕ, Bool, true, false, not, ◌&&◌, ◌||◌, List, [], ◌∷◌, ◌++◌, Option, none, some, map, filter,
  find?, any, length, ltb, leb, ◌==◌, if◌then◌else◌,
}
use nexus_mail.Base.Sorting.{sort}
use nexus_mail.Base.Text.{Text, codes, text_eq}
use nexus_mail.Model.Errors.{Result, ok, err, new_error}
use nexus_mail.Store.{next_id}
use nexus_mail.Store.Operations.{is_empty, or_now}

-- `created_at` is `none` for the zero time.
pub record Identity : Type 0 where
  pub id : ℕ
  pub account_id : ℕ
  pub email : Text
  pub display_name : Text
  pub reply_to : Text
  pub signature_text : Text
  pub signature_html : Text
  pub is_default : Bool
  pub sort_order : ℕ
  pub created_at : Option ℕ

-- `SELECT count(*) FROM identities WHERE account_id = ?`.
unfoldable pub count_identities : ℕ → List Identity → ℕ
count_identities account_id rows = length (filter (λ r. r.account_id == account_id) rows)

-- `UPDATE identities SET is_default = 0 WHERE account_id = ?`.
unfoldable pub clear_default : ℕ → List Identity → List Identity
clear_default account_id =
    map {A = Identity}
      (λ r. if r.account_id == account_id then record r { is_default = false } else r)

-- `UPDATE identities SET is_default = 1 WHERE id = ?`.
unfoldable pub mark_default : ℕ → List Identity → List Identity
mark_default id = map {A = Identity} (λ r. if r.id == id then record r { is_default = true } else r)

-- The row that an insert writes, with the default decided.
unfoldable pub new_identity : ℕ → ℕ → Bool → Identity → Identity
new_identity id now default i = record i {
  id = id;
  is_default = default;
  created_at = some (or_now i.created_at now);
}

-- `UNIQUE(account_id, email)`: another row of the account has the address.
unfoldable pub is_taken : Identity → List Identity → Bool
unfolding text_eq
is_taken i rows =
    any (λ r. not (r.id == i.id) && (r.account_id == i.account_id && text_eq r.email i.email)) rows

unfoldable pub address_taken {κ} : {T : Type κ} → Result T
address_taken =
    err
      (new_error (codes "store: UNIQUE constraint failed: identities.account_id, identities.email"))

-- `INSERT INTO identities`, given the row.
unfoldable pub insert_row : Identity → List Identity → Result (ℕ × List Identity)
unfolding is_taken address_taken
insert_row row rows = if is_taken row rows then address_taken else ok (row.id, rows ++ row ∷ [])

-- The table with the row, which is the default if it is asked for or is the first of its account. An
-- address that is taken refuses the row when the old default is cleared already; the error gives no
-- table, and so the transaction leaves the one before it.
unfoldable pub add_identity : ℕ → Identity → List Identity → Result (ℕ × List Identity)
unfolding count_identities clear_default new_identity next_id insert_row
add_identity now i rows =
    let default = count_identities i.account_id rows == 0 || i.is_default in
    let id = next_id (map (λ r. r.id) rows) in
    insert_row (new_identity id now default i)
      (if default then clear_default i.account_id rows else rows)

unfoldable pub insert_identity : ℕ → Identity → List Identity → Result (ℕ × List Identity)
unfolding is_empty add_identity
insert_identity now i rows =
    if is_empty i.email
    then err (new_error (codes "store: an identity needs an address"))
    else add_identity now i rows

-- `ORDER BY is_default DESC, sort_order, id`, and the order without the default.
unfoldable pub placed_before : Identity → Identity → Bool
placed_before a b = ltb a.sort_order b.sort_order || (a.sort_order == b.sort_order && leb a.id b.id)

unfoldable pub shown_before : Identity → Identity → Bool
unfolding placed_before
shown_before a b =
    if a.is_default
    then not b.is_default || placed_before a b
    else not b.is_default && placed_before a b

unfoldable pub list_identities : ℕ → List Identity → List Identity
unfolding shown_before sort
list_identities account_id rows = sort shown_before (filter (λ r. r.account_id == account_id) rows)

unfoldable pub default_identity : ℕ → List Identity → Result Identity
default_identity account_id rows =
    elim (find? (λ r. r.account_id == account_id && r.is_default) rows) [
      | some i ↦ ok i
      | none ↦ err (new_error (codes "store: account has no default identity"))
    ]

unfoldable pub no_identity : Result (List Identity)
no_identity = err (new_error (codes "store: no identity"))

-- What a method makes of the row that it reads first.
unfoldable pub with_identity :
    (Identity → List Identity → Result (List Identity))
    → Option Identity
    → List Identity
    → Result (List Identity)
unfolding no_identity
with_identity f none rows = no_identity
with_identity f (some i) rows = f i rows

unfoldable pub set_default_identity : ℕ → List Identity → Result (List Identity)
unfolding with_identity clear_default mark_default
set_default_identity id rows =
    with_identity (λ i rs. ok (mark_default id (clear_default i.account_id rs)))
      (find? (λ r. r.id == id) rows) rows

-- Everything but the account and whether it is the default.
unfoldable pub edit_identity : Identity → List Identity → List Identity
edit_identity i = map {A = Identity} (λ r.
    if r.id == i.id
    then record r {
      email = i.email;
      display_name = i.display_name;
      reply_to = i.reply_to;
      signature_text = i.signature_text;
      signature_html = i.signature_html;
      sort_order = i.sort_order;
    }
    else r)

-- `UPDATE identities SET email = ?, …`, given the row that has the id.
unfoldable pub update_row : Identity → Identity → List Identity → Result (List Identity)
unfolding is_taken address_taken edit_identity
update_row i r rows =
    if is_taken (record r { email = i.email }) rows
    then address_taken
    else ok (edit_identity i rows)

unfoldable pub update_identity : Identity → List Identity → Result (List Identity)
unfolding is_empty update_row with_identity
update_identity i rows =
    if is_empty i.email
    then err (new_error (codes "store: an identity needs an address"))
    else with_identity (update_row i) (find? (λ r. r.id == i.id) rows) rows

-- `SELECT id FROM identities WHERE account_id = ? ORDER BY sort_order, id LIMIT 1`.
unfoldable pub first_placed : List Identity → Option Identity
first_placed [] = none
first_placed (i ∷ is) = some i

-- The role goes to the next in the order that the user chose.
unfoldable pub hand_over : Option Identity → List Identity → List Identity
unfolding mark_default
hand_over none rows = rows
hand_over (some next) rows = mark_default next.id rows

unfoldable pub remove_identity : Identity → List Identity → Result (List Identity)
unfolding count_identities hand_over first_placed placed_before sort
remove_identity i rows =
    let left = filter (λ r. not (r.id == i.id)) rows in
    let next =
      first_placed (sort placed_before (filter (λ r. r.account_id == i.account_id) left)) in
    if leb (count_identities i.account_id rows) 1
    then err (new_error (codes "store: an account with no identity cannot send"))
    else ok (if i.is_default then hand_over next left else left)

unfoldable pub delete_identity : ℕ → List Identity → Result (List Identity)
unfolding with_identity remove_identity
delete_identity id rows = with_identity remove_identity (find? (λ r. r.id == id) rows) rows
