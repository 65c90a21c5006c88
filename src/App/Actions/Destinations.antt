-- ===== src/App/Actions/Destinations.antt =====
-- Where a deletion sends each message of a selection.
use nexus_mail.Base.{
  ℕ, Bool, true, false, List, [], ◌∷◌, ◌++◌, append-nil, append_assoc, Option, none, some, filter,
  ◌==◌, if◌then◌else◌, ◌≡◌, refl, sym, ap, ◌∙◌, arith, Option-cases, Bool-cases, inl, inr,
}
use nexus_mail.Base.Text.{Unicode}
use nexus_mail.Model.{Folder}
use nexus_mail.Model.Roles.{role, is_trash}
use nexus_mail.Store.{Db}
use nexus_mail.App.Actions.{
  folder_of, trash_folder_id, add_to_trash, Split, send_to, split_loop, split_by_destination,
}

-- What becomes of a message: it is not there any more, it is destroyed, or it goes to a trash.
pub data Destination : Type 0 where
  gone destroyed : Destination
  to : ℕ → Destination

abbrev pub from_folder : Unicode → Db → Option Folder → Destination
from_folder u db none = gone
from_folder u db (some f) =
    if is_trash (role u f)
    then destroyed
    else if trash_folder_id u f.account_id db == 0
    then destroyed
    else to (trash_folder_id u f.account_id db)

-- In a trash, or where there is none, a deletion destroys.
abbrev pub destination : Unicode → Db → ℕ → Destination
destination u db id = from_folder u db (folder_of db id)

abbrev pub is_destroyed : Destination → Bool
is_destroyed destroyed = true
is_destroyed _ = false

abbrev pub is_to : ℕ → Destination → Bool
is_to t (to t') = t' == t
is_to t _ = false

-- The messages of one trash in the map.
abbrev pub ids_to : ℕ → List (ℕ × List ℕ) → List ℕ
ids_to t [] = []
ids_to t ((t', ids) ∷ rest) = if t' == t then ids else ids_to t rest

ids_to-add_to_trash :
    (t t' id : ℕ) (groups : List (ℕ × List ℕ))
    → ids_to t (add_to_trash t' id groups)
      ≡ (if t' == t then ids_to t groups ++ id ∷ [] else ids_to t groups)
unfolding add_to_trash
ids_to-add_to_trash t t' id [] = ground arith
ids_to-add_to_trash t t' id ((k, ids) ∷ groups) = ground (arith, ids_to-add_to_trash t t' id groups)

-- One message more.
abbrev placed : Destination → ℕ → Split → Split
placed gone id x = x
placed destroyed id x = record x { permanent = x.permanent ++ id ∷ [] }
placed (to t) id x = record x { to_trash = add_to_trash t id x.to_trash }

append_if :
    (before now : List ℕ) (b : Bool) (id : ℕ) (rest : List ℕ)
    → now ≡ before ++ (if b then id ∷ [] else [])
    → now ++ rest ≡ before ++ (if b then id ∷ rest else rest)
append_if before now true id rest e = ap (λ ys. ys ++ rest) e ∙ append_assoc before (id ∷ []) rest
append_if before now false id rest e =
    ap (λ ys. ys ++ rest) e ∙ ap (λ ys. ys ++ rest) (append-nil before)

module _ (u : Unicode) (db : Db) where
  split_loop-placed :
      (id : ℕ) (ids : List ℕ) (x : Split)
      → split_loop u db (id ∷ ids) x ≡ split_loop u db ids (placed (destination u db id) id x)
  unfolding split_loop send_to
  split_loop-placed id ids x = elim (Option-cases (folder_of db id)) [
    | inl absent ↦ rw (absent, split_loop) refl
    | inr (f, here) ↦ elim (Bool-cases (is_trash (role u f))) [
      | inl trash ↦ rw (here, split_loop) (rw trash refl)
      | inr other ↦ elim (Bool-cases (trash_folder_id u f.account_id db == 0)) [
        | inl without ↦ rw (here, split_loop) (rw (other, without) refl)
        | inr with_one ↦ rw (here, split_loop) (rw (other, with_one) refl)
      ]
    ]
  ]

  permanent-placed :
      (d : Destination) (id : ℕ) (x : Split)
      → (placed d id x).permanent ≡ x.permanent ++ (if is_destroyed d then id ∷ [] else [])
  permanent-placed gone id x = sym (append-nil x.permanent)
  permanent-placed destroyed id x = refl
  permanent-placed (to t) id x = sym (append-nil x.permanent)

  to_trash-placed :
      (t : ℕ) (d : Destination) (id : ℕ) (x : Split)
      → ids_to t (placed d id x).to_trash
        ≡ ids_to t x.to_trash ++ (if is_to t d then id ∷ [] else [])
  to_trash-placed t gone id x = sym (append-nil _)
  to_trash-placed t destroyed id x = sym (append-nil _)
  to_trash-placed t (to t') id x = elim (Bool-cases (t' == t)) [
    | inl same ↦ ids_to-add_to_trash t t' id x.to_trash ∙ rw same refl
    | inr other ↦ ids_to-add_to_trash t t' id x.to_trash ∙ rw other (sym (append-nil _))
  ]

  split_loop-filter :
      (ids : List ℕ) (x : Split)
      → ((split_loop u db ids x).permanent
          ≡ x.permanent ++ filter (λ id. is_destroyed (destination u db id)) ids)
        × ((t : ℕ)
            → ids_to t (split_loop u db ids x).to_trash
              ≡ ids_to t x.to_trash ++ filter (λ id. is_to t (destination u db id)) ids)
  split_loop-filter [] x =
      unfold split_loop in
      (sym (append-nil x.permanent), λ t. sym (append-nil (ids_to t x.to_trash)))
  split_loop-filter (id ∷ ids) x =
      let (permanent, trashes) = split_loop-filter ids (placed (destination u db id) id x) in
      (
        ap (λ y. y.permanent) (split_loop-placed id ids x)
            ∙ permanent
            ∙ append_if x.permanent _ (is_destroyed (destination u db id)) id _
                (permanent-placed (destination u db id) id x),
        λ t.
            ap (λ y. ids_to t y.to_trash) (split_loop-placed id ids x)
            ∙ trashes t
            ∙ append_if (ids_to t x.to_trash) _ (is_to t (destination u db id)) id _
                (to_trash-placed t (destination u db id) id x),
      )

pub split_by_destination-filter :
    (u : Unicode) (ids : List ℕ) (db : Db)
    → ((split_by_destination u ids db).permanent
        ≡ filter (λ id. is_destroyed (destination u db id)) ids)
      × ((t : ℕ)
          → ids_to t (split_by_destination u ids db).to_trash
            ≡ filter (λ id. is_to t (destination u db id)) ids)
unfolding split_by_destination
split_by_destination-filter u ids db =
    split_loop-filter u db ids (record { to_trash = []; permanent = [] })
