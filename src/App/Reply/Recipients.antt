-- ===== src/App/Reply/Recipients.antt =====
-- Who an answer goes to.
use nexus_mail.Base.{
  ℕ, Bool, true, false, ◌||◌, List, [], ◌∷◌, ◌++◌, map, ◌≡◌, refl, ◌⊎◌, inl, inr, All, All-map, In,
}
use nexus_mail.Base.Text.{Text, Unicode, has_text}
use nexus_mail.Base.Distinct.{
  HaveDistinct, or-false, first_by_key-kept, first_by_key-In, first_by_key-HaveDistinct,
  first_by_key_complete,
}
use nexus_mail.Model.{Address, Message}
use nexus_mail.Mime.References.{is_empty}
use nexus_mail.Store.Identities.{Identity}
use nexus_mail.App.Reply.{
  address_key, own_addresses, address_set, is_excluded, without_addresses, reply_targets, reply_cc,
}

module _ (u : Unicode) where
  -- An address that is to stand on a Cc line: it is not empty, and neither in `mine` nor in `to`,
  -- whatever the case of its letters.
  abbrev pub IsOther : List Text → List Text → Address → Type 0
  IsOther mine to a =
      (is_empty (address_key u a) ≡ false)
      × (has_text mine (address_key u a) ≡ false)
      × (has_text to (address_key u a) ≡ false)

  skip_other :
      (mine to : List Text) (a : Address)
      → IsOther mine to a
      → (is_empty (address_key u a) || is_excluded u (mine ∷ to ∷ []) (address_key u a)) ≡ false
  skip_other mine to a (e, m, t) = rw (e, m, t) refl

  IsOther-skip :
      (mine to : List Text) (a : Address)
      → (is_empty (address_key u a) || is_excluded u (mine ∷ to ∷ []) (address_key u a)) ≡ false
      → IsOther mine to a
  IsOther-skip mine to a h =
      let (e, rest) = or-false (is_empty (address_key u a)) _ h in
      let (m, rest') = or-false (has_text mine (address_key u a)) _ rest in
      let (t, _) = or-false (has_text to (address_key u a)) false rest' in (e, m, t)

  pub record IsReplyAll (mine to : List Text) (given cc : List Address) : Type 0 where
    pub others : All (IsOther mine to) cc
    pub given_only : (a : Address) → In a cc → In a given
    pub once : HaveDistinct (address_key u) cc
    pub complete :
        (a : Address)
        → In a given
        → IsOther mine to a
        → has_text (map (address_key u) cc) (address_key u a) ≡ true

  seen_nothing : {b : Bool} (k : Text) → (has_text [] k ≡ true) ⊎ (b ≡ true) → b ≡ true
  unfolding has_text
  seen_nothing k (inl h) = cc
  seen_nothing k (inr h) = h

  pub reply_cc-IsReplyAll :
      (account_id : ℕ) (rows : List Identity) (msg : Message)
      → IsReplyAll
          (own_addresses u account_id rows)
          (address_set u (reply_targets u msg))
          (msg.to ++ msg.cc)
          (reply_cc u account_id rows msg true)
  unfolding reply_cc without_addresses
  reply_cc-IsReplyAll account_id rows msg =
      let mine = own_addresses u account_id rows in
      let to = address_set u (reply_targets u msg) in
      let given : List Address = msg.to ++ msg.cc in
      let skip : Address → Bool =
        λ a. is_empty (address_key u a) || is_excluded u (mine ∷ to ∷ []) (address_key u a) in
      record {
        others =
            All-map _ _ _ (λ a h. IsOther-skip mine to a h.0)
              (first_by_key-kept (address_key u) skip [] given);
        given_only = first_by_key-In (address_key u) skip [] given;
        once = first_by_key-HaveDistinct (address_key u) skip [] given;
        complete = λ a m o.
            seen_nothing (address_key u a)
              (first_by_key_complete (address_key u) skip [] given a m (skip_other mine to a o));
      }
