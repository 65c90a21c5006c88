-- ===== src/Store/Identities/Removal.antt =====
-- DeleteIdentity of internal/store/identities.go hands the default over, and the theorem on all
-- methods of the file.
use nexus_mail.Base.{
  ℕ, ◌+◌, ◌≤◌, Bool, true, false, not, ◌&&◌, List, [], ◌∷◌, ◌≡◌, ◌⊎◌, refl, ap, subst, ◌∙◌, inl,
  inr, filter, find?, length, In, In-of_filter, leb, ◌==◌, ==_iff, arith, if◌then◌else◌, Bool-cases,
}
use nexus_mail.Base.Sorting.{sort, length-sort, In-of_sort}
use nexus_mail.Store.Identities.{
  Identity, count_identities, mark_default, insert_identity, set_default_identity, update_identity,
  first_placed, hand_over, remove_identity, delete_identity, placed_before,
}
use nexus_mail.Store.Identities.Defaults.{
  times, defaults, owned, Settled, times-mark, count-mark, defaults-mark_none, defaults-mark_owned,
  owned-le-times, owned-apart,
}
use nexus_mail.Store.Identities.Steps.{
  after, after_insert, owned-In, In-find, with_identity-Settled, insert_identity-Settled,
  set_default_identity-Settled, update_identity-Settled,
}

abbrev left : ℕ → List Identity → List Identity
left j rows = filter (λ r. not (r.id == j)) rows

-- The rows of an account with an id whose default is as given.
unfoldable marked : Bool → ℕ → ℕ → List Identity → ℕ
marked d b j rows = length (
    filter (λ r. r.account_id == b && ((if d then r.is_default else not r.is_default) && r.id == j))
      rows)

times-left : (k j : ℕ) (rows : List Identity) → times k (left j rows) ≤ times k rows
unfolding times
times-left k j [] = omega arith
times-left k j (r ∷ rows) = ground (arith, times-left k j rows)

count-left :
    (b j : ℕ) (rows : List Identity)
    → count_identities b (left j rows) + owned b j rows ≡ count_identities b rows
unfolding count_identities owned
count-left b j [] = refl
count-left b j (r ∷ rows) = ground (arith, count-left b j rows)

defaults-left :
    (b j : ℕ) (rows : List Identity)
    → defaults b (left j rows) + marked true b j rows ≡ defaults b rows
unfolding defaults marked
defaults-left b j [] = refl
defaults-left b j (r ∷ rows) = ground (arith, defaults-left b j rows)

owned-marked :
    (b j : ℕ) (rows : List Identity) → marked true b j rows + marked false b j rows ≡ owned b j rows
unfolding owned marked
owned-marked b j [] = refl
owned-marked b j (r ∷ rows) = ground (arith, owned-marked b j rows)

marked-In :
    (r : Identity) (rows : List Identity)
    → In r rows
    → 1 ≤ marked r.is_default r.account_id r.id rows
unfolding marked
marked-In r [] m = elim m [ ]
marked-In r (x ∷ rows) (inl e) =
    ground (arith, ap (λ q. q.id) e, ap (λ q. q.account_id) e, ap (λ q. q.is_default) e)
marked-In r (x ∷ rows) (inr m) = ground (arith, marked-In r rows m)

-- All accounts but one have their default.
abbrev OthersSettled : ℕ → List Identity → Type 0
OthersSettled a rows =
    (b : ℕ) → (a == b) ≡ false → (count_identities b rows ≡ 0) ⊎ (defaults b rows ≡ 1)

Settled-but :
    (a : ℕ) (rows : List Identity)
    → ((j : ℕ) → times j rows ≤ 1)
    → defaults a rows ≡ 1
    → OthersSettled a rows
    → Settled rows
Settled-but a rows unique one others = record {
  unique = unique;
  one_default = λ b. elim (Bool-cases (a == b)) [
    | inl same ↦ inr (subst (λ c. defaults c rows ≡ 1) ((==_iff a b).0 same) one)
    | inr other ↦ others b other
  ];
}

hand_over-Settled :
    (a : ℕ) (xs rows : List Identity)
    → 1 ≤ length xs
    → ((n : Identity) → In n xs → 1 ≤ owned a n.id rows)
    → ((j : ℕ) → times j rows ≤ 1)
    → defaults a rows ≡ 0
    → OthersSettled a rows
    → Settled (hand_over (first_placed xs) rows)
unfolding hand_over first_placed
hand_over-Settled a [] rows some_is has unique none_is others = ground arith
hand_over-Settled a (n ∷ xs) rows some_is has unique none_is others =
    let own = has n (inl refl) in
    Settled-but a (mark_default n.id rows) (λ j. omega (arith, unique j, times-mark n.id j rows))
      (omega (
        arith,
        defaults-mark_owned a n.id rows none_is,
        owned-le-times a n.id rows,
        unique n.id,
        own,
      ))
      λ b other. elim (others b other) [
        | inl empty ↦ inl (count-mark n.id b rows ∙ empty)
        | inr one ↦
            let no_row : owned b n.id rows ≡ 0 =
              omega (arith, owned-apart a b n.id rows other, unique n.id, own) in
            inr (defaults-mark_none b n.id rows no_row ∙ one)
      ]

module _ (i : Identity) (rows : List Identity) (m : In i rows) (s : Settled rows) where
  others-left : OthersSettled i.account_id (left i.id rows)
  others-left b other =
      let no_row : owned b i.id rows ≡ 0 =
        omega
          (arith, owned-apart i.account_id b i.id rows other, owned-In i rows m, s.unique i.id) in
      elim (s.one_default b) [
        | inl empty ↦ inl (omega (arith, count-left b i.id rows, empty))
        | inr one ↦
            inr (omega (arith, defaults-left b i.id rows, owned-marked b i.id rows, no_row, one))
      ]

  unique-left : (j : ℕ) → times j (left i.id rows) ≤ 1
  unique-left j = omega (arith, s.unique j, times-left j i.id rows)

  one-default : defaults i.account_id rows ≡ 1
  one-default = elim (s.one_default i.account_id) [
    | inl empty ↦ omega (arith, empty, count-left i.account_id i.id rows, owned-In i rows m)
    | inr one ↦ one
  ]

  next_has :
      (n : Identity)
      → In n (sort placed_before (filter (λ r. r.account_id == i.account_id) (left i.id rows)))
      → 1 ≤ owned i.account_id n.id (left i.id rows)
  next_has n k =
      let (there, same) =
        In-of_filter (λ r. r.account_id == i.account_id) (left i.id rows) n
          (In-of_sort placed_before (filter (λ r. r.account_id == i.account_id) (left i.id rows)) n
            k) in
      subst (λ a. 1 ≤ owned a n.id (left i.id rows)) ((==_iff n.account_id i.account_id).0 same)
        (owned-In n (left i.id rows) there)

  left_count :
      leb (count_identities i.account_id rows) 1 ≡ false
      → 1 ≤ count_identities i.account_id (left i.id rows)
  left_count more = ground (
    arith,
    more,
    count-left i.account_id i.id rows,
    owned-le-times i.account_id i.id rows,
    s.unique i.id,
  )

  left-Settled : i.is_default ≡ false → Settled (left i.id rows)
  left-Settled plain =
      let other : 1 ≤ marked false i.account_id i.id rows =
        subst (λ d. 1 ≤ marked d i.account_id i.id rows) plain (marked-In i rows m) in
      Settled-but i.account_id (left i.id rows) unique-left
        (omega (
          arith,
          one-default,
          defaults-left i.account_id i.id rows,
          owned-marked i.account_id i.id rows,
          owned-le-times i.account_id i.id rows,
          s.unique i.id,
          other,
        ))
        others-left

  handed_over-Settled :
      i.is_default ≡ true
      → leb (count_identities i.account_id rows) 1 ≡ false
      → Settled (
          hand_over
            (first_placed
              (sort placed_before (filter (λ r. r.account_id == i.account_id) (left i.id rows))))
            (left i.id rows))
  unfolding count_identities
  handed_over-Settled default more =
      let own : 1 ≤ marked true i.account_id i.id rows =
        subst (λ d. 1 ≤ marked d i.account_id i.id rows) default (marked-In i rows m) in
      let rest = filter (λ r. r.account_id == i.account_id) (left i.id rows) in
      hand_over-Settled i.account_id (sort placed_before rest) (left i.id rows)
        (omega (arith, length-sort placed_before rest, left_count more)) next_has unique-left
        (omega (arith, one-default, defaults-left i.account_id i.id rows, own)) others-left

  remove_identity-Settled : Settled (after (remove_identity i rows) rows)
  unfolding remove_identity
  remove_identity-Settled = elim (Bool-cases (leb (count_identities i.account_id rows) 1)) [
    | inl last ↦ rw last s
    | inr more ↦ elim (Bool-cases i.is_default) [
      | inl default ↦ rw (more, default) (handed_over-Settled default more)
      | inr plain ↦ rw (more, plain) (left-Settled plain)
    ]
  ]

delete_identity-Settled :
    (id : ℕ) (rows : List Identity) → Settled rows → Settled (after (delete_identity id rows) rows)
unfolding delete_identity
delete_identity-Settled id rows s =
    with_identity-Settled remove_identity (find? (λ r. r.id == id) rows) rows s
      (λ i e. remove_identity-Settled i rows (In-find (λ r. r.id == id) rows i e).0 s)

-- Adding, editing and deleting an identity, and moving the default, each keep the ids distinct and
-- exactly one default in every account that has an identity, whether the call succeeds or is
-- rolled back, as it is when the address is taken.
pub identities-Settled :
    (rows : List Identity) (now id : ℕ) (i : Identity)
    → Settled rows
    → Settled (after_insert (insert_identity now i rows) rows)
      × Settled (after (set_default_identity id rows) rows)
      × Settled (after (update_identity i rows) rows)
      × Settled (after (delete_identity id rows) rows)
identities-Settled rows now id i s = (
  insert_identity-Settled now i rows s,
  set_default_identity-Settled id rows s,
  update_identity-Settled i rows s,
  delete_identity-Settled id rows s,
)
