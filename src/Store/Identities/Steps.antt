-- ===== src/Store/Identities/Steps.antt =====
-- The methods of internal/store/identities.go keep one default for each account.
use nexus_mail.Base.{
  ℕ, ◌+◌, ◌≤◌, ◌<◌, Bool, true, false, ◌&&◌, ◌||◌, List, [], ◌∷◌, ◌++◌, ◌≡◌, ◌⊎◌, refl, ap, subst,
  ◌∙◌, inl, inr, Option, none, some, map, find?, In, ◌==◌, ==_iff, arith, if◌then◌else◌, Bool-cases,
}
use nexus_mail.Model.Errors.{Result, ok, err}
use nexus_mail.Store.{next_id}
use nexus_mail.Store.Operations.{is_empty}
use nexus_mail.Store.Operations.Enqueue.{next_id-IsFresh}
use nexus_mail.Store.Identities.{
  Identity, count_identities, clear_default, mark_default, new_identity, add_identity,
  insert_identity, with_identity, no_identity, set_default_identity, edit_identity, update_identity,
  is_taken, address_taken, insert_row, update_row,
}
use nexus_mail.Store.Identities.Defaults.{
  times, defaults, owned, Settled, times-clear, times-mark, count-clear, count-mark, defaults-clear,
  defaults-clear_other, owned-clear, defaults-mark_none, defaults-mark_owned, owned-le-times,
  owned-apart,
}

-- A transaction that returns an error is rolled back.
abbrev pub after : Result (List Identity) → List Identity → List Identity
after (ok rows') rows = rows'
after (err e) rows = rows

abbrev pub after_insert : Result (ℕ × List Identity) → List Identity → List Identity
after_insert (ok (id, rows')) rows = rows'
after_insert (err e) rows = rows

pub owned-In : (r : Identity) (rows : List Identity) → In r rows → 1 ≤ owned r.account_id r.id rows
unfolding owned
owned-In r [] m = elim m [ ]
owned-In r (x ∷ rows) (inl e) = ground (arith, ap (λ q. q.id) e, ap (λ q. q.account_id) e)
owned-In r (x ∷ rows) (inr m) = ground (arith, owned-In r rows m)

pub In-find :
    (p : Identity → Bool) (rows : List Identity) (r : Identity)
    → find? p rows ≡ some r
    → In r rows × (p r ≡ true)
In-find p [] r h = ground (arith, h)
In-find p (x ∷ rows) r h = ground (arith, h, In-find p rows r)

-- The role of one account moves to a row that it owns.
move_default-Settled :
    (a i : ℕ) (rows : List Identity)
    → 1 ≤ owned a i rows
    → Settled rows
    → Settled (mark_default i (clear_default a rows))
move_default-Settled a i rows has s = record {
  unique =
      λ j. omega (arith, s.unique j, times-mark i j (clear_default a rows), times-clear a j rows);
  one_default = λ b. elim (Bool-cases (a == b)) [
    | inl same ↦
        let one : defaults a (mark_default i (clear_default a rows)) ≡ 1 = omega (
          arith,
          defaults-mark_owned a i (clear_default a rows) (defaults-clear a rows),
          owned-clear a a i rows,
          owned-le-times a i rows,
          s.unique i,
          has,
        ) in
        inr (
          subst (λ c. defaults c (mark_default i (clear_default a rows)) ≡ 1) ((==_iff a b).0 same)
            one)
    | inr other ↦ elim (s.one_default b) [
      | inl empty ↦ inl (count-mark i b (clear_default a rows) ∙ count-clear a b rows ∙ empty)
      | inr one ↦
          let no_row : owned b i (clear_default a rows) ≡ 0 =
            omega (arith, owned-clear a b i rows, owned-apart a b i rows other, s.unique i, has) in
          inr (
            defaults-mark_none b i (clear_default a rows) no_row
            ∙ defaults-clear_other a b rows other
            ∙ one)
    ]
  ];
}

pub with_identity-Settled :
    (f : Identity → List Identity → Result (List Identity)) (o : Option Identity)
    (rows : List Identity)
    → Settled rows
    → ((i : Identity) → o ≡ some i → Settled (after (f i rows) rows))
    → Settled (after (with_identity f o rows) rows)
unfolding with_identity no_identity
with_identity-Settled f none rows s k = s
with_identity-Settled f (some i) rows s k = k i refl

pub set_default_identity-Settled :
    (id : ℕ) (rows : List Identity)
    → Settled rows
    → Settled (after (set_default_identity id rows) rows)
unfolding set_default_identity
set_default_identity-Settled id rows s =
    with_identity-Settled _ (find? (λ r. r.id == id) rows) rows s λ i e.
      let (m, same) = In-find (λ r. r.id == id) rows i e in
      move_default-Settled i.account_id id rows
        (subst (λ j. 1 ≤ owned i.account_id j rows) ((==_iff i.id id).0 same) (owned-In i rows m)) s

times-edit :
    (i : Identity) (j : ℕ) (rows : List Identity) → times j (edit_identity i rows) ≡ times j rows
unfolding times edit_identity
times-edit i j [] = refl
times-edit i j (r ∷ rows) = ground (arith, times-edit i j rows)

count-edit :
    (i : Identity) (b : ℕ) (rows : List Identity)
    → count_identities b (edit_identity i rows) ≡ count_identities b rows
unfolding count_identities edit_identity
count-edit i b [] = refl
count-edit i b (r ∷ rows) = ground (arith, count-edit i b rows)

defaults-edit :
    (i : Identity) (b : ℕ) (rows : List Identity)
    → defaults b (edit_identity i rows) ≡ defaults b rows
unfolding defaults edit_identity
defaults-edit i b [] = refl
defaults-edit i b (r ∷ rows) = ground (arith, defaults-edit i b rows)

edit_identity-Settled :
    (i : Identity) (rows : List Identity) → Settled rows → Settled (edit_identity i rows)
edit_identity-Settled i rows s = record {
  unique = λ j. omega (arith, s.unique j, times-edit i j rows);
  one_default = λ b. elim (s.one_default b) [
    | inl empty ↦ inl (count-edit i b rows ∙ empty)
    | inr one ↦ inr (defaults-edit i b rows ∙ one)
  ];
}

update_row-Settled :
    (i r : Identity) (rows : List Identity)
    → Settled rows
    → Settled (after (update_row i r rows) rows)
unfolding update_row address_taken
update_row-Settled i r rows s = elim (Bool-cases (is_taken (record r { email = i.email }) rows)) [
  | inl taken ↦ rw taken s
  | inr free ↦ rw free (edit_identity-Settled i rows s)
]

pub update_identity-Settled :
    (i : Identity) (rows : List Identity)
    → Settled rows
    → Settled (after (update_identity i rows) rows)
unfolding update_identity
update_identity-Settled i rows s = elim (Bool-cases (is_empty i.email)) [
  | inl no_address ↦ rw no_address s
  | inr address ↦ rw address (
      with_identity-Settled (update_row i) (find? (λ r. r.id == i.id) rows) rows s
        (λ r e. update_row-Settled i r rows s))
]

times-append :
    (j : ℕ) (rows : List Identity) (n : Identity)
    → times j (rows ++ n ∷ []) ≡ times j rows + (if n.id == j then 1 else 0)
unfolding times
times-append j [] n = ground arith
times-append j (r ∷ rows) n = ground (arith, times-append j rows n)

count-append :
    (b : ℕ) (rows : List Identity) (n : Identity)
    → count_identities b (rows ++ n ∷ [])
      ≡ count_identities b rows + (if n.account_id == b then 1 else 0)
unfolding count_identities
count-append b [] n = ground arith
count-append b (r ∷ rows) n = ground (arith, count-append b rows n)

defaults-append :
    (b : ℕ) (rows : List Identity) (n : Identity)
    → defaults b (rows ++ n ∷ [])
      ≡ defaults b rows + (if n.account_id == b && n.is_default then 1 else 0)
unfolding defaults
defaults-append b [] n = ground arith
defaults-append b (r ∷ rows) n = ground (arith, defaults-append b rows n)

times-fresh :
    (j : ℕ) (rows : List Identity)
    → ((i : ℕ) → In i (map (λ r. r.id) rows) → i < j)
    → times j rows ≡ 0
unfolding times
times-fresh j [] h = refl
times-fresh j (r ∷ rows) h =
    let below = h r.id (inl refl) in ground (arith, below, times-fresh j rows (λ i m. h i (inr m)))

-- A new row of account `a` joins a table whose defaults of `a`, with its own, are one.
append-Settled :
    (rows : List Identity) (n : Identity)
    → ((j : ℕ) → times j rows ≤ 1)
    → times n.id rows ≡ 0
    → defaults n.account_id rows + (if n.is_default then 1 else 0) ≡ 1
    → ((b : ℕ)
        → (n.account_id == b) ≡ false
        → (count_identities b rows ≡ 0) ⊎ (defaults b rows ≡ 1))
    → Settled (rows ++ n ∷ [])
append-Settled rows n unique fresh one others = record {
  unique = λ j. elim (Bool-cases (n.id == j)) [
    | inl same ↦
        let none_has : times j rows ≡ 0 =
          subst (λ i. times i rows ≡ 0) ((==_iff n.id j).0 same) fresh in
        ground (arith, times-append j rows n, none_has, same)
    | inr other ↦ ground (arith, times-append j rows n, unique j, other)
  ];
  one_default = λ b. elim (Bool-cases (n.account_id == b)) [
    | inl same ↦
        let own : defaults b rows + (if n.is_default then 1 else 0) ≡ 1 =
          subst (λ a. defaults a rows + (if n.is_default then 1 else 0) ≡ 1)
            ((==_iff n.account_id b).0 same) one in
        inr (defaults-append b rows n ∙ rw same own)
    | inr other ↦ elim (others b other) [
      | inl empty ↦ inl (ground (arith, count-append b rows n, empty, other))
      | inr one_has ↦ inr (ground (arith, defaults-append b rows n, one_has, other))
    ]
  ];
}

-- A row that is refused leaves the table from before the transaction.
insert_row-Settled :
    (row : Identity) (cleared rows : List Identity)
    → Settled rows
    → Settled (cleared ++ row ∷ [])
    → Settled (after_insert (insert_row row cleared) rows)
unfolding insert_row address_taken
insert_row-Settled row cleared rows s k = elim (Bool-cases (is_taken row cleared)) [
  | inl taken ↦ rw taken s
  | inr free ↦ rw free k
]

add_identity-Settled :
    (now : ℕ) (i : Identity) (rows : List Identity)
    → Settled rows
    → Settled (after_insert (add_identity now i rows) rows)
unfolding add_identity new_identity
add_identity-Settled now i rows s =
    let a = i.account_id in
    let id = next_id (map (λ r. r.id) rows) in
    let absent = times-fresh id rows (next_id-IsFresh (map (λ r. r.id) rows)) in
    elim (Bool-cases (count_identities a rows == 0 || i.is_default)) [
      | inl default ↦ rw default (
          insert_row-Settled (new_identity id now true i) (clear_default a rows) rows s (
            append-Settled (clear_default a rows) (new_identity id now true i)
              (λ j. omega (arith, s.unique j, times-clear a j rows))
              (times-clear a id rows ∙ absent) (omega (arith, defaults-clear a rows))
              (λ b other. elim (s.one_default b) [
                | inl empty ↦ inl (count-clear a b rows ∙ empty)
                | inr one ↦ inr (defaults-clear_other a b rows other ∙ one)
              ])))
      | inr plain ↦
          let one : defaults a rows ≡ 1 = elim (s.one_default a) [
            | inl empty ↦ ground (arith, plain, empty)
            | inr one ↦ one
          ] in
          rw plain (
            insert_row-Settled (new_identity id now false i) rows rows s (
              append-Settled rows (new_identity id now false i) s.unique absent (omega (arith, one))
                (λ b other. s.one_default b)))
    ]

pub insert_identity-Settled :
    (now : ℕ) (i : Identity) (rows : List Identity)
    → Settled rows
    → Settled (after_insert (insert_identity now i rows) rows)
unfolding insert_identity
insert_identity-Settled now i rows s = elim (Bool-cases (is_empty i.email)) [
  | inl no_address ↦ rw no_address s
  | inr address ↦ rw address (add_identity-Settled now i rows s)
]
