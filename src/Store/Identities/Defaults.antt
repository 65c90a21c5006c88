-- ===== src/Store/Identities/Defaults.antt =====
-- An account that has identities has exactly one default, whatever methods of
-- internal/store/identities.go are called.
use nexus_mail.Base.{
  ℕ, ◌+◌, ◌≤◌, false, ◌&&◌, List, [], ◌∷◌, ◌≡◌, ◌⊎◌, refl, filter, length, ◌==◌, arith,
}
use nexus_mail.Store.Identities.{Identity, count_identities, clear_default, mark_default}

-- The number of rows with an id, of defaults of an account, and of rows with both the id and account.
unfoldable pub times : ℕ → List Identity → ℕ
times id rows = length (filter (λ r. r.id == id) rows)

unfoldable pub defaults : ℕ → List Identity → ℕ
defaults account_id rows = length (filter (λ r. r.account_id == account_id && r.is_default) rows)

unfoldable pub owned : ℕ → ℕ → List Identity → ℕ
owned account_id id rows = length (filter (λ r. r.account_id == account_id && r.id == id) rows)

-- Ids are distinct, and an account has one default, or no identity at all.
pub record Settled (rows : List Identity) : Type 0 where
  pub unique : (id : ℕ) → times id rows ≤ 1
  pub one_default :
      (account_id : ℕ) → (count_identities account_id rows ≡ 0) ⊎ (defaults account_id rows ≡ 1)

pub times-clear : (a i : ℕ) (rows : List Identity) → times i (clear_default a rows) ≡ times i rows
unfolding times clear_default
times-clear a i [] = refl
times-clear a i (r ∷ rows) = ground (arith, times-clear a i rows)

pub times-mark : (j i : ℕ) (rows : List Identity) → times i (mark_default j rows) ≡ times i rows
unfolding times mark_default
times-mark j i [] = refl
times-mark j i (r ∷ rows) = ground (arith, times-mark j i rows)

pub count-clear :
    (a b : ℕ) (rows : List Identity)
    → count_identities b (clear_default a rows) ≡ count_identities b rows
unfolding count_identities clear_default
count-clear a b [] = refl
count-clear a b (r ∷ rows) = ground (arith, count-clear a b rows)

pub count-mark :
    (j b : ℕ) (rows : List Identity)
    → count_identities b (mark_default j rows) ≡ count_identities b rows
unfolding count_identities mark_default
count-mark j b [] = refl
count-mark j b (r ∷ rows) = ground (arith, count-mark j b rows)

pub defaults-clear : (a : ℕ) (rows : List Identity) → defaults a (clear_default a rows) ≡ 0
unfolding defaults clear_default
defaults-clear a [] = refl
defaults-clear a (r ∷ rows) = ground (arith, defaults-clear a rows)

pub defaults-clear_other :
    (a b : ℕ) (rows : List Identity)
    → (a == b) ≡ false
    → defaults b (clear_default a rows) ≡ defaults b rows
unfolding defaults clear_default
defaults-clear_other a b [] h = refl
defaults-clear_other a b (r ∷ rows) h = ground (arith, defaults-clear_other a b rows h)

pub owned-clear :
    (a b i : ℕ) (rows : List Identity) → owned b i (clear_default a rows) ≡ owned b i rows
unfolding owned clear_default
owned-clear a b i [] = refl
owned-clear a b i (r ∷ rows) = ground (arith, owned-clear a b i rows)

-- Marking an id adds a default to an account at most as often as the account has the id.
pub defaults-mark_none :
    (b i : ℕ) (rows : List Identity)
    → owned b i rows ≡ 0
    → defaults b (mark_default i rows) ≡ defaults b rows
unfolding defaults mark_default owned
defaults-mark_none b i [] h = refl
defaults-mark_none b i (r ∷ rows) h = ground (arith, defaults-mark_none b i rows, h)

pub defaults-mark_owned :
    (b i : ℕ) (rows : List Identity)
    → defaults b rows ≡ 0
    → defaults b (mark_default i rows) ≡ owned b i rows
unfolding defaults mark_default owned
defaults-mark_owned b i [] h = refl
defaults-mark_owned b i (r ∷ rows) h = ground (arith, defaults-mark_owned b i rows, h)

pub owned-le-times : (b i : ℕ) (rows : List Identity) → owned b i rows ≤ times i rows
unfolding owned times
owned-le-times b i [] = omega arith
owned-le-times b i (r ∷ rows) = ground (arith, owned-le-times b i rows)

pub owned-apart :
    (a b i : ℕ) (rows : List Identity)
    → (a == b) ≡ false
    → owned a i rows + owned b i rows ≤ times i rows
unfolding owned times
owned-apart a b i [] h = omega arith
owned-apart a b i (r ∷ rows) h = ground (arith, owned-apart a b i rows h)
