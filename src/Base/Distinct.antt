-- ===== src/Base/Distinct.antt =====
-- A pass over a list that keeps the first entry under each key: what a Go loop with a map `seen`
-- does.
use mathlib.Core.Path.{◌≡◌, refl, sym, subst}
use mathlib.Core.Logic.{◌⊎◌, inl, inr}
use mathlib.Core.Bool.{Bool, true, false, ◌||◌}
use mathlib.Core.List.{List, [], ◌∷◌, map}
use native.Mathlib.Omega.{arith}
use nexus_mail.Base.Tests.{Bool-cases}
use nexus_mail.Base.Lists.{In, All, All-map}
use nexus_mail.Base.Text.{Text, has_text, text_eq, text_eq_refl}

module _ {A : Type 0} (key : A → Text) (skip : A → Bool) where
  -- `seen` holds the keys of the entries that were kept.
  unfoldable pub first_by_key : List Text → List A → List A
  unfolding has_text
  first_by_key seen [] = []
  first_by_key seen (x ∷ xs) = elim (skip x || has_text seen (key x)) [
    | true ↦ first_by_key seen xs
    | false ↦ x ∷ first_by_key (key x ∷ seen) xs
  ]

-- No key comes twice.
abbrev pub HaveDistinct : {A : Type 0} → (A → Text) → List A → Type 0
HaveDistinct key [] = Unit
HaveDistinct key (x ∷ xs) = All (λ y. text_eq (key y) (key x) ≡ false) xs × HaveDistinct key xs

pub or-false : (a b : Bool) → (a || b) ≡ false → (a ≡ false) × (b ≡ false)
or-false a b h = ground arith

or-seen : (a b : Bool) → a ≡ false → (a || b) ≡ true → b ≡ true
or-seen a b h k = ground arith

regroup : (a b c : Bool) → ((a || b) ≡ true) ⊎ (c ≡ true) → (b ≡ true) ⊎ ((a || c) ≡ true)
regroup true b c h = inr refl
regroup false b c h = h

In-cons :
    {A : Type 0} (x : A) (xs ys : List A) (a : A)
    → (In a ys → In a xs)
    → In a (x ∷ ys)
    → In a (x ∷ xs)
In-cons x xs ys a f (inl e) = inl e
In-cons x xs ys a f (inr m) = inr (f m)

module _ {A : Type 0} (key : A → Text) (skip : A → Bool) where
  pub passes :
      (seen : List Text) (x : A) (xs : List A)
      → (skip x || has_text seen (key x)) ≡ true
      → first_by_key key skip seen (x ∷ xs) ≡ first_by_key key skip seen xs
  unfolding first_by_key
  passes seen x xs h = rw (h, first_by_key) refl

  pub keeps :
      (seen : List Text) (x : A) (xs : List A)
      → (skip x || has_text seen (key x)) ≡ false
      → first_by_key key skip seen (x ∷ xs) ≡ x ∷ first_by_key key skip (key x ∷ seen) xs
  unfolding first_by_key
  keeps seen x xs h = rw (h, first_by_key) refl

  -- What is kept was there, is not to be skipped and was not seen.
  pub first_by_key-kept :
      (seen : List Text) (xs : List A)
      → All
          (λ x. (skip x ≡ false) × (has_text seen (key x) ≡ false))
          (first_by_key key skip seen xs)
  unfolding first_by_key
  first_by_key-kept seen [] = tt
  first_by_key-kept seen (x ∷ xs) = elim (Bool-cases (skip x || has_text seen (key x))) [
    | inl old ↦ rw (passes seen x xs old) (first_by_key-kept seen xs)
    | inr new ↦ rw (keeps seen x xs new) (
      or-false (skip x) (has_text seen (key x)) new,
      All-map _ _ _
          (λ y h. (h.0, (or-false (text_eq (key y) (key x)) (has_text seen (key y)) h.1).1))
          (first_by_key-kept (key x ∷ seen) xs),
    )
  ]

  pub first_by_key-In :
      (seen : List Text) (xs : List A) (a : A) → In a (first_by_key key skip seen xs) → In a xs
  unfolding first_by_key
  first_by_key-In seen [] a m = m
  first_by_key-In seen (x ∷ xs) a m = elim (Bool-cases (skip x || has_text seen (key x))) [
    | inl old ↦ inr (first_by_key-In seen xs a (rw (passes seen x xs old) at m))
    | inr new ↦
        In-cons x xs _ a (first_by_key-In (key x ∷ seen) xs a) (rw (keeps seen x xs new) at m)
  ]

  pub first_by_key-HaveDistinct :
      (seen : List Text) (xs : List A) → HaveDistinct key (first_by_key key skip seen xs)
  unfolding first_by_key
  first_by_key-HaveDistinct seen [] = tt
  first_by_key-HaveDistinct seen (x ∷ xs) = elim (Bool-cases (skip x || has_text seen (key x))) [
    | inl old ↦ rw (passes seen x xs old) (first_by_key-HaveDistinct seen xs)
    | inr new ↦ rw (keeps seen x xs new) (
      All-map _ _ _ (λ y h. (or-false (text_eq (key y) (key x)) (has_text seen (key y)) h.1).0)
          (first_by_key-kept (key x ∷ seen) xs),
      first_by_key-HaveDistinct (key x ∷ seen) xs,
    )
  ]

  -- The key of every entry that is not to be skipped was seen or is kept.
  pub first_by_key_complete :
      (seen : List Text) (xs : List A) (a : A)
      → In a xs
      → skip a ≡ false
      → (has_text seen (key a) ≡ true)
        ⊎ (has_text (map key (first_by_key key skip seen xs)) (key a) ≡ true)
  unfolding first_by_key
  first_by_key_complete seen [] a m s = elim m [ ]
  first_by_key_complete seen (x ∷ xs) a (inl e) s =
      elim (Bool-cases (skip x || has_text seen (key x))) [
        | inl old ↦ inl (
            or-seen (skip a) _ s
              (subst (λ y. (skip y || has_text seen (key y)) ≡ true) (sym e) old))
        | inr new ↦ rw (keeps seen x xs new, e, text_eq_refl (key x)) (inr refl)
      ]
  first_by_key_complete seen (x ∷ xs) a (inr m) s =
      elim (Bool-cases (skip x || has_text seen (key x))) [
        | inl old ↦ rw (passes seen x xs old) (first_by_key_complete seen xs a m s)
        | inr new ↦
            rw (keeps seen x xs new) (
              regroup (text_eq (key a) (key x)) _ _ (first_by_key_complete (key x ∷ seen) xs a m s))
      ]
