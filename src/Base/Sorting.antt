-- ===== src/Base/Sorting.antt =====
-- A stable insertion sort by a Boolean order: what `ORDER BY` and `sort.SliceStable` do.
use Prim.Native.Nat.{ℕ, zero, suc}
use mathlib.Core.Path.{◌≡◌, refl, ap, sym}
use mathlib.Core.Logic.{◌⊎◌, inl, inr}
use mathlib.Core.Bool.{Bool, true, false}
use mathlib.Core.List.{List, [], ◌∷◌}
use native.Mathlib.Omega.{arith}
use nexus_mail.Base.Tests.{if◌then◌else◌, Bool-cases}
use nexus_mail.Base.Lists.{In, All, All-In, All-map, All-take, length, take, filter, All-filter}

module _ {ℓ} {A : Type ℓ} (before : A → A → Bool) where
  -- `x` goes behind every entry that is not after it.
  unfoldable pub insert : A → List A → List A
  insert x [] = x ∷ []
  insert x (y ∷ ys) = if before x y then x ∷ y ∷ ys else y ∷ insert x ys

  -- Inserting from the end keeps entries that are level in their order: `before x y` says that
  -- `x`, which stood first, may stay first.
  unfoldable pub sort : List A → List A
  unfolding insert
  sort [] = []
  sort (x ∷ xs) = insert x (sort xs)

  -- Each entry may stand before all that follow it.
  abbrev pub Sorted : List A → Type 0
  Sorted [] = Unit
  Sorted (x ∷ xs) = All (λ y. before x y ≡ true) xs × Sorted xs

module _ {ℓ} {A : Type ℓ} (before : A → A → Bool) where
  pub All-insert {κ} :
      (P : A → Type κ) (x : A) (ys : List A) → P x → All P ys → All P (insert before x ys)
  unfolding insert
  All-insert P x [] px h = (px, tt)
  All-insert P x (y ∷ ys) px h = ground (arith, All-insert P x ys px h.1)

  pub All-sort {κ} : (P : A → Type κ) (xs : List A) → All P xs → All P (sort before xs)
  unfolding sort
  All-sort P [] h = tt
  All-sort P (x ∷ xs) h = All-insert P x (sort before xs) h.0 (All-sort P xs h.1)

module _ {A : Type 0} (before : A → A → Bool) where
  pub In-insert : (x : A) (ys : List A) (a : A) → In a (x ∷ ys) → In a (insert before x ys)
  unfolding insert
  In-insert x [] a m = m
  In-insert x (y ∷ ys) a (inl e) = ground (arith, In-insert x ys a (inl e))
  In-insert x (y ∷ ys) a (inr (inl e)) = ground arith
  In-insert x (y ∷ ys) a (inr (inr m)) = ground (arith, In-insert x ys a (inr m))

  pub In-of_insert : (x : A) (ys : List A) (a : A) → In a (insert before x ys) → In a (x ∷ ys)
  unfolding insert
  In-of_insert x [] a m = m
  In-of_insert x (y ∷ ys) a m = ground (arith, In-of_insert x ys a)

  pub In-sort : (xs : List A) (a : A) → In a xs → In a (sort before xs)
  unfolding sort
  In-sort [] a m = m
  In-sort (x ∷ xs) a (inl e) = In-insert x (sort before xs) a (inl e)
  In-sort (x ∷ xs) a (inr m) = In-insert x (sort before xs) a (inr (In-sort xs a m))

  pub In-of_sort : (xs : List A) (a : A) → In a (sort before xs) → In a xs
  unfolding sort
  In-of_sort [] a m = m
  In-of_sort (x ∷ xs) a m = ground (arith, In-of_insert x (sort before xs) a m, In-of_sort xs a)

  pub length-insert : (x : A) (ys : List A) → length (insert before x ys) ≡ suc (length ys)
  unfolding insert
  length-insert x [] = refl
  length-insert x (y ∷ ys) = ground (arith, length-insert x ys)

  pub length-sort : (xs : List A) → length (sort before xs) ≡ length xs
  unfolding sort
  length-sort [] = refl
  length-sort (x ∷ xs) = omega (arith, length-insert x (sort before xs), length-sort xs)

  -- Every entry that a page leaves out stands behind a full page of entries before it.
  pub In-take :
      (n : ℕ) (xs : List A) (a : A)
      → Sorted before xs
      → In a xs
      → In a (take n xs) ⊎ ((length (take n xs) ≡ n) × All (λ c. before c a ≡ true) (take n xs))
  In-take zero xs a s m = inr (refl, tt)
  In-take (suc n) [] a s m = elim m [ ]
  In-take (suc n) (x ∷ xs) a s (inl e) = inl (inl e)
  In-take (suc n) (x ∷ xs) a s (inr m) = elim (In-take n xs a s.1 m) [
    | inl found ↦ inl (inr found)
    | inr (full, all) ↦ inr (ap suc full, (All-In (λ c. before x c ≡ true) xs s.0 a m, all))
  ]

  pub Sorted-take : (n : ℕ) (xs : List A) → Sorted before xs → Sorted before (take n xs)
  Sorted-take zero xs s = tt
  Sorted-take (suc n) [] s = tt
  Sorted-take (suc n) (x ∷ xs) s =
      (All-take (λ y. before x y ≡ true) n xs s.0, Sorted-take n xs s.1)

-- A total and transitive order sorts.
module _ {A : Type 0} (before : A → A → Bool)
    (total : (x y : A) → before x y ≡ false → before y x ≡ true)
    (trans : (x y z : A) → before x y ≡ true → before y z ≡ true → before x z ≡ true) where
  Sorted-insert : (x : A) (ys : List A) → Sorted before ys → Sorted before (insert before x ys)
  unfolding insert
  Sorted-insert x [] s = (tt, tt)
  Sorted-insert x (y ∷ ys) s = elim (Bool-cases (before x y)) [
    | inl first ↦ rw first ((first, All-map _ _ ys (λ z h. trans x y z first h) s.0), s)
    | inr later ↦ rw later (
      All-insert before (λ z. before y z ≡ true) x ys (total x y later) s.0,
      Sorted-insert x ys s.1,
    )
  ]

  pub Sorted-sort : (xs : List A) → Sorted before (sort before xs)
  unfolding sort
  Sorted-sort [] = tt
  Sorted-sort (x ∷ xs) = Sorted-insert x (sort before xs) (Sorted-sort xs)

  -- What a filter keeps of a sorted list, it keeps in that order.
  insert-front :
      (x : A) (ys : List A) → All (λ y. before x y ≡ true) ys → insert before x ys ≡ x ∷ ys
  unfolding insert
  insert-front x [] h = refl
  insert-front x (y ∷ ys) h = rw h.0 refl

  filter-insert :
      (p : A → Bool) (x : A) (ys : List A)
      → Sorted before ys
      → filter p (insert before x ys) ≡ (if p x then insert before x (filter p ys) else filter p ys)
  unfolding insert
  filter-insert p x [] s = refl
  filter-insert p x (y ∷ ys) s = elim (Bool-cases (before x y)) [
    | inl first ↦
        let front : All (λ z. before x z ≡ true) (y ∷ ys) =
          (first, All-map _ _ ys (λ z h. trans x y z first h) s.0) in
        rw first (
          ap (λ zs. if p x then zs else filter p (y ∷ ys))
            (sym (insert-front x (filter p (y ∷ ys)) (All-filter _ p (y ∷ ys) front))))
    | inr later ↦ rw later (ground (arith, filter-insert p x ys s.1))
  ]

  pub filter-sort :
      (p : A → Bool) (xs : List A) → filter p (sort before xs) ≡ sort before (filter p xs)
  unfolding sort
  filter-sort p [] = refl
  filter-sort p (x ∷ xs) =
      let sorted = filter-insert p x (sort before xs) (Sorted-sort xs) in
      ground (arith, sorted, filter-sort p xs)
