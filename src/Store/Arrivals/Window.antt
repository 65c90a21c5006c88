-- ===== src/Store/Arrivals/Window.antt =====
-- What lies between two watermarks.
use nexus_mail.Base.{
  ℕ, zero, suc, ◌≤◌, ◌<◌, max, Bool, true, false, List, [], ◌∷◌, map, filter, take, leb, ◌==◌, ◌≡◌,
  refl, sym, ◌∙◌, subst, ◌⊎◌, inl, inr, arith, In, All, All-In, All-take, All-map, All-filter_self,
  In-filter, In-of_filter, ap,
}
use nexus_mail.Base.Sorting.{
  sort, Sorted, Sorted-take, Sorted-sort, All-sort, In-sort, In-of_sort, In-take,
}
use nexus_mail.Model.{Message}
use nexus_mail.Store.{Db, max_id}
use nexus_mail.Store.Messages.Keys.{Keyed, clash}
use nexus_mail.Store.Arrivals.{is_after, id_before, messages_after_id, highest_message_id}

-- The id of the last row of a page, or the mark if the page is empty.
abbrev pub last_id : ℕ → List Message → ℕ
last_id mark [] = mark
last_id mark (m ∷ ms) = last_id m.id ms

id_before_total : (a b : Message) → id_before a b ≡ false → id_before b a ≡ true
unfolding id_before
id_before_total a b h = ground arith

id_before_trans :
    (a b c : Message) → id_before a b ≡ true → id_before b c ≡ true → id_before a c ≡ true
unfolding id_before
id_before_trans a b c h k = ground arith

-- A sorted page lies below its last id.
le-last_id :
    (mark : ℕ) (ms : List Message)
    → Sorted id_before ms
    → All (λ m. mark ≤ m.id) ms
    → (mark ≤ last_id mark ms) × All (λ m. m.id ≤ last_id mark ms) ms
unfolding id_before
le-last_id mark [] s h = (omega arith, tt)
le-last_id mark (m ∷ ms) s h =
    let (first, rest) = le-last_id m.id ms s.1 (All-map _ _ ms (λ x t. ge x t) s.0) in
    (omega arith, (first, rest))
  where
    ge : (x : Message) → leb m.id x.id ≡ true → m.id ≤ x.id
    ge x t = ground arith

-- The last id is that of a row, if there is one.
last_id-In :
    (mark : ℕ) (ms : List Message)
    → (last_id mark ms ≡ mark) ⊎ ((m : Message) × In m ms × (m.id ≡ last_id mark ms))
last_id-In mark [] = inl refl
last_id-In mark (m ∷ ms) = elim (last_id-In m.id ms) [
  | inl e ↦ inr (m, inl refl, sym e)
  | inr (x, i, e) ↦ inr (x, inr i, e)
]

-- Rows of one id are one row.
abbrev pub IdsDistinct : List Message → Type 0
IdsDistinct [] = Unit
IdsDistinct (m ∷ ms) = All (λ x. (m.id == x.id) ≡ false) ms × IdsDistinct ms

pub Keyed-IdsDistinct : (ms : List Message) → Keyed ms → IdsDistinct ms
Keyed-IdsDistinct [] k = tt
Keyed-IdsDistinct (m ∷ ms) k = (All-map _ _ ms (λ x h. other_id x h) k.0, Keyed-IdsDistinct ms k.1)
  where
    other_id : (x : Message) → clash m x ≡ false → (m.id == x.id) ≡ false
    other_id x h = ground arith

apart : (i j : ℕ) → i ≡ j → (i == j) ≡ false → ⊥
apart i j e h = ground arith

In-same_id :
    (ms : List Message) (a b : Message) → IdsDistinct ms → In a ms → In b ms → a.id ≡ b.id → a ≡ b
In-same_id [] a b d i j h = elim i [ ]
In-same_id (m ∷ ms) a b d (inl e) (inl f) h = e ∙ sym f
In-same_id (m ∷ ms) a b d (inl e) (inr j) h = absurd (
    apart m.id b.id (ap (λ (x : Message). x.id) (sym e) ∙ h)
      (All-In (λ x. (m.id == x.id) ≡ false) ms d.0 b j))
In-same_id (m ∷ ms) a b d (inr i) (inl f) h = absurd (
    apart m.id a.id (ap (λ (x : Message). x.id) (sym f) ∙ sym h)
      (All-In (λ x. (m.id == x.id) ≡ false) ms d.0 a i))
In-same_id (m ∷ ms) a b d (inr i) (inr j) h = In-same_id ms a b d.1 i j h

-- A page above a mark reaches up to its last id: all of its rows lie above the mark and up to that
-- id, and every row of the folder that does is on the page.
pub record IsWindow (folder_id mark : ℕ) (rows page : List Message) : Type 0 where
  pub grows : mark ≤ last_id mark page
  pub inside :
      All (λ m. (m.folder_id ≡ folder_id) × (mark < m.id) × (m.id ≤ last_id mark page)) page
  pub whole :
      (m : Message)
      → In m rows
      → m.folder_id ≡ folder_id
      → mark < m.id
      → m.id ≤ last_id mark page
      → In m page

module _ (folder_id mark : ℕ) (m : Message) where
  is_after-true : is_after folder_id mark m ≡ true → (m.folder_id ≡ folder_id) × (mark < m.id)
  unfolding is_after
  is_after-true h = ground arith

  true-is_after : m.folder_id ≡ folder_id → mark < m.id → is_after folder_id mark m ≡ true
  unfolding is_after
  true-is_after f h = ground arith

In-of_take : {A : Type 0} (n : ℕ) (xs : List A) (a : A) → In a (take n xs) → In a xs
In-of_take zero xs a m = elim m [ ]
In-of_take (suc n) [] a m = elim m [ ]
In-of_take (suc n) (x ∷ xs) a (inl e) = inl e
In-of_take (suc n) (x ∷ xs) a (inr m) = inr (In-of_take n xs a m)

All-pair :
    {A : Type 0} (P Q : A → Type 0) (xs : List A) → All P xs → All Q xs → All (λ x. P x × Q x) xs
All-pair P Q [] h k = tt
All-pair P Q (x ∷ xs) h k = ((h.0, k.0), All-pair P Q xs h.1 k.1)

-- Rows up to an id, all of them below a row that is not beyond it: the row has that id.
reaches :
    (page : List Message) (b m : Message)
    → In b page
    → All (λ c. id_before c m ≡ true) page
    → m.id ≤ b.id
    → m.id ≡ b.id
unfolding id_before
reaches page b m i all h = ground (arith, All-In (λ c. leb c.id m.id ≡ true) page all b i)

-- The page of messages above a watermark is a window of the folder.
pub messages_after_id-IsWindow :
    (folder_id mark limit : ℕ) (db : Db)
    → IdsDistinct db.messages
    → IsWindow folder_id mark db.messages (messages_after_id folder_id mark limit db)
unfolding messages_after_id
messages_after_id-IsWindow folder_id mark limit db distinct = record {
  grows = bounds.0;
  inside = All-pair';
  whole = whole;
}
  where
    lt_le : {a b : ℕ} → a < b → a ≤ b
    lt_le h = omega arith

    p : Message → Bool
    p = is_after folder_id mark

    rows : List Message
    rows = filter p db.messages

    page : List Message
    page = take limit (sort id_before rows)

    sorted : Sorted id_before (sort id_before rows)
    sorted = Sorted-sort id_before id_before_total id_before_trans rows

    after : All (λ m. (m.folder_id ≡ folder_id) × (mark < m.id)) page
    after = All-take _ limit (sort id_before rows) (
        All-sort id_before _ rows (
          All-map (λ m. p m ≡ true) _ rows (λ m h. is_after-true folder_id mark m h)
            (All-filter_self p db.messages)))

    bounds : (mark ≤ last_id mark page) × All (λ m. m.id ≤ last_id mark page) page
    bounds =
        le-last_id mark page (Sorted-take id_before limit (sort id_before rows) sorted)
          (All-map _ _ page (λ m h. lt_le h.1) after)

    All-pair' :
        All (λ m. (m.folder_id ≡ folder_id) × (mark < m.id) × (m.id ≤ last_id mark page)) page
    All-pair' = All-map _ _ page (λ m h. (h.0.0, h.0.1, h.1)) (All-pair _ _ page after bounds.1)

    stored : (b : Message) → In b page → In b db.messages
    stored b i =
        (In-of_filter p db.messages b
          (In-of_sort id_before rows b (In-of_take limit (sort id_before rows) b i))).0

    whole :
        (m : Message)
        → In m db.messages
        → m.folder_id ≡ folder_id
        → mark < m.id
        → m.id ≤ last_id mark page
        → In m page
    whole m i f above below =
        elim (In-take id_before limit (sort id_before rows) m sorted (
          In-sort id_before rows m
            (In-filter p db.messages m i (true-is_after folder_id mark m f above)))) [
              | inl found ↦ found
              | inr (full, all) ↦ elim (last_id-In mark page) [
                | inl e ↦ absurd (omega arith)
                | inr (b, ib, e) ↦
                    let same : m ≡ b =
                      In-same_id db.messages m b distinct i (stored b ib)
                        (reaches page b m ib all (omega arith)) in
                    subst (λ x. In x page) (sym same) ib
              ]
            ]

max_id-le : (ids : List ℕ) → All (λ i. i ≤ max_id ids) ids
unfolding max_id
max_id-le [] = tt
max_id-le (i ∷ ids) = (omega arith, All-map _ _ ids (λ j h. below j h) (max_id-le ids))
  where
    below : (j : ℕ) → j ≤ max_id ids → j ≤ max i (max_id ids)
    below j h = omega arith

In-map : {A B : Type 0} (f : A → B) (xs : List A) (a : A) → In a xs → In (f a) (map f xs)
In-map f (x ∷ xs) a (inl e) = inl (ap f e)
In-map f (x ∷ xs) a (inr m) = inr (In-map f xs a m)
In-map f [] a m = elim m [ ]

-- No row of the folder lies above its highest id.
pub le-highest_message_id :
    (folder_id : ℕ) (db : Db) (m : Message)
    → In m db.messages
    → m.folder_id ≡ folder_id
    → m.id ≤ highest_message_id folder_id db
unfolding highest_message_id
le-highest_message_id folder_id db m i f =
    let rows = filter {A = Message} (λ x. x.folder_id == folder_id) db.messages in
    let here : In m rows =
      In-filter (λ x. x.folder_id == folder_id) db.messages m i (ground arith) in
    All-In (λ j. j ≤ max_id (map (λ x. x.id) rows)) (map (λ x. x.id) rows) (max_id-le _) m.id
      (In-map (λ x. x.id) rows m here)
