-- ===== src/Mime/References/Capped.antt =====
-- What the References header of a reply holds, however long the thread is.
use nexus_mail.Base.{
  ℕ, zero, suc, ◌-◌, ◌≤◌, false, ◌||◌, List, [], ◌∷◌, ◌++◌, Option, length, drop, leb, ◌≡◌, refl,
  ap, ◌∙◌, arith, All, All-map, find?, not, last_or, length-drop, Bool-cases, leb→le, inl, inr,
}
use nexus_mail.Base.Text.{Text, has_text, text_eq}
use nexus_mail.Base.Distinct.{
  HaveDistinct, first_by_key, passes, keeps, or-false, first_by_key-kept, first_by_key-HaveDistinct,
}
use nexus_mail.Mime.References.{
  max_references, is_empty, unique_references, cap_references, reply_references,
}

All-drop {κ} : {A : Type 0} (P : A → Type κ) (n : ℕ) (xs : List A) → All P xs → All P (drop n xs)
All-drop P zero xs h = h
All-drop P (suc n) [] h = tt
All-drop P (suc n) (x ∷ xs) h = All-drop P n xs h.1

HaveDistinct-drop :
    {A : Type 0} (key : A → Text) (n : ℕ) (xs : List A)
    → HaveDistinct key xs
    → HaveDistinct key (drop n xs)
HaveDistinct-drop key zero xs h = h
HaveDistinct-drop key (suc n) [] h = tt
HaveDistinct-drop key (suc n) (x ∷ xs) h = HaveDistinct-drop key n xs h.1

last_or-any : {A : Type 0} (d e : A) (xs : List A) → 1 ≤ length xs → last_or d xs ≡ last_or e xs
last_or-any d e [] h = absurd (omega arith)
last_or-any d e (x ∷ xs) h = refl

last_or-append : {A : Type 0} (d x : A) (xs : List A) → last_or d (xs ++ x ∷ []) ≡ x
last_or-append d x [] = refl
last_or-append d x (y ∷ xs) = last_or-append y x xs

last_or-drop :
    {A : Type 0} (d : A) (n : ℕ) (xs : List A)
    → suc n ≤ length xs
    → last_or d (drop n xs) ≡ last_or d xs
last_or-drop d zero xs h = refl
last_or-drop d (suc n) [] h = absurd (omega arith)
last_or-drop d (suc n) (x ∷ xs) h =
    last_or-drop d n xs (omega arith) ∙ last_or-any d x xs (omega arith)

unique-latest :
    (seen refs : List Text) (id : Text)
    → is_empty id ≡ false
    → has_text seen id ≡ false
    → has_text refs id ≡ false
    → first_by_key (λ r. r) is_empty seen (refs ++ id ∷ [])
      ≡ first_by_key (λ r. r) is_empty seen refs ++ id ∷ []
unfolding has_text
unique-latest seen [] id filled new old =
    keeps (λ r. r) is_empty seen id [] (rw (filled, new) refl) ∙ unfold first_by_key in refl
unique-latest seen (r ∷ refs) id filled new old =
    let (apart, rest) = or-false (text_eq id r) (has_text refs id) old in
    elim (Bool-cases (is_empty r || has_text seen r)) [
      | inl past ↦
          rw
            (
              passes (λ x. x) is_empty seen r (refs ++ id ∷ []) past,
              passes (λ x. x) is_empty seen r refs past,
            )
            (unique-latest seen refs id filled new rest)
      | inr kept ↦
          rw
            (
              keeps (λ x. x) is_empty seen r (refs ++ id ∷ []) kept,
              keeps (λ x. x) is_empty seen r refs kept,
            )
            (ap (◌∷◌ r) (unique-latest (r ∷ seen) refs id filled (rw (apart, new) refl) rest))
    ]

-- The first entry that is not empty.
abbrev pub root : List Text → Option Text
root refs = find? (λ r. not (is_empty r)) refs

root_unique : (refs : List Text) → root (first_by_key (λ r. r) is_empty [] refs) ≡ root refs
root_unique [] = unfold first_by_key in refl
root_unique ([] ∷ refs) = rw (passes (λ x. x) is_empty [] [] refs refl) (root_unique refs)
root_unique ((c ∷ r) ∷ refs) =
    rw (keeps (λ x. x) is_empty [] (c ∷ r) refs (unfold has_text in refl)) refl

-- The header holds at most twenty references, none of them empty or there twice; it begins with the
-- root and ends with the message that is answered.
pub record IsCapped (refs : List Text) (latest : Text) (out : List Text) : Type 0 where
  pub short : length out ≤ max_references
  pub distinct : HaveDistinct (λ r. r) out
  pub filled : All (λ r. is_empty r ≡ false) out
  pub rooted : root out ≡ root refs
  pub ends : last_or [] out ≡ latest

cap_root :
    (x : Text) (ys xs : List Text) {o : Option Text}
    → is_empty x ≡ false
    → root (x ∷ xs) ≡ o
    → root (x ∷ ys) ≡ o
cap_root x ys xs h e = rw h (rw h at e)

cap-IsCapped :
    (refs : List Text) (latest : Text) (unique : List Text)
    → HaveDistinct (λ r. r) unique
    → All (λ r. is_empty r ≡ false) unique
    → root unique ≡ root refs
    → last_or [] unique ≡ latest
    → IsCapped refs latest (cap_references unique)
unfolding cap_references
cap-IsCapped refs latest [] d f r l = record {
  short = omega arith;
  distinct = d;
  filled = f;
  rooted = r;
  ends = l;
}
cap-IsCapped refs latest (x ∷ xs) d f r l =
    elim (Bool-cases (leb (length (x ∷ xs)) max_references)) [
      | inl fits ↦
          rw fits
            (record { short = leb→le _ _ fits; distinct = d; filled = f; rooted = r; ends = l })
      | inr long ↦ rw long (
          let k : ℕ = suc (length xs) - 20 in
          let n : suc (length xs) - 19 ≡ suc k = ground arith in
          rw n (record {
            short = omega (arith, length-drop k xs);
            distinct = (All-drop _ k xs d.0, HaveDistinct-drop _ k xs d.1);
            filled = (f.0, All-drop _ k xs f.1);
            rooted = cap_root x (drop k xs) xs f.0 r;
            ends = last_or-drop x k xs (ground arith) ∙ l;
          }))
    ]

-- A reply keeps the root of its thread and the message that it answers, in at most twenty
-- references, where that message has an id that the thread did not name before.
pub reply_references-IsCapped :
    (parents : List Text) (id : Text)
    → is_empty id ≡ false
    → has_text parents id ≡ false
    → IsCapped (parents ++ id ∷ []) id (reply_references parents id)
unfolding reply_references unique_references
reply_references-IsCapped parents id filled new =
    cap-IsCapped (parents ++ id ∷ []) id (first_by_key (λ r. r) is_empty [] (parents ++ id ∷ []))
      (first_by_key-HaveDistinct (λ r. r) is_empty [] (parents ++ id ∷ []))
      (All-map _ _ _ (λ r h. h.0) (first_by_key-kept (λ r. r) is_empty [] (parents ++ id ∷ [])))
      (root_unique (parents ++ id ∷ []))
      (rw (unique-latest [] parents id filled (unfold has_text in refl) new)
        (last_or-append [] id (first_by_key (λ r. r) is_empty [] parents)))
