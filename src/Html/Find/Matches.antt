-- ===== src/Html/Find/Matches.antt =====
-- What a search finds: matches in order, and some if there is one.
use nexus_mail.Base.{
  ℕ, zero, suc, ◌<◌, true, false, List, [], ◌∷◌, map, length, drop, leb, ◌≡◌, ◌≢◌, ◌↔◌, refl, sym,
  ◌∙◌, arith, Bool-cases, inl, inr,
}
use native.Mathlib.Nat.{zero-add}
use nexus_mail.Base.Text.{Text, Unicode, to_lower, has_prefix, contains_text}
use nexus_mail.Base.Bytes.{byte_len}
use nexus_mail.Html.Find.{Range, offsets_from, fold_text, fold_runes, matches_at, find_loop, find}
use nexus_mail.Html.Find.Slices.{AreOrdered}
use nexus_mail.Html.Find.Found.{
  AreMatches, find_loop_short, find_loop_miss, find_loop_hit, find_loop-AreFound,
}

-- Enough rounds find nothing only where there is nothing.
has_prefix-matches_at : (needle runes : Text) → matches_at runes needle ≡ has_prefix needle runes
unfolding matches_at has_prefix
has_prefix-matches_at [] [] = refl
has_prefix-matches_at [] (c ∷ runes) = refl
has_prefix-matches_at (r ∷ needle) [] = refl
has_prefix-matches_at (r ∷ needle) (c ∷ runes) = ground (arith, has_prefix-matches_at needle runes)

cons_not_nil : {x : Range} {xs : List Range} → (x ∷ xs) ≡ [] → ⊥
cons_not_nil e = cc

true_not_false : true ≡ false → ⊥
true_not_false e = cc

has_prefix_short :
    (needle runes : Text) → length runes < length needle → has_prefix needle runes ≡ false
unfolding has_prefix
has_prefix_short [] runes h = absurd (omega arith)
has_prefix_short (r ∷ needle) [] h = refl
has_prefix_short (r ∷ needle) (c ∷ runes) h =
    ground (arith, has_prefix_short needle runes (omega arith))

contains_text_short :
    (needle runes : Text) → length runes < length needle → contains_text needle runes ≡ false
unfolding contains_text
contains_text_short needle [] h = has_prefix_short needle [] h
contains_text_short needle (c ∷ runes) h =
    ground
      (arith, has_prefix_short needle (c ∷ runes) h, contains_text_short needle runes (omega arith))

contains_text_later :
    (needle : Text) (c : ℕ) (runes : Text)
    → matches_at (c ∷ runes) needle ≡ false
    → contains_text needle (c ∷ runes) ≡ contains_text needle runes
contains_text_later needle c runes miss =
    unfold contains_text in rw (sym (has_prefix-matches_at needle (c ∷ runes)) ∙ miss) refl

contains_text_here :
    (needle : Text) (c : ℕ) (runes : Text)
    → matches_at (c ∷ runes) needle ≡ true
    → contains_text needle (c ∷ runes) ≡ true
contains_text_here needle c runes hit =
    unfold contains_text in rw (sym (has_prefix-matches_at needle (c ∷ runes)) ∙ hit) refl

find_loop-contains_text :
    (fuel r : ℕ) (needle runes offsets : List ℕ)
    → length runes < fuel
    → (find_loop fuel (r ∷ needle) runes offsets ≡ []) ↔ (contains_text (r ∷ needle) runes ≡ false)
find_loop-contains_text zero r needle runes offsets h = absurd (omega arith)
find_loop-contains_text (suc fuel) r needle [] offsets h = (
  (λ _. contains_text_short (r ∷ needle) [] (omega arith)),
  (λ _. find_loop_short fuel (r ∷ needle) [] offsets (ground arith)),
)
find_loop-contains_text (suc fuel) r needle (c ∷ runes) offsets h =
    let N = r ∷ needle in
    elim (Bool-cases (leb (length N) (length (c ∷ runes)))) [
      | inr short ↦ (
        (λ _. contains_text_short N (c ∷ runes) (ground arith)),
        (λ _. find_loop_short fuel N (c ∷ runes) offsets short),
      )
      | inl long ↦ elim (Bool-cases (matches_at (c ∷ runes) N)) [
        | inl hit ↦ (
          (λ e.
              absurd (cons_not_nil (sym (find_loop_hit fuel N (c ∷ runes) offsets long hit) ∙ e))),
          (λ e. absurd (true_not_false (sym (contains_text_here N c runes hit) ∙ e))),
        )
        | inr miss ↦
            let (fwd, back) =
              find_loop-contains_text fuel r needle runes (drop 1 offsets) (omega arith) in
            let shorter = find_loop_miss fuel N (c ∷ runes) offsets long miss in
            let same = contains_text_later N c runes miss in
            ((λ e. same ∙ fwd (sym shorter ∙ e)), (λ e. shorter ∙ back (sym same ∙ e)))
      ]
    ]

-- A search for a text that is not empty finds ranges of bytes in order, apart and inside the text,
-- each of which lowers to the lowered query, and it finds none exactly if the lowered text does not
-- contain the lowered query.
pub find-contains_text :
    (u : Unicode) (query s : Text)
    → query ≢ []
    → AreOrdered 0 (find (fold_text u s) (fold_runes u query)) (byte_len s)
      × AreMatches u.to_lower (fold_runes u query) s 0 (find (fold_text u s) (fold_runes u query))
      × ((find (fold_text u s) (fold_runes u query) ≡ [])
          ↔ (contains_text (to_lower u query) (to_lower u s) ≡ false))
unfolding find fold_text fold_runes
find-contains_text u [] s h = absurd (h refl)
find-contains_text u (q ∷ query) s h =
    let runes = to_lower u s in
    let (ordered, matched) =
      find_loop-AreFound u.to_lower (u.to_lower q) (map u.to_lower query) (suc (length runes)) 0
        s in
    (
      simp zero-add at ordered,
      matched,
      find_loop-contains_text (suc (length runes)) (u.to_lower q) (map u.to_lower query) runes
          (offsets_from 0 s) (omega arith),
    )

pub find-AreOrdered :
    (u : Unicode) (needle : List ℕ) (s : Text)
    → AreOrdered 0 (find (fold_text u s) needle) (byte_len s)
unfolding find fold_text
find-AreOrdered u [] s = omega arith
find-AreOrdered u (r ∷ needle) s =
    let (ordered, _) = find_loop-AreFound u.to_lower r needle (suc (length (to_lower u s))) 0 s in
    simp zero-add at ordered
