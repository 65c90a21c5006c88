-- ===== src/Html/Find/Found.antt =====
-- The ranges of a search are in order, and each is a match.
use nexus_mail.Base.{
  ℕ, zero, suc, ◌+◌, ◌≤◌, true, false, List, [], ◌∷◌, ◌++◌, map, length, take, drop, leb, ◌≡◌, refl,
  sym, ap, subst, ◌∙◌, arith, Bool-cases, leb→le, inl, inr, length-map, length-take,
  take-append-drop,
}
use mathlib.Core.Path.{ap₂}
use nexus_mail.Base.Text.{Text}
use nexus_mail.Base.Bytes.{byte_len}
use nexus_mail.Html.Find.{Range, offsets_from, matches_at, offset_at, find_loop, slice_from}
use nexus_mail.Html.Find.Slices.{AreOrdered}
use nexus_mail.Html.Find.Ranges.{
  offset_at-offsets_from, drop-offsets_from, drop-map, byte_len-le, byte_len-take-drop,
  matches_at-take, slice_from-append, slice_from-prefix,
}

AreOrdered-from :
    (lo lo' hi : ℕ) (ranges : List Range)
    → lo ≤ lo'
    → AreOrdered lo' ranges hi
    → AreOrdered lo ranges hi
AreOrdered-from lo lo' hi [] h o = omega arith
AreOrdered-from lo lo' hi ((a, b) ∷ ranges) h (l, m, o) = (omega arith, m, o)

-- Every range is a match of the text whose first rune has the offset `k`.
abbrev pub AreMatches : (ℕ → ℕ) → List ℕ → Text → ℕ → List Range → Type 0
AreMatches f needle s k [] = Unit
AreMatches f needle s k ((a, b) ∷ ranges) =
    (map f (slice_from k a b s) ≡ needle) × AreMatches f needle s k ranges

AreMatches-append :
    (f : ℕ → ℕ) (needle before s : Text) (k hi lo : ℕ) (ranges : List Range)
    → k + byte_len before ≤ lo
    → AreOrdered lo ranges hi
    → AreMatches f needle s (k + byte_len before) ranges
    → AreMatches f needle (before ++ s) k ranges
AreMatches-append f needle before s k hi lo [] h o m = m
AreMatches-append f needle before s k hi lo ((a, b) ∷ ranges) h (l, lt, o) (hit, m) = (
  ap (map f) (slice_from-append k before s a b (omega arith)) ∙ hit,
  AreMatches-append f needle before s k hi b ranges (omega arith) o m,
)

-- Order and matches together, over the runes and offsets of a text.
abbrev pub AreFound : (ℕ → ℕ) → List ℕ → Text → ℕ → List Range → Type 0
AreFound f needle s k ranges = AreOrdered k ranges (k + byte_len s) × AreMatches f needle s k ranges

AreFound-later :
    (f : ℕ → ℕ) (needle s : Text) (k n : ℕ) (ranges : List Range)
    → AreFound f needle (drop n s) (k + byte_len (take n s)) ranges
    → AreOrdered (k + byte_len (take n s)) ranges (k + byte_len s) × AreMatches f needle s k ranges
AreFound-later f needle s k n ranges (o, m) =
    let same : (k + byte_len (take n s)) + byte_len (drop n s) ≡ k + byte_len s =
      omega (arith, byte_len-take-drop n s) in
    let o' = subst (λ hi. AreOrdered (k + byte_len (take n s)) ranges hi) same o in
    (
      o',
      subst (λ t. AreMatches f needle t k ranges) (take-append-drop n s)
          (AreMatches-append f needle (take n s) (drop n s) k (k + byte_len s)
            (k + byte_len (take n s)) ranges (omega arith) o' m),
    )

module _ (fuel : ℕ) (needle runes offsets : List ℕ) where
  pub find_loop_short :
      leb (length needle) (length runes) ≡ false → find_loop (suc fuel) needle runes offsets ≡ []
  unfolding find_loop
  find_loop_short short = rw (short, find_loop) refl

  module _ (long : leb (length needle) (length runes) ≡ true) where
    pub find_loop_miss :
        matches_at runes needle ≡ false
        → find_loop (suc fuel) needle runes offsets
          ≡ find_loop fuel needle (drop 1 runes) (drop 1 offsets)
    unfolding find_loop
    find_loop_miss miss = rw (long, miss, find_loop) refl

    pub find_loop_hit :
        matches_at runes needle ≡ true
        → find_loop (suc fuel) needle runes offsets
          ≡ (offset_at offsets 0, offset_at offsets (length needle))
            ∷ find_loop fuel needle (drop (length needle) runes) (drop (length needle) offsets)
    unfolding find_loop
    find_loop_hit hit = rw (long, hit, find_loop) refl

offset_at-start : (k : ℕ) (s : Text) → offset_at (offsets_from k s) 0 ≡ k
unfolding offset_at offsets_from
offset_at-start k [] = refl
offset_at-start k (c ∷ s) = refl

module _ (f : ℕ → ℕ) (r : ℕ) (needle : Text) where
  -- The first match, at the place where the text begins.
  AreFound-hit :
      (k : ℕ) (s : Text) (a b : ℕ) (ranges : List Range)
      → suc (length needle) ≤ length s
      → matches_at (map f s) (r ∷ needle) ≡ true
      → a ≡ k
      → b ≡ k + byte_len (take (suc (length needle)) s)
      → AreFound f
          (r ∷ needle)
          (drop (suc (length needle)) s)
          (k + byte_len (take (suc (length needle)) s))
          ranges
      → AreFound f (r ∷ needle) s k ((a, b) ∷ ranges)
  AreFound-hit k s a b ranges long hit at_start at_end later =
      let n = suc (length needle) in
      let t = take n s in
      let (o, m) = AreFound-later f (r ∷ needle) s k n ranges later in
      let letters : slice_from k k (k + byte_len t) s ≡ t =
        ap (slice_from k k (k + byte_len t)) (sym (take-append-drop n s))
        ∙ slice_from-prefix k t (drop n s) k (omega arith) in
      let taken : map f (slice_from k k (k + byte_len t) s) ≡ r ∷ needle =
        ap (map f) letters ∙ matches_at-take f (r ∷ needle) s hit in
      let ends : (k, k + byte_len t) ≡ (a, b) = ap₂ (λ i j. (i, j)) (sym at_start) (sym at_end) in
      subst (λ p. AreFound f (r ∷ needle) s k (p ∷ ranges)) ends
        ((omega arith, omega (arith, byte_len-le t, length-take n s), o), (taken, m))

  -- The rest of the search, over the rest of the text.
  AreFound-rest :
      (fuel k n : ℕ) (s : Text)
      → n ≤ length s
      → AreFound f (r ∷ needle) (drop n s) (k + byte_len (take n s)) (
          find_loop fuel
            (r ∷ needle)
            (map f (drop n s))
            (offsets_from (k + byte_len (take n s)) (drop n s)))
      → AreFound f
          (r ∷ needle)
          (drop n s)
          (k + byte_len (take n s))
          (find_loop fuel (r ∷ needle) (drop n (map f s)) (drop n (offsets_from k s)))
  AreFound-rest fuel k n s fits found =
      subst (AreFound f (r ∷ needle) (drop n s) (k + byte_len (take n s)))
        (ap₂ (find_loop fuel (r ∷ needle)) (sym (drop-map f n s))
          (sym (drop-offsets_from n k s fits)))
        found

  pub find_loop-AreFound :
      (fuel k : ℕ) (s : Text)
      → AreFound f (r ∷ needle) s k (find_loop fuel (r ∷ needle) (map f s) (offsets_from k s))
  find_loop-AreFound zero k s = unfold find_loop in (omega arith, tt)
  find_loop-AreFound (suc fuel) k s =
      let N = r ∷ needle in
      let runes = map f s in
      let offsets = offsets_from k s in
      elim (Bool-cases (leb (length N) (length runes))) [
        | inr short ↦
            subst (λ rs. AreFound f N s k rs) (sym (find_loop_short fuel N runes offsets short))
              (omega arith, tt)
        | inl long ↦ elim (Bool-cases (matches_at runes N)) [
          | inl hit ↦
              let fits : length N ≤ length s = omega (arith, leb→le _ _ long, length-map f s) in
              subst (λ rs. AreFound f N s k rs) (sym (find_loop_hit fuel N runes offsets long hit))
                (AreFound-hit k s (offset_at offsets 0) (offset_at offsets (length N)) _ fits hit
                  (offset_at-start k s) (offset_at-offsets_from (length N) k s fits)
                  (AreFound-rest fuel k (length N) s fits (
                    find_loop-AreFound fuel (k + byte_len (take (length N) s))
                      (drop (length N) s))))
          | inr miss ↦
              let fits : 1 ≤ length s = omega (arith, leb→le _ _ long, length-map f s) in
              let (o, m) = AreFound-later f N s k 1 _ (
                AreFound-rest fuel k 1 s fits
                  (find_loop-AreFound fuel (k + byte_len (take 1 s)) (drop 1 s))) in
              subst (λ rs. AreFound f N s k rs)
                (sym (find_loop_miss fuel N runes offsets long miss))
                (AreOrdered-from k (k + byte_len (take 1 s)) (k + byte_len s) _ (omega arith) o, m)
        ]
      ]
