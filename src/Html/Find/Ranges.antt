-- ===== src/Html/Find/Ranges.antt =====
-- The ranges that a search finds.
use nexus_mail.Base.{
  ℕ, zero, suc, ◌+◌, ◌≤◌, Bool, true, false, ◌&&◌, [], ◌∷◌, ◌++◌, map, length, take, drop, ◌==◌,
  ◌≡◌, refl, sym, ap, ◌∙◌, arith, take-append-drop, ==_iff,
}
use mathlib.Core.Path.{ap₂}
use nexus_mail.Base.Text.{Text}
use nexus_mail.Base.Bytes.{width, width-pos, byte_len, byte_len-append}
use nexus_mail.Html.Find.{offsets_from, matches_at, offset_at, slice_from}
use nexus_mail.Html.Find.Slices.{slice_past}

pub offset_at-offsets_from :
    (n k : ℕ) (s : Text) → n ≤ length s → offset_at (offsets_from k s) n ≡ k + byte_len (take n s)
unfolding offset_at offsets_from byte_len
offset_at-offsets_from zero k [] h = omega arith
offset_at-offsets_from zero k (c ∷ s) h = omega arith
offset_at-offsets_from (suc n) k [] h = absurd (omega arith)
offset_at-offsets_from (suc n) k (c ∷ s) h = omega (arith, offset_at-offsets_from n (k + width c) s)

pub drop-offsets_from :
    (n k : ℕ) (s : Text)
    → n ≤ length s
    → drop n (offsets_from k s) ≡ offsets_from (k + byte_len (take n s)) (drop n s)
unfolding offsets_from byte_len
drop-offsets_from zero k s h = ap (λ j. offsets_from j s) (omega arith)
drop-offsets_from (suc n) k [] h = absurd (omega arith)
drop-offsets_from (suc n) k (c ∷ s) h =
    drop-offsets_from n (k + width c) s (omega arith)
    ∙ ap (λ j. offsets_from j (drop n s)) (omega arith)

pub drop-map : (f : ℕ → ℕ) (n : ℕ) (s : Text) → drop n (map f s) ≡ map f (drop n s)
drop-map f zero s = refl
drop-map f (suc n) [] = refl
drop-map f (suc n) (c ∷ s) = drop-map f n s

pub byte_len-le : (s : Text) → length s ≤ byte_len s
unfolding byte_len
byte_len-le [] = omega arith
byte_len-le (c ∷ s) = omega (arith, byte_len-le s, width-pos c)

pub byte_len-take-drop : (n : ℕ) (s : Text) → byte_len (take n s) + byte_len (drop n s) ≡ byte_len s
byte_len-take-drop n s =
    sym (byte_len-append (take n s) (drop n s)) ∙ ap byte_len (take-append-drop n s)

both : (a b : Bool) → (a && b) ≡ true → (a ≡ true) × (b ≡ true)
both true true h = (refl, refl)
both true false h = cc
both false b h = cc

-- A match takes the letters that lower to the needle.
pub matches_at-take :
    (f : ℕ → ℕ) (needle s : Text)
    → matches_at (map f s) needle ≡ true
    → map f (take (length needle) s) ≡ needle
unfolding matches_at
matches_at-take f [] s h = refl
matches_at-take f (r ∷ needle) [] h = cc
matches_at-take f (r ∷ needle) (c ∷ s) h =
    let (same, tail) = both (f c == r) (matches_at (map f s) needle) h in
    ap₂ ◌∷◌ ((==_iff (f c) r).0 same) (matches_at-take f needle s tail)

pub slice_from-append :
    (k : ℕ) (before s : Text) (a b : ℕ)
    → k + byte_len before ≤ a
    → slice_from k a b (before ++ s) ≡ slice_from (k + byte_len before) a b s
unfolding slice_from byte_len
slice_from-append k [] s a b h = ap (λ j. slice_from j a b s) (omega arith)
slice_from-append k (c ∷ before) s a b h =
    let e : (k + width c) + byte_len before ≡ k + (width c + byte_len before) = omega arith in
    let later = slice_from-append (k + width c) before s a b (omega arith) in
    ground (arith, later, width-pos c, e)

pub slice_from-prefix :
    (k : ℕ) (t s : Text) (a : ℕ) → a ≤ k → slice_from k a (k + byte_len t) (t ++ s) ≡ t
unfolding slice_from byte_len
slice_from-prefix k [] s a h = slice_past k a (k + 0) s (omega arith)
slice_from-prefix k (c ∷ t) s a h =
    let e : k + (width c + byte_len t) ≡ (k + width c) + byte_len t = omega arith in
    rw e (ground (arith, width-pos c, slice_from-prefix (k + width c) t s a (omega arith)))
