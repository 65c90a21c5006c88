-- ===== src/Mime/Subject/Cut.antt =====
-- The loop of stripPrefixes ends, and where letters keep their bytes it ends without a panic.
use mathlib.Core.Path.{ap₂}
use nexus_mail.Base.{
  ℕ, zero, suc, ◌+◌, ◌-◌, ◌≤◌, ◌<◌, List, [], ◌∷◌, ◌++◌, none, some, true, Bool, ◌&&◌, leb, ==_iff,
  ◌≡◌, ◌≢◌, refl, subst, sym, ap, ◌∙◌, arith, All, Bool-cases, Option-cases, inl, inr, ◌==◌,
}
use nexus_mail.Base.Text.{Text, Unicode, to_lower, trim_space, has_prefix}
use nexus_mail.Base.Text.Trim.{byte_len-trim_space, All-trim_space, trim_space-trim_space}
use nexus_mail.Base.Bytes.{byte_len, drop_bytes, byte_len-drop_bytes, width, width-pos}
use nexus_mail.Mime.Subject.{find_prefix, strip_loop, panicked, unfinished, stripped}

pub stripped-injective : {s t : Text} → stripped s ≡ stripped t → s ≡ t
stripped-injective h = cc

panicked≢stripped : {s : Text} → panicked ≢ stripped s
panicked≢stripped h = cc

-- The lowered form of the text takes as many bytes, letter by letter.
abbrev pub KeepsWidth : Unicode → Text → Type 0
KeepsWidth u s = All (λ c. width (u.to_lower c) ≡ width c) s

abbrev pub HaveBytes : List Text → Type 0
HaveBytes ps = All (λ p. 1 ≤ byte_len p) ps

pub find_prefix-HaveBytes :
    (ps : List Text) (s p : Text) → HaveBytes ps → find_prefix ps s ≡ some p → 1 ≤ byte_len p
unfolding find_prefix
find_prefix-HaveBytes [] s p h e = cc
find_prefix-HaveBytes (q ∷ ps) s p h e = elim (Bool-cases (has_prefix q s)) [
  | inl here ↦ let e' : some q ≡ some p = rw here at e in subst (λ r. 1 ≤ byte_len r) (cc) h.0
  | inr there ↦ find_prefix-HaveBytes ps s p h.1 (rw there at e)
]

module _ (u : Unicode) (ps : List Text) (fuel : ℕ) (s : Text) where
  -- The three ways that a round goes.
  pub strip_loop_stays :
      find_prefix ps (to_lower u s) ≡ none → strip_loop u ps (suc fuel) s ≡ stripped s
  unfolding strip_loop
  strip_loop_stays bare = rw (bare, strip_loop) refl

  strip_loop_overruns :
      {p : Text}
      → find_prefix ps (to_lower u s) ≡ some p
      → drop_bytes (byte_len p) s ≡ none
      → strip_loop u ps (suc fuel) s ≡ panicked
  unfolding strip_loop
  strip_loop_overruns found over = rw (found, over, strip_loop) refl

  pub strip_loop_cuts :
      {p t : Text}
      → find_prefix ps (to_lower u s) ≡ some p
      → drop_bytes (byte_len p) s ≡ some t
      → strip_loop u ps (suc fuel) s ≡ strip_loop u ps fuel (trim_space u t)
  unfolding strip_loop
  strip_loop_cuts found cut = rw (found, cut, strip_loop) refl

module _ (u : Unicode) (ps : List Text) where
  pub strip_loop-finishes :
      (fuel : ℕ) (s : Text) → HaveBytes ps → byte_len s < fuel → strip_loop u ps fuel s ≢ unfinished
  unfolding strip_loop
  strip_loop-finishes zero s h lt = absurd (omega arith)
  strip_loop-finishes (suc fuel) s h lt = elim (Option-cases (find_prefix ps (to_lower u s))) [
    | inl bare ↦ rw (strip_loop_stays u ps fuel s bare) (λ e. cc)
    | inr (p, found) ↦ elim (Option-cases (drop_bytes (byte_len p) s)) [
      | inl over ↦ rw (strip_loop_overruns u ps fuel s found over) (λ e. cc)
      | inr (t, cut) ↦ rw (strip_loop_cuts u ps fuel s found cut) (
          strip_loop-finishes fuel (trim_space u t) h (
            omega (
              arith,
              find_prefix-HaveBytes ps (to_lower u s) p h found,
              byte_len-drop_bytes (byte_len p) s t cut,
              byte_len-trim_space u t,
            )))
    ]
  ]

  -- What comes out begins with no prefix, and is trimmed if what went in was.
  pub strip_loop-bare :
      (fuel : ℕ) (s t : Text)
      → trim_space u s ≡ s
      → strip_loop u ps fuel s ≡ stripped t
      → (find_prefix ps (to_lower u t) ≡ none) × (trim_space u t ≡ t)
  unfolding strip_loop
  strip_loop-bare zero s t trimmed h = cc
  strip_loop-bare (suc fuel) s t trimmed h = elim (Option-cases (find_prefix ps (to_lower u s))) [
    | inl bare ↦
        let e : s ≡ t = stripped-injective (rw (strip_loop_stays u ps fuel s bare) at h) in
        subst (λ r. (find_prefix ps (to_lower u r) ≡ none) × (trim_space u r ≡ r)) e (bare, trimmed)
    | inr (p, found) ↦ elim (Option-cases (drop_bytes (byte_len p) s)) [
      | inl over ↦ absurd (panicked≢stripped (rw (strip_loop_overruns u ps fuel s found over) at h))
      | inr (r, cut) ↦
          strip_loop-bare fuel (trim_space u r) t (trim_space-trim_space u r)
            (rw (strip_loop_cuts u ps fuel s found cut) at h)
    ]
  ]

drop_bytes-width : (m n c : ℕ) (s : Text) → m ≡ width c + n → drop_bytes m (c ∷ s) ≡ drop_bytes n s
unfolding drop_bytes
drop_bytes-width zero n c s h = absurd (omega (arith, width-pos c))
drop_bytes-width (suc m) n c s h =
    let left : suc m - width c ≡ n = omega arith in
    let fits : leb (width c) (suc m) ≡ true = ground arith in rw (fits, left) refl

-- The cut takes the letters that the prefix was found in.
pub drop_bytes-append : (w x : Text) → drop_bytes (byte_len w) (w ++ x) ≡ some x
unfolding byte_len drop_bytes
drop_bytes-append [] x = refl
drop_bytes-append (c ∷ w) x =
    drop_bytes-width _ (byte_len w) c (w ++ x) refl ∙ drop_bytes-append w x

and-true : (a b : Bool) → (a && b) ≡ true → (a ≡ true) × (b ≡ true)
and-true a b h = ground arith

has_prefix-split :
    (u : Unicode) (p s : Text)
    → has_prefix p (to_lower u s) ≡ true
    → (w : Text) × (x : Text) × (s ≡ w ++ x) × (to_lower u w ≡ p)
unfolding has_prefix
has_prefix-split u [] s h = ([], s, refl, refl)
has_prefix-split u (c ∷ p) [] h = cc
has_prefix-split u (c ∷ p) (d ∷ s) h =
    let (first, rest) = and-true (c == u.to_lower d) (has_prefix p (to_lower u s)) h in
    let (w, x, whole, lowered) = has_prefix-split u p s rest in
    (d ∷ w, x, ap (◌∷◌ d) whole, ap₂ ◌∷◌ (sym ((==_iff c (u.to_lower d)).0 first)) lowered)

find_prefix-has_prefix :
    (ps : List Text) (s p : Text) → find_prefix ps s ≡ some p → has_prefix p s ≡ true
unfolding find_prefix
find_prefix-has_prefix [] s p e = cc
find_prefix-has_prefix (q ∷ ps) s p e = elim (Bool-cases (has_prefix q s)) [
  | inl here ↦
      let e' : some q ≡ some p = rw here at e in subst (λ r. has_prefix r s ≡ true) (cc) here
  | inr there ↦ find_prefix-has_prefix ps s p (rw there at e)
]

pub byte_len-to_lower :
    (u : Unicode) (w : Text) → KeepsWidth u w → byte_len (to_lower u w) ≡ byte_len w
unfolding byte_len
byte_len-to_lower u [] h = refl
byte_len-to_lower u (c ∷ w) h = omega (arith, h.0, byte_len-to_lower u w h.1)

All-end : (P : ℕ → Type 0) (w x : Text) → All P (w ++ x) → All P w × All P x
All-end P [] x h = (tt, h)
All-end P (c ∷ w) x h = let (k, l) = All-end P w x h.1 in ((h.0, k), l)

module _ (u : Unicode) (ps : List Text) where
  cut_kept :
      (s p : Text)
      → KeepsWidth u s
      → find_prefix ps (to_lower u s) ≡ some p
      → (x : Text) × (drop_bytes (byte_len p) s ≡ some x) × KeepsWidth u x
  cut_kept s p k found =
      let (w, x, whole, lowered) = has_prefix-split u p s (find_prefix-has_prefix ps _ p found) in
      let (kw, kx) =
        All-end (λ c. width (u.to_lower c) ≡ width c) w x (subst (KeepsWidth u) whole k) in
      let same : byte_len p ≡ byte_len w = ap byte_len (sym lowered) ∙ byte_len-to_lower u w kw in
      (x, rw (same, whole) (drop_bytes-append w x), kx)

  -- Where every letter keeps its width, the loop comes to an end and never slices out of bounds.
  pub strip_loop-stripped :
      (fuel : ℕ) (s : Text)
      → HaveBytes ps
      → KeepsWidth u s
      → byte_len s < fuel
      → (t : Text) × (strip_loop u ps fuel s ≡ stripped t)
  strip_loop-stripped zero s h k lt = absurd (omega arith)
  strip_loop-stripped (suc fuel) s h k lt = elim (Option-cases (find_prefix ps (to_lower u s))) [
    | inl bare ↦ (s, strip_loop_stays u ps fuel s bare)
    | inr (p, found) ↦
        let (x, cut, kx) = cut_kept s p k found in
        let shorter : byte_len (trim_space u x) < fuel = omega (
          arith,
          find_prefix-HaveBytes ps (to_lower u s) p h found,
          byte_len-drop_bytes (byte_len p) s x cut,
          byte_len-trim_space u x,
        ) in
        let (t, e) =
          strip_loop-stripped fuel (trim_space u x) h (All-trim_space u _ x kx) shorter in
        (t, strip_loop_cuts u ps fuel s found cut ∙ e)
  ]
