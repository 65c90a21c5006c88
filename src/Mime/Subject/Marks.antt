-- ===== src/Mime/Subject/Marks.antt =====
-- One mark at the front of a subject, however many were there.
use nexus_mail.Base.{
  ℕ, suc, ◌-◌, ◌≤◌, ◌<◌, List, [], ◌∷◌, ◌++◌, none, some, true, false, ◌≡◌, ◌≢◌, refl, ap, ◌∙◌,
  arith, All, Bool-cases, inl, inr,
}
use nexus_mail.Base.Text.{Text, Unicode, to_lower, trim_space, has_prefix, ascii_lower, ascii_space}
use nexus_mail.Base.Text.Trim.{
  trim_space-trim_space, byte_len-trim_space, All-trim_space, trim_space-word,
}
use nexus_mail.Base.Bytes.{byte_len, drop_bytes, width-pos}
use nexus_mail.Mime.Subject.{
  find_prefix, Stripped, panicked, unfinished, stripped, strip_prefixes, marked, reply_subject,
  forward_subject, reply_prefix, forward_prefix, known_reply_prefixes, known_forward_prefixes,
}
use nexus_mail.Mime.Subject.Cut.{
  KeepsWidth, HaveBytes, strip_loop-finishes, strip_loop-bare, strip_loop-stripped,
  strip_loop_stays, strip_loop_cuts, drop_bytes-append, byte_len-to_lower,
}

-- The tables of the package `unicode` on ASCII.
abbrev pub AgreesOnAscii : Unicode → Type 0
AgreesOnAscii u =
    (c : ℕ) → c < 128 → (u.to_lower c ≡ ascii_lower c) × (u.is_space c ≡ ascii_space c)

has_prefix-append : (p x : Text) → has_prefix p (p ++ x) ≡ true
unfolding has_prefix
has_prefix-append [] x = refl
has_prefix-append (c ∷ p) x = ground (arith, has_prefix-append p x)

to_lower-append : (u : Unicode) (w x : Text) → to_lower u (w ++ x) ≡ to_lower u w ++ to_lower u x
to_lower-append u [] x = refl
to_lower-append u (c ∷ w) x = ap (◌∷◌ (u.to_lower c)) (to_lower-append u w x)

find_prefix-first : (p x : Text) (ps : List Text) → find_prefix (p ∷ ps) (p ++ x) ≡ some p
unfolding find_prefix
find_prefix-first p x ps = rw (has_prefix-append p x) refl

pub byte_len-pos : (c : ℕ) (s : Text) → 1 ≤ byte_len (c ∷ s)
unfolding byte_len
byte_len-pos c s = omega (arith, width-pos c)

module _ (u : Unicode) where
  strip_prefixes-stripped :
      (subject : Text) (ps : List Text)
      → HaveBytes ps
      → KeepsWidth u subject
      → (t : Text) × (strip_prefixes u subject ps ≡ stripped t)
  unfolding strip_prefixes
  strip_prefixes-stripped subject ps h k =
      strip_loop-stripped u ps (suc (byte_len subject)) (trim_space u subject) h
        (All-trim_space u _ subject k) (omega (arith, byte_len-trim_space u subject))

  pub strip_prefixes-bare :
      (subject t : Text) (ps : List Text)
      → strip_prefixes u subject ps ≡ stripped t
      → (find_prefix ps (to_lower u t) ≡ none) × (trim_space u t ≡ t)
  unfolding strip_prefixes
  strip_prefixes-bare subject t ps =
      strip_loop-bare u ps (suc (byte_len subject)) (trim_space u subject) t
        (trim_space-trim_space u subject)

  -- A mark and a space before a text that begins with none is taken off, and nothing else is.
  pub strip_prefixes-mark :
      (c : ℕ) (w r : Text) (ps : List Text)
      → All (λ d. u.is_space d ≡ false) (c ∷ w)
      → u.is_space b' ' ≡ true
      → KeepsWidth u (c ∷ w)
      → find_prefix (to_lower u (c ∷ w) ∷ ps) (to_lower u r) ≡ none
      → trim_space u r ≡ r
      → strip_prefixes u (c ∷ w ++ b' ' ∷ r) (to_lower u (c ∷ w) ∷ ps) ≡ stripped r
  unfolding strip_prefixes
  strip_prefixes-mark c w r ps ink space k bare trimmed =
      let (x, front, back) = trim_space-word u c w r ink space trimmed in
      let marks : List Text = to_lower u (c ∷ w) ∷ ps in
      let found : find_prefix marks (to_lower u (c ∷ w ++ x)) ≡ some (to_lower u (c ∷ w)) =
        ap (find_prefix marks) (to_lower-append u (c ∷ w) x)
        ∙ find_prefix-first (to_lower u (c ∷ w)) (to_lower u x) ps in
      let ge_one = byte_len-pos c (w ++ b' ' ∷ r) in
      let cut : drop_bytes (byte_len (to_lower u (c ∷ w))) (c ∷ w ++ x) ≡ some x =
        rw (byte_len-to_lower u (c ∷ w) k) (drop_bytes-append (c ∷ w) x) in
      let more : byte_len (c ∷ w ++ b' ' ∷ r) ≡ suc (byte_len (c ∷ w ++ b' ' ∷ r) - 1) =
        omega (arith, ge_one) in
      rw front (
        strip_loop_cuts u marks (byte_len (c ∷ w ++ b' ' ∷ r)) (c ∷ w ++ x) found cut
        ∙ rw (back, more) (strip_loop_stays u marks _ r bare))

some≢none : {p : Text} → some p ≢ none
some≢none h = cc

find_prefix-none :
    (ps : List Text) (s : Text) → find_prefix ps s ≡ none → All (λ p. has_prefix p s ≡ false) ps
unfolding find_prefix
find_prefix-none [] s h = tt
find_prefix-none (p ∷ ps) s h = elim (Bool-cases (has_prefix p s)) [
  | inl here ↦ absurd (some≢none (rw here at h))
  | inr there ↦ (there, find_prefix-none ps s (rw there at h))
]

abbrev forward_prefixes : List Text
forward_prefixes = known_forward_prefixes ++ known_reply_prefixes

reply_prefixes_bytes : HaveBytes known_reply_prefixes
unfolding byte_len
reply_prefixes_bytes = omega arith

forward_prefixes_bytes : HaveBytes forward_prefixes
unfolding byte_len
forward_prefixes_bytes = omega arith

marked-unfinished : (mark : Text) (r : Stripped) → marked mark r ≡ unfinished → r ≡ unfinished
marked-unfinished mark panicked h = cc
marked-unfinished mark unfinished h = refl
marked-unfinished mark (stripped s) h = cc

marked-finishes :
    (u : Unicode) (subject mark : Text) (ps : List Text)
    → HaveBytes ps
    → marked mark (strip_prefixes u subject ps) ≢ unfinished
unfolding strip_prefixes
marked-finishes u subject mark ps h e =
    strip_loop-finishes u ps (suc (byte_len subject)) (trim_space u subject) h
      (omega (arith, byte_len-trim_space u subject)) (marked-unfinished mark _ e)

-- A subject that carries a mark once: behind it stands a trimmed text that begins with none of the
-- prefixes, whatever the case of its letters.
abbrev pub IsMarkedOnce : Unicode → Text → List Text → Stripped → Type 0
IsMarkedOnce u mark ps result =
    (t : Text) × (result ≡ stripped (mark ++ t))
    × All (λ p. has_prefix p (to_lower u t) ≡ false) ps
    × (trim_space u t ≡ t)

module _ (u : Unicode) (subject : Text) where
  -- The subjects of a reply and of a forward are computed in finitely many rounds, for every table
  -- of case and of space and every subject.
  pub subjects-finish :
      (reply_subject u subject ≢ unfinished) × (forward_subject u subject ≢ unfinished)
  unfolding reply_subject forward_subject
  subjects-finish = (
    marked-finishes u subject reply_prefix known_reply_prefixes reply_prefixes_bytes,
    marked-finishes u subject forward_prefix forward_prefixes forward_prefixes_bytes,
  )

  -- If lowering keeps the bytes of each letter of the subject, a reply and a forward get a subject
  -- that carries their mark once.
  pub subjects-IsMarkedOnce :
      KeepsWidth u subject
      → IsMarkedOnce u reply_prefix known_reply_prefixes (reply_subject u subject)
        × IsMarkedOnce u forward_prefix
            (known_forward_prefixes ++ known_reply_prefixes)
            (forward_subject u subject)
  unfolding reply_subject forward_subject
  subjects-IsMarkedOnce k = (
    once reply_prefix known_reply_prefixes reply_prefixes_bytes,
    once forward_prefix forward_prefixes forward_prefixes_bytes,
  )
    where
      once :
          (mark : Text) (ps : List Text)
          → HaveBytes ps
          → IsMarkedOnce u mark ps (marked mark (strip_prefixes u subject ps))
      once mark ps h =
          let (t, e) = strip_prefixes-stripped u subject ps h k in
          let (bare, trimmed) = strip_prefixes-bare u subject t ps e in
          (t, rw e refl, find_prefix-none ps _ bare, trimmed)
