-- ===== src/Imap/Envelope/Threads.antt =====
-- The thread key that a subject gives.
use nexus_mail.Base.{
  ℕ, zero, suc, ◌+◌, ◌≤◌, ◌<◌, true, false, List, [], ◌∷◌, ◌++◌, map, Option, none, some, length,
  drop, ◌≡◌, refl, sym, ap, subst, ◌∙◌, arith, All, All-In, Bool-cases, Option-cases, inl, inr, In,
}
use mathlib.Core.Path.{ap₂}
use nexus_mail.Base.Text.{Text, Unicode, to_lower, trim_space, has_prefix}
use nexus_mail.Base.Text.Trim.{byte_len-trim_space, trim_space-word}
use nexus_mail.Base.Bytes.{width-pos, byte_len}
use nexus_mail.Mime.References.{is_empty}
use nexus_mail.Mime.Subject.{find_prefix}
use nexus_mail.Imap.Envelope.{reply_prefixes, strip_replies, collapsed, normalise_subject}

-- No marker is the beginning of another one.
abbrev IsAlone : Text → Type 0
IsAlone p = (x : Text) → find_prefix reply_prefixes (p ++ x) ≡ some p

All-IsAlone : All IsAlone reply_prefixes
unfolding find_prefix has_prefix
All-IsAlone = (
  (λ x. refl),
  (
    (λ x. refl),
    (
      (λ x. refl),
      (
        (λ x. refl),
        (
          (λ x. refl),
          (
            (λ x. refl),
            (
              (λ x. refl),
              ((λ x. refl), ((λ x. refl), ((λ x. refl), ((λ x. refl), ((λ x. refl), tt))))),
            ),
          ),
        ),
      ),
    ),
  ),
)

abbrev IsInk : Text → Type 0
IsInk p = is_empty p ≡ false

All-IsInk : All IsInk reply_prefixes
All-IsInk = (
  refl,
  (refl, (refl, (refl, (refl, (refl, (refl, (refl, (refl, (refl, (refl, (refl, tt))))))))))),
)

byte_len-drop : (n : ℕ) (s : Text) → n ≤ length s → byte_len (drop n s) + n ≤ byte_len s
unfolding byte_len
byte_len-drop zero s h = omega arith
byte_len-drop (suc n) [] h = absurd (omega arith)
byte_len-drop (suc n) (c ∷ s) h = omega (arith, byte_len-drop n s, width-pos c)

length-has_prefix : (p s : Text) → has_prefix p s ≡ true → length p ≤ length s
unfolding has_prefix
length-has_prefix [] s h = omega arith
length-has_prefix (c ∷ p) [] h = cc
length-has_prefix (c ∷ p) (d ∷ s) h = ground (arith, length-has_prefix p s)

true_not_false : true ≡ false → ⊥
true_not_false e = cc

some-injective : {p q : Text} → some p ≡ some q → p ≡ q
some-injective e = cc

module _ (q : Text) (ps : List Text) (s : Text) where
  find_prefix_here : has_prefix q s ≡ true → find_prefix (q ∷ ps) s ≡ some q
  unfolding find_prefix
  find_prefix_here h = rw h refl

  find_prefix_later : has_prefix q s ≡ false → find_prefix (q ∷ ps) s ≡ find_prefix ps s
  unfolding find_prefix
  find_prefix_later h = rw h refl

-- What is found is a marker at the beginning.
find_prefix-found :
    (ps : List Text) (s p : Text)
    → All IsInk ps
    → find_prefix ps s ≡ some p
    → (has_prefix p s ≡ true) × IsInk p
find_prefix-found [] s p ink h = unfold find_prefix in cc
find_prefix-found (q ∷ ps) s p (i, ink) h = elim (Bool-cases (has_prefix q s)) [
  | inl found ↦
      (let e : q ≡ p = some-injective (sym (find_prefix_here q ps s found) ∙ h) in
        subst (λ t. (has_prefix t s ≡ true) × IsInk t) e (found, i))
  | inr another ↦ find_prefix-found ps s p ink (sym (find_prefix_later q ps s another) ∙ h)
]

length-ink : (p : Text) → IsInk p → 1 ≤ length p
length-ink [] h = cc
length-ink (c ∷ p) h = omega arith

module _ (u : Unicode) where
  -- Each round leaves fewer bytes.
  byte_len-cut :
      (out p : Text)
      → find_prefix reply_prefixes out ≡ some p
      → byte_len (trim_space u (drop (length p) out)) < byte_len out
  byte_len-cut out p h =
      let (begins, ink) = find_prefix-found reply_prefixes out p All-IsInk h in
      omega (
        arith,
        byte_len-trim_space u (drop (length p) out),
        byte_len-drop (length p) out (length-has_prefix p out begins),
        length-ink p ink,
      )

  strip_replies_none :
      (fuel : ℕ) (out : Text)
      → find_prefix reply_prefixes out ≡ none
      → strip_replies u (suc fuel) out ≡ some out
  unfolding strip_replies
  strip_replies_none fuel out h = rw (h, strip_replies) refl

  strip_replies-some :
      (fuel : ℕ) (out p : Text)
      → find_prefix reply_prefixes out ≡ some p
      → strip_replies u (suc fuel) out ≡ strip_replies u fuel (trim_space u (drop (length p) out))
  unfolding strip_replies
  strip_replies-some fuel out p h = rw (h, strip_replies) refl

  -- Fuel above the length gives a subject, and more fuel gives the same.
  pub strip_replies-enough :
      (f g : ℕ) (out : Text)
      → byte_len out < f
      → byte_len out < g
      → (t : Text) × (strip_replies u f out ≡ some t) × (strip_replies u g out ≡ some t)
  strip_replies-enough zero g out h k = absurd (omega arith)
  strip_replies-enough (suc f) zero out h k = absurd (omega arith)
  strip_replies-enough (suc f) (suc g) out h k =
      elim (Option-cases (find_prefix reply_prefixes out)) [
        | inl ends ↦ (out, strip_replies_none f out ends, strip_replies_none g out ends)
        | inr (p, found) ↦
            let fewer = byte_len-cut out p found in
            let (t, a, b) =
              strip_replies-enough f g (trim_space u (drop (length p) out)) (omega arith)
                (omega arith) in
            (t, strip_replies-some f out p found ∙ a, strip_replies-some g out p found ∙ b)
      ]

drop-append : (p x : Text) → drop (length p) (p ++ x) ≡ x
drop-append [] x = refl
drop-append (c ∷ p) x = drop-append p x

empty_unknown : In [] reply_prefixes → ⊥
empty_unknown i = absurd (true_not_false (All-In IsInk reply_prefixes All-IsInk [] i))

map-append : (f : ℕ → ℕ) (s t : Text) → map f (s ++ t) ≡ map f s ++ map f t
map-append f [] t = refl
map-append f (c ∷ s) t = ap (◌∷◌ (f c)) (map-append f s t)

module _ (u : Unicode) where
  strip_replies-marker :
      (p s : Text)
      → In p reply_prefixes
      → All (λ c. u.is_space c ≡ false) p
      → u.is_space b' ' ≡ true
      → trim_space u s ≡ s
      → (let out = trim_space u (p ++ b' ' ∷ s) in
          strip_replies u (suc (byte_len out)) out ≡ strip_replies u (suc (byte_len s)) s)
  strip_replies-marker [] s known ink space trimmed = absurd (empty_unknown known)
  strip_replies-marker (c ∷ w) s known ink space trimmed =
      let p = c ∷ w in
      let out = trim_space u (p ++ b' ' ∷ s) in
      let (x, begins, rest) = trim_space-word u c w s ink space trimmed in
      let found : find_prefix reply_prefixes out ≡ some p =
        ap (find_prefix reply_prefixes) begins
        ∙ All-In IsAlone reply_prefixes All-IsAlone p known x in
      let cut : trim_space u (drop (length p) out) ≡ s =
        ap (λ t. trim_space u (drop (length p) t)) begins
        ∙ ap (trim_space u) (drop-append p x)
        ∙ rest in
      let fewer : byte_len s < byte_len out =
        subst (λ t. byte_len t < byte_len out) cut (byte_len-cut u out p found) in
      let (t, more, enough) =
        strip_replies-enough u (byte_len out) (suc (byte_len s)) s fewer (omega arith) in
      strip_replies-some u (byte_len out) out p found
      ∙ ap (strip_replies u (byte_len out)) cut
      ∙ more
      ∙ sym enough

  -- A subject gets one thread key with a marker before it and without.
  pub normalise_subject-marker :
      (p marker s : Text)
      → In p reply_prefixes
      → to_lower u marker ≡ p
      → All (λ c. u.is_space c ≡ false) p
      → u.to_lower b' ' ≡ b' '
      → u.is_space b' ' ≡ true
      → trim_space u (to_lower u s) ≡ to_lower u s
      → normalise_subject u (marker ++ b' ' ∷ s) ≡ normalise_subject u s
  normalise_subject-marker p marker s known lowers ink blank space trimmed =
      let lower = to_lower u s in
      let both : to_lower u (marker ++ b' ' ∷ s) ≡ p ++ b' ' ∷ lower =
        map-append u.to_lower marker (b' ' ∷ s) ∙ ap₂ (λ t c. t ++ c ∷ lower) lowers blank in
      let answer : Text → Option Text = λ t. collapsed u (strip_replies u (suc (byte_len t)) t) in
      unfold normalise_subject in
      ap (λ t. answer (trim_space u t)) both
      ∙ ap (collapsed u) (strip_replies-marker p lower known ink space trimmed)
      ∙ sym (ap answer trimmed)
