-- ===== src/Base/Text/Trim.antt =====
-- What `strings.TrimSpace` leaves, for every table of space characters.
use Prim.Native.Nat.{ℕ, ◌≤◌}
use mathlib.Core.Path.{◌≡◌, refl, sym, ◌∙◌}
use mathlib.Core.Logic.{inl, inr}
use mathlib.Core.Bool.{true, false}
use mathlib.Core.List.{[], ◌∷◌, ◌++◌, reverse, reverse-append, reverse-cons}
use native.Mathlib.Nat.{le_trans}
use native.Mathlib.Omega.{arith}
use nexus_mail.Base.Tests.{if◌then◌else◌, Bool-cases}
use nexus_mail.Base.Text.{Text, Unicode, trim_left, trim_space}
use nexus_mail.Base.Lists.{All}
use nexus_mail.Base.Bytes.{byte_len}

module _ (u : Unicode) where
  abbrev pub trim_right : Text → Text
  trim_right s = reverse (trim_left u (reverse s))

  -- A text that does not begin with space.
  abbrev pub IsHeaded : Text → Type 0
  IsHeaded [] = Unit
  IsHeaded (c ∷ s) = u.is_space c ≡ false

  -- One more character before a text whose end is trimmed.
  abbrev keep : ℕ → Text → Text
  keep c [] = if u.is_space c then [] else c ∷ []
  keep c (d ∷ s) = c ∷ d ∷ s

  abbrev keep_end : ℕ → Text → Text
  keep_end c [] = if u.is_space c then [] else c ∷ []
  keep_end c (d ∷ s) = d ∷ s ++ c ∷ []

  trim_left-append : (s : Text) (c : ℕ) → trim_left u (s ++ c ∷ []) ≡ keep_end c (trim_left u s)
  unfolding trim_left
  trim_left-append [] c = refl
  trim_left-append (d ∷ s) c = elim (Bool-cases (u.is_space d)) [
    | inl space ↦ rw space (trim_left-append s c)
    | inr ink ↦ rw ink refl
  ]

  keep-append : (c d : ℕ) (s : Text) → keep c (s ++ d ∷ []) ≡ c ∷ (s ++ d ∷ [])
  keep-append c d [] = refl
  keep-append c d (e ∷ s) = refl

  reverse-keep_end : (c : ℕ) (s : Text) → reverse (keep_end c s) ≡ keep c (reverse s)
  reverse-keep_end c [] = ground arith
  reverse-keep_end c (d ∷ s) =
      reverse-append (d ∷ s) (c ∷ []) ∙ sym (rw (reverse-cons d s) (keep-append c d (reverse s)))

  trim_right-cons : (c : ℕ) (s : Text) → trim_right (c ∷ s) ≡ keep c (trim_right s)
  trim_right-cons c s =
      rw (reverse-append (c ∷ []) s, trim_left-append (reverse s) c)
        (reverse-keep_end c (trim_left u (reverse s)))

  keep-keep : (c : ℕ) (s : Text) → trim_right s ≡ s → trim_right (keep c s) ≡ keep c s
  keep-keep c [] h = elim (Bool-cases (u.is_space c)) [
    | inl space ↦ rw space (h)
    | inr ink ↦ rw (ink, trim_right-cons c [], h, ink) refl
  ]
  keep-keep c (d ∷ s) h = rw (trim_right-cons c (d ∷ s), h) refl

  pub trim_right-trim_right : (s : Text) → trim_right (trim_right s) ≡ trim_right s
  unfolding trim_left
  trim_right-trim_right [] = refl
  trim_right-trim_right (c ∷ s) =
      rw (trim_right-cons c s) (keep-keep c (trim_right s) (trim_right-trim_right s))

  trim_left-IsHeaded : (s : Text) → IsHeaded (trim_left u s)
  unfolding trim_left
  trim_left-IsHeaded [] = tt
  trim_left-IsHeaded (c ∷ s) = elim (Bool-cases (u.is_space c)) [
    | inl space ↦ rw space (trim_left-IsHeaded s)
    | inr ink ↦ rw ink ink
  ]

  pub trim_left-of_IsHeaded : (s : Text) → IsHeaded s → trim_left u s ≡ s
  unfolding trim_left
  trim_left-of_IsHeaded [] h = refl
  trim_left-of_IsHeaded (c ∷ s) h = rw h refl

  trim_right-IsHeaded : (s : Text) → IsHeaded s → IsHeaded (trim_right s)
  trim_right-IsHeaded [] h = unfold trim_left in tt
  trim_right-IsHeaded (c ∷ s) h = rw (trim_right-cons c s) (keep-IsHeaded (trim_right s))
    where
      keep-IsHeaded : (t : Text) → IsHeaded (keep c t)
      keep-IsHeaded [] = rw h h
      keep-IsHeaded (d ∷ t) = h

  -- Trimming twice is trimming once.
  pub trim_space-trim_space : (s : Text) → trim_space u (trim_space u s) ≡ trim_space u s
  unfolding trim_space
  trim_space-trim_space s =
      rw (trim_left-of_IsHeaded _ (trim_right-IsHeaded _ (trim_left-IsHeaded s)))
        (trim_right-trim_right (trim_left u s))

  byte_len-trim_left : (s : Text) → byte_len (trim_left u s) ≤ byte_len s
  unfolding trim_left byte_len
  byte_len-trim_left [] = omega arith
  byte_len-trim_left (c ∷ s) = ground (arith, byte_len-trim_left s)

  byte_len-keep : (c : ℕ) (s : Text) → byte_len (keep c s) ≤ byte_len (c ∷ s)
  unfolding byte_len
  byte_len-keep c [] = ground arith
  byte_len-keep c (d ∷ s) = omega arith

  byte_len-cons :
      (c : ℕ) (s t : Text) → byte_len s ≤ byte_len t → byte_len (c ∷ s) ≤ byte_len (c ∷ t)
  unfolding byte_len
  byte_len-cons c s t h = omega arith

  byte_len-trim_right : (s : Text) → byte_len (trim_right s) ≤ byte_len s
  byte_len-trim_right [] = unfold trim_left byte_len in omega arith
  byte_len-trim_right (c ∷ s) =
      rw (trim_right-cons c s)
        (le_trans (byte_len-keep c (trim_right s)) (byte_len-cons c _ _ (byte_len-trim_right s)))

  pub byte_len-trim_space : (s : Text) → byte_len (trim_space u s) ≤ byte_len s
  unfolding trim_space
  byte_len-trim_space s = omega (arith, byte_len-trim_right (trim_left u s), byte_len-trim_left s)

  module _ {κ} (P : ℕ → Type κ) where
    All-trim_left : (s : Text) → All P s → All P (trim_left u s)
    unfolding trim_left
    All-trim_left [] h = tt
    All-trim_left (c ∷ s) h = elim (Bool-cases (u.is_space c)) [
      | inl space ↦ rw space (All-trim_left s h.1)
      | inr ink ↦ rw ink h
    ]

    All-keep : (c : ℕ) (s : Text) → P c → All P s → All P (keep c s)
    All-keep c [] p h = elim (Bool-cases (u.is_space c)) [
      | inl space ↦ rw space tt
      | inr ink ↦ rw ink (p, tt)
    ]
    All-keep c (d ∷ s) p h = (p, h)

    All-trim_right : (s : Text) → All P s → All P (trim_right s)
    unfolding trim_left
    All-trim_right [] h = tt
    All-trim_right (c ∷ s) h =
        rw (trim_right-cons c s) (All-keep c (trim_right s) h.0 (All-trim_right s h.1))

    pub All-trim_space : (s : Text) → All P s → All P (trim_space u s)
    unfolding trim_space
    All-trim_space s h = All-trim_right (trim_left u s) (All-trim_left s h)

  -- A word before a text keeps its place.
  pub trim_right-append :
      (w s : Text) → All (λ c. u.is_space c ≡ false) w → trim_right (w ++ s) ≡ w ++ trim_right s
  trim_right-append [] s h = refl
  trim_right-append (c ∷ w) s h =
      rw (trim_right-cons c (w ++ s), trim_right-append w s h.1) (keep-ink (w ++ trim_right s))
    where
      keep-ink : (t : Text) → keep c t ≡ c ∷ t
      keep-ink [] = rw h.0 refl
      keep-ink (d ∷ t) = refl

  -- A text that begins with a word is trimmed behind the word only.
  pub trim_space-append :
      (c : ℕ) (w s : Text)
      → All (λ d. u.is_space d ≡ false) (c ∷ w)
      → trim_space u (c ∷ w ++ s) ≡ c ∷ w ++ trim_right s
  unfolding trim_space
  trim_space-append c w s ink =
      rw (trim_left-of_IsHeaded (c ∷ w ++ s) ink.0) (trim_right-append (c ∷ w) s ink)

  pub trim_right-of_trimmed : (s : Text) → trim_space u s ≡ s → trim_right s ≡ s
  unfolding trim_space
  trim_right-of_trimmed s h = rw (sym h) (trim_right-trim_right (trim_left u s))

  trim_left-space : (c : ℕ) (s : Text) → u.is_space c ≡ true → trim_left u (c ∷ s) ≡ trim_left u s
  unfolding trim_left
  trim_left-space c s h = rw h refl

  -- A word, a space and a trimmed text: trimming drops the space if nothing follows it, and what
  -- follows the word trims to the text.
  pub trim_space-word :
      (c : ℕ) (w r : Text)
      → All (λ d. u.is_space d ≡ false) (c ∷ w)
      → u.is_space b' ' ≡ true
      → trim_space u r ≡ r
      → (x : Text) × (trim_space u (c ∷ w ++ b' ' ∷ r) ≡ c ∷ w ++ x) × (trim_space u x ≡ r)
  unfolding trim_space
  trim_space-word c w r ink space trimmed = (
    keep b' ' r,
    trim_space-append c w (b' ' ∷ r) ink
        ∙ rw (trim_right-cons b' ' r, trim_right-of_trimmed r trimmed) refl,
    after r trimmed,
  )
    where
      after : (t : Text) → trim_space u t ≡ t → trim_space u (keep b' ' t) ≡ t
      after [] h = rw space h
      after (d ∷ t) h = rw (trim_left-space b' ' (d ∷ t) space) h
