-- ===== src/Mime/Subject/Again.antt =====
-- A reply to a reply, and a subject whose prefix changes its length when it is lowered.
use nexus_mail.Base.{
  ℕ, suc, ◌-◌, ◌<◌, List, [], ◌∷◌, ◌++◌, none, some, true, false, ◌≡◌, refl, sym, ap, subst, drop,
  ◌∙◌, arith, All,
}
use nexus_mail.Base.Text.{Text, codes, Unicode, to_lower, trim_space, ascii_lower, ascii_space}
use nexus_mail.Base.Text.Trim.{trim_right, trim_space-append, trim_right-trim_right}
use nexus_mail.Base.Bytes.{byte_len, drop_bytes, width}
use nexus_mail.Mime.Subject.{
  find_prefix, strip_loop, Stripped, panicked, unfinished, stripped, strip_prefixes, marked,
  reply_subject, forward_subject, reply_prefix, forward_prefix, known_reply_prefixes,
  known_forward_prefixes,
}
use nexus_mail.Mime.Subject.Cut.{KeepsWidth, strip_loop_stays, strip_loop_cuts, stripped-injective}
use nexus_mail.Mime.Subject.Marks.{
  AgreesOnAscii, byte_len-pos, strip_prefixes-mark, strip_prefixes-bare,
}

marked-stripped :
    (mark t : Text) (r : Stripped)
    → marked mark r ≡ stripped t
    → (s : Text) × (r ≡ stripped s) × (t ≡ mark ++ s)
marked-stripped mark t panicked h = cc
marked-stripped mark t unfinished h = cc
marked-stripped mark t (stripped s) h = (s, refl, sym (stripped-injective h))

mark_again :
    (u : Unicode) (c : ℕ) (w r : Text) (ps : List Text) (p : Text)
    → All (λ d. u.is_space d ≡ false) (c ∷ w)
    → u.is_space b' ' ≡ true
    → KeepsWidth u (c ∷ w)
    → to_lower u (c ∷ w) ≡ p
    → find_prefix (p ∷ ps) (to_lower u r) ≡ none
    → trim_space u r ≡ r
    → strip_prefixes u (c ∷ w ++ b' ' ∷ r) (p ∷ ps) ≡ stripped r
mark_again u c w r ps p ink space k lowered =
    subst
      (λ q.
        find_prefix (q ∷ ps) (to_lower u r) ≡ none
        → trim_space u r ≡ r
        → strip_prefixes u (c ∷ w ++ b' ' ∷ r) (q ∷ ps) ≡ stripped r)
      lowered (strip_prefixes-mark u c w r ps ink space k)

module _ (u : Unicode) (ascii : AgreesOnAscii u) where
  lowers : (c : ℕ) → c < 128 → u.to_lower c ≡ ascii_lower c
  lowers c h = (ascii c h).0

  spaces : (c : ℕ) → c < 128 → u.is_space c ≡ ascii_space c
  spaces c h = (ascii c h).1

  word_re :
      (All (λ d. u.is_space d ≡ false) (codes "Re:")) × (to_lower u (codes "Re:") ≡ codes "re:")
  word_re = (
    (spaces b'R' (omega arith), (spaces b'e' (omega arith), (spaces b':' (omega arith), tt))),
    rw (lowers b'R' (omega arith), lowers b'e' (omega arith), lowers b':' (omega arith)) refl,
  )

  width_re : KeepsWidth u (codes "Re:")
  unfolding width
  width_re = (
    rw (lowers b'R' (omega arith)) refl,
    (rw (lowers b'e' (omega arith)) refl, (rw (lowers b':' (omega arith)) refl, tt)),
  )

  -- The subject of a reply to a reply is that of the reply, for tables that agree with ASCII.
  pub reply_subject-reply_subject :
      (original t : Text) → reply_subject u original ≡ stripped t → reply_subject u t ≡ stripped t
  unfolding reply_subject
  reply_subject-reply_subject original t h =
      let (s, e, whole) = marked-stripped reply_prefix t _ h in
      let (bare, trimmed) = strip_prefixes-bare u original s known_reply_prefixes e in
      let again =
        mark_again u b'R' (codes "e:") s (drop 1 known_reply_prefixes) (codes "re:") word_re.0
          (spaces b' ' (omega arith)) width_re word_re.1 bare trimmed in
      rw whole (ap (marked reply_prefix) again)

  -- strings.ToLower takes İ to i, a byte less, so that the bytes of the prefix ilt: are cut from a
  -- longer one: the subject of a forward keeps the colon of İLT:.
  pub forward_subject_dotted :
      (s : Text)
      → u.to_lower 0x130 ≡ b'i'
      → u.is_space 0x130 ≡ false
      → (r : Text) × (forward_subject u (codes "İLT:" ++ s) ≡ stripped (codes "Fwd: :" ++ r))
  unfolding forward_subject strip_prefixes
  forward_subject_dotted s dotted ink =
      let ps : List Text = known_forward_prefixes ++ known_reply_prefixes in
      let colon : u.is_space b':' ≡ false = spaces b':' (omega arith) in
      let front : trim_space u (codes "İLT:" ++ s) ≡ codes "İLT:" ++ trim_right u s =
        trim_space-append u 0x130 (codes "LT:") s
          (ink, (spaces b'L' (omega arith), (spaces b'T' (omega arith), (colon, tt)))) in
      let found : find_prefix ps (to_lower u (codes "İLT:" ++ trim_right u s))
          ≡ some (codes "ilt:") =
        rw (dotted, lowers b'L' (omega arith), lowers b'T' (omega arith), lowers b':' (omega arith))
          refl in
      let back : trim_space u (codes ":" ++ trim_right u s) ≡ codes ":" ++ trim_right u s =
        trim_space-append u b':' [] (trim_right u s) (colon, tt)
        ∙ ap (λ t. codes ":" ++ t) (trim_right-trim_right u s) in
      let bare : find_prefix ps (to_lower u (codes ":" ++ trim_right u s)) ≡ none =
        rw (lowers b':' (omega arith)) refl in
      let n : byte_len (codes "İLT:" ++ s) ≡ suc (byte_len (codes "İLT:" ++ s) - 1) =
        omega (arith, byte_len-pos 0x130 (codes "LT:" ++ s)) in
      let ends : strip_loop u ps (byte_len (codes "İLT:" ++ s)) (codes ":" ++ trim_right u s)
          ≡ stripped (codes ":" ++ trim_right u s) =
        rw n (strip_loop_stays u ps _ (codes ":" ++ trim_right u s) bare) in
      (
        trim_right u s,
        rw front (
            ap (marked forward_prefix) (
              strip_loop_cuts u ps (byte_len (codes "İLT:" ++ s)) (codes "İLT:" ++ trim_right u s)
                found (cut (trim_right u s))
              ∙ ap (strip_loop u ps (byte_len (codes "İLT:" ++ s))) back
              ∙ ends)),
      )
    where
      cut :
          (t : Text)
          → drop_bytes (byte_len (codes "ilt:")) (codes "İLT:" ++ t) ≡ some (codes ":" ++ t)
      cut t = refl
