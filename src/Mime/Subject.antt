-- ===== src/Mime/Subject.antt =====
-- internal/mailmime/reply.go: the subject of a reply and of a forward.
pub mod Cut
pub mod Marks
pub mod Again
use nexus_mail.Base.{ℕ, zero, suc, List, [], ◌∷◌, ◌++◌, Option, none, some, if◌then◌else◌}
use nexus_mail.Base.Text.{Text, codes, Unicode, to_lower, trim_space, has_prefix}
use nexus_mail.Base.Bytes.{byte_len, drop_bytes}

abbrev pub reply_prefix : Text
reply_prefix = codes "Re: "

abbrev pub forward_prefix : Text
forward_prefix = codes "Fwd: "

abbrev pub known_reply_prefixes : List Text
known_reply_prefixes =
    codes "re:"
    ∷ codes "re :"
    ∷ codes "aw:"
    ∷ codes "antwort:"
    ∷ codes "yanıt:"
    ∷ codes "yan:"
    ∷ codes "sv:"
    ∷ codes "vs:"
    ∷ codes "ref:"
    ∷ []

abbrev pub known_forward_prefixes : List Text
known_forward_prefixes =
    codes "fwd:" ∷ codes "fw:" ∷ codes "wg:" ∷ codes "ilt:" ∷ codes "vs:" ∷ codes "tr:" ∷ []

-- How the loop over the prefixes ends: `panicked` is a slice past the end of the subject, and
-- `unfinished` is the end of the fuel.
pub data Stripped : Type 0 where
  panicked unfinished : Stripped
  stripped : Text → Stripped

-- The inner loop, up to its `break`.
unfoldable pub find_prefix : List Text → Text → Option Text
unfolding has_prefix
find_prefix [] lower = none
find_prefix (p ∷ ps) lower = if has_prefix p lower then some p else find_prefix ps lower

-- A prefix is found in the lowered subject and its bytes are cut from the subject itself.
unfoldable pub strip_loop : Unicode → List Text → ℕ → Text → Stripped
unfolding find_prefix drop_bytes byte_len trim_space
strip_loop u ps zero s = unfinished
strip_loop u ps (suc fuel) s = elim (find_prefix ps (to_lower u s)) [
  | none ↦ stripped s
  | some p ↦ elim (drop_bytes (byte_len p) s) [
    | none ↦ panicked
    | some t ↦ strip_loop u ps fuel (trim_space u t)
  ]
]

unfoldable pub strip_prefixes : Unicode → Text → List Text → Stripped
unfolding strip_loop
strip_prefixes u subject ps = strip_loop u ps (suc (byte_len subject)) (trim_space u subject)

abbrev pub marked : Text → Stripped → Stripped
marked mark panicked = panicked
marked mark unfinished = unfinished
marked mark (stripped s) = stripped (mark ++ s)

unfoldable pub reply_subject : Unicode → Text → Stripped
unfolding strip_prefixes
reply_subject u original = marked reply_prefix (strip_prefixes u original known_reply_prefixes)

unfoldable pub forward_subject : Unicode → Text → Stripped
unfolding strip_prefixes
forward_subject u original =
    marked forward_prefix
      (strip_prefixes u original (known_forward_prefixes ++ known_reply_prefixes))
