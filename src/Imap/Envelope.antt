-- ===== src/Imap/Envelope.antt =====
-- internal/imapx/envelope.go: the thread of a message, its date, its files and its Reply-To. The walk
-- of a body structure and the text of an address are methods of go-imap; the model begins with what
-- they give. A date of `none` is the zero time; times are seconds.
pub mod Threads
pub mod Listed
pub mod Replies
use nexus_mail.Base.{
  ℕ, zero, suc, ◌+◌, ◌*◌, Bool, true, false, not, ◌&&◌, ◌||◌, List, [], ◌∷◌, ◌++◌, Option, none,
  some, length, drop, any, ltb, ◌==◌, if◌then◌else◌,
}
use nexus_mail.Base.Text.{Text, codes, Unicode, to_lower, trim_space, has_prefix, equal_fold}
use nexus_mail.Base.Bytes.{byte_len}
use nexus_mail.Model.{Address, AttachmentPart}
use nexus_mail.Mime.References.{is_empty}
use nexus_mail.Mime.Subject.{find_prefix}
use nexus_mail.Html.Find.{fields, join_spaces}

abbrev pub reply_prefixes : List Text
reply_prefixes =
    codes "re:"
    ∷ codes "fwd:"
    ∷ codes "fw:"
    ∷ codes "ynt:"
    ∷ codes "yan:"
    ∷ codes "ilt:"
    ∷ codes "i̇lt:"
    ∷ codes "aw:"
    ∷ codes "wg:"
    ∷ codes "sv:"
    ∷ codes "vs:"
    ∷ codes "rif:"
    ∷ []

-- 48 hours.
abbrev pub max_date_skew : ℕ
max_date_skew = 172800

-- The loop over the prefixes; `none` is the end of the fuel.
unfoldable pub strip_replies : Unicode → ℕ → Text → Option Text
unfolding find_prefix trim_space
strip_replies u zero out = none
strip_replies u (suc fuel) out = elim (find_prefix reply_prefixes out) [
  | none ↦ some out
  | some p ↦ strip_replies u fuel (trim_space u (drop (length p) out))
]

abbrev pub collapsed : Unicode → Option Text → Option Text
collapsed u none = none
collapsed u (some out) = some (join_spaces (fields u [] out))

unfoldable pub normalise_subject : Unicode → Text → Option Text
unfolding strip_replies fields join_spaces
normalise_subject u s =
    let out = trim_space u (to_lower u s) in collapsed u (strip_replies u (suc (byte_len out)) out)

abbrev pub by_subject : Option Text → Option Text
by_subject none = none
by_subject (some s) = some (codes "subject:" ++ s)

abbrev pub first_text : List Text → Text
first_text [] = []
first_text (t ∷ ts) = t

-- A field is never empty, so that an empty text stands for none.
unfoldable pub thread_key : Unicode → Text → Text → List Text → Text → Option Text
unfolding normalise_subject fields
thread_key u message_id in_reply_to references subject =
    let root = first_text references in
    let parent = first_text (fields u [] in_reply_to) in
    if not (is_empty root)
    then some root
    else if not (is_empty parent)
    then some parent
    else if not (is_empty message_id)
    then some message_id
    else by_subject (normalise_subject u subject)

unfoldable pub reconcile_date : Option ℕ → Option ℕ → Option ℕ
reconcile_date header none = header
reconcile_date none (some internal) = some internal
reconcile_date (some header) (some internal) =
    if ltb (internal + max_date_skew) header then some internal else some header

-- A leaf of a body structure.
pub record Leaf : Type 0 where
  pub kind : Text
  pub subtype : Text
  pub encoding : Text
  pub size : ℕ
  pub disposition : Option Text
  pub filename : Text

-- What the walk visits, with its path.
pub data Visited : Type 0 where
  leaf : List ℕ → Leaf → Visited
  multipart : List ℕ → Visited

abbrev pub is_disposed : Unicode → Text → Option Text → Bool
is_disposed u value none = false
is_disposed u value (some disposition) = equal_fold u disposition value

-- `strings.Join` with a point.
unfoldable pub part_number : (ℕ → Text) → List ℕ → Text
part_number itoa [] = []
part_number itoa (n ∷ []) = itoa n
part_number itoa (n ∷ m ∷ path) = itoa n ++ b'.' ∷ part_number itoa (m ∷ path)

module _ (u : Unicode) where
  -- The tests before the append, on a part that is not the top.
  unfoldable pub is_file : Leaf → Bool
  unfolding equal_fold
  is_file p =
      let attached = is_disposed u (codes "attachment") p.disposition in
      if not attached && equal_fold u p.kind (codes "text")
      then false
      else not (not attached && is_disposed u (codes "inline") p.disposition && is_empty p.filename)

  unfoldable pub described : (ℕ → Text) → List ℕ → Leaf → AttachmentPart
  unfolding part_number
  described itoa path p = record {
    id = 0;
    part_id = part_number itoa path;
    filename = p.filename;
    mime_type = to_lower u (p.kind ++ b'/' ∷ p.subtype);
    size = p.size;
    encoding = p.encoding;
    local_path = [];
    downloaded = false;
  }

  unfoldable pub attachment_parts : (ℕ → Text) → List Visited → List AttachmentPart
  unfolding is_file described
  attachment_parts itoa [] = []
  attachment_parts itoa (multipart path ∷ visited) = attachment_parts itoa visited
  attachment_parts itoa (leaf [] p ∷ visited) = attachment_parts itoa visited
  attachment_parts itoa (leaf (n ∷ path) p ∷ visited) =
      let rest = attachment_parts itoa visited in
      if is_file p then described itoa (n ∷ path) p ∷ rest else rest

  unfoldable pub has_attachment_parts : List Visited → Bool
  unfolding equal_fold
  has_attachment_parts [] = false
  has_attachment_parts (multipart path ∷ visited) = has_attachment_parts visited
  has_attachment_parts (leaf path p ∷ visited) =
      is_disposed u (codes "attachment") p.disposition
      || not (equal_fold u p.kind (codes "text"))
      || has_attachment_parts visited

  unfoldable pub same_addresses : List Address → List Address → Bool
  unfolding equal_fold
  same_addresses [] [] = true
  same_addresses [] (b ∷ ys) = false
  same_addresses (a ∷ xs) [] = false
  same_addresses (a ∷ xs) (b ∷ ys) = equal_fold u a.addr b.addr && same_addresses xs ys

  -- From the Reply-To and the From of the envelope.
  unfoldable pub reply_to_from : List Address → List Address → List Address
  unfolding same_addresses
  reply_to_from reply_to from = if same_addresses reply_to from then [] else reply_to
