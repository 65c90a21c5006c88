-- ===== src/Imap/Envelope/Replies.antt =====
-- The thread of a reply that this program writes: mailmime/reply.go against imapx/envelope.go.
use nexus_mail.Base.{
  Bool, true, false, not, List, [], ◌∷◌, ◌++◌, Option, none, some, length, leb, if◌then◌else◌, ◌≡◌,
  ◌≢◌, ◌⊎◌, refl, sym, ap, ◌∙◌, arith, Bool-cases, suc, inl, inr,
}
use mathlib.Core.Path.{ap₂}
use nexus_mail.Base.Text.{Text, Unicode, trim_space, to_lower}
use nexus_mail.Base.Bytes.{byte_len}
use nexus_mail.Base.Distinct.{first_by_key}
use nexus_mail.Mime.References.{
  is_empty, max_references, unique_references, cap_references, reply_references,
}
use nexus_mail.Html.Find.{fields}
use nexus_mail.Imap.Envelope.{first_text, thread_key, normalise_subject, collapsed, by_subject}
use nexus_mail.Imap.Envelope.Threads.{strip_replies-enough}

cap_references-root : (r : Text) (refs : List Text) → first_text (cap_references (r ∷ refs)) ≡ r
unfolding cap_references
cap_references-root r refs = elim (Bool-cases (leb (length (r ∷ refs)) max_references)) [
  | inl short ↦ rw short refl
  | inr long ↦ rw long refl
]

unique_references-root :
    (r : Text) (refs : List Text)
    → is_empty r ≡ false
    → unique_references (r ∷ refs) ≡ r ∷ first_by_key (λ s. s) is_empty (r ∷ []) refs
unfolding unique_references first_by_key
unique_references-root r refs ink = rw (ink, first_by_key) refl

reply_references-root :
    (r : Text) (refs : List Text) (id : Text)
    → is_empty r ≡ false
    → first_text (reply_references (r ∷ refs) id) ≡ r
unfolding reply_references
reply_references-root r refs id ink =
    ap (λ rs. first_text (cap_references rs)) (unique_references-root r (refs ++ id ∷ []) ink)
    ∙ cap_references-root r _

reply_references-alone :
    (id : Text) → is_empty id ≡ false → first_text (reply_references [] id) ≡ id
unfolding reply_references
reply_references-alone id ink =
    ap (λ rs. first_text (cap_references rs))
      (unique_references-root id [] ink ∙ ap (λ rs. id ∷ rs) (unfold first_by_key in refl))
    ∙ cap_references-root id []

module _ (u : Unicode) (id in_reply_to : Text) (refs : List Text) (subject : Text) where
  thread_key_root :
      is_empty (first_text refs) ≡ false
      → thread_key u id in_reply_to refs subject ≡ some (first_text refs)
  unfolding thread_key
  thread_key_root ink = rw ink refl

thread_key_own :
    (u : Unicode) (id subject : Text)
    → is_empty id ≡ false
    → thread_key u id [] [] subject ≡ some id
unfolding thread_key fields
thread_key_own u id subject ink = rw ink refl

-- A reply that carries the references written for it is in the thread of its parent, whatever its
-- own id, subject and In-Reply-To, if the parent has references or stands at the beginning of a
-- thread with an id.
pub thread_key-reply_references :
    (u : Unicode) (id in_reply_to : Text) (refs : List Text)
    (subject reply_id reply_to_id reply_subject : Text)
    → (is_empty (first_text refs) ≡ false)
      ⊎ ((refs ≡ []) × (in_reply_to ≡ []) × (is_empty id ≡ false))
    → thread_key u reply_id reply_to_id (reply_references refs id) reply_subject
      ≡ thread_key u id in_reply_to refs subject
thread_key-reply_references u id in_reply_to [] subject a b c (inl h) = cc
thread_key-reply_references u id in_reply_to (r ∷ refs) subject a b c (inl ink) =
    let root = reply_references-root r refs id ink in
    thread_key_root u a b (reply_references (r ∷ refs) id) c (ap is_empty root ∙ ink)
    ∙ ap some root
    ∙ sym (thread_key_root u id in_reply_to (r ∷ refs) subject ink)
thread_key-reply_references u id in_reply_to refs subject a b c (inr (alone, first, ink)) =
    let root =
      ap (λ rs. first_text (reply_references rs id)) alone ∙ reply_references-alone id ink in
    thread_key_root u a b (reply_references refs id) c (ap is_empty root ∙ ink)
    ∙ ap some root
    ∙ sym (ap₂ (λ i rs. thread_key u id i rs subject) first alone ∙ thread_key_own u id subject ink)

normalise_subject-some : (u : Unicode) (s : Text) → (t : Text) × (normalise_subject u s ≡ some t)
unfolding normalise_subject
normalise_subject-some u s =
    let out = trim_space u (to_lower u s) in
    let (t, e, _) =
      strip_replies-enough u (suc (byte_len out)) (suc (byte_len out)) out (omega arith)
        (omega arith) in
    (_, ap (collapsed u) e)

chosen-some : (b : Bool) (t : Text) (o : Option Text) → o ≢ none → (if b then some t else o) ≢ none
chosen-some true t o h e = cc
chosen-some false t o h e = h e

by_subject-some : (o : Option Text) (t : Text) → o ≡ some t → by_subject o ≢ none
by_subject-some none t e = cc
by_subject-some (some s) t e = λ f. cc

-- Every message gets a thread key: the markers of a subject are stripped in the rounds allowed.
pub thread_key-some :
    (u : Unicode) (id in_reply_to : Text) (refs : List Text) (subject : Text)
    → thread_key u id in_reply_to refs subject ≢ none
unfolding thread_key
thread_key-some u id in_reply_to refs subject =
    let (t, e) = normalise_subject-some u subject in
    let root = first_text refs in
    let parent = first_text (fields u [] in_reply_to) in
    chosen-some (not (is_empty root)) root _ (
      chosen-some (not (is_empty parent)) parent _
        (chosen-some (not (is_empty id)) id _ (by_subject-some (normalise_subject u subject) t e)))
