-- ===== src/Examples/PartRuns.antt =====
-- The theorems on messages, documents, logs and files at concrete inputs.
use mathlib.Core.Option
use nexus_mail.Base.{
  ℕ, ◌+◌, true, false, [], ◌∷◌, ◌++◌, All, none, some, refl, Bool, Bool-cases, if◌then◌else◌, ◌≡◌,
  ◌≢◌, ◌↔◌, ◌==◌, inl, inr,
}
use nexus_mail.Base.Text.{Text, codes, ascii, to_lower, contains_text, has_text, trim_space}
use nexus_mail.Base.Bytes.{byte_len, width}
use nexus_mail.Model.{Message}
use nexus_mail.Model.Errors.{ok}
use nexus_mail.Mime.Subject.{
  reply_prefix, forward_prefix, known_reply_prefixes, known_forward_prefixes, reply_subject,
  forward_subject,
}
use nexus_mail.Mime.Subject.Cut.{KeepsWidth}
use nexus_mail.Mime.Subject.Marks.{IsMarkedOnce, subjects-IsMarkedOnce}
use nexus_mail.Mime.References.{reply_references}
use nexus_mail.Mime.Quote.{quote, attribution, split_lines, lf, cr}
use nexus_mail.Mime.Quote.Unquote.{unquote, join_lines, with_lf, quote-unquote}
use nexus_mail.Imap.Envelope.{thread_key, normalise_subject}
use nexus_mail.Imap.Envelope.Threads.{normalise_subject-marker}
use nexus_mail.Imap.Envelope.Replies.{thread_key-reply_references, thread_key-some}
use nexus_mail.Html.Find.{
  Nodes, nil, cons, text, element, ahead, behind, fold_text, fold_runes, find, highlight,
  count_nodes,
}
use nexus_mail.Html.Find.Slices.{AreOrdered, nodes_text}
use nexus_mail.Html.Find.Found.{AreMatches}
use nexus_mail.Html.Find.Matches.{find-contains_text}
use nexus_mail.Html.Find.Current.{AreMarked, highlight-current_nodes}
use nexus_mail.Html.Find.Kept.{highlight-nodes_text}
use nexus_mail.Logging.Redact.{Patterns, str, error, group, none, attr, LogRecord, handle}
use nexus_mail.Logging.Redact.Safe.{Recognises, IsClean, AreSafe, handle-AreSafe}
use nexus_mail.Store.Outbox.{Files, get, sweep}
use nexus_mail.Store.Outbox.Swept.{get-sweep}
use nexus_mail.Sync.Body.{Body, Mailbox, ensure_body}
use nexus_mail.Sync.Body.Cached.{ensure_body-again}
use nexus_mail.Examples.Data.{mailbox, inbox, message}

abbrev subject : Text
subject = codes "Re: AW: hi"

ascii-KeepsWidth : KeepsWidth ascii subject
unfolding width
ascii-KeepsWidth =
    (refl, (refl, (refl, (refl, (refl, (refl, (refl, (refl, (refl, (refl, tt))))))))))

subjects-IsMarkedOnce_example :
    IsMarkedOnce ascii reply_prefix known_reply_prefixes (reply_subject ascii subject)
    × IsMarkedOnce ascii forward_prefix
        (known_forward_prefixes ++ known_reply_prefixes)
        (forward_subject ascii subject)
subjects-IsMarkedOnce_example = subjects-IsMarkedOnce ascii subject ascii-KeepsWidth

quote-unquote_example :
    (quoted : Text) × (quote (λ t. codes "now") (codes "me") (some 5) (codes "a\r\n\nb")
      ≡ attribution (λ t. codes "now") (codes "me") (some 5) ++ lf ∷ quoted)
    × (Option.map join_lines (unquote (split_lines quoted)) ≡ some (with_lf (codes "a\r\n\nb")))
    × All (λ c. (c == cr) ≡ false) (with_lf (codes "a\r\n\nb"))
quote-unquote_example = quote-unquote (λ t. codes "now") (codes "me") (codes "a\r\n\nb") (some 5)

thread_key-reply_references_example :
    thread_key ascii
      (codes "r@x")
      (codes "p@x")
      (reply_references (codes "root@x" ∷ []) (codes "p@x"))
      (codes "Re: hi")
    ≡ thread_key ascii (codes "p@x") [] (codes "root@x" ∷ []) (codes "hi")
thread_key-reply_references_example =
    thread_key-reply_references ascii (codes "p@x") [] (codes "root@x" ∷ []) (codes "hi")
      (codes "r@x") (codes "p@x") (codes "Re: hi") (inl refl)

normalise_subject-marker_example :
    normalise_subject ascii (codes "YNT:" ++ b' ' ∷ codes "Re: Toplanti")
    ≡ normalise_subject ascii (codes "Re: Toplanti")
unfolding trim_space
normalise_subject-marker_example =
    normalise_subject-marker ascii (codes "ynt:") (codes "YNT:") (codes "Re: Toplanti")
      (inr (inr (inr (inl refl)))) refl (refl, (refl, (refl, (refl, tt)))) refl refl refl

thread_key-some_example : thread_key ascii [] [] [] (codes "Fwd: Re: hi") ≢ none
thread_key-some_example = thread_key-some ascii [] [] [] (codes "Fwd: Re: hi")

-- A server whose state counts the calls.
abbrev shelf : Mailbox
shelf = record {
  State = ℕ;
  dial = λ account_id w. (ok tt, w + 1);
  select = λ path w. (ok tt, w + 1);
  fetch_body = λ uid w. (ok (record { html = []; text = codes "hello" }), w + 1);
  fetch_raw = λ uid w. (ok [], w + 1);
  fetch_part = λ uid part encoding w. (ok [], w + 1);
}

abbrev unread : Message
unread = message 2 1 32 300 []

abbrev hello : Body
hello = record { html = []; text = codes "hello" }

body_comes : (ensure_body shelf 1 inbox unread mailbox 0).0 ≡ ok hello
unfolding ensure_body
body_comes = refl

ensure_body-again_example :
    (let db' = (ensure_body shelf 1 inbox unread mailbox 0).1.0 in
      ensure_body shelf 1 inbox unread db' 50 ≡ (ok hello, (db', 50)))
ensure_body-again_example =
    ensure_body-again shelf 1 inbox unread mailbox 0 50 hello body_comes refl

abbrev sentence : Text
sentence = codes "The cat, the Cat"

find-contains_text_example :
    AreOrdered 0
      (find (fold_text ascii sentence) (fold_runes ascii (codes "CAT")))
      (byte_len sentence)
    × AreMatches ascii.to_lower
        (fold_runes ascii (codes "CAT"))
        sentence
        0
        (find (fold_text ascii sentence) (fold_runes ascii (codes "CAT")))
    × ((find (fold_text ascii sentence) (fold_runes ascii (codes "CAT")) ≡ [])
        ↔ (contains_text (to_lower ascii (codes "CAT")) (to_lower ascii sentence) ≡ false))
find-contains_text_example = find-contains_text ascii (codes "CAT") sentence (λ e. cc)

find_run : find (fold_text ascii sentence) (fold_runes ascii (codes "CAT")) ≡ (4, 7) ∷ (13, 16) ∷ []
unfolding find fold_text fold_runes
find_run = refl

abbrev body : Nodes
body =
    cons
      (element (codes "p") (record { key = codes "id"; val = codes "nx-find-current" } ∷ [])
        (cons (text sentence) nil))
      nil

highlight-current_nodes_example :
    AreMarked ascii
      (count_nodes ascii (fold_runes ascii (codes "cat")) body)
      (highlight ascii body (codes "cat") (behind 0))
unfolding trim_space
highlight-current_nodes_example =
    highlight-current_nodes ascii body (codes "cat") (behind 0) (refl, refl) refl

highlight-nodes_text_example :
    nodes_text (highlight ascii body (codes "cat") (ahead 5)).nodes ≡ nodes_text body
highlight-nodes_text_example = highlight-nodes_text ascii body (codes "cat") (ahead 5)

abbrev patterns : Patterns
patterns = record {
  email_address = λ s. if contains_text (codes "@") s then codes "[redacted-address]" else s;
  bearer_token = λ s. if contains_text (codes "bearer") s then codes "[redacted-token]" else s;
}

-- Texts with an `@`, and texts with the word.
abbrev shows_address : Text → Bool
shows_address s = contains_text (codes "@") s

abbrev shows_token : Text → Bool
shows_token s = contains_text (codes "bearer") s

patterns-Recognises : Recognises patterns shows_address shows_token
unfolding contains_text
patterns-Recognises = record {
  address_replaced = λ s. elim (Bool-cases (contains_text (codes "@") s)) [
    | inl here ↦ rw here refl
    | inr free ↦ rw free free
  ];
  token_replaced = λ s. elim (Bool-cases (contains_text (codes "bearer") s)) [
    | inl here ↦ rw here refl
    | inr free ↦ rw free free
  ];
  address_stays_out = λ s h. elim (Bool-cases (contains_text (codes "bearer") s)) [
    | inl here ↦ rw here refl
    | inr free ↦ rw free h
  ];
  no_address = refl;
  no_token = refl;
}

abbrev log_record : LogRecord
log_record = record {
  message = codes "a@b.org";
  attrs =
      attr (codes "subject") (str (codes "hi"))
        (attr (codes "req") (group (attr (codes "err") (error (codes "a@b.org")) none)) none);
}

handle-AreSafe_example :
    IsClean shows_address shows_token (handle ascii patterns log_record).message
    × AreSafe ascii shows_address shows_token (handle ascii patterns log_record).attrs
handle-AreSafe_example =
    handle-AreSafe ascii patterns shows_address shows_token log_record patterns-Recognises
      (tt, ((tt, tt), tt))

abbrev outbox_files : Files
outbox_files = record {
  entries =
      record { name = codes "a.eml"; is_dir = false; bytes = 104 ∷ [] }
      ∷ record { name = codes "b.eml"; is_dir = false; bytes = 105 ∷ [] }
      ∷ [];
  refuses_write = none;
  refuses_rename = none;
  refuses_list = none;
  refuses_remove = λ name. none;
}

a_is_used : has_text (codes "a.eml" ∷ []) (codes "a.eml") ≡ true
unfolding has_text
a_is_used = refl

get-sweep_example :
    get (codes "a.eml") (sweep (codes "a.eml" ∷ []) outbox_files).1
    ≡ get (codes "a.eml") outbox_files
get-sweep_example = get-sweep (codes "a.eml" ∷ []) (codes "a.eml") outbox_files a_is_used
