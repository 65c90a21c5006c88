-- ===== src/Sync/Outcomes/Sends.antt =====
-- The outcome of one submission, on every branch of internal/sync/send.go.
use nexus_mail.Base.{ℕ, List, ◌∷◌, Option, none, some, ◌≡◌, refl, arith, if◌then◌else◌}
use nexus_mail.Base.Text.{Text, Unicode}
use nexus_mail.Model.{Folder, Operation}
use nexus_mail.Model.Errors.{Result, ok, err}
use nexus_mail.Smtp.Client.{is_permanent}
use nexus_mail.Sync.{Outside, Store, World, Event, removed, log}
use nexus_mail.Sync.Trace.{Keeps, keeps_rules}
use nexus_mail.Sync.Queue.{mark_done}
use nexus_mail.Sync.Send.{
  append_copy, file_in, file_sent_copy, finish_send, after_send, send_message, submit_bytes, submit,
  envelope_of,
}
use nexus_mail.Sync.Outcomes.{Outcome, is_done, is_retried, is_given_up, outcomes}

module _ (u : Unicode) (env : Outside) (st : Store) where
  -- What the answer of the submission server makes of the operation.
  abbrev pub send_verdict : Result (Unit {0}) → Outcome
  send_verdict (ok t) = is_done
  send_verdict (err e) = if is_permanent e then is_given_up else is_retried

  -- And the reading of the message before it: bytes that are gone are never retried.
  abbrev pub submit_verdict : Operation → Result (List ℕ) × env.State → Outcome
  submit_verdict op (err e, s) = is_given_up
  submit_verdict op (ok raw, s) = send_verdict (env.send (envelope_of u env st op) raw s).0

  -- The copy in the Sent folder and the removal of the file record no outcome, whatever fails.
  module _ (l : List (ℕ × Outcome)) where
    abbrev Still : List Event → Type 0
    Still t = outcomes t ≡ l

    append_copy-Still :
        (op : Operation) (raw : List ℕ) (path : Text)
        → Keeps Still (append_copy u env st op raw path)
    unfolding append_copy
    append_copy-Still op raw path = record { at = λ w h. ground arith }

    file_in-Still :
        (op : Operation) (raw : List ℕ) (f : Option Folder)
        → Keeps Still (file_in u env st op raw f)
    unfolding file_in
    file_in-Still op raw none = record { at = λ w h. h }
    file_in-Still op raw (some f) = search (keeps_rules, append_copy-Still)

    file_sent_copy-Still :
        (op : Operation) (raw : List ℕ) → Keeps Still (file_sent_copy u env st op raw)
    unfolding file_sent_copy
    file_sent_copy-Still op raw = search (keeps_rules, file_in-Still)

    log-removed-Still : (name : Text) → Keeps Still (log {env = env} {st = st} (removed name))
    unfolding log
    log-removed-Still name = record { at = λ w h. h }

    finish_send-Still :
        (op : Operation) (raw : List ℕ) (r : Result (Unit {0}))
        → Keeps Still (finish_send u env st op raw r)
    unfolding finish_send
    finish_send-Still op raw (err e) = record { at = λ w h. h }
    finish_send-Still op raw (ok t) = search (keeps_rules, file_sent_copy-Still, log-removed-Still)

  outcomes-after_send :
      (op : Operation) (raw : List ℕ) (r : Result (Unit {0})) (w : World env st)
      → outcomes (after_send u env st op raw r w).1.trace
        ≡ (op.id, send_verdict r) ∷ outcomes w.trace
  unfolding after_send
  outcomes-after_send op raw (ok t) w =
      let (r, w') = mark_done u env st op w in
      (finish_send-Still ((op.id, is_done) ∷ outcomes w.trace) op raw r).at w' refl
  outcomes-after_send op raw (err e) w = ground arith

  outcomes-submit_bytes :
      (op : Operation) (r : Result (List ℕ)) (w : World env st)
      → outcomes (submit_bytes u env st op r w).1.trace
        ≡ (op.id, submit_verdict op (r, w.outside)) ∷ outcomes w.trace
  unfolding submit_bytes
  outcomes-submit_bytes op (err e) w = refl
  outcomes-submit_bytes op (ok raw) w =
      outcomes-after_send op raw (env.send (envelope_of u env st op) raw w.outside).0
        (send_message u env st op raw w).1

  -- One submission records one outcome, and its kind follows from the two answers alone: given up
  -- when the bytes are gone or the refusal is permanent, to be retried on any other refusal, and
  -- done when the server took the message, whatever happens to the copy and to the file.
  pub outcomes-submit :
      (op : Operation) (w : World env st)
      → outcomes (submit u env st op w).1.trace
        ≡ (op.id, submit_verdict op (env.outbox_get op.outbox w.outside)) ∷ outcomes w.trace
  unfolding submit
  outcomes-submit op w =
      outcomes-submit_bytes op (env.outbox_get op.outbox w.outside).0
        (record w { outside = (env.outbox_get op.outbox w.outside).1 })
