-- ===== src/Sync/Send.antt =====
-- internal/sync/send.go: submitting the queued messages, and filing the copies.
use nexus_mail.Base.{ℕ, Bool, true, false, List, [], ◌∷◌, Option, none, some, find?, if◌then◌else◌}
use nexus_mail.Base.Text.{Text, Unicode, codes}
use nexus_mail.Model.{Folder, Operation}
use nexus_mail.Model.Errors.{Error, Result, ok, err, new_error, wrap}
use nexus_mail.Model.Flags.{flag_seen}
use nexus_mail.Model.Roles.{role, is_sent}
use nexus_mail.Smtp.{Envelope}
use nexus_mail.Smtp.Client.{is_permanent}
use nexus_mail.Store.Operations.{is_nil, is_empty}
use nexus_mail.Sync.{
  Outside, Store, Run, Event, ◌>>=◌, ◌>>◌, pure, fail, attempt, ignored, on_store, on_outside, log,
  reads, deferred, for_each,
}
use nexus_mail.Sync.Queue.{mark_done, mark_failed, mark_permanently_failed, check_context}

abbrev pub not_connected : Error → Error
not_connected e = wrap (codes "sync: connecting to submit mail: ") e

abbrev pub no_submission : Error
no_submission = new_error (codes "sync: this account has no submission server configured")

module _ (u : Unicode) (env : Outside) (st : Store) where
  unfoldable pub retry_send : Operation → Error → Run env st (Unit {0})
  unfolding mark_failed
  retry_send op cause = mark_failed u env st op cause

  unfoldable pub fail_send : Operation → Error → Run env st (Unit {0})
  unfolding mark_permanently_failed
  fail_send op cause = mark_permanently_failed u env st op cause

  -- The first folder whose role is Sent.
  unfoldable pub sent_folder : List Folder → Option Folder
  unfolding role is_sent
  sent_folder folders = find? (λ f. is_sent (role u f)) folders

  -- The connection, the copy, and the closing of the connection.
  unfoldable pub append_copy : Operation → List ℕ → Text → Run env st (Unit {0})
  unfolding on_outside deferred log reads ◌>>=◌
  append_copy op raw path = do
    on_outside (env.dial op.account_id)
    deferred env.close (do
      now ← reads env.now
      log (Event.filed path)
      on_outside (env.append path raw (flag_seen ∷ []) now))

  unfoldable pub file_in : Operation → List ℕ → Option Folder → Run env st (Unit {0})
  unfolding append_copy pure is_empty
  file_in op raw none = pure tt
  file_in op raw (some f) = if is_empty f.path then pure tt else append_copy op raw f.path

  -- Best effort: every failure ends it, and none is reported.
  unfoldable pub file_sent_copy : Operation → List ℕ → Run env st (Unit {0})
  unfolding on_store ignored file_in sent_folder ◌>>=◌
  file_sent_copy op raw =
      ignored (do
        folders ← on_store (st.list_folders op.account_id)
        file_in op raw (sent_folder folders))

  -- Once the operation is marked done: the copy, and then the file goes.
  unfoldable pub finish_send : Operation → List ℕ → Result (Unit {0}) → Run env st (Unit {0})
  unfolding file_sent_copy on_outside log ignored ◌>>=◌ fail
  finish_send op raw (err e) =
      fail (wrap (codes "sync: the message was sent but could not be marked done: ") e)
  finish_send op raw (ok t) = do
    file_sent_copy op raw
    log (Event.removed op.outbox)
    ignored (on_outside (env.outbox_remove op.outbox))

  -- What follows the answer of the submission server.
  unfoldable pub after_send : Operation → List ℕ → Result (Unit {0}) → Run env st (Unit {0})
  unfolding is_permanent fail_send retry_send mark_done attempt finish_send ◌>>=◌
  after_send op raw (err e) = if is_permanent e then fail_send op e else retry_send op e
  after_send op raw (ok t) = do marked ← attempt (mark_done u env st op); finish_send op raw marked

  abbrev pub envelope_of : Operation → Envelope
  envelope_of op = record { from = op.envelope_from; to = op.envelope_to }

  -- `sender.Send`, with its answer in the trace.
  unfoldable pub send_message : Operation → List ℕ → Run env st (Result (Unit {0}))
  unfolding attempt on_outside log pure ◌>>=◌
  send_message op raw = do
    r ← attempt (on_outside (env.send (envelope_of op) raw))
    log (Event.submitted op.id (envelope_of op) r)
    pure r

  unfoldable pub submit_bytes : Operation → Result (List ℕ) → Run env st (Unit {0})
  unfolding fail_send send_message after_send ◌>>=◌
  submit_bytes op (err e) = fail_send op (wrap (codes "the message is no longer in the outbox: ") e)
  submit_bytes op (ok raw) = do r ← send_message op raw; after_send op raw r

  unfoldable pub submit : Operation → Run env st (Unit {0})
  unfolding attempt on_outside submit_bytes ◌>>=◌
  submit op = do bytes ← attempt (on_outside (env.outbox_get op.outbox)); submit_bytes op bytes

  -- With no sender every operation is failed; with no connection every one is retried.
  unfoldable pub send_all : List Operation → Result (Unit {0}) → Run env st (Unit {0})
  unfolding for_each retry_send deferred check_context submit ◌>>=◌
  send_all ops (err e) = for_each (λ op. retry_send op (not_connected e)) ops
  send_all ops (ok t) =
      deferred env.close_sender (for_each (λ op. do check_context u env st; submit op) ops)

  unfoldable pub drain_with : ℕ → List Operation → Bool → Run env st (Unit {0})
  unfolding for_each fail_send attempt on_outside send_all ◌>>=◌
  drain_with account_id ops false = for_each (λ op. fail_send op no_submission) ops
  drain_with account_id ops true = do
    dialled ← attempt (on_outside (env.dial_sender account_id))
    send_all ops dialled

  unfoldable pub drain_sends : ℕ → List Operation → Run env st (Unit {0})
  unfolding is_nil pure reads drain_with ◌>>=◌
  drain_sends account_id ops =
      if is_nil ops then pure tt else (do has ← reads env.has_sender; drain_with account_id ops has)
