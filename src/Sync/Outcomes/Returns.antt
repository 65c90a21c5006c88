-- ===== src/Sync/Outcomes/Returns.antt =====
-- When a drain returns no error: whatever the mail servers answer, as long as the store works, the
-- context lasts, and the mailbox can be dialled.
use nexus_mail.Base.{
  ℕ, Bool, true, false, List, [], ◌∷◌, none, ◌≡◌, refl, arith, Option-cases, inl, inr, ◌==◌,
}
use nexus_mail.Base.Text.{Text, Unicode, codes}
use nexus_mail.Model.{Folder, Operation}
use nexus_mail.Model.Errors.{Error, Result, ok, err, is_ok, wrap}
use nexus_mail.Sync.{
  Outside, Store, World, Run, SelectResult, Event, ◌>>=◌, attempt, wrapped, on_store, on_outside,
  log, reads, for_each,
}
use nexus_mail.Sync.Backoff.{queue_retry_at}
use nexus_mail.Sync.Queue.{
  mark_done, mark_dropped, mark_failed, mark_permanently_failed, record_failure, select, settle,
  apply_selected, apply_operation, check_context, drain_on, folder_by_id, queue_batch_size,
}
use nexus_mail.Sync.Send.{
  retry_send, fail_send, file_sent_copy, finish_send, after_send, send_message, submit_bytes,
  submit, send_all, drain_with, drain_sends, not_connected, no_submission,
}
use nexus_mail.Sync.Outcomes.Succeeds.{
  Succeeds, Succeeds-pure, Succeeds-reads, Succeeds-log, Succeeds-attempt, Succeeds-deferred,
  Succeeds-bind, Succeeds-if, Succeeds-for_each, Succeeds-on_store, succeeds_rules,
}
use nexus_mail.Sync.Outcomes.{settled}
use nexus_mail.Sync.Outcomes.Drain.{claimed, settled_after, drain_queue_settles}
use nexus_mail.Sync.Watch.{claim, drain_queue, drain_claimed, drain_rest, to_drain}

-- A store whose statements succeed.
pub record Working (st : Store) : Type 0 where
  pub claims :
      (now account_id limit : ℕ) (s : st.State)
      → is_ok (st.claim_operations now account_id limit s).0 ≡ true
  pub lists : (account_id : ℕ) (s : st.State) → is_ok (st.list_folders account_id s).0 ≡ true
  pub marks_done : (id : ℕ) (s : st.State) → is_ok (st.mark_done id s).0 ≡ true
  pub marks_dropped : (id : ℕ) (s : st.State) → is_ok (st.mark_dropped id s).0 ≡ true
  pub marks_failed :
      (id : ℕ) (why : Text) (at : ℕ) (s : st.State) → is_ok (st.mark_failed id why at s).0 ≡ true
  pub gives_up :
      (id : ℕ) (why : Text) (s : st.State) → is_ok (st.mark_permanently_failed id why s).0 ≡ true

-- A context that lasts, and a mailbox server that takes connections.
pub record Reachable (env : Outside) : Type 0 where
  pub lasts : (s : env.State) → env.ctx_err s ≡ none
  pub dials : (account_id : ℕ) (s : env.State) → is_ok (env.dial account_id s).0 ≡ true

module _ (u : Unicode) (env : Outside) (st : Store) (db : Working st) (net : Reachable env) where
  mark_done-Succeeds : (op : Operation) → Succeeds (mark_done u env st op)
  unfolding mark_done
  mark_done-Succeeds op =
      Succeeds-bind (log (Event.done op.id)) _ (Succeeds-log (Event.done op.id))
        (λ _. Succeeds-on_store (st.mark_done op.id) (db.marks_done op.id))

  mark_dropped-Succeeds : (op : Operation) → Succeeds (mark_dropped u env st op)
  unfolding mark_dropped
  mark_dropped-Succeeds op =
      Succeeds-bind (log (Event.dropped op.id)) _ (Succeeds-log (Event.dropped op.id))
        (λ _. Succeeds-on_store (st.mark_dropped op.id) (db.marks_dropped op.id))

  mark_failed-Succeeds : (op : Operation) (e : Error) → Succeeds (mark_failed u env st op e)
  unfolding mark_failed
  mark_failed-Succeeds op e = Succeeds-bind (reads env.now) _ (Succeeds-reads env.now) λ now.
      Succeeds-bind (log (Event.retried op.id)) _ (Succeeds-log (Event.retried op.id)) (λ _.
        Succeeds-on_store (st.mark_failed op.id e.message (queue_retry_at now op.attempts))
          (db.marks_failed op.id e.message (queue_retry_at now op.attempts)))

  mark_permanently_failed-Succeeds :
      (op : Operation) (e : Error) → Succeeds (mark_permanently_failed u env st op e)
  unfolding mark_permanently_failed
  mark_permanently_failed-Succeeds op e =
      Succeeds-bind (log (Event.gave_up op.id)) _ (Succeeds-log (Event.gave_up op.id)) (λ _.
        Succeeds-on_store (st.mark_permanently_failed op.id e.message)
          (db.gives_up op.id e.message))

  record_failure-Succeeds : (op : Operation) (e : Error) → Succeeds (record_failure u env st op e)
  unfolding record_failure
  record_failure-Succeeds op e =
      search (succeeds_rules, mark_failed-Succeeds, mark_permanently_failed-Succeeds)

  settle-Succeeds : (op : Operation) (r : Result (Unit {0})) → Succeeds (settle u env st op r)
  unfolding settle
  settle-Succeeds op (ok t) = mark_done-Succeeds op
  settle-Succeeds op (err e) = record_failure-Succeeds op e

  apply_selected-Succeeds :
      (op : Operation) (folders : List Folder) (r : Result SelectResult)
      → Succeeds (apply_selected u env st op folders r)
  unfolding apply_selected
  apply_selected-Succeeds op folders (err e) = record_failure-Succeeds op e
  apply_selected-Succeeds op folders (ok sel) =
      search (succeeds_rules, settle-Succeeds, mark_dropped-Succeeds)

  apply_operation-Succeeds :
      (folders : List Folder) (op : Operation) → Succeeds (apply_operation u env st folders op)
  unfolding apply_operation
  apply_operation-Succeeds folders op = record {
    at = λ w. elim (Option-cases (folder_by_id op.folder_id folders)) [
      | inl e ↦ rw (e, apply_operation) ((mark_dropped-Succeeds op).at w)
      | inr (f, e) ↦
          let selects : Succeeds
              (attempt (select u env st f.path) >>= apply_selected u env st op folders) =
            Succeeds-bind (attempt (select u env st f.path)) (apply_selected u env st op folders)
              (Succeeds-attempt (select u env st f.path)) (apply_selected-Succeeds op folders) in
          rw (e, apply_operation)
            ((Succeeds-if (op.uid_validity == f.uid_validity) _ _ selects
                (mark_dropped-Succeeds op)).at
              w)
    ];
  }

  check_context-Succeeds : Succeeds (check_context u env st)
  unfolding check_context
  check_context-Succeeds = record { at = λ w. rw (net.lasts w.outside, check_context) refl }

  checked-Succeeds :
      (m : Run env st (Unit {0})) → Succeeds m → Succeeds (check_context u env st >>= λ _. m)
  checked-Succeeds m k =
      Succeeds-bind (check_context u env st) (λ _. m) check_context-Succeeds (λ _. k)

  drain_on-Succeeds :
      (account_id : ℕ) (ops : List Operation) → Succeeds (drain_on u env st account_id ops)
  unfolding drain_on
  drain_on-Succeeds account_id ops =
      Succeeds-bind (on_store (st.list_folders account_id)) _
        (Succeeds-on_store (st.list_folders account_id) (db.lists account_id))
        λ folders.
          Succeeds-for_each
            (λ op. check_context u env st >>= λ _. apply_operation u env st folders op) ops
            (λ op.
              checked-Succeeds (apply_operation u env st folders op)
                (apply_operation-Succeeds folders op))

  finish_send-Succeeds :
      (op : Operation) (raw : List ℕ) (r : Result (Unit {0}))
      → is_ok r ≡ true
      → Succeeds (finish_send u env st op raw r)
  unfolding finish_send file_sent_copy
  finish_send-Succeeds op raw (ok t) h = search (succeeds_rules)
  finish_send-Succeeds op raw (err e) h = record { at = λ w. h }

  after_send-Succeeds :
      (op : Operation) (raw : List ℕ) (r : Result (Unit {0}))
      → Succeeds (after_send u env st op raw r)
  unfolding after_send retry_send fail_send
  after_send-Succeeds op raw (err e) =
      search (succeeds_rules, mark_failed-Succeeds, mark_permanently_failed-Succeeds)
  after_send-Succeeds op raw (ok t) = record {
    at = λ w.
        let marked = mark_done u env st op w in
        (finish_send-Succeeds op raw marked.0 ((mark_done-Succeeds op).at w)).at marked.1;
  }

  send_message-Succeeds : (op : Operation) (raw : List ℕ) → Succeeds (send_message u env st op raw)
  unfolding send_message
  send_message-Succeeds op raw = search (succeeds_rules)

  submit_bytes-Succeeds :
      (op : Operation) (r : Result (List ℕ)) → Succeeds (submit_bytes u env st op r)
  unfolding submit_bytes fail_send
  submit_bytes-Succeeds op (err e) =
      mark_permanently_failed-Succeeds op
        (wrap (codes "the message is no longer in the outbox: ") e)
  submit_bytes-Succeeds op (ok raw) =
      search (succeeds_rules, send_message-Succeeds, after_send-Succeeds)

  submit-Succeeds : (op : Operation) → Succeeds (submit u env st op)
  unfolding submit
  submit-Succeeds op = search (succeeds_rules, submit_bytes-Succeeds)

  retry_send-Succeeds : (op : Operation) (e : Error) → Succeeds (retry_send u env st op e)
  unfolding retry_send
  retry_send-Succeeds op e = mark_failed-Succeeds op e

  fail_send-Succeeds : (op : Operation) (e : Error) → Succeeds (fail_send u env st op e)
  unfolding fail_send
  fail_send-Succeeds op e = mark_permanently_failed-Succeeds op e

  send_all-Succeeds :
      (ops : List Operation) (r : Result (Unit {0})) → Succeeds (send_all u env st ops r)
  unfolding send_all
  send_all-Succeeds ops (err e) =
      Succeeds-for_each (λ op. retry_send u env st op (not_connected e)) ops
        (λ op. retry_send-Succeeds op (not_connected e))
  send_all-Succeeds ops (ok t) =
      let sends = λ (op : Operation). check_context u env st >>= λ _. submit u env st op in
      Succeeds-deferred env.close_sender (for_each sends ops) (
        Succeeds-for_each sends ops
          (λ op. checked-Succeeds (submit u env st op) (submit-Succeeds op)))

  drain_with-Succeeds :
      (account_id : ℕ) (ops : List Operation) (has : Bool)
      → Succeeds (drain_with u env st account_id ops has)
  unfolding drain_with
  drain_with-Succeeds account_id ops false =
      Succeeds-for_each (λ op. fail_send u env st op no_submission) ops
        (λ op. fail_send-Succeeds op no_submission)
  drain_with-Succeeds account_id ops true = search (succeeds_rules, send_all-Succeeds)

  drain_sends-Succeeds :
      (account_id : ℕ) (ops : List Operation) → Succeeds (drain_sends u env st account_id ops)
  unfolding drain_sends
  drain_sends-Succeeds account_id ops = search (succeeds_rules, drain_with-Succeeds)

  dial-Succeeds :
      (account_id : ℕ)
      → Succeeds (wrapped to_drain (on_outside {env = env} {st = st} (env.dial account_id)))
  unfolding wrapped on_outside
  dial-Succeeds account_id = record { at = λ w. ground (arith, net.dials account_id w.outside) }

  drain_rest-Succeeds :
      (account_id : ℕ) (ops : List Operation) → Succeeds (drain_rest u env st account_id ops)
  unfolding drain_rest
  drain_rest-Succeeds account_id ops = search (succeeds_rules, dial-Succeeds, drain_on-Succeeds)

  drain_claimed-Succeeds :
      (account_id : ℕ) (ops : List Operation) → Succeeds (drain_claimed u env st account_id ops)
  unfolding drain_claimed
  drain_claimed-Succeeds account_id [] = Succeeds-pure tt
  drain_claimed-Succeeds account_id (op ∷ ops) =
      search (succeeds_rules, drain_sends-Succeeds, drain_rest-Succeeds)

  claim-Succeeds : (account_id : ℕ) → Succeeds (claim u env st account_id)
  unfolding claim
  claim-Succeeds account_id = Succeeds-bind (reads env.now) _ (Succeeds-reads env.now) λ now.
      Succeeds-on_store (st.claim_operations now account_id queue_batch_size)
        (db.claims now account_id queue_batch_size)

  drain_queue-Succeeds : (account_id : ℕ) → Succeeds (drain_queue u env st account_id)
  unfolding drain_queue
  drain_queue-Succeeds account_id = search (succeeds_rules, claim-Succeeds, drain_claimed-Succeeds)

ok_of_is_ok : (r : Result (Unit {0})) → is_ok r ≡ true → r ≡ ok tt
ok_of_is_ok (ok t) h = refl
ok_of_is_ok (err e) h = cc

-- With a working store, a lasting context and a mailbox that can be dialled, `DrainQueue` returns no
-- error, whatever the servers answer to its commands and submissions, and it has settled every
-- operation that it claimed once: the submissions first and then the others, each in queue order.
pub drain_queue-returns :
    (u : Unicode) (env : Outside) (st : Store) (account_id : ℕ) (ops : List Operation)
    (w : World env st)
    → Working st
    → Reachable env
    → claimed u env st account_id w ≡ ok ops
    → ((drain_queue u env st account_id w).0 ≡ ok tt)
      × (settled (drain_queue u env st account_id w).1.trace
          ≡ settled_after u env st ops (settled w.trace))
drain_queue-returns u env st account_id ops w db net c =
    let returned =
      ok_of_is_ok (drain_queue u env st account_id w).0
        ((drain_queue-Succeeds u env st db net account_id).at w) in
    (returned, drain_queue_settles u env st account_id ops w c returned)
