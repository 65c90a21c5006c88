-- ===== src/Sync/Stamp/Passes.antt =====
-- The guard of Sync/Stamp.antt over the whole watch loop, sends and syncs included.
use nexus_mail.Base.{ℕ, Bool, true, false, List, [], ◌∷◌, Option, none, some, arith}
use nexus_mail.Base.Text.{Text, Unicode}
use nexus_mail.Model.{Folder, Message, Operation}
use nexus_mail.Model.Errors.{Error, Result, ok, err}
use nexus_mail.Sync.{Outside, Store, SelectResult, removed, log}
use nexus_mail.Sync.Trace.{Keeps, keeps_rules}
use nexus_mail.Sync.Send.{
  retry_send, fail_send, append_copy, file_in, file_sent_copy, finish_send, after_send,
  send_message, submit_bytes, submit, send_all, drain_with, drain_sends,
}
use nexus_mail.Sync.Delta.{
  reconcile_uid_validity, store_headers, record_sync_state, full_header_pass, fetch_arrivals,
  reconcile_over, reconcile_window, delta_pass, delta_sync_on,
}
use nexus_mail.Sync.Stamp.{
  Guarded, mark_done-Guarded, mark_failed-Guarded, mark_permanently_failed-Guarded, select-Guarded,
  check_context-Guarded,
}

module _ (u : Unicode) (env : Outside) (st : Store) where
  retry_send-Guarded : (op : Operation) (e : Error) → Keeps Guarded (retry_send u env st op e)
  unfolding retry_send
  retry_send-Guarded op e = mark_failed-Guarded u env st op e

  fail_send-Guarded : (op : Operation) (e : Error) → Keeps Guarded (fail_send u env st op e)
  unfolding fail_send
  fail_send-Guarded op e = mark_permanently_failed-Guarded u env st op e

  append_copy-Guarded :
      (op : Operation) (raw : List ℕ) (path : Text)
      → Keeps Guarded (append_copy u env st op raw path)
  unfolding append_copy
  append_copy-Guarded op raw path = record { at = λ w h. ground arith }

  file_in-Guarded :
      (op : Operation) (raw : List ℕ) (f : Option Folder)
      → Keeps Guarded (file_in u env st op raw f)
  unfolding file_in
  file_in-Guarded op raw none = record { at = λ w h. h }
  file_in-Guarded op raw (some f) = search (keeps_rules, append_copy-Guarded)

  file_sent_copy-Guarded :
      (op : Operation) (raw : List ℕ) → Keeps Guarded (file_sent_copy u env st op raw)
  unfolding file_sent_copy
  file_sent_copy-Guarded op raw = search (keeps_rules, file_in-Guarded)

  log-removed-Guarded : (name : Text) → Keeps Guarded (log {env = env} {st = st} (removed name))
  unfolding log
  log-removed-Guarded name = record { at = λ w h. h }

  finish_send-Guarded :
      (op : Operation) (raw : List ℕ) (r : Result (Unit {0}))
      → Keeps Guarded (finish_send u env st op raw r)
  unfolding finish_send
  finish_send-Guarded op raw (err e) = record { at = λ w h. h }
  finish_send-Guarded op raw (ok t) =
      search (keeps_rules, file_sent_copy-Guarded, log-removed-Guarded)

  after_send-Guarded :
      (op : Operation) (raw : List ℕ) (r : Result (Unit {0}))
      → Keeps Guarded (after_send u env st op raw r)
  unfolding after_send
  after_send-Guarded op raw (err e) = search (keeps_rules, fail_send-Guarded, retry_send-Guarded)
  after_send-Guarded op raw (ok t) = search (keeps_rules, mark_done-Guarded, finish_send-Guarded)

  send_message-Guarded :
      (op : Operation) (raw : List ℕ) → Keeps Guarded (send_message u env st op raw)
  unfolding send_message
  send_message-Guarded op raw = record { at = λ w h. h }

  submit_bytes-Guarded :
      (op : Operation) (r : Result (List ℕ)) → Keeps Guarded (submit_bytes u env st op r)
  unfolding submit_bytes
  submit_bytes-Guarded op (err e) = search fail_send-Guarded
  submit_bytes-Guarded op (ok raw) = search (keeps_rules, send_message-Guarded, after_send-Guarded)

  submit-Guarded : (op : Operation) → Keeps Guarded (submit u env st op)
  unfolding submit
  submit-Guarded op = search (keeps_rules, submit_bytes-Guarded)

  send_all-Guarded :
      (ops : List Operation) (r : Result (Unit {0})) → Keeps Guarded (send_all u env st ops r)
  unfolding send_all
  send_all-Guarded ops (err e) = search (keeps_rules, retry_send-Guarded)
  send_all-Guarded ops (ok t) = search (keeps_rules, submit-Guarded, check_context-Guarded)

  drain_with-Guarded :
      (account_id : ℕ) (ops : List Operation) (has : Bool)
      → Keeps Guarded (drain_with u env st account_id ops has)
  unfolding drain_with
  drain_with-Guarded account_id ops false = search (keeps_rules, fail_send-Guarded)
  drain_with-Guarded account_id ops true = search (keeps_rules, send_all-Guarded)

  pub drain_sends-Guarded :
      (account_id : ℕ) (ops : List Operation) → Keeps Guarded (drain_sends u env st account_id ops)
  unfolding drain_sends
  drain_sends-Guarded account_id ops = search (keeps_rules, drain_with-Guarded)

  reconcile_uid_validity-Guarded :
      (f : Folder) (sel : SelectResult) → Keeps Guarded (reconcile_uid_validity env st f sel)
  unfolding reconcile_uid_validity
  reconcile_uid_validity-Guarded f sel = search keeps_rules

  store_headers-Guarded :
      (account_id : ℕ) (f : Folder) (ms : List Message)
      → Keeps Guarded (store_headers env st account_id f ms)
  unfolding store_headers
  store_headers-Guarded account_id f ms = search keeps_rules

  record_sync_state-Guarded :
      (account_id : ℕ) (f : Folder) (sel : SelectResult)
      → Keeps Guarded (record_sync_state env st account_id f sel)
  unfolding record_sync_state
  record_sync_state-Guarded account_id f sel = search keeps_rules

  full_header_pass-Guarded :
      (account_id : ℕ) (f : Folder) (sel : SelectResult)
      → Keeps Guarded (full_header_pass env st account_id f sel)
  unfolding full_header_pass
  full_header_pass-Guarded account_id f sel =
      search (keeps_rules, store_headers-Guarded, record_sync_state-Guarded)

  fetch_arrivals-Guarded :
      (account_id : ℕ) (f : Folder) (sel : SelectResult)
      → Keeps Guarded (fetch_arrivals env st account_id f sel)
  unfolding fetch_arrivals
  fetch_arrivals-Guarded account_id f sel = search (keeps_rules, store_headers-Guarded)

  reconcile_over-Guarded :
      (f : Folder) (sel : SelectResult) (arrived : ℕ) (local : List ℕ)
      → Keeps Guarded (reconcile_over env st f sel arrived local)
  unfolding reconcile_over
  reconcile_over-Guarded f sel arrived [] = search keeps_rules
  reconcile_over-Guarded f sel arrived (low ∷ local) = search keeps_rules depth 9

  reconcile_window-Guarded :
      (f : Folder) (sel : SelectResult) (arrived : ℕ)
      → Keeps Guarded (reconcile_window env st f sel arrived)
  unfolding reconcile_window
  reconcile_window-Guarded f sel arrived = search (keeps_rules, reconcile_over-Guarded)

  delta_pass-Guarded :
      (account_id : ℕ) (sel : SelectResult) (checked : Folder × Bool)
      → Keeps Guarded (delta_pass env st account_id sel checked)
  unfolding delta_pass
  delta_pass-Guarded account_id sel (f, was_reset) = search (
    keeps_rules, full_header_pass-Guarded, fetch_arrivals-Guarded, reconcile_window-Guarded,
    record_sync_state-Guarded,
  )

  pub delta_sync_on-Guarded :
      (account_id : ℕ) (f : Folder) → Keeps Guarded (delta_sync_on u env st account_id f)
  unfolding delta_sync_on
  delta_sync_on-Guarded account_id f =
      search (keeps_rules, select-Guarded, reconcile_uid_validity-Guarded, delta_pass-Guarded)
