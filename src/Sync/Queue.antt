-- ===== src/Sync/Queue.antt =====
-- internal/sync/queue.go: sending the queued changes.
use nexus_mail.Base.{
  ℕ, true, false, not, ◌++◌, List, Option, none, some, find?, filter, ◌==◌, if◌then◌else◌,
}
use nexus_mail.Base.Text.{Text, Unicode, codes}
use nexus_mail.Model.{
  Folder, Operation, OperationKind, add_flags, remove_flags, move, delete, empty_folder, send,
  other,
}
use nexus_mail.Model.Errors.{Error, Result, ok, err, new_error}
use nexus_mail.Store.Operations.{is_send}
use nexus_mail.Sync.{
  Outside, Store, Run, SelectResult, Command, Event, ◌>>=◌, ◌>>◌, pure, fail, attempt, on_store,
  on_outside, log, reads, for_each,
}
use nexus_mail.Sync.Errors.{classify, is_retried}
use nexus_mail.Sync.Backoff.{queue_retry_at}

abbrev pub queue_batch_size : ℕ
queue_batch_size = 100

-- `folders[id]`.
unfoldable pub folder_by_id : ℕ → List Folder → Option Folder
folder_by_id id folders = find? (λ f. f.id == id) folders

-- The messages to submit, and everything else, each in its order.
unfoldable pub partition_sends : List Operation → List Operation × List Operation
unfolding is_send
partition_sends ops = (filter (λ op. is_send op.kind) ops, filter (λ op. not (is_send op.kind)) ops)

-- One queued row onto one IMAP command.
unfoldable pub command_of : Operation → List Folder → OperationKind → Result Command
unfolding folder_by_id
command_of op folders add_flags = ok (Command.store_flags op.uids op.flags true)
command_of op folders remove_flags = ok (Command.store_flags op.uids op.flags false)
command_of op folders move = elim (folder_by_id op.target_folder_id folders) [
  | none ↦ err (new_error (codes "the destination folder no longer exists"))
  | some dest ↦ ok (Command.move op.uids dest.path)
]
command_of op folders delete = ok (Command.expunge op.uids)
command_of op folders empty_folder = ok Command.empty_folder
command_of op folders send = err (new_error (codes "unknown operation kind \"send\""))
command_of op folders (other name) =
    err (new_error (codes "unknown operation kind \"" ++ name ++ codes "\""))

module _ (u : Unicode) (env : Outside) (st : Store) where
  unfoldable pub mark_done : Operation → Run env st (Unit {0})
  unfolding ◌>>=◌ on_store log
  mark_done op = do log (Event.done op.id); on_store (st.mark_done op.id)

  unfoldable pub mark_dropped : Operation → Run env st (Unit {0})
  unfolding ◌>>=◌ on_store log
  mark_dropped op = do log (Event.dropped op.id); on_store (st.mark_dropped op.id)

  -- `MarkOperationFailed` with the time of the next attempt.
  unfoldable pub mark_failed : Operation → Error → Run env st (Unit {0})
  unfolding ◌>>=◌ on_store log reads
  mark_failed op cause = do
    now ← reads env.now
    log (Event.retried op.id)
    on_store (st.mark_failed op.id cause.message (queue_retry_at now op.attempts))

  unfoldable pub mark_permanently_failed : Operation → Error → Run env st (Unit {0})
  unfolding ◌>>=◌ on_store log
  mark_permanently_failed op cause = do
    log (Event.gave_up op.id)
    on_store (st.mark_permanently_failed op.id cause.message)

  unfoldable pub record_failure : Operation → Error → Run env st (Unit {0})
  unfolding mark_failed mark_permanently_failed
  record_failure op cause =
      if is_retried (classify u cause)
      then mark_failed op cause
      else mark_permanently_failed op cause

  -- One IMAP command, with the stamp of the operation that it is sent for.
  unfoldable pub send_command : Operation → Command → Run env st (Unit {0})
  unfolding ◌>>=◌ on_outside log
  send_command op c = do log (Event.sent op.uid_validity c); on_outside (env.command c)

  unfoldable pub send_operation : Operation → List Folder → Run env st (Unit {0})
  unfolding command_of send_command fail
  send_operation op folders = elim (command_of op folders op.kind) [
    | ok c ↦ send_command op c
    | err e ↦ fail e
  ]

  -- `be.Select`, with its answer in the trace.
  unfoldable pub select : Text → Run env st SelectResult
  unfolding attempt on_outside log ◌>>=◌ pure fail
  select path = do
    r ← attempt (on_outside (env.select path))
    log (Event.selected path r)
    λ w. (r, w)

  -- What is done with the answer of the server: done, or recorded as a failure.
  unfoldable pub settle : Operation → Result (Unit {0}) → Run env st (Unit {0})
  unfolding mark_done record_failure
  settle op (ok t) = mark_done op
  settle op (err e) = record_failure op e

  -- The second pass of the stamp, against what the server says right now.
  unfoldable pub apply_selected :
      Operation → List Folder → Result SelectResult → Run env st (Unit {0})
  unfolding settle mark_dropped record_failure send_operation attempt ◌>>=◌
  apply_selected op folders (err e) = record_failure op e
  apply_selected op folders (ok sel) =
      if op.uid_validity == sel.uid_validity
      then (do r ← attempt (send_operation op folders); settle op r)
      else mark_dropped op

  unfoldable pub apply_operation : List Folder → Operation → Run env st (Unit {0})
  unfolding folder_by_id mark_dropped select apply_selected attempt ◌>>=◌
  apply_operation folders op = elim (folder_by_id op.folder_id folders) [
    | none ↦ mark_dropped op
    | some folder ↦
        if op.uid_validity == folder.uid_validity
        then (do r ← attempt (select folder.path); apply_selected op folders r)
        else mark_dropped op
  ]

  -- `if err := ctx.Err(); err != nil { return err }`
  unfoldable pub check_context : Run env st (Unit {0})
  check_context w = elim (env.ctx_err w.outside) [ none ↦ (ok tt, w) | some e ↦ (err e, w) ]

  unfoldable pub drain_on : ℕ → List Operation → Run env st (Unit {0})
  unfolding ◌>>=◌ on_store for_each check_context apply_operation
  drain_on account_id ops = do
    folders ← on_store (st.list_folders account_id)
    for_each (λ op. do check_context; apply_operation folders op) ops
