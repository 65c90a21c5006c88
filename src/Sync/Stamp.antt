-- ===== src/Sync/Stamp.antt =====
-- No command reaches a mailbox of another generation than the one it was queued against.
mod Passes
pub mod Loop
use nexus_mail.Base.{
  ℕ, zero, suc, Bool, true, false, List, [], ◌∷◌, Option, none, some, ◌≡◌, refl, arith, sym, ◌==◌,
  ==_iff, Option-cases, Bool-cases, inl, inr,
}
use nexus_mail.Base.Text.{Text, Unicode}
use nexus_mail.Model.{Folder, Operation, RetentionPolicy}
use nexus_mail.Model.Errors.{Error, Result, ok, err}
use nexus_mail.Sync.{
  Outside, Store, World, Run, SelectResult, Command, Event, selected, sent, submitted, filed,
  removed, done, dropped, retried, gave_up, ◌>>=◌, attempt, log, on_outside, on_store, pure, fail,
  for_each, reads,
}
use nexus_mail.Sync.Trace.{Keeps, Keeps-log, Keeps-bind, keeps_rules}
use nexus_mail.Sync.Queue.{
  mark_done, mark_dropped, mark_failed, mark_permanently_failed, record_failure, send_command,
  send_operation, select, settle, apply_selected, apply_operation, check_context, drain_on,
  command_of, folder_by_id,
}

-- The newest event is the answer of a selection that names the generation `stamp`.
abbrev pub Answered : ℕ → List Event → Type 0
Answered stamp (selected path (ok sel) ∷ rest) = sel.uid_validity ≡ stamp
Answered stamp _ = ⊥

-- Directly before every command stands a selection whose answer has the command's stamp.
abbrev pub Guarded : List Event → Type 0
Guarded [] = Unit
Guarded (sent stamp c ∷ rest) = Answered stamp rest × Guarded rest
Guarded (selected path r ∷ rest) = Guarded rest
Guarded (_ ∷ rest) = Guarded rest

module _ (u : Unicode) (env : Outside) (st : Store) where
  pub mark_done-Guarded : (op : Operation) → Keeps Guarded (mark_done u env st op)
  unfolding mark_done
  mark_done-Guarded op = record { at = λ w h. h }

  mark_dropped-Guarded : (op : Operation) → Keeps Guarded (mark_dropped u env st op)
  unfolding mark_dropped
  mark_dropped-Guarded op = record { at = λ w h. h }

  pub mark_failed-Guarded : (op : Operation) (e : Error) → Keeps Guarded (mark_failed u env st op e)
  unfolding mark_failed
  mark_failed-Guarded op e = record { at = λ w h. h }

  pub mark_permanently_failed-Guarded :
      (op : Operation) (e : Error) → Keeps Guarded (mark_permanently_failed u env st op e)
  unfolding mark_permanently_failed
  mark_permanently_failed-Guarded op e = record { at = λ w h. h }

  record_failure-Guarded :
      (op : Operation) (e : Error) → Keeps Guarded (record_failure u env st op e)
  unfolding record_failure
  record_failure-Guarded op e =
      search (keeps_rules, mark_failed-Guarded, mark_permanently_failed-Guarded)

  settle-Guarded : (op : Operation) (r : Result (Unit {0})) → Keeps Guarded (settle u env st op r)
  unfolding settle
  settle-Guarded op (ok t) = mark_done-Guarded op
  settle-Guarded op (err e) = record_failure-Guarded op e

  pub select-Guarded : (path : Text) → Keeps Guarded (select u env st path)
  unfolding select attempt on_outside log ◌>>=◌
  select-Guarded path = record { at = λ w h. h }

  -- Where the newest event is the answer with the operation's stamp, its command may follow.
  send_operation-Guarded :
      (op : Operation) (folders : List Folder) (w : World env st)
      → Answered op.uid_validity w.trace
      → Guarded w.trace
      → Guarded (send_operation u env st op folders w).1.trace
  unfolding send_operation
  send_operation-Guarded op folders w a h = ground arith

  apply_selected-Guarded :
      (op : Operation) (folders : List Folder) (path : Text) (r : Result SelectResult)
      → (w : World env st) → Guarded w.trace
      → Guarded
          (apply_selected u env st op folders r
            (record w { trace = selected path r ∷ w.trace })).1.trace
  unfolding apply_selected
  apply_selected-Guarded op folders path (err e) w h = (record_failure-Guarded op e).at _ h
  apply_selected-Guarded op folders path (ok sel) w h =
      elim (Bool-cases (op.uid_validity == sel.uid_validity)) [
        | inl same ↦
            rw (same, apply_selected)
              ((settle-Guarded op (send_operation u env st op folders w').0).at
                (send_operation u env st op folders w').1
                (send_operation-Guarded op folders w' (sym ((==_iff _ _).0 same)) h))
        | inr other ↦ rw (other, apply_selected) ((mark_dropped-Guarded op).at w' h)
      ]
    where
      w' : World env st
      w' = record w { trace = selected path (ok sel) ∷ w.trace }

  apply_operation-Guarded :
      (folders : List Folder) (op : Operation) → Keeps Guarded (apply_operation u env st folders op)
  unfolding apply_operation
  apply_operation-Guarded folders op = record {
    at = λ w h. elim (Option-cases (folder_by_id op.folder_id folders)) [
      | inl e ↦ rw (e, apply_operation) ((mark_dropped-Guarded op).at w h)
      | inr (f, e) ↦ elim (Bool-cases (op.uid_validity == f.uid_validity)) [
        | inl same ↦
            rw (e, same, apply_operation)
              (apply_selected-Guarded op folders f.path (env.select f.path w.outside).0
                (record w { outside = (env.select f.path w.outside).1 }) h)
        | inr other ↦ rw (e, other, apply_operation) ((mark_dropped-Guarded op).at w h)
      ]
    ];
  }

  pub check_context-Guarded : Keeps Guarded (check_context u env st)
  unfolding check_context
  check_context-Guarded = record { at = λ w h. ground arith }

  pub drain_on-Guarded :
      (account_id : ℕ) (ops : List Operation) → Keeps Guarded (drain_on u env st account_id ops)
  unfolding drain_on
  drain_on-Guarded account_id ops =
      search (keeps_rules, check_context-Guarded, apply_operation-Guarded)
