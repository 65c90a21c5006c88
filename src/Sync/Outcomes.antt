-- ===== src/Sync/Outcomes.antt =====
-- Every operation of a drain is settled once: done, dropped, to be retried, or given up.
pub mod Sends
pub mod Succeeds
pub mod Returns
pub mod Drain
use nexus_mail.Base.{
  ℕ, Bool, true, false, List, [], ◌∷◌, ◌++◌, map, Option, none, some, ◌≡◌, refl, ◌∙◌, sym, ap,
  arith, ◌==◌, Option-cases, Bool-cases, inl, inr, if◌then◌else◌,
}
use nexus_mail.Base.Text.{Unicode}
use nexus_mail.Model.{Folder, Operation}
use nexus_mail.Model.Errors.{Error, Result, ok, err}
use nexus_mail.Sync.{
  Outside, Store, World, Run, SelectResult, Event, selected, sent, submitted, filed, removed, done,
  dropped, retried, gave_up, ◌>>=◌, pure, attempt, on_store, on_outside, for_each,
}
use nexus_mail.Sync.Trace.{Keeps, keeps_rules}
use nexus_mail.Sync.Queue.{
  mark_done, mark_dropped, mark_failed, mark_permanently_failed, record_failure, send_operation,
  select, settle, apply_selected, apply_operation, check_context, drain_on, folder_by_id,
}

pub data Outcome : Type 0 where
  is_done is_dropped is_retried is_given_up : Outcome

-- The outcomes in a trace, newest first.
abbrev pub outcomes : List Event → List (ℕ × Outcome)
outcomes [] = []
outcomes (done i ∷ t) = (i, is_done) ∷ outcomes t
outcomes (dropped i ∷ t) = (i, is_dropped) ∷ outcomes t
outcomes (retried i ∷ t) = (i, is_retried) ∷ outcomes t
outcomes (gave_up i ∷ t) = (i, is_given_up) ∷ outcomes t
outcomes (selected path r ∷ t) = outcomes t
outcomes (sent stamp c ∷ t) = outcomes t
outcomes (submitted i e r ∷ t) = outcomes t
outcomes (filed path ∷ t) = outcomes t
outcomes (removed name ∷ t) = outcomes t

-- The ids of the operations that were settled, newest first.
abbrev pub settled : List Event → List ℕ
settled t = map (λ o. o.0) (outcomes t)

-- The elements of the first list, one after another on top of the second.
abbrev pub onto {ℓ} : {A : Type ℓ} → List A → List A → List A
onto [] ys = ys
onto (x ∷ xs) ys = onto xs (x ∷ ys)

-- The outcome of the last call is this one.
pub record Settles {env : Outside} {st : Store} (i : ℕ) (m : Run env st (Unit {0})) : Type 0 where
  pub at : (w : World env st) → settled (m w).1.trace ≡ i ∷ settled w.trace

-- No outcome is recorded.
pub record Silent {env : Outside} {st : Store} {A : Type 0} (m : Run env st A) : Type 0 where
  pub at : (w : World env st) → outcomes (m w).1.trace ≡ outcomes w.trace

module _ (u : Unicode) (env : Outside) (st : Store) where
  pub record_failure-Settles :
      (op : Operation) (e : Error) → Settles op.id (record_failure u env st op e)
  unfolding record_failure
  record_failure-Settles op e = record { at = λ w. ground arith }

  settle-Settles : (op : Operation) (r : Result (Unit {0})) → Settles op.id (settle u env st op r)
  unfolding settle
  settle-Settles op (ok t) = record { at = λ w. refl }
  settle-Settles op (err e) = record_failure-Settles op e

  -- Sending a command settles nothing by itself.
  settled-send_operation :
      (op : Operation) (folders : List Folder) (w : World env st)
      → settled (send_operation u env st op folders w).1.trace ≡ settled w.trace
  unfolding send_operation
  settled-send_operation op folders w = ground arith

  apply_selected-Settles :
      (op : Operation) (folders : List Folder) (r : Result SelectResult)
      → Settles op.id (apply_selected u env st op folders r)
  unfolding apply_selected
  apply_selected-Settles op folders (err e) = record_failure-Settles op e
  apply_selected-Settles op folders (ok sel) = record {
    at = λ w. elim (Bool-cases (op.uid_validity == sel.uid_validity)) [
      | inl same ↦
          let (r, w') = send_operation u env st op folders w in
          rw (same, apply_selected)
            ((settle-Settles op r).at w' ∙ ap (◌∷◌ op.id) (settled-send_operation op folders w))
      | inr other ↦ rw (other, apply_selected) refl
    ];
  }

  pub apply_operation-Settles :
      (folders : List Folder) (op : Operation) → Settles op.id (apply_operation u env st folders op)
  unfolding apply_operation
  apply_operation-Settles folders op = record {
    at = λ w. elim (Option-cases (folder_by_id op.folder_id folders)) [
      | inl e ↦ rw (e, apply_operation) refl
      | inr (f, e) ↦ elim (Bool-cases (op.uid_validity == f.uid_validity)) [
        | inl same ↦
            rw (e, same, apply_operation)
              ((apply_selected-Settles op folders (env.select f.path w.outside).0).at (record w {
                outside = (env.select f.path w.outside).1;
                trace = selected f.path (env.select f.path w.outside).0 ∷ w.trace;
              }))
        | inr other ↦ rw (e, other, apply_operation) refl
      ]
    ];
  }
