-- ===== src/Sync/Outcomes/Drain.antt =====
-- A drain that returns no error has settled every operation that it claimed, in the order of the
-- queue and once each.
use nexus_mail.Base.{
  ℕ, Bool, true, false, not, filter, List, [], ◌∷◌, map, ◌≡◌, refl, ◌∙◌, ap, arith,
}
use nexus_mail.Base.Text.{Unicode}
use nexus_mail.Model.{
  Operation, OperationKind, add_flags, remove_flags, move, delete, empty_folder, send, other,
}
use nexus_mail.Model.Errors.{Error, Result, ok, err}
use nexus_mail.Sync.{
  Outside, Store, World, Run, ◌>>=◌, continue, attempt, wrapped, on_store, on_outside, reads,
  deferred, for_each,
}
use nexus_mail.Store.Operations.{is_send}
use nexus_mail.Sync.Queue.{check_context, apply_operation, drain_on, partition_sends}
use nexus_mail.Sync.Send.{
  submit, send_all, drain_with, drain_sends, fail_send, retry_send, not_connected, no_submission,
}
use nexus_mail.Sync.Watch.{drain_queue, drain_claimed, drain_rest, to_drain}
use nexus_mail.Sync.Outcomes.{Outcome, settled, onto, Settles, Silent, apply_operation-Settles}
use nexus_mail.Sync.Outcomes.Sends.{outcomes-submit}

-- A run that returns no error has settled these operations, one after another.
pub record SettlesAll {env : Outside} {st : Store} (ids : List ℕ) (m : Run env st (Unit {0}))
    : Type 0 where
  pub at : (w : World env st) → (m w).0 ≡ ok tt → settled (m w).1.trace ≡ onto ids (settled w.trace)

module _ {env : Outside} {st : Store} where
  -- A loop settles what its rounds settle.
  for_each-SettlesAll :
      (f : Operation → Run env st (Unit {0})) (ops : List Operation)
      → ((op : Operation) → SettlesAll (op.id ∷ []) (f op))
      → SettlesAll (map (λ op. op.id) ops) (for_each f ops)
  unfolding for_each
  for_each-SettlesAll f [] k = record { at = λ w h. refl }
  for_each-SettlesAll f (op ∷ ops) k = record {
    at = λ w h. ground (arith, (k op).at w, (for_each-SettlesAll f ops k).at (f op w).1);
  }

  SettlesAll-of_Settles : (i : ℕ) (m : Run env st (Unit {0})) → Settles i m → SettlesAll (i ∷ []) m
  SettlesAll-of_Settles i m k = record { at = λ w h. k.at w }

module _ {env : Outside} {st : Store} {A : Type 0} where
  on_store-Silent : (f : st.State → Result A × st.State) → Silent (on_store {env = env} {st = st} f)
  unfolding on_store
  on_store-Silent f = record { at = λ w. refl }

  reads-Silent : (f : env.State → A) → Silent (reads {env = env} {st = st} f)
  unfolding reads
  reads-Silent f = record { at = λ w. refl }

  SettlesAll-continue :
      (ids : List ℕ) (r : Result A) (k : A → Run env st (Unit {0}))
      → ((a : A) → SettlesAll ids (k a))
      → SettlesAll ids (continue r k)
  SettlesAll-continue ids (ok a) k s = s a
  SettlesAll-continue ids (err e) k s = record { at = λ w h. cc }

  -- What comes first settles nothing.
  SettlesAll-bind :
      {ids : List ℕ} (m : Run env st A) (k : A → Run env st (Unit {0}))
      → Silent m
      → ((a : A) → SettlesAll ids (k a))
      → SettlesAll ids (m >>= k)
  unfolding ◌>>=◌
  SettlesAll-bind {ids} m k q s = record {
    at = λ w h.
        let (r, w') = m w in
        (SettlesAll-continue ids r k s).at w' h
        ∙ ap (λ (t : List (ℕ × Outcome)). onto ids (map (λ o. o.0) t)) (q.at w);
  }

abbrev pub ids_of : List Operation → List ℕ
ids_of ops = map (λ op. op.id) ops

module _ (u : Unicode) (env : Outside) (st : Store) where
  -- The test of the context before a round: if it ends the loop, there is an error.
  checked-SettlesAll :
      (i : ℕ) (m : Run env st (Unit {0}))
      → Settles i m
      → SettlesAll (i ∷ []) (check_context u env st >>= λ _. m)
  unfolding check_context ◌>>=◌
  checked-SettlesAll i m k = record { at = λ w h. ground (arith, k.at w) }

  drain_on-SettlesAll :
      (account_id : ℕ) (ops : List Operation)
      → SettlesAll (ids_of ops) (drain_on u env st account_id ops)
  unfolding drain_on
  drain_on-SettlesAll account_id ops =
      SettlesAll-bind (on_store (st.list_folders account_id)) _ (on_store-Silent _) λ folders.
        for_each-SettlesAll
          (λ op. check_context u env st >>= λ _. apply_operation u env st folders op) ops
          (λ op.
            checked-SettlesAll op.id (apply_operation u env st folders op)
              (apply_operation-Settles u env st folders op))

  submit-Settles : (op : Operation) → Settles op.id (submit u env st op)
  submit-Settles op = record { at = λ w. ap (map (λ o. o.0)) (outcomes-submit u env st op w) }

  fail_send-Settles : (op : Operation) (e : Error) → Settles op.id (fail_send u env st op e)
  unfolding fail_send
  fail_send-Settles op e = record { at = λ w. refl }

  retry_send-Settles : (op : Operation) (e : Error) → Settles op.id (retry_send u env st op e)
  unfolding retry_send
  retry_send-Settles op e = record { at = λ w. refl }

  send_all-SettlesAll :
      (ops : List Operation) (r : Result (Unit {0}))
      → SettlesAll (ids_of ops) (send_all u env st ops r)
  unfolding send_all
  send_all-SettlesAll ops (err e) =
      for_each-SettlesAll (λ op. retry_send u env st op (not_connected e)) ops
        (λ op. SettlesAll-of_Settles op.id _ (retry_send-Settles op (not_connected e)))
  send_all-SettlesAll ops (ok t) = record {
    at =
        (for_each-SettlesAll (λ op. check_context u env st >>= λ _. submit u env st op) ops
          (λ op. checked-SettlesAll op.id (submit u env st op) (submit-Settles op))).at;
  }

  drain_with-SettlesAll :
      (account_id : ℕ) (ops : List Operation) (has : Bool)
      → SettlesAll (ids_of ops) (drain_with u env st account_id ops has)
  unfolding drain_with
  drain_with-SettlesAll account_id ops false =
      for_each-SettlesAll (λ op. fail_send u env st op no_submission) ops
        (λ op. SettlesAll-of_Settles op.id _ (fail_send-Settles op no_submission))
  drain_with-SettlesAll account_id ops true =
      SettlesAll-bind (attempt (on_outside (env.dial_sender account_id))) _
        (record { at = λ w. refl }) (send_all-SettlesAll ops)

  drain_sends-SettlesAll :
      (account_id : ℕ) (ops : List Operation)
      → SettlesAll (ids_of ops) (drain_sends u env st account_id ops)
  unfolding drain_sends
  drain_sends-SettlesAll account_id [] = record { at = λ w h. refl }
  drain_sends-SettlesAll account_id (op ∷ ops) =
      SettlesAll-bind (reads env.has_sender) _ (reads-Silent _)
        (drain_with-SettlesAll account_id (op ∷ ops))

  drain_rest-SettlesAll :
      (account_id : ℕ) (ops : List Operation)
      → SettlesAll (ids_of ops) (drain_rest u env st account_id ops)
  unfolding drain_rest
  drain_rest-SettlesAll account_id [] = record { at = λ w h. refl }
  drain_rest-SettlesAll account_id (op ∷ ops) =
      SettlesAll-bind (wrapped to_drain (on_outside (env.dial account_id)))
        (λ _. deferred env.close (drain_on u env st account_id (op ∷ ops)))
        (record { at = λ w. refl })
        λ _. record { at = (drain_on-SettlesAll account_id (op ∷ ops)).at }

  -- The queue as a claim reads it.
  abbrev pub claimed : ℕ → World env st → Result (List Operation)
  claimed account_id w = (st.claim_operations (env.now w.outside) account_id 100 w.db).0

  -- An operation that goes to the submission server.
  abbrev pub is_submission : OperationKind → Bool
  is_submission send = true
  is_submission _ = false

  is_send-is_submission : (kind : OperationKind) → is_send kind ≡ is_submission kind
  unfolding is_send
  is_send-is_submission add_flags = refl
  is_send-is_submission remove_flags = refl
  is_send-is_submission move = refl
  is_send-is_submission delete = refl
  is_send-is_submission empty_folder = refl
  is_send-is_submission send = refl
  is_send-is_submission (other name) = refl

  partition_sends-filter :
      (ops : List Operation)
      → partition_sends ops
        ≡ (filter (λ op. is_submission op.kind) ops, filter (λ op. not (is_submission op.kind)) ops)
  unfolding partition_sends
  partition_sends-filter ops i = (
    filter (λ op. is_send-is_submission op.kind i) ops,
    filter (λ op. not (is_send-is_submission op.kind i)) ops,
  )

  -- The operations of a claim in the order in which they are settled, on top of the earlier ones:
  -- the submissions of the claim, and then whatever else it read.
  abbrev pub settled_after : List Operation → List ℕ → List ℕ
  settled_after ops earlier =
      onto (ids_of (filter (λ op. not (is_submission op.kind)) ops))
        (onto (ids_of (filter (λ op. is_submission op.kind) ops)) earlier)

  drain_claimed_settles :
      (account_id : ℕ) (ops : List Operation) (w : World env st)
      → (drain_claimed u env st account_id ops w).0 ≡ ok tt
      → settled (drain_claimed u env st account_id ops w).1.trace
        ≡ settled_after ops (settled w.trace)
  unfolding drain_claimed
  drain_claimed_settles account_id [] w h = refl
  drain_claimed_settles account_id (op ∷ ops) w h =
      let (sends, rest) = partition_sends (op ∷ ops) in
      let parts : settled (drain_claimed u env st account_id (op ∷ ops) w).1.trace
          ≡ onto (ids_of rest) (onto (ids_of sends) (settled w.trace)) =
        ground (
          arith,
          (drain_sends-SettlesAll account_id sends).at w,
          (drain_rest-SettlesAll account_id rest).at (drain_sends u env st account_id sends w).1,
        ) in
      parts
      ∙ ap
          (λ (p : List Operation × List Operation).
            onto (ids_of p.1) (onto (ids_of p.0) (settled w.trace)))
          (partition_sends-filter (op ∷ ops))

  -- A `DrainQueue` that returns no error has settled every operation that its claim read, the submissions
  -- first and each part in the order of the queue, and no operation twice or besides.
  pub drain_queue_settles :
      (account_id : ℕ) (ops : List Operation) (w : World env st)
      → claimed account_id w ≡ ok ops
      → (drain_queue u env st account_id w).0 ≡ ok tt
      → settled (drain_queue u env st account_id w).1.trace ≡ settled_after ops (settled w.trace)
  unfolding drain_queue
  drain_queue_settles account_id ops w c h = ground (
    arith,
    drain_claimed_settles account_id ops
        (record w { db = (st.claim_operations (env.now w.outside) account_id 100 w.db).1 }),
  )
