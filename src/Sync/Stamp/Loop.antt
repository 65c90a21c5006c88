-- ===== src/Sync/Stamp/Loop.antt =====
-- The guard of Sync/Stamp.antt over `DrainQueue` and the whole of `Watch`.
use nexus_mail.Base.{ℕ, zero, suc, Bool, true, false, List, [], ◌∷◌, Option, none, some, arith}
use nexus_mail.Base.Text.{Unicode}
use nexus_mail.Model.{Folder, Operation, RetentionPolicy}
use nexus_mail.Model.Errors.{Error, Result, ok, err}
use nexus_mail.Sync.{Outside, Store, World, Run}
use nexus_mail.Sync.Trace.{Keeps, keeps_rules}
use nexus_mail.Sync.Watch.{
  Watched, running, stopped, claim, refresh_folders, purge_one, purge_account, wake,
  wait_for_change, drain_pass, pass, Ending, after_pass, after_refresh, watch_loop, after_dial,
  watch_once, unless_done, reconnect, connect, after_connection, watch, drain_rest, drain_claimed,
  drain_queue, next_attempt, sleep,
}
use nexus_mail.Sync.Stamp.{Guarded, select-Guarded, drain_on-Guarded}
use nexus_mail.Sync.Stamp.Passes.{drain_sends-Guarded, delta_sync_on-Guarded}

module _ (env : Outside) (st : Store) where
  -- A step of the loop that keeps the guard.
  abbrev Safe : {R : Type 0} → (World env st → R × World env st) → Type 0
  Safe m = (w : World env st) → Guarded w.trace → Guarded (m w).1.trace

module _ (u : Unicode) (env : Outside) (st : Store) where
  claim-Guarded : (account_id : ℕ) → Keeps Guarded (claim u env st account_id)
  unfolding claim
  claim-Guarded account_id = search keeps_rules

  drain_rest-Guarded :
      (account_id : ℕ) (ops : List Operation) → Keeps Guarded (drain_rest u env st account_id ops)
  unfolding drain_rest
  drain_rest-Guarded account_id ops = search (keeps_rules, drain_on-Guarded)

  drain_claimed-Guarded :
      (account_id : ℕ) (ops : List Operation)
      → Keeps Guarded (drain_claimed u env st account_id ops)
  unfolding drain_claimed
  drain_claimed-Guarded account_id [] = search keeps_rules
  drain_claimed-Guarded account_id (op ∷ ops) =
      search (keeps_rules, drain_sends-Guarded, drain_rest-Guarded)

  drain_queue-Keeps : (account_id : ℕ) → Keeps Guarded (drain_queue u env st account_id)
  unfolding drain_queue
  drain_queue-Keeps account_id = search (keeps_rules, claim-Guarded, drain_claimed-Guarded)

  refresh_folders-Guarded : (account_id : ℕ) → Keeps Guarded (refresh_folders u env st account_id)
  unfolding refresh_folders
  refresh_folders-Guarded account_id = search (keeps_rules, delta_sync_on-Guarded)

  purge_one-Guarded :
      (policy : RetentionPolicy) (f : Folder) → Keeps Guarded (purge_one u env st policy f)
  unfolding purge_one
  purge_one-Guarded policy f = search keeps_rules

  purge_account-Guarded :
      (account_id : ℕ) (policy : RetentionPolicy)
      → Keeps Guarded (purge_account u env st account_id policy)
  unfolding purge_account
  purge_account-Guarded account_id policy = search (keeps_rules, purge_one-Guarded)

  wake-Guarded : (f : Folder) (r : Result (Unit {0})) → Keeps Guarded (wake u env st f r)
  unfolding wake
  wake-Guarded f (ok t) = record { at = λ w h. h }
  wake-Guarded f (err e) = record { at = λ w h. ground arith }

  wait_for_change-Guarded : (f : Folder) → Keeps Guarded (wait_for_change u env st f)
  unfolding wait_for_change
  wait_for_change-Guarded f = search (keeps_rules, select-Guarded, wake-Guarded)

  drain_pass-Guarded : (account_id : ℕ) → Keeps Guarded (drain_pass u env st account_id)
  unfolding drain_pass
  drain_pass-Guarded account_id =
      search (keeps_rules, claim-Guarded, drain_sends-Guarded, drain_on-Guarded)

  pass-Guarded :
      (account_id : ℕ) (policy : RetentionPolicy) (purged : Bool) (f : Folder)
      → Keeps Guarded (pass u env st account_id policy purged f)
  unfolding pass
  pass-Guarded account_id policy purged f =
      search (keeps_rules, drain_pass-Guarded, purge_account-Guarded, wait_for_change-Guarded)

  after_pass-Guarded :
      (again : Ending u env st Watched) (r : Result (Unit {0}))
      → Safe env st again
      → Safe env st (after_pass u env st again r)
  unfolding after_pass
  after_pass-Guarded again (err e) k w h = h
  after_pass-Guarded again (ok t) k w h = k w h

  after_refresh-Guarded :
      (body : Folder → Run env st (Unit {0})) (again : Ending u env st Watched) (synced : Bool)
      → (r : Result (Option Folder)) → ((f : Folder) → Keeps Guarded (body f))
      → Safe env st again
      → Safe env st (after_refresh u env st body again synced r)
  unfolding after_refresh
  after_refresh-Guarded body again synced (err e) kb ka w h = h
  after_refresh-Guarded body again synced (ok none) kb ka w h = h
  after_refresh-Guarded body again synced (ok (some f)) kb ka w h =
      let (passed, w') = body f w in after_pass-Guarded again passed ka w' ((kb f).at w h)

  watch_loop-Guarded :
      (n account_id : ℕ) (policy : RetentionPolicy) (synced purged : Bool)
      → Safe env st (watch_loop u env st n account_id policy synced purged)
  unfolding watch_loop
  watch_loop-Guarded zero account_id policy synced purged w h = h
  watch_loop-Guarded (suc n) account_id policy synced purged w h =
      let (r, w') = refresh_folders u env st account_id w in
      after_refresh-Guarded (pass u env st account_id policy purged)
        (watch_loop u env st n account_id policy true true) synced r
        (pass-Guarded account_id policy purged) (watch_loop-Guarded n account_id policy true true)
        w' ((refresh_folders-Guarded account_id).at w h)

  after_dial-Guarded :
      (loop : Ending u env st Watched) (r : Result (Unit {0}))
      → Safe env st loop
      → Safe env st (after_dial u env st loop r)
  unfolding after_dial
  after_dial-Guarded loop (err e) k w h = h
  after_dial-Guarded loop (ok t) k w h = k w h

  watch_once-Guarded :
      (n account_id : ℕ) (policy : RetentionPolicy)
      → Safe env st (watch_once u env st n account_id policy)
  unfolding watch_once
  watch_once-Guarded n account_id policy w h =
      let (r, w') = connect u env st account_id w in
      after_dial-Guarded (watch_loop u env st n account_id policy false false) r
        (watch_loop-Guarded n account_id policy false false) w' h

  unless_done-Guarded :
      (again : Ending u env st (Option (Result (Unit {0}))))
      → Safe env st again
      → Safe env st (unless_done u env st again)
  unfolding unless_done
  unless_done-Guarded again k w h = ground (arith, k w h)

  reconnect-Guarded :
      (again : ℕ → Ending u env st (Option (Result (Unit {0})))) (n : ℕ) (synced : Bool) (e : Error)
      → ((n : ℕ) → Safe env st (again n))
      → Safe env st (reconnect u env st again n synced e)
  unfolding reconnect
  reconnect-Guarded again n synced e k w h =
      let m = next_attempt synced n in
      ground (arith, unless_done-Guarded (again m) (k m) (sleep u env st m w) h)

  after_connection-Guarded :
      (again : ℕ → Ending u env st (Option (Result (Unit {0})))) (n : ℕ) (watched : Watched)
      → ((n : ℕ) → Safe env st (again n))
      → Safe env st (after_connection u env st again n watched)
  unfolding after_connection
  after_connection-Guarded again n running k w h = h
  after_connection-Guarded again n (stopped synced e) k w h =
      unless_done-Guarded (reconnect u env st again n synced e)
        (reconnect-Guarded again n synced e k) w h

  watch-Safe :
      (rounds passes account_id : ℕ) (policy : RetentionPolicy) (n : ℕ)
      → Safe env st (watch u env st rounds passes account_id policy n)
  unfolding watch
  watch-Safe zero passes account_id policy n w h = h
  watch-Safe (suc rounds) passes account_id policy n w h =
      let (watched, w') = watch_once u env st passes account_id policy w in
      after_connection-Guarded (watch u env st rounds passes account_id policy) n watched
        (watch-Safe rounds passes account_id policy) w'
        (watch_once-Guarded passes account_id policy w h)

  -- Whatever the servers answer, and whatever the store does: if every command sent so far stood
  -- directly behind a selection that answered with the UIDVALIDITY which the command's operation
  -- was queued against, the same holds after any number of connections and passes of `Watch`.
  pub watch-Guarded :
      (rounds passes account_id : ℕ) (policy : RetentionPolicy) (n : ℕ) (w : World env st)
      → Guarded w.trace
      → Guarded (watch u env st rounds passes account_id policy n w).1.trace
  watch-Guarded = watch-Safe

  -- The same of one `DrainQueue`, which opens a connection of its own.
  pub drain_queue-Guarded :
      (account_id : ℕ) (w : World env st)
      → Guarded w.trace
      → Guarded (drain_queue u env st account_id w).1.trace
  drain_queue-Guarded account_id = (drain_queue-Keeps account_id).at
