-- ===== src/Sync/Watch.antt =====
-- internal/sync/watch.go, and `DrainQueue` of queue.go: the loop that keeps an account in step.
--
-- The source loops until the context ends. Here a number bounds the rounds, and `none` and `running`
-- say that the loop is still going after so many.
use nexus_mail.Base.{
  ℕ, zero, suc, ◌+◌, Bool, true, false, not, List, [], ◌∷◌, Option, none, some, filter, ◌==◌,
  if◌then◌else◌,
}
use nexus_mail.Base.Text.{Text, Unicode, codes}
use nexus_mail.Model.{Folder, Operation, RetentionPolicy}
use nexus_mail.Model.Errors.{Error, Result, ok, err, new_error}
use nexus_mail.Model.Flags.{is_inbox, enabled}
use nexus_mail.Store.Operations.{is_nil}
use nexus_mail.Sync.{
  Outside, Store, World, Run, ◌>>=◌, ◌>>◌, pure, fail, attempt, wrapped, on_store, on_outside, does,
  reads, deferred, for_each,
}
use nexus_mail.Sync.Backoff.{backoff}
use nexus_mail.Sync.Queue.{select, partition_sends, drain_on, queue_batch_size}
use nexus_mail.Sync.Send.{drain_sends}
use nexus_mail.Sync.Delta.{about, delta_sync_on}

abbrev pub no_inbox : Error
no_inbox = record (new_error (codes "sync: account has no inbox")) { is_no_inbox = true }

abbrev pub to_drain : Text
to_drain = codes "sync: connecting to drain the queue: "

-- What a connection came to: still in use, or ended, with whether it did a useful pass.
pub data Watched : Type 0 where
  running : Watched
  stopped : Bool → Error → Watched

unfoldable pub is_tracked : Folder → Bool
is_tracked f = not (f.uid_next == 0)

-- A connection that did useful work starts the schedule over.
unfoldable pub next_attempt : Bool → ℕ → ℕ
next_attempt synced n = if synced then 0 else n + 1

module _ (u : Unicode) where
  -- The last folder of the list that is an inbox.
  unfoldable pub last_inbox : List Folder → Option Folder → Option Folder
  unfolding is_inbox
  last_inbox [] found = found
  last_inbox (f ∷ fs) found = last_inbox fs (if is_inbox u f then some f else found)

module _ (u : Unicode) (env : Outside) (st : Store) where
  unfoldable pub claim : ℕ → Run env st (List Operation)
  unfolding reads on_store ◌>>=◌
  claim account_id = do
    now ← reads env.now
    on_store (st.claim_operations now account_id queue_batch_size)

  -- The part of `DrainQueue` that needs a mailbox.
  unfoldable pub drain_rest : ℕ → List Operation → Run env st (Unit {0})
  unfolding is_nil pure wrapped on_outside deferred drain_on ◌>>=◌
  drain_rest account_id rest = if is_nil rest then pure tt else (do
    wrapped to_drain (on_outside (env.dial account_id))
    deferred env.close (drain_on u env st account_id rest))

  -- Messages to submit go over SMTP, and everything else over IMAP.
  unfoldable pub drain_claimed : ℕ → List Operation → Run env st (Unit {0})
  unfolding pure ◌>>=◌
  drain_claimed account_id [] = pure tt
  drain_claimed account_id (op ∷ ops) = do
    drain_sends u env st account_id (partition_sends (op ∷ ops)).0
    drain_rest account_id (partition_sends (op ∷ ops)).1

  unfoldable pub drain_queue : ℕ → Run env st (Unit {0})
  unfolding claim drain_claimed ◌>>=◌
  drain_queue account_id = do ops ← claim account_id; drain_claimed account_id ops

  unfoldable pub refresh_folders : ℕ → Run env st (Option Folder)
  unfolding on_store for_each is_tracked delta_sync_on last_inbox pure ◌>>=◌
  refresh_folders account_id = do
    folders ← on_store (st.list_folders account_id)
    for_each (delta_sync_on u env st account_id) (filter is_tracked folders)
    pure (last_inbox u folders none)

  -- One folder of `purgeAccount`; the number of messages that went is dropped.
  unfoldable pub purge_one : RetentionPolicy → Folder → Run env st (Unit {0})
  unfolding reads wrapped on_store pure ◌>>=◌
  purge_one policy folder = do
    now ← reads env.now
    gone ← wrapped (about "sync: purging " folder) (on_store (st.purge_folder now folder.id policy))
    pure tt

  unfoldable pub purge_account : ℕ → RetentionPolicy → Run env st (Unit {0})
  unfolding enabled pure on_store for_each purge_one is_tracked ◌>>=◌
  purge_account account_id policy =
      if enabled policy
      then (do
        folders ← on_store (st.list_folders account_id)
        for_each (purge_one policy) (filter is_tracked folders))
      else pure tt

  -- A cancelled IDLE is a wake-up, unless the context itself has ended.
  unfoldable pub wake : Folder → Result (Unit {0}) → Run env st (Unit {0})
  unfolding pure fail wrapped
  wake inbox (ok t) = pure tt
  wake inbox (err e) = λ w. elim (env.ctx_err w.outside) [
    | none ↦
        if e.is_canceled then (ok tt, w) else wrapped (about "sync: idling on " inbox) (fail e) w
    | some c ↦ wrapped (about "sync: idling on " inbox) (fail e) w
  ]

  unfoldable pub wait_for_change : Folder → Run env st (Unit {0})
  unfolding reads on_outside wrapped select attempt wake ◌>>=◌
  wait_for_change inbox = do
    caps ← reads env.capabilities
    if caps.idle
        then (do
          sel ← wrapped (about "sync: selecting " inbox) (select u env st inbox.path)
          woken ← attempt (on_outside env.idle)
          wake inbox woken)
        else on_outside env.pause

  -- Outgoing changes go out before anything else is read.
  unfoldable pub drain_pass : ℕ → Run env st (Unit {0})
  unfolding claim partition_sends drain_sends is_nil pure drain_on ◌>>=◌
  drain_pass account_id = do
    claimed ← claim account_id
    drain_sends u env st account_id (partition_sends claimed).0
    if is_nil (partition_sends claimed).1
        then pure tt
        else drain_on u env st account_id (partition_sends claimed).1

  -- A pass after the folders were refreshed. The purge is made once for a connection.
  unfoldable pub pass : ℕ → RetentionPolicy → Bool → Folder → Run env st (Unit {0})
  unfolding drain_pass purge_account pure does wait_for_change ◌>>=◌
  pass account_id policy purged inbox = do
    drain_pass account_id
    if purged then pure tt else purge_account account_id policy
    does env.on_pass
    wait_for_change inbox

  abbrev pub Ending : Type 0 → Type 0
  Ending R = World env st → R × World env st

  -- After a pass the loop goes on, and an error ends it.
  unfoldable pub after_pass : Ending Watched → Result (Unit {0}) → Ending Watched
  after_pass again (err e) w = (stopped true e, w)
  after_pass again (ok t) w = again w

  -- After the folders were refreshed: an error ends the loop, and so does an account with no inbox.
  unfoldable pub after_refresh :
      (Folder → Run env st (Unit {0}))
      → Ending Watched
      → Bool
      → Result (Option Folder)
      → Ending Watched
  unfolding after_pass
  after_refresh body again synced (err e) w = (stopped synced e, w)
  after_refresh body again synced (ok none) w = (stopped synced no_inbox, w)
  after_refresh body again synced (ok (some inbox)) w =
      let (passed, w') = body inbox w in after_pass again passed w'

  unfoldable pub watch_loop : ℕ → ℕ → RetentionPolicy → Bool → Bool → Ending Watched
  unfolding after_refresh
  watch_loop zero account_id policy synced purged w = (running, w)
  watch_loop (suc n) account_id policy synced purged w =
      let (refreshed, w') = refresh_folders account_id w in
      after_refresh (pass account_id policy purged) (watch_loop n account_id policy true true)
        synced refreshed w'

  -- A connection is closed whatever the loop came to.
  unfoldable pub after_dial : Ending Watched → Result (Unit {0}) → Ending Watched
  after_dial loop (err e) w = (stopped false e, w)
  after_dial loop (ok t) w =
      let (watched, w') = loop w in (watched, record w' { outside = env.close w'.outside })

  unfoldable pub connect : ℕ → Run env st (Unit {0})
  unfolding wrapped on_outside
  connect account_id = wrapped (codes "sync: connecting: ") (on_outside (env.dial account_id))

  -- One connection, for as long as it lives.
  unfoldable pub watch_once : ℕ → ℕ → RetentionPolicy → Ending Watched
  unfolding connect after_dial
  watch_once passes account_id policy w =
      let (dialled, w') = connect account_id w in
      after_dial (watch_loop passes account_id policy false false) dialled w'

  -- `case <-ctx.Done(): return nil`, and otherwise the next connection.
  unfoldable pub unless_done :
      Ending (Option (Result (Unit {0}))) → Ending (Option (Result (Unit {0})))
  unless_done again w = elim (env.ctx_err w.outside) [ some c ↦ (some (ok tt), w) | none ↦ again w ]

  -- The wait before a reconnect.
  unfoldable pub sleep : ℕ → World env st → World env st
  unfolding backoff
  sleep n w = record w { outside = env.sleep (backoff (env.jitter w.outside) n) w.outside }

  -- `ErrNoInbox` is returned, and any other error is followed by a wait and a new connection.
  unfoldable pub reconnect :
      (ℕ → Ending (Option (Result (Unit {0}))))
      → ℕ
      → Bool
      → Error
      → Ending (Option (Result (Unit {0})))
  unfolding unless_done next_attempt sleep
  reconnect again n synced e w =
      if e.is_no_inbox
      then (some (err e), w)
      else unless_done (again (next_attempt synced n)) (sleep (next_attempt synced n) w)

  -- What `Watch` makes of the end of a connection, `n` attempts after the last good one.
  unfoldable pub after_connection :
      (ℕ → Ending (Option (Result (Unit {0})))) → ℕ → Watched → Ending (Option (Result (Unit {0})))
  unfolding unless_done reconnect
  after_connection again n running w = (none, w)
  after_connection again n (stopped synced e) w = unless_done (reconnect again n synced e) w

  -- What `Watch` returns: nothing yet, or nil on cancellation, or that there is no inbox.
  unfoldable pub watch : ℕ → ℕ → ℕ → RetentionPolicy → ℕ → Ending (Option (Result (Unit {0})))
  unfolding after_connection
  watch zero passes account_id policy n w = (none, w)
  watch (suc rounds) passes account_id policy n w =
      let (watched, w') = watch_once passes account_id policy w in
      after_connection (watch rounds passes account_id policy) n watched w'
