-- ===== src/Sync.antt =====
-- internal/sync: the engine that keeps the database in step with the servers. This file has the
-- interfaces that it is built over, and its state; the children model the files of the package.
--
-- `Outside` is what the engine reaches through imapx.MailBackend, smtpx.MailSender, the dialers, the
-- outbox, the context and the clock: each call may change the state of the outside world and may
-- fail. `Store` is the interface of engine.go. Nothing is assumed of either.
pub mod Errors
pub mod Body
pub mod Queue
pub mod Send
pub mod Delta
pub mod Initial
pub mod Watch
pub mod Trace
pub mod Stamp
pub mod Outcomes
pub mod Backoff
pub mod Sqlite
use nexus_mail.Base.{ℕ, Bool, List, [], ◌∷◌, Option, none, some, ◌≡◌, refl}
use nexus_mail.Base.Text.{Text}
use nexus_mail.Model.{Folder, Message, FlagUpdate, Operation, RetentionPolicy}
use nexus_mail.Model.Errors.{Error, Result, ok, err, wrap}
use nexus_mail.Smtp.{Envelope}

-- internal/imapx/backend.go: the part of a connection's capabilities that the engine reads.
pub record Capabilities : Type 0 where
  pub cond_store : Bool
  pub idle : Bool

pub record SelectResult : Type 0 where
  pub uid_validity : ℕ
  pub uid_next : ℕ
  pub num_messages : ℕ
  pub highest_modseq : ℕ

-- Inclusive; an end of 0 is the highest UID.
pub record UidRange : Type 0 where
  pub start : ℕ
  pub end : ℕ

-- The commands that change a mailbox.
pub data Command : Type 0 where
  store_flags : List ℕ → List Text → Bool → Command
  move : List ℕ → Text → Command
  expunge : List ℕ → Command
  empty_folder : Command

pub record Outside : Type 1 where
  pub State : Type 0
  pub now : State → ℕ
  -- `ctx.Err()`.
  pub ctx_err : State → Option Error
  pub dial : ℕ → State → Result (Unit {0}) × State
  pub close : State → State
  pub capabilities : State → Capabilities
  pub list_mailboxes : State → Result (List Folder) × State
  pub select : Text → State → Result SelectResult × State
  pub fetch_headers : UidRange → State → Result (List Message) × State
  pub fetch_flags : UidRange → ℕ → State → Result (List FlagUpdate) × State
  pub command : Command → State → Result (Unit {0}) × State
  -- Mailbox, message, flags and time; the UID that comes back is not used.
  pub append : Text → List ℕ → List Text → ℕ → State → Result (Unit {0}) × State
  -- The poll timer, a nudge or the end of the context, on a server without IDLE.
  pub pause : State → Result (Unit {0}) × State
  -- IDLE until the server speaks, a nudge cancels it, or it fails.
  pub idle : State → Result (Unit {0}) × State
  -- `onPass`.
  pub on_pass : State → State
  -- `time.After(…)` between two connections: the draw of the jitter, and the wait.
  pub jitter : State → ℕ → ℕ
  pub sleep : ℕ → State → State
  -- Whether a dialer for submission and an outbox were set.
  pub has_sender : State → Bool
  pub dial_sender : ℕ → State → Result (Unit {0}) × State
  pub close_sender : State → State
  pub send : Envelope → List ℕ → State → Result (Unit {0}) × State
  pub outbox_get : Text → State → Result (List ℕ) × State
  pub outbox_remove : Text → State → Result (Unit {0}) × State

-- The interface `Store` of engine.go.
pub record Store : Type 1 where
  pub State : Type 0
  pub upsert_folders : ℕ → List Folder → State → Result (Unit {0}) × State
  pub list_folders : ℕ → State → Result (List Folder) × State
  pub reset_folder : ℕ → ℕ → State → Result (Unit {0}) × State
  pub upsert_messages : ℕ → List Message → State → Result (Unit {0}) × State
  pub list_message_uids : ℕ → State → Result (List ℕ) × State
  pub set_message_flags : ℕ → List FlagUpdate → State → Result (Unit {0}) × State
  pub delete_messages_by_uid : ℕ → List ℕ → State → Result (Unit {0}) × State
  -- The first number of these two is the clock's reading.
  pub purge_folder : ℕ → ℕ → RetentionPolicy → State → Result ℕ × State
  pub claim_operations : ℕ → ℕ → ℕ → State → Result (List Operation) × State
  pub mark_done : ℕ → State → Result (Unit {0}) × State
  pub mark_dropped : ℕ → State → Result (Unit {0}) × State
  pub mark_failed : ℕ → Text → ℕ → State → Result (Unit {0}) × State
  pub mark_permanently_failed : ℕ → Text → State → Result (Unit {0}) × State

-- What the engine did, newest first in a trace. A command stands with the stamp of its operation,
-- and a selection with the answer.
pub data Event : Type 0 where
  selected : Text → Result SelectResult → Event
  sent : ℕ → Command → Event
  submitted : ℕ → Envelope → Result (Unit {0}) → Event
  filed : Text → Event
  removed : Text → Event
  done dropped retried gave_up : ℕ → Event

pub record World (env : Outside) (st : Store) : Type 0 where
  pub outside : env.State
  pub db : st.State
  pub trace : List Event

-- Code that runs in a world and may return an error; what it did before the error stays done.
abbrev pub Run : Outside → Store → Type 0 → Type 0
Run env st A = World env st → Result A × World env st

-- `fmt.Errorf("…: %w", err)` on the way out.
abbrev wrap_result : {A : Type 0} → Text → Result A → Result A
wrap_result said (ok a) = ok a
wrap_result said (err e) = err (wrap said e)

module _ {env : Outside} {st : Store} where
  abbrev continue : {A B : Type 0} → Result A → (A → Run env st B) → Run env st B
  continue (ok a) f w = f a w
  continue (err e) f w = (err e, w)

  infixl 5 ◌>>=◌ ◌>>◌
  unfoldable pub ◌>>=◌ : {A B : Type 0} → Run env st A → (A → Run env st B) → Run env st B
  ◌>>=◌ m f w = let (r, w') = m w in continue r f w'

  abbrev pub ◌>>◌ : {B : Type 0} → Run env st (Unit {0}) → Run env st B → Run env st B
  m >> k = m >>= λ _. k

  unfoldable pub pure : {A : Type 0} → A → Run env st A
  pure a w = (ok a, w)

  unfoldable pub fail : {A : Type 0} → Error → Run env st A
  fail e w = (err e, w)

  -- `r, err := m`, where the code looks at the error itself.
  unfoldable pub attempt : {A : Type 0} → Run env st A → Run env st (Result A)
  attempt m w = let (r, w') = m w in (ok r, w')

  -- `_ = m`: the error is dropped.
  unfoldable pub ignored : {A : Type 0} → Run env st A → Run env st (Unit {0})
  ignored m w = let (r, w') = m w in (ok tt, w')

  unfoldable pub wrapped : {A : Type 0} → Text → Run env st A → Run env st A
  wrapped said m w = let (r, w') = m w in (wrap_result said r, w')

  -- A method of the store.
  unfoldable pub on_store : {A : Type 0} → (st.State → Result A × st.State) → Run env st A
  on_store f w = let (r, s) = f w.db in (r, record w { db = s })

  -- A call of the outside world, and the same with an event.
  unfoldable pub on_outside : {A : Type 0} → (env.State → Result A × env.State) → Run env st A
  on_outside f w = let (r, s) = f w.outside in (r, record w { outside = s })

  -- A call that cannot fail.
  unfoldable pub does : (env.State → env.State) → Run env st (Unit {0})
  does f w = (ok tt, record w { outside = f w.outside })

  unfoldable pub log : Event → Run env st (Unit {0})
  log e w = (ok tt, record w { trace = e ∷ w.trace })

  unfoldable pub reads : {A : Type 0} → (env.State → A) → Run env st A
  reads f w = (ok (f w.outside), w)

  -- `defer`: the closing call is made whatever the body returns.
  unfoldable pub deferred : {A : Type 0} → (env.State → env.State) → Run env st A → Run env st A
  deferred close m w = let (r, w') = m w in (r, record w' { outside = close w'.outside })

  -- A loop over a list that stops at the first error.
  unfoldable pub for_each :
      {A : Type 0} → (A → Run env st (Unit {0})) → List A → Run env st (Unit {0})
  unfolding ◌>>=◌ pure
  for_each f [] = pure tt
  for_each f (x ∷ xs) = do f x; for_each f xs
