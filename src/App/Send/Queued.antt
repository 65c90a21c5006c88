-- ===== src/App/Send/Queued.antt =====
-- What a send leaves in the outbox and in the queue.
use nexus_mail.Base.{
  ℕ, ◌<◌, false, List, [], ◌∷◌, ◌++◌, map, Option, none, some, any, length, In, ◌≡◌, ◌≢◌, refl, sym,
  ap, subst, ◌∙◌,
}
use nexus_mail.Base.Text.{Text, Unicode}
use nexus_mail.Model.{Address}
use nexus_mail.Model.Errors.{Error, Result, ok, err}
use nexus_mail.Store.{Db}
use nexus_mail.Store.Operations.{enqueue_operation, to_operation, op_ids}
use nexus_mail.Store.Operations.Enqueue.{enqueue_operation-queues, as_queued}
use nexus_mail.Store.Identities.{Identity}
use nexus_mail.Store.Outbox.{Files, put, get}
use nexus_mail.Store.Outbox.Kept.{is_separator, get-put}
use nexus_mail.App.Send.{
  Composed, Outgoing, Mailer, Receipt, recipients, prepare, queued_send, after_enqueue, after_put,
  send_prepared, send_into, send_message,
}

-- The queue holds the message, and its file what was built: for a sender, a draft and its bytes.
pub record IsQueued (now : ℕ) (identity : Identity) (draft : Outgoing) (raw : List ℕ)
    (before after : Mailer) (queued : Receipt) : Type 0 where
  pub name : Text
  pub files : Files
  pub outbox : after.outbox ≡ some files
  pub stored : get name files ≡ ok raw
  pub count : queued.1 ≡ length (recipients draft)
  pub fresh : (i : ℕ) → In i (op_ids before.db) → i < queued.0
  pub operations :
      map to_operation after.db.operations
      ≡ map to_operation before.db.operations
        ++ as_queued queued.0 now (queued_send identity draft name) ∷ []

err≢ok : {A : Type 0} {e : Error} {a : A} → err e ≢ ok a
err≢ok h = cc

ok-injective : {A : Type 0} {a b : A} → ok a ≡ ok b → a ≡ b
ok-injective h = cc

module _ (now : ℕ) (identity : Identity) (draft : Outgoing) (raw : List ℕ) (m : Mailer) where
  after_enqueue-IsQueued :
      (name : Text) (files : Files) (r : Result (ℕ × Db)) (queued : Receipt)
      → enqueue_operation now (queued_send identity draft name) m.db ≡ r
      → get name files ≡ ok raw
      → (after_enqueue name (length (recipients draft)) files m r).0 ≡ ok queued
      → IsQueued now identity draft raw m
          (after_enqueue name (length (recipients draft)) files m r).1
          queued
  unfolding after_enqueue
  after_enqueue-IsQueued name files (err e) queued q g h = absurd (err≢ok h)
  after_enqueue-IsQueued name files (ok (id, db)) queued q g h =
      let (fresh, operations) =
        (enqueue_operation-queues now (queued_send identity draft name) m.db).1 id db q in
      let this : IsQueued now identity draft raw m (record m { db = db; outbox = some files })
          (id, length (recipients draft)) =
        record {
          name = name;
          files = files;
          outbox = refl;
          stored = g;
          count = refl;
          fresh = fresh;
          operations = operations;
        } in
      subst (IsQueued now identity draft raw m (record m { db = db; outbox = some files }))
        (ok-injective h) this

  after_put-IsQueued :
      (r : Result Text) (files : Files) (queued : Receipt)
      → ((name : Text) → r ≡ ok name → get name files ≡ ok raw)
      → (after_put now identity draft m (r, files)).0 ≡ ok queued
      → IsQueued now identity draft raw m (after_put now identity draft m (r, files)).1 queued
  unfolding after_put
  after_put-IsQueued (err e) files queued g h = absurd (err≢ok h)
  after_put-IsQueued (ok name) files queued g h =
      after_enqueue-IsQueued name files
        (enqueue_operation now (queued_send identity draft name) m.db) queued refl (g name refl) h

  after_enqueue-db :
      (name : Text) (files : Files) (r : Result (ℕ × Db)) (e : Error)
      → (after_enqueue name (length (recipients draft)) files m r).0 ≡ err e
      → (after_enqueue name (length (recipients draft)) files m r).1.db ≡ m.db
  unfolding after_enqueue
  after_enqueue-db name files (err f) e h = refl
  after_enqueue-db name files (ok (id, db)) e h = absurd (err≢ok (sym h))

  after_put-db :
      (r : Result Text) (files : Files) (e : Error)
      → (after_put now identity draft m (r, files)).0 ≡ err e
      → (after_put now identity draft m (r, files)).1.db ≡ m.db
  unfolding after_put
  after_put-db (err f) files e h = refl
  after_put-db (ok name) files e h = after_enqueue-db name files _ e h

-- What a send did: on success a prepared message is queued with its file, and on an error the
-- database is the one from before.
abbrev pub IsSent :
    ℕ → Result (Identity × Outgoing × List ℕ) → Mailer → Result Receipt × Mailer → Type 0
IsSent now prepared before (ok queued, after) =
    (identity : Identity) × (draft : Outgoing) × (raw : List ℕ) × (prepared
      ≡ ok (identity, draft, raw))
    × IsQueued now identity draft raw before after queued
IsSent now prepared before (err e, after) = after.db ≡ before.db

after_put-IsSent :
    (now : ℕ) (identity : Identity) (draft : Outgoing) (raw : List ℕ) (m : Mailer) (r : Result Text)
    (files : Files)
    → ((name : Text) → r ≡ ok name → get name files ≡ ok raw)
    → (t : Result Receipt × Mailer) → after_put now identity draft m (r, files) ≡ t
    → IsSent now (ok (identity, draft, raw)) m t
after_put-IsSent now identity draft raw m r files g (ok queued, after) e = (
  identity,
  draft,
  raw,
  refl,
  subst (λ a. IsQueued now identity draft raw m a queued) (ap (λ p. p.1) e)
      (after_put-IsQueued now identity draft raw m r files queued g (ap (λ p. p.0) e)),
)
after_put-IsSent now identity draft raw m r files g (err f, after) e =
    sym (ap (λ p. p.1.db) e) ∙ after_put-db now identity draft raw m r files f (ap (λ p. p.0) e)

send_prepared-IsSent :
    (now : ℕ) (hex : Text) (files : Files) (m : Mailer)
    (prepared : Result (Identity × Outgoing × List ℕ))
    → any is_separator hex ≡ false
    → IsSent now prepared m (send_prepared now hex files m prepared)
unfolding send_prepared
send_prepared-IsSent now hex files m (err e) plain = refl
send_prepared-IsSent now hex files m (ok (identity, draft, raw)) plain =
    after_put-IsSent now identity draft raw m (put hex raw files).0 (put hex raw files).1
      (λ name h. (get-put hex raw files name plain h).0) _ refl

send_into-IsSent :
    (u : Unicode) (parse : Text → Result (List Address)) (assemble : Outgoing → Result (List ℕ))
    (now : ℕ) (hex : Text) (d : Composed) (m : Mailer) (o : Option Files)
    → any is_separator hex ≡ false
    → IsSent now
        (prepare u parse assemble d m.identities)
        m
        (send_into u parse assemble now hex d m o)
unfolding send_into
send_into-IsSent u parse assemble now hex d m none plain = refl
send_into-IsSent u parse assemble now hex d m (some files) plain =
    send_prepared-IsSent now hex files m (prepare u parse assemble d m.identities) plain

pub send_message-IsSent :
    (u : Unicode) (parse : Text → Result (List Address)) (assemble : Outgoing → Result (List ℕ))
    (now : ℕ) (hex : Text) (d : Composed) (m : Mailer)
    → any is_separator hex ≡ false
    → IsSent now
        (prepare u parse assemble d m.identities)
        m
        (send_message u parse assemble now hex d m)
unfolding send_message
send_message-IsSent u parse assemble now hex d m plain =
    send_into-IsSent u parse assemble now hex d m m.outbox plain
