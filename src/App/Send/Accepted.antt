-- ===== src/App/Send/Accepted.antt =====
-- When a send succeeds: nothing but its preparation and the file system can refuse it.
use nexus_mail.Base.{
  ℕ, Bool, true, false, List, [], ◌∷◌, Option, none, some, any, length, ◌≡◌, ◌≢◌, refl, sym, ap,
  ◌∙◌,
}
use nexus_mail.Base.Text.{Text, codes, Unicode}
use nexus_mail.Model.{Address, acts_on_uids, needs_folder}
use nexus_mail.Model.Errors.{Result, ok, err, is_ok, ◌>>=◌}
use nexus_mail.Mime.References.{is_empty}
use nexus_mail.Store.{Db}
use nexus_mail.Store.Operations.{enqueue_operation}
use nexus_mail.Store.Operations
use nexus_mail.Store.Operations.Enqueue.{enqueue_operation-queues, is_complete}
use nexus_mail.Store.Identities.{Identity}
use nexus_mail.Store.Outbox.{Files, put, get, resolve}
use nexus_mail.Store.Outbox.Kept.{is_separator, get-put}
use nexus_mail.App.Send.Queued.{IsSent, send_message-IsSent}
use nexus_mail.App.Send.{
  Composed, Outgoing, Mailer, recipients, no_recipients, refuse_if, build, identity_for, draft_of,
  parse_address_list, draft_from_dto, prepare, queued_send, after_enqueue, after_put, send_prepared,
  send_into, send_message,
}

ok-injective : {A : Type 0} {a b : A} → ok a ≡ ok b → a ≡ b
ok-injective h = cc

bind-ok :
    {A B : Type 0} (m : Result A) (f : A → Result B) (b : B)
    → (m >>= f) ≡ ok b
    → (a : A) × (m ≡ ok a) × (f a ≡ ok b)
bind-ok (err e) f b h = cc
bind-ok (ok a) f b h = (a, refl, h)

refuse_if-ok : (b : Bool) (said : Text) (v : Unit {0}) → refuse_if b said ≡ ok v → b ≡ false
refuse_if-ok true said v h = cc
refuse_if-ok false said v h = refl

-- What `Build` has checked.
build-checked :
    (assemble : Outgoing → Result (List ℕ)) (d : Outgoing) (raw : List ℕ)
    → build assemble d ≡ ok raw
    → (is_empty d.from.addr ≡ false) × (no_recipients (recipients d) ≡ false)
unfolding build
build-checked assemble d raw h =
    let (_, sender, rest) = bind-ok _ _ raw h in
    let (_, someone, _) = bind-ok _ _ raw rest in
    (refuse_if-ok _ _ _ sender, refuse_if-ok _ _ _ someone)

module _ (u : Unicode) (d : Composed) (identity : Identity) where
  abbrev collected :
      Result (List Address)
      → Result (List Address)
      → Result (List Address)
      → Result (List Address)
      → Result Outgoing
  collected a b c r = do
    to ← a
    cc ← b
    bcc ← c
    reply_to ← r
    ok (draft_of u d identity to cc bcc reply_to)

  collected-from :
      (a b c r : Result (List Address)) (draft : Outgoing)
      → collected a b c r ≡ ok draft
      → identity.email ≡ draft.from.addr
  unfolding draft_of
  collected-from (err e) b c r draft h = cc
  collected-from (ok to) (err e) c r draft h = cc
  collected-from (ok to) (ok cs) (err e) r draft h = cc
  collected-from (ok to) (ok cs) (ok bs) (err e) draft h = cc
  collected-from (ok to) (ok cs) (ok bs) (ok rs) draft h =
      ap (λ (o : Outgoing). o.from.addr) (ok-injective h)

  draft_from_dto-from :
      (parse : Text → Result (List Address)) (draft : Outgoing)
      → draft_from_dto u parse d identity ≡ ok draft
      → identity.email ≡ draft.from.addr
  unfolding draft_from_dto
  draft_from_dto-from parse draft h =
      collected-from (parse_address_list u parse (codes "To") d.to)
        (parse_address_list u parse (codes "Cc") d.cc)
        (parse_address_list u parse (codes "Bcc") d.bcc)
        (parse_address_list u parse (codes "Reply-To") identity.reply_to) draft h

abbrev Prepared : Type 0
Prepared = Identity × Outgoing × List ℕ

abbrev steps :
    Result Identity → (Identity → Result Outgoing) → (Outgoing → Result (List ℕ)) → Result Prepared
steps i f b = do x ← i; y ← f x; z ← b y; ok (x, y, z)

-- The steps of a preparation that succeeded.
prepared-steps :
    (i : Result Identity) (f : Identity → Result Outgoing) (b : Outgoing → Result (List ℕ))
    (identity : Identity) (draft : Outgoing) (raw : List ℕ)
    → steps i f b ≡ ok (identity, draft, raw)
    → (f identity ≡ ok draft) × (b draft ≡ ok raw)
prepared-steps i f b identity draft raw h =
    let last : Identity → Outgoing → List ℕ → Result Prepared = λ x y z. ok (x, y, z) in
    let (x, _, h') = bind-ok i (λ x. f x >>= λ y. b y >>= last x y) (identity, draft, raw) h in
    let (y, drafted, h'') = bind-ok (f x) (λ y. b y >>= last x y) (identity, draft, raw) h' in
    let (z, built, done) = bind-ok (b y) (last x y) (identity, draft, raw) h'' in
    let e = ok-injective done in
    (
      ap f (sym (ap (λ t. t.0) e)) ∙ drafted ∙ ap ok (ap (λ t. t.1) e),
      ap b (sym (ap (λ t. t.1) e)) ∙ built ∙ ap ok (ap (λ t. t.2) e),
    )

is_empty-same : (s : Text) → Operations.is_empty s ≡ is_empty s
unfolding Operations.is_empty
is_empty-same [] = refl
is_empty-same (c ∷ s) = refl

is_nil-same : (rs : List Text) → Operations.is_nil rs ≡ no_recipients rs
unfolding Operations.is_nil
is_nil-same [] = refl
is_nil-same (r ∷ rs) = refl

queued_send-is_complete :
    (identity : Identity) (draft : Outgoing) (name : Text)
    → identity.email ≡ draft.from.addr
    → is_empty draft.from.addr ≡ false
    → no_recipients (recipients draft) ≡ false
    → is_empty name ≡ false
    → is_complete (queued_send identity draft name) ≡ true
unfolding is_complete queued_send acts_on_uids needs_folder Operations.is_no_kind Operations.is_send
queued_send-is_complete identity draft name same sender someone named =
    rw
      (
        is_empty-same name ∙ named,
        ap Operations.is_empty same ∙ is_empty-same draft.from.addr ∙ sender,
        is_nil-same (recipients draft) ∙ someone,
      )
      refl

-- What is prepared can be queued under any name that is not empty.
prepare-is_complete :
    (u : Unicode) (parse : Text → Result (List Address)) (assemble : Outgoing → Result (List ℕ))
    (d : Composed) (identities : List Identity) (identity : Identity) (draft : Outgoing)
    (raw : List ℕ) (name : Text)
    → prepare u parse assemble d identities ≡ ok (identity, draft, raw)
    → is_empty name ≡ false
    → is_complete (queued_send identity draft name) ≡ true
prepare-is_complete u parse assemble d identities identity draft raw name h named =
    let (drafted, built) =
      prepared-steps (identity_for d identities) (draft_from_dto u parse d) (build assemble)
        identity draft raw (unfold prepare in h) in
    let (sender, someone) = build-checked assemble draft raw built in
    queued_send-is_complete identity draft name
      (draft_from_dto-from u d identity parse draft drafted) sender someone named

get_unnamed : (files : Files) (raw : List ℕ) → get [] files ≢ ok raw
unfolding get resolve
get_unnamed files raw h = cc

put-named :
    (hex : Text) (raw : List ℕ) (files : Files) (name : Text)
    → any is_separator hex ≡ false
    → (put hex raw files).0 ≡ ok name
    → is_empty name ≡ false
put-named hex raw files [] plain h = absurd (get_unnamed _ raw (get-put hex raw files [] plain h).0)
put-named hex raw files (c ∷ name) plain h = refl

after_enqueue-is_ok :
    (name : Text) (count : ℕ) (files : Files) (m : Mailer) (r : Result (ℕ × Db))
    → is_ok (after_enqueue name count files m r).0 ≡ is_ok r
unfolding after_enqueue
after_enqueue-is_ok name count files m (err e) = refl
after_enqueue-is_ok name count files m (ok (id, db)) = refl

-- What can refuse a send: no outbox, its preparation, and the file system.
abbrev pub is_accepted : Text → Result Prepared → Option Files → Bool
is_accepted hex prepared none = false
is_accepted hex (err e) (some files) = false
is_accepted hex (ok (identity, draft, raw)) (some files) = is_ok (put hex raw files).0

module _ (now : ℕ) (identity : Identity) (draft : Outgoing) (m : Mailer) where
  after_put-is_ok :
      (r : Result Text) (files : Files)
      → ((name : Text) → r ≡ ok name → is_complete (queued_send identity draft name) ≡ true)
      → is_ok (after_put now identity draft m (r, files)).0 ≡ is_ok r
  unfolding after_put
  after_put-is_ok (err e) files complete = refl
  after_put-is_ok (ok name) files complete =
      let op = queued_send identity draft name in
      after_enqueue-is_ok name (length (recipients draft)) files m (enqueue_operation now op m.db)
      ∙ (enqueue_operation-queues now op m.db).0
      ∙ complete name refl

send_prepared-is_ok :
    (now : ℕ) (hex : Text) (files : Files) (m : Mailer) (prepared : Result Prepared)
    → any is_separator hex ≡ false
    → ((identity : Identity) (draft : Outgoing) (raw : List ℕ) (name : Text)
        → prepared ≡ ok (identity, draft, raw)
        → is_empty name ≡ false
        → is_complete (queued_send identity draft name) ≡ true)
    → is_ok (send_prepared now hex files m prepared).0 ≡ is_accepted hex prepared (some files)
unfolding send_prepared
send_prepared-is_ok now hex files m (err e) plain complete = refl
send_prepared-is_ok now hex files m (ok (identity, draft, raw)) plain complete =
    after_put-is_ok now identity draft m (put hex raw files).0 (put hex raw files).1
      (λ name h. complete identity draft raw name refl (put-named hex raw files name plain h))

send_into-is_ok :
    (u : Unicode) (parse : Text → Result (List Address)) (assemble : Outgoing → Result (List ℕ))
    (now : ℕ) (hex : Text) (d : Composed) (m : Mailer) (o : Option Files)
    → any is_separator hex ≡ false
    → is_ok (send_into u parse assemble now hex d m o).0
      ≡ is_accepted hex (prepare u parse assemble d m.identities) o
unfolding send_into
send_into-is_ok u parse assemble now hex d m none plain = refl
send_into-is_ok u parse assemble now hex d m (some files) plain =
    send_prepared-is_ok now hex files m (prepare u parse assemble d m.identities) plain
      (λ identity draft raw name h named.
        prepare-is_complete u parse assemble d m.identities identity draft raw name h named)

pub send_message-queues :
    (u : Unicode) (parse : Text → Result (List Address)) (assemble : Outgoing → Result (List ℕ))
    (now : ℕ) (hex : Text) (d : Composed) (m : Mailer)
    → any is_separator hex ≡ false
    → (is_ok (send_message u parse assemble now hex d m).0
        ≡ is_accepted hex (prepare u parse assemble d m.identities) m.outbox)
      × IsSent now
          (prepare u parse assemble d m.identities)
          m
          (send_message u parse assemble now hex d m)
unfolding send_message
send_message-queues u parse assemble now hex d m plain = (
  send_into-is_ok u parse assemble now hex d m m.outbox plain,
  send_message-IsSent u parse assemble now hex d m plain,
)
