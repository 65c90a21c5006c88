-- ===== src/Sync/Body/Cached.antt =====
-- A body that was fetched is read without the network.
use nexus_mail.Base.{
  ℕ, Bool, true, false, ◌&&◌, Option, none, some, ◌≡◌, refl, sym, ap, subst, ◌∙◌, Bool-cases, inl,
  inr,
}
use nexus_mail.Model.{Folder, Message}
use nexus_mail.Model.Errors.{Result, ok, err}
use nexus_mail.Mime.References.{is_empty}
use nexus_mail.Store.{Db}
use nexus_mail.Store.Bodies.{get_message_body, set_message_body}
use nexus_mail.Store.Bodies.Reread.{IsStored, get-set_message_body}
use nexus_mail.Sync.Body.{Body, Mailbox, keep_body, cache_body, ensure_body, from_mailbox}

abbrev pub is_blank : Body → Bool
is_blank body = is_empty body.html && is_empty body.text

-- What the first call leaves.
abbrev pub IsCached : ℕ → Body → Db → Type 0
IsCached id body db = get_message_body id db ≡ (body.html, body.text)

ok-injective : {a b : Body} → ok a ≡ ok b → a ≡ b
ok-injective e = cc

module _ (mb : Mailbox) where
  keep_body-IsCached :
      (id : ℕ) (fetched body : Body) (w : mb.State) (db : Db) (o : Option Db)
      → IsStored id fetched.html fetched.text db o
      → (keep_body mb fetched db w o).0 ≡ ok body
      → IsCached id body (keep_body mb fetched db w o).1.0
  keep_body-IsCached id fetched body w db none s h = cc
  keep_body-IsCached id fetched body w db (some db') (_, stored, _) h =
      let same : fetched ≡ body = cc in stored ∙ ap (λ b. (b.html, b.text)) same

  cache_body-IsCached :
      (id : ℕ) (r : Result Body) (w : mb.State) (db : Db) (body : Body)
      → (cache_body mb id (r, w) db).0 ≡ ok body
      → IsCached id body (cache_body mb id (r, w) db).1.0
  cache_body-IsCached id (err e) w db body h = unfold cache_body in cc
  cache_body-IsCached id (ok fetched) w db body h =
      unfold cache_body in
      keep_body-IsCached id fetched body w db (set_message_body id fetched.html fetched.text db)
        (get-set_message_body id fetched.html fetched.text db) h

  ensure_body_cached :
      (account_id : ℕ) (folder : Folder) (msg : Message) (db : Db) (w : mb.State) (body : Body)
      → is_blank body ≡ false
      → IsCached msg.id body db
      → ensure_body mb account_id folder msg db w ≡ (ok body, (db, w))
  unfolding ensure_body
  ensure_body_cached account_id folder msg db w body h c = rw c (rw h refl)

  module _ (account_id : ℕ) (folder : Folder) (msg : Message) (db : Db) (w : mb.State) where
    abbrev held : Body
    held = record { html = (get_message_body msg.id db).0; text = (get_message_body msg.id db).1 }

    ensure_body-held :
        is_blank held ≡ false → ensure_body mb account_id folder msg db w ≡ (ok held, (db, w))
    unfolding ensure_body
    ensure_body-held h = rw h refl

    ensure_body_fetched :
        is_blank held ≡ true
        → ensure_body mb account_id folder msg db w
          ≡ cache_body mb msg.id (from_mailbox mb account_id folder (mb.fetch_body msg.uid) w) db
    unfolding ensure_body
    ensure_body_fetched h = rw h refl

    ensure_body-IsCached :
        (body : Body)
        → (ensure_body mb account_id folder msg db w).0 ≡ ok body
        → IsCached msg.id body (ensure_body mb account_id folder msg db w).1.0
    ensure_body-IsCached body h = elim (Bool-cases (is_blank held)) [
      | inl blank ↦
          let e = ensure_body_fetched blank in
          subst (λ r. IsCached msg.id body r.1.0) (sym e)
            (cache_body-IsCached msg.id
              (from_mailbox mb account_id folder (mb.fetch_body msg.uid) w).0
              (from_mailbox mb account_id folder (mb.fetch_body msg.uid) w).1 db body
              (ap (λ r. r.0) (sym e) ∙ h))
      | inr ink ↦
          let e = ensure_body-held ink in
          let same : held ≡ body = ok-injective (ap (λ r. r.0) (sym e) ∙ h) in
          subst (λ r. IsCached msg.id body r.1.0) (sym e) (ap (λ b. (b.html, b.text)) same)
    ]

-- A call that returns a body with a text in either form leaves it so that every later call, whatever
-- the connection has become, returns the same body and changes neither database nor connection.
pub ensure_body-again :
    (mb : Mailbox) (account_id : ℕ) (folder : Folder) (msg : Message) (db : Db) (w later : mb.State)
    (body : Body)
    → (ensure_body mb account_id folder msg db w).0 ≡ ok body
    → is_blank body ≡ false
    → (let db' = (ensure_body mb account_id folder msg db w).1.0 in
        ensure_body mb account_id folder msg db' later ≡ (ok body, (db', later)))
ensure_body-again mb account_id folder msg db w later body h ink =
    ensure_body_cached mb account_id folder msg _ later body ink
      (ensure_body-IsCached mb account_id folder msg db w body h)
