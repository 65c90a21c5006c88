-- ===== src/Logging/Redact/Safe.antt =====
-- What may reach the log.
use nexus_mail.Base.{Bool, true, false, ◌≡◌, refl, ◌⊎◌, inl, inr, Bool-cases, if◌then◌else◌}
use nexus_mail.Base.Text.{Text, Unicode}
use nexus_mail.Logging.Redact.{
  redacted, Patterns, Value, str, error, scalar, object, group, valuer, Attrs, none, attr,
  is_forbidden_key, scrub, resolve, redact_resolved, redact_value, redact_attrs, LogRecord, handle,
}
use nexus_mail.Logging.Redact.Keys.{IsSensitive, is_forbidden_key-IsSensitive}

apart : {b : Bool} → b ≡ true → b ≡ false → ⊥
apart h k = cc

-- No value is of kind Any but an error, and no LogValuer stands for a group.
abbrev mutual
  pub IsPlain : Value → Type 0
  IsPlain (str s) = Unit
  IsPlain (error e) = Unit
  IsPlain (scalar n) = Unit
  IsPlain (object t) = ⊥
  IsPlain (group members) = ArePlain members
  IsPlain (valuer v) = IsLeaf v

  pub IsLeaf : Value → Type 0
  IsLeaf (str s) = Unit
  IsLeaf (error e) = Unit
  IsLeaf (scalar n) = Unit
  IsLeaf (object t) = ⊥
  IsLeaf (group members) = ⊥
  IsLeaf (valuer v) = IsLeaf v

  pub ArePlain : Attrs → Type 0
  ArePlain none = Unit
  ArePlain (attr key v rest) = IsPlain v × ArePlain rest

-- What the two expressions do, `shows_address` and `shows_token` being the tests whether a text shows
-- an address or a bearer token: each replacement takes out what its expression finds, the second
-- puts no address in, and the placeholder shows neither.
pub record Recognises (p : Patterns) (shows_address shows_token : Text → Bool) : Type 0 where
  pub address_replaced : (s : Text) → shows_address (p.email_address s) ≡ false
  pub token_replaced : (s : Text) → shows_token (p.bearer_token s) ≡ false
  pub address_stays_out :
      (s : Text) → shows_address s ≡ false → shows_address (p.bearer_token s) ≡ false
  pub no_address : shows_address redacted ≡ false
  pub no_token : shows_token redacted ≡ false

-- A text shows neither an address nor a bearer token.
abbrev pub IsClean : (Text → Bool) → (Text → Bool) → Text → Type 0
IsClean shows_address shows_token s = (shows_address s ≡ false) × (shows_token s ≡ false)

module _ (u : Unicode) (shows_address shows_token : Text → Bool) where
  -- Attributes that are safe to export, at any depth: no value stands under a sensitive key, every
  -- text is clean, and no error, LogValuer or other value of kind Any is left that could write
  -- anything else.
  abbrev mutual
    pub IsSafe : Value → Type 0
    IsSafe (str s) = IsClean shows_address shows_token s
    IsSafe (error e) = ⊥
    IsSafe (scalar n) = Unit
    IsSafe (object t) = ⊥
    IsSafe (group members) = AreSafe members
    IsSafe (valuer v) = ⊥

    pub AreSafe : Attrs → Type 0
    AreSafe none = Unit
    AreSafe (attr key v rest) =
        ((¬ IsSensitive u key) ⊎ (v ≡ str redacted)) × IsSafe v × AreSafe rest

module _ (u : Unicode) (p : Patterns) (shows_address shows_token : Text → Bool)
    (found : Recognises p shows_address shows_token) where
  scrub-IsClean : (s : Text) → IsClean shows_address shows_token (scrub p s)
  unfolding scrub
  scrub-IsClean s = (
    found.address_stays_out (p.email_address s) (found.address_replaced s),
    found.token_replaced (p.email_address s),
  )

  leaf-IsSafe :
      (v : Value) → IsLeaf v → IsSafe u shows_address shows_token (redact_resolved p (resolve v))
  unfolding redact_resolved resolve
  leaf-IsSafe (str s) h = scrub-IsClean s
  leaf-IsSafe (error e) h = scrub-IsClean e
  leaf-IsSafe (scalar n) h = tt
  leaf-IsSafe (object t) h = elim h [ ]
  leaf-IsSafe (group members) h = elim h [ ]
  leaf-IsSafe (valuer v) h = leaf-IsSafe v h

  attr-IsSafe :
      (key : Text) (v : Value) (rest : Attrs)
      → IsSafe u shows_address shows_token v
      → AreSafe u shows_address shows_token rest
      → AreSafe u shows_address shows_token
          (attr key (if is_forbidden_key u key then str redacted else v) rest)
  attr-IsSafe key v rest h k = elim (Bool-cases (is_forbidden_key u key)) [
    | inl forbidden ↦ rw forbidden (inr refl, (found.no_address, found.no_token), k)
    | inr allowed ↦ rw allowed (
      inl (λ sensitive. absurd (apart (is_forbidden_key-IsSensitive u key sensitive) allowed)),
      h,
      k,
    )
  ]

  mutual
    unfolding redact_value redact_attrs redact_resolved

    redact_value-IsSafe :
        (v : Value) → IsPlain v → IsSafe u shows_address shows_token (redact_value u p v)
    redact_value-IsSafe (str s) h = scrub-IsClean s
    redact_value-IsSafe (error e) h = scrub-IsClean e
    redact_value-IsSafe (scalar n) h = tt
    redact_value-IsSafe (object t) h = elim h [ ]
    redact_value-IsSafe (group members) h = redact_attrs-AreSafe members h
    redact_value-IsSafe (valuer v) h = leaf-IsSafe v h

    redact_attrs-AreSafe :
        (attrs : Attrs)
        → ArePlain attrs
        → AreSafe u shows_address shows_token (redact_attrs u p attrs)
    redact_attrs-AreSafe none h = tt
    redact_attrs-AreSafe (attr key v rest) (h, k) =
        attr-IsSafe key (redact_value u p v) (redact_attrs u p rest) (redact_value-IsSafe v h)
          (redact_attrs-AreSafe rest k)

pub handle-AreSafe :
    (u : Unicode) (p : Patterns) (shows_address shows_token : Text → Bool) (rec : LogRecord)
    → Recognises p shows_address shows_token
    → ArePlain rec.attrs
    → IsClean shows_address shows_token (handle u p rec).message
      × AreSafe u shows_address shows_token (handle u p rec).attrs
unfolding handle
handle-AreSafe u p shows_address shows_token rec found h = (
  scrub-IsClean u p shows_address shows_token found rec.message,
  redact_attrs-AreSafe u p shows_address shows_token found rec.attrs h,
)

module _ (u : Unicode) (p : Patterns) where
  -- The group that a LogValuer stands for reaches the inner handler as it is, under every key that is
  -- not forbidden and whatever its members are called.
  pub redact_attrs_valuer :
      (key : Text) (members rest : Attrs)
      → is_forbidden_key u key ≡ false
      → redact_attrs u p (attr key (valuer (group members)) rest)
        ≡ attr key (group members) (redact_attrs u p rest)
  unfolding redact_attrs redact_value redact_resolved resolve
  redact_attrs_valuer key members rest h = rw h refl

  -- A value of kind Any that is no error reaches the inner handler as it is, too.
  pub redact_attrs_object :
      (key text : Text) (rest : Attrs)
      → is_forbidden_key u key ≡ false
      → redact_attrs u p (attr key (object text) rest)
        ≡ attr key (object text) (redact_attrs u p rest)
  unfolding redact_attrs redact_value redact_resolved
  redact_attrs_object key text rest h = rw h refl
