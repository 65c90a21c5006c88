-- ===== src/Logging/Redact.antt =====
-- internal/logging/redact.go: the handler that strips mail content and credentials. The two regular
-- expressions are compiled by `regexp`, and their replacements are arguments; a value of log/slog is
-- a data type with the kinds that the handler tells apart.
pub mod Keys
pub mod Safe
use nexus_mail.Base.{ℕ, Bool, true, false, ◌||◌, List, [], ◌∷◌, ◌++◌, map, any, if◌then◌else◌, ◌==◌}
use nexus_mail.Base.Text.{Text, codes, Unicode, to_lower, contains_text, has_text}

abbrev pub redacted : Text
redacted = codes "[redacted]"

abbrev pub forbidden_substrings : List Text
forbidden_substrings =
    codes "subject"
    ∷ codes "snippet"
    ∷ codes "preview"
    ∷ codes "filename"
    ∷ codes "attachment"
    ∷ codes "email"
    ∷ codes "address"
    ∷ codes "addr"
    ∷ codes "sender"
    ∷ codes "recipient"
    ∷ codes "password"
    ∷ codes "passwd"
    ∷ codes "secret"
    ∷ codes "token"
    ∷ codes "credential"
    ∷ codes "authorization"
    ∷ codes "cookie"
    ∷ codes "session"
    ∷ codes "apikey"
    ∷ codes "api_key"
    ∷ []

abbrev pub forbidden_segments : List Text
forbidden_segments =
    codes "body"
    ∷ codes "html"
    ∷ codes "text"
    ∷ codes "from"
    ∷ codes "to"
    ∷ codes "cc"
    ∷ codes "bcc"
    ∷ codes "auth"
    ∷ codes "user"
    ∷ codes "username"
    ∷ []

-- What `ReplaceAllString` of the two expressions gives.
pub record Patterns : Type 0 where
  pub email_address : Text → Text
  pub bearer_token : Text → Text

-- A value of slog: a string, an error in a value of kind Any, a value of one of the scalar kinds
-- (numbers, Booleans and times), a value of kind Any that is no error, with the text that an output
-- prints of it, a group of attributes, or a LogValuer with what its method gives.
mutual
  pub data Value : Type 0 where
    str : Text → Value
    error : Text → Value
    scalar : ℕ → Value
    object : Text → Value
    group : Attrs → Value
    valuer : Value → Value

  pub data Attrs : Type 0 where
    none : Attrs
    attr : Text → Value → Attrs → Attrs

abbrev pub is_separator : ℕ → Bool
is_separator c = c == b'_' || (c == b'-' || (c == b'.' || c == b' '))

-- `strings.FieldsFunc`: the runs between the separators; `current` is the run so far.
abbrev end_field : Text → List Text → List Text
end_field [] rest = rest
end_field (c ∷ current) rest = (c ∷ current) ∷ rest

unfoldable pub fields_func : Text → Text → List Text
fields_func current [] = end_field current []
fields_func current (c ∷ s) = elim (is_separator c) [
  | true ↦ end_field current (fields_func [] s)
  | false ↦ fields_func (current ++ c ∷ []) s
]

unfoldable pub is_forbidden_key : Unicode → Text → Bool
unfolding contains_text fields_func has_text
is_forbidden_key u key =
    any (λ forbidden. contains_text forbidden (to_lower u key)) forbidden_substrings
    || any (has_text forbidden_segments) (fields_func [] (to_lower u key))

unfoldable pub scrub : Patterns → Text → Text
scrub p s = p.bearer_token (p.email_address s)

-- `Value.Resolve`.
unfoldable pub resolve : Value → Value
resolve (valuer v) = resolve v
resolve v = v

-- A value that is no group by itself, once it is resolved.
unfoldable pub redact_resolved : Patterns → Value → Value
unfolding scrub
redact_resolved p (error e) = str (scrub p e)
redact_resolved p (str s) = str (scrub p s)
redact_resolved p v = v

module _ (u : Unicode) (p : Patterns) where
  unfoldable mutual
    unfolding is_forbidden_key redact_resolved resolve

    -- The value of an attribute whose key is not forbidden.
    pub redact_value : Value → Value
    redact_value (group members) = group (redact_attrs members)
    redact_value (str s) = redact_resolved p (str s)
    redact_value (error e) = redact_resolved p (error e)
    redact_value (scalar n) = redact_resolved p (scalar n)
    redact_value (object t) = redact_resolved p (object t)
    redact_value (valuer v) = redact_resolved p (resolve v)

    -- Each attribute in turn, as in Handle, WithAttrs and the members of a group.
    pub redact_attrs : Attrs → Attrs
    redact_attrs none = none
    redact_attrs (attr key v rest) =
        attr key (if is_forbidden_key u key then str redacted else redact_value v)
          (redact_attrs rest)

pub record LogRecord : Type 0 where
  pub message : Text
  pub attrs : Attrs

-- The record that the inner handler gets.
unfoldable pub handle : Unicode → Patterns → LogRecord → LogRecord
unfolding scrub redact_attrs
handle u p rec = record { message = scrub p rec.message; attrs = redact_attrs u p rec.attrs }
