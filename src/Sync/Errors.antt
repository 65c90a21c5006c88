-- ===== src/Sync/Errors.antt =====
-- internal/sync/errors.go: how a failure is handled.
use nexus_mail.Base.{Bool, true, false, ◌||◌, List, [], ◌∷◌, if◌then◌else◌, any}
use nexus_mail.Base.Text.{Text, Unicode, codes, contains_text, to_lower}
use nexus_mail.Model.Errors.{Error}

pub data ErrorClass : Type 0 where
  transient auth protocol permanent : ErrorClass

abbrev pub auth_markers : List Text
auth_markers =
    codes "authentication"
    ∷ codes "xoauth2"
    ∷ codes "invalid_grant"
    ∷ codes "refresh token"
    ∷ codes "login failed"
    ∷ codes "authenticationfailed"
    ∷ codes "credentials"
    ∷ []

abbrev pub transient_markers : List Text
transient_markers =
    codes "connection reset"
    ∷ codes "broken pipe"
    ∷ codes "connection refused"
    ∷ codes "no such host"
    ∷ codes "timeout"
    ∷ codes "timed out"
    ∷ codes "eof"
    ∷ []

abbrev pub protocol_markers : List Text
protocol_markers =
    codes "fetch"
    ∷ codes "select"
    ∷ codes "list failed"
    ∷ codes "bad command"
    ∷ codes "parse error"
    ∷ codes "unexpected response"
    ∷ []

unfoldable pub contains_any : Text → List Text → Bool
unfolding contains_text
contains_any s markers = any (λ m. contains_text m s) markers

module _ (u : Unicode) where
  -- The error is not nil.
  unfoldable pub classify : Error → ErrorClass
  unfolding contains_any
  classify e =
      if e.is_canceled || e.is_deadline
      then transient
      else if e.is_net
      then transient
      else if contains_any (to_lower u e.message) auth_markers
      then auth
      else if contains_any (to_lower u e.message) transient_markers
      then transient
      else if contains_any (to_lower u e.message) protocol_markers
      then protocol
      else permanent

-- The classes that an operation is retried for.
unfoldable pub is_retried : ErrorClass → Bool
is_retried transient = true
is_retried auth = true
is_retried protocol = false
is_retried permanent = false
