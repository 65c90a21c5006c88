-- ===== src/Model/Errors.antt =====
-- Go errors as the program looks at them: the message, and what `errors.Is` and `errors.As` find in
-- the chain; and the result of a call that may fail.
use nexus_mail.Base.{Bool, true, false, ◌++◌, Option, none}
use nexus_mail.Base.Text.{Text}

pub record Error : Type 0 where
  pub message : Text
  -- `errors.Is(err, context.Canceled)`, and the same for `context.DeadlineExceeded`.
  pub is_canceled : Bool
  pub is_deadline : Bool
  -- `errors.As` with a `net.Error`.
  pub is_net : Bool
  -- `errors.Is(err, smtpx.ErrRefused)`.
  pub is_refused : Bool
  -- `errors.As` with a `*smtp.SMTPError`: what its method `Temporary` says.
  pub smtp_temporary : Option Bool
  -- `errors.Is(err, sync.ErrNoInbox)`.
  pub is_no_inbox : Bool

-- `errors.New`, and `fmt.Errorf` with no `%w`.
abbrev pub new_error : Text → Error
new_error m = record {
  message = m;
  is_canceled = false;
  is_deadline = false;
  is_net = false;
  is_refused = false;
  smtp_temporary = none;
  is_no_inbox = false;
}

-- `fmt.Errorf("…: %w", err)`: a longer message, the same chain.
abbrev pub wrap : Text → Error → Error
wrap m e = record e { message = m ++ e.message }

-- What a call returns: its value, or the error that it ended with.
pub data Result {κ} (T : Type κ) : Type κ where
  err : Error → Result T
  ok : T → Result T

infixl 5 ◌>>=◌ ◌>>◌
-- `if err != nil { return err }` between two calls.
abbrev pub ◌>>=◌ {κ η} : {T : Type κ} {V : Type η} → Result T → (T → Result V) → Result V
err failure >>= next = err failure
ok value >>= next = next value

abbrev pub ◌>>◌ {η} : {V : Type η} → Result (Unit {0}) → Result V → Result V
first >> next = first >>= λ nothing. next

abbrev pub is_ok {κ} : {T : Type κ} → Result T → Bool
is_ok (ok value) = true
is_ok (err failure) = false
