-- ===== src/Smtp/Client.antt =====
-- internal/smtpx/client.go: the submission of a message over an open connection. The connection
-- itself is go-smtp's and is a parameter, `Wire`.
pub mod Acceptable
use nexus_mail.Base.{
  ℕ, Bool, true, false, not, ◌&&◌, List, [], ◌∷◌, Option, none, some, length, ltb, ◌==◌,
  if◌then◌else◌,
}
use nexus_mail.Base.Bytes.{byte_len}
use nexus_mail.Base.Text.{Text, codes}
use nexus_mail.Model.Errors.{Error, Result, ok, err, new_error, wrap, ◌>>◌}
use nexus_mail.Smtp.{Envelope, Capabilities}
use nexus_mail.Store.Operations.{is_empty, is_nil, reject_if}

-- `*smtp.Client`: the commands of a transaction, in a state of the connection and the context.
pub record Wire : Type 1 where
  pub State : Type 0
  pub ctx_err : State → Option Error
  -- The sender, and the options SIZE, 8BITMIME and SMTPUTF8.
  pub mail : Text → ℕ → Bool → Bool → State → Result (Unit {0}) × State
  pub rcpt : Text → State → Result (Unit {0}) × State
  pub data_start : State → Result (Unit {0}) × State
  pub write : List ℕ → State → Result (Unit {0}) × State
  pub finish : State → Result (Unit {0}) × State

-- `utf8.RuneCountInString(s) == len(s)`: every code point takes one byte. A byte that is no UTF-8
-- counts as one code point, and so as ASCII.
unfoldable pub text_is_ascii : Text → Bool
unfolding byte_len
text_is_ascii t = length t == byte_len t

unfoldable pub all_ascii : List Text → Bool
unfolding text_is_ascii
all_ascii [] = true
all_ascii (t ∷ ts) = text_is_ascii t && all_ascii ts

unfoldable pub envelope_is_ascii : Envelope → Bool
unfolding text_is_ascii all_ascii
envelope_is_ascii e = text_is_ascii e.from && all_ascii e.to

unfoldable pub bytes_are_ascii : List ℕ → Bool
bytes_are_ascii [] = true
bytes_are_ascii (c ∷ cs) = not (ltb 127 c) && bytes_are_ascii cs

-- `ErrRefused`, with what is said behind it.
unfoldable pub refused : Text → Error
refused why =
    record (wrap (codes "smtpx: this message cannot be submitted as it is") (new_error why)) {
      is_refused = true;
    }

abbrev refuse_if : Bool → Text → Result (Unit {0})
refuse_if true why = err (refused why)
refuse_if false why = ok tt

-- What the server would refuse after the upload is refused before it.
unfoldable pub check_acceptable : Capabilities → Envelope → List ℕ → Result (Unit {0})
unfolding is_nil bytes_are_ascii envelope_is_ascii refused
check_acceptable caps env raw = do
  refuse_if (is_nil raw) (codes ": it is empty")
  refuse_if (ltb 0 caps.max_message_size && ltb caps.max_message_size (length raw))
      (codes ": it is over the size that the server accepts")
  refuse_if (not caps.eight_bit_mime && not (bytes_are_ascii raw))
      (codes ": it has 8-bit content and the server does not offer 8BITMIME")
  refuse_if (not caps.smtp_utf8 && not (envelope_is_ascii env))
      (codes ": an address on it is not ASCII and the server does not offer SMTPUTF8")

-- The checks before the transaction, the context's included.
unfoldable pub check_envelope : Capabilities → Envelope → List ℕ → Result (Unit {0})
unfolding is_empty is_nil check_acceptable
check_envelope caps env raw = do
  reject_if (is_empty env.from) (codes "smtpx: a message needs a return path")
  reject_if (is_nil env.to) (codes "smtpx: a message needs at least one recipient")
  check_acceptable caps env raw

module _ (wire : Wire) where
  -- The next step if this one succeeded, and otherwise its error behind a message.
  unfoldable pub step :
      Text
      → Result (Unit {0}) × wire.State
      → (wire.State → Result (Unit {0}) × wire.State)
      → Result (Unit {0}) × wire.State
  step said (ok t, s) next = next s
  step said (err e, s) next = (err (wrap said e), s)

  unfoldable pub send_recipients :
      List Text
      → (wire.State → Result (Unit {0}) × wire.State)
      → wire.State
      → Result (Unit {0}) × wire.State
  unfolding step
  send_recipients [] next s = next s
  send_recipients (to ∷ rest) next s =
      step (codes "smtpx: the server refused a recipient: ") (wire.rcpt to s)
        (send_recipients rest next)

  -- What follows the answer to the write: a write that failed closes the writer and drops what the
  -- close says, and otherwise the close is the send.
  unfoldable pub after_write :
      List ℕ → wire.State → Result (Unit {0}) → Result (Unit {0}) × wire.State
  unfolding step
  after_write raw s (err e) =
      (err (wrap (codes "smtpx: sending the message: ") e), (wire.finish (wire.write raw s).1).1)
  after_write raw s (ok t) =
      step (codes "smtpx: the server did not accept the message: ")
        (wire.finish (wire.write raw s).1) (λ s2. (ok tt, s2))

  unfoldable pub send_data : List ℕ → wire.State → Result (Unit {0}) × wire.State
  unfolding step after_write
  send_data raw s =
      step (codes "smtpx: the server refused to take the message: ") (wire.data_start s)
        λ s1. after_write raw s1 (wire.write raw s1).0

  unfoldable pub transact :
      Capabilities → Envelope → List ℕ → wire.State → Result (Unit {0}) × wire.State
  unfolding step send_recipients send_data envelope_is_ascii
  transact caps env raw s =
      step (codes "smtpx: the server refused the sender: ")
        (wire.mail env.from (length raw) caps.eight_bit_mime
          (caps.smtp_utf8 && not (envelope_is_ascii env)) s)
        (send_recipients env.to (send_data raw))

  -- `if err := ctx.Err(); err != nil { return err }`
  unfoldable pub after_context :
      Capabilities → Envelope → List ℕ → wire.State → Option Error → Result (Unit {0}) × wire.State
  unfolding transact
  after_context caps env raw s (some e) = (err e, s)
  after_context caps env raw s none = transact caps env raw s

  unfoldable pub after_checks :
      Capabilities
      → Envelope
      → List ℕ
      → wire.State
      → Result (Unit {0})
      → Result (Unit {0}) × wire.State
  unfolding after_context
  after_checks caps env raw s (err e) = (err e, s)
  after_checks caps env raw s (ok t) = after_context caps env raw s (wire.ctx_err s)

  unfoldable pub send :
      Capabilities → Envelope → List ℕ → wire.State → Result (Unit {0}) × wire.State
  unfolding check_envelope after_checks
  send caps env raw s = after_checks caps env raw s (check_envelope caps env raw)

-- Whether trying again could never help. Anything unrecognised is worth another try.
unfoldable pub is_permanent : Error → Bool
is_permanent e =
    if e.is_refused
    then true
    else elim e.smtp_temporary [ none ↦ false | some temporary ↦ not temporary ]
