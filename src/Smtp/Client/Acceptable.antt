-- ===== src/Smtp/Client/Acceptable.antt =====
-- What the submission client refuses by itself, and how the queue takes a refusal
-- (internal/smtpx/client.go).
use nexus_mail.Base.{
  ℕ, ◌≤◌, any, Bool, true, false, not, ◌&&◌, ◌||◌, List, [], ◌∷◌, Option, none, some, length, ltb,
  leb, ◌==◌, ◌≡◌, refl, ◌∙◌, ap, arith,
}
use nexus_mail.Base.Bytes.{byte_len, width, width-pos}
use nexus_mail.Base.Text.{Text, codes}
use nexus_mail.Model.Errors.{Error, Result, ok, err, is_ok, wrap}
use nexus_mail.Smtp.{Envelope, Capabilities}
use nexus_mail.Store.Operations.{is_nil, is_empty}
use nexus_mail.Smtp.Client.{
  Wire, text_is_ascii, all_ascii, bytes_are_ascii, envelope_is_ascii, refused, check_acceptable,
  check_envelope, send, step, send_recipients, after_write, send_data, transact, after_context,
  after_checks, is_permanent,
}

bytes_are_ascii-any : (raw : List ℕ) → bytes_are_ascii raw ≡ not (any (λ c. ltb 127 c) raw)
unfolding bytes_are_ascii
bytes_are_ascii-any [] = refl
bytes_are_ascii-any (c ∷ raw) = ground (arith, bytes_are_ascii-any raw)

length-le-byte_len : (t : Text) → length t ≤ byte_len t
unfolding byte_len
length-le-byte_len [] = omega arith
length-le-byte_len (c ∷ t) = omega (arith, width-pos c, length-le-byte_len t)

-- A text with a letter of more than one byte.
abbrev pub is_wide : Text → Bool
is_wide = any (λ c. ltb 1 (width c))

text_is_ascii-is_wide : (t : Text) → text_is_ascii t ≡ not (is_wide t)
unfolding text_is_ascii byte_len
text_is_ascii-is_wide [] = refl
text_is_ascii-is_wide (c ∷ t) =
    ground (arith, width-pos c, length-le-byte_len t, text_is_ascii-is_wide t)

all_ascii-is_wide : (ts : List Text) → all_ascii ts ≡ not (any is_wide ts)
unfolding all_ascii
all_ascii-is_wide [] = refl
all_ascii-is_wide (t ∷ ts) = ground (arith, text_is_ascii-is_wide t, all_ascii-is_wide ts)

envelope_is_ascii-is_wide :
    (env : Envelope) → envelope_is_ascii env ≡ not (any is_wide (env.from ∷ env.to))
unfolding envelope_is_ascii
envelope_is_ascii-is_wide env =
    ground (arith, text_is_ascii-is_wide env.from, all_ascii-is_wide env.to)

-- What the server is known to take: a message that is not empty and within its size, with bytes
-- beyond ASCII only under 8BITMIME, and letters beyond ASCII in an address only under SMTPUTF8.
unfoldable pub is_acceptable : Capabilities → Envelope → List ℕ → Bool
is_acceptable caps env raw =
    ltb 0 (length raw)
    && ((caps.max_message_size == 0 || leb (length raw) caps.max_message_size)
        && ((caps.eight_bit_mime || not (any (λ c. ltb 127 c) raw))
            && (caps.smtp_utf8 || not (any is_wide (env.from ∷ env.to)))))

check_acceptable-is_ok :
    (caps : Capabilities) (env : Envelope) (raw : List ℕ)
    → is_ok (check_acceptable caps env raw) ≡ is_acceptable caps env raw
unfolding check_acceptable is_acceptable is_nil
check_acceptable-is_ok caps env [] = refl
check_acceptable-is_ok caps env (c ∷ raw) =
    ground (arith, bytes_are_ascii-any (c ∷ raw), envelope_is_ascii-is_wide env)

abbrev pub error_is_permanent {κ} : {T : Type κ} → Result T → Bool
error_is_permanent (ok value) = false
error_is_permanent (err e) = is_permanent e

check_acceptable-is_permanent :
    (caps : Capabilities) (env : Envelope) (raw : List ℕ)
    → error_is_permanent (check_acceptable caps env raw) ≡ not (is_acceptable caps env raw)
unfolding check_acceptable is_acceptable is_nil is_permanent refused
check_acceptable-is_permanent caps env [] = refl
check_acceptable-is_permanent caps env (c ∷ raw) =
    ground (arith, bytes_are_ascii-any (c ∷ raw), envelope_is_ascii-is_wide env)

-- The envelope names a return path and a recipient.
abbrev pub is_addressed : Envelope → Bool
is_addressed env = not (is_empty env.from) && not (is_nil env.to)

check_envelope-acceptable :
    (caps : Capabilities) (env : Envelope) (raw : List ℕ)
    → is_addressed env ≡ true
    → check_envelope caps env raw ≡ check_acceptable caps env raw
unfolding check_envelope
check_envelope-acceptable caps env raw h = ground (arith, h)

-- Every error that the server or the connection answers is one that may pass.
pub record Temporary (wire : Wire) : Type 0 where
  pub of_context : (s : wire.State) (e : Error) → wire.ctx_err s ≡ some e → is_permanent e ≡ false
  pub of_mail :
      (from : Text) (size : ℕ) (a b : Bool) (s : wire.State)
      → error_is_permanent (wire.mail from size a b s).0 ≡ false
  pub of_rcpt : (to : Text) (s : wire.State) → error_is_permanent (wire.rcpt to s).0 ≡ false
  pub of_data : (s : wire.State) → error_is_permanent (wire.data_start s).0 ≡ false
  pub of_write : (raw : List ℕ) (s : wire.State) → error_is_permanent (wire.write raw s).0 ≡ false
  pub of_finish : (s : wire.State) → error_is_permanent (wire.finish s).0 ≡ false

wrap-is_permanent : (said : Text) (e : Error) → is_permanent (wrap said e) ≡ is_permanent e
unfolding is_permanent
wrap-is_permanent said e = refl

module _ (wire : Wire) (net : Temporary wire) where
  step-temporary :
      (said : Text) (r : Result (Unit {0}) × wire.State)
      (next : wire.State → Result (Unit {0}) × wire.State)
      → error_is_permanent r.0 ≡ false
      → ((s : wire.State) → error_is_permanent (next s).0 ≡ false)
      → error_is_permanent (step wire said r next).0 ≡ false
  unfolding step
  step-temporary said (ok t, s) next h k = k s
  step-temporary said (err e, s) next h k = wrap-is_permanent said e ∙ h

  recipients-temporary :
      (to : List Text) (next : wire.State → Result (Unit {0}) × wire.State) (s : wire.State)
      → ((s : wire.State) → error_is_permanent (next s).0 ≡ false)
      → error_is_permanent (send_recipients wire to next s).0 ≡ false
  unfolding send_recipients
  recipients-temporary [] next s k = k s
  recipients-temporary (to ∷ rest) next s k =
      step-temporary (codes "smtpx: the server refused a recipient: ") (wire.rcpt to s)
        (send_recipients wire rest next) (net.of_rcpt to s)
        (λ s'. recipients-temporary rest next s' k)

  written-temporary :
      (raw : List ℕ) (s : wire.State) (r : Result (Unit {0}))
      → error_is_permanent r ≡ false
      → error_is_permanent (after_write wire raw s r).0 ≡ false
  unfolding after_write
  written-temporary raw s (ok t) h =
      step-temporary (codes "smtpx: the server did not accept the message: ")
        (wire.finish (wire.write raw s).1) (λ s2. (ok tt, s2)) (net.of_finish (wire.write raw s).1)
        (λ s2. refl)
  written-temporary raw s (err e) h = wrap-is_permanent (codes "smtpx: sending the message: ") e ∙ h

  data-temporary :
      (raw : List ℕ) (s : wire.State) → error_is_permanent (send_data wire raw s).0 ≡ false
  unfolding send_data
  data-temporary raw s =
      step-temporary (codes "smtpx: the server refused to take the message: ") (wire.data_start s)
        (λ s1. after_write wire raw s1 (wire.write raw s1).0) (net.of_data s)
        (λ s1. written-temporary raw s1 (wire.write raw s1).0 (net.of_write raw s1))

  transact-temporary :
      (caps : Capabilities) (env : Envelope) (raw : List ℕ) (s : wire.State)
      → error_is_permanent (transact wire caps env raw s).0 ≡ false
  unfolding transact
  transact-temporary caps env raw s =
      step-temporary (codes "smtpx: the server refused the sender: ")
        (wire.mail env.from (length raw) caps.eight_bit_mime
          (caps.smtp_utf8 && not (envelope_is_ascii env)) s)
        (send_recipients wire env.to (send_data wire raw)) (net.of_mail _ _ _ _ s)
        (λ s'. recipients-temporary env.to (send_data wire raw) s' (data-temporary raw))

  after_context-temporary :
      (caps : Capabilities) (env : Envelope) (raw : List ℕ) (s : wire.State) (o : Option Error)
      → wire.ctx_err s ≡ o
      → error_is_permanent (after_context wire caps env raw s o).0 ≡ false
  unfolding after_context
  after_context-temporary caps env raw s none h = transact-temporary caps env raw s
  after_context-temporary caps env raw s (some e) h = net.of_context s e h

  after_checks-is_permanent :
      (caps : Capabilities) (env : Envelope) (raw : List ℕ) (s : wire.State) (r : Result (Unit {0}))
      → (error_is_permanent (after_checks wire caps env raw s r).0 ≡ error_is_permanent r)
        × (is_ok r ≡ false → (after_checks wire caps env raw s r).1 ≡ s)
  unfolding after_checks
  after_checks-is_permanent caps env raw s (err e) = (refl, λ h. refl)
  after_checks-is_permanent caps env raw s (ok t) =
      (after_context-temporary caps env raw s (wire.ctx_err s) refl, λ h. ground (arith, h))

-- An addressed message that is submitted over a connection whose errors may all pass: the error of
-- the submission, if there is one, is permanent exactly if the message is one that the server is
-- known not to take; and then no command is sent at all.
pub send-is_permanent :
    (wire : Wire) (caps : Capabilities) (env : Envelope) (raw : List ℕ) (s : wire.State)
    → Temporary wire
    → is_addressed env ≡ true
    → (error_is_permanent (send wire caps env raw s).0 ≡ not (is_acceptable caps env raw))
      × (is_acceptable caps env raw ≡ false → (send wire caps env raw s).1 ≡ s)
unfolding send
send-is_permanent wire caps env raw s net addressed =
    let checked = check_envelope-acceptable caps env raw addressed in
    let r = check_envelope caps env raw in
    let after = after_checks-is_permanent wire net caps env raw s r in
    (
      after.0 ∙ ap error_is_permanent checked ∙ check_acceptable-is_permanent caps env raw,
      λ h. after.1 (ap is_ok checked ∙ check_acceptable-is_ok caps env raw ∙ h),
    )
