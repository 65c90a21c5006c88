-- ===== src/Smtp.antt =====
-- internal/smtpx: submitting one message. This file has the types of backend.go.
pub mod Client
use nexus_mail.Base.{ℕ, Bool, List}
use nexus_mail.Base.Text.{Text}

pub record Envelope : Type 0 where
  pub from : Text
  pub to : List Text

-- What the server advertised. A size of zero is unknown.
pub record Capabilities : Type 0 where
  pub start_tls : Bool
  pub eight_bit_mime : Bool
  pub smtp_utf8 : Bool
  pub max_message_size : ℕ
  pub auth : List Text
