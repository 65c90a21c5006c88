-- ===== src/Model/Flags.antt =====
-- Flags and attributes of internal/model/model.go, compared without regard to case, and the
-- retention policy.
use nexus_mail.Base.{Bool, ◌||◌, List, ltb, any}
use nexus_mail.Base.Text.{Text, Unicode, codes, equal_fold}
use nexus_mail.Model.{Folder, Message, RetentionPolicy}

abbrev pub flag_seen : Text
flag_seen = codes "\\Seen"

abbrev pub flag_flagged : Text
flag_flagged = codes "\\Flagged"

module _ (u : Unicode) where
  -- Some entry of the list equals `f` up to case.
  unfoldable pub has_fold : List Text → Text → Bool
  has_fold list f = any (λ got. equal_fold u got f) list

  unfoldable pub has_flag : Message → Text → Bool
  unfolding has_fold
  has_flag m f = has_fold m.flags f

  unfoldable pub has_attribute : Folder → Text → Bool
  unfolding has_fold
  has_attribute f attr = has_fold f.attributes attr

  unfoldable pub is_inbox : Folder → Bool
  is_inbox f = equal_fold u f.path (codes "INBOX")

unfoldable pub enabled : RetentionPolicy → Bool
enabled p = ltb 0 p.max_age || ltb 0 p.max_messages
