-- ===== src/Mime/References.antt =====
-- internal/mailmime/reply.go: the References header of a reply.
pub mod Capped
use nexus_mail.Base.{
  ℕ, ◌-◌, Bool, true, false, List, [], ◌∷◌, ◌++◌, length, drop, leb, if◌then◌else◌,
}
use nexus_mail.Base.Text.{Text}
use nexus_mail.Base.Distinct.{first_by_key}

abbrev pub max_references : ℕ
max_references = 20

-- `s == ""`.
abbrev pub is_empty : Text → Bool
is_empty [] = true
is_empty (c ∷ s) = false

-- The first occurrence of each reference that is not empty.
unfoldable pub unique_references : List Text → List Text
unfolding first_by_key
unique_references refs = first_by_key (λ r. r) is_empty [] refs

-- The root and the most recent ones.
unfoldable pub cap_references : List Text → List Text
cap_references [] = []
cap_references (root ∷ rest) =
    if leb (length (root ∷ rest)) max_references
    then root ∷ rest
    else root ∷ drop (length (root ∷ rest) - (max_references - 1)) (root ∷ rest)

unfoldable pub reply_references : List Text → Text → List Text
unfolding unique_references cap_references
reply_references parent_references parent_message_id =
    cap_references (unique_references (parent_references ++ parent_message_id ∷ []))
