-- ===== src/Model/Roles.antt =====
-- What a mailbox is for: `Role` and `SortFolders` of internal/model/model.go.
use nexus_mail.Base.{ℕ, Bool, true, List, [], ◌∷◌, Option, none, some, leb, if◌then◌else◌}
use nexus_mail.Base.Text.{Text, Unicode, codes, text_eq, has_prefix, to_lower}
use nexus_mail.Base.Sorting.{sort}
use nexus_mail.Model.{Folder}
use nexus_mail.Model.Flags.{is_inbox}

pub data FolderRole : Type 0 where
  plain inbox drafts sent archive junk trash : FolderRole

unfoldable pub is_trash : FolderRole → Bool
is_trash trash = true
is_trash _ = Bool.false

unfoldable pub is_sent : FolderRole → Bool
is_sent sent = true
is_sent _ = Bool.false

abbrev pub special_use_roles : List (Text × FolderRole)
special_use_roles =
    (codes "\\drafts", drafts)
    ∷ (codes "\\sent", sent)
    ∷ (codes "\\archive", archive)
    ∷ (codes "\\junk", junk)
    ∷ (codes "\\trash", trash)
    ∷ []

abbrev pub role_names : List (Text × FolderRole)
role_names =
    (codes "sent", sent)
    ∷ (codes "gönder", sent)
    ∷ (codes "gonder", sent)
    ∷ (codes "draft", drafts)
    ∷ (codes "taslak", drafts)
    ∷ (codes "trash", trash)
    ∷ (codes "deleted", trash)
    ∷ (codes "çöp", trash)
    ∷ (codes "cop", trash)
    ∷ (codes "silin", trash)
    ∷ (codes "archive", archive)
    ∷ (codes "arşiv", archive)
    ∷ (codes "arsiv", archive)
    ∷ (codes "junk", junk)
    ∷ (codes "spam", junk)
    ∷ (codes "gereksiz", junk)
    ∷ (codes "istenmey", junk)
    ∷ []

-- A lookup in a map with string keys.
unfoldable pub lookup_role : Text → List (Text × FolderRole) → Option FolderRole
lookup_role k [] = none
lookup_role k ((j, r) ∷ rest) = if text_eq j k then some r else lookup_role k rest

-- The first candidate whose prefix the name has.
unfoldable pub role_by_prefix : Text → List (Text × FolderRole) → FolderRole
role_by_prefix name [] = plain
role_by_prefix name ((p, r) ∷ rest) = if has_prefix p name then r else role_by_prefix name rest

module _ (u : Unicode) where
  -- The first attribute that names a role.
  unfoldable pub role_by_attribute : List Text → Option FolderRole
  unfolding lookup_role
  role_by_attribute [] = none
  role_by_attribute (a ∷ rest) = elim (lookup_role (to_lower u a) special_use_roles) [
    | some r ↦ some r
    | none ↦ role_by_attribute rest
  ]

  unfoldable pub role : Folder → FolderRole
  unfolding role_by_attribute role_by_prefix
  role f = if is_inbox u f then inbox else elim (role_by_attribute f.attributes) [
    | some r ↦ r
    | none ↦ role_by_prefix (to_lower u f.name) role_names
  ]

-- The order that roles are shown in; mailboxes with no role come last.
unfoldable pub role_rank : FolderRole → ℕ
role_rank inbox = 0
role_rank drafts = 1
role_rank sent = 2
role_rank archive = 3
role_rank junk = 4
role_rank trash = 5
role_rank plain = 6

module _ (u : Unicode) where
  unfoldable pub folder_rank : Folder → ℕ
  unfolding role_rank
  folder_rank f = role_rank (role u f)

  unfoldable pub sort_folders : List Folder → List Folder
  unfolding sort
  sort_folders fs = sort (λ a b. leb (folder_rank a) (folder_rank b)) fs
