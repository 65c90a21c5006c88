-- ===== src/Store/Attachments/Downloads.antt =====
-- A resync keeps what was downloaded.
use nexus_mail.Base.{
  ℕ, Bool, List, [], ◌∷◌, ◌++◌, append-nil, append_assoc, Option, none, some, map, any,
  if◌then◌else◌, ◌≡◌, refl, sym, ap, ◌∙◌, Bool-cases, inl, inr,
}
use mathlib.Core.Path.{ap₂}
use nexus_mail.Base.Text.{Text}
use nexus_mail.Model.{Message, AttachmentPart}
use nexus_mail.Store.{Db, AttachmentRow}
use nexus_mail.Store.Messages.{
  has_part, upsert_attachment, upsert_attachments, store_wanted, last_id, wanted_of,
  upsert_attachments_tx,
}

-- What identifies a row, and what a download wrote to it.
pub record Download : Type 0 where
  pub id : ℕ
  pub message_id : ℕ
  pub part_id : Text
  pub local_path : Text
  pub downloaded : Bool

abbrev pub download : AttachmentRow → Download
download a = record {
  id = a.id;
  message_id = a.message_id;
  part_id = a.part_id;
  local_path = a.local_path;
  downloaded = a.downloaded;
}

-- The rows are there with their downloads, and others may stand behind them.
abbrev pub KeepsDownloads : List AttachmentRow → List AttachmentRow → Type 0
KeepsDownloads before after =
    (rest : List Download) × (map download after ≡ map download before ++ rest)

KeepsDownloads-trans :
    (a b c : List AttachmentRow) → KeepsDownloads a b → KeepsDownloads b c → KeepsDownloads a c
KeepsDownloads-trans a b c (r, e) (s, f) =
    (r ++ s, f ∙ ap (λ xs. xs ++ s) e ∙ append_assoc (map download a) r s)

abbrev refreshed : ℕ → AttachmentPart → AttachmentRow → AttachmentRow
refreshed message_id p a =
    if has_part message_id p.part_id a
    then record a { filename = p.filename; mime_type = p.mime_type; size = p.size }
    else a

download-refreshed :
    (message_id : ℕ) (p : AttachmentPart) (a : AttachmentRow)
    → download (refreshed message_id p a) ≡ download a
download-refreshed message_id p a = elim (Bool-cases (has_part message_id p.part_id a)) [
  | inl same ↦ rw same refl
  | inr other ↦ rw other refl
]

downloads-refreshed :
    (message_id : ℕ) (p : AttachmentPart) (rows : List AttachmentRow)
    → map download (map (refreshed message_id p) rows) ≡ map download rows
downloads-refreshed message_id p [] = refl
downloads-refreshed message_id p (a ∷ rows) =
    ap₂ ◌∷◌ (download-refreshed message_id p a) (downloads-refreshed message_id p rows)

downloads-append :
    (xs ys : List AttachmentRow) → map download (xs ++ ys) ≡ map download xs ++ map download ys
downloads-append [] ys = refl
downloads-append (x ∷ xs) ys = ap (◌∷◌ (download x)) (downloads-append xs ys)

upsert_attachment-KeepsDownloads :
    (message_id : ℕ) (p : AttachmentPart) (rows : List AttachmentRow)
    → KeepsDownloads rows (upsert_attachment message_id p rows)
unfolding upsert_attachment
upsert_attachment-KeepsDownloads message_id p rows =
    elim (Bool-cases (any (has_part message_id p.part_id) rows)) [
      | inl known ↦
          rw known
            ([], downloads-refreshed message_id p rows ∙ sym (append-nil (map download rows)))
      | inr new ↦ rw new (_, downloads-append rows _)
    ]

pub upsert_attachments-KeepsDownloads :
    (message_id : ℕ) (ps : List AttachmentPart) (rows : List AttachmentRow)
    → KeepsDownloads rows (upsert_attachments message_id ps rows)
unfolding upsert_attachments
upsert_attachments-KeepsDownloads message_id [] rows = ([], sym (append-nil (map download rows)))
upsert_attachments-KeepsDownloads message_id (p ∷ ps) rows =
    let next = upsert_attachment message_id p rows in
    KeepsDownloads-trans rows next (upsert_attachments message_id ps next)
      (upsert_attachment-KeepsDownloads message_id p rows)
      (upsert_attachments-KeepsDownloads message_id ps next)

stored-KeepsDownloads :
    (o : Option ℕ) (parts : List AttachmentPart) (rows : List AttachmentRow)
    → KeepsDownloads rows (elim o [ none ↦ rows | some id ↦ upsert_attachments id parts rows ])
stored-KeepsDownloads none parts rows = ([], sym (append-nil (map download rows)))
stored-KeepsDownloads (some id) parts rows = upsert_attachments-KeepsDownloads id parts rows

store_wanted-KeepsDownloads :
    (folder_id : ℕ) (ms : List Message) (wanted : List (ℕ × List AttachmentPart))
    (rows : List AttachmentRow)
    → KeepsDownloads rows (store_wanted folder_id ms wanted rows)
unfolding store_wanted
store_wanted-KeepsDownloads folder_id ms [] rows = ([], sym (append-nil (map download rows)))
store_wanted-KeepsDownloads folder_id ms ((uid, parts) ∷ rest) rows =
    let o = last_id folder_id uid ms none in
    let next : List AttachmentRow = elim o [
      | none ↦ rows
      | some id ↦ upsert_attachments id parts rows
    ] in
    KeepsDownloads-trans rows next (store_wanted folder_id ms rest next)
      (stored-KeepsDownloads o parts rows) (store_wanted-KeepsDownloads folder_id ms rest next)

-- However often headers are synced, a downloaded file stays with its row.
pub upsert_attachments_tx-KeepsDownloads :
    (folder_id : ℕ) (ms : List Message) (db : Db)
    → KeepsDownloads db.attachments (upsert_attachments_tx folder_id ms db).attachments
unfolding upsert_attachments_tx
upsert_attachments_tx-KeepsDownloads folder_id ms db =
    store_wanted-KeepsDownloads folder_id db.messages (wanted_of ms []) db.attachments
