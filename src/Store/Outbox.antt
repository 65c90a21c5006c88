-- ===== src/Store/Outbox.antt =====
-- internal/store/outbox.go: the files of the messages that wait to be sent. The directory is a list
-- of entries; a write, a rename and a removal are what the operating system does to it, and may fail.
pub mod Kept
pub mod Swept
use nexus_mail.Base.{
  ℕ, ◌+◌, Bool, true, false, not, ◌||◌, ◌&&◌, List, [], ◌∷◌, ◌++◌, Option, none, some, any, filter,
  find?, if◌then◌else◌, ◌==◌,
}
use mathlib.Core.List.{reverse}
use nexus_mail.Base.Text.{Text, codes, text_eq, has_prefix, has_text}
use nexus_mail.Model.Errors.{Result, ok, err, new_error, Error}
use nexus_mail.Mime.References.{is_empty}

pub record Entry : Type 0 where
  pub name : Text
  pub is_dir : Bool
  pub bytes : List ℕ

-- A directory, and what the operating system refuses: reading the directory, and by its name the
-- removal of each file.
pub record Files : Type 0 where
  pub entries : List Entry
  pub refuses_write : Option Error
  pub refuses_rename : Option Error
  pub refuses_list : Option Error
  pub refuses_remove : Text → Option Error

-- `strings.HasSuffix(s, suffix)`, the suffix first.
abbrev pub has_suffix : Text → Text → Bool
has_suffix suffix s = has_prefix (reverse suffix) (reverse s)

abbrev pub is_slash : ℕ → Bool
is_slash c = c == b'/'

abbrev pub eml : Text
eml = codes ".eml"

abbrev pub eml_tmp : Text
eml_tmp = codes ".eml.tmp"

-- `filepath.Base` on a system whose separator is `/`: trailing slashes go, then everything up to the
-- last slash; an empty path is `.`, and one of slashes is `/`.
unfoldable pub trim_slashes : Text → Text
trim_slashes [] = []
trim_slashes (c ∷ s) = if is_slash c then trim_slashes s else c ∷ s

unfoldable pub until_slash : Text → Text
until_slash [] = []
until_slash (c ∷ s) = elim (is_slash c) [ true ↦ [] | false ↦ c ∷ until_slash s ]

abbrev or_slash : Text → Text
or_slash [] = codes "/"
or_slash (c ∷ s) = c ∷ s

unfoldable pub base : Text → Text
unfolding trim_slashes until_slash
base [] = codes "."
base (c ∷ s) = or_slash (reverse (until_slash (trim_slashes (reverse (c ∷ s)))))

abbrev pub not_a_name : Error
not_a_name = new_error (codes "store: not an outbox file name")

-- The name inside the outbox that a recorded name stands for.
unfoldable pub resolve : Text → Result Text
unfolding text_eq has_prefix base
resolve name =
    if is_empty name
    then err (new_error (codes "store: an outbox reference cannot be empty"))
    else if not (text_eq name (base name)) || any (λ c. c == b'/' || c == b'\\') name
    then err not_a_name
    else if not (has_suffix eml name)
    then err not_a_name
    else ok name

abbrev pub is_named : Text → Entry → Bool
is_named name e = text_eq name e.name

abbrev pub file : Text → List ℕ → Entry
file name bytes = record { name = name; is_dir = false; bytes = bytes }

-- Writing a file, renaming one over another, removing one.
unfoldable pub write_file : Text → List ℕ → List Entry → List Entry
write_file name bytes es = file name bytes ∷ filter (λ e. not (is_named name e)) es

unfoldable pub remove_file : Text → List Entry → List Entry
remove_file name es = filter (λ e. not (is_named name e)) es

-- A temporary neighbour is written and renamed, given what the operating system refuses of it.
unfoldable pub put_file : Text → List ℕ → Option Error → Option Error → Files → Result Text × Files
unfolding write_file remove_file
put_file name raw (some e) rename fs = (err e, fs)
put_file name raw none (some e) fs =
    let temp = name ++ codes ".tmp" in
    (err e, record fs { entries = remove_file temp (write_file temp raw fs.entries) })
put_file name raw none none fs =
    let temp = name ++ codes ".tmp" in
    (
      ok name,
      record fs {
        entries = write_file name raw (remove_file temp (write_file temp raw fs.entries));
      },
    )

-- `hex` is what the random bytes are encoded to.
unfoldable pub put : Text → List ℕ → Files → Result Text × Files
unfolding put_file
put hex [] fs = (err (new_error (codes "store: refusing to queue an empty message")), fs)
put hex (b ∷ raw) fs = put_file (hex ++ eml) (b ∷ raw) fs.refuses_write fs.refuses_rename fs

abbrev pub no_file : Error
no_file = new_error (codes "store: reading the outbox file: file does not exist")

abbrev pub bytes_of : Option Entry → Result (List ℕ)
bytes_of none = err no_file
bytes_of (some e) = ok e.bytes

unfoldable pub get : Text → Files → Result (List ℕ)
unfolding resolve
get name fs = elim (resolve name) [
  | err e ↦ err e
  | ok path ↦ bytes_of (find? (is_named path) fs.entries)
]

-- A file that is not there is no error.
unfoldable pub remove : Text → Files → Result (Unit {0}) × Files
unfolding resolve remove_file
remove name fs = elim (resolve name) [
  | err e ↦ (err e, fs)
  | ok path ↦
      if any (is_named path) fs.entries
      then elim (fs.refuses_remove path) [
        | some e ↦ (err e, fs)
        | none ↦ (ok tt, record fs { entries = remove_file path fs.entries })
      ]
      else (ok tt, fs)
]

-- What a sweep passes over: directories, files in use, and files that are none of its own.
abbrev pub is_swept : List Text → Entry → Bool
is_swept in_use e =
    not (e.is_dir || has_text in_use e.name) && (has_suffix eml e.name || has_suffix eml_tmp e.name)

-- The loop over the entries read at the start: `removed` counts, the first refusal ends it, and the
-- last argument is the directory.
unfoldable pub sweep_loop :
    List Text
    → (Text → Option Error)
    → ℕ
    → List Entry
    → List Entry
    → (ℕ × Option Error) × List Entry
unfolding has_text has_prefix remove_file
sweep_loop in_use refuses removed [] files = ((removed, none), files)
sweep_loop in_use refuses removed (e ∷ es) files = elim (is_swept in_use e) [
  | false ↦ sweep_loop in_use refuses removed es files
  | true ↦ elim (refuses e.name) [
    | some failure ↦ ((removed, some failure), files)
    | none ↦ sweep_loop in_use refuses (removed + 1) es (remove_file e.name files)
  ]
]

unfoldable pub sweep : List Text → Files → (ℕ × Option Error) × Files
unfolding sweep_loop
sweep in_use fs = elim fs.refuses_list [
  | some failure ↦ ((0, some failure), fs)
  | none ↦
      let (result, files) = sweep_loop in_use fs.refuses_remove 0 fs.entries fs.entries in
      (result, record fs { entries = files })
]
