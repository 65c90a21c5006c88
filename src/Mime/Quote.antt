-- ===== src/Mime/Quote.antt =====
-- internal/mailmime/reply.go: the original message under a reply. Formatting a date is a call of the
-- package `time`, and so an argument; a date of `none` is the zero time.
pub mod Unquote
use nexus_mail.Base.{
  ℕ, Bool, true, false, ◌&&◌, List, [], ◌∷◌, ◌++◌, map, Option, none, some, if◌then◌else◌, ◌==◌,
}
use nexus_mail.Base.Text.{Text, codes}
use nexus_mail.Mime.References.{is_empty}

abbrev pub lf : ℕ
lf = 10

abbrev pub cr : ℕ
cr = 13

-- `strings.ReplaceAll(s, "\r\n", "\n")`.
unfoldable pub replace_crlf : Text → Text
replace_crlf [] = []
replace_crlf (c ∷ []) = c ∷ []
replace_crlf (c ∷ d ∷ s) = elim (c == cr && d == lf) [
  | true ↦ lf ∷ replace_crlf s
  | false ↦ c ∷ replace_crlf (d ∷ s)
]

-- `strings.ReplaceAll(s, "\r", "\n")`.
unfoldable pub replace_cr : Text → Text
replace_cr s = map (λ c. if c == cr then lf else c) s

unfoldable pub normalise_to_lf : Text → Text
unfolding replace_crlf replace_cr
normalise_to_lf s = replace_cr (replace_crlf s)

-- `strings.SplitSeq(s, "\n")`.
abbrev pub extend : ℕ → List Text → List Text
extend c [] = (c ∷ []) ∷ []
extend c (l ∷ ls) = (c ∷ l) ∷ ls

unfoldable pub split_lines : Text → List Text
split_lines [] = [] ∷ []
split_lines (c ∷ s) = if c == lf then [] ∷ split_lines s else extend c (split_lines s)

unfoldable pub attribution : (ℕ → Text) → Text → Option ℕ → Text
attribution format author when =
    let name = if is_empty author then codes "someone" else author in
    elim when [
      | none ↦ name ++ codes " wrote:"
      | some t ↦ codes "On " ++ (format t ++ (codes ", " ++ (name ++ codes " wrote:")))
    ]

unfoldable pub quote_lines : List Text → Text
quote_lines [] = []
quote_lines (line ∷ lines) =
    b'>' ∷ ((if is_empty line then [] else b' ' ∷ []) ++ (line ++ lf ∷ quote_lines lines))

unfoldable pub quote : (ℕ → Text) → Text → Option ℕ → Text → Text
unfolding attribution quote_lines split_lines normalise_to_lf
quote format author when body =
    attribution format author when ++ lf ∷ quote_lines (split_lines (normalise_to_lf body))
