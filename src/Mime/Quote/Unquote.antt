-- ===== src/Mime/Quote/Unquote.antt =====
-- What is quoted under a reply can be read back.
use mathlib.Core.Path.{ap₂}
use mathlib.Core.Option
use nexus_mail.Base.{
  ℕ, true, false, ◌&&◌, List, [], ◌∷◌, ◌++◌, Option, none, some, if◌then◌else◌, ◌==◌, ◌≡◌, refl,
  sym, ap, subst, ◌∙◌, arith, All, Bool-cases, inl, inr, ==_iff,
}
use nexus_mail.Base.Text.{Text}
use nexus_mail.Mime.Quote.{
  lf, cr, replace_crlf, replace_cr, normalise_to_lf, extend, split_lines, attribution, quote_lines,
  quote,
}

-- A reader's view of a quotation: the lines of the text behind the attribution, each with its mark
-- taken off. `none` is a line that carries no mark, or a last line that does not end.
unfoldable pub unmark : Text → Option Text
unmark [] = none
unmark (c ∷ []) = if c == b'>' then some [] else none
unmark (c ∷ d ∷ line) = if c == b'>' && d == b' ' then some line else none

abbrev cons_line : Option Text → Option (List Text) → Option (List Text)
cons_line (some l) (some ls) = some (l ∷ ls)
cons_line _ _ = none

unfoldable pub unquote : List Text → Option (List Text)
unfolding unmark
unquote [] = none
unquote ([] ∷ []) = some []
unquote (l ∷ ls) = cons_line (unmark l) (unquote ls)

unfoldable pub join_lines : List Text → Text
join_lines [] = []
join_lines (l ∷ []) = l
join_lines (l ∷ m ∷ ls) = l ++ lf ∷ join_lines (m ∷ ls)

abbrev LacksLf : Text → Type 0
LacksLf s = All (λ c. (c == lf) ≡ false) s

split_lines-append :
    (l rest : Text) → LacksLf l → split_lines (l ++ lf ∷ rest) ≡ l ∷ split_lines rest
unfolding split_lines
split_lines-append [] rest h = refl
split_lines-append (c ∷ l) rest h = rw (h.0, split_lines-append l rest h.1) refl

extend-LacksLf :
    (c : ℕ) (ls : List Text) → (c == lf) ≡ false → All LacksLf ls → All LacksLf (extend c ls)
extend-LacksLf c [] g h = ((g, tt), tt)
extend-LacksLf c (l ∷ ls) g h = ((g, h.0), h.1)

split_lines-LacksLf : (s : Text) → All LacksLf (split_lines s)
unfolding split_lines
split_lines-LacksLf [] = (tt, tt)
split_lines-LacksLf (c ∷ s) = elim (Bool-cases (c == lf)) [
  | inl ends ↦ rw ends (tt, split_lines-LacksLf s)
  | inr goes ↦ rw goes (extend-LacksLf c (split_lines s) goes (split_lines-LacksLf s))
]

split_lines-cons : (s : Text) → (l : Text) × (ls : List Text) × (split_lines s ≡ l ∷ ls)
unfolding split_lines
split_lines-cons [] = ([], [], refl)
split_lines-cons (c ∷ s) = elim (Bool-cases (c == lf)) [
  | inl ends ↦ rw ends ([], split_lines s, refl)
  | inr goes ↦ let (l, ls, e) = split_lines-cons s in rw (goes, e) (c ∷ l, ls, refl)
]

first_line :
    (ls : List Text)
    → ((l : Text) × (ms : List Text) × (ls ≡ l ∷ ms))
    → join_lines ([] ∷ ls) ≡ lf ∷ join_lines ls
unfolding join_lines
first_line [] (l, ms, e) = cc
first_line (l ∷ ls) h = refl

join_lines-extend : (c : ℕ) (ls : List Text) → join_lines (extend c ls) ≡ c ∷ join_lines ls
unfolding join_lines
join_lines-extend c [] = refl
join_lines-extend c (l ∷ []) = refl
join_lines-extend c (l ∷ m ∷ ls) = refl

join_lines-split_lines : (s : Text) → join_lines (split_lines s) ≡ s
unfolding split_lines join_lines
join_lines-split_lines [] = refl
join_lines-split_lines (c ∷ s) = elim (Bool-cases (c == lf)) [
  | inl ends ↦ rw ends (
      first_line (split_lines s) (split_lines-cons s)
      ∙ ap₂ ◌∷◌ (sym ((==_iff c lf).0 ends)) (join_lines-split_lines s))
  | inr goes ↦ rw goes (join_lines-extend c (split_lines s) ∙ ap (◌∷◌ c) (join_lines-split_lines s))
]

unquote-quote_lines :
    (lines : List Text) → All LacksLf lines → unquote (split_lines (quote_lines lines)) ≡ some lines
unfolding quote_lines unquote
unquote-quote_lines [] h = unfold split_lines in refl
unquote-quote_lines ([] ∷ lines) h =
    rw
      (split_lines-append (b'>' ∷ []) (quote_lines lines) (refl, tt), unquote-quote_lines lines h.1)
      refl
unquote-quote_lines ((c ∷ l) ∷ lines) h =
    rw
      (
        split_lines-append (b'>' ∷ b' ' ∷ c ∷ l) (quote_lines lines) (refl, (refl, h.0)),
        unquote-quote_lines lines h.1,
      )
      refl

no_cr : (s : Text) → All (λ c. (c == cr) ≡ false) (replace_cr s)
unfolding replace_cr
no_cr [] = tt
no_cr (c ∷ s) = (ground arith, no_cr s)

normal-no_cr : (s : Text) → All (λ c. (c == cr) ≡ false) (normalise_to_lf s)
unfolding normalise_to_lf
normal-no_cr s = no_cr (replace_crlf s)

-- A text with LF at the end of its lines, read in one pass: CR LF is one line end, a CR without LF
-- is one too, and whatever else is kept.
unfoldable pub with_lf : Text → Text
with_lf [] = []
with_lf (c ∷ []) = (if c == cr then lf else c) ∷ []
with_lf (c ∷ d ∷ s) = elim (c == cr) [
  | false ↦ c ∷ with_lf (d ∷ s)
  | true ↦ elim (d == lf) [ true ↦ lf ∷ with_lf s | false ↦ lf ∷ with_lf (d ∷ s) ]
]

normalise_to_lf-with_lf : (s : Text) → normalise_to_lf s ≡ with_lf s
unfolding normalise_to_lf replace_crlf replace_cr with_lf
normalise_to_lf-with_lf [] = refl
normalise_to_lf-with_lf (c ∷ []) = refl
normalise_to_lf-with_lf (c ∷ d ∷ s) = elim (Bool-cases (c == cr)) [
  | inl returns ↦ elim (Bool-cases (d == lf)) [
    | inl feeds ↦
        rw (returns, feeds, replace_crlf, with_lf) (ap (◌∷◌ lf) (normalise_to_lf-with_lf s))
    | inr goes ↦
        rw (returns, goes, replace_crlf, with_lf, returns)
          (ap (◌∷◌ lf) (normalise_to_lf-with_lf (d ∷ s)))
  ]
  | inr other ↦
      rw (other, replace_crlf, with_lf, other) (ap (◌∷◌ c) (normalise_to_lf-with_lf (d ∷ s)))
]

-- Under its attribution a quotation holds the whole body, its line ends made LF in one pass: a
-- reader who takes one mark off each line has it back, and no other line and no CR is left.
pub quote-unquote :
    (format : ℕ → Text) (author body : Text) (when : Option ℕ)
    → (quoted : Text) × (quote format author when body
        ≡ attribution format author when ++ lf ∷ quoted)
      × (Option.map join_lines (unquote (split_lines quoted)) ≡ some (with_lf body))
      × All (λ c. (c == cr) ≡ false) (with_lf body)
unfolding quote
quote-unquote format author body when =
    let lines : List Text = split_lines (normalise_to_lf body) in
    (
      quote_lines lines,
      refl,
      rw (unquote-quote_lines lines (split_lines-LacksLf (normalise_to_lf body)))
          (ap some (join_lines-split_lines (normalise_to_lf body) ∙ normalise_to_lf-with_lf body)),
      subst (All (λ c. (c == cr) ≡ false)) (normalise_to_lf-with_lf body) (normal-no_cr body),
    )
