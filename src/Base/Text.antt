-- ===== src/Base/Text.antt =====
-- Go strings as lists of code points, with the functions of `strings` that the program uses. The
-- Unicode tables are an argument: what a theorem says holds for every table.
pub mod Trim
use Prim.Native.Char.{code}
use Prim.Native.String.{String}
use Prim.Native.Nat.{ℕ, ◌+◌}
use mathlib.Core.Path.{◌≡◌, refl, ap, sym, ◌∙◌}
use mathlib.Core.Logic.{◌↔◌}
use mathlib.Core.Bool.{Bool, true, false, ◌&&◌, ◌||◌}
use mathlib.Core.List.{List, [], ◌∷◌, map, reverse}
use native.Mathlib.Omega.{arith}
use nexus_mail.Base.Tests.{◌==◌, leb, ltb, if◌then◌else◌}

abbrev pub Text : Type 0
Text = List ℕ

abbrev pub codes : String → Text
codes String.[] = []
codes (String.◌∷◌ c s) = code c ∷ codes s

-- `a == b` on strings.
unfoldable pub text_eq : Text → Text → Bool
text_eq [] [] = true
text_eq [] (d ∷ t) = false
text_eq (c ∷ s) [] = false
text_eq (c ∷ s) (d ∷ t) = (c == d) && text_eq s t

-- SQLite's BINARY order. The bytes of UTF-8 are in the order of the code points.
unfoldable pub text_le : Text → Text → Bool
text_le [] t = true
text_le (c ∷ s) [] = false
text_le (c ∷ s) (d ∷ t) = ltb c d || ((c == d) && text_le s t)

-- `strings.HasPrefix(s, prefix)`, the prefix first.
unfoldable pub has_prefix : Text → Text → Bool
has_prefix [] s = true
has_prefix (c ∷ p) [] = false
has_prefix (c ∷ p) (d ∷ s) = (c == d) && has_prefix p s

-- `strings.Contains(s, sub)`, the part first.
unfoldable pub contains_text : Text → Text → Bool
unfolding has_prefix
contains_text sub [] = has_prefix sub []
contains_text sub (c ∷ s) = has_prefix sub (c ∷ s) || contains_text sub s

-- A list of strings holds one.
unfoldable pub has_text : List Text → Text → Bool
unfolding text_eq
has_text [] s = false
has_text (t ∷ ts) s = text_eq s t || has_text ts s

-- The tables of the package `unicode`. `fold` takes a code point to the least of its simple
-- folding orbit, which is what `strings.EqualFold` compares.
pub record Unicode : Type 0 where
  pub to_lower : ℕ → ℕ
  pub fold : ℕ → ℕ
  pub is_space : ℕ → Bool

-- The tables on ASCII alone, for examples.
abbrev pub ascii_lower : ℕ → ℕ
ascii_lower c = if leb b'A' c && leb c b'Z' then c + 32 else c

abbrev pub ascii_space : ℕ → Bool
ascii_space c = (leb 9 c && leb c 13) || c == 32

abbrev pub ascii : Unicode
ascii = record { to_lower = ascii_lower; fold = ascii_lower; is_space = ascii_space }

module _ (u : Unicode) where
  -- `strings.ToLower`.
  abbrev pub to_lower : Text → Text
  to_lower s = map u.to_lower s

  -- `strings.EqualFold`.
  unfoldable pub equal_fold : Text → Text → Bool
  unfolding text_eq
  equal_fold s t = text_eq (map u.fold s) (map u.fold t)

  unfoldable pub trim_left : Text → Text
  trim_left [] = []
  trim_left (c ∷ s) = if u.is_space c then trim_left s else c ∷ s

  -- `strings.TrimSpace`.
  unfoldable pub trim_space : Text → Text
  unfolding trim_left
  trim_space s = reverse (trim_left (reverse (trim_left s)))

pub text_eq_refl : (s : Text) → text_eq s s ≡ true
unfolding text_eq
text_eq_refl [] = refl
text_eq_refl (c ∷ s) = ground (arith, text_eq_refl s)

pub eq_of_text_eq : (s t : Text) → text_eq s t ≡ true → s ≡ t
unfolding text_eq
eq_of_text_eq [] [] h = refl
eq_of_text_eq [] (d ∷ t) h = cc
eq_of_text_eq (c ∷ s) [] h = cc
eq_of_text_eq (c ∷ s) (d ∷ t) h = ground (arith, eq_of_text_eq s t)

pub text_eq_iff : (s t : Text) → (text_eq s t ≡ true) ↔ (s ≡ t)
text_eq_iff s t = (eq_of_text_eq s t, λ e. ap (text_eq s) (sym e) ∙ text_eq_refl s)
