-- ===== src/Html/Find/Slices.antt =====
-- Slices of a text at the offsets of its runes, and the text that marking leaves.
use nexus_mail.Base.{
  ℕ, ◌+◌, ◌≤◌, ◌<◌, List, [], ◌∷◌, ◌++◌, append-nil, append_assoc, ltb, ◌==◌, ◌≡◌, refl, sym, ap,
  ◌∙◌, arith, Bool-cases, inl, inr,
}
use native.Mathlib.Nat.{zero-add}
use nexus_mail.Base.Text.{Text, codes}
use nexus_mail.Base.Bytes.{width, width-pos, byte_len}
use nexus_mail.Html.Find.{
  Range, slice_from, slice, Node, Nodes, text, element, other, nil, cons, mark_loop, mark_matches,
  text_before, mark_attributes,
}

pub slice_past : (k a b : ℕ) (s : Text) → b ≤ k → slice_from k a b s ≡ []
unfolding slice_from
slice_past k a b [] h = refl
slice_past k a b (c ∷ s) h = ground (arith, slice_past (k + width c) a b s, width-pos c)

pub slice_empty : (k a b : ℕ) (s : Text) → b ≤ a → slice_from k a b s ≡ []
unfolding slice_from
slice_empty k a b [] h = refl
slice_empty k a b (c ∷ s) h = ground (arith, slice_empty (k + width c) a b s)

-- Two slices that meet are one.
pub slice-append :
    (k a b c : ℕ) (s : Text)
    → a ≤ b
    → b ≤ c
    → slice_from k a b s ++ slice_from k b c s ≡ slice_from k a c s
unfolding slice_from
slice-append k a b c [] h g = refl
slice-append k a b c (d ∷ s) h g = elim (Bool-cases (ltb k b)) [
  | inl before ↦ ground (arith, slice-append (k + width d) a b c s h g)
  | inr behind ↦
      ground
        (arith, slice-append (k + width d) a b c s h g, slice_past (k + width d) a b s, width-pos d)
]

pub slice_all : (k a : ℕ) (s : Text) → a ≤ k → slice_from k a (k + byte_len s) s ≡ s
unfolding slice_from byte_len
slice_all k a [] h = refl
slice_all k a (c ∷ s) h =
    let e : k + (width c + byte_len s) ≡ (k + width c) + byte_len s = omega arith in
    rw e (ground (arith, width-pos c, slice_all (k + width c) a s))

-- Ranges in their order, from a place on and up to another, none of them empty.
abbrev pub AreOrdered : ℕ → List Range → ℕ → Type 0
AreOrdered lo [] hi = lo ≤ hi
AreOrdered lo ((a, b) ∷ ranges) hi = (lo ≤ a) × (a < b) × AreOrdered b ranges hi

-- The text of a tree.
unfoldable mutual
  pub node_text : Node → Text
  node_text (text s) = s
  node_text (element name attrs children) = nodes_text children
  node_text (other s) = []

  pub nodes_text : Nodes → Text
  nodes_text nil = []
  nodes_text (cons n ns) = node_text n ++ nodes_text ns

AreOrdered-le : (lo hi : ℕ) (ranges : List Range) → AreOrdered lo ranges hi → lo ≤ hi
AreOrdered-le lo hi [] h = h
AreOrdered-le lo hi ((a, b) ∷ ranges) (l, m, h) = omega (arith, AreOrdered-le b hi ranges h)

text_before-text :
    (a b : ℕ) (s : Text) (rest : Nodes)
    → nodes_text (text_before (ltb a b) (slice a b s) rest) ≡ slice a b s ++ nodes_text rest
unfolding nodes_text
text_before-text a b s rest = elim (Bool-cases (ltb a b)) [
  | inl some_text ↦ rw some_text refl
  | inr none_left ↦
      rw none_left (ap (λ t. t ++ nodes_text rest) (sym (slice_empty 0 a b s (ground arith))))
]

regroup : (w x y z : Text) → w ++ ((x ++ []) ++ (y ++ z)) ≡ ((w ++ x) ++ y) ++ z
regroup w x y z = simp (append-nil, append_assoc)

mark_loop-text :
    (s : Text) (cursor : ℕ) (ranges : List Range) (index current : ℕ) (rest : Nodes)
    → AreOrdered cursor ranges (byte_len s)
    → nodes_text (mark_loop s cursor ranges index current rest)
      ≡ slice cursor (byte_len s) s ++ nodes_text rest
unfolding mark_loop nodes_text
mark_loop-text s cursor [] index current rest h = text_before-text cursor (byte_len s) s rest
mark_loop-text s cursor ((a, b) ∷ ranges) index current rest (l, m, h) =
    let inner = mark_loop-text s b ranges (index + 1) current rest h in
    text_before-text cursor a s (
      cons
        (element (codes "mark") (mark_attributes (index == current))
          (cons (text (slice a b s)) nil))
        (mark_loop s b ranges (index + 1) current rest))
    ∙ ap (λ t. slice cursor a s ++ ((slice a b s ++ []) ++ t)) inner
    ∙ regroup (slice cursor a s) (slice a b s) (slice b (byte_len s) s) (nodes_text rest)
    ∙ ap (λ t. t ++ nodes_text rest)
        (ap (λ t. t ++ slice b (byte_len s) s) (slice-append 0 cursor a b s l (omega arith))
          ∙ slice-append 0 cursor b (byte_len s) s (omega arith)
              (AreOrdered-le b (byte_len s) ranges h))

-- Marking leaves the text of a node as it was.
pub mark_matches-text :
    (s : Text) (ranges : List Range) (index current : ℕ) (rest : Nodes)
    → AreOrdered 0 ranges (byte_len s)
    → nodes_text (mark_matches s ranges index current rest) ≡ s ++ nodes_text rest
unfolding mark_matches
mark_matches-text s [] index current rest h = unfold nodes_text in refl
mark_matches-text s (r ∷ ranges) index current rest h =
    mark_loop-text s 0 (r ∷ ranges) index current rest h
    ∙ ap (λ t. t ++ nodes_text rest) (simp zero-add at (slice_all 0 0 s (omega arith)))
