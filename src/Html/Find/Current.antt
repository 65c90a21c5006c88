-- ===== src/Html/Find/Current.antt =====
-- The mark of the current match.
use nexus_mail.Base.{
  ℕ, suc, ◌+◌, ◌-◌, ◌<◌, ◌%◌, Bool, true, false, ◌&&◌, List, [], ◌∷◌, ◌++◌, leb, ltb, if◌then◌else◌,
  ◌==◌, ◌≡◌, refl, sym, ap, ◌∙◌, Bool-cases, inl, inr, length, arith, subst,
}
use mathlib.Core.Path.{ap₂}
use native.Mathlib.Nat.{mod-lt}
use nexus_mail.Base.Text.{
  Text, codes, Unicode, to_lower, text_eq, eq_of_text_eq, has_text, has_prefix, trim_space,
}
use nexus_mail.Base.Bytes.{byte_len}
use nexus_mail.Mime.References.{is_empty}
use nexus_mail.Html.Find.{
  Range, fold_text, fold_runes, find, slice, Node, Nodes, text, element, other, nil, cons,
  Attribute, drop_our_marker, drop_our_markers, unsearchable, count_node, count_nodes,
  highlight_node, highlight_nodes, Asked, ahead, behind, wrap_index, HighlightResult, highlight,
  mark_loop, mark_matches, mark_attributes, text_before, mark_class, without_our_classes,
  current_mark_id, marker_prefix,
}

-- An attribute names the current match.
unfoldable pub is_current : Unicode → Attribute → Bool
unfolding text_eq
is_current u a = text_eq (to_lower u a.key) (codes "id") && text_eq a.val current_mark_id

unfoldable pub count_current : Unicode → List Attribute → ℕ
unfolding is_current
count_current u [] = 0
count_current u (a ∷ attrs) = (if is_current u a then 1 else 0) + count_current u attrs

-- How many elements that are searched name it.
unfoldable mutual
  unfolding count_current has_text

  pub current_node : Unicode → Node → ℕ
  current_node u (text s) = 0
  current_node u (element name attrs children) =
      if has_text unsearchable name then 0 else count_current u attrs + current_nodes u children
  current_node u (other s) = 0

  pub current_nodes : Unicode → Nodes → ℕ
  current_nodes u nil = 0
  current_nodes u (cons n ns) = current_node u n + current_nodes u ns

-- The index of the current match is one of `n` from `lo` on.
unfoldable hit : ℕ → ℕ → ℕ → ℕ
hit lo n c = if leb lo c && ltb c (lo + n) then 1 else 0

hit-suc : (lo n c : ℕ) → hit lo (suc n) c ≡ (if lo == c then 1 else 0) + hit (lo + 1) n c
unfolding hit
hit-suc lo n c = ground arith

hit_add : (lo n m c : ℕ) → hit lo (n + m) c ≡ hit lo n c + hit (lo + n) m c
unfolding hit
hit_add lo n m c = ground arith

hit_zero : (lo c : ℕ) → hit lo 0 c ≡ 0
unfolding hit
hit_zero lo c = ground arith

count_current-append :
    (u : Unicode) (xs ys : List Attribute)
    → count_current u (xs ++ ys) ≡ count_current u xs + count_current u ys
unfolding count_current
count_current-append u [] ys = omega arith
count_current-append u (a ∷ xs) ys = omega (arith, count_current-append u xs ys)

current_id_ours : (v : Text) → text_eq v current_mark_id ≡ true → has_prefix marker_prefix v ≡ true
current_id_ours v h =
    subst (λ t. has_prefix marker_prefix t ≡ true) (sym (eq_of_text_eq v current_mark_id h))
      (unfold has_prefix in refl)

true_not_false : true ≡ false → ⊥
true_not_false e = cc

drop_our_marker-count : (u : Unicode) (a : Attribute) → count_current u (drop_our_marker u a) ≡ 0
unfolding drop_our_marker count_current is_current
drop_our_marker-count u a = elim (Bool-cases (text_eq (to_lower u a.key) (codes "id"))) [
  | inl id ↦ elim (Bool-cases (has_prefix marker_prefix a.val)) [
    | inl ours ↦ rw (id, ours) refl
    | inr theirs ↦ elim (Bool-cases (text_eq a.val current_mark_id)) [
      | inl same ↦ absurd (true_not_false (sym (current_id_ours a.val same) ∙ theirs))
      | inr differ ↦ rw (id, theirs) (rw (id, differ) refl)
    ]
  ]
  | inr another ↦ elim (Bool-cases (text_eq (to_lower u a.key) (codes "class"))) [
    | inl class ↦ elim (Bool-cases (is_empty (without_our_classes u a.val))) [
      | inl none_left ↦ rw (another, class, none_left) refl
      | inr some_left ↦ rw (another, class, some_left) (rw another refl)
    ]
    | inr neither ↦ rw (another, neither) (rw another refl)
  ]
]

drop_our_markers-count :
    (u : Unicode) (attrs : List Attribute) → count_current u (drop_our_markers u attrs) ≡ 0
unfolding drop_our_markers count_current
drop_our_markers-count u [] = refl
drop_our_markers-count u (a ∷ attrs) =
    count_current-append u (drop_our_marker u a) (drop_our_markers u attrs)
    ∙ ap₂ ◌+◌ (drop_our_marker-count u a) (drop_our_markers-count u attrs)

-- The keys that a mark has are not changed by lowering.
abbrev pub KeepsKeys : Unicode → Type 0
KeepsKeys u = (to_lower u (codes "id") ≡ codes "id") × (to_lower u (codes "class") ≡ codes "class")

module _ (u : Unicode) (keys : KeepsKeys u) where
  class_not_current : is_current u (record { key = codes "class"; val = mark_class }) ≡ false
  unfolding is_current
  class_not_current =
      ap (λ k. text_eq k (codes "id") && text_eq mark_class current_mark_id) keys.1
      ∙ unfold text_eq in refl

  id_is_current : is_current u (record { key = codes "id"; val = current_mark_id }) ≡ true
  unfolding is_current
  id_is_current =
      ap (λ k. text_eq k (codes "id") && text_eq current_mark_id current_mark_id) keys.0
      ∙ unfold text_eq in refl

  mark_attributes-count :
      (current : Bool) → count_current u (mark_attributes current) ≡ (if current then 1 else 0)
  unfolding count_current
  mark_attributes-count true = rw (class_not_current, id_is_current) refl
  mark_attributes-count false = rw class_not_current refl

  mark-current :
      (current : Bool) (t : Text) (rest : Nodes)
      → current_nodes u
          (cons (element (codes "mark") (mark_attributes current) (cons (text t) nil)) rest)
        ≡ (if current then 1 else 0) + current_nodes u rest
  unfolding current_nodes has_text text_eq
  mark-current current t rest = omega (arith, mark_attributes-count current)

  text_before-current :
      (some_text : Bool) (s : Text) (rest : Nodes)
      → current_nodes u (text_before some_text s rest) ≡ current_nodes u rest
  unfolding current_nodes
  text_before-current true s rest = omega arith
  text_before-current false s rest = refl

  mark_loop-current :
      (s : Text) (cursor : ℕ) (ranges : List Range) (index current : ℕ) (rest : Nodes)
      → current_nodes u (mark_loop s cursor ranges index current rest)
        ≡ hit index (length ranges) current + current_nodes u rest
  unfolding mark_loop
  mark_loop-current s cursor [] index current rest =
      text_before-current (ltb cursor (byte_len s)) (slice cursor (byte_len s) s) rest
      ∙ omega (arith, hit_zero index current)
  mark_loop-current s cursor ((a, b) ∷ ranges) index current rest =
      let inner = mark_loop-current s b ranges (index + 1) current rest in
      text_before-current (ltb cursor a) (slice cursor a s) _
      ∙ mark-current (index == current) (slice a b s) _
      ∙ omega (arith, inner, hit-suc index (length ranges) current)

  mark_matches-current :
      (s : Text) (ranges : List Range) (index current : ℕ) (rest : Nodes)
      → current_nodes u (mark_matches s ranges index current rest)
        ≡ hit index (length ranges) current + current_nodes u rest
  unfolding mark_matches
  mark_matches-current s [] index current rest =
      unfold current_nodes in omega (arith, hit_zero index current)
  mark_matches-current s (r ∷ ranges) index current rest =
      mark_loop-current s 0 (r ∷ ranges) index current rest

  module _ (needle : List ℕ) where
    mutual
      unfolding highlight_node current_nodes count_node

      highlight_node-current :
          (index current : ℕ) (n : Node) (rest : Nodes)
          → current_nodes u (highlight_node u needle index current n rest)
            ≡ hit index (count_node u needle n) current + current_nodes u rest
      highlight_node-current index current (text s) rest =
          mark_matches-current s (find (fold_text u s) needle) index current rest
      highlight_node-current index current (element name attrs children) rest =
          elim (Bool-cases (has_text unsearchable name)) [
            | inl kept ↦ rw kept (rw kept (omega (arith, hit_zero index current)))
            | inr searched ↦ rw searched (
                rw searched (
                  omega (
                    arith,
                    drop_our_markers-count u attrs,
                    highlight_nodes-current index current children,
                  )))
          ]
      highlight_node-current index current (other s) rest = omega (arith, hit_zero index current)

      highlight_nodes-current :
          (index current : ℕ) (ns : Nodes)
          → current_nodes u (highlight_nodes u needle index current ns)
            ≡ hit index (count_nodes u needle ns) current
      highlight_nodes-current index current nil = sym (hit_zero index current)
      highlight_nodes-current index current (cons n ns) =
          let later = index + count_node u needle n in
          omega (
            arith,
            highlight_node-current index current n (highlight_nodes u needle later current ns),
            highlight_nodes-current later current ns,
            hit_add index (count_node u needle n) (count_nodes u needle ns) current,
          )

wrap_index-lt : (asked : Asked) (total : ℕ) → 0 < total → wrap_index asked total < total
unfolding wrap_index
wrap_index-lt (ahead n) total h = mod-lt (n % total + total) h
wrap_index-lt (behind n) total h = mod-lt (total - suc n % total) h

hit-within : (total c : ℕ) → c < total → hit 0 total c ≡ 1
unfolding hit
hit-within total c h = ground arith

chosen_none : (total w : ℕ) → total ≡ 0 → (if total == 0 then 0 else w) ≡ 0
chosen_none total w h = ground arith

chosen_within : (total w : ℕ) → w < total → (if total == 0 then 0 else w) < total
chosen_within total w h = ground arith

-- The number of matches, an index below it, and a current mark if there is a match.
abbrev pub AreMarked : Unicode → ℕ → HighlightResult → Type 0
AreMarked u total r =
    (r.count ≡ total)
    × ((r.count ≡ 0) → (r.current ≡ 0) × (current_nodes u r.nodes ≡ 0))
    × ((0 < r.count) → (r.current < r.count) × (current_nodes u r.nodes ≡ 1))

-- For a query that is not blank the answer is the number of matches and an index below it, and the
-- body then has one current mark, outside the elements that are not searched, if anything was found
-- and none otherwise.
pub highlight-current_nodes :
    (u : Unicode) (body : Nodes) (query : Text) (asked : Asked)
    → KeepsKeys u
    → is_empty (trim_space u query) ≡ false
    → AreMarked u (count_nodes u (fold_runes u query) body) (highlight u body query asked)
unfolding highlight
highlight-current_nodes u body query asked keys some_query =
    let needle = fold_runes u query in
    let total = count_nodes u needle body in
    let current = if total == 0 then 0 else wrap_index asked total in
    let marks = highlight_nodes-current u keys needle 0 current body in
    let found : highlight u body query asked ≡ record {
      nodes = highlight_nodes u needle 0 current body;
      count = total;
      current = current;
    } =
      rw some_query refl in
    subst (AreMarked u total) (sym found) (
      refl,
      (λ none_found. (
        chosen_none total _ none_found,
        marks ∙ ap (λ n. hit 0 n current) none_found ∙ hit_zero 0 current,
      )),
      (λ some_found.
          let within = chosen_within total _ (wrap_index-lt asked total some_found) in
          (within, marks ∙ hit-within total current within)),
    )
