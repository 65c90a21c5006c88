-- ===== src/Html/Find.antt =====
-- internal/mailhtml/highlight.go: find in a message. Parsing and rendering are calls of x/net/html;
-- the model begins and ends with the tree.
pub mod Ranges
pub mod Slices
pub mod Current
pub mod Found
pub mod Kept
pub mod Matches
use nexus_mail.Base.{
  ℕ, zero, suc, ◌+◌, ◌-◌, ◌%◌, Bool, true, false, not, ◌||◌, ◌&&◌, List, [], ◌∷◌, ◌++◌, map, length,
  drop, ltb, leb, ◌==◌, if◌then◌else◌,
}
use nexus_mail.Base.Text.{Text, codes, Unicode, to_lower, trim_space, text_eq, has_text, has_prefix}
use nexus_mail.Base.Bytes.{width, byte_len}
use nexus_mail.Mime.References.{is_empty}

abbrev pub mark_class : Text
mark_class = codes "nx-find"

abbrev pub current_mark_id : Text
current_mark_id = codes "nx-find-current"

abbrev pub marker_prefix : Text
marker_prefix = codes "nx-"

abbrev pub unsearchable : List Text
unsearchable = codes "style" ∷ codes "script" ∷ codes "title" ∷ codes "textarea" ∷ []

-- A range of bytes, its end excluded.
abbrev pub Range : Type 0
Range = ℕ × ℕ

-- The lowered runes, and the byte offset of each with that of the end.
pub record Folded : Type 0 where
  pub runes : List ℕ
  pub offsets : List ℕ

unfoldable pub offsets_from : ℕ → Text → List ℕ
unfolding width
offsets_from k [] = k ∷ []
offsets_from k (c ∷ s) = k ∷ offsets_from (k + width c) s

unfoldable pub fold_text : Unicode → Text → Folded
unfolding offsets_from
fold_text u s = record { runes = to_lower u s; offsets = offsets_from 0 s }

unfoldable pub fold_runes : Unicode → Text → List ℕ
fold_runes u s = to_lower u s

unfoldable pub matches_at : List ℕ → List ℕ → Bool
matches_at haystack [] = true
matches_at [] (r ∷ needle) = false
matches_at (c ∷ haystack) (r ∷ needle) = (c == r) && matches_at haystack needle

-- `offsets[i]`.
unfoldable pub offset_at : List ℕ → ℕ → ℕ
offset_at [] i = 0
offset_at (k ∷ ks) zero = k
offset_at (k ∷ ks) (suc i) = offset_at ks i

-- The loop from the place where `runes` and `offsets` begin; the fuel is the number of rounds.
unfoldable pub find_loop : ℕ → List ℕ → List ℕ → List ℕ → List Range
unfolding matches_at offset_at
find_loop zero needle runes offsets = []
find_loop (suc fuel) needle runes offsets = elim (leb (length needle) (length runes)) [
  | false ↦ []
  | true ↦ elim (matches_at runes needle) [
    | false ↦ find_loop fuel needle (drop 1 runes) (drop 1 offsets)
    | true ↦
        (offset_at offsets 0, offset_at offsets (length needle))
        ∷ find_loop fuel needle (drop (length needle) runes) (drop (length needle) offsets)
  ]
]

unfoldable pub find : Folded → List ℕ → List Range
unfolding find_loop
find f [] = []
find f (r ∷ needle) = find_loop (suc (length f.runes)) (r ∷ needle) f.runes f.offsets

-- `text[a:b]` where `a` and `b` are offsets of runes: `k` is the offset of the first rune.
unfoldable pub slice_from : ℕ → ℕ → ℕ → Text → Text
unfolding width
slice_from k a b [] = []
slice_from k a b (c ∷ s) =
    let rest = slice_from (k + width c) a b s in if leb a k && ltb k b then c ∷ rest else rest

abbrev pub slice : ℕ → ℕ → Text → Text
slice a b s = slice_from 0 a b s

pub record Attribute : Type 0 where
  pub key : Text
  pub val : Text

-- The nodes of the parsed body. `other` is a comment or another node without text and children.
mutual
  pub data Node : Type 0 where
    text : Text → Node
    element : Text → List Attribute → Nodes → Node
    other : Text → Node

  pub data Nodes : Type 0 where
    nil : Nodes
    cons : Node → Nodes → Nodes

-- `strings.FieldsSeq`, with the run so far, and `strings.Join` with a space.
abbrev end_field : Text → List Text → List Text
end_field [] rest = rest
end_field (c ∷ current) rest = (c ∷ current) ∷ rest

unfoldable pub fields : Unicode → Text → Text → List Text
fields u current [] = end_field current []
fields u current (c ∷ s) = elim (u.is_space c) [
  | true ↦ end_field current (fields u [] s)
  | false ↦ fields u (current ++ c ∷ []) s
]

unfoldable pub join_spaces : List Text → Text
join_spaces [] = []
join_spaces (f ∷ []) = f
join_spaces (f ∷ g ∷ fs) = f ++ b' ' ∷ join_spaces (g ∷ fs)

unfoldable pub keep_foreign : List Text → List Text
unfolding has_prefix
keep_foreign [] = []
keep_foreign (name ∷ names) =
    if has_prefix marker_prefix name then keep_foreign names else name ∷ keep_foreign names

unfoldable pub without_our_classes : Unicode → Text → Text
unfolding fields join_spaces keep_foreign
without_our_classes u value = join_spaces (keep_foreign (fields u [] value))

-- One attribute: none or itself, without what is ours.
unfoldable pub drop_our_marker : Unicode → Attribute → List Attribute
unfolding text_eq has_prefix without_our_classes
drop_our_marker u a =
    if text_eq (to_lower u a.key) (codes "id")
    then (if has_prefix marker_prefix a.val then [] else a ∷ [])
    else if text_eq (to_lower u a.key) (codes "class")
    then (if is_empty (without_our_classes u a.val)
        then []
        else record { key = a.key; val = without_our_classes u a.val } ∷ [])
    else a ∷ []

unfoldable pub drop_our_markers : Unicode → List Attribute → List Attribute
unfolding drop_our_marker
drop_our_markers u [] = []
drop_our_markers u (a ∷ attrs) = drop_our_marker u a ++ drop_our_markers u attrs

abbrev pub mark_attributes : Bool → List Attribute
mark_attributes current =
    record { key = codes "class"; val = mark_class }
    ∷ (if current then record { key = codes "id"; val = current_mark_id } ∷ [] else [])

-- A text node if there is text: what the tests on the cursor do.
abbrev text_before : Bool → Text → Nodes → Nodes
text_before true s rest = cons (text s) rest
text_before false s rest = rest

-- The nodes that take the place of a text node, before `rest`; `index` is that of the next match.
unfoldable pub mark_loop : Text → ℕ → List Range → ℕ → ℕ → Nodes → Nodes
unfolding slice_from byte_len
mark_loop s cursor [] index current rest =
    text_before (ltb cursor (byte_len s)) (slice cursor (byte_len s) s) rest
mark_loop s cursor ((a, b) ∷ ranges) index current rest =
    text_before (ltb cursor a) (slice cursor a s) (
      cons
        (element (codes "mark") (mark_attributes (index == current))
          (cons (text (slice a b s)) nil))
        (mark_loop s b ranges (index + 1) current rest))

-- A text node without a match stays as it is.
unfoldable pub mark_matches : Text → List Range → ℕ → ℕ → Nodes → Nodes
unfolding mark_loop
mark_matches s [] index current rest = cons (text s) rest
mark_matches s (r ∷ ranges) index current rest = mark_loop s 0 (r ∷ ranges) index current rest

module _ (u : Unicode) (needle : List ℕ) where
  unfoldable mutual
    unfolding fold_text find has_text

    -- How many matches the walk of `collect` finds.
    pub count_node : Node → ℕ
    count_node (text s) = length (find (fold_text u s) needle)
    count_node (element name attrs children) =
        if has_text unsearchable name then 0 else count_nodes children
    count_node (other s) = 0

    pub count_nodes : Nodes → ℕ
    count_nodes nil = 0
    count_nodes (cons n ns) = count_node n + count_nodes ns

  -- The marks in the order of that walk, with the index of the first match of a node; `rest` is what
  -- follows it.
  unfoldable mutual
    unfolding count_node mark_matches drop_our_markers

    pub highlight_node : ℕ → ℕ → Node → Nodes → Nodes
    highlight_node index current (text s) rest =
        mark_matches s (find (fold_text u s) needle) index current rest
    highlight_node index current (element name attrs children) rest =
        cons
          (if has_text unsearchable name
            then element name attrs children
            else element name (drop_our_markers u attrs) (highlight_nodes index current children))
          rest
    highlight_node index current (other s) rest = cons (other s) rest

    pub highlight_nodes : ℕ → ℕ → Nodes → Nodes
    highlight_nodes index current nil = nil
    highlight_nodes index current (cons n ns) =
        highlight_node index current n (highlight_nodes (index + count_node n) current ns)

-- The index that the caller asks for: `ahead n` is n, and `behind n` is -(n + 1).
pub data Asked : Type 0 where
  ahead behind : ℕ → Asked

-- `((current % total) + total) % total`, where `%` has the sign of its left side.
unfoldable pub wrap_index : Asked → ℕ → ℕ
wrap_index (ahead n) total = (n % total + total) % total
wrap_index (behind n) total = (total - suc n % total) % total

pub record HighlightResult : Type 0 where
  pub nodes : Nodes
  pub count : ℕ
  pub current : ℕ

-- The body and the answer of Highlight. Where nothing is found no text node is replaced; the source
-- returns a body of spaces before it is parsed, and no match lies in one.
unfoldable pub highlight : Unicode → Nodes → Text → Asked → HighlightResult
unfolding count_nodes highlight_nodes wrap_index fold_runes
highlight u body query asked =
    let needle = fold_runes u query in
    let total = count_nodes u needle body in
    let current = if total == 0 then 0 else wrap_index asked total in
    if is_empty (trim_space u query)
    then record { nodes = body; count = 0; current = 0 }
    else record {
      nodes = highlight_nodes u needle 0 current body;
      count = total;
      current = current;
    }
