-- ===== src/Html/Find/Kept.antt =====
-- Find in a message changes no text of it.
use nexus_mail.Base.{ℕ, ◌+◌, List, ◌++◌, ◌≡◌, refl, ap, ◌∙◌, Bool-cases, inl, inr}
use nexus_mail.Base.Text.{Text, Unicode, has_text, trim_space}
use nexus_mail.Mime.References.{is_empty}
use nexus_mail.Html.Find.{
  fold_text, fold_runes, find, Node, Nodes, text, element, other, nil, cons, unsearchable,
  count_node, highlight_node, highlight_nodes, Asked, highlight,
}
use nexus_mail.Html.Find.Slices.{node_text, nodes_text, mark_matches-text}
use nexus_mail.Html.Find.Matches.{find-AreOrdered}

module _ (u : Unicode) (needle : List ℕ) where
  mutual
    unfolding highlight_node nodes_text count_node

    highlight_node-text :
        (index current : ℕ) (n : Node) (rest : Nodes)
        → nodes_text (highlight_node u needle index current n rest) ≡ node_text n ++ nodes_text rest
    highlight_node-text index current (text s) rest =
        mark_matches-text s (find (fold_text u s) needle) index current rest
          (find-AreOrdered u needle s)
    highlight_node-text index current (element name attrs children) rest =
        elim (Bool-cases (has_text unsearchable name)) [
          | inl kept ↦ rw kept refl
          | inr searched ↦
              rw searched
                (ap (λ t. t ++ nodes_text rest) (highlight_nodes-text index current children))
        ]
    highlight_node-text index current (other s) rest = refl

    highlight_nodes-text :
        (index current : ℕ) (ns : Nodes)
        → nodes_text (highlight_nodes u needle index current ns) ≡ nodes_text ns
    highlight_nodes-text index current nil = refl
    highlight_nodes-text index current (cons n ns) =
        highlight_node-text index current n
          (highlight_nodes u needle (index + count_node u needle n) current ns)
        ∙ ap (λ t. node_text n ++ t)
            (highlight_nodes-text (index + count_node u needle n) current ns)

-- Whatever is searched for, the text of the body is the text that it had.
pub highlight-nodes_text :
    (u : Unicode) (body : Nodes) (query : Text) (asked : Asked)
    → nodes_text (highlight u body query asked).nodes ≡ nodes_text body
unfolding highlight
highlight-nodes_text u body query asked = elim (Bool-cases (is_empty (trim_space u query))) [
  | inl nothing_asked ↦ rw nothing_asked refl
  | inr some_query ↦ rw some_query (highlight_nodes-text u (fold_runes u query) 0 _ body)
]
