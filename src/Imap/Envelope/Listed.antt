-- ===== src/Imap/Envelope/Listed.antt =====
-- Files that are listed, and dates that are kept.
use nexus_mail.Base.{
  ℕ, ◌+◌, ◌≤◌, true, List, [], ◌∷◌, Option, none, some, ltb, ◌≡◌, ◌≢◌, refl, arith, Bool-cases, inl,
  inr,
}
use nexus_mail.Base.Text.{Text, Unicode}
use nexus_mail.Imap.Envelope.{
  Leaf, Visited, leaf, multipart, is_file, attachment_parts, has_attachment_parts, reconcile_date,
  max_date_skew,
}

is_file-has :
    (u : Unicode) (path : List ℕ) (p : Leaf) (visited : List Visited)
    → is_file u p ≡ true
    → has_attachment_parts u (leaf path p ∷ visited) ≡ true
unfolding is_file has_attachment_parts
is_file-has u path p visited h = ground arith

has_later :
    (u : Unicode) (path : List ℕ) (p : Leaf) (visited : List Visited)
    → has_attachment_parts u visited ≡ true
    → has_attachment_parts u (leaf path p ∷ visited) ≡ true
unfolding has_attachment_parts
has_later u path p visited h = ground arith

has_beside :
    (u : Unicode) (path : List ℕ) (visited : List Visited)
    → has_attachment_parts u visited ≡ true
    → has_attachment_parts u (multipart path ∷ visited) ≡ true
unfolding has_attachment_parts
has_beside u path visited h = h

-- A message that lists a file shows that it has one.
pub attachment_parts-has :
    (u : Unicode) (itoa : ℕ → Text) (visited : List Visited)
    → attachment_parts u itoa visited ≢ []
    → has_attachment_parts u visited ≡ true
attachment_parts-has u itoa [] h = absurd (h (unfold attachment_parts in refl))
attachment_parts-has u itoa (multipart path ∷ visited) h =
    has_beside u path visited
      (attachment_parts-has u itoa visited (λ e. h (unfold attachment_parts in e)))
attachment_parts-has u itoa (leaf [] p ∷ visited) h =
    has_later u [] p visited
      (attachment_parts-has u itoa visited (λ e. h (unfold attachment_parts in e)))
attachment_parts-has u itoa (leaf (n ∷ path) p ∷ visited) h = elim (Bool-cases (is_file u p)) [
  | inl listed ↦ is_file-has u (n ∷ path) p visited listed
  | inr passed ↦
      has_later u (n ∷ path) p visited
        (attachment_parts-has u itoa visited (λ e. h (unfold attachment_parts in rw passed e)))
]

-- A message that has a time of delivery gets a date, at most two days after that time.
pub reconcile_date-bound :
    (header : Option ℕ) (internal : ℕ)
    → (t : ℕ) × (reconcile_date header (some internal) ≡ some t) × (t ≤ internal + max_date_skew)
reconcile_date-bound none internal = unfold reconcile_date in (internal, refl, omega arith)
reconcile_date-bound (some header) internal =
    elim (Bool-cases (ltb (internal + max_date_skew) header)) [
      | inl late ↦ (internal, (unfold reconcile_date in rw late refl), omega arith)
      | inr near ↦ (header, (unfold reconcile_date in rw near refl), ground arith)
    ]
