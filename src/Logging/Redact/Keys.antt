-- ===== src/Logging/Redact/Keys.antt =====
-- Which keys of an attribute isForbiddenKey of internal/logging/redact.go forbids.
use nexus_mail.Base.{
  ℕ, Bool, true, false, ◌||◌, List, [], ◌∷◌, ◌++◌, any, ◌≡◌, refl, ap, sym, subst, ◌∙◌, ◌⊎◌, inl,
  inr, arith, In, All, All-In, append-nil, append_assoc, Bool-cases,
}
use nexus_mail.Base.Text.{
  Text, Unicode, to_lower, has_prefix, contains_text, has_text, text_eq, text_eq_refl,
}
use nexus_mail.Logging.Redact.{
  forbidden_substrings, forbidden_segments, is_separator, end_field, fields_func, is_forbidden_key,
}

-- A text stands in another, between what comes before and after it.
abbrev pub IsPart : Text → Text → Type 0
IsPart t s = (before : Text) × (after : Text) × (s ≡ before ++ (t ++ after))

abbrev pub IsOpen : Text → Type 0
IsOpen before =
    (before ≡ []) ⊎ ((xs : Text) × (c : ℕ) × (before ≡ xs ++ c ∷ []) × (is_separator c ≡ true))

abbrev pub IsClosed : Text → Type 0
IsClosed [] = Unit
IsClosed (c ∷ after) = is_separator c ≡ true

-- A text stands in another with a separator, or nothing, on either side.
abbrev pub IsSegment : Text → Text → Type 0
IsSegment t s =
    (before : Text) × (after : Text) × (s ≡ before ++ (t ++ after)) × IsOpen before × IsClosed after

-- A key that names mail content or a credential: it holds one of the long words anywhere, or one of
-- the short words as a segment, in either case.
abbrev pub IsSensitive : Unicode → Text → Type 0
IsSensitive u key =
    ((word : Text) × In word forbidden_substrings × IsPart word (to_lower u key))
    ⊎ ((word : Text) × In word forbidden_segments × IsSegment word (to_lower u key))

has_prefix-append : (t s : Text) → has_prefix t (t ++ s) ≡ true
unfolding has_prefix
has_prefix-append [] s = refl
has_prefix-append (c ∷ t) s = ground (arith, has_prefix-append t s)

contains_text-prefix : (t s : Text) → has_prefix t s ≡ true → contains_text t s ≡ true
unfolding contains_text
contains_text-prefix t [] h = h
contains_text-prefix t (c ∷ s) h = rw h refl

contains_text-part : (t before after : Text) → contains_text t (before ++ (t ++ after)) ≡ true
unfolding contains_text
contains_text-part t [] after = contains_text-prefix t (t ++ after) (has_prefix-append t after)
contains_text-part t (c ∷ before) after = ground (arith, contains_text-part t before after)

any-In : (f : Text → Bool) (xs : List Text) (x : Text) → In x xs → f x ≡ true → any f xs ≡ true
any-In f [] x i h = elim i [ ]
any-In f (y ∷ xs) x (inl e) h = let here = subst (λ z. f z ≡ true) e h in rw here refl
any-In f (y ∷ xs) x (inr i) h = ground (arith, any-In f xs x i h)

has_text-In : (xs : List Text) (x : Text) → In x xs → has_text xs x ≡ true
unfolding has_text
has_text-In [] x i = elim i [ ]
has_text-In (y ∷ xs) x (inl e) =
    let here = subst (λ z. text_eq x z ≡ true) e (text_eq_refl x) in rw here refl
has_text-In (y ∷ xs) x (inr i) = ground (arith, has_text-In xs x i)

In-end_field : (x current : Text) (rest : List Text) → In x rest → In x (end_field current rest)
In-end_field x [] rest i = i
In-end_field x (c ∷ current) rest i = inr i

-- The fields behind a separator are fields of the whole.
fields-behind :
    (x current before : Text) (c : ℕ) (s : Text)
    → is_separator c ≡ true
    → In x (fields_func [] s)
    → In x (fields_func current (before ++ c ∷ s))
unfolding fields_func
fields-behind x current [] c s h i = rw (h, fields_func) (In-end_field x current _ i)
fields-behind x current (d ∷ before) c s h i = elim (Bool-cases (is_separator d)) [
  | inl ends ↦ rw (ends, fields_func) (In-end_field x current _ (fields-behind x [] before c s h i))
  | inr goes ↦ rw (goes, fields_func) (fields-behind x (current ++ d ∷ []) before c s h i)
]

not_separator :
    (c : ℕ) (s : Text)
    → any is_separator (c ∷ s) ≡ false
    → (is_separator c ≡ false) × (any is_separator s ≡ false)
not_separator c s h = ground (arith, h)

field_ends :
    (current after : Text) (d : ℕ)
    → IsClosed after
    → In (d ∷ current) (fields_func (d ∷ current) after)
unfolding fields_func
field_ends current [] d h = inl refl
field_ends current (c ∷ after) d h = rw (h, fields_func) (inl refl)

-- A run without separators, up to one, is a field.
field_of_run :
    (d : ℕ) (current run after : Text)
    → any is_separator run ≡ false
    → IsClosed after
    → In (d ∷ (current ++ run)) (fields_func (d ∷ current) (run ++ after))
unfolding fields_func
field_of_run d current [] after h k =
    subst (λ t. In (d ∷ t) (fields_func (d ∷ current) after)) (sym (append-nil current))
      (field_ends current after d k)
field_of_run d current (c ∷ run) after h k =
    let (here, rest) = not_separator c run h in
    rw (here, fields_func)
      (subst (λ t. In (d ∷ t) (fields_func (d ∷ (current ++ c ∷ [])) (run ++ after)))
        (append_assoc current (c ∷ []) run) (field_of_run d (current ++ c ∷ []) run after rest k))

-- A word that is not empty and holds no separator.
abbrev IsWord : Text → Type 0
IsWord [] = ⊥
IsWord (c ∷ t) = any is_separator (c ∷ t) ≡ false

field_of_word :
    (word after : Text) → IsWord word → IsClosed after → In word (fields_func [] (word ++ after))
unfolding fields_func
field_of_word [] after w k = elim w [ ]
field_of_word (d ∷ run) after w k =
    let (here, rest) = not_separator d run w in
    rw (here, fields_func) (field_of_run d [] run after rest k)

field_of_segment :
    (word before after : Text)
    → IsWord word
    → IsOpen before
    → IsClosed after
    → In word (fields_func [] (before ++ (word ++ after)))
field_of_segment word before after w (inl e) k =
    subst (λ b. In word (fields_func [] (b ++ (word ++ after)))) (sym e)
      (field_of_word word after w k)
field_of_segment word before after w (inr (xs, c, e, sep)) k =
    subst (λ b. In word (fields_func [] (b ++ (word ++ after)))) (sym e)
      (subst (λ t. In word (fields_func [] t)) (sym (append_assoc xs (c ∷ []) (word ++ after)))
        (fields-behind word [] xs c (word ++ after) sep (field_of_word word after w k)))

segments-AreWords : All IsWord forbidden_segments
segments-AreWords =
    (refl, (refl, (refl, (refl, (refl, (refl, (refl, (refl, (refl, (refl, tt))))))))))

-- Every sensitive key is forbidden.
pub is_forbidden_key-IsSensitive :
    (u : Unicode) (key : Text) → IsSensitive u key → is_forbidden_key u key ≡ true
unfolding is_forbidden_key
is_forbidden_key-IsSensitive u key (inl (word, i, (before, after, e))) =
    let held =
      any-In (λ forbidden. contains_text forbidden (to_lower u key)) forbidden_substrings word i
        (ap (contains_text word) e ∙ contains_text-part word before after) in
    rw held refl
is_forbidden_key-IsSensitive u key (inr (word, i, (before, after, e, opens, closes))) =
    let w = All-In IsWord forbidden_segments segments-AreWords word i in
    let field =
      subst (λ t. In word (fields_func [] t)) (sym e)
        (field_of_segment word before after w opens closes) in
    let held =
      any-In (has_text forbidden_segments) (fields_func [] (to_lower u key)) word field
        (has_text-In forbidden_segments word i) in
    or_true (any (λ forbidden. contains_text forbidden (to_lower u key)) forbidden_substrings) held
  where
    or_true : (a : Bool) {b : Bool} → b ≡ true → (a || b) ≡ true
    or_true true h = refl
    or_true false h = h
