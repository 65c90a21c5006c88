-- ===== src/Store/Outbox/Kept.antt =====
-- What is put in the outbox can be read back, by its name and by no path out of the directory.
use nexus_mail.Base.{
  ℕ, Bool, true, false, not, ◌||◌, List, [], ◌∷◌, ◌++◌, Option, none, some, any, filter, find?,
  ◌==◌, ◌≡◌, ◌≢◌, refl, sym, ap, subst, ◌∙◌, arith, Bool-cases, inl, inr,
}
use mathlib.Core.List.{reverse, reverse-append, reverse-reverse, reverse-cons}
use nexus_mail.Base.Text.{Text, codes, text_eq, text_eq_refl, eq_of_text_eq, has_prefix}
use nexus_mail.Model.Errors.{ok, err, Error}
use nexus_mail.Mime.References.{is_empty}
use nexus_mail.Store.Outbox.{
  Entry, Files, has_suffix, is_slash, eml, trim_slashes, until_slash, base, resolve, is_named,
  write_file, remove_file, put_file, put, get,
}

abbrev pub is_separator : ℕ → Bool
is_separator c = c == b'/' || c == b'\\'

-- A name in the outbox: it ends in .eml and holds no separator.
pub record IsName (name : Text) : Type 0 where
  pub plain : any is_separator name ≡ false
  pub ends : has_suffix eml name ≡ true
  pub own : base name ≡ name

ok-injective : {T : Type 0} {a b : T} → ok a ≡ ok b → a ≡ b
ok-injective h = cc

err≢ok : {T : Type 0} {e : Error} {b : T} → err e ≢ ok b
err≢ok h = cc

or-false : (a b : Bool) → (not a || b) ≡ false → (a ≡ true) × (b ≡ false)
or-false a b h = ground arith

-- A recorded name that resolves stands for itself, and is a name in the outbox; any other name is
-- refused.
pub resolve-IsName : (name path : Text) → resolve name ≡ ok path → (path ≡ name) × IsName name
unfolding resolve
resolve-IsName name path h = elim (Bool-cases (is_empty name)) [
  | inl empty ↦ absurd (err≢ok (rw empty at h))
  | inr filled ↦ elim (Bool-cases (not (text_eq name (base name)) || any is_separator name)) [
    | inl bad ↦ absurd (err≢ok (rw (filled, bad) at h))
    | inr good ↦ elim (Bool-cases (has_suffix eml name)) [
      | inl ends ↦
          let (own, plain) = or-false (text_eq name (base name)) (any is_separator name) good in
          (
            sym (ok-injective (rw (filled, good, ends) at h)),
            record { plain = plain; ends = ends; own = sym (eq_of_text_eq name (base name) own) },
          )
      | inr other ↦ absurd (err≢ok (rw (filled, good, other) at h))
    ]
  ]
]

not_slash :
    (c : ℕ) (s : Text)
    → any is_separator (c ∷ s) ≡ false
    → (is_slash c ≡ false) × (any is_separator s ≡ false)
not_slash c s h = ground arith

trim_slashes-plain : (s : Text) → any is_separator s ≡ false → trim_slashes s ≡ s
unfolding trim_slashes
trim_slashes-plain [] h = refl
trim_slashes-plain (c ∷ s) h = rw (not_slash c s h).0 refl

until_slash-plain : (s : Text) → any is_separator s ≡ false → until_slash s ≡ s
unfolding until_slash
until_slash-plain [] h = refl
until_slash-plain (c ∷ s) h =
    let (here, rest) = not_slash c s h in
    rw (here, until_slash) (ap (◌∷◌ c) (until_slash-plain s rest))

any-append : (p : ℕ → Bool) (s t : Text) → any p (s ++ t) ≡ (any p s || any p t)
any-append p [] t = refl
any-append p (c ∷ s) t = ground (arith, any-append p s t)

any-reverse : (p : ℕ → Bool) (s : Text) → any p (reverse s) ≡ any p s
any-reverse p [] = refl
any-reverse p (c ∷ s) =
    rw (reverse-cons c s, any-append p (reverse s) (c ∷ []), any-reverse p s) (ground arith)

has_prefix-append : (s t : Text) → has_prefix s (s ++ t) ≡ true
unfolding has_prefix
has_prefix-append [] t = refl
has_prefix-append (c ∷ s) t = ground (arith, has_prefix-append s t)

-- A file name with no separator is its own base.
base-plain :
    (name : Text) → any is_separator name ≡ false → is_empty name ≡ false → base name ≡ name
base-plain [] h f = cc
base-plain (c ∷ s) h f =
    let plain = any-reverse is_separator (c ∷ s) ∙ h in
    unfold base in
    rw
      (
        trim_slashes-plain (reverse (c ∷ s)) plain,
        until_slash-plain (reverse (c ∷ s)) plain,
        reverse-reverse (c ∷ s),
      )
      refl

-- Every name in the outbox resolves.
resolve-of_IsName : (name : Text) → is_empty name ≡ false → IsName name → resolve name ≡ ok name
unfolding resolve
resolve-of_IsName name filled n = rw (filled, n.own, text_eq_refl name, n.plain, n.ends) refl

eml-IsName : (hex : Text) → any is_separator hex ≡ false → IsName (hex ++ eml)
eml-IsName hex plain =
    let whole : any is_separator (hex ++ eml) ≡ false =
      any-append is_separator hex eml ∙ rw plain refl in
    record {
      plain = whole;
      ends = rw (reverse-append hex eml) (has_prefix-append (reverse eml) (reverse hex));
      own = base-plain (hex ++ eml) whole (filled hex);
    }
  where
    filled : (t : Text) → is_empty (t ++ eml) ≡ false
    filled [] = refl
    filled (c ∷ t) = refl

filled_eml : (t : Text) → is_empty (t ++ eml) ≡ false
filled_eml [] = refl
filled_eml (c ∷ t) = refl

get-write_file :
    (name : Text) (raw : List ℕ) (es : List Entry) (fs : Files)
    → resolve name ≡ ok name
    → get name (record fs { entries = write_file name raw es }) ≡ ok raw
unfolding get write_file
get-write_file name raw es fs r = rw (r, get) (rw (text_eq_refl name) refl)

text_eq-longer : (s : Text) (c : ℕ) (t : Text) → text_eq (s ++ c ∷ t) s ≡ false
unfolding text_eq
text_eq-longer [] c t = refl
text_eq-longer (d ∷ s) c t = ground (arith, text_eq-longer s c t)

module _ {A : Type 0} (p : A → Bool) where
  find?-filter-not : (xs : List A) → find? p (filter (λ x. not (p x)) xs) ≡ none
  find?-filter-not [] = refl
  find?-filter-not (x ∷ xs) = ground (arith, find?-filter-not xs)

  find?-filter_none :
      (q : A → Bool) (xs : List A) → find? p xs ≡ none → find? p (filter q xs) ≡ none
  find?-filter_none q [] h = refl
  find?-filter_none q (x ∷ xs) h = ground (arith, find?-filter_none q xs)

no_temporary :
    (name : Text) (raw : List ℕ) (es : List Entry)
    → find?
        (is_named (name ++ codes ".tmp"))
        (write_file name raw (remove_file (name ++ codes ".tmp") es))
      ≡ none
unfolding write_file remove_file
no_temporary name raw es = rw (text_eq-longer name b'.' (codes "tmp")) (
    find?-filter_none (is_named (name ++ codes ".tmp")) (λ e. not (is_named name e))
      (remove_file (name ++ codes ".tmp") es)
      (find?-filter-not (is_named (name ++ codes ".tmp")) es))

-- What a message that was put leaves behind: it can be read under its name, and its temporary file is
-- gone.
abbrev pub IsKept : Text → List ℕ → Files → Type 0
IsKept name raw fs =
    (get name fs ≡ ok raw) × (find? (is_named (name ++ codes ".tmp")) fs.entries ≡ none)

put_file-IsKept :
    (path : Text) (raw : List ℕ) (writes renames : Option Error) (fs : Files) (name : Text)
    → resolve path ≡ ok path
    → (put_file path raw writes renames fs).0 ≡ ok name
    → IsKept name raw (put_file path raw writes renames fs).1
unfolding put_file
put_file-IsKept path raw (some e) renames fs name r h = absurd (err≢ok h)
put_file-IsKept path raw none (some e) fs name r h = absurd (err≢ok h)
put_file-IsKept path raw none none fs name r h =
    let temp = path ++ codes ".tmp" in
    let rest = remove_file temp (write_file temp raw fs.entries) in
    subst (λ n. IsKept n raw (record fs { entries = write_file path raw rest })) (ok-injective h)
      (get-write_file path raw rest fs r, no_temporary path raw (write_file temp raw fs.entries))

-- A message that was put under a random name is read back by the name that the queue records, byte
-- for byte, and nothing is left of the temporary file.
pub get-put :
    (hex : Text) (raw : List ℕ) (fs : Files) (name : Text)
    → any is_separator hex ≡ false
    → (put hex raw fs).0 ≡ ok name
    → (get name (put hex raw fs).1 ≡ ok raw)
      × (find? (is_named (name ++ codes ".tmp")) (put hex raw fs).1.entries ≡ none)
unfolding put
get-put hex [] fs name plain h = absurd (err≢ok h)
get-put hex (b ∷ raw) fs name plain h =
    put_file-IsKept (hex ++ eml) (b ∷ raw) fs.refuses_write fs.refuses_rename fs name
      (resolve-of_IsName (hex ++ eml) (filled_eml hex) (eml-IsName hex plain)) h
