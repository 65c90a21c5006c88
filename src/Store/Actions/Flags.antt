-- ===== src/Store/Actions/Flags.antt =====
-- changeFlags of internal/store/actions.go.
use nexus_mail.Base.{
  Bool, true, false, not, ◌&&◌, ◌||◌, List, [], ◌∷◌, ◌++◌, ◌≡◌, refl, ap, ◌∙◌, inl, inr, map, any,
  filter, length, length-filter-le, ◌==◌, arith, if◌then◌else◌, Bool-cases,
}
use nexus_mail.Base.Text.{Text, Unicode, equal_fold, text_eq, eq_of_text_eq}
use nexus_mail.Model.Flags.{has_fold}
use nexus_mail.Store.Actions.{add_all, change_flags}

module _ (u : Unicode) where
  -- Flags that are equal up to case are in the same lists.
  has_fold-same :
      (xs : List Text) (f g : Text) → equal_fold u f g ≡ true → has_fold u xs f ≡ has_fold u xs g
  unfolding equal_fold has_fold
  has_fold-same xs f g h =
      ap (λ (t : Text). any (λ got. text_eq (map u.fold got) t) xs)
        (eq_of_text_eq (map u.fold f) (map u.fold g) h)

  has_fold-append :
      (xs : List Text) (g f : Text)
      → has_fold u (xs ++ g ∷ []) f ≡ has_fold u xs f || equal_fold u g f
  unfolding has_fold
  has_fold-append [] g f = ground arith
  has_fold-append (x ∷ xs) g f = ground (arith, has_fold-append xs g f)

  module _ (out fs : List Text) (f : Text) (changed : Bool) where
    add_all-there :
        has_fold u out f ≡ true → add_all u out (f ∷ fs) changed ≡ add_all u out fs changed
    unfolding add_all
    add_all-there h =
        ap (λ b. add_all u (if b then out else out ++ f ∷ []) fs (if b then changed else true)) h

    add_all-absent :
        has_fold u out f ≡ false
        → add_all u out (f ∷ fs) changed ≡ add_all u (out ++ f ∷ []) fs true
    unfolding add_all
    add_all-absent h =
        ap (λ b. add_all u (if b then out else out ++ f ∷ []) fs (if b then changed else true)) h

  add_all-has_fold :
      (out fs : List Text) (changed : Bool) (g : Text)
      → has_fold u (add_all u out fs changed).0 g ≡ has_fold u out g || has_fold u fs g
  unfolding add_all has_fold
  add_all-has_fold out [] changed g = ground arith
  add_all-has_fold out (f ∷ fs) changed g = elim (Bool-cases (has_fold u out f)) [
    | inl there ↦
        ap (λ (r : List Text × Bool). has_fold u r.0 g) (add_all-there out fs f changed there)
        ∙ add_all-has_fold out fs changed g
        ∙ ground (arith, there, has_fold-same out f g)
    | inr absent ↦
        ap (λ (r : List Text × Bool). has_fold u r.0 g) (add_all-absent out fs f changed absent)
        ∙ add_all-has_fold (out ++ f ∷ []) fs true g
        ∙ ground (arith, has_fold-append out f g)
  ]

  add_all-changed :
      (out fs : List Text) (changed : Bool)
      → (add_all u out fs changed).1 ≡ changed || any (λ f. not (has_fold u out f)) fs
  unfolding add_all
  add_all-changed out [] changed = ground arith
  add_all-changed out (f ∷ fs) changed = elim (Bool-cases (has_fold u out f)) [
    | inl there ↦
        ap (λ (r : List Text × Bool). r.1) (add_all-there out fs f changed there)
        ∙ add_all-changed out fs changed
        ∙ ground (arith, there)
    | inr absent ↦
        ap (λ (r : List Text × Bool). r.1) (add_all-absent out fs f changed absent)
        ∙ add_all-changed (out ++ f ∷ []) fs true
        ∙ ground (arith, absent)
  ]

  abbrev without : List Text → List Text → List Text
  without change current = filter (λ f. not (has_fold u change f)) current

  without-has_fold :
      (current change : List Text) (g : Text)
      → has_fold u (without change current) g ≡ has_fold u current g && not (has_fold u change g)
  unfolding has_fold
  without-has_fold [] change g = refl
  without-has_fold (c ∷ current) change g =
      ground (arith, without-has_fold current change g, has_fold-same change c g)

  length-without :
      (current change : List Text)
      → not (length (without change current) == length current) ≡ any (has_fold u change) current
  length-without [] change = refl
  length-without (c ∷ current) change = ground (
    arith,
    length-without current change,
    length-filter-le (λ f. not (has_fold u change f)) current,
  )

  -- Up to case: an addition leaves the flags that were there and those that were asked for, and
  -- reports a change exactly if one of these was missing; a removal leaves the flags that were there
  -- and were not asked for, and reports a change exactly if one was there.
  pub change_flags-has_fold :
      (current change : List Text) (g : Text)
      → (has_fold u (change_flags u current change true).0 g
          ≡ has_fold u current g || has_fold u change g)
        × ((change_flags u current change true).1 ≡ any (λ f. not (has_fold u current f)) change)
        × (has_fold u (change_flags u current change false).0 g
            ≡ has_fold u current g && not (has_fold u change g))
        × ((change_flags u current change false).1 ≡ any (has_fold u change) current)
  unfolding change_flags
  change_flags-has_fold current change g = (
    add_all-has_fold current change false g,
    add_all-changed current change false,
    without-has_fold current change g,
    length-without current change,
  )
