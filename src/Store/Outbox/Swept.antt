-- ===== src/Store/Outbox/Swept.antt =====
-- What a sweep leaves.
use nexus_mail.Base.{
  ℕ, ◌+◌, Bool, true, false, List, [], ◌∷◌, Option, none, some, filter, find?, length,
  if◌then◌else◌, ◌≡◌, refl, sym, ap, subst, ◌∙◌, arith, All, All-map, All-of_In, Bool-cases,
  Option-cases, inl, inr, ◌⊎◌, In,
}
use nexus_mail.Base.Text.{Text, text_eq, text_eq_refl, eq_of_text_eq, has_text}
use nexus_mail.Model.Errors.{Result, ok, err, Error}
use nexus_mail.Store.Outbox.Kept.{resolve-IsName}
use nexus_mail.Store.Outbox.{
  Entry, Files, resolve, is_named, remove_file, get, bytes_of, is_swept, sweep_loop, sweep,
}

Result-cases : {T : Type 0} (r : Result T) → ((e : Error) × (r ≡ err e)) ⊎ ((t : T) × (r ≡ ok t))
Result-cases (err e) = inl (e, refl)
Result-cases (ok t) = inr (t, refl)

-- A file in use is not swept.
swept-unused :
    (in_use : List Text) (e : Entry) → is_swept in_use e ≡ true → has_text in_use e.name ≡ false
swept-unused in_use e h = ground arith

apart : {b : Bool} → b ≡ true → b ≡ false → ⊥
apart h k = cc

other_name :
    (in_use : List Text) (name other : Text)
    → has_text in_use name ≡ true
    → has_text in_use other ≡ false
    → text_eq name other ≡ false
other_name in_use name other h k = elim (Bool-cases (text_eq name other)) [
  | inl same ↦
      absurd (apart (subst (λ n. has_text in_use n ≡ true) (eq_of_text_eq name other same) h) k)
  | inr differ ↦ differ
]

find?-remove_file :
    (name other : Text) (es : List Entry)
    → text_eq name other ≡ false
    → find? (is_named name) (remove_file other es) ≡ find? (is_named name) es
unfolding remove_file
find?-remove_file name other [] h = refl
find?-remove_file name other (e ∷ es) h = elim (Bool-cases (is_named other e)) [
  | inl gone ↦
      let differs : text_eq name e.name ≡ false =
        subst (λ n. text_eq name n ≡ false) (eq_of_text_eq other e.name gone) h in
      rw (gone, differs) (find?-remove_file name other es h)
  | inr kept ↦
      rw kept (ap (λ o. if is_named name e then some e else o) (find?-remove_file name other es h))
]

sweep_loop-find? :
    (in_use : List Text) (refuses : Text → Option Error) (removed : ℕ) (name : Text)
    (es files : List Entry)
    → has_text in_use name ≡ true
    → find? (is_named name) (sweep_loop in_use refuses removed es files).1
      ≡ find? (is_named name) files
unfolding sweep_loop
sweep_loop-find? in_use refuses removed name [] files used = refl
sweep_loop-find? in_use refuses removed name (e ∷ es) files used =
    elim (Bool-cases (is_swept in_use e)) [
      | inr kept ↦
          rw (kept, sweep_loop) (sweep_loop-find? in_use refuses removed name es files used)
      | inl swept ↦ elim (Option-cases (refuses e.name)) [
        | inr (failure, refused) ↦ rw (swept, refused, sweep_loop) refl
        | inl free ↦
            rw (swept, free, sweep_loop)
              (sweep_loop-find? in_use refuses (removed + 1) name es (remove_file e.name files) used
                ∙ find?-remove_file name e.name files
                    (other_name in_use name e.name used (swept-unused in_use e swept)))
      ]
    ]

sweep-find? :
    (in_use : List Text) (name : Text) (fs : Files)
    → has_text in_use name ≡ true
    → find? (is_named name) (sweep in_use fs).1.entries ≡ find? (is_named name) fs.entries
unfolding sweep
sweep-find? in_use name fs used = elim (Option-cases fs.refuses_list) [
  | inr (failure, refused) ↦ rw (refused, sweep) refl
  | inl free ↦
      rw (free, sweep) (sweep_loop-find? in_use fs.refuses_remove 0 name fs.entries fs.entries used)
]

-- Whatever the operating system refuses, reading the directory or the removal of any of the files
-- behind those that are removed, a sweep leaves every message that is in use as it was.
pub get-sweep :
    (in_use : List Text) (name : Text) (fs : Files)
    → has_text in_use name ≡ true
    → get name (sweep in_use fs).1 ≡ get name fs
unfolding get
get-sweep in_use name fs used = elim (Result-cases (resolve name)) [
  | inl (e, bad) ↦ rw (bad, get) refl
  | inr (path, good) ↦
      let same : has_text in_use path ≡ true =
        subst (λ n. has_text in_use n ≡ true) (sym (resolve-IsName name path good).0) used in
      rw (good, get) (ap bytes_of (sweep-find? in_use path fs same))
]

-- No file of the sweep's own kind that is not in use stands in `files`, but for those in `later`.
abbrev Unswept : List Text → List Entry → List Entry → Type 0
Unswept in_use later files = All (λ e. (is_swept in_use e ≡ false) ⊎ In e later) files

remove_file-Unswept :
    (in_use : List Text) (e : Entry) (es files : List Entry)
    → Unswept in_use (e ∷ es) files
    → Unswept in_use es (remove_file e.name files)
unfolding remove_file
remove_file-Unswept in_use e es [] h = tt
remove_file-Unswept in_use e es (f ∷ files) (h, k) = elim (Bool-cases (is_named e.name f)) [
  | inl gone ↦ rw gone (remove_file-Unswept in_use e es files k)
  | inr kept ↦ rw kept (still h kept, remove_file-Unswept in_use e es files k)
]
  where
    still :
        (is_swept in_use f ≡ false) ⊎ In f (e ∷ es)
        → is_named e.name f ≡ false
        → (is_swept in_use f ≡ false) ⊎ In f es
    still (inl c) n = inl c
    still (inr (inl s)) n =
        absurd (apart (ap (text_eq e.name) (ap (λ (x : Entry). x.name) s) ∙ text_eq_refl e.name) n)
    still (inr (inr i)) n = inr i

pass-Unswept :
    (in_use : List Text) (e : Entry) (es files : List Entry)
    → is_swept in_use e ≡ false
    → Unswept in_use (e ∷ es) files
    → Unswept in_use es files
pass-Unswept in_use e es [] n h = tt
pass-Unswept in_use e es (f ∷ files) n (inl c, k) = (inl c, pass-Unswept in_use e es files n k)
pass-Unswept in_use e es (f ∷ files) n (inr (inl s), k) =
    (inl (subst (λ x. is_swept in_use x ≡ false) (sym s) n), pass-Unswept in_use e es files n k)
pass-Unswept in_use e es (f ∷ files) n (inr (inr i), k) =
    (inr i, pass-Unswept in_use e es files n k)

sweep_loop-clears :
    (in_use : List Text) (refuses : Text → Option Error) (removed : ℕ) (es files : List Entry)
    → ((name : Text) → refuses name ≡ none)
    → Unswept in_use es files
    → ((sweep_loop in_use refuses removed es files).0
        ≡ (removed + length (filter (is_swept in_use) es), none))
      × All (λ e. is_swept in_use e ≡ false) (sweep_loop in_use refuses removed es files).1
unfolding sweep_loop
sweep_loop-clears in_use refuses removed [] files free h =
    (ap (λ n. (n, none)) (omega arith), All-map _ _ files (λ e c. settled e c) h)
  where
    settled : (e : Entry) → (is_swept in_use e ≡ false) ⊎ In e [] → is_swept in_use e ≡ false
    settled e (inl c) = c
    settled e (inr i) = elim i [ ]
sweep_loop-clears in_use refuses removed (e ∷ es) files free h =
    elim (Bool-cases (is_swept in_use e)) [
      | inr kept ↦
          rw (kept, sweep_loop)
            (sweep_loop-clears in_use refuses removed es files free
              (pass-Unswept in_use e es files kept h))
      | inl swept ↦
          let (count, clean) =
            sweep_loop-clears in_use refuses (removed + 1) es (remove_file e.name files) free
              (remove_file-Unswept in_use e es files h) in
          rw (swept, free e.name, sweep_loop) (count ∙ ap (λ n. (n, none)) (omega arith), clean)
    ]

-- A sweep that is refused nothing removes every message and every temporary file that is not in use,
-- and counts them.
pub sweep-clears :
    (in_use : List Text) (fs : Files)
    → fs.refuses_list ≡ none
    → ((name : Text) → fs.refuses_remove name ≡ none)
    → ((sweep in_use fs).0 ≡ (length (filter (is_swept in_use) fs.entries), none))
      × All (λ e. is_swept in_use e ≡ false) (sweep in_use fs).1.entries
unfolding sweep
sweep-clears in_use fs listed free =
    let all =
      All-of_In (λ e. (is_swept in_use e ≡ false) ⊎ In e fs.entries) fs.entries (λ e i. inr i) in
    let (count, clean) =
      sweep_loop-clears in_use fs.refuses_remove 0 fs.entries fs.entries free all in
    rw (listed, sweep) (count ∙ ap (λ n. (n, none)) (omega arith), clean)
