-- ===== src/Store/Purge/Loop.antt =====
-- The loop of expiredUIDs in internal/store/messages_purge.go: what it leaves of a list of messages.
use nexus_mail.Base.{
  ℕ, zero, suc, ◌+◌, ◌-◌, Bool, true, false, not, ◌&&◌, ◌||◌, List, [], ◌∷◌, ◌≡◌, refl, ap, ◌∙◌,
  take, filter, filter-same, All, ltb, ◌==◌, arith, if◌then◌else◌, Bool-cases, inl, inr,
}
use nexus_mail.Base.Text.{Unicode}
use nexus_mail.Model.{Message, RetentionPolicy}
use nexus_mail.Model.Flags.{has_flag, flag_flagged}
use nexus_mail.Store.{is_in}
use nexus_mail.Store.Purge.{is_too_old, is_beyond_cap, expired_loop}

-- No two messages have one UID.
abbrev pub DistinctUids : List Message → Type 0
DistinctUids [] = Unit
DistinctUids (m ∷ ms) = All (λ x. (m.uid == x.uid) ≡ false) ms × DistinctUids ms

take-nil : (n : ℕ) → take {A = Message} n [] ≡ []
take-nil zero = refl
take-nil (suc n) = refl

take-none : (n : ℕ) (ms : List Message) → n ≡ 0 → take n ms ≡ []
take-none n ms e = ap (λ i. take i ms) e

take-cons :
    (k n : ℕ) (m : Message) (ms : List Message) → n ≡ suc k → take n (m ∷ ms) ≡ m ∷ take k ms
take-cons k n m ms e = ap (λ i. take i (m ∷ ms)) e

abbrev pub is_flagged : Unicode → Message → Bool
is_flagged u m = has_flag u m flag_flagged

module _ (u : Unicode) (now : ℕ) (policy : RetentionPolicy) where
  -- A message that the age limit would keep, and the cap counts.
  abbrev pub is_recent : Message → Bool
  is_recent m = not (is_flagged u m) && not (is_too_old now policy m)

  -- The first of a list, as many as the cap still allows.
  abbrev pub within_cap : ℕ → List Message → List Message
  within_cap kept ms =
      if ltb 0 policy.max_messages then take (policy.max_messages - kept) ms else ms

  -- An unflagged message that a list of UIDs to delete leaves out.
  abbrev pub is_left : List ℕ → Message → Bool
  is_left doomed m = not (is_flagged u m) && not (is_in doomed m.uid)

  expired-OfUids :
      (kept uid : ℕ) (ms : List Message)
      → All (λ x. (uid == x.uid) ≡ false) ms
      → is_in (expired_loop u now policy kept ms) uid ≡ false
  unfolding expired_loop is_in
  expired-OfUids kept uid [] h = refl
  expired-OfUids kept uid (m ∷ ms) h =
      ground (arith, expired-OfUids kept uid ms h.1, expired-OfUids (kept + 1) uid ms h.1, h.0)

  -- Deleting `m` too changes nothing behind it.
  is_left-behind :
      (doomed : List ℕ) (m : Message) (xs : List Message)
      → All (λ x. (m.uid == x.uid) ≡ false) xs
      → All (λ x. is_left (m.uid ∷ doomed) x ≡ is_left doomed x) xs
  unfolding is_in
  is_left-behind doomed m [] h = tt
  is_left-behind doomed m (x ∷ xs) h = (ground (arith, h.0), is_left-behind doomed m xs h.1)

  abbrev pub loop : ℕ → List Message → List ℕ
  loop = expired_loop u now policy

  module _ (kept : ℕ) (m : Message) (ms : List Message) where
    loop-flagged : is_flagged u m ≡ true → loop kept (m ∷ ms) ≡ loop kept ms
    unfolding expired_loop
    loop-flagged h = ground arith

    loop-expired :
        is_flagged u m ≡ false
        → is_too_old now policy m || is_beyond_cap policy kept ≡ true
        → loop kept (m ∷ ms) ≡ m.uid ∷ loop kept ms
    unfolding expired_loop
    loop-expired h k = ground arith

    loop-stays :
        is_flagged u m ≡ false
        → is_too_old now policy m || is_beyond_cap policy kept ≡ false
        → loop kept (m ∷ ms) ≡ loop (kept + 1) ms
    unfolding expired_loop
    loop-stays h k = ground arith

  abbrev pub left : List ℕ → List Message → List Message
  left doomed ms = filter (is_left doomed) ms

  module _ (kept : ℕ) (m : Message) (ms : List Message) where
    left-drops :
        (doomed : List ℕ)
        → All (λ x. (m.uid == x.uid) ≡ false) ms
        → left (m.uid ∷ doomed) (m ∷ ms) ≡ left doomed ms
    unfolding is_in
    left-drops doomed apart =
        let same = filter-same _ (is_left doomed) ms (is_left-behind doomed m ms apart) in
        ground (arith, same)

    left-keeps :
        (doomed : List ℕ)
        → is_flagged u m ≡ false
        → is_in doomed m.uid ≡ false
        → left doomed (m ∷ ms) ≡ m ∷ left doomed ms
    left-keeps doomed plain absent = rw (plain, absent) refl

    within_cap-passes :
        is_flagged u m ≡ false
        → is_too_old now policy m || is_beyond_cap policy kept ≡ true
        → within_cap kept (filter is_recent ms) ≡ within_cap kept (filter is_recent (m ∷ ms))
    unfolding is_beyond_cap
    within_cap-passes plain expired =
        let none_more = take-none (policy.max_messages - kept) in
        ground (arith, none_more (filter is_recent ms), none_more (m ∷ filter is_recent ms))

    within_cap-counts :
        is_flagged u m ≡ false
        → is_too_old now policy m || is_beyond_cap policy kept ≡ false
        → m ∷ within_cap (kept + 1) (filter is_recent ms)
          ≡ within_cap kept (filter is_recent (m ∷ ms))
    unfolding is_beyond_cap
    within_cap-counts plain stays =
        let rest = filter is_recent ms in
        let step =
          take-cons (policy.max_messages - (kept + 1)) (policy.max_messages - kept) m rest in
        ground (arith, step)

  -- The unflagged messages that the loop leaves are the first recent ones, up to the cap.
  pub left-is_recent :
      (kept : ℕ) (ms : List Message)
      → DistinctUids ms
      → left (loop kept ms) ms ≡ within_cap kept (filter is_recent ms)
  unfolding expired_loop
  left-is_recent kept [] d = ground (arith, take-nil (policy.max_messages - kept))
  left-is_recent kept (m ∷ ms) d = elim (Bool-cases (is_flagged u m)) [
    | inl flagged ↦
        let h = left-is_recent kept ms d.1 in
        ap (λ doomed. left doomed (m ∷ ms)) (loop-flagged kept m ms flagged) ∙ rw flagged h
    | inr plain ↦ elim (Bool-cases (is_too_old now policy m || is_beyond_cap policy kept)) [
      | inl expired ↦
          let h = left-is_recent kept ms d.1 in
          ap (λ doomed. left doomed (m ∷ ms)) (loop-expired kept m ms plain expired)
          ∙ left-drops kept m ms (loop kept ms) d.0
          ∙ h
          ∙ within_cap-passes kept m ms plain expired
      | inr stays ↦
          let h = left-is_recent (kept + 1) ms d.1 in
          let apart = expired-OfUids (kept + 1) m.uid ms d.0 in
          ap (λ doomed. left doomed (m ∷ ms)) (loop-stays kept m ms plain stays)
          ∙ left-keeps kept m ms (loop (kept + 1) ms) plain apart
          ∙ ap (◌∷◌ m) h
          ∙ within_cap-counts kept m ms plain stays
    ]
  ]

  -- A flagged message that a list of UIDs to delete leaves out.
  abbrev pub spared : List ℕ → List Message → List Message
  spared doomed ms = filter (λ m. is_flagged u m && not (is_in doomed m.uid)) ms

  spared-behind :
      (doomed : List ℕ) (m : Message) (ms : List Message)
      → All (λ x. (m.uid == x.uid) ≡ false) ms
      → spared (m.uid ∷ doomed) ms ≡ spared doomed ms
  unfolding is_in
  spared-behind doomed m [] h = refl
  spared-behind doomed m (x ∷ ms) h = ground (arith, spared-behind doomed m ms h.1, h.0)

  pub spared-all :
      (kept : ℕ) (ms : List Message)
      → DistinctUids ms
      → spared (loop kept ms) ms ≡ filter (is_flagged u) ms
  spared-all kept [] d = refl
  spared-all kept (m ∷ ms) d = elim (Bool-cases (is_flagged u m)) [
    | inl flagged ↦
        let h = spared-all kept ms d.1 in
        let apart = expired-OfUids kept m.uid ms d.0 in
        ap (λ doomed. spared doomed (m ∷ ms)) (loop-flagged kept m ms flagged)
        ∙ rw (flagged, apart) (ap (◌∷◌ m) h)
    | inr plain ↦ elim (Bool-cases (is_too_old now policy m || is_beyond_cap policy kept)) [
      | inl expired ↦
          let h = spared-all kept ms d.1 in
          ap (λ doomed. spared doomed (m ∷ ms)) (loop-expired kept m ms plain expired)
          ∙ rw plain (spared-behind (loop kept ms) m ms d.0 ∙ h)
      | inr stays ↦
          let h = spared-all (kept + 1) ms d.1 in
          ap (λ doomed. spared doomed (m ∷ ms)) (loop-stays kept m ms plain stays) ∙ rw plain h
    ]
  ]
