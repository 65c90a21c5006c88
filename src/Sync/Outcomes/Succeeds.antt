-- ===== src/Sync/Outcomes/Succeeds.antt =====
-- Code that returns no error, with one rule for each way in which Sync.antt builds code.
use nexus_mail.Base.{Bool, true, false, List, [], ◌∷◌, ◌≡◌, refl, if◌then◌else◌}
use nexus_mail.Model.Errors.{Result, ok, err, is_ok}
use nexus_mail.Sync.{
  Outside, Store, World, Run, Event, ◌>>=◌, continue, pure, attempt, ignored, on_store, log, reads,
  deferred, for_each,
}

module _ {env : Outside} {st : Store} where
  pub record Succeeds {A : Type 0} (m : Run env st A) : Type 0 where
    pub at : (w : World env st) → is_ok (m w).0 ≡ true

  pub Succeeds-pure : {A : Type 0} (a : A) → Succeeds (pure {env = env} {st = st} a)
  unfolding pure
  Succeeds-pure a = record { at = λ w. refl }

  pub Succeeds-reads : {A : Type 0} (f : env.State → A) → Succeeds (reads {env = env} {st = st} f)
  unfolding reads
  Succeeds-reads f = record { at = λ w. refl }

  pub Succeeds-log : (e : Event) → Succeeds (log {env = env} {st = st} e)
  unfolding log
  Succeeds-log e = record { at = λ w. refl }

  pub Succeeds-attempt : {A : Type 0} (m : Run env st A) → Succeeds (attempt m)
  unfolding attempt
  Succeeds-attempt m = record { at = λ w. refl }

  pub Succeeds-ignored : {A : Type 0} (m : Run env st A) → Succeeds (ignored m)
  unfolding ignored
  Succeeds-ignored m = record { at = λ w. refl }

  pub Succeeds-deferred :
      {A : Type 0} (close : env.State → env.State) (m : Run env st A)
      → Succeeds m
      → Succeeds (deferred close m)
  unfolding deferred
  Succeeds-deferred close m k = record { at = k.at }

  Succeeds-continue :
      {A B : Type 0} (r : Result A) (f : A → Run env st B)
      → is_ok r ≡ true
      → ((a : A) → Succeeds (f a))
      → Succeeds (continue r f)
  Succeeds-continue (ok a) f h k = k a
  Succeeds-continue (err e) f h k = record { at = λ w. h }

  pub Succeeds-bind :
      {A B : Type 0} (m : Run env st A) (f : A → Run env st B)
      → Succeeds m
      → ((a : A) → Succeeds (f a))
      → Succeeds (m >>= f)
  unfolding ◌>>=◌
  Succeeds-bind m f k_m k_f = record {
    at = λ w. let (r, w') = m w in (Succeeds-continue r f (k_m.at w) k_f).at w';
  }

  pub Succeeds-if :
      {A : Type 0} (b : Bool) (here there : Run env st A)
      → Succeeds here
      → Succeeds there
      → Succeeds (if b then here else there)
  Succeeds-if true here there k_here k_there = k_here
  Succeeds-if false here there k_here k_there = k_there

  pub Succeeds-for_each :
      {A : Type 0} (f : A → Run env st (Unit {0})) (xs : List A)
      → ((x : A) → Succeeds (f x))
      → Succeeds (for_each f xs)
  unfolding for_each
  Succeeds-for_each f [] k = Succeeds-pure tt
  Succeeds-for_each f (x ∷ xs) k =
      Succeeds-bind (f x) (λ _. for_each f xs) (k x) (λ _. Succeeds-for_each f xs k)

  pub Succeeds-on_store :
      {A : Type 0} (f : st.State → Result A × st.State)
      → ((s : st.State) → is_ok (f s).0 ≡ true)
      → Succeeds (on_store {env = env} {st = st} f)
  unfolding on_store
  Succeeds-on_store f h = record { at = λ w. h w.db }

pub ruleset succeeds_rules = (
  Succeeds-pure, Succeeds-reads, Succeeds-log, Succeeds-attempt, Succeeds-ignored,
  Succeeds-deferred, Succeeds-bind, Succeeds-if, Succeeds-for_each,
)
