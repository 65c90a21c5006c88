-- ===== src/Sync/Trace.antt =====
-- Predicates on traces that the code keeps, with one rule for each way in which Sync.antt builds
-- code.
use nexus_mail.Base.{Bool, true, false, List, [], ◌∷◌, if◌then◌else◌}
use nexus_mail.Base.Text.{Text}
use nexus_mail.Model.Errors.{Error, Result, ok, err}
use nexus_mail.Sync.{
  Outside, Store, World, Run, Event, continue, ◌>>=◌, pure, fail, attempt, ignored, wrapped,
  on_store, on_outside, does, log, reads, deferred, for_each,
}

module _ {env : Outside} {st : Store} where
  -- Whatever `m` returns, the trace that it leaves has `P` if the trace that it found has.
  pub record Keeps {A : Type 0} (P : List Event → Type 0) (m : Run env st A) : Type 0 where
    pub at : (w : World env st) → P w.trace → P (m w).1.trace

module _ {env : Outside} {st : Store} {P : List Event → Type 0} where
  pub Keeps-on_store :
      {A : Type 0} (f : st.State → Result A × st.State) → Keeps P (on_store {env = env} {st = st} f)
  unfolding on_store
  Keeps-on_store f = record { at = λ w h. h }

  pub Keeps-on_outside :
      {A : Type 0} (f : env.State → Result A × env.State)
      → Keeps P (on_outside {env = env} {st = st} f)
  unfolding on_outside
  Keeps-on_outside f = record { at = λ w h. h }

  pub Keeps-does : (f : env.State → env.State) → Keeps P (does {env = env} {st = st} f)
  unfolding does
  Keeps-does f = record { at = λ w h. h }

  pub Keeps-reads : {A : Type 0} (f : env.State → A) → Keeps P (reads {env = env} {st = st} f)
  unfolding reads
  Keeps-reads f = record { at = λ w h. h }

  pub Keeps-pure : {A : Type 0} (value : A) → Keeps P (pure {env = env} {st = st} value)
  unfolding pure
  Keeps-pure value = record { at = λ w h. h }

  pub Keeps-fail : {A : Type 0} (cause : Error) → Keeps P (fail {env = env} {st = st} {A = A} cause)
  unfolding fail
  Keeps-fail cause = record { at = λ w h. h }

  -- An event that the predicate allows on top of every trace.
  pub Keeps-log :
      (e : Event) → ((t : List Event) → P t → P (e ∷ t)) → Keeps P (log {env = env} {st = st} e)
  unfolding log
  Keeps-log e allowed = record { at = λ w h. allowed w.trace h }

  pub Keeps-attempt : {A : Type 0} (m : Run env st A) → Keeps P m → Keeps P (attempt m)
  unfolding attempt
  Keeps-attempt m k = record { at = k.at }

  pub Keeps-ignored : {A : Type 0} (m : Run env st A) → Keeps P m → Keeps P (ignored m)
  unfolding ignored
  Keeps-ignored m k = record { at = k.at }

  pub Keeps-wrapped :
      {A : Type 0} (said : Text) (m : Run env st A) → Keeps P m → Keeps P (wrapped said m)
  unfolding wrapped
  Keeps-wrapped said m k = record { at = k.at }

  pub Keeps-deferred :
      {A : Type 0} (close : env.State → env.State) (m : Run env st A)
      → Keeps P m
      → Keeps P (deferred close m)
  unfolding deferred
  Keeps-deferred close m k = record { at = k.at }

  Keeps-continue :
      {A B : Type 0} (r : Result A) (f : A → Run env st B)
      → ((a : A) → Keeps P (f a))
      → Keeps P (continue r f)
  Keeps-continue (ok a) f k = k a
  Keeps-continue (err e) f k = record { at = λ w h. h }

  pub Keeps-if :
      {A : Type 0} (test : Bool) (here there : Run env st A)
      → Keeps P here
      → Keeps P there
      → Keeps P (if test then here else there)
  Keeps-if false here there k_here k_there = k_there
  Keeps-if true here there k_here k_there = k_here

  pub Keeps-bind :
      {A B : Type 0} (first : Run env st A) (next : A → Run env st B)
      → Keeps P first
      → ((a : A) → Keeps P (next a))
      → Keeps P (first >>= next)
  unfolding ◌>>=◌
  Keeps-bind first next k_first k_next = record {
    at = λ w had.
        let (answer, w') = first w in (Keeps-continue answer next k_next).at w' (k_first.at w had);
  }

  pub Keeps-for_each :
      {A : Type 0} (f : A → Run env st (Unit {0})) (xs : List A)
      → ((x : A) → Keeps P (f x))
      → Keeps P (for_each f xs)
  unfolding for_each
  Keeps-for_each f [] k = Keeps-pure tt
  Keeps-for_each f (x ∷ xs) k =
      Keeps-bind (f x) (λ _. for_each f xs) (k x) (λ _. Keeps-for_each f xs k)

pub ruleset keeps_rules = (
  Keeps-pure, Keeps-fail, Keeps-on_store, Keeps-on_outside, Keeps-does, Keeps-reads, Keeps-attempt,
  Keeps-ignored, Keeps-wrapped, Keeps-deferred, Keeps-bind, Keeps-if, Keeps-for_each,
)
