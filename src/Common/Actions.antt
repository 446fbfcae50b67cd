-- ===== src/Common/Actions.antt =====
-- Calls that change a state and may fail. The state comes back behind an error too, since what was
-- done stays done.
use mathlib.Core.Path.{◌≡◌, refl, ap, ◌∙◌}
use mathlib.Core.Bool.{Bool, true, false}
use mathlib.Core.Logic.{◌≢◌, inl, inr}
use mathlib.Core.List.{List, [], ◌∷◌}
use mathlib.Core.Option.{Option, none, some}
use native.Mathlib.Omega.{arith}
use windows_machine_config_o.Common.Tests.{Option-cases, Bool-cases}
use windows_machine_config_o.Common.Lists.{In}
use windows_machine_config_o.Common.Results.{Result, ok, err, Result-cases}

abbrev pub Action : Type 0 → Type 0 → Type 0 → Type 0
Action S E A = S → S × Result E A

module _ {S E : Type 0} where
  unfoldable pub pure : {A : Type 0} → A → Action S E A
  pure a s = (s, ok a)

  unfoldable pub fail : {A : Type 0} → E → Action S E A
  fail e s = (s, err e)

  -- A call that only reads; `none` is its error.
  unfoldable pub reads : {A : Type 0} → E → (S → Option A) → Action S E A
  reads e f s = (s, elim (f s) [ none ↦ err e | some a ↦ ok a ])

  -- A call that only acts, and answers whether there was no error.
  unfoldable pub acts : E → (S → S × Bool) → Action S E (Unit {0})
  acts e f s = ((f s).0, elim (f s).1 [ true ↦ ok tt | false ↦ err e ])

  infixl 5 ◌>>=◌ ◌>>◌
  unfoldable pub ◌>>=◌ : {A B : Type 0} → Action S E A → (A → Action S E B) → Action S E B
  ◌>>=◌ m f s = elim (m s).1 [ err e ↦ ((m s).0, err e) | ok a ↦ f a (m s).0 ]

  abbrev pub ◌>>◌ : {A B : Type 0} → Action S E A → Action S E B → Action S E B
  m >> k = m >>= λ _. k

  -- `if done { return nil }` before the rest.
  unfoldable pub skip_if : Bool → Action S E (Unit {0}) → Action S E (Unit {0})
  skip_if true m = pure tt
  skip_if false m = m

  -- The loop `for _, x := range xs` that returns at the first error.
  unfoldable pub each : {A : Type 0} → (A → Action S E (Unit {0})) → List A → Action S E (Unit {0})
  each f [] = pure tt
  each f (x ∷ xs) = f x >> each f xs

  module _ {A B : Type 0} (m : Action S E A) (f : A → Action S E B) where
    -- A chain that succeeds went through a success of its first call.
    pub bind-ok :
        (s : S) (b : B)
        → ((m >>= f) s).1 ≡ ok b
        → (a : A) × ((m s).1 ≡ ok a)
          × ((f a (m s).0).1 ≡ ok b)
          × (((m >>= f) s).0 ≡ (f a (m s).0).0)
    unfolding ◌>>=◌
    bind-ok s b e = elim (Result-cases (m s).1) [
      | inl (a, h) ↦ (a, h, rw (h, ◌>>=◌) at e, rw (h, ◌>>=◌) refl)
      | inr (x, h) ↦ absurd (ground (arith, rw (h, ◌>>=◌) at e))
    ]

module _ {S E A : Type 0} (e : E) (f : S → Option A) where
  pub reads-some : (s : S) (a : A) → (reads e f s).1 ≡ ok a → f s ≡ some a
  unfolding reads
  reads-some s a h = elim (Option-cases (f s)) [
    | inl none_read ↦ absurd (ground (arith, rw (none_read, reads) at h))
    | inr (b, read) ↦ ground (arith, rw (read, reads) at h)
  ]

-- What a chain does behind a success.
pub bind-success :
    {S E A B : Type 0} (m : Action S E A) (f : A → Action S E B) (s : S) (a : A)
    → (m s).1 ≡ ok a
    → (m >>= f) s ≡ f a (m s).0
unfolding ◌>>=◌
bind-success m f s a e = rw (e, ◌>>=◌) refl

-- A call that does not answer one particular error.
module _ {S E : Type 0} (x : E) where
  unfoldable pub Avoids : {A : Type 0} → Action S E A → S → Type 0
  Avoids m s = (m s).1 ≢ err x

  pure-Avoids : {A : Type 0} (a : A) (s : S) → Avoids (pure a) s
  unfolding Avoids pure
  pure-Avoids a s h = ground arith

  pub fail-Avoids : (A : Type 0) (e : E) (s : S) → e ≢ x → Avoids {A = A} (fail e) s
  unfolding Avoids fail
  fail-Avoids A e s other h = other (ground arith)

  pub reads-Avoids : {A : Type 0} (e : E) (f : S → Option A) (s : S) → e ≢ x → Avoids (reads e f) s
  unfolding Avoids reads
  reads-Avoids e f s other h = elim (Option-cases (f s)) [
    | inl none_read ↦ other (ground (arith, rw (none_read, reads) at h))
    | inr (a, read) ↦ absurd (ground (arith, rw (read, reads) at h))
  ]

  pub acts-Avoids : (e : E) (f : S → S × Bool) (s : S) → e ≢ x → Avoids (acts e f) s
  unfolding Avoids acts
  acts-Avoids e f s other h = elim (Bool-cases (f s).1) [
    | inl done ↦ absurd (ground (arith, rw (done, acts) at h))
    | inr failed ↦ other (ground (arith, rw (failed, acts) at h))
  ]

  pub bind-Avoids :
      {A B : Type 0} (m : Action S E A) (f : A → Action S E B) (s : S)
      → Avoids m s
      → ((a : A) → (m s).1 ≡ ok a → Avoids (f a) (m s).0)
      → Avoids (m >>= f) s
  unfolding Avoids ◌>>=◌
  bind-Avoids m f s first next h = elim (Result-cases (m s).1) [
    | inl (a, e) ↦ next a e (rw (e, ◌>>=◌) at h)
    | inr (y, e) ↦ let same : y ≡ x = ground (arith, rw (e, ◌>>=◌) at h) in first (e ∙ ap err same)
  ]

  pub skip_if-Avoids :
      (b : Bool) (m : Action S E (Unit {0})) (s : S) → Avoids m s → Avoids (skip_if b m) s
  unfolding skip_if
  skip_if-Avoids true m s h = pure-Avoids tt s
  skip_if-Avoids false m s h = h

  -- A loop whose rounds keep an invariant under which no round answers the error.
  pub each-Avoids :
      {A : Type 0} (P : S → Type 0) (f : A → Action S E (Unit {0})) (xs : List A) (s : S)
      → ((a : A) (t : S) → In a xs → P t → Avoids (f a) t)
      → ((a : A) (t : S) → P t → P (f a t).0)
      → P s
      → Avoids (each f xs) s
  unfolding each
  each-Avoids P f [] s avoids keeps h = pure-Avoids tt s
  each-Avoids P f (y ∷ ys) s avoids keeps h =
      bind-Avoids (f y) (λ _. each f ys) s (avoids y s (inl refl) h)
        (λ _ _. each-Avoids P f ys (f y s).0 (λ a t i. avoids a t (inr i)) keeps (keeps y s h))

-- What may change in one call: a relation of the states before and behind it.
pub record Frame (S : Type 0) : Type 1 where
  pub Same : S → S → Type 0
  pub same_refl : (s : S) → Same s s
  pub same_trans : (s t u : S) → Same s t → Same t u → Same s u

module _ {S : Type 0} (frame : Frame S) where
  open frame use {Same}

  unfoldable pub Keeps : {E A : Type 0} → Action S E A → Type 0
  Keeps m = (s : S) → Same s (m s).0

  pub pure-Keeps : {A : Type 0} (E : Type 0) (a : A) → Keeps {E = E} (pure a)
  unfolding Keeps pure
  pure-Keeps E a = frame.same_refl

  pub fail-Keeps : {E : Type 0} (A : Type 0) (e : E) → Keeps {A = A} (fail e)
  unfolding Keeps fail
  fail-Keeps A e = frame.same_refl

  pub reads-Keeps : {E A : Type 0} (e : E) (f : S → Option A) → Keeps (reads e f)
  unfolding Keeps reads
  reads-Keeps e f = frame.same_refl

  pub acts-Keeps :
      {E : Type 0} (e : E) (f : S → S × Bool) → ((s : S) → Same s (f s).0) → Keeps (acts e f)
  unfolding Keeps acts
  acts-Keeps e f h = h

  pub bind-Keeps :
      {E A B : Type 0} (m : Action S E A) (f : A → Action S E B)
      → Keeps m
      → ((a : A) → Keeps (f a))
      → Keeps (m >>= f)
  unfolding ◌>>=◌ Keeps
  bind-Keeps m f hm hf s = elim (Result-cases (m s).1) [
    | inr (x, h) ↦ rw (h, ◌>>=◌) (hm s)
    | inl (a, h) ↦ rw (h, ◌>>=◌) (frame.same_trans s (m s).0 _ (hm s) (hf a (m s).0))
  ]

  pub skip_if-Keeps :
      {E : Type 0} (b : Bool) (m : Action S E (Unit {0})) → Keeps m → Keeps (skip_if b m)
  unfolding skip_if
  skip_if-Keeps true m h = pure-Keeps _ tt
  skip_if-Keeps false m h = h

  pub each-Keeps :
      {E A : Type 0} (f : A → Action S E (Unit {0})) (xs : List A)
      → ((a : A) → Keeps (f a))
      → Keeps (each f xs)
  unfolding each
  each-Keeps f [] h = pure-Keeps _ tt
  each-Keeps f (x ∷ xs) h = bind-Keeps (f x) (λ _. each f xs) (h x) (λ _. each-Keeps f xs h)
