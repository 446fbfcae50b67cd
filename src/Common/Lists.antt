-- ===== src/Common/Lists.antt =====
-- Lists measured by native numbers, with predicates that compute.
use Prim.Native.Nat.{ℕ, suc, ◌+◌}
use mathlib.Core.Path.{◌≡◌, refl, ap}
use mathlib.Core.Logic.{◌⊎◌, inl, inr}
use mathlib.Core.Bool.{Bool, true, false, ◌||◌}
use mathlib.Core.List.{List, [], ◌∷◌, ◌++◌}
use native.Mathlib.Omega.{arith}
use windows_machine_config_o.Common.Tests.{if◌then◌else◌, Bool-cases}

module _ {ℓ} {A : Type ℓ} where
  -- Go's `len`.
  abbrev pub length : List A → ℕ
  length [] = 0
  length (x ∷ xs) = suc (length xs)

  pub length-append : (xs ys : List A) → length (xs ++ ys) ≡ length xs + length ys
  length-append [] ys = omega arith
  length-append (x ∷ xs) ys = omega (arith, length-append xs ys)

  -- Some entry passes the test.
  abbrev pub any : (A → Bool) → List A → Bool
  any p [] = false
  any p (x ∷ xs) = p x || any p xs

module _ {ℓ κ} {A : Type ℓ} where
  abbrev pub All : (A → Type κ) → List A → Type κ
  All P [] = Unit
  All P (x ∷ xs) = P x × All P xs

module _ {A : Type 0} where
  -- Membership, as a type whose evidence may be matched.
  abbrev pub In : A → List A → Type 0
  In a [] = ⊥
  In a (x ∷ xs) = (a ≡ x) ⊎ In a xs

  pub In-append_left : (a : A) (xs ys : List A) → In a xs → In a (xs ++ ys)
  In-append_left a [] ys h = absurd h
  In-append_left a (x ∷ xs) ys h = elim h [ inl e ↦ inl e | inr t ↦ inr (In-append_left a xs ys t) ]

  pub In-append_right : (a : A) (xs ys : List A) → In a ys → In a (xs ++ ys)
  In-append_right a [] ys h = h
  In-append_right a (x ∷ xs) ys h = inr (In-append_right a xs ys h)

module _ {A : Type 0} (test : A → Bool) where
  -- The loop that appends the items which pass a test to an empty slice.
  unfoldable pub keep : List A → List A
  keep [] = []
  keep (x ∷ xs) = let rest = keep xs in if test x then x ∷ rest else rest

  pub In-keep : (a : A) (xs : List A) → In a xs → test a ≡ true → In a (keep xs)
  unfolding keep
  In-keep a [] i e = absurd i
  In-keep a (x ∷ xs) i e = elim (Bool-cases (test x)) [
    | inl kept ↦ rw kept (elim i [ inl same ↦ inl same | inr later ↦ inr (In-keep a xs later e) ])
    | inr dropped ↦
        rw dropped
          (elim i [ inl same ↦ absurd (cc (ap test same)) | inr later ↦ In-keep a xs later e ])
  ]

  pub In-of_keep : (a : A) (xs : List A) → In a (keep xs) → In a xs × (test a ≡ true)
  unfolding keep
  In-of_keep a [] i = absurd i
  In-of_keep a (x ∷ xs) i = elim (Bool-cases (test x)) [
    | inl kept ↦
        let j : In a (x ∷ keep xs) = rw kept at i in
        elim j [
          | inl same ↦ (inl same, cc (ap test same))
          | inr later ↦ let (k, e) = In-of_keep a xs later in (inr k, e)
        ]
    | inr dropped ↦
        let j : In a (keep xs) = rw dropped at i in let (k, e) = In-of_keep a xs j in (inr k, e)
  ]

pub List-cases : {A : Type 0} (xs : List A) → (xs ≡ []) ⊎ ((x : A) × (r : List A) × (xs ≡ x ∷ r))
List-cases [] = inl refl
List-cases (x ∷ xs) = inr (x, xs, refl)
