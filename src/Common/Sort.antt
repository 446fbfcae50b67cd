-- ===== src/Common/Sort.antt =====
-- `sort.Slice(x, less)`: what its documentation promises, as an interface. The order of elements of
-- which neither is less is left open, and no theorem rests on it. Insertion sort is one such routine,
-- and is what Go runs on a dozen elements or fewer.
use mathlib.Core.Path.{◌≡◌, refl}
use mathlib.Core.Bool.{Bool, true, false}
use mathlib.Core.Logic.{inl, inr}
use mathlib.Core.List.{List, [], ◌∷◌, Permᴰ}
use mathlib.Core.List.Permᴰ
use native.Mathlib.Omega.{arith}
use windows_machine_config_o.Common.Tests.{if◌then◌else◌, Bool-cases}
use windows_machine_config_o.Common.Lists.{All, In, length}

module _ {A : Type 0} (less : A → A → Bool) where
  -- No later element is less than an earlier one.
  abbrev pub IsSorted : List A → Type 0
  IsSorted [] = Unit
  IsSorted (x ∷ xs) = All (λ y. less y x ≡ false) xs × IsSorted xs

  pub record Sorter : Type 0 where
    pub sort : List A → List A
    pub sort-perm : (xs : List A) → Permᴰ (sort xs) xs
    pub sort-IsSorted : (xs : List A) → IsSorted (sort xs)

  pub record IsOrder : Type 0 where
    pub asymm : (x y : A) → less x y ≡ true → less y x ≡ false
    pub trans : (x y z : A) → less y x ≡ false → less z y ≡ false → less z x ≡ false

module _ {A : Type 0} (P : A → Type 0) where
  pub All-perm : {xs ys : List A} → Permᴰ xs ys → All P xs → All P ys
  All-perm Permᴰ.nil h = tt
  All-perm (Permᴰ.cons e d) h = (rw (← e) h.0, All-perm d h.1)
  All-perm (Permᴰ.swap e e') h = (rw (← e') h.1.0, (rw (← e) h.0, h.1.1))
  All-perm (Permᴰ.trans d d') h = All-perm d' (All-perm d h)

  pub In→All : (xs : List A) → ((a : A) → In a xs → P a) → All P xs
  In→All [] h = tt
  In→All (x ∷ xs) h = (h x (inl refl), In→All xs (λ a m. h a (inr m)))

  pub All→In : (a : A) (xs : List A) → All P xs → In a xs → P a
  All→In a [] h m = absurd m
  All→In a (x ∷ xs) h m = elim m [ inl e ↦ rw e h.0 | inr t ↦ All→In a xs h.1 t ]

module _ {A : Type 0} where
  pub All-map : (P Q : A → Type 0) (xs : List A) → ((a : A) → P a → Q a) → All P xs → All Q xs
  All-map P Q [] f h = tt
  All-map P Q (x ∷ xs) f h = (f x h.0, All-map P Q xs f h.1)

  pub In-perm : (a : A) {xs ys : List A} → Permᴰ xs ys → In a xs → In a ys
  In-perm a {xs} {ys} d m =
      let back = In→All (λ b. In b ys) ys (λ b k. k) in
      All→In (λ b. In b ys) a xs (All-perm (λ b. In b ys) (Permᴰ.symm d) back) m

  pub length-perm : {xs ys : List A} → Permᴰ xs ys → length xs ≡ length ys
  length-perm Permᴰ.nil = refl
  length-perm (Permᴰ.cons e d) = omega (arith, length-perm d)
  length-perm (Permᴰ.swap e e') = refl
  length-perm (Permᴰ.trans d d') = omega (arith, length-perm d, length-perm d')

module _ {A : Type 0} (less : A → A → Bool) where
  unfoldable pub place : A → List A → List A
  place x [] = x ∷ []
  place x (y ∷ ys) = let rest = place x ys in if less y x then y ∷ rest else x ∷ y ∷ ys

  unfoldable pub insertion_sort : List A → List A
  unfolding place
  insertion_sort [] = []
  insertion_sort (x ∷ xs) = place x (insertion_sort xs)

  place-perm : (x : A) (ys : List A) → Permᴰ (place x ys) (x ∷ ys)
  unfolding place
  place-perm x [] = Permᴰ.refl _
  place-perm x (y ∷ ys) = elim (Bool-cases (less y x)) [
    | inl e ↦ rw e (Permᴰ.trans (Permᴰ.cons refl (place-perm x ys)) (Permᴰ.swap refl refl))
    | inr e ↦ rw e (Permᴰ.refl _)
  ]

  pub insertion_sort-perm : (xs : List A) → Permᴰ (insertion_sort xs) xs
  unfolding insertion_sort
  insertion_sort-perm [] = Permᴰ.nil
  insertion_sort-perm (x ∷ xs) =
      Permᴰ.trans (place-perm x (insertion_sort xs)) (Permᴰ.cons refl (insertion_sort-perm xs))

  module _ (order : IsOrder less) where
    place-IsSorted : (x : A) (ys : List A) → IsSorted less ys → IsSorted less (place x ys)
    unfolding place
    place-IsSorted x [] h = (tt, tt)
    place-IsSorted x (y ∷ ys) h = elim (Bool-cases (less y x)) [
      | inl e ↦
          let first : All (λ z. less z y ≡ false) (x ∷ ys) = (order.asymm y x e, h.0) in
          rw e (
            All-perm (λ z. less z y ≡ false) (Permᴰ.symm (place-perm x ys)) first,
            place-IsSorted x ys h.1,
          )
      | inr e ↦
          let later =
            All-map (λ z. less z y ≡ false) (λ z. less z x ≡ false) ys
              (λ z k. order.trans x y z e k) h.0 in
          rw e ((e, later), h)
    ]

    pub insertion_sort-IsSorted : (xs : List A) → IsSorted less (insertion_sort xs)
    unfolding insertion_sort
    insertion_sort-IsSorted [] = tt
    insertion_sort-IsSorted (x ∷ xs) =
        place-IsSorted x (insertion_sort xs) (insertion_sort-IsSorted xs)

    unfoldable pub insertion_sorter : Sorter less
    insertion_sorter = record {
      sort = insertion_sort;
      sort-perm = insertion_sort-perm;
      sort-IsSorted = insertion_sort-IsSorted;
    }
