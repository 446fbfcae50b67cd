-- ===== src/Common/Slices.antt =====
-- Go's slices and `reflect.DeepEqual`. A slice is nil or holds items: `len` and `range` do not tell a
-- nil slice from an empty one, and `DeepEqual` does.
use Prim.Native.Nat.{ℕ}
use Prim.Native.String.{String}
use mathlib.Core.Path.{◌≡◌}
use mathlib.Core.Logic.{◌↔◌}
use mathlib.Core.Bool.{Bool, true, false, ◌&&◌}
use mathlib.Core.List.{List, [], ◌∷◌}
use text.Mathlib.TextEquality.{eq_iff}
use native.Mathlib.Omega.{arith}
use windows_machine_config_o.Common.Tests.{◌==◌, nat_eq}

pub data Slice (A : Type 0) : Type 0 where
  nil : Slice A
  items : List A → Slice A

-- What `range` goes through.
abbrev pub elems : {A : Type 0} → Slice A → List A
elems nil = []
elems (items xs) = xs

-- `reflect.DeepEqual` at a type: a test that decides equality.
pub record DeepEqual (A : Type 0) : Type 0 where
  pub test : A → A → Bool
  pub test_iff : (a b : A) → (test a b ≡ true) ↔ (a ≡ b)

abbrev pub deep_equal : {A : Type 0} ⦃e : DeepEqual A⦄ → A → A → Bool
deep_equal ⦃e⦄ = e.test

pub deep_equal_iff : {A : Type 0} ⦃e : DeepEqual A⦄ (a b : A) → (deep_equal a b ≡ true) ↔ (a ≡ b)
deep_equal_iff ⦃e⦄ = e.test_iff

pub nat_eq_iff : (a b : ℕ) → (nat_eq a b ≡ true) ↔ (a ≡ b)
nat_eq_iff a b = ground arith

abbrev pub bool_eq : Bool → Bool → Bool
bool_eq true true = true
bool_eq false false = true
bool_eq _ _ = false

pub bool_eq_iff : (a b : Bool) → (bool_eq a b ≡ true) ↔ (a ≡ b)
bool_eq_iff a b = ground arith

instance abbrev pub ℕ_deep_equal : DeepEqual ℕ
ℕ_deep_equal = record { test = nat_eq; test_iff = nat_eq_iff }

instance abbrev pub Bool_deep_equal : DeepEqual Bool
Bool_deep_equal = record { test = bool_eq; test_iff = bool_eq_iff }

instance abbrev pub String_deep_equal : DeepEqual String
String_deep_equal = record { test = ◌==◌; test_iff = eq_iff }

module _ {A : Type 0} ⦃e : DeepEqual A⦄ where
  abbrev pub list_equal : List A → List A → Bool
  list_equal [] [] = true
  list_equal (x ∷ xs) (y ∷ ys) = e.test x y && list_equal xs ys
  list_equal _ _ = false

  pub list_equal_iff : (xs ys : List A) → (list_equal xs ys ≡ true) ↔ (xs ≡ ys)
  list_equal_iff [] [] = ground arith
  list_equal_iff [] (y ∷ ys) = ground arith
  list_equal_iff (x ∷ xs) [] = ground arith
  list_equal_iff (x ∷ xs) (y ∷ ys) = ground (arith, e.test_iff x y, list_equal_iff xs ys)

  abbrev pub slice_equal : Slice A → Slice A → Bool
  slice_equal nil nil = true
  slice_equal (items xs) (items ys) = list_equal xs ys
  slice_equal _ _ = false

  pub slice_equal_iff : (s t : Slice A) → (slice_equal s t ≡ true) ↔ (s ≡ t)
  slice_equal_iff nil nil = ground arith
  slice_equal_iff nil (items ys) = ground arith
  slice_equal_iff (items xs) nil = ground arith
  slice_equal_iff (items xs) (items ys) = ground (arith, list_equal_iff xs ys)

  instance abbrev pub List_deep_equal : DeepEqual (List A)
  List_deep_equal = record { test = list_equal; test_iff = list_equal_iff }

  instance abbrev pub Slice_deep_equal : DeepEqual (Slice A)
  Slice_deep_equal = record { test = slice_equal; test_iff = slice_equal_iff }
