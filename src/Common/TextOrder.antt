-- ===== src/Common/TextOrder.antt =====
-- Go's `<` on strings.
use Prim.Native.String.compare
use Prim.Native.String.{String, [], ◌∷◌, compare}
use mathlib.Core.Path.{◌≡◌}
use mathlib.Core.Bool.{Bool, true, false}
use text.Mathlib.Text.{is_lt}
use native.Mathlib.Omega.{arith}

abbrev pub text_less : String → String → Bool
text_less s t = is_lt (compare s t)

pub text_less_asymm : (s t : String) → text_less s t ≡ true → text_less t s ≡ false
text_less_asymm [] [] h = ground (arith, compare.nil-nil)
text_less_asymm [] (d ∷ t) h = ground (arith, compare.cons-nil d t)
text_less_asymm (c ∷ s) [] h = ground (arith, compare.cons-nil c s)
text_less_asymm (c ∷ s) (d ∷ t) h =
    ground (arith, compare.cons-cons c d s t, compare.cons-cons d c t s, text_less_asymm s t)

pub text_less_trans :
    (x y z : String) → text_less y x ≡ false → text_less z y ≡ false → text_less z x ≡ false
text_less_trans [] y [] h k = ground (arith, compare.nil-nil)
text_less_trans [] y (e ∷ z) h k = ground (arith, compare.cons-nil e z)
text_less_trans (c ∷ x) [] z h k = absurd (ground (arith, compare.nil-cons c x))
text_less_trans (c ∷ x) (d ∷ y) [] h k = absurd (ground (arith, compare.nil-cons d y))
text_less_trans (c ∷ x) (d ∷ y) (e ∷ z) h k = ground (
  arith,
  compare.cons-cons d c y x,
  compare.cons-cons e d z y,
  compare.cons-cons e c z x,
  text_less_trans x y z,
)
