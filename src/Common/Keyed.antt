-- ===== src/Common/Keyed.antt =====
-- Maps whose entries stand under a key that is read off their value, and the lists of their values.
use Prim.Native.String.{String}
use mathlib.Core.Path.{◌≡◌, refl, sym, ap, subst, ◌∙◌}
use mathlib.Core.Logic.{◌≢◌, inl, inr}
use mathlib.Core.Option.{none, some, some-injective}
use mathlib.Core.List.{List, [], ◌∷◌, Permᴰ}
use text.Mathlib.TextEquality.{eq_iff}
use native.Mathlib.Omega.{arith}
use windows_machine_config_o.Common.Tests.{◌==◌, Bool-cases}
use windows_machine_config_o.Common.Lists.{All, In}
use windows_machine_config_o.Common.Sort.{All-perm, All-map}
use windows_machine_config_o.Common.Maps.{Map, lookup, insert, values, lookup-insert}

module _ {V : Type 0} (key : V → String) where
  -- Each value stands under its own key, and once.
  abbrev pub IsKeyed : Map V → Type 0
  IsKeyed [] = Unit
  IsKeyed ((k, v) ∷ m) = (key v ≡ k) × (lookup k m ≡ none) × IsKeyed m

  -- No two values have the same key.
  abbrev pub IsDistinct : List V → Type 0
  IsDistinct [] = Unit
  IsDistinct (v ∷ vs) = All (λ w. key w ≢ key v) vs × IsDistinct vs

  pub insert-IsKeyed : (v : V) (m : Map V) → IsKeyed m → IsKeyed (insert (key v) v m)
  unfolding insert lookup
  insert-IsKeyed v [] h = (refl, refl, tt)
  insert-IsKeyed v ((j, w) ∷ m) h = elim (Bool-cases (j == key v)) [
    | inl same ↦
        let eq = (eq_iff j (key v)).0 same in
        rw (same, insert, IsKeyed) (refl, sym (ap (λ i. lookup i m) eq) ∙ h.1, h.2)
    | inr other ↦
        let still : lookup j (insert (key v) v m) ≡ none =
          ground (arith, eq_iff j (key v), eq_iff (key v) j, lookup-insert (key v) j v m, h.1) in
        rw (other, insert, IsKeyed) (h.0, still, insert-IsKeyed v m h.2)
  ]

  absent-values :
      (k : String) (m : Map V) → IsKeyed m → lookup k m ≡ none → All (λ w. key w ≢ k) (values m)
  unfolding lookup
  absent-values k [] h e = tt
  absent-values k ((j, w) ∷ m) h e =
      let later : lookup k m ≡ none = ground arith in
      ((λ same. let eq = sym h.0 ∙ same in ground (arith, eq_iff j k)), absent-values k m h.2 later)

  pub values-IsDistinct : (m : Map V) → IsKeyed m → IsDistinct (values m)
  values-IsDistinct [] h = tt
  values-IsDistinct ((k, v) ∷ m) h = (
    All-map _ _ (values m) (λ w differ same. differ (same ∙ h.0)) (absent-values k m h.2 h.1),
    values-IsDistinct m h.2,
  )

  -- A value in the list is the one that the map answers for its key.
  pub In-values : (v : V) (m : Map V) → IsKeyed m → In v (values m) → lookup (key v) m ≡ some v
  unfolding lookup
  In-values v [] h i = absurd i
  In-values v ((k, w) ∷ m) h i = elim i [
    | inl same ↦
        let eq : k ≡ key v = sym h.0 ∙ ap key (sym same) in
        rw ((eq_iff k (key v)).1 eq, lookup) (ap some (sym same))
    | inr later ↦
        let rest = In-values v m h.2 later in
        ground (arith, eq_iff k (key v), h.1, ap (λ i. lookup i m), rest)
  ]

  pub IsDistinct-perm : {vs ws : List V} → Permᴰ vs ws → IsDistinct vs → IsDistinct ws
  IsDistinct-perm Permᴰ.nil h = tt
  IsDistinct-perm (Permᴰ.cons e d) h = (rw (← e) (All-perm _ d h.0), IsDistinct-perm d h.1)
  IsDistinct-perm (Permᴰ.swap {a} {b} {a'} {b'} {l} e e') h =
      let swapped : IsDistinct (b ∷ a ∷ l) =
        (((λ same. h.0.0 (sym same)), h.1.0), (h.0.1, h.1.1)) in
      subst (λ x. IsDistinct (x ∷ b' ∷ l)) e' (subst (λ y. IsDistinct (b ∷ y ∷ l)) e swapped)
  IsDistinct-perm (Permᴰ.trans d d') h = IsDistinct-perm d' (IsDistinct-perm d h)

  pub lookup-key : (k : String) (v : V) (m : Map V) → IsKeyed m → lookup k m ≡ some v → key v ≡ k
  unfolding lookup
  lookup-key k v [] h e = absurd (ground arith)
  lookup-key k v ((j, w) ∷ m) h e = elim (Bool-cases (j == k)) [
    | inl same ↦
        let eq : some w ≡ some v = rw (same, lookup) at e in
        sym (ap key (some-injective w v eq)) ∙ h.0 ∙ (eq_iff j k).0 same
    | inr other ↦ lookup-key k v m h.2 (ground arith)
  ]

module _ {V : Type 0} where
  pub lookup→In : (k : String) (v : V) (m : Map V) → lookup k m ≡ some v → In v (values m)
  unfolding lookup
  lookup→In k v [] e = absurd (ground arith)
  lookup→In k v ((j, w) ∷ m) e = elim (Bool-cases (j == k)) [
    | inl same ↦
        let eq : some w ≡ some v = rw (same, lookup) at e in inl (sym (some-injective w v eq))
    | inr other ↦ inr (lookup→In k v m (ground arith))
  ]
