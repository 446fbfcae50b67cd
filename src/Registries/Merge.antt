-- ===== src/Registries/Merge.antt =====
-- What `mergeMirrors` and `mergeMirrorSets` of pkg/registries/registries.go keep.
use windows_machine_config_o.Common.{
  String, ◌≡◌, refl, ap, ◌∙◌, inl, inr, Bool, not, ◌&&◌, ◌||◌, Option, none, some, List, [], ◌∷◌,
  Map, lookup, insert, values, ◌==◌, if◌then◌else◌, arith, eq_iff, lookup-insert, Bool-cases,
  Option-cases, IsKeyed, IsDistinct, insert-IsKeyed, values-IsDistinct,
}
use windows_machine_config_o.Registries.{
  Mirror, add_existing, add_new_mirror, add_new, merge_mirrors,
}

-- Two answers of which either may be missing.
abbrev pub either : Option Bool → Option Bool → Option Bool
either none y = y
either (some a) none = some a
either (some a) (some b) = some (a || b)

either_assoc : (x y z : Option Bool) → either (either x y) z ≡ either x (either y z)
either_assoc none y z = refl
either_assoc (some a) none z = refl
either_assoc (some a) (some b) none = refl
either_assoc (some a) (some b) (some c) = ground arith

-- Whether a host is listed, and if so, whether some entry of it may resolve tags.
abbrev pub tags_of : String → List Mirror → Option Bool
tags_of h [] = none
tags_of h (m ∷ ms) =
    if m.host == h then either (some m.resolve_tags) (tags_of h ms) else tags_of h ms

-- The same, by the last entry of the host alone.
abbrev pub last_tags : String → List Mirror → Option Bool
last_tags h [] = none
last_tags h (m ∷ ms) = elim (last_tags h ms) [
  | some t ↦ some t
  | none ↦ if m.host == h then some m.resolve_tags else none
]

abbrev tags : Option Mirror → Option Bool
tags none = none
tags (some m) = some m.resolve_tags

abbrev first_of : Option Bool → Option Bool → Option Bool
first_of (some a) y = some a
first_of none y = y

existing_tags :
    (h : String) (ms : List Mirror) (u : Map Mirror)
    → tags (lookup h (add_existing ms u)) ≡ first_of (last_tags h ms) (tags (lookup h u))
unfolding add_existing
existing_tags h [] u = refl
existing_tags h (m ∷ ms) u =
    ground
      (arith, eq_iff m.host h, lookup-insert m.host h m u, existing_tags h ms (insert m.host m u))

new_mirror_tags :
    (h : String) (m : Mirror) (u : Map Mirror)
    → tags (lookup h (add_new_mirror m u)) ≡ (
        if m.host == h then either (tags (lookup h u)) (some m.resolve_tags) else tags (lookup h u))
unfolding add_new_mirror
new_mirror_tags h m u =
    ground (arith, eq_iff m.host h, lookup-insert m.host h m u, ap (λ k. lookup k u))

new_tags :
    (h : String) (ms : List Mirror) (u : Map Mirror)
    → tags (lookup h (add_new ms u)) ≡ either (tags (lookup h u)) (tags_of h ms)
unfolding add_new
new_tags h [] u = elim (Option-cases (lookup h u)) [ inl e ↦ rw e refl | inr (m, e) ↦ rw e refl ]
new_tags h (m ∷ ms) u = elim (Bool-cases (m.host == h)) [
  | inl same ↦
      let added : tags (lookup h (add_new_mirror m u))
          ≡ either (tags (lookup h u)) (some m.resolve_tags) =
        rw same at (new_mirror_tags h m u) in
      rw (same) (
        new_tags h ms (add_new_mirror m u)
        ∙ ap (λ t. either t (tags_of h ms)) added
        ∙ either_assoc (tags (lookup h u)) (some m.resolve_tags) (tags_of h ms))
  | inr other ↦
      let added : tags (lookup h (add_new_mirror m u)) ≡ tags (lookup h u) =
        rw other at (new_mirror_tags h m u) in
      rw (other) (new_tags h ms (add_new_mirror m u) ∙ ap (λ t. either t (tags_of h ms)) added)
]

add_existing-IsKeyed :
    (ms : List Mirror) (u : Map Mirror)
    → IsKeyed (λ m. m.host) u
    → IsKeyed (λ m. m.host) (add_existing ms u)
unfolding add_existing
add_existing-IsKeyed [] u h = h
add_existing-IsKeyed (m ∷ ms) u h =
    add_existing-IsKeyed ms (insert m.host m u) (insert-IsKeyed (λ m. m.host) m u h)

add_new-IsKeyed :
    (ms : List Mirror) (u : Map Mirror)
    → IsKeyed (λ m. m.host) u
    → IsKeyed (λ m. m.host) (add_new ms u)
unfolding add_new add_new_mirror
add_new-IsKeyed [] u h = h
add_new-IsKeyed (m ∷ ms) u h =
    let put = insert-IsKeyed (λ m. m.host) m u h in
    add_new-IsKeyed ms (add_new_mirror m u) (elim (Option-cases (lookup m.host u)) [
      | inl e ↦ rw (e, add_new_mirror) put
      | inr (old, e) ↦ elim (Bool-cases (not old.resolve_tags && m.resolve_tags)) [
        | inl better ↦ rw (e, add_new_mirror, better) put
        | inr other ↦ rw (e, add_new_mirror, other) h
      ]
    ])

-- A list of the values of a map lists a host exactly once, if the map holds it.
tags_of-values :
    (h : String) (u : Map Mirror)
    → IsKeyed (λ m. m.host) u
    → tags_of h (values u) ≡ tags (lookup h u)
unfolding lookup
tags_of-values h [] keyed = refl
tags_of-values h ((k, m) ∷ u) keyed =
    let rest = tags_of-values h u keyed.2 in
    ground (arith, eq_iff k h, eq_iff m.host h, keyed.0, keyed.1, rest, ap (λ k. lookup k u))

-- The merged mirrors list each host once, and list those that the existing or the new mirrors list. A host may
-- resolve tags if its last existing entry may, or any of its new ones.
pub merge_mirrors-tags_of :
    (existing new : List Mirror) (h : String)
    → IsDistinct (λ m. m.host) (merge_mirrors existing new)
      × (tags_of h (merge_mirrors existing new) ≡ either (last_tags h existing) (tags_of h new))
unfolding merge_mirrors
merge_mirrors-tags_of existing new h =
    let first = add_existing existing [] in
    let keyed = add_new-IsKeyed new first (add_existing-IsKeyed existing [] tt) in
    let start : tags (lookup h first) ≡ last_tags h existing =
      ground (arith, existing_tags h existing []) in
    (
      values-IsDistinct _ _ keyed,
      tags_of-values h _ keyed ∙ new_tags h new first ∙ ap (λ t. either t (tags_of h new)) start,
    )
