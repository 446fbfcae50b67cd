-- ===== src/Registries/Policy.antt =====
-- Which sets and which policies `mergeMirrorSets` of pkg/registries/registries.go answers.
use windows_machine_config_o.Common.{
  String, ◌≡◌, refl, sym, ap, subst, ◌∙◌, inl, inr, Option, none, some, List, [], ◌∷◌, Map, lookup,
  insert, values, ◌==◌, if◌then◌else◌, arith, eq_iff, lookup-insert, Bool-cases, Option-cases,
  IsKeyed, IsDistinct, insert-IsKeyed, values-IsDistinct, In-values, lookup-key, lookup→In, ◌≢◌,
  IsDistinct-perm, Sorter, In, In-perm, map, All,
}
use mathlib.Core.List.Permᴰ
use mathlib.Core.Option.{some-injective}
use windows_machine_config_o.Registries.{
  MirrorSet, MirrorSourcePolicy, allow_contacting_source, merge_set, add_set, add_sets, less_host,
  less_source, sort_mirrors, sort_mirror_sets, merge_mirror_sets,
}

-- The first policy other than to allow the source counts.
abbrev pub prefer :
    Option MirrorSourcePolicy → Option MirrorSourcePolicy → Option MirrorSourcePolicy
prefer none y = y
prefer (some a) none = some a
prefer (some a) (some b) = some (if a == allow_contacting_source then b else a)

prefer_assoc : (x y z : Option MirrorSourcePolicy) → prefer (prefer x y) z ≡ prefer x (prefer y z)
prefer_assoc none y z = refl
prefer_assoc (some a) none z = refl
prefer_assoc (some a) (some b) none = refl
prefer_assoc (some a) (some b) (some c) =
    ground (arith, eq_iff a allow_contacting_source, eq_iff b allow_contacting_source)

unset_first : (p : Option MirrorSourcePolicy) → prefer (some "") p ≡ some ""
unset_first none = refl
unset_first (some b) = refl

-- The policy for a source: that of the first set for it which does not allow the source, or else that of the last.
abbrev pub policy_of : String → List MirrorSet → Option MirrorSourcePolicy
policy_of s [] = none
policy_of s (m ∷ ms) =
    if m.source == s then prefer (some m.mirror_source_policy) (policy_of s ms) else policy_of s ms

abbrev pub policy : Option MirrorSet → Option MirrorSourcePolicy
policy none = none
policy (some m) = some m.mirror_source_policy

add_set_policy :
    (s : String) (m : MirrorSet) (u : Map MirrorSet)
    → policy (lookup s (add_set m u)) ≡ (
        if m.source == s
        then prefer (policy (lookup s u)) (some m.mirror_source_policy)
        else policy (lookup s u))
unfolding add_set merge_set
add_set_policy s m u = elim (Bool-cases (m.source == s)) [
  | inr other ↦ elim (Option-cases (lookup m.source u)) [
    | inl e ↦ ground (arith, eq_iff m.source s, lookup-insert m.source s m u)
    | inr (old, e) ↦ ground (arith, eq_iff m.source s, lookup-insert m.source s (merge_set old m) u)
  ]
  | inl same ↦
      let at : lookup s u ≡ lookup m.source u =
        ap (λ k. lookup k u) (sym ((eq_iff m.source s).0 same)) in
      elim (Option-cases (lookup m.source u)) [
        | inl e ↦ ground (arith, eq_iff m.source s, lookup-insert m.source s m u)
        | inr (old, e) ↦
            ground (arith, eq_iff m.source s, lookup-insert m.source s (merge_set old m) u)
      ]
]

add_sets_policy :
    (s : String) (ms : List MirrorSet) (u : Map MirrorSet)
    → policy (lookup s (add_sets ms u)) ≡ prefer (policy (lookup s u)) (policy_of s ms)
unfolding add_sets
add_sets_policy s [] u = elim (Option-cases (lookup s u)) [
  | inl e ↦ rw e refl
  | inr (m, e) ↦ rw e refl
]
add_sets_policy s (m ∷ ms) u = elim (Bool-cases (m.source == s)) [
  | inl same ↦
      let added : policy (lookup s (add_set m u))
          ≡ prefer (policy (lookup s u)) (some m.mirror_source_policy) =
        rw same at (add_set_policy s m u) in
      rw same (
        add_sets_policy s ms (add_set m u)
        ∙ ap (λ p. prefer p (policy_of s ms)) added
        ∙ prefer_assoc (policy (lookup s u)) (some m.mirror_source_policy) (policy_of s ms))
  | inr other ↦
      let added : policy (lookup s (add_set m u)) ≡ policy (lookup s u) =
        rw other at (add_set_policy s m u) in
      rw other (add_sets_policy s ms (add_set m u) ∙ ap (λ p. prefer p (policy_of s ms)) added)
]

abbrev pub source_of : MirrorSet → String
source_of ms = ms.source

add_sets-IsKeyed :
    (ms : List MirrorSet) (u : Map MirrorSet)
    → IsKeyed source_of u
    → IsKeyed source_of (add_sets ms u)
unfolding add_sets add_set merge_set
add_sets-IsKeyed [] u h = h
add_sets-IsKeyed (m ∷ ms) u h =
    add_sets-IsKeyed ms (add_set m u) (elim (Option-cases (lookup m.source u)) [
      | inl e ↦ rw (e, add_set) (insert-IsKeyed source_of m u h)
      | inr (old, e) ↦
          let put = insert-IsKeyed source_of (merge_set old m) u h in
          rw (e, add_set)
            (subst (λ k. IsKeyed source_of (insert k (merge_set old m) u))
              (lookup-key source_of m.source old u h e) put)
    ])

module _ (by_host : Sorter less_host) (by_source : Sorter less_source) where
  -- An entry of the sorted list is an entry of the map, but for the order of its mirrors.
  In-map-sort :
      (ms : MirrorSet) (sets : List MirrorSet)
      → In ms (map (sort_mirrors by_host by_source) sets)
      → (old : MirrorSet) × In old sets
        × (ms.source ≡ old.source)
        × (ms.mirror_source_policy ≡ old.mirror_source_policy)
  In-map-sort ms [] i = absurd i
  In-map-sort ms (x ∷ xs) i = elim i [
    | inl e ↦ (x, inl refl, ap (λ m. m.source) e, ap (λ m. m.mirror_source_policy) e)
    | inr later ↦ let (old, j, e, e') = In-map-sort ms xs later in (old, inr j, e, e')
  ]

  -- Each set that mergeMirrorSets answers has, for its source, the policy of the first set for the source which does
  -- not have AllowContactingSource, or else that policy.
  pub merge_mirror_sets-policy_of :
      (sets : List MirrorSet) (ms : MirrorSet)
      → In ms (merge_mirror_sets by_host by_source sets)
      → policy_of ms.source sets ≡ some ms.mirror_source_policy
  unfolding merge_mirror_sets sort_mirror_sets lookup
  merge_mirror_sets-policy_of [] ms i = absurd i
  merge_mirror_sets-policy_of (x ∷ xs) ms i =
      let all = add_sets (x ∷ xs) [] in
      let keyed = add_sets-IsKeyed (x ∷ xs) [] tt in
      let (old, j, same, same') =
        In-map-sort ms (values all) (In-perm ms (by_source.sort-perm _) i) in
      let found = In-values source_of old all keyed j in
      let start = add_sets_policy old.source (x ∷ xs) [] in
      ap (λ s. policy_of s (x ∷ xs)) same ∙ sym start ∙ ap policy found ∙ sym (ap some same')

  All-sort :
      (P : String → Type 0) (sets : List MirrorSet)
      → All (λ m. P m.source) sets
      → All (λ m. P m.source) (map (sort_mirrors by_host by_source) sets)
  All-sort P [] h = tt
  All-sort P (x ∷ xs) h = (h.0, All-sort P xs h.1)

  In-sort :
      (m : MirrorSet) (sets : List MirrorSet)
      → In m sets
      → In (sort_mirrors by_host by_source m) (map (sort_mirrors by_host by_source) sets)
  In-sort m [] i = absurd i
  In-sort m (x ∷ xs) i = elim i [
    | inl e ↦ inl (ap (sort_mirrors by_host by_source) e)
    | inr later ↦ inr (In-sort m xs later)
  ]

  IsDistinct-map-sort :
      (sets : List MirrorSet)
      → IsDistinct source_of sets
      → IsDistinct source_of (map (sort_mirrors by_host by_source) sets)
  IsDistinct-map-sort [] h = tt
  IsDistinct-map-sort (x ∷ xs) h = (All-sort (λ s. s ≢ x.source) xs h.0, IsDistinct-map-sort xs h.1)

  -- mergeMirrorSets answers one set for each source, and one for each source that a given set names, whatever the
  -- order in which the sets are listed.
  merge_mirror_sets-IsDistinct :
      (sets : List MirrorSet) (s : String) (p : MirrorSourcePolicy)
      → policy_of s sets ≡ some p
      → IsDistinct source_of (merge_mirror_sets by_host by_source sets)
        × ((ms : MirrorSet) × In ms (merge_mirror_sets by_host by_source sets) × (ms.source ≡ s))
  unfolding merge_mirror_sets sort_mirror_sets lookup
  merge_mirror_sets-IsDistinct [] s p h = absurd (ground arith)
  merge_mirror_sets-IsDistinct (x ∷ xs) s p h =
      let all = add_sets (x ∷ xs) [] in
      let keyed = add_sets-IsKeyed (x ∷ xs) [] tt in
      let sorted =
        Permᴰ.symm (by_source.sort-perm (map (sort_mirrors by_host by_source) (values all))) in
      let distinct = IsDistinct-map-sort (values all) (values-IsDistinct source_of all keyed) in
      let held : policy (lookup s all) ≡ some p = add_sets_policy s (x ∷ xs) [] ∙ h in
      (
        IsDistinct-perm source_of sorted distinct,
        elim (Option-cases (lookup s all)) [
          | inl e ↦ absurd (cc (ap policy e))
          | inr (m, e) ↦
              let i = In-sort m (values all) (lookup→In s m all e) in
              (
                sort_mirrors by_host by_source m,
                In-perm _ sorted i,
                lookup-key source_of s m all keyed e,
              )
        ],
      )

  -- If the first of the sets has no policy, then the merged set for its source has none, even where another of
  -- the sets for this source has NeverContactSource.
  pub merge_mirror_sets_unset :
      (first : MirrorSet) (rest : List MirrorSet) (ms : MirrorSet)
      → first.mirror_source_policy ≡ ""
      → In ms (merge_mirror_sets by_host by_source (first ∷ rest))
      → ms.source ≡ first.source
      → ms.mirror_source_policy ≡ ""
  merge_mirror_sets_unset first rest ms unset i same =
      let h = merge_mirror_sets-policy_of (first ∷ rest) ms i in
      let kept : policy_of ms.source (first ∷ rest) ≡ some "" =
        rw ((eq_iff first.source ms.source).1 (sym same), unset)
          (unset_first (policy_of ms.source rest)) in
      some-injective _ _ (sym h ∙ kept)
