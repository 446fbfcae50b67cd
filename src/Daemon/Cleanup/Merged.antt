-- ===== src/Daemon/Cleanup/Merged.antt =====
-- What `mergeServices` and `merge` of pkg/daemon/cleanup/cleanup.go answer.
use windows_machine_config_o.Common.{
  ◌<◌, String, ◌≡◌, ◌≢◌, ◌↔◌, ◌⊎◌, refl, sym, ap, ◌∙◌, inl, inr, Bool, true, false, Option, none,
  some, List, [], ◌∷◌, Map, lookup, insert, values, has_key, ◌==◌, if◌then◌else◌, arith, eq_iff,
  lookup-insert, Bool-cases, Option-cases, IsKeyed, IsDistinct, insert-IsKeyed, values-IsDistinct,
  In, In-values, lookup→In, IsSorted,
}
use windows_machine_config_o.ServicesCm.Types.{Service}
use windows_machine_config_o.ServicesCm.Priorities.{less_priority}
use windows_machine_config_o.Daemon.Cleanup.{
  put_services, add_services, merge_services, put_items, merge,
}

abbrev pub name_of : Service → String
name_of s = s.name

-- The first and the last service of a name.
abbrev pub first_named : String → List Service → Option Service
first_named n [] = none
first_named n (s ∷ ss) = if s.name == n then some s else first_named n ss

abbrev pub last_named : String → List Service → Option Service
last_named n [] = none
last_named n (s ∷ ss) = elim (last_named n ss) [
  | some t ↦ some t
  | none ↦ if s.name == n then some s else none
]

abbrev pub or_else : Option Service → Option Service → Option Service
or_else none y = y
or_else (some x) y = some x

lookup-put_services :
    (n : String) (ss : List Service) (m : Map Service)
    → lookup n (put_services ss m) ≡ or_else (last_named n ss) (lookup n m)
unfolding put_services
lookup-put_services n [] m = refl
lookup-put_services n (s ∷ ss) m = ground (
  arith,
  eq_iff s.name n,
  lookup-insert s.name n s m,
  lookup-put_services n ss (insert s.name s m),
)

lookup-add_services :
    (n : String) (ss : List Service) (m : Map Service)
    → lookup n (add_services ss m) ≡ or_else (lookup n m) (first_named n ss)
unfolding add_services
lookup-add_services n [] m = elim (Option-cases (lookup n m)) [
  | inl e ↦ rw e refl
  | inr (s, e) ↦ rw e refl
]
lookup-add_services n (s ∷ ss) m = elim (Option-cases (lookup s.name m)) [
  | inl e ↦ ground (
    arith,
    eq_iff s.name n,
    lookup-insert s.name n s m,
    ap (λ k. lookup k m),
    lookup-add_services n ss (insert s.name s m),
  )
  | inr (t, e) ↦ ground (arith, eq_iff s.name n, ap (λ k. lookup k m), lookup-add_services n ss m)
]

put_services-IsKeyed :
    (ss : List Service) (m : Map Service) → IsKeyed name_of m → IsKeyed name_of (put_services ss m)
unfolding put_services
put_services-IsKeyed [] m h = h
put_services-IsKeyed (s ∷ ss) m h =
    put_services-IsKeyed ss (insert s.name s m) (insert-IsKeyed name_of s m h)

add_services-IsKeyed :
    (ss : List Service) (m : Map Service) → IsKeyed name_of m → IsKeyed name_of (add_services ss m)
unfolding add_services
add_services-IsKeyed [] m h = h
add_services-IsKeyed (s ∷ ss) m h =
    add_services-IsKeyed ss _ (elim (Bool-cases (has_key s.name m)) [
      | inl e ↦ rw e h
      | inr e ↦ rw e (insert-IsKeyed name_of s m h)
    ])

first_named-values :
    (n : String) (m : Map Service) → IsKeyed name_of m → first_named n (values m) ≡ lookup n m
unfolding lookup
first_named-values n [] h = refl
first_named-values n ((k, s) ∷ m) h =
    ground (arith, eq_iff k n, eq_iff s.name n, h.0, first_named-values n m h.2)

-- mergeServices answers one service of each name that either list has: the last one of the name in the first list,
-- or else the first one of the name in the second list.
pub merge_services-first_named :
    (s1 s2 : List Service) (n : String)
    → IsDistinct (λ s. s.name) (merge_services s1 s2)
      × (first_named n (merge_services s1 s2) ≡ or_else (last_named n s1) (first_named n s2))
unfolding merge_services lookup
merge_services-first_named s1 s2 n =
    let first = put_services s1 [] in
    let keyed = add_services-IsKeyed s2 first (put_services-IsKeyed s1 [] tt) in
    let start : lookup n first ≡ last_named n s1 = ground (arith, lookup-put_services n s1 []) in
    (
      values-IsDistinct name_of _ keyed,
      first_named-values n _ keyed
          ∙ lookup-add_services n s2 first
          ∙ ap (λ o. or_else o (first_named n s2)) start,
    )

-- Where the second list has a service of a new name and of lower priority than the only one of the first, the
-- merged services are not in the order of their priorities.
pub merge_services_unsorted :
    (s t : Service)
    → s.name ≢ t.name
    → t.priority < s.priority
    → (merge_services (s ∷ []) (t ∷ []) ≡ s ∷ t ∷ [])
      × ¬ IsSorted less_priority (merge_services (s ∷ []) (t ∷ []))
unfolding merge_services put_services add_services insert lookup
merge_services_unsorted s t differ less =
    let apart : (s.name == t.name) ≡ false = ground (arith, eq_iff s.name t.name) in
    let m : Map Service = (s.name, s) ∷ [] in
    let absent : has_key t.name m ≡ false = ground (arith, apart) in
    let put : insert t.name t m ≡ (s.name, s) ∷ (t.name, t) ∷ [] = rw (apart, insert) refl in
    let both : merge_services (s ∷ []) (t ∷ []) ≡ s ∷ t ∷ [] =
      ap (λ b. values (if b then m else insert t.name t m)) absent ∙ ap values put in
    (both, rw both (λ sorted. ground (arith, sorted.0.0, less)))

abbrev listed : String → List String → Bool
listed v [] = false
listed v (e ∷ es) = elim (e == v) [ true ↦ true | false ↦ listed v es ]

listed→In : (v : String) (es : List String) → listed v es ≡ true → In v es
listed→In v [] h = absurd (ground arith)
listed→In v (e ∷ es) h = elim (Bool-cases (e == v)) [
  | inl same ↦ inl (sym ((eq_iff e v).0 same))
  | inr other ↦ inr (listed→In v es (ground arith))
]

In→listed : (v : String) (es : List String) → In v es → listed v es ≡ true
In→listed v [] i = absurd i
In→listed v (e ∷ es) i = elim i [
  | inl same ↦ ground (arith, eq_iff e v, same)
  | inr later ↦ ground (arith, In→listed v es later)
]

lookup-put_items :
    (v : String) (es : List String) (m : Map String)
    → lookup v (put_items es m) ≡ (if listed v es then some v else lookup v m)
unfolding put_items
lookup-put_items v [] m = refl
lookup-put_items v (e ∷ es) m =
    ground (arith, eq_iff e v, lookup-insert e v e m, lookup-put_items v es (insert e e m))

put_items-IsKeyed :
    (es : List String) (m : Map String) → IsKeyed (λ v. v) m → IsKeyed (λ v. v) (put_items es m)
unfolding put_items
put_items-IsKeyed [] m h = h
put_items-IsKeyed (e ∷ es) m h = put_items-IsKeyed es (insert e e m) (insert-IsKeyed (λ v. v) e m h)

-- merge answers the items of either list, each once.
pub merge-In :
    (e1 e2 : List String) (v : String)
    → IsDistinct (λ e. e) (merge e1 e2) × (In v (merge e1 e2) ↔ (In v e1 ⊎ In v e2))
unfolding merge lookup
merge-In e1 e2 v =
    let first = put_items e1 [] in
    let all = put_items e2 first in
    let keyed = put_items-IsKeyed e2 first (put_items-IsKeyed e1 [] tt) in
    let at : lookup v all
        ≡ (if listed v e2 then some v else (if listed v e1 then some v else none)) =
      lookup-put_items v e2 first
      ∙ ap (λ o. if listed v e2 then some v else o) (lookup-put_items v e1 []) in
    (
      values-IsDistinct (λ e. e) all keyed,
      (
        (λ i.
            let found = In-values (λ e. e) v all keyed i in
            elim (Bool-cases (listed v e2)) [
              | inl h ↦ inr (listed→In v e2 h)
              | inr h ↦ inl (listed→In v e1 (ground arith))
            ]),
        (λ either. lookup→In v v all (elim either [
          | inl i ↦ ground (arith, In→listed v e1 i)
          | inr i ↦ ground (arith, In→listed v e2 i)
        ])),
      ),
    )
