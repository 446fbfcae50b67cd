-- ===== src/ServicesCm/ConfigMap/Latest.antt =====
-- What `List` and `GetLatest` answer.
use mathlib.Core.List.Permᴰ
use native.Mathlib.Nat.{le_refl}
use text.Mathlib.Text.{starts_with}
use windows_machine_config_o.Common.{
  ◌≤◌, ◌≡◌, refl, sym, inl, inr, Bool, true, false, List, ◌∷◌, ok, arith, In, All→In, In-perm,
  Sorter, IsSorted, ltb→le, keep, In-keep, In-of_keep, List-cases, subst,
}
use windows_machine_config_o.ServicesCm.ConfigMap.{
  ConfigMap, name_prefix, created_after, get_latest,
}

abbrev is_services_cm : ConfigMap → Bool
is_services_cm cm = starts_with cm.name name_prefix

-- A success of `GetLatest` is the first of the sorted ConfigMaps.
get_latest_first :
    (newest_first : Sorter created_after) (listed : List ConfigMap) (c : ConfigMap)
    → get_latest newest_first (ok listed) ≡ ok c
    → (rest : List ConfigMap) × (newest_first.sort (keep is_services_cm listed) ≡ c ∷ rest)
unfolding get_latest
get_latest_first newest_first listed c e = elim (List-cases (keep is_services_cm listed)) [
  | inl empty ↦ absurd (ground arith)
  | inr (x, r, found) ↦ elim (List-cases (newest_first.sort (x ∷ r))) [
    | inl empty ↦ absurd (ground arith)
    | inr (c', rest, sorted) ↦ (rest, rw found (ground arith))
  ]
]

-- A success of `GetLatest` is a services ConfigMap of those that the API lists, and none of the others was
-- created after it.
get_latest_newest :
    (newest_first : Sorter created_after) (listed : List ConfigMap) (c : ConfigMap)
    → get_latest newest_first (ok listed) ≡ ok c
    → In c listed
      × (starts_with c.name name_prefix ≡ true)
      × ((x : ConfigMap)
          → In x listed
          → starts_with x.name name_prefix ≡ true
          → x.creation_timestamp ≤ c.creation_timestamp)
get_latest_newest newest_first listed c e =
    let found = keep is_services_cm listed in
    let (rest, first) = get_latest_first newest_first listed c e in
    let perm = newest_first.sort-perm found in
    let sorted : IsSorted created_after (c ∷ rest) =
      subst (IsSorted created_after) first (newest_first.sort-IsSorted found) in
    let member : In c found = In-perm c perm (subst (In c) (sym first) (inl refl)) in
    let (listed_c, named) = In-of_keep is_services_cm c listed member in
    (
      listed_c,
      named,
      λ x i e'.
          let j : In x (c ∷ rest) =
            subst (In x) first
              (In-perm x (Permᴰ.symm perm) (In-keep is_services_cm x listed i e')) in
          elim j [
            | inl same ↦ rw same (le_refl c.creation_timestamp)
            | inr later ↦
                let not_after = All→In (λ y. created_after y c ≡ false) x rest sorted.0 later in
                ltb→le c.creation_timestamp x.creation_timestamp not_after
          ],
    )
