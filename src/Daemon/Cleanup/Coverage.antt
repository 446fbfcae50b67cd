-- ===== src/Daemon/Cleanup/Coverage.antt =====
-- Which services `getMergedCMData` of pkg/daemon/cleanup/cleanup.go hands to `removeServices`.
use windows_machine_config_o.Common.{
  String, ◌≡◌, ◌≢◌, refl, sym, ap, subst, ◌∙◌, ◌⊎◌, inl, inr, Bool, false, Option, none, some, List,
  [], ◌∷◌, Map, Result, ok, ◌==◌, eq_iff, arith, Bool-cases, Option-cases, In, map, Sorter,
}
use windows_machine_config_o.ServicesCm.Types.{Service, Data}
use windows_machine_config_o.ServicesCm.Dependencies.{Error}
use windows_machine_config_o.ServicesCm.Priorities.{less_priority}
use windows_machine_config_o.ServicesCm.ConfigMap.{
  ConfigMap, Json, parse, get_latest, created_after,
}
use windows_machine_config_o.Daemon.Cleanup.{
  merge_services, merge_data, version_cm_data, get_merged_cm_data, Manager, remove_services,
}
use windows_machine_config_o.Daemon.Cleanup.Merged.{
  name_of, first_named, last_named, or_else, merge_services-first_named,
}
use windows_machine_config_o.Daemon.Cleanup.Removal.{ManagerLaws, remove_services-gone}

first_named→In :
    (n : String) (t : Service) (ss : List Service)
    → first_named n ss ≡ some t
    → In n (map name_of ss)
first_named→In n t [] h = absurd (ground arith)
first_named→In n t (s ∷ ss) h = elim (Bool-cases (s.name == n)) [
  | inl same ↦ inl (sym ((eq_iff s.name n).0 same))
  | inr other ↦ inr (first_named→In n t ss (ground arith))
]

In→first_named :
    (n : String) (ss : List Service)
    → In n (map name_of ss)
    → (t : Service) × (first_named n ss ≡ some t)
In→first_named n [] i = absurd i
In→first_named n (s ∷ ss) i = elim (Bool-cases (s.name == n)) [
  | inl same ↦ (s, rw same refl)
  | inr other ↦ elim i [
    | inl e ↦ absurd (ground (arith, eq_iff s.name n, sym e))
    | inr later ↦ rw other (In→first_named n ss later)
  ]
]

In→last_named :
    (n : String) (ss : List Service)
    → In n (map name_of ss)
    → (t : Service) × (last_named n ss ≡ some t)
In→last_named n [] i = absurd i
In→last_named n (s ∷ ss) i = elim (Option-cases (last_named n ss)) [
  | inr (t, h) ↦ (t, rw h refl)
  | inl h ↦ elim i [
    | inl e ↦ (s, ground (arith, eq_iff s.name n, sym e))
    | inr later ↦ let (t, k) = In→last_named n ss later in absurd (ground arith)
  ]
]

or_else-some :
    (x y : Option Service) (t : Service) → y ≡ some t → (u : Service) × (or_else x y ≡ some u)
or_else-some none y t h = (t, h)
or_else-some (some x) y t h = (x, refl)

-- Each name of either list is one of the merged list.
merge_services-names :
    (s1 s2 : List Service) (n : String)
    → In n (map name_of s1) ⊎ In n (map name_of s2)
    → In n (map name_of (merge_services s1 s2))
merge_services-names s1 s2 n i =
    let at = (merge_services-first_named s1 s2 n).1 in
    elim i [
      | inl i1 ↦
          let (t, h) = In→last_named n s1 i1 in
          first_named→In n t _ (at ∙ ap (λ o. or_else o (first_named n s2)) h)
      | inr i2 ↦
          let (t, h) = In→first_named n s2 i2 in
          let (u, k) = or_else-some (last_named n s1) (first_named n s2) t h in
          first_named→In n u _ (at ∙ k)
    ]

module _ (json : Json) (by_priority : Sorter less_priority)
    (newest_first : Sorter created_after) where
  -- What is handed over names each service of the latest ConfigMap, and each one of the node's, unless both
  -- have one name.
  covered :
      (listed : Result Error (List ConfigMap)) (get : String → Option ConfigMap)
      (annotations : Option (Map String)) (found : Data) (all_tagged : Bool) (latest : ConfigMap)
      (latest_data : Data) (n : String)
      → get_merged_cm_data json by_priority newest_first listed get annotations
        ≡ ok (found, all_tagged)
      → get_latest newest_first listed ≡ ok latest
      → parse json by_priority latest.content ≡ ok latest_data
      → In n (map name_of latest_data.services)
      → In n (map name_of found.services)
  unfolding get_merged_cm_data
  covered listed get annotations found all_tagged latest latest_data n e l p i =
      let names : Data → Type 0 = λ d. In n (map name_of d.services) in
      elim (Option-cases (version_cm_data json by_priority newest_first get annotations)) [
        | inl h ↦ let same : latest_data ≡ found = ground (arith, e, l, p, h) in subst names same i
        | inr ((cm, version), h) ↦ elim (Bool-cases (cm.name == latest.name)) [
          | inl one ↦
              let same : latest_data ≡ found = ground (arith, e, l, p, h, one) in subst names same i
          | inr two ↦
              let same : merge_data json by_priority newest_first latest_data version ≡ found =
                ground (arith, e, l, p, h, two) in
              subst names same
                (merge_services-names latest_data.services version.services n (inl i))
        ]
      ]

  covered_version :
      (listed : Result Error (List ConfigMap)) (get : String → Option ConfigMap)
      (annotations : Option (Map String)) (found : Data) (all_tagged : Bool) (latest : ConfigMap)
      (latest_data : Data) (cm : ConfigMap) (version : Data) (n : String)
      → get_merged_cm_data json by_priority newest_first listed get annotations
        ≡ ok (found, all_tagged)
      → get_latest newest_first listed ≡ ok latest
      → parse json by_priority latest.content ≡ ok latest_data
      → version_cm_data json by_priority newest_first get annotations ≡ some (cm, version)
      → cm.name ≢ latest.name
      → In n (map name_of version.services)
      → In n (map name_of found.services)
  unfolding get_merged_cm_data
  covered_version listed get annotations found all_tagged latest latest_data cm version n e l p h
        differ i =
      let two : (cm.name == latest.name) ≡ false = ground (arith, eq_iff cm.name latest.name) in
      let same : merge_data json by_priority newest_first latest_data version ≡ found =
        ground (arith, e, l, p, h, two) in
      subst (λ d. In n (map name_of d.services)) same
        (merge_services-names latest_data.services version.services n (inr i))

  -- If getMergedCMData answers data, and removeServices with its services and its flag reports no error, then
  -- no service is left that is in the latest ConfigMap, nor one that is in the ConfigMap of the version of the
  -- node, where that is another one and could be read.
  pub remove_services-get_merged_cm_data :
      (m : Manager) (laws : ManagerLaws m) (s : m.State) (listed : Result Error (List ConfigMap))
      (get : String → Option ConfigMap) (annotations : Option (Map String)) (found : Data)
      (all_tagged : Bool) (latest : ConfigMap) (latest_data : Data) (n : String)
      → get_merged_cm_data json by_priority newest_first listed get annotations
        ≡ ok (found, all_tagged)
      → (remove_services m found.services all_tagged s).1 ≡ ok tt
      → get_latest newest_first listed ≡ ok latest
      → parse json by_priority latest.content ≡ ok latest_data
      → In n (map name_of latest_data.services)
        ⊎ ((cm : ConfigMap) × (version : Data) × (version_cm_data json by_priority newest_first get
                annotations
              ≡ some (cm, version))
            × (cm.name ≢ latest.name)
            × In n (map name_of version.services))
      → laws.present (remove_services m found.services all_tagged s).0 n ≡ false
  remove_services-get_merged_cm_data m laws s listed get annotations found all_tagged latest
        latest_data n e r l p i =
      remove_services-gone m laws found.services all_tagged s n r (elim i [
        | inl i1 ↦ covered listed get annotations found all_tagged latest latest_data n e l p i1
        | inr (cm, version, h, differ, i2) ↦
            covered_version listed get annotations found all_tagged latest latest_data cm version n
              e l p h differ i2
      ])
