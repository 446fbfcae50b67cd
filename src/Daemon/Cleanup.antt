-- ===== src/Daemon/Cleanup.antt =====
-- pkg/daemon/cleanup/cleanup.go: what is to be removed from an instance, and the removal of its services.
pub mod Merged
pub mod Removal
pub mod Coverage
mod Tests
use Prim.Native.String.{[], ◌∷◌, ◌++◌ as text_append}
use text.Mathlib.Text.{starts_with}
use windows_machine_config_o.Common.{
  String, Bool, true, false, ◌||◌, Option, none, some, List, [], ◌∷◌, ◌++◌, Map, lookup, insert,
  values, map, reverse, Result, ok, err, ◌==◌, if◌then◌else◌, has_key, Slice, nil, items, elems,
  Sorter, ◌>>=◌,
}
use windows_machine_config_o.ServicesCm.Types.{Service, Data}
use windows_machine_config_o.ServicesCm.Dependencies.{Error}
use windows_machine_config_o.ServicesCm.Priorities.{less_priority}
use windows_machine_config_o.ServicesCm.ConfigMap.{
  ConfigMap, Json, parse, get_latest, created_after, name_prefix,
}

-- The loop of `mergeServices` over `s1`: a later service replaces one of its name.
unfoldable pub put_services : List Service → Map Service → Map Service
unfolding insert
put_services [] services = services
put_services (s ∷ ss) services = put_services ss (insert s.name s services)

-- The loop over `s2`.
unfoldable pub add_services : List Service → Map Service → Map Service
unfolding insert lookup
add_services [] services = services
add_services (s ∷ ss) services =
    add_services ss (if has_key s.name services then services else insert s.name s services)

unfoldable pub merge_services : List Service → List Service → List Service
unfolding put_services add_services
merge_services s1 s2 = values (add_services s2 (put_services s1 []))

-- One loop of `merge`, on the set as a map from each item to itself.
unfoldable pub put_items : List String → Map String → Map String
unfolding insert
put_items [] set = set
put_items (e ∷ es) set = put_items es (insert e e set)

unfoldable pub merge : List String → List String → List String
unfolding put_items
merge e1 e2 = values (put_items e2 (put_items e1 []))

-- A nil slice to which these items were appended.
abbrev pub appended : List String → Slice String
appended [] = nil
appended (x ∷ xs) = items (x ∷ xs)

abbrev pub version_annotation : String
version_annotation = "windowsmachineconfig.openshift.io/version"

module _ (json : Json) (by_priority : Sorter less_priority)
    (newest_first : Sorter created_after) where
  -- The inner function of `getMergedCMData`: the node is given by its annotations, and `get` is the call
  -- for a ConfigMap. Which error stopped it is only logged.
  unfoldable pub version_cm_data :
      (String → Option ConfigMap) → Option (Map String) → Option (ConfigMap × Data)
  unfolding parse lookup
  version_cm_data get none = none
  version_cm_data get (some annotations) = elim (lookup version_annotation annotations) [
    | none ↦ none
    | some version ↦ elim (get (text_append name_prefix version)) [
      | none ↦ none
      | some cm ↦ elim (parse json by_priority cm.content) [
        | err e ↦ none
        | ok content ↦ some (cm, content)
      ]
    ]
  ]

  -- What is merged of the data of the latest ConfigMap and of that of the node.
  abbrev pub merge_data : Data → Data → Data
  merge_data latest version = record {
    services = merge_services latest.services version.services;
    files = [];
    environment_vars = none;
    watched_environment_vars =
        appended
          (merge (elems latest.watched_environment_vars) (elems version.watched_environment_vars));
  }

  unfoldable pub get_merged_cm_data :
      Result Error (List ConfigMap)
      → (String → Option ConfigMap)
      → Option (Map String)
      → Result Error (Data × Bool)
  unfolding get_latest parse version_cm_data merge_services merge
  get_merged_cm_data listed get node = do
    latest ← get_latest newest_first listed
    latest_data ← parse json by_priority latest.content
    elim (version_cm_data get node) [
      | none ↦ ok (latest_data, true)
      | some version ↦
          if version.0.name == latest.name
          then ok (latest_data, false)
          else ok (merge_data latest_data version.1, true)
    ]

-- The interface `Manager` of pkg/daemon/manager, as far as the removal calls it.
pub record Manager : Type 1 where
  pub State : Type 0
  -- The names of the services, in the order of `range`, or nothing for an error.
  pub get_services : State → Option (List String)
  -- The description in the configuration, or nothing where the service cannot be opened or read.
  pub get_description : String → State → Option String
  -- The new state, and whether there was no error.
  pub delete_service : String → State → State × Bool

pub data RemoveError : Type 0 where
  no_service_list failed_removals : RemoveError

-- `strings.Contains`.
unfoldable pub contains_text : String → String → Bool
contains_text [] t = t == ""
contains_text (c ∷ s) t = let rest = contains_text s t in starts_with (c ∷ s) t || rest

abbrev pub managed_tag : String
managed_tag = "OpenShift managed"

module _ (m : Manager) where
  open m use {State, get_services, get_description, delete_service}

  -- The loop over the services, which are given from the last to the first; `failed` is whether
  -- `failedRemovals` has an entry.
  unfoldable pub remove_named : List String → Bool → State → State × Bool
  remove_named [] failed s = (s, failed)
  remove_named (name ∷ names) failed s =
      let (s', deleted) = delete_service name s in
      remove_named names (if deleted then failed else true) s'

  -- One round of the loop over the existing services.
  unfoldable pub remove_tagged_service : String → Bool → State → State × Bool
  unfolding contains_text
  remove_tagged_service name failed s = elim (get_description name s) [
    | none ↦ (s, failed)
    | some description ↦
        if contains_text description managed_tag
        then (let (s', deleted) = delete_service name s in (s', if deleted then failed else true))
        else (s, failed)
  ]

  unfoldable pub remove_tagged : List String → Bool → State → State × Bool
  unfolding remove_tagged_service
  remove_tagged [] failed s = (s, failed)
  remove_tagged (name ∷ names) failed s =
      let (s', failed') = remove_tagged_service name failed s in remove_tagged names failed' s'

  abbrev pub outcome : State × Bool → State × Result RemoveError (Unit {0})
  outcome done = (done.0, if done.1 then err failed_removals else ok tt)

  unfoldable pub remove_services :
      List Service → Bool → State → State × Result RemoveError (Unit {0})
  unfolding remove_named remove_tagged
  remove_services services remove_all_tagged s =
      let done = remove_named (reverse (map (λ v. v.name) services)) false s in
      if remove_all_tagged
      then (elim (get_services done.0) [
        | none ↦ (done.0, err no_service_list)
        | some names ↦ outcome (remove_tagged names done.1 done.0)
      ])
      else outcome done
