-- ===== src/Daemon/Cleanup/Tests.antt =====
-- An instance with three services, and the theorems at it.
use windows_machine_config_o.Common.{
  ℕ, String, ◌≡◌, ◌≢◌, refl, sym, ap, inl, inr, true, false, Option, none, some, List, [], ◌∷◌, Map,
  Result, ok, ◌==◌, eq_iff, if◌then◌else◌, arith, In, map, Sorter, IsOrder, insertion_sorter,
  insertion_sort, lookup, delete, has_key, nil, lookup-delete, lookup-delete_self, String-cases,
  subst,
}
use mathlib.Core.Option.{some-injective}
use windows_machine_config_o.ServicesCm.Types.{Service, Data}
use windows_machine_config_o.ServicesCm.Dependencies.{Error, validate_dependencies}
use windows_machine_config_o.ServicesCm.Priorities.{less_priority}
use windows_machine_config_o.ServicesCm.ConfigMap.{
  ConfigMap, Codec, Json, parse, get_latest, created_after,
}
use windows_machine_config_o.Daemon.Cleanup.{
  merge_services, version_cm_data, get_merged_cm_data, Manager, remove_services, remove_named,
  remove_tagged, remove_tagged_service, contains_text,
}
use windows_machine_config_o.Daemon.Cleanup.Removal.{ManagerLaws}
use windows_machine_config_o.Daemon.Cleanup.Coverage.{remove_services-get_merged_cm_data}

-- The services with their descriptions.
abbrev instance_services : Manager
instance_services = record {
  State = Map String;
  get_services = λ s. some (map (λ e. e.0) s);
  get_description = λ n s. lookup n s;
  delete_service = λ n s. (delete n s, true);
}

key-In : (n : String) (s : Map String) → has_key n s ≡ true → In n (map (λ e. e.0) s)
unfolding lookup
key-In n [] h = absurd (ground arith)
key-In n ((k, v) ∷ s) h = elim (String-cases k n) [
  | inl same ↦ inl (sym same)
  | inr other ↦ inr (key-In n s (ground (arith, eq_iff k n)))
]

abbrev instance_laws : ManagerLaws instance_services
instance_laws = record {
  present = λ s n. has_key n s;
  listed = λ s names n e h. subst (In n) (some-injective _ _ e) (key-In n s h);
  deleted = λ k s e. ground (arith, lookup-delete_self k s);
  stays_absent = λ k n s h. ground (arith, eq_iff k n, lookup-delete k n s);
  stays_described = λ k n s h. ground (arith, eq_iff k n, lookup-delete k n s);
}

abbrev service : String → ℕ → Service
service name priority = record {
  name = name;
  command = name;
  node_variables_in_command = nil;
  powershell_pre_scripts = nil;
  dependencies = nil;
  bootstrap = false;
  priority = priority;
}

abbrev kubelet : Service
kubelet = service "kubelet" 1

abbrev csi_proxy : Service
csi_proxy = service "csi-proxy" 0

abbrev constant : {A : Type 0} → A → Codec A
constant a = record { marshal = λ x. ok ""; unmarshal = λ t. ok a }

abbrev json : Json
json = record {
  services = record {
    marshal = λ x. ok "";
    unmarshal = λ t. if t == "new" then ok (kubelet ∷ []) else ok (csi_proxy ∷ []);
  };
  files = constant [];
  env_vars = constant [];
  watched = constant nil;
}

abbrev config_map : String → String → ℕ → ConfigMap
config_map name services created = record {
  name = name;
  namespace = "wmco";
  creation_timestamp = created;
  immutable = true;
  content = ("services", services) ∷ ("files", "text") ∷ [];
}

abbrev new_cm : ConfigMap
new_cm = config_map "windows-services-2" "new" 2

abbrev old_cm : ConfigMap
old_cm = config_map "windows-services-1" "old" 1

abbrev listed : Result Error (List ConfigMap)
listed = ok (old_cm ∷ new_cm ∷ [])

abbrev get : String → Option ConfigMap
get name = if name == "windows-services-1" then some old_cm else none

abbrev old_annotations : Option (Map String)
old_annotations = some (("windowsmachineconfig.openshift.io/version", "1") ∷ [])

less_priority-IsOrder : IsOrder less_priority
less_priority-IsOrder = record { asymm = λ x y h. ground arith; trans = λ x y z h k. ground arith }

created_after-IsOrder : IsOrder created_after
created_after-IsOrder = record { asymm = λ x y h. ground arith; trans = λ x y z h k. ground arith }

abbrev by_priority : Sorter less_priority
by_priority = insertion_sorter less_priority less_priority-IsOrder

abbrev newest_first : Sorter created_after
newest_first = insertion_sorter created_after created_after-IsOrder

abbrev of_services : List Service → Data
of_services services = record {
  services = services;
  files = [];
  environment_vars = none;
  watched_environment_vars = nil;
}

abbrev before : Map String
before =
    ("kubelet", "OpenShift managed kubelet")
    ∷ ("csi-proxy", "OpenShift managed csi-proxy")
    ∷ ("extra", "OpenShift managed extra")
    ∷ ("dhcp", "DHCP Client")
    ∷ []

merged :
    get_merged_cm_data json by_priority newest_first listed get old_annotations
    ≡ ok (of_services (kubelet ∷ csi_proxy ∷ []), true)
unfolding get_merged_cm_data get_latest parse version_cm_data merge_services insertion_sorter
    insertion_sort validate_dependencies
merged = refl

removed :
    remove_services instance_services (kubelet ∷ csi_proxy ∷ []) true before
    ≡ (("dhcp", "DHCP Client") ∷ [], ok tt)
unfolding remove_services remove_named remove_tagged remove_tagged_service contains_text lookup
    delete
removed = refl

latest_found : get_latest newest_first listed ≡ ok new_cm
unfolding get_latest insertion_sorter insertion_sort
latest_found = refl

latest_parsed : parse json by_priority new_cm.content ≡ ok (of_services (kubelet ∷ []))
unfolding parse insertion_sorter insertion_sort validate_dependencies
latest_parsed = refl

removed_ok : (remove_services instance_services (kubelet ∷ csi_proxy ∷ []) true before).1 ≡ ok tt
removed_ok = ap (λ x. x.1) removed

remove_services-get_merged_cm_data_example :
    has_key "kubelet" (remove_services instance_services (kubelet ∷ csi_proxy ∷ []) true before).0
    ≡ false
remove_services-get_merged_cm_data_example =
    remove_services-get_merged_cm_data json by_priority newest_first instance_services instance_laws
      before listed get old_annotations (of_services (kubelet ∷ csi_proxy ∷ [])) true new_cm
      (of_services (kubelet ∷ [])) "kubelet" merged removed_ok latest_found latest_parsed
      (inl (inl refl))

abbrev rest : Map String
rest = ("dhcp", "DHCP Client") ∷ []

dhcp_left : has_key "dhcp" rest ≡ true
unfolding lookup
dhcp_left = refl

dhcp_described : lookup "dhcp" rest ≡ some "DHCP Client"
unfolding lookup
dhcp_described = refl

names_differ : kubelet.name ≢ csi_proxy.name
names_differ e = ground (arith, (eq_iff "kubelet" "csi-proxy").1 e)

abbrev second : String
second = "B"
