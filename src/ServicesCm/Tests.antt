-- ===== src/ServicesCm/Tests.antt =====
-- Small services ConfigMaps, and the theorems at them.
use mathlib.Core.List.{Permᴰ}
use windows_machine_config_o.Common.{
  ℕ, String, ◌≡◌, refl, ◌≢◌, inr, Bool, true, false, some, List, [], ◌∷◌, Map, Slice, nil, items,
  ok, err, arith, eq_iff, ℕ_deep_equal, Bool_deep_equal, String_deep_equal, List_deep_equal,
  Slice_deep_equal, insertion_sorter, insertion_sort, Sorter, IsOrder, lookup, insert, map,
}
use windows_machine_config_o.ServicesCm.Samples.{
  sample_json, sample_json-JsonLaws, pair_deep_equal, by_priority,
}
use windows_machine_config_o.ServicesCm.Types.{
  Service, Data, Service_deep_equal, FileInfo_deep_equal,
}
use windows_machine_config_o.ServicesCm.Dependencies.{
  cyclical_chain, cycle_fuel, validate_cycles, validate_dependencies,
}
use windows_machine_config_o.ServicesCm.Cycles.Fuel.{validate_cycles-ne-cycle_fuel}
use windows_machine_config_o.ServicesCm.Cycles.Gaps.{
  validate_cycles_misses_cycle, validate_cycles_false_alarm,
}
use windows_machine_config_o.ServicesCm.Priorities.{new_data}
use windows_machine_config_o.ServicesCm.Priorities.Valid.{IsValid, built, new_data-IsValid}
use windows_machine_config_o.ServicesCm.ConfigMap.{
  ConfigMap, Json, generate, parse, validate_expected_content, created_after, get_latest,
}
use windows_machine_config_o.ServicesCm.ConfigMap.Encoding.{written, JsonLaws}
use windows_machine_config_o.ServicesCm.ConfigMap.RoundTrip.{validate-parse-generate}
use windows_machine_config_o.ServicesCm.Cycles.Lower.{DependsOnLower, DependsOnLower→Earlier}
use windows_machine_config_o.ServicesCm.Cycles.Order.{
  names, DependsOnEarlier, validate_cycles-ordered,
}

created_after-IsOrder : IsOrder created_after
created_after-IsOrder = record { asymm = λ x y h. ground arith; trans = λ x y z h k. ground arith }

abbrev newest_first : Sorter created_after
newest_first = insertion_sorter created_after created_after-IsOrder

abbrev service : String → Slice String → Bool → ℕ → Service
service name dependencies bootstrap priority = record {
  name = name;
  command = name;
  node_variables_in_command = nil;
  powershell_pre_scripts = nil;
  dependencies = dependencies;
  bootstrap = bootstrap;
  priority = priority;
}

abbrev containerd : Service
containerd = service "containerd" nil true 0

abbrev kubelet : Service
kubelet = service "kubelet" (items ("containerd" ∷ [])) true 1

abbrev kube_proxy : Service
kube_proxy = service "kube-proxy" (items ("kubelet" ∷ [])) false 3

abbrev given : List Service
given = containerd ∷ kubelet ∷ kube_proxy ∷ []

abbrev proxy_vars : Map String
proxy_vars = ("HTTP_PROXY", "http://proxy") ∷ []

abbrev watched_vars : Slice String
watched_vars = items ("HTTP_PROXY" ∷ "NO_PROXY" ∷ [])

abbrev manifest : Data
manifest = record {
  services = given;
  files = [];
  environment_vars = some proxy_vars;
  watched_environment_vars = watched_vars;
}

manifest_accepted : new_data by_priority given [] proxy_vars watched_vars ≡ ok manifest
unfolding new_data insertion_sorter insertion_sort validate_dependencies lookup insert
manifest_accepted = refl

abbrev json : Json
json = sample_json given proxy_vars watched_vars

given_as_written : map written given ≡ given
unfolding written
given_as_written = refl

json_laws : JsonLaws json
json_laws = sample_json-JsonLaws given proxy_vars watched_vars given_as_written

abbrev manifest_cm : ConfigMap
manifest_cm = record {
  name = "windows-services-1.0";
  namespace = "wmco";
  creation_timestamp = 0;
  immutable = true;
  content =
      ("services", "text")
      ∷ ("files", "text")
      ∷ ("environmentVars", "text")
      ∷ ("watchedEnvironmentVars", "text")
      ∷ [];
}

manifest_generated : generate json "windows-services-1.0" "wmco" manifest ≡ ok manifest_cm
unfolding generate
manifest_generated = refl

given-DependsOnLower : DependsOnLower given
given-DependsOnLower s t i j k = ground (
  arith,
  eq_iff "containerd" "kubelet",
  eq_iff "kubelet" "containerd",
  eq_iff "kube-proxy" "containerd",
  eq_iff "kube-proxy" "kubelet",
)

validate-parse-generate_example :
    (d : Data) × (parse json by_priority manifest_cm.content ≡ ok d)
    × (validate_expected_content d manifest ≡ ok tt)
unfolding written lookup
validate-parse-generate_example =
    validate-parse-generate json json_laws by_priority given [] watched_vars
      (refl, (refl, (refl, tt))) (omega arith) given-DependsOnLower proxy_vars
      "windows-services-1.0" "wmco" manifest manifest_cm (refl, tt) manifest_accepted
      manifest_generated

manifest-IsValid : IsValid manifest
manifest-IsValid =
    (new_data-IsValid by_priority given [] proxy_vars watched_vars manifest manifest_accepted).0

new_data-IsValid_example : IsValid manifest × Permᴰ manifest.services given
new_data-IsValid_example =
    new_data-IsValid by_priority given [] proxy_vars watched_vars manifest manifest_accepted

given-ordered : DependsOnEarlier (names given) [] given
given-ordered =
    DependsOnLower→Earlier given [] given given-DependsOnLower (λ s i. i) (λ t i. inr i)
      manifest-IsValid.sorted

validate_cycles-ordered_example : validate_cycles given ≡ ok tt
validate_cycles-ordered_example = validate_cycles-ordered given given-ordered

validate_cycles-ne-cycle_fuel_example : validate_cycles given ≢ err cycle_fuel
validate_cycles-ne-cycle_fuel_example = validate_cycles-ne-cycle_fuel given

a≢b : ◌≢◌ {A = String} "a" "b"
a≢b = ground (arith, eq_iff "a" "b")

a≢c : ◌≢◌ {A = String} "a" "c"
a≢c = ground (arith, eq_iff "a" "c")

b≢c : ◌≢◌ {A = String} "b" "c"
b≢c = ground (arith, eq_iff "b" "c")

validate_cycles_misses_cycle_example :
    validate_cycles (
      service "a" (items ("c" ∷ [])) false 0
      ∷ service "b" nil false 0
      ∷ service "c" (items ("b" ∷ "a" ∷ [])) false 0
      ∷ [])
    ≡ ok tt
validate_cycles_misses_cycle_example =
    validate_cycles_misses_cycle (service "a" (items ("c" ∷ [])) false 0) (service "b" nil false 0)
      (service "c" (items ("b" ∷ "a" ∷ [])) false 0) a≢b a≢c b≢c refl refl refl

validate_cycles_false_alarm_example :
    validate_cycles (
      service "a" (items ("b" ∷ [])) false 0
      ∷ service "b" nil false 0
      ∷ service "c" (items ("a" ∷ [])) false 0
      ∷ [])
    ≡ err (cyclical_chain "c")
validate_cycles_false_alarm_example =
    validate_cycles_false_alarm (service "a" (items ("b" ∷ [])) false 0) (service "b" nil false 0)
      (service "c" (items ("a" ∷ [])) false 0) a≢b a≢c b≢c refl refl refl

-- What `NewData` accepts, its own `Generate` can make unreadable: sorted by priority, `a` stands in front
-- of the service that it depends on, and `c` is taken for part of a cycle.
unstable : List Service
unstable =
    service "b" nil false 1
    ∷ service "a" (items ("b" ∷ [])) false 0
    ∷ service "c" (items ("a" ∷ [])) false 2
    ∷ []

unstable_accepted :
    (d : Data) × (new_data by_priority unstable [] [] nil ≡ ok d)
    × (new_data by_priority d.services [] [] nil ≡ err (cyclical_chain "c"))
unfolding unstable new_data insertion_sorter insertion_sort validate_dependencies lookup insert
unstable_accepted = (built by_priority unstable [] [] nil, refl, refl)

abbrev config_map : String → ℕ → ConfigMap
config_map name time = record {
  name = name;
  namespace = "wmco";
  creation_timestamp = time;
  immutable = true;
  content = [];
}

abbrev listed : List ConfigMap
listed =
    config_map "windows-services-1" 3
    ∷ config_map "other" 9
    ∷ config_map "windows-services-2" 7
    ∷ []

newest : get_latest newest_first (ok listed) ≡ ok (config_map "windows-services-2" 7)
unfolding get_latest insertion_sorter insertion_sort
newest = refl
