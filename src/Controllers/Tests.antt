-- ===== src/Controllers/Tests.antt =====
-- The reconciler of a cluster of one node, and the theorems at it.
use windows_machine_config_o.Common.{
  Bool, List, String, [], arith, delete, eq_iff, err, false, if◌then◌else◌, insert, insertion_sort,
  insertion_sorter, lookup, nil, none, ok, place, refl, some, subst, true, ◌==◌, ◌↔◌, ◌∷◌, ◌≡◌, ◌≢◌,
  ◌⊎◌, In, HasUniqueKeys, inl, inr,
}
use windows_machine_config_o.Common.Text.{trim_prefix}
use windows_machine_config_o.ServicesCm.Types.{Data}
use windows_machine_config_o.ServicesCm.ConfigMap.{ConfigMap, name_prefix, parse, map_entries}
use windows_machine_config_o.ServicesCm.Samples.{sample_json, by_priority}
use windows_machine_config_o.Controllers.ConfigMaps.{
  Api, panicked, get_version_annotations, is_tied_to_relevant_version, remove_unless_tied,
  remove_outdated_services_config_maps, reconcile_services_cm,
}
use windows_machine_config_o.Controllers.Outdated.{
  remove_outdated_services_config_maps_keeps, reconcile_services_cm-HasContent, IsExpected,
}
use windows_machine_config_o.Common.Actions.{pure, fail, reads, acts, each, skip_if, ◌>>=◌}
use windows_machine_config_o.Metadata.{version_annotation, Node, poll, apply_patch, remove_label}
use windows_machine_config_o.Metadata.Waiting.{IsAt}
use windows_machine_config_o.NodeConfig.{
  configure, configure_node, prepare_instance, on_nodes, best_effort, of_file, cleaning_up,
}
use windows_machine_config_o.NodeConfig.Configured.{IsKnown}
use windows_machine_config_o.NodeConfig.Simulation.{
  one_node, world, encodings, cidr, latest_first, parse_raw, version, world-NodeLaws,
}
use windows_machine_config_o.Controllers.{
  Reconciler, Info, outdated_update, is_up_to_date, ensure_instance_is_up_to_date, on_node,
  get_address,
}
use windows_machine_config_o.Controllers.Current.{
  outdated_update-IsOutdated, IsOutdated, ensure_instance_is_up_to_date-IsAt,
}

abbrev reconciler : Reconciler (world true)
reconciler = record {
  encodings = encodings;
  cidr = cidr;
  latest_first = latest_first;
  parse_raw = parse_raw;
  cluster_service_cidr = "172.30.0.0/16";
  api_server_endpoint = "https://api:6443";
  public_key_hash = "hash";
  is_ipv6 = λ a. a == "::1";
  connect = λ address s. (s, true);
  list_upgrading = λ s. some [];
  delete = λ node s. (s, true);
  addresses_of = λ node. [];
  private_key = λ s. some "key";
  decrypt = λ text key. some text;
  new_info = λ address name node. some (record { address = address; node = some node });
}

skips_ipv6 :
    get_address
      (λ a. a == "::1")
      (record { kind = "InternalIP"; address = "::1" }
        ∷ record { kind = "InternalDNS"; address = "host" }
        ∷ [])
    ≡ some "host"
unfolding get_address
skips_ipv6 = refl

abbrev outdated_node : Node
outdated_node = record {
  name = "winworker";
  labels = ("kubernetes.io/os", "windows") ∷ [];
  annotations = ("windowsmachineconfig.openshift.io/version", "10.0") ∷ [];
  addresses = "10.0.0.7" ∷ [];
}

outdated_update-IsOutdated_example :
    (outdated_update "10.1" false outdated_node outdated_node ≡ true)
    ↔ IsOutdated "10.1" false outdated_node outdated_node
outdated_update-IsOutdated_example =
    outdated_update-IsOutdated "10.1" false outdated_node outdated_node

abbrev info : Info
info = record { address = "10.0.0.7"; node = some outdated_node }

upgrades :
    (ensure_instance_is_up_to_date
      (world true)
      reconciler
      version
      (some info)
      []
      []
      outdated_node).1
    ≡ ok tt
unfolding ensure_instance_is_up_to_date on_node configure prepare_instance configure_node
    cleaning_up apply_patch remove_label on_nodes best_effort of_file poll pure fail reads acts each
    skip_if ◌>>=◌ insertion_sorter insertion_sort place lookup insert delete
upgrades = refl

ensure_instance_is_up_to_date-IsAt_example :
    ((is_up_to_date version info ≡ true)
      × ((ensure_instance_is_up_to_date
            (world true)
            reconciler
            version
            (some info)
            []
            []
            outdated_node).0
          ≡ outdated_node))
    ⊎ ((node : Node) × IsKnown (world true) (some outdated_node) "10.0.0.7" node
        × IsAt one_node version node.name
            (ensure_instance_is_up_to_date
              (world true)
              reconciler
              version
              (some info)
              []
              []
              outdated_node).0)
ensure_instance_is_up_to_date-IsAt_example =
    ensure_instance_is_up_to_date-IsAt (world true) reconciler version world-NodeLaws info [] []
      outdated_node upgrades

abbrev old_name : String
old_name = "windows-services-10.0"

abbrev services_cm : String → ConfigMap
services_cm name = record {
  name = name;
  namespace = "wmco";
  creation_timestamp = 0;
  immutable = true;
  content = [];
}

-- The state says whether the ConfigMap of version 10.0 is there, which a node is at.
abbrev api : Api
api = record {
  State = Bool;
  windows_nodes = λ s. some (outdated_node ∷ []);
  config_maps = λ s. some (
      services_cm "windows-services-9.0"
      ∷ services_cm "windows-services-10.0"
      ∷ services_cm "windows-services-10.1"
      ∷ []);
  delete = λ cm s. (if cm.name == old_name then false else s, true);
}

still_there :
    (cm : ConfigMap) (t : Bool) → cm.name ≢ old_name → t ≡ true → (api.delete cm t).0 ≡ true
still_there cm t other there = ground (arith, eq_iff cm.name old_name, there)

node_is_at :
    (nodes : List Node)
    → api.windows_nodes true ≡ some nodes
    → (n : Node) × In n nodes × (lookup version_annotation n.annotations ≡ some "10.0")
unfolding lookup
node_is_at nodes listed =
    let same : outdated_node ∷ [] ≡ nodes = ground (arith, listed) in
    (outdated_node, subst (In outdated_node) same (inl refl), refl)

old_version : trim_prefix old_name name_prefix ≡ "10.0"
unfolding trim_prefix
old_version = refl

remove_outdated_services_config_maps_keeps_example :
    (remove_outdated_services_config_maps api "10.1" true).0 ≡ true
remove_outdated_services_config_maps_keeps_example =
    remove_outdated_services_config_maps_keeps api "10.1" (λ s. s ≡ true) old_name "10.0" true
      still_there old_version (inr node_is_at) refl

all_removed : (remove_outdated_services_config_maps api "10.1" true).1 ≡ ok tt
unfolding remove_outdated_services_config_maps remove_unless_tied is_tied_to_relevant_version
    trim_prefix get_version_annotations reads acts each skip_if pure ◌>>=◌
all_removed = refl

abbrev manifest : Data
manifest = record {
  services = [];
  files = [];
  environment_vars = none;
  watched_environment_vars = nil;
}

not_parsed :
    (found : Data)
    → parse (sample_json [] [] nil) by_priority [] ≡ ok found
    → HasUniqueKeys (map_entries found.environment_vars)
unfolding parse
not_parsed found read = absurd (ground (arith, read))

reconcile_services_cm-HasContent_example :
    (((reconcile_services_cm api
          (sample_json [] [] nil)
          by_priority
          manifest
          "10.1"
          (services_cm old_name)
          true).1
        ≡ ok tt)
      ↔ IsExpected api "10.1" (sample_json [] [] nil) by_priority manifest (services_cm old_name))
    × (((reconcile_services_cm api
            (sample_json [] [] nil)
            by_priority
            manifest
            "10.1"
            (services_cm old_name)
            true).1
          ≡ err panicked)
        ↔ ((¬ IsExpected api "10.1"
              (sample_json [] [] nil)
              by_priority
              manifest
              (services_cm old_name))
            × ((api.delete
                  (services_cm old_name)
                  (remove_outdated_services_config_maps api "10.1" true).0).1
                ≡ true)))
reconcile_services_cm-HasContent_example =
    reconcile_services_cm-HasContent api "10.1" (sample_json [] [] nil) by_priority manifest
      (services_cm old_name) not_parsed true all_removed
