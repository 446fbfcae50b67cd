-- ===== src/Daemon/Controller/Reconcile/Tests.antt =====
-- A run of Reconcile on a small Windows, and the theorem at it.
use windows_machine_config_o.Common.{
  String, ◌≡◌, ◌≢◌, refl, sym, ap, ◌==◌, eq_iff, inl, true, false, none, some, [], ◌∷◌, Map, nil,
  items, Result, ok, arith, lookup, insert, keep, Sorter, IsOrder, insertion_sorter, insertion_sort,
  place,
}
use windows_machine_config_o.Common.Actions.{pure, fail, reads, acts, each, skip_if, ◌>>=◌}
use windows_machine_config_o.Common.Text.{trim_space, trim_left, trim_right}
use windows_machine_config_o.Metadata.{version_annotation}
use windows_machine_config_o.ServicesCm.Types.{Service, Data}
use windows_machine_config_o.ServicesCm.Dependencies.{validate_dependencies}
use windows_machine_config_o.ServicesCm.Priorities.{less_priority, new_data}
use windows_machine_config_o.ServicesCm.ConfigMap.{ConfigMap, Json, parse, required, optional}
use windows_machine_config_o.Daemon.EnvVar.{
  Registry, value, absent, not_there, reconcile as reconcile_env_vars,
}
use windows_machine_config_o.Daemon.Certs.{Machine, no_block, reconcile as reconcile_certs}
use windows_machine_config_o.Daemon.Cleanup.{put_items}
use windows_machine_config_o.Daemon.Manager.{
  Config, ServiceError, ensure_service_state, change_state, wait_for_state, poll_immediate,
  get_services,
}
use windows_machine_config_o.Daemon.Controller.{
  Node, reconcile_services, reconcile_listed, prepare, reconcile_service, update_service,
  expected_service_command, node_vars, resolve_powershell_variables, slices_equivalent,
}
use windows_machine_config_o.Daemon.Controller.Written.{kept_or}
use windows_machine_config_o.Daemon.Controller.Configured.{CanSettle}
use windows_machine_config_o.Daemon.Controller.Reconcile.{
  Cluster, got, configured, desired_version_annotation, reconcile, services_data, reconcile_node,
  follow, configure, configure_unless, reconcile_env_vars_and_certs, after_changes, on_node,
  on_services, annotate, wait_for_variables, still_needs_reboot, wait_until_node_ready,
}
use windows_machine_config_o.Daemon.Controller.Reconcile.Annotated.{
  AsideLaws, Unchanged, Reported, behind_changes, reconcile-Reported,
}
use windows_machine_config_o.Daemon.Simulation.{
  Entry, small_windows, small_windows_stable, small_windows_config, small_instance,
  unchanged-SameServices,
}

abbrev ten_one : String
ten_one = "10.1"

abbrev containerd : Service
containerd = record {
  name = "containerd";
  command = "containerd.exe";
  node_variables_in_command = nil;
  powershell_pre_scripts = nil;
  dependencies = nil;
  bootstrap = true;
  priority = 0;
}

abbrev own_node : Node
own_node = record {
  name = "node-1";
  annotations = (desired_version_annotation, "10.1") ∷ (version_annotation, "10.1") ∷ [];
  conditions = ("Ready", "True") ∷ [];
}

abbrev services_cm : ConfigMap
services_cm = record {
  name = "windows-services-10.1";
  namespace = "openshift-windows-machine-config-operator";
  creation_timestamp = 1;
  immutable = true;
  content =
      ("services", "s")
      ∷ ("files", "f")
      ∷ ("environmentVars", "e")
      ∷ ("watchedEnvironmentVars", "w")
      ∷ [];
}

abbrev small_json : Json
small_json = record {
  services = record { marshal = λ _. ok "s"; unmarshal = λ _. ok (containerd ∷ []) };
  files = record { marshal = λ _. ok "f"; unmarshal = λ _. ok [] };
  env_vars = record {
    marshal = λ _. ok "e";
    unmarshal = λ _. ok (("HTTP_PROXY", "10.0.0.1") ∷ []);
  };
  watched = record { marshal = λ _. ok "w"; unmarshal = λ _. ok (items ("HTTP_PROXY" ∷ [])) };
}

priority-IsOrder : IsOrder less_priority
priority-IsOrder = record { asymm = λ x y h. ground arith; trans = λ x y z h k. ground arith }

abbrev sorted : Sorter less_priority
sorted = insertion_sorter less_priority priority-IsOrder

abbrev small_cluster : Cluster small_windows
small_cluster = record {
  get = λ _. got own_node;
  get_config_map = λ _ _. some services_cm;
  apply_reboot_annotation = λ s. (s, true);
  apply_version_annotation = λ version s. (s, version == "10.1");
  pause = λ s. s;
}

abbrev small_registry : Registry
small_registry = record {
  State = Map String;
  can_open = λ _. true;
  get_string_value = λ k s. elim (lookup k s) [ none ↦ absent | some v ↦ value v ];
  set_string_value = λ k v s. (insert k v s, true);
  delete_value = λ _ s. (s, not_there);
}

abbrev small_machine : Machine
small_machine = record {
  State = Unit;
  read = λ _ _. none;
  exists = λ _ _. some false;
  remove = λ _ s. (s, true);
  copy = λ _ _ s. (s, true);
  can_open_store = λ _. true;
  add_cert = λ _ s. (s, true);
  remove_cert = λ _ s. (s, true);
}

abbrev small_host : Map Entry × Map String × Unit {0}
small_host = ([], ("HTTP_PROXY", "10.0.0.1") ∷ [], tt)

abbrev small_data : Data
small_data = record {
  services = containerd ∷ [];
  files = [];
  environment_vars = some (("HTTP_PROXY", "10.0.0.1") ∷ []);
  watched_environment_vars = items ("HTTP_PROXY" ∷ []);
}

desired_here : lookup desired_version_annotation own_node.annotations ≡ some "10.1"
unfolding lookup
desired_here = refl

small_data_read :
    services_data small_windows small_instance small_cluster small_registry small_machine
      (λ _. no_block)
      ""
      2
      small_json
      sorted
      "10.1"
      []
    ≡ ok small_data
unfolding services_data parse required optional new_data lookup insertion_sorter insertion_sort
    place validate_dependencies
small_data_read = refl

it_is_configured :
    (reconcile small_windows small_instance small_cluster small_registry small_machine
      (λ _. no_block)
      ""
      2
      small_json
      sorted
      small_host).1
    ≡ ok (configured "10.1")
unfolding reconcile reconcile_node follow configure configure_unless reconcile_env_vars_and_certs
    after_changes on_node on_services annotate wait_for_variables still_needs_reboot
    wait_until_node_ready reconcile_env_vars reconcile_certs trim_space trim_left trim_right lookup
    insert keep reconcile_services reconcile_listed prepare reconcile_service update_service
    expected_service_command node_vars resolve_powershell_variables slices_equivalent get_services
    put_items kept_or ensure_service_state change_state wait_for_state poll_immediate pure fail
    reads acts each skip_if ◌>>=◌ services_data parse required optional new_data insertion_sorter
    insertion_sort place validate_dependencies
it_is_configured = refl

version_annotated :
    (version : String) (s : Map Entry)
    → (small_cluster.apply_version_annotation version s).1 ≡ true
    → lookup version_annotation own_node.annotations ≡ some version
unfolding lookup
version_annotated version s worked = ap some (sym ((eq_iff version "10.1").0 worked))

small_aside : AsideLaws small_windows small_windows_stable small_cluster
small_aside = record {
  pause_aside = unchanged-SameServices;
  reboot_aside = unchanged-SameServices;
  annotates = λ version s worked. (own_node, refl, version_annotated version s worked);
  version_aside = λ _ s. unchanged-SameServices s;
}

containerd_command :
    (t : Map Entry)
    → (expected_service_command small_windows small_instance containerd t).1 ≡ ok "containerd.exe"
unfolding expected_service_command node_vars resolve_powershell_variables pure ◌>>=◌
containerd_command t = refl

given :
    (r : Result ServiceError String) (full cmd : String)
    → (full == "") ≡ false
    → r ≡ ok full
    → r ≡ ok cmd
    → cmd ≢ ""
given r full cmd used resolves resolved e =
    absurd (ground (arith, used, resolves, resolved, e, eq_iff full ""))

nothing_installed : (c : Config) → small_windows.config "containerd" [] ≢ some c
unfolding lookup
nothing_installed c e = absurd (ground (arith, e))

containerd-CanSettle :
    CanSettle small_windows small_instance 2 small_windows_stable small_windows_config containerd []
containerd-CanSettle = record {
  commands = λ t cmd resolved. given _ "containerd.exe" cmd refl (containerd_command t) resolved;
  cleared = λ none_expected c found. absurd (nothing_installed c found);
}

reconcile-Reported_example :
    (ten_one ≡ ten_one)
    × Unchanged small_windows small_instance small_cluster small_registry small_machine
        small_windows_stable small_windows_config small_aside
        (λ _. no_block)
        ""
        2
        small_data
        small_host
    × Reported small_windows small_instance small_cluster small_registry small_machine
        small_windows_stable small_windows_config small_aside
        (λ _. no_block)
        ""
        2
        ten_one
        (containerd ∷ [])
        (behind_changes small_windows small_instance small_cluster small_registry small_machine
          small_windows_stable small_windows_config small_aside
          (λ _. no_block)
          ""
          2
          small_data
          small_host)
        containerd
        (reconcile small_windows small_instance small_cluster small_registry small_machine
          (λ _. no_block)
          ""
          2
          small_json
          sorted
          small_host).0.0
reconcile-Reported_example =
    reconcile-Reported small_windows small_instance small_cluster small_registry small_machine
      small_windows_stable small_windows_config small_aside (λ _. no_block) "" 2 small_json sorted
      own_node ten_one ten_one small_data small_host refl desired_here small_data_read (tt, tt)
      it_is_configured containerd (inl refl) containerd-CanSettle
