-- ===== src/Daemon/Deconfigure/Tests.antt =====
-- An instance from which one service and one variable are removed, and the theorems at it.
use windows_machine_config_o.Common.{
  String, ◌≡◌, refl, true, false, Option, none, some, List, [], ◌∷◌, Result, ok, arith, Sorter,
  IsOrder, insertion_sorter, insertion_sort, Slice, items, lookup, keep,
}
use windows_machine_config_o.ServicesCm.Types.{Data}
use windows_machine_config_o.ServicesCm.Dependencies.{Error, validate_dependencies}
use windows_machine_config_o.ServicesCm.Priorities.{less_priority}
use windows_machine_config_o.ServicesCm.ConfigMap.{
  ConfigMap, Codec, Json, parse, get_latest, created_after,
}
use windows_machine_config_o.Daemon.Cleanup.{
  Manager, get_merged_cm_data, version_cm_data, remove_services, remove_named, remove_tagged,
}
use windows_machine_config_o.Daemon.EnvVar.{
  reconcile as reconcile_env_vars, ensure_env_vars_are_removed, set_env_vars, env_vars_to_remove,
}
use windows_machine_config_o.Daemon.EnvVar.Kept.{kept, kept_laws}
use windows_machine_config_o.Daemon.Certs.{Machine, Pem, certificate, reconcile as reconcile_certs}
use windows_machine_config_o.Daemon.Deconfigure.{
  Annotations, done, Instance, close, finish, remove_all, deconfigure,
}
use windows_machine_config_o.Daemon.Deconfigure.Panic.{deconfigure-done}

abbrev no_services : Manager
no_services = record {
  State = Unit;
  get_services = λ s. some [];
  get_description = λ n s. none;
  delete_service = λ n s. (s, true);
}

abbrev no_files : Machine
no_files = record {
  State = Unit;
  read = λ p s. none;
  exists = λ p s. some false;
  remove = λ p s. (s, true);
  copy = λ p q s. (s, false);
  can_open_store = λ s. true;
  add_cert = λ c s. (s, true);
  remove_cert = λ c s. (s, true);
}

abbrev no_node : Annotations
no_node = record { State = Unit; apply_reboot = λ s. (s, true); remove_version = λ s. (s, true) }

abbrev instance_before : Instance no_services kept no_files no_node
instance_before = record {
  services = tt;
  env_vars = ("PATH", "windows") ∷ [];
  certs = tt;
  node = tt;
}

abbrev constant : {A : Type 0} → A → Codec A
constant a = record { marshal = λ x. ok ""; unmarshal = λ t. ok a }

abbrev watched : Slice String
watched = items ("HTTP_PROXY" ∷ [])

abbrev json : Json
json = record {
  services = constant [];
  files = constant [];
  env_vars = constant [];
  watched = constant watched;
}

abbrev latest_cm : ConfigMap
latest_cm = record {
  name = "windows-services-1";
  namespace = "wmco";
  creation_timestamp = 1;
  immutable = true;
  content = ("services", "text") ∷ ("files", "text") ∷ ("watchedEnvironmentVars", "text") ∷ [];
}

less_priority-IsOrder : IsOrder less_priority
less_priority-IsOrder = record { asymm = λ x y h. ground arith; trans = λ x y z h k. ground arith }

created_after-IsOrder : IsOrder created_after
created_after-IsOrder = record { asymm = λ x y h. ground arith; trans = λ x y z h k. ground arith }

abbrev by_priority : Sorter less_priority
by_priority = insertion_sorter less_priority less_priority-IsOrder

abbrev newest_first : Sorter created_after
newest_first = insertion_sorter created_after created_after-IsOrder

abbrev listed : Result Error (List ConfigMap)
listed = ok (latest_cm ∷ [])

abbrev get : String → Option ConfigMap
get name = none

abbrev decode : String → Pem
decode token = certificate token

abbrev latest_data : Data
latest_data = record {
  services = [];
  files = [];
  environment_vars = none;
  watched_environment_vars = watched;
}

merged : get_merged_cm_data json by_priority newest_first listed get none ≡ ok (latest_data, true)
unfolding get_merged_cm_data get_latest parse version_cm_data insertion_sorter insertion_sort
    validate_dependencies
merged = refl

finished :
    (deconfigure no_services kept no_files no_node json by_priority newest_first decode listed get
      none instance_before).1
    ≡ done
unfolding deconfigure remove_all finish close remove_services remove_named remove_tagged
    reconcile_env_vars ensure_env_vars_are_removed set_env_vars env_vars_to_remove keep lookup
    reconcile_certs get_merged_cm_data get_latest parse version_cm_data insertion_sorter
    insertion_sort validate_dependencies
finished = refl

deconfigure-done_example :
    (kept_laws.stored
        (deconfigure no_services kept no_files no_node json by_priority newest_first decode listed
          get none instance_before).0.env_vars
        "PATH"
      ≡ kept_laws.stored instance_before.env_vars "PATH")
    × ((reconcile_certs no_files decode "" instance_before.certs).1 ≡ false)
deconfigure-done_example =
    deconfigure-done no_services kept kept_laws no_files no_node json by_priority newest_first
      decode listed get instance_before "PATH" finished
