-- ===== src/Daemon/Manager/Tests.antt =====
-- The manager on a small Windows, and the theorems at it.
use windows_machine_config_o.Common.{
  ℕ, String, ◌≡◌, ◌≢◌, refl, sym, subst, ap, inl, inr, true, false, none, some, List, [], ◌∷◌, Map,
  Slice, nil, items, In, ok, err, arith, lookup, insert, delete, ◌==◌, eq_iff, leb, suc, Bool-cases,
  if◌then◌else◌,
}
use windows_machine_config_o.Common.Actions.{pure, fail, reads, acts, each, skip_if, ◌>>=◌}
use windows_machine_config_o.ServicesCm.Types.{Service}
use windows_machine_config_o.Daemon.Cleanup.{remove_services, remove_named, remove_tagged}
use windows_machine_config_o.Daemon.Manager.{
  WindowsApi, opened, start_pending, ServiceState, stopped, running, ensure_service_state,
  delete_service, change_state, stop_service_and_process, stop_process, end_process,
  wait_for_process_to_stop, wait_for_state, poll_immediate, open_service, no_fuel,
}
use windows_machine_config_o.Daemon.Manager.States.{IsIn, ensure_service_state-IsIn}
use windows_machine_config_o.Daemon.Manager.Waiting.{wait_for_state_reaches}
use windows_machine_config_o.Daemon.Manager.Dependents.{Ranked, ensure_service_state-ne-no_fuel}
use windows_machine_config_o.Daemon.Manager.Removal.{
  windows_manager, remove_services-windows_manager,
}
use windows_machine_config_o.Daemon.Simulation.{
  Entry, small_windows, small_windows_stable, small_windows_removal,
}

abbrev entry : ServiceState → Slice String → List String → Entry
entry state dependencies dependents = record {
  config = record {
    binary_path_name = "x.exe";
    description = "OpenShift managed x";
    dependencies = dependencies;
  };
  state = state;
  dependents = dependents;
}

-- kubelet depends on containerd; both run.
abbrev two_services : Map Entry
two_services =
    ("containerd", entry running nil ("kubelet" ∷ []))
    ∷ ("kubelet", entry running (items ("containerd" ∷ [])) [])
    ∷ []

abbrev both_stopped : Map Entry
both_stopped =
    ("containerd", entry stopped nil ("kubelet" ∷ []))
    ∷ ("kubelet", entry stopped (items ("containerd" ∷ [])) [])
    ∷ []

ensure_stopped_run :
    ensure_service_state small_windows 2 "containerd" stopped two_services ≡ (both_stopped, ok tt)
unfolding ensure_service_state change_state stop_service_and_process stop_process end_process
    wait_for_process_to_stop wait_for_state poll_immediate open_service pure fail reads acts each
    skip_if ◌>>=◌ lookup insert
ensure_stopped_run = refl

stopped_ok : (ensure_service_state small_windows 2 "containerd" stopped two_services).1 ≡ ok tt
stopped_ok = ap (λ r. r.1) ensure_stopped_run

ensure_service_state-IsIn_example :
    IsIn small_windows small_windows_stable "containerd" stopped
      (ensure_service_state small_windows 2 "containerd" stopped two_services).0
ensure_service_state-IsIn_example =
    ensure_service_state-IsIn small_windows small_windows_stable 2 "containerd" stopped two_services
      stopped_ok

abbrev depth : String → ℕ
depth n = if n == "containerd" then 1 else 0

two_services-Ranked : Ranked small_windows depth two_services
unfolding lookup
two_services-Ranked = record {
  rank_lt = λ n d ds listed i. elim (Bool-cases ("containerd" == n)) [
    | inl e ↦
        let n_is : n ≡ "containerd" = sym ((eq_iff "containerd" n).0 e) in
        let ds_is : ds ≡ "kubelet" ∷ [] = ground (arith, e, listed) in
        let in_one : In d ("kubelet" ∷ []) = subst (In d) ds_is i in
        let d_is : d ≡ "kubelet" = elim in_one [
          | inl same ↦ same
          | inr none_left ↦ absurd none_left
        ] in
        rw (n_is, d_is) (ground arith)
    | inr other ↦ elim (Bool-cases ("kubelet" == n)) [
      | inl e ↦
          let ds_is : ds ≡ [] = ground (arith, other, e, listed) in absurd (subst (In d) ds_is i)
      | inr neither ↦ absurd (ground (arith, other, neither, listed))
    ]
  ];
}

ensure_service_state-ne-no_fuel_example :
    (ensure_service_state small_windows 2 "containerd" stopped two_services).1 ≢ err no_fuel
ensure_service_state-ne-no_fuel_example =
    ensure_service_state-ne-no_fuel small_windows small_windows_stable depth 2 "containerd" stopped
      two_services two_services-Ranked (ground arith)

abbrev kubelet : Service
kubelet = record {
  name = "kubelet";
  command = "kubelet.exe";
  node_variables_in_command = nil;
  powershell_pre_scripts = nil;
  dependencies = nil;
  bootstrap = true;
  priority = 1;
}

kubelet_removed :
    (remove_services (windows_manager small_windows 2) (kubelet ∷ []) false two_services).1 ≡ ok tt
unfolding remove_services remove_named remove_tagged delete_service ensure_service_state
    change_state stop_service_and_process stop_process end_process wait_for_process_to_stop
    wait_for_state poll_immediate open_service pure fail reads acts each skip_if ◌>>=◌ lookup insert
    delete
kubelet_removed = refl

remove_services-windows_manager_example :
    small_windows_stable.installed
      (remove_services (windows_manager small_windows 2) (kubelet ∷ []) false two_services).0
      "kubelet"
    ≡ false
remove_services-windows_manager_example =
    remove_services-windows_manager small_windows 2 small_windows_stable small_windows_removal
      (kubelet ∷ []) false two_services "kubelet" kubelet_removed (inl refl)

-- A Windows on which each service runs two intervals after the start.
abbrev slow_windows : WindowsApi
slow_windows = record {
  State = ℕ;
  list_services = λ _. some [];
  open_service = λ _ _. opened;
  create_service = λ _ s. (s, false);
  delete = λ _ s. (s, false);
  query =
      λ _ s. some (record { state = if leb 2 s then running else start_pending; process_id = 1 });
  config = λ _ _. none;
  update_config = λ _ _ s. (s, false);
  list_dependent_services = λ _ _. some [];
  start = λ _ _. (0, true);
  control_stop = λ _ s. (s, false);
  open_process = λ _ _. true;
  get_exit_code_process = λ _ _. some 0;
  terminate_process = λ _ s. (s, true);
  sleep = suc;
}

wait_for_state_reaches_example : (wait_for_state slow_windows "kubelet" running 0).1 ≡ ok tt
wait_for_state_reaches_example =
    wait_for_state_reaches slow_windows "kubelet" running 2 0
      (record { state = running; process_id = 1 }) (ground arith)
      (λ j le e. absurd (ground (arith, e))) refl refl
