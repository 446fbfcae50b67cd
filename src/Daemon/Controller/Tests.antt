-- ===== src/Daemon/Controller/Tests.antt =====
-- The controller on a small Windows, and the theorems at it.
use windows_machine_config_o.Common.{
  String, ◌≡◌, ◌≢◌, refl, sym, ap, ◌∙◌, inl, inr, true, false, some, [], ◌∷◌, Map, nil, items,
  elems, Result, ok, arith, lookup, insert, ◌==◌, eq_iff,
}
use windows_machine_config_o.Common.Actions.{pure, fail, reads, acts, each, skip_if, ◌>>=◌}
use windows_machine_config_o.Common.Text.{
  trim_space, trim_left, trim_right, replace_all, replace_from, text_size,
}
use windows_machine_config_o.ServicesCm.Types.{Service}
use windows_machine_config_o.Daemon.Cleanup.{put_items}
use windows_machine_config_o.Daemon.Manager.{
  Config, ServiceError, running, ensure_service_state, change_state, stop_service_and_process,
  stop_process, end_process, wait_for_process_to_stop, wait_for_state, poll_immediate, open_service,
  get_services,
}
use windows_machine_config_o.Daemon.Controller.{
  slices_equivalent, update_required, only_value, resolve_node_value, resolve_values,
  resolve_node_variables, resolve_in_path, resolve_variables_in_path, run_script,
  resolve_powershell_variables, node_vars, expected_service_command, update_service,
  reconcile_service, prepare, reconcile_listed, reconcile_services,
}
use windows_machine_config_o.Daemon.Controller.Written.{kept_or}
use windows_machine_config_o.Daemon.Controller.Configured.{
  CanSettle, Configured, reconcile_services-Configured,
}
use windows_machine_config_o.Daemon.Controller.Steady.{
  reconcile_service_again, update_required_again,
}
use windows_machine_config_o.Daemon.Simulation.{
  Entry, small_windows, small_windows_stable, small_windows_config, small_instance,
}

abbrev containerd : Service
containerd = record {
  name = "containerd";
  command = "containerd.exe";
  node_variables_in_command = nil;
  powershell_pre_scripts = nil;
  dependencies = nil;
  bootstrap = true;
  priority = 0;
}

abbrev kube_proxy : Service
kube_proxy = record {
  name = "kube-proxy";
  command = "kube-proxy.exe --hostname=NODE_NAME --ip=IP";
  node_variables_in_command =
      items (record { name = "NODE_NAME"; node_object_json_path = "{.metadata.name}" } ∷ []);
  powershell_pre_scripts =
      items (record { variable_name = "IP"; path = "ip.ps1"; node_args = nil } ∷ []);
  dependencies = items ("containerd" ∷ []);
  bootstrap = false;
  priority = 1;
}

abbrev old_containerd : Map Entry
old_containerd =
    (
      "containerd",
      record {
        config = record {
          binary_path_name = "old.exe";
          description = "";
          dependencies = items ("dnscache" ∷ []);
        };
        state = running;
        dependents = [];
      },
    )
    ∷ []

both_reconciled :
    (reconcile_services small_windows small_instance 2
      (containerd ∷ kube_proxy ∷ [])
      old_containerd).1
    ≡ ok tt
unfolding reconcile_services reconcile_listed prepare reconcile_service update_service
    expected_service_command node_vars resolve_powershell_variables run_script
    resolve_variables_in_path resolve_in_path resolve_node_variables resolve_values
    resolve_node_value only_value slices_equivalent get_services put_items kept_or trim_space
    trim_left trim_right replace_all replace_from text_size ensure_service_state change_state
    stop_service_and_process stop_process end_process wait_for_process_to_stop wait_for_state
    poll_immediate open_service pure fail reads acts each skip_if ◌>>=◌ lookup insert
both_reconciled = refl

kube_proxy_command :
    (t : Map Entry)
    → (expected_service_command small_windows small_instance kube_proxy t).1
      ≡ ok "kube-proxy.exe --hostname=node-1 --ip=10.0.0.1"
unfolding expected_service_command node_vars resolve_powershell_variables run_script
    resolve_variables_in_path resolve_in_path resolve_node_variables resolve_values
    resolve_node_value only_value trim_space trim_left trim_right replace_all replace_from text_size
    pure reads ◌>>=◌ insert
kube_proxy_command t = refl

given :
    (r : Result ServiceError String) (full cmd : String)
    → (full == "") ≡ false
    → r ≡ ok full
    → r ≡ ok cmd
    → cmd ≢ ""
given r full cmd used resolves resolved e =
    absurd (ground (arith, used, resolves, resolved, e, eq_iff full ""))

kube_proxy-CanSettle :
    CanSettle small_windows small_instance 2 small_windows_stable small_windows_config kube_proxy
      old_containerd
kube_proxy-CanSettle = record {
  commands = λ t cmd resolved. given _ _ cmd refl (kube_proxy_command t) resolved;
  cleared = λ none_expected. absurd (ground (arith, none_expected));
}

names_differ : kube_proxy.name ≢ containerd.name
names_differ e = absurd (ground (arith, (eq_iff kube_proxy.name containerd.name).1 e))

old_listed : get_services small_windows old_containerd ≡ some ("containerd" ∷ [])
unfolding get_services put_items
old_listed = refl

reconcile_services-Configured_example :
    Configured small_windows small_instance 2 small_windows_stable small_windows_config
      (containerd ∷ kube_proxy ∷ [])
      ("containerd" ∷ [])
      old_containerd
      kube_proxy
      (reconcile_services small_windows small_instance 2
        (containerd ∷ kube_proxy ∷ [])
        old_containerd).0
reconcile_services-Configured_example =
    reconcile_services-Configured small_windows small_instance 2 small_windows_stable
      small_windows_config (containerd ∷ kube_proxy ∷ []) ("containerd" ∷ []) old_containerd
      ((names_differ, tt), (tt, tt)) old_listed both_reconciled kube_proxy (inr (inl refl))
      kube_proxy-CanSettle

containerd_reconciled :
    (reconcile_service small_windows small_instance 2 "containerd" containerd old_containerd).1
    ≡ ok tt
unfolding reconcile_service update_service expected_service_command node_vars
    resolve_powershell_variables slices_equivalent kept_or ensure_service_state change_state
    stop_service_and_process stop_process end_process wait_for_process_to_stop wait_for_state
    poll_immediate open_service pure fail reads acts each skip_if ◌>>=◌ lookup insert
containerd_reconciled = refl

abbrev old_config : Config
old_config = record {
  binary_path_name = "old.exe";
  description = "";
  dependencies = items ("dnscache" ∷ []);
}

old_found : small_windows.config "containerd" old_containerd ≡ some old_config
unfolding lookup
old_found = refl

update_required_again_example :
    (c' : Config) × (small_windows.config "containerd"
        (reconcile_service small_windows small_instance 2 "containerd" containerd old_containerd).0
      ≡ some c')
    × (c'.dependencies ≡ items ("dnscache" ∷ []))
    × ((cmd : String) → update_required cmd containerd c' ≡ true)
update_required_again_example =
    update_required_again small_windows small_instance 2 small_windows_stable small_windows_config
      containerd old_containerd old_config old_found (λ e. absurd (ground (arith, e))) refl
      containerd_reconciled

-- A service of an older command without dependencies, which is updated.
abbrev outdated_config : Config
outdated_config = record { binary_path_name = "old.exe"; description = ""; dependencies = nil }

abbrev outdated_containerd : Map Entry
outdated_containerd =
    ("containerd", record { config = outdated_config; state = running; dependents = [] }) ∷ []

outdated_found : small_windows.config "containerd" outdated_containerd ≡ some outdated_config
unfolding lookup
outdated_found = refl

containerd_command :
    (t : Map Entry)
    → expected_service_command small_windows small_instance containerd t ≡ (t, ok "containerd.exe")
unfolding expected_service_command node_vars resolve_powershell_variables pure ◌>>=◌
containerd_command t = refl

outdated-CanSettle :
    CanSettle small_windows small_instance 2 small_windows_stable small_windows_config containerd
      outdated_containerd
outdated-CanSettle = record {
  commands = λ t cmd resolved.
      given _ "containerd.exe" cmd refl (ap (λ r. r.1) (containerd_command t)) resolved;
  cleared = λ none_expected c found.
      let same : outdated_config ≡ c = ground (arith, sym outdated_found ∙ found) in
      ap (λ d. elems d.dependencies) (sym same);
}

containerd_updated :
    (reconcile_service small_windows small_instance 2 "containerd" containerd outdated_containerd).1
    ≡ ok tt
unfolding reconcile_service update_service expected_service_command node_vars
    resolve_powershell_variables slices_equivalent kept_or ensure_service_state change_state
    stop_service_and_process stop_process end_process wait_for_process_to_stop wait_for_state
    poll_immediate open_service pure fail reads acts each skip_if ◌>>=◌ lookup insert
containerd_updated = refl

abbrev updated_containerd : Map Entry
updated_containerd =
    (reconcile_service small_windows small_instance 2 "containerd" containerd outdated_containerd).0

same_command :
    (expected_service_command small_windows small_instance containerd updated_containerd).1
    ≡ (expected_service_command small_windows small_instance containerd outdated_containerd).1
same_command =
    ap (λ r. r.1) (containerd_command updated_containerd)
    ∙ sym (ap (λ r. r.1) (containerd_command outdated_containerd))

quiet :
    small_windows.query "containerd"
      (expected_service_command small_windows small_instance containerd updated_containerd).0
    ≡ small_windows.query "containerd" updated_containerd
quiet = ap (λ r. small_windows.query "containerd" r.0) (containerd_command updated_containerd)

reconcile_service_again_example :
    reconcile_service small_windows small_instance 2 "containerd" containerd updated_containerd ≡ (
      (expected_service_command small_windows small_instance containerd updated_containerd).0,
      ok tt,
    )
reconcile_service_again_example =
    reconcile_service_again small_windows small_instance 1 small_windows_stable small_windows_config
      containerd outdated_containerd outdated-CanSettle containerd_updated same_command quiet
