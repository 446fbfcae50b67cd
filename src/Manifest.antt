-- ===== src/Manifest.antt =====
-- pkg/services/services.go: the services that the operator wants on each Windows instance.
pub mod Paths
pub mod Generated
mod Tests
use Prim.Native.String.{◌++◌}
use windows_machine_config_o.Common.{
  ℕ, String, Bool, true, false, Option, none, some, List, [], ◌∷◌, Map, lookup, Result, ok, ◌==◌,
  if◌then◌else◌, Slice, nil, items, Sorter,
}
use windows_machine_config_o.Common.Text.{replace_all, path_base}
use windows_machine_config_o.ServicesCm.Types.{Service, NodeCmdArg, PowershellPreScript, Data}
use windows_machine_config_o.ServicesCm.Dependencies.{Error}
use windows_machine_config_o.ServicesCm.Priorities.{less_priority, new_data}
use windows_machine_config_o.Cluster.{watched_environment_vars}
use windows_machine_config_o.Manifest.Paths

abbrev hostname_override_var : String
hostname_override_var = "HOSTNAME_OVERRIDE"

abbrev node_ip_var : String
node_ip_var = "NODE_IP"

abbrev cloud_provider_option : String
cloud_provider_option = "cloud-provider"

abbrev cloud_config_option : String
cloud_config_option = "cloud-config"

abbrev hybrid_overlay_subnet : String
hybrid_overlay_subnet = "k8s.ovn.org/hybrid-overlay-node-subnet"

abbrev windows_os_label : String
windows_os_label = "node.openshift.io/os_id=Windows"

abbrev node_name_arg : NodeCmdArg
node_name_arg = record { name = "NODE_NAME"; node_object_json_path = "{.metadata.name}" }

unfoldable pub klog_verbosity_arg : Bool → String
klog_verbosity_arg true = "--v=4"
klog_verbosity_arg false = "--v=2"

-- `getHostnameCmd`.
unfoldable pub get_hostname_cmd : String → String
get_hostname_cmd platform =
    if platform == "AWS"
    then "Invoke-RestMethod -UseBasicParsing -Uri http://169.254.169.254/latest/meta-data/local-hostname"
    else (if platform == "GCP"
        then Paths.gcp_get_hostname_script_remote_path
        else (if platform == "VSphere" then Paths.get_hostname_fqdn_command else ""))

-- `containerdConfiguration`.
unfoldable pub containerd_command : Bool → String
containerd_command debug =
    Paths.containerd_path
    ++ " --config "
    ++ Paths.containerd_conf_path
    ++ " --log-file "
    ++ Paths.containerd_log_path
    ++ " --run-service"
    ++ (if debug then " --log-level debug" else " --log-level info")

abbrev pub containerd_configuration : Bool → Service
containerd_configuration debug = record {
  name = Paths.containerd_service_name;
  command = containerd_command debug;
  node_variables_in_command = nil;
  powershell_pre_scripts = items (
      record {
        variable_name = "";
        path =
            Paths.win_defender_exclusion_script_remote_path ++ " -BinPath "
            ++ Paths.containerd_path;
        node_args = nil;
      }
      ∷ []);
  dependencies = nil;
  bootstrap = true;
  priority = 0;
}

-- `azureCloudNodeManagerConfiguration`.
abbrev pub azure_cloud_node_manager_configuration : Service
azure_cloud_node_manager_configuration = record {
  name = Paths.azure_cloud_node_manager_service_name;
  command =
      Paths.azure_cloud_node_manager_path
      ++ " --windows-service --node-name=NODE_NAME --wait-routes=false --kubeconfig="
      ++ Paths.wicd_kubeconfig_path;
  node_variables_in_command = items (node_name_arg ∷ []);
  powershell_pre_scripts = nil;
  dependencies = nil;
  bootstrap = false;
  priority = 3;
}

-- `hybridOverlayConfiguration`.
unfoldable pub hybrid_overlay_command : String → Bool → String
hybrid_overlay_command vxlan_port debug =
    Paths.hybrid_overlay_path
    ++ " --node NODE_NAME --bootstrap-kubeconfig="
    ++ Paths.kubeconfig_path
    ++ " --cert-dir="
    ++ Paths.cni_conf_dir
    ++ " --cert-duration=24h --windows-service --logfile "
    ++ Paths.hybrid_overlay_log_dir
    ++ "\\hybrid-overlay.log"
    ++ (if vxlan_port == "" then "" else " --hybrid-overlay-vxlan-port " ++ vxlan_port)
    ++ (if debug then " --loglevel 5" else "")

abbrev pub hybrid_overlay_configuration : String → Bool → Service
hybrid_overlay_configuration vxlan_port debug = record {
  name = Paths.hybrid_overlay_service_name;
  command = hybrid_overlay_command vxlan_port debug;
  node_variables_in_command = items (node_name_arg ∷ []);
  powershell_pre_scripts = nil;
  dependencies = items (Paths.kubelet_service_name ∷ []);
  bootstrap = false;
  priority = 2;
}

-- `kubeProxyConfiguration`.
unfoldable pub kube_proxy_script : Bool → PowershellPreScript
kube_proxy_script debug = record {
  variable_name = "";
  path =
      Paths.network_conf_script_path
      ++ " -hostnameOverride NODE_NAME -clusterCIDR NODE_SUBNET -kubeConfigPath KUBE_CONFIG_PATH -kubeProxyConfigPath KUBE_PROXY_CONFIG_PATH -verbosity VERBOSITY";
  node_args = items (
      node_name_arg
      ∷ record {
        name = "NODE_SUBNET";
        node_object_json_path =
            "{.metadata.annotations." ++ replace_all hybrid_overlay_subnet "." "\\." ++ "}";
      }
      ∷ record { name = "KUBE_CONFIG_PATH"; node_object_json_path = Paths.kubeconfig_path }
      ∷ record {
        name = "KUBE_PROXY_CONFIG_PATH";
        node_object_json_path = Paths.kube_proxy_config_path;
      }
      ∷ record { name = "VERBOSITY"; node_object_json_path = if debug then "4" else "0" }
      ∷ []);
}

abbrev pub kube_proxy_configuration : Bool → Service
kube_proxy_configuration debug = record {
  name = Paths.kube_proxy_service_name;
  command =
      Paths.kube_log_runner_path ++ " -log-file=" ++ Paths.kube_proxy_log ++ " "
      ++ Paths.kube_proxy_path ++ " --config " ++ Paths.kube_proxy_config_path
      ++ " --windows-service";
  node_variables_in_command = nil;
  powershell_pre_scripts = items (kube_proxy_script debug ∷ []);
  dependencies = items (Paths.hybrid_overlay_service_name ∷ []);
  bootstrap = false;
  priority = 3;
}

-- `csiProxyConfiguration`.
unfoldable pub csi_proxy_command : Bool → String
csi_proxy_command debug =
    Paths.csi_proxy_path
    ++ " -log_file="
    ++ Paths.csi_proxy_log
    ++ " -logtostderr=false -windows-service "
    ++ klog_verbosity_arg debug

abbrev pub csi_proxy_configuration : Bool → Service
csi_proxy_configuration debug = record {
  name = "csi-proxy";
  command = csi_proxy_command debug;
  node_variables_in_command = nil;
  powershell_pre_scripts = nil;
  dependencies = nil;
  bootstrap = false;
  priority = 2;
}

-- The arguments for the options of the ignition file.
unfoldable pub cloud_args : Option String → Option String → List String
unfolding path_base
cloud_args none none = []
cloud_args (some provider) none = ("--" ++ cloud_provider_option ++ "=" ++ provider) ∷ []
cloud_args none (some file) =
    ("--" ++ cloud_config_option ++ "=" ++ Paths.k8s_dir ++ "\\" ++ path_base file) ∷ []
cloud_args (some provider) (some file) =
    ("--" ++ cloud_provider_option ++ "=" ++ provider)
    ∷ ("--" ++ cloud_config_option ++ "=" ++ Paths.k8s_dir ++ "\\" ++ path_base file)
    ∷ []

abbrev join_args : String → List String → String
join_args command [] = command
join_args command (arg ∷ args) = join_args (command ++ " " ++ arg) args

-- `generateKubeletArgs`, whose error is always nil.
unfoldable pub generate_kubelet_args : Map String → Bool → List String
unfolding lookup
generate_kubelet_args args debug =
    ("--config=" ++ Paths.kubelet_config_path)
    ∷ ("--bootstrap-kubeconfig=" ++ Paths.bootstrap_kubeconfig_path)
    ∷ ("--kubeconfig=" ++ Paths.kubeconfig_path)
    ∷ "--cert-dir=c:\\var\\lib\\kubelet\\pki\\"
    ∷ "--windows-service"
    ∷ ("--node-labels=" ++ windows_os_label)
    ∷ "--windows-priorityclass=ABOVE_NORMAL_PRIORITY_CLASS"
    ∷ klog_verbosity_arg debug
    ∷ cloud_args (lookup cloud_provider_option args) (lookup cloud_config_option args)

-- `getKubeletServiceConfiguration`.
unfoldable pub kubelet_command : Map String → Bool → String → String
kubelet_command args debug platform =
    join_args
      (Paths.kube_log_runner_path ++ " -log-file=" ++ Paths.kubelet_log ++ " "
        ++ Paths.kubelet_path)
      (generate_kubelet_args args debug)
    ++ (if get_hostname_cmd platform == ""
        then ""
        else " --hostname-override=" ++ hostname_override_var)
    ++ " --node-ip="
    ++ node_ip_var
    ++ (if platform == "AWS"
        then " --image-credential-provider-bin-dir=" ++ Paths.k8s_dir
          ++ " --image-credential-provider-config=" ++ Paths.credential_provider_config
        else "")

abbrev node_ip_script : PowershellPreScript
node_ip_script = record {
  variable_name = node_ip_var;
  path =
      "(Get-NetRoute -DestinationPrefix '0.0.0.0/0' | Get-NetIpAddress -AddressFamily IPv4 -ifIndex {$_.ifIndex}[0]).IPAddress";
  node_args = nil;
}

unfoldable pub kubelet_scripts : String → List PowershellPreScript
kubelet_scripts command =
    if command == ""
    then node_ip_script ∷ []
    else record { variable_name = hostname_override_var; path = command; node_args = nil }
      ∷ node_ip_script
      ∷ []

abbrev pub kubelet_service_configuration : Map String → Bool → String → Service
kubelet_service_configuration args debug platform = record {
  name = Paths.kubelet_service_name;
  command = kubelet_command args debug platform;
  node_variables_in_command = nil;
  powershell_pre_scripts = items (kubelet_scripts (get_hostname_cmd platform));
  dependencies = items (Paths.containerd_service_name ∷ []);
  bootstrap = true;
  priority = 1;
}

abbrev pub windows_exporter_configuration : Service
windows_exporter_configuration = record {
  name = Paths.windows_exporter_service_name;
  command =
      Paths.windows_exporter_path
      ++ " --collectors.enabled cpu,cs,logical_disk,net,os,service,system,textfile,container,memory,cpu_info --web.config.file "
      ++ Paths.tls_conf_path;
  node_variables_in_command = nil;
  powershell_pre_scripts = nil;
  dependencies = nil;
  bootstrap = false;
  priority = 2;
}

-- The service that is appended on Azure.
unfoldable pub azure_services : Bool → List Service
azure_services true = azure_cloud_node_manager_configuration ∷ []
azure_services false = []

-- The services of `GenerateManifest`.
unfoldable pub services_for : Map String → String → String → Bool → Bool → List Service
services_for args vxlan_port platform debug azure =
    windows_exporter_configuration
    ∷ containerd_configuration debug
    ∷ kubelet_service_configuration args debug platform
    ∷ hybrid_overlay_configuration vxlan_port debug
    ∷ kube_proxy_configuration debug
    ∷ csi_proxy_configuration debug
    ∷ azure_services azure

abbrev pub manifest_services : Map String → String → String → Bool → List Service
manifest_services args vxlan_port platform debug =
    services_for args vxlan_port platform debug (platform == "Azure")

-- `GenerateManifest`; the proxy variables are those that `GetProxyVars` answers.
unfoldable pub generate_manifest :
    Sorter less_priority → Map String → String → String → Bool → Map String → Result Error Data
unfolding new_data
generate_manifest by_priority args vxlan_port platform debug proxy_vars =
    new_data by_priority (manifest_services args vxlan_port platform debug) [] proxy_vars
      (items watched_environment_vars)
