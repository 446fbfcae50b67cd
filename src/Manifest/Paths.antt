-- ===== src/Manifest/Paths.antt =====
-- pkg/windows/windows.go and pkg/nodeconfig: the paths and names that commands use on an instance.
use Prim.Native.String.{String, ◌++◌}

abbrev pub remote_dir : String
remote_dir = "C:\\Temp"

abbrev pub gcp_get_hostname_script_remote_path : String
gcp_get_hostname_script_remote_path = remote_dir ++ "\\" ++ "gcp-get-hostname.ps1"

abbrev pub win_defender_exclusion_script_remote_path : String
win_defender_exclusion_script_remote_path = remote_dir ++ "\\" ++ "windows-defender-exclusion.ps1"

abbrev pub k8s_dir : String
k8s_dir = "C:\\k"

abbrev pub credential_provider_config : String
credential_provider_config = k8s_dir ++ "\\credential-provider-config.yaml"

abbrev pub kubeconfig_path : String
kubeconfig_path = k8s_dir ++ "\\kubeconfig"

abbrev pub log_dir : String
log_dir = "C:\\var\\log"

abbrev pub kubelet_log_dir : String
kubelet_log_dir = log_dir ++ "\\kubelet"

abbrev pub kube_proxy_log_dir : String
kube_proxy_log_dir = log_dir ++ "\\kube-proxy"

abbrev pub hybrid_overlay_log_dir : String
hybrid_overlay_log_dir = log_dir ++ "\\hybrid-overlay"

abbrev pub cni_dir : String
cni_dir = k8s_dir ++ "\\cni"

abbrev pub cni_conf_dir : String
cni_conf_dir = cni_dir ++ "\\config"

abbrev pub containerd_dir : String
containerd_dir = k8s_dir ++ "\\containerd"

abbrev pub tls_dir : String
tls_dir = k8s_dir ++ "\\tls"

abbrev pub tls_conf_path : String
tls_conf_path = tls_dir ++ "\\windows-exporter-webconfig.yaml"

abbrev pub containerd_path : String
containerd_path = containerd_dir ++ "\\containerd.exe"

abbrev pub containerd_conf_path : String
containerd_conf_path = containerd_dir ++ "\\containerd_conf.toml"

abbrev pub containerd_log_dir : String
containerd_log_dir = log_dir ++ "\\containerd"

abbrev pub containerd_log_path : String
containerd_log_path = containerd_log_dir ++ "\\containerd.log"

abbrev pub containerd_service_name : String
containerd_service_name = "containerd"

abbrev pub windows_exporter_path : String
windows_exporter_path = k8s_dir ++ "\\windows_exporter.exe"

abbrev pub network_conf_script_path : String
network_conf_script_path = remote_dir ++ "\\network-conf.ps1"

abbrev pub azure_cloud_node_manager_path : String
azure_cloud_node_manager_path = k8s_dir ++ "\\" ++ "azure-cloud-node-manager.exe"

abbrev pub bootstrap_kubeconfig_path : String
bootstrap_kubeconfig_path = k8s_dir ++ "\\bootstrap-kubeconfig"

abbrev pub kubelet_path : String
kubelet_path = k8s_dir ++ "\\kubelet.exe"

abbrev pub kube_log_runner_path : String
kube_log_runner_path = k8s_dir ++ "\\kube-log-runner.exe"

abbrev pub kubelet_config_path : String
kubelet_config_path = k8s_dir ++ "\\kubelet.conf"

abbrev pub kubelet_log : String
kubelet_log = kubelet_log_dir ++ "\\kubelet.log"

abbrev pub kube_proxy_config_path : String
kube_proxy_config_path = k8s_dir ++ "\\kube-proxy.conf"

abbrev pub kube_proxy_log : String
kube_proxy_log = kube_proxy_log_dir ++ "\\kube-proxy.log"

abbrev pub kube_proxy_path : String
kube_proxy_path = k8s_dir ++ "\\kube-proxy.exe"

abbrev pub csi_proxy_path : String
csi_proxy_path = k8s_dir ++ "\\csi-proxy.exe"

abbrev pub csi_proxy_log_dir : String
csi_proxy_log_dir = log_dir ++ "\\csi-proxy"

abbrev pub csi_proxy_log : String
csi_proxy_log = csi_proxy_log_dir ++ "\\csi-proxy.log"

abbrev pub hybrid_overlay_path : String
hybrid_overlay_path = k8s_dir ++ "\\hybrid-overlay-node.exe"

abbrev pub hybrid_overlay_service_name : String
hybrid_overlay_service_name = "hybrid-overlay-node"

abbrev pub kube_proxy_service_name : String
kube_proxy_service_name = "kube-proxy"

abbrev pub kubelet_service_name : String
kubelet_service_name = "kubelet"

abbrev pub windows_exporter_service_name : String
windows_exporter_service_name = "windows_exporter"

abbrev pub azure_cloud_node_manager_service_name : String
azure_cloud_node_manager_service_name = "cloud-node-manager"

abbrev pub wicd_kubeconfig_path : String
wicd_kubeconfig_path = k8s_dir ++ "\\wicd-kubeconfig"

abbrev pub get_hostname_fqdn_command : String
get_hostname_fqdn_command =
    "$output = Invoke-Expression 'ipconfig /all'; "
    ++ "$hostNameLine = ($output -split '`n') | Where-Object { $_ -match 'Host Name' }; "
    ++ "$dnsSuffixLine = ($output -split '`n') | Where-Object { $_ -match 'Primary Dns Suffix' }; "
    ++ "$hostName = ($hostNameLine -split ':')[1].Trim(); "
    ++ "$dnsSuffix = ($dnsSuffixLine -split ':')[1].Trim(); "
    ++ "if (-not $dnsSuffix) { return $hostName }; " ++ "$fqdn = $hostName + '.' + $dnsSuffix; "
    ++ "return $fqdn"

abbrev pub tls_certs_path : String
tls_certs_path = tls_dir ++ "\\certs"

abbrev pub containerd_config_dir : String
containerd_config_dir = containerd_dir ++ "\\registries"

abbrev pub trusted_ca_bundle_path : String
trusted_ca_bundle_path = k8s_dir ++ "\\ca-bundle.crt"

abbrev pub wicd_service_name : String
wicd_service_name = "windows-instance-config-daemon"
