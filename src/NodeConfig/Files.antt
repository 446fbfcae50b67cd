-- ===== src/NodeConfig/Files.antt =====
-- pkg/nodeconfig/nodeconfig.go: the contents of the files that the operator writes on an instance.
use Prim.Native.String.{◌++◌, [] as nil_text, ◌∷◌ as cons_text}
use windows_machine_config_o.Common.{
  ℕ, String, Bool, true, false, ◌||◌, ◌&&◌, Option, none, some, List, [], ◌∷◌, Map, lookup, insert,
  has_key, Result, ok, err, ◌==◌, if◌then◌else◌, ◌>>=◌,
}
use windows_machine_config_o.Common.Text.{replace_all, path_base}
use windows_machine_config_o.Ignition.{
  File, Ignition, get_kubelet_args, cloud_config_option, cloud_config_path,
  ecr_credential_provider_path,
}
use windows_machine_config_o.Cluster.{Cidr, get_dns}
use windows_machine_config_o.Manifest.Paths

abbrev pub kubelet_client_ca_filename : String
kubelet_client_ca_filename = "kubelet-ca.crt"

pub record Secret : Type 0 where
  pub kind : String
  pub annotations : Map String
  pub content : Map String

pub record Kubeconfig : Type 0 where
  pub server : String
  pub certificate_authority_data : String
  pub user : String
  pub token : String
  pub context : String
  pub context_cluster : String
  pub cluster : String
  pub current_context : String

pub record Taint : Type 0 where
  pub key : String
  pub value : String
  pub effect : String

-- `KubeletConfiguration`, with the fields that are set; durations are in seconds.
pub record KubeletConfiguration : Type 0 where
  pub kind : String
  pub api_version : String
  pub rotate_certificates : Bool
  pub server_tls_bootstrap : Bool
  pub client_ca_file : String
  pub anonymous_enabled : Bool
  pub cluster_domain : String
  pub cluster_dns : List String
  pub cgroups_per_qos : Bool
  pub runtime_request_timeout : ℕ
  pub max_pods : ℕ
  pub kube_api_qps : ℕ
  pub kube_api_burst : ℕ
  pub serialize_image_pulls : Bool
  pub enable_system_log_query : Bool
  pub feature_gates : Map Bool
  pub container_log_max_size : String
  pub enforce_node_allocatable : List String
  pub eviction_hard : Map String
  pub system_reserved : Map String
  pub container_runtime_endpoint : String
  pub register_node : Bool
  pub register_with_taints : List Taint
  pub resolver_config : String

-- What encodes and decodes: encoding/json, the YAML of a credential provider configuration, and data URLs.
pub record Encodings : Type 1 where
  pub kubeconfig : Kubeconfig → Option String
  pub kubelet_configuration : KubeletConfiguration → Option String
  pub decode_url : String → Option String
  pub Providers : Type 0
  pub decode_providers : String → Option Providers
  pub map_names : (String → String) → Providers → Providers
  pub encode_providers : Providers → Option String

pub data FileError : Type 0 where
  no_ca no_token json_error dns_error empty_file url_error yaml_error ignition_error : FileError

unfoldable pub generate_kubeconfig : String → String → String → String → Kubeconfig
generate_kubeconfig ca_cert token api_server_url username = record {
  server = api_server_url;
  certificate_authority_data = ca_cert;
  user = username;
  token = token;
  context = username;
  context_cluster = "local";
  cluster = "local";
  current_context = username;
}

unfoldable pub generate_kubelet_configuration : String → KubeletConfiguration
generate_kubelet_configuration dns = record {
  kind = "KubeletConfiguration";
  api_version = "kubelet.config.k8s.io/v1beta1";
  rotate_certificates = true;
  server_tls_bootstrap = true;
  client_ca_file = Paths.k8s_dir ++ "\\" ++ kubelet_client_ca_filename;
  anonymous_enabled = false;
  cluster_domain = "cluster.local";
  cluster_dns = dns ∷ [];
  cgroups_per_qos = false;
  runtime_request_timeout = 600;
  max_pods = 250;
  kube_api_qps = 50;
  kube_api_burst = 100;
  serialize_image_pulls = false;
  enable_system_log_query = true;
  feature_gates = ("RotateKubeletServerCertificate", true) ∷ [];
  container_log_max_size = "50Mi";
  enforce_node_allocatable = "none" ∷ [];
  eviction_hard = ("nodefs.available", "10%") ∷ ("imagefs.available", "15%") ∷ [];
  system_reserved = ("cpu", "500m") ∷ ("ephemeral-storage", "1Gi") ∷ ("memory", "2Gi") ∷ [];
  container_runtime_endpoint = "npipe://./pipe/containerd-containerd";
  register_node = true;
  register_with_taints = record { key = "os"; value = "Windows"; effect = "NoSchedule" } ∷ [];
  resolver_config = "";
}

-- `validWICDServiceAccountTokenSecret`.
unfoldable pub valid_wicd_service_account_token_secret : Secret → Bool
unfolding lookup
valid_wicd_service_account_token_secret secret =
    (secret.kind == "kubernetes.io/service-account-token")
    && elim (lookup "kubernetes.io/service-account.name" secret.annotations) [
      | none ↦ false
      | some name ↦ name == Paths.wicd_service_name
    ]

-- A bundle of certificates for image registries.
pub record ImageRegistryBundle : Type 0 where
  pub file : String
  pub content : String

unfoldable pub append_to_ca_bundle : ImageRegistryBundle → String
unfolding replace_all
append_to_ca_bundle bundle =
    "# " ++ replace_all bundle.file ".." ":" ++ "\n" ++ bundle.content ++ "\n\n"

unfoldable pub has_suffix : String → String → Bool
has_suffix nil_text suffix = suffix == ""
has_suffix (cons_text c s) suffix =
    let rest = has_suffix s suffix in (cons_text c s == suffix) || rest

unfoldable pub executable : String → String
unfolding has_suffix
executable name = if has_suffix name ".exe" then name else name ++ ".exe"

abbrev or_else : {A : Type 0} → FileError → Option A → Result FileError A
or_else e none = err e
or_else e (some a) = ok a

module _ (enc : Encodings) where
  -- `newKubeconfigFromSecret`.
  unfoldable pub new_kubeconfig_from_secret : String → Secret → String → Result FileError String
  unfolding generate_kubeconfig lookup
  new_kubeconfig_from_secret api_server_endpoint secret username = do
    ca_cert ← or_else no_ca (lookup "ca.crt" secret.content)
    token ← or_else no_token (lookup "token" secret.content)
    or_else json_error
        (enc.kubeconfig (generate_kubeconfig ca_cert token api_server_endpoint username))

  -- `createKubeletConf`.
  unfoldable pub create_kubelet_conf : Cidr → String → Result FileError String
  unfolding generate_kubelet_configuration get_dns
  create_kubelet_conf cidr cluster_service_cidr = do
    dns ← or_else dns_error (get_dns cidr cluster_service_cidr)
    or_else json_error (enc.kubelet_configuration (generate_kubelet_configuration dns))

  -- `modifyCredentialProviderConfig`.
  unfoldable pub modify_credential_provider_config : String → Result FileError String
  unfolding executable
  modify_credential_provider_config contents = do
    providers ← or_else yaml_error (enc.decode_providers contents)
    or_else yaml_error (enc.encode_providers (enc.map_names executable providers))

  -- The contents of one file that is wanted.
  unfoldable pub translated : File → Result FileError String
  unfolding modify_credential_provider_config
  translated file = do
    source ← or_else empty_file file.source
    contents ← or_else url_error (enc.decode_url source)
    if file.path == ecr_credential_provider_path
        then modify_credential_provider_config contents
        else ok contents

  -- The loop of `translateIgnitionFilesForWindows`.
  unfoldable pub translate_ignition_files_for_windows :
      Map String → List File → Map String → Result FileError (Map String)
  unfolding translated insert lookup
  translate_ignition_files_for_windows paths [] contents = ok contents
  translate_ignition_files_for_windows paths (f ∷ fs) contents = elim (lookup f.path paths) [
    | none ↦ translate_ignition_files_for_windows paths fs contents
    | some dest ↦ elim (translated f) [
      | err e ↦ err e
      | ok text ↦ translate_ignition_files_for_windows paths fs (insert dest text contents)
    ]
  ]

  -- `filesToTransfer` of `createFilesFromIgnition`.
  unfoldable pub files_to_transfer : Map String → Map String
  unfolding insert lookup path_base
  files_to_transfer kubelet_args =
      let credentials = (ecr_credential_provider_path, Paths.credential_provider_config) ∷ [] in
      if has_key cloud_config_option kubelet_args
      then (cloud_config_path, Paths.k8s_dir ++ "\\" ++ path_base cloud_config_path) ∷ credentials
      else credentials

  -- `createFilesFromIgnition`, on the ignition configuration.
  unfoldable pub create_files_from_ignition : Ignition → Result FileError (Map String)
  unfolding get_kubelet_args files_to_transfer translate_ignition_files_for_windows insert
  create_files_from_ignition ign = elim (get_kubelet_args ign) [
    | err e ↦ err ignition_error
    | ok kubelet_args ↦ do
      contents ←
          translate_ignition_files_for_windows (files_to_transfer kubelet_args) ign.config.files []
      ok (insert (Paths.k8s_dir ++ "\\" ++ kubelet_client_ca_filename) ign.kubelet_ca_data contents)
  ]
