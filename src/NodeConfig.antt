-- ===== src/NodeConfig.antt =====
-- pkg/nodeconfig/nodeconfig.go: how an instance becomes a node, and how it is taken from the cluster again.
pub mod Files
pub mod Configured
pub mod Deconfigured
pub mod Simulation
mod Tests
use Prim.Native.String.{◌++◌, [] as nil_text, ◌∷◌ as cons_text}
use windows_machine_config_o.Common.{
  ℕ, zero, suc, String, Bool, true, false, not, ◌||◌, ◌&&◌, Option, none, some, List, [], ◌∷◌, Map,
  lookup, insert, has_key, any, Result, ok, err, ◌==◌, if◌then◌else◌, Sorter,
}
use windows_machine_config_o.Common.Actions.{
  Action, pure, fail, reads, acts, each, skip_if, ◌>>=◌, ◌>>◌,
}
use windows_machine_config_o.Cluster.{Cidr, is_proxy_enabled}
use windows_machine_config_o.Ignition.{MachineConfig, newer, IgnitionConfig, new as new_ignition}
use windows_machine_config_o.Metadata.{
  NodeClient, Node, Error as MetadataError, value_of, apply_labels_and_annotations,
  apply_desired_version_annotation, wait_for_version_annotation, wait_for_reboot_annotation_removal,
  remove_reboot_annotation, remove_upgrading_label,
}
use windows_machine_config_o.Manifest.Paths
use windows_machine_config_o.NodeConfig.Files.{
  Secret, Encodings, FileError, ImageRegistryBundle, append_to_ca_bundle,
  create_files_from_ignition, create_kubelet_conf, new_kubeconfig_from_secret,
  valid_wicd_service_account_token_secret, kubelet_client_ca_filename,
}

abbrev pub pub_key_hash_annotation : String
pub_key_hash_annotation = "windowsmachineconfig.openshift.io/pub-key-hash"

pub data SecretAnswer : Type 0 where
  found : Secret → SecretAnswer
  not_found failed : SecretAnswer

-- What the code reads of the controller configuration.
pub record Bundles : Type 0 where
  pub user_data : List ImageRegistryBundle
  pub registry_data : List ImageRegistryBundle

-- The calls of the client, of kubectl's package drain, and of the interface Windows for the instance. A call
-- that acts answers whether there was no error.
pub record World : Type 1 where
  pub nodes : NodeClient
  pub list : nodes.State → Option (List Node)
  pub cordon : Bool → Node → nodes.State → nodes.State × Bool
  pub drain : String → nodes.State → nodes.State × Bool
  pub get_wicd_secret : nodes.State → SecretAnswer
  pub delete_wicd_secret : nodes.State → nodes.State × Bool
  pub create_wicd_secret : nodes.State → nodes.State × Bool
  pub second : nodes.State → nodes.State
  pub bootstrap_secret : nodes.State → Option Secret
  pub tls_secret : nodes.State → Option (Map String)
  pub bundles : nodes.State → Option Bundles
  pub proxy_ca : nodes.State → Option (Map String)
  pub registry_files : nodes.State → Option (Map String)
  pub machine_configs : nodes.State → Option (List MachineConfig)
  pub controllers : nodes.State → Option (List (Option String))
  pub lookup_env : String → Option String
  pub bootstrap : String → String → nodes.State → nodes.State × Bool
  pub configure_wicd : String → nodes.State → nodes.State × Bool
  pub run_wicd_cleanup : String → nodes.State → nodes.State × Bool
  pub remove_files_and_networks : nodes.State → nodes.State × Bool
  pub reboot_and_reinitialize : nodes.State → nodes.State × Bool
  pub ensure_file_content : String → String → String → nodes.State → nodes.State × Bool
  pub replace_dir : Map String → String → nodes.State → nodes.State × Bool

pub data Error : Type 0 where
  metadata_error : MetadataError → Error
  file_error : FileError → Error
  no_node node_not_found cordon_error drain_error cleanup_error removal_error : Error
  reboot_error bootstrap_error wicd_error transfer_error secret_error ignition_error get_error :
      Error

-- `nodeConfig` without what it shares with all; `node` is the one that it was made with.
pub record NodeConfig : Type 0 where
  pub node : Option Node
  pub address : String
  pub public_key_hash : String
  pub cluster_service_cidr : String
  pub api_server_endpoint : String
  pub additional_annotations : Map String
  pub additional_labels : Map String

-- `SplitPath`: the part up to the last separator, and the rest.
unfoldable pub split_path : String → String × String
split_path nil_text = ("", "")
split_path (cons_text c s) =
    let rest = split_path s in
    if not (rest.0 == "")
    then (cons_text c rest.0, rest.1)
    else (if cons_text c "" == "\\" then ("\\", s) else ("", cons_text c s))

-- `FindByAddress`, on the nodes that the operator lists.
unfoldable pub find_node : String → List Node → Option Node
find_node address [] = none
find_node address (n ∷ ns) =
    let rest = find_node address ns in if any (λ a. address == a) n.addresses then some n else rest

-- The polls behind the first: of ten minutes each 15 seconds, and of one minute each second.
abbrev pub node_polls : ℕ
node_polls = 40

abbrev pub secret_polls : ℕ
secret_polls = 60

module _ (w : World) where
  open w use {
    nodes, list, cordon, drain, get_wicd_secret, delete_wicd_secret, create_wicd_secret, second,
    bootstrap_secret, tls_secret, bundles, proxy_ca, registry_files, machine_configs, controllers,
    lookup_env, bootstrap, configure_wicd, run_wicd_cleanup, remove_files_and_networks,
    reboot_and_reinitialize, ensure_file_content, replace_dir,
  }

  abbrev pub Run : Type 0 → Type 0
  Run A = Action nodes.State Error A

  unfoldable pub on_nodes : {A : Type 0} → Action nodes.State MetadataError A → Run A
  on_nodes m s = ((m s).0, elim (m s).1 [ err e ↦ err (metadata_error e) | ok a ↦ ok a ])

  -- A call whose error is only logged.
  unfoldable pub best_effort : (nodes.State → nodes.State × Bool) → Run (Unit {0})
  best_effort f s = ((f s).0, ok tt)

  unfoldable pub of_file : {A : Type 0} → Result FileError A → Run A
  of_file (err e) = fail (file_error e)
  of_file (ok a) = pure a

  abbrev pub listed : String → nodes.State → Option Node
  listed address s = elim (list s) [ none ↦ none | some ns ↦ find_node address ns ]

  -- `setNode`, which answers the node.
  unfoldable pub set_node : String → ℕ → Run Node
  unfolding find_node
  set_node address zero s = elim (listed address s) [
    | none ↦ (s, err node_not_found)
    | some node ↦ (s, ok node)
  ]
  set_node address (suc n) s = elim (listed address s) [
    | none ↦ set_node address n (nodes.sleep s)
    | some node ↦ (s, ok node)
  ]

  -- The condition of `createWICDServiceAccountTokenSecret`.
  abbrev populated : nodes.State → Option Secret
  populated s = elim (get_wicd_secret s) [
    | not_found ↦ none
    | failed ↦ none
    | found secret ↦
        if has_key "ca.crt" secret.content && has_key "token" secret.content
        then some secret
        else none
  ]

  unfoldable pub poll_secret : ℕ → Run Secret
  unfolding lookup
  poll_secret zero s = elim (populated s) [
    | none ↦ (s, err secret_error)
    | some secret ↦ (s, ok secret)
  ]
  poll_secret (suc n) s = elim (populated s) [
    | none ↦ poll_secret n (second s)
    | some secret ↦ (s, ok secret)
  ]

  unfoldable pub create_wicd_service_account_token_secret : Run Secret
  unfolding poll_secret
  create_wicd_service_account_token_secret =
      acts secret_error create_wicd_secret >> poll_secret secret_polls

  unfoldable pub get_wicd_service_account_secret : Run Secret
  unfolding create_wicd_service_account_token_secret valid_wicd_service_account_token_secret
  get_wicd_service_account_secret s = elim (get_wicd_secret s) [
    | failed ↦ (s, err secret_error)
    | not_found ↦ create_wicd_service_account_token_secret s
    | found secret ↦
        if valid_wicd_service_account_token_secret secret
        then (s, ok secret)
        else (acts secret_error delete_wicd_secret >> create_wicd_service_account_token_secret) s
  ]

  -- `write`, on the entries in the order of `range`.
  unfoldable pub write : Map String → Run (Unit {0})
  unfolding split_path
  write = each (λ entry.
      acts transfer_error
        (ensure_file_content entry.1 (split_path entry.0).1 (split_path entry.0).0))

  abbrev of_bundles : List ImageRegistryBundle → String
  of_bundles [] = ""
  of_bundles (b ∷ bs) = append_to_ca_bundle b ++ of_bundles bs

  -- `SyncTrustedCABundle`, with `UpdateTrustedCABundleFile`.
  unfoldable pub update_trusted_ca_bundle_file : String → Run (Unit {0})
  unfolding split_path
  update_trusted_ca_bundle_file content = acts transfer_error (
      ensure_file_content content (split_path Paths.trusted_ca_bundle_path).1
        (split_path Paths.trusted_ca_bundle_path).0)

  abbrev ca_of_proxy : Map String → String
  ca_of_proxy content = value_of "ca-bundle.crt" content

  unfoldable pub sync_trusted_ca_bundle : Run (Unit {0})
  unfolding append_to_ca_bundle update_trusted_ca_bundle_file is_proxy_enabled lookup
  sync_trusted_ca_bundle = do
    b ← reads get_error bundles
    proxy ← (if is_proxy_enabled none lookup_env then reads get_error proxy_ca else pure [])
    update_trusted_ca_bundle_file
        (of_bundles b.user_data ++ of_bundles b.registry_data ++ ca_of_proxy proxy)

  -- `createTLSCerts`; a nil slice of bytes is an empty text.
  unfoldable pub create_tls_certs : Run (Unit {0})
  unfolding lookup
  create_tls_certs = do
    content ← reads get_error tls_secret
    acts transfer_error (
        replace_dir
          (("tls.crt", value_of "tls.crt" content) ∷ ("tls.key", value_of "tls.key" content) ∷ [])
          Paths.tls_certs_path)

  unfoldable pub create_registry_config_files : Run (Unit {0})
  create_registry_config_files = do
    files ← reads get_error registry_files
    acts transfer_error (replace_dir files Paths.containerd_config_dir)

  unfoldable pub update_kubelet_client_ca : String → Run (Unit {0})
  update_kubelet_client_ca contents =
      skip_if (contents == "") (
        acts transfer_error (ensure_file_content contents kubelet_client_ca_filename Paths.k8s_dir))

  module _ (enc : Encodings) (cidr : Cidr) (latest_first : Sorter newer)
      (parse_raw : String → Option IgnitionConfig) (nc : NodeConfig) where
    unfoldable pub generate_wicd_kubeconfig : Run String
    unfolding get_wicd_service_account_secret new_kubeconfig_from_secret
    generate_wicd_kubeconfig = do
      secret ← get_wicd_service_account_secret
      of_file (new_kubeconfig_from_secret enc nc.api_server_endpoint secret "wicd")

    unfoldable pub generate_bootstrap_kubeconfig : Run String
    unfolding new_kubeconfig_from_secret
    generate_bootstrap_kubeconfig = do
      secret ← reads get_error bootstrap_secret
      of_file (new_kubeconfig_from_secret enc nc.api_server_endpoint secret "kubelet")

    unfoldable pub read_ignition : Run (Map String)
    unfolding new_ignition create_files_from_ignition
    read_ignition s =
        elim (new_ignition latest_first parse_raw (machine_configs s) (controllers s)) [
          | err e ↦ (s, err ignition_error)
          | ok ign ↦ of_file (create_files_from_ignition enc ign) s
        ]

    unfoldable pub create_bootstrap_files : Run (Unit {0})
    unfolding read_ignition generate_bootstrap_kubeconfig create_kubelet_conf write insert
    create_bootstrap_files = do
      contents ← read_ignition
      kubeconfig ← generate_bootstrap_kubeconfig
      kubelet_conf ← of_file (create_kubelet_conf enc cidr nc.cluster_service_cidr)
      write (
          insert Paths.kubelet_config_path kubelet_conf
            (insert Paths.bootstrap_kubeconfig_path kubeconfig contents))

    -- The best effort to cordon a node that is there already.
    abbrev cordon_known : Option Node → Run (Unit {0})
    cordon_known none = pure tt
    cordon_known (some node) = best_effort (cordon true node)

    abbrev pub known_node : Option Node → Run Node
    known_node none = set_node nc.address node_polls
    known_node (some node) = pure node

    -- `annotationsToApply`: the additional ones replace the one that is there.
    unfoldable pub annotations_to_apply : Map String → Map String → Map String
    unfolding insert
    annotations_to_apply [] m = m
    annotations_to_apply ((k, v) ∷ rest) m = annotations_to_apply rest (insert k v m)

    abbrev pub new_annotations : Map String
    new_annotations =
        annotations_to_apply nc.additional_annotations
          ((pub_key_hash_annotation, nc.public_key_hash) ∷ [])

    -- What `Configure` does to prepare the instance, up to the bootstrap.
    unfoldable pub prepare_instance : Run String
    unfolding create_bootstrap_files create_tls_certs create_registry_config_files
        sync_trusted_ca_bundle generate_wicd_kubeconfig
    prepare_instance = do
      _ ← cordon_known nc.node
      _ ← create_bootstrap_files
      _ ← create_tls_certs
      _ ← create_registry_config_files
      _ ← sync_trusted_ca_bundle
      generate_wicd_kubeconfig

    -- The wait for WICD behind the desired version annotation, and what follows it.
    unfoldable pub finish_node : Node → Run (Unit {0})
    unfolding set_node wait_for_version_annotation
    finish_node node = do
      _ ← on_nodes (wait_for_version_annotation nodes node.name)
      configured ← set_node nc.address node_polls
      _ ← acts cordon_error (cordon false configured)
      on_nodes (remove_upgrading_label nodes configured)

    -- The function inside `Configure`, with the kubelet running.
    unfoldable pub configure_node : String → String → Run (Unit {0})
    unfolding finish_node set_node apply_labels_and_annotations annotations_to_apply
    configure_node version kubeconfig = do
      node ← known_node nc.node
      _ ← best_effort (cordon true node)
      _ ← on_nodes (apply_labels_and_annotations nodes node nc.additional_labels new_annotations)
      _ ← acts wicd_error (configure_wicd kubeconfig)
      _ ← on_nodes (apply_desired_version_annotation nodes node version)
      finish_node node

    -- Behind an error the services are stopped, so that the node is not ready.
    unfoldable pub cleaning_up : String → Run (Unit {0}) → Run (Unit {0})
    cleaning_up kubeconfig m s = elim (m s).1 [
      | ok _ ↦ ((m s).0, ok tt)
      | err e ↦ ((run_wicd_cleanup kubeconfig (m s).0).0, err e)
    ]

    -- `Configure`.
    unfoldable pub configure : String → Run (Unit {0})
    unfolding prepare_instance configure_node
    configure version = do
      kubeconfig ← prepare_instance
      _ ← acts bootstrap_error (bootstrap version kubeconfig)
      cleaning_up kubeconfig (configure_node version kubeconfig)

    -- `SafeReboot`.
    unfoldable pub reboot_node : Node → Run (Unit {0})
    reboot_node node = do
      _ ← acts cordon_error (cordon true node)
      _ ← acts drain_error (drain node.name)
      _ ← acts reboot_error reboot_and_reinitialize
      _ ← on_nodes (remove_reboot_annotation nodes node)
      acts cordon_error (cordon false node)

    unfoldable pub safe_reboot : Run (Unit {0})
    unfolding reboot_node
    safe_reboot = elim nc.node [ none ↦ fail no_node | some node ↦ reboot_node node ]

    -- `cleanupWithWICD`.
    unfoldable pub cleanup_with_wicd : Node → Run (Unit {0})
    unfolding generate_wicd_kubeconfig wait_for_reboot_annotation_removal
    cleanup_with_wicd node = do
      kubeconfig ← generate_wicd_kubeconfig
      _ ← acts cleanup_error (run_wicd_cleanup kubeconfig)
      on_nodes (wait_for_reboot_annotation_removal nodes node.name)

    -- `Deconfigure`.
    unfoldable pub deconfigure_node : Node → Run (Unit {0})
    unfolding cleanup_with_wicd
    deconfigure_node node = do
      _ ← acts cordon_error (cordon true node)
      _ ← acts drain_error (drain node.name)
      _ ← cleanup_with_wicd node
      acts removal_error remove_files_and_networks

    unfoldable pub deconfigure : Run (Unit {0})
    unfolding deconfigure_node
    deconfigure = elim nc.node [ none ↦ fail no_node | some node ↦ deconfigure_node node ]
