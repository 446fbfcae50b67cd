-- ===== src/Controllers.antt =====
-- controllers/controllers.go: which events of nodes are handled, and how an instance is brought up to date and
-- taken from the cluster.
pub mod Current
pub mod ConfigMaps
pub mod Outdated
mod Tests
use windows_machine_config_o.Common.{
  ℕ, String, Bool, true, false, not, ◌||◌, ◌&&◌, Option, none, some, List, [], ◌∷◌, Map, lookup,
  length, leb, any, Result, ok, err, ◌==◌, if◌then◌else◌, Sorter,
}
use windows_machine_config_o.Common.Actions.{Action, pure, fail, reads, acts, skip_if, ◌>>=◌, ◌>>◌}
use windows_machine_config_o.Cluster.{Cidr, validate_cidr, get_dns}
use windows_machine_config_o.Ignition.{newer, IgnitionConfig}
use windows_machine_config_o.Metadata.{Node, version_annotation, value_of, apply_upgrading_label}
use windows_machine_config_o.NodeConfig.Files.{Encodings}
use windows_machine_config_o.NodeConfig.{
  World, NodeConfig, Error as NodeError, pub_key_hash_annotation, on_nodes, configure, deconfigure,
}
use windows_machine_config_o.Upgrades.{
  has_value, os_label, max_parallel_upgrades, up_to_date, upgrade_required,
}
use windows_machine_config_o.Upgrades

abbrev pub byoh_label : String
byoh_label = "windowsmachineconfig.openshift.io/byoh"

abbrev pub is_windows : Node → Bool
is_windows n = has_value os_label "windows" n.labels

-- `isValidWindowsNode`.
unfoldable pub is_valid_windows_node : Node → Bool → Bool
unfolding lookup
is_valid_windows_node o byoh =
    is_windows o
    && not (
        (byoh && not (value_of byoh_label o.labels == "true"))
        || (not byoh && (value_of byoh_label o.labels == "true")))

abbrev version_of : Node → String
version_of n = value_of version_annotation n.annotations

-- `windowsNodeVersionChangePredicate`; generic events are like those of a creation.
unfoldable pub version_change_create : String → Node → Bool
unfolding lookup
version_change_create version n = is_windows n && (version_of n == version)

unfoldable pub version_change_update : String → Node → Node → Bool
unfolding lookup
version_change_update version old new =
    is_windows new && not (version_of old == version_of new) && (version_of new == version)

unfoldable pub version_change_delete : String → Node → Bool
unfolding lookup
version_change_delete version n = is_windows n && not (version_of n == version)

-- `outdatedWindowsNodePredicate`; generic events are like those of a creation.
unfoldable pub outdated_create : String → Bool → Node → Bool
unfolding is_valid_windows_node lookup
outdated_create version byoh n = is_valid_windows_node n byoh && not (version_of n == version)

unfoldable pub is_stale : String → Node → Node → Bool
unfolding lookup
is_stale version old new =
    not (version_of new == version)
    || not (
        value_of pub_key_hash_annotation new.annotations
        == value_of pub_key_hash_annotation old.annotations)

unfoldable pub outdated_update : String → Bool → Node → Node → Bool
unfolding is_valid_windows_node is_stale
outdated_update version byoh old new = is_valid_windows_node new byoh && is_stale version old new

unfoldable pub outdated_delete : Bool → Node → Bool
unfolding is_valid_windows_node
outdated_delete byoh n = is_valid_windows_node n byoh

pub record NodeAddress : Type 0 where
  pub kind : String
  pub address : String

-- `GetAddress`; `is_ipv6` says whether `net.ParseIP` accepts a text of which there is no IPv4 form.
unfoldable pub get_address : (String → Bool) → List NodeAddress → Option String
get_address is_ipv6 [] = none
get_address is_ipv6 (a ∷ rest) =
    let later = get_address is_ipv6 rest in
    if ((a.kind == "InternalIP") || (a.kind == "InternalDNS")) && not (is_ipv6 a.address)
    then some a.address
    else later

abbrev pub username_annotation : String
username_annotation = "windowsmachineconfig.openshift.io/username"

-- What the code reads of `instance.Info`.
pub record Info : Type 0 where
  pub address : String
  pub node : Option Node

pub data Error : Type 0 where
  node_error : NodeError → Error
  no_instance cidr_error dns_error connection_error list_error maximum_reached : Error
  no_username no_address key_error info_error delete_error : Error

-- What the reconciler has besides the calls of nodeConfig.
pub record Reconciler (w : World) : Type 1 where
  pub encodings : Encodings
  pub cidr : Cidr
  pub latest_first : Sorter newer
  pub parse_raw : String → Option IgnitionConfig
  pub cluster_service_cidr : String
  pub api_server_endpoint : String
  pub public_key_hash : String
  pub is_ipv6 : String → Bool
  -- The connection to an instance of `windows.New`.
  pub connect : String → w.nodes.State → w.nodes.State × Bool
  pub list_upgrading : w.nodes.State → Option (List Node)
  pub delete : Node → w.nodes.State → w.nodes.State × Bool
  -- The addresses of a node with their types.
  pub addresses_of : Node → List NodeAddress
  -- The name decrypted with the private key of the cluster, and `instance.NewInfo` of an address and a name.
  pub private_key : w.nodes.State → Option String
  pub decrypt : String → String → Option String
  pub new_info : String → String → Node → Option Info

abbrev upgraded : Node → Upgrades.Node
upgraded n = record { name = n.name; labels = n.labels; annotations = n.annotations }

abbrev upgraded_node : Option Node → Option Upgrades.Node
upgraded_node none = none
upgraded_node (some n) = some (upgraded n)

abbrev pub is_up_to_date : String → Info → Bool
is_up_to_date version info = up_to_date version (upgraded_node info.node)

abbrev pub needs_upgrade : String → Info → Bool
needs_upgrade version info = upgrade_required version (upgraded_node info.node)

module _ (w : World) (r : Reconciler w) where
  open w use {nodes}

  abbrev pub Run : Type 0 → Type 0
  Run A = Action nodes.State Error A

  unfoldable pub on_node : {A : Type 0} → Action nodes.State NodeError A → Run A
  on_node m s = ((m s).0, elim (m s).1 [ err e ↦ err (node_error e) | ok a ↦ ok a ])

  -- `NewNodeConfig`.
  unfoldable pub new_node_config : Info → Map String → Map String → Run NodeConfig
  unfolding validate_cidr get_dns
  new_node_config info labels annotations = do
    _ ← (if validate_cidr r.cidr r.cluster_service_cidr then pure tt else fail cidr_error)
    _ ← reads dns_error (λ s. get_dns r.cidr r.cluster_service_cidr)
    _ ← acts connection_error (r.connect info.address)
    pure (record {
      node = info.node;
      address = info.address;
      public_key_hash = r.public_key_hash;
      cluster_service_cidr = r.cluster_service_cidr;
      api_server_endpoint = r.api_server_endpoint;
      additional_annotations = annotations;
      additional_labels = labels;
    })

  -- `markNodeAsUpgrading`, as the reconciler calls it.
  unfoldable pub mark_node : Node → Run (Unit {0})
  mark_node node = do
    upgrading ← reads list_error r.list_upgrading
    skip_if (any (λ n. n.name == node.name) upgrading) (
        if leb max_parallel_upgrades (length upgrading)
        then fail maximum_reached
        else on_node (on_nodes w (apply_upgrading_label nodes node)))

  unfoldable pub upgrade : Option Node → NodeConfig → Run (Unit {0})
  unfolding mark_node deconfigure
  upgrade none nc = pure tt
  upgrade (some node) nc = do
    _ ← mark_node node
    on_node (deconfigure w r.encodings r.cidr r.latest_first r.parse_raw nc)

  -- What `ensureInstanceIsUpToDate` does to an instance that is not up to date.
  unfoldable pub bring_up_to_date : String → Info → Map String → Map String → Run (Unit {0})
  unfolding new_node_config upgrade configure upgrade_required
  bring_up_to_date version info labels annotations = do
    nc ← new_node_config info labels annotations
    _ ← skip_if (not (needs_upgrade version info)) (upgrade info.node nc)
    on_node (configure w r.encodings r.cidr r.latest_first r.parse_raw nc version)

  -- `ensureInstanceIsUpToDate`.
  unfoldable pub ensure_instance_is_up_to_date :
      String → Option Info → Map String → Map String → Run (Unit {0})
  unfolding bring_up_to_date up_to_date
  ensure_instance_is_up_to_date version none labels annotations = fail no_instance
  ensure_instance_is_up_to_date version (some info) labels annotations =
      skip_if (is_up_to_date version info) (bring_up_to_date version info labels annotations)

  -- `instanceFromNode`.
  unfoldable pub instance_from_node : Node → Run Info
  unfolding get_address lookup
  instance_from_node node = do
    let encrypted = value_of username_annotation node.annotations
    _ ← (if encrypted == "" then fail no_username else pure tt)
    address ← reads no_address (λ s. get_address r.is_ipv6 (r.addresses_of node))
    key ← reads key_error r.private_key
    username ← reads key_error (λ s. r.decrypt encrypted key)
    reads info_error (λ s. r.new_info address username node)

  -- `deconfigureInstance`.
  unfoldable pub deconfigure_instance : Node → Run (Unit {0})
  unfolding instance_from_node new_node_config deconfigure
  deconfigure_instance node = do
    info ← instance_from_node node
    nc ← new_node_config info [] []
    _ ← on_node (deconfigure w r.encodings r.cidr r.latest_first r.parse_raw nc)
    acts delete_error (r.delete node)
