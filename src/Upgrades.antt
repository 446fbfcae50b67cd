-- ===== src/Upgrades.antt =====
-- controllers/controllers.go and pkg/instance/instance.go: which instances are upgraded, and how many at once.
pub mod Limit
pub mod Required
mod Tests
use windows_machine_config_o.Common.{
  ℕ, String, Bool, true, false, not, ◌&&◌, Option, none, some, List, [], ◌∷◌, Map, lookup, insert,
  delete, keep, length, leb, any, Result, ok, err, ◌==◌, if◌then◌else◌,
}

-- What the code reads of a node.
pub record Node : Type 0 where
  pub name : String
  pub labels : Map String
  pub annotations : Map String

abbrev pub os_label : String
os_label = "kubernetes.io/os"

abbrev pub upgrading_label : String
upgrading_label = "windowsmachineconfig.openshift.io/upgrading"

abbrev pub version_annotation : String
version_annotation = "windowsmachineconfig.openshift.io/version"

abbrev pub max_parallel_upgrades : ℕ
max_parallel_upgrades = 1

-- `m[k] == v` for a text v that is not empty.
abbrev pub has_value : String → String → Map String → Bool
has_value k v m = elim (lookup k m) [ none ↦ false | some w ↦ w == v ]

abbrev pub is_windows_node : Node → Bool
is_windows_node n = has_value os_label "windows" n.labels

abbrev pub is_upgrading : Node → Bool
is_upgrading n = is_windows_node n && has_value upgrading_label "true" n.labels

-- The list call of `findUpgradingNodes` with its matching labels.
unfoldable pub find_upgrading_nodes : List Node → List Node
unfolding keep lookup
find_upgrading_nodes = keep is_upgrading

-- The patch of `ApplyUpgradingLabel`, on the node of the name.
unfoldable pub apply_upgrading_label : String → List Node → List Node
unfolding insert
apply_upgrading_label name [] = []
apply_upgrading_label name (n ∷ ns) =
    let rest = apply_upgrading_label name ns in
    if n.name == name
    then record n { labels = insert upgrading_label "true" n.labels } ∷ ns
    else n ∷ rest

-- The patch of `RemoveUpgradingLabel`.
unfoldable pub remove_upgrading_label : String → List Node → List Node
unfolding delete
remove_upgrading_label name [] = []
remove_upgrading_label name (n ∷ ns) =
    let rest = remove_upgrading_label name ns in
    if n.name == name then record n { labels = delete upgrading_label n.labels } ∷ ns else n ∷ rest

pub data Error : Type 0 where
  list_error maximum_reached patch_error : Error

-- `markNodeAsUpgrading`. What the list call answers is of the cache of the client, which may be behind the
-- nodes of the cluster; the list call and the patch may fail.
unfoldable pub mark_node_as_upgrading :
    Option (List Node) → Bool → String → List Node → List Node × Result Error (Unit {0})
unfolding find_upgrading_nodes apply_upgrading_label
mark_node_as_upgrading none patches name nodes = (nodes, err list_error)
mark_node_as_upgrading (some listed) patches name nodes =
    let upgrading = find_upgrading_nodes listed in
    if any (λ n. n.name == name) upgrading
    then (nodes, ok tt)
    else (if leb max_parallel_upgrades (length upgrading)
        then (nodes, err maximum_reached)
        else (if patches
            then (apply_upgrading_label name nodes, ok tt)
            else (nodes, err patch_error)))

-- `UpToDate` and `UpgradeRequired` of an instance, which may have a node.
unfoldable pub up_to_date : String → Option Node → Bool
unfolding lookup
up_to_date version none = false
up_to_date version (some n) = has_value version_annotation version n.annotations

unfoldable pub upgrade_required : String → Option Node → Bool
unfolding up_to_date lookup
upgrade_required version none = false
upgrade_required version (some n) =
    if up_to_date version (some n)
    then false
    else elim (lookup version_annotation n.annotations) [ none ↦ false | some _ ↦ true ]
