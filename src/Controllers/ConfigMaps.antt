-- ===== src/Controllers/ConfigMaps.antt =====
-- controllers/configmap_controller.go: the services ConfigMaps that are deleted, and the nodes that keep their
-- instance.
use windows_machine_config_o.Common.{
  String, Bool, true, false, ◌||◌, Option, none, some, List, [], ◌∷◌, Map, lookup, any, ok, err,
  ◌==◌, Sorter,
}
use windows_machine_config_o.Common.Actions.{
  Action, pure, fail, reads, acts, each, skip_if, ◌>>=◌, ◌>>◌,
}
use windows_machine_config_o.Common.Text.{trim_prefix}
use windows_machine_config_o.Metadata.{Node, version_annotation}
use windows_machine_config_o.ServicesCm.Types.{Data}
use windows_machine_config_o.ServicesCm.Priorities.{less_priority}
use windows_machine_config_o.ServicesCm.ConfigMap.{
  ConfigMap, Json, name_prefix, list_services_cms, parse, validate_expected_content,
}

-- The calls of the client: of the nodes only the Windows nodes are listed, and of the ConfigMaps those of the
-- namespace of the operator.
pub record Api : Type 1 where
  pub State : Type 0
  pub windows_nodes : State → Option (List Node)
  pub config_maps : State → Option (List ConfigMap)
  pub delete : ConfigMap → State → State × Bool

pub data Error : Type 0 where
  list_error delete_error : Error
  panicked : Error

-- `getVersionAnnotations`, as a list.
unfoldable pub get_version_annotations : List Node → List String
unfolding lookup
get_version_annotations [] = []
get_version_annotations (n ∷ ns) =
    let rest = get_version_annotations ns in
    elim (lookup version_annotation n.annotations) [ none ↦ rest | some v ↦ v ∷ rest ]

-- `isTiedToRelevantVersion`.
unfoldable pub is_tied_to_relevant_version : String → String → List String → Bool
is_tied_to_relevant_version current v versions = (v == current) || any (λ x. v == x) versions

module _ (api : Api) where
  unfoldable pub remove_unless_tied :
      String → List String → ConfigMap → Action api.State Error (Unit {0})
  unfolding is_tied_to_relevant_version trim_prefix
  remove_unless_tied current versions cm =
      skip_if (is_tied_to_relevant_version current (trim_prefix cm.name name_prefix) versions)
        (acts delete_error (api.delete cm))

  -- `removeOutdatedServicesConfigMaps`.
  unfoldable pub remove_outdated_services_config_maps : String → Action api.State Error (Unit {0})
  unfolding get_version_annotations list_services_cms remove_unless_tied
  remove_outdated_services_config_maps current = do
    nodes ← reads list_error api.windows_nodes
    listed ← reads list_error api.config_maps
    each (remove_unless_tied current (get_version_annotations nodes)) (list_services_cms listed)

  -- Whether Parse and ValidateExpectedContent accept the data.
  unfoldable pub accepts_content : Json → Sorter less_priority → Data → Map String → Bool
  unfolding parse validate_expected_content
  accepts_content json by_priority manifest content = elim (parse json by_priority content) [
    | err _ ↦ false
    | ok data' ↦ elim (validate_expected_content data' manifest) [ err _ ↦ false | ok _ ↦ true ]
  ]

  -- `err.Error()`, which calls a method of the error.
  unfoldable pub error_text : Option Error → Action api.State Error (Unit {0})
  error_text none = fail panicked
  error_text (some e) = pure tt

  -- The error of `Delete`, which is nil where there was none.
  abbrev pub error_of_delete : Bool → Option Error
  error_of_delete true = none
  error_of_delete false = some delete_error

  -- `if err != nil { return err }`, and the log message behind it.
  unfoldable pub log_deleted : Option Error → Action api.State Error (Unit {0})
  unfolding error_text
  log_deleted (some e) = fail e
  log_deleted none = error_text none

  -- The deletion, whose error is assigned to the variable that the log message then reads.
  unfoldable pub delete_invalid : ConfigMap → Action api.State Error (Unit {0})
  unfolding log_deleted
  delete_invalid cm s = log_deleted (error_of_delete (api.delete cm s).1) (api.delete cm s).0

  -- `reconcileServices`.
  unfoldable pub reconcile_services_cm :
      Json → Sorter less_priority → Data → String → ConfigMap → Action api.State Error (Unit {0})
  unfolding remove_outdated_services_config_maps
  reconcile_services_cm json by_priority manifest current cm =
      remove_outdated_services_config_maps current
      >> skip_if (accepts_content json by_priority manifest cm.content) (delete_invalid cm)

-- What `hasAssociatedInstance` reads of an instance.
pub record Instance : Type 0 where
  pub address : String
  pub ipv4_address : String

-- `hasAssociatedInstance`; `lookup_addr` is `net.LookupAddr` of an IP address, and has no names for any other text.
unfoldable pub has_associated_instance : (String → List String) → List String → List Instance → Bool
has_associated_instance lookup_addr [] instances = false
has_associated_instance lookup_addr (a ∷ rest) instances =
    any (λ i. (a == i.address) || (a == i.ipv4_address)) instances
    || any (λ dns. any (λ i. dns == i.address) instances) (lookup_addr a)
    || has_associated_instance lookup_addr rest instances

-- The loop of `deconfigureInstances`; the calls for a node are an argument.
unfoldable pub deconfigure_instances :
    {S E : Type 0}
    → (Node → Action S E (Unit {0}))
    → (String → List String)
    → List Instance
    → List Node
    → Action S E (Unit {0})
unfolding has_associated_instance
deconfigure_instances deconfigure lookup_addr instances = each (λ node.
    skip_if (has_associated_instance lookup_addr node.addresses instances) (deconfigure node))
