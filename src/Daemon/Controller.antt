-- ===== src/Daemon/Controller.antt =====
-- pkg/daemon/controller/controller.go: the controller of the daemon, which configures the services of its
-- instance.
pub mod Written
pub mod Commands
pub mod Configured
pub mod Steady
pub mod Reconcile
mod Tests
use Prim.Native.String.{◌++◌ as text_append}
use windows_machine_config_o.Common.{
  ℕ, String, Bool, true, false, not, ◌&&◌, ◌||◌, Option, none, some, List, [], ◌∷◌, Map, insert,
  any, Result, ok, err, ◌==◌, if◌then◌else◌, Slice, nil, items, elems, deep_equal,
  String_deep_equal, Slice_deep_equal,
}
use windows_machine_config_o.Common.Actions.{Action, pure, reads, acts, each, skip_if, ◌>>=◌, ◌>>◌}
use windows_machine_config_o.Common.Text.{trim_space, replace_all}
use windows_machine_config_o.ServicesCm.Types.{Service, NodeCmdArg, PowershellPreScript}
use windows_machine_config_o.Daemon.Cleanup.{managed_tag}
use windows_machine_config_o.Daemon.Manager.{
  WindowsApi, Config, ServiceError, ensure_service_state, open_service, get_services, stopped,
  running, list_error, create_error, config_error, update_config_error, node_error, script_error,
  bad_json_path, missing_value, too_many_results, unexpected_type,
}

-- What the code reads of a node: the values at a path are left to k8s.io/client-go/util/jsonpath.
pub record Node : Type 0 where
  pub name : String
  pub annotations : Map String
  -- The type and the status of each condition.
  pub conditions : List (String × String)

-- A value that `FindResults` finds.
pub data Value : Type 0 where
  text : String → Value
  other_value : Value

-- The calls of the client, of the runner of PowerShell and of the jsonpath package on an instance.
pub record Instance (w : WindowsApi) : Type 0 where
  -- The node of this instance.
  pub get_node : w.State → Option Node
  pub parse_path : String → Bool
  pub find_results : String → Node → Option (List (List Value))
  -- The new state, and the output where there was no error.
  pub run : String → w.State → w.State × Option String
  -- The order in which `range` goes through a map.
  pub range : Map String → List (String × String)

-- `slicesEquivalent`.
unfoldable pub slices_equivalent : Slice String → Slice String → Bool
slices_equivalent s1 s2 = elim (elems s1) [
  | [] ↦ elim (elems s2) [ [] ↦ true | y ∷ ys ↦ deep_equal s1 s2 ]
  | x ∷ xs ↦ deep_equal s1 s2
]

-- `config.BinaryPathName`, `Description` and `Dependencies` as they are set.
abbrev pub expected_config : String → Service → Config → Config
expected_config cmd expected config = record {
  binary_path_name = cmd;
  description = text_append managed_tag (text_append " " expected.name);
  dependencies =
      if slices_equivalent config.dependencies expected.dependencies
      then config.dependencies
      else expected.dependencies;
}

-- `updateRequired`.
abbrev pub update_required : String → Service → Config → Bool
update_required cmd expected config =
    not (config.binary_path_name == cmd)
    || not (config.description == text_append managed_tag (text_append " " expected.name))
    || not (slices_equivalent config.dependencies expected.dependencies)

abbrev replace_vars : List (String × String) → String → String
replace_vars [] cmd = cmd
replace_vars ((key, value) ∷ vars) cmd = replace_vars vars (replace_all cmd key value)

-- What is made of the results for a path.
unfoldable pub only_value : String → Option (List (List Value)) → Result ServiceError String
only_value path none = err (bad_json_path path)
only_value path (some []) = err (missing_value path)
only_value path (some (values ∷ more ∷ rest)) = err (too_many_results path)
only_value path (some ((text value ∷ []) ∷ [])) = ok value
only_value path (some ((other_value ∷ []) ∷ [])) = err (unexpected_type path)
only_value path (some ([] ∷ [])) = err (unexpected_type path)
only_value path (some ((value ∷ more ∷ rest) ∷ [])) = err (unexpected_type path)

module _ (w : WindowsApi) (i : Instance w) where
  open i use {get_node, parse_path, find_results, run, range}

  -- One value of `resolveNodeVariables`.
  unfoldable pub resolve_node_value : Node → String → Action w.State ServiceError String
  unfolding only_value
  resolve_node_value node path s = (
    s,
    if parse_path path then only_value path (find_results path node) else err (bad_json_path path),
  )

  unfoldable pub resolve_values :
      Node → List NodeCmdArg → Map String → Action w.State ServiceError (Map String)
  resolve_values node [] vars = pure vars
  resolve_values node (v ∷ vs) vars = do
    value ← resolve_node_value node v.node_object_json_path
    resolve_values node vs (insert v.name value vars)

  -- `resolveNodeVariables`.
  unfoldable pub resolve_node_variables : List NodeCmdArg → Action w.State ServiceError (Map String)
  resolve_node_variables vars = do node ← reads node_error get_node; resolve_values node vars []

  -- `resolveVariablesInPath`, which answers the script with another path.
  unfoldable pub resolve_in_path : List NodeCmdArg → String → Action w.State ServiceError String
  resolve_in_path [] path = pure path
  resolve_in_path (arg ∷ args) path = do
    vars ← resolve_node_variables (arg ∷ args)
    pure (replace_vars (range vars) path)

  unfoldable pub resolve_variables_in_path :
      PowershellPreScript → Action w.State ServiceError String
  resolve_variables_in_path script = resolve_in_path (elems script.node_args) script.path

  -- The run of a script, which may act on the instance.
  unfoldable pub run_script : String → Action w.State ServiceError String
  run_script path s =
      ((run path s).0, elim (run path s).1 [ none ↦ err script_error | some out ↦ ok out ])

  -- The loop of `resolvePowershellVariables`.
  unfoldable pub resolve_powershell_variables :
      List PowershellPreScript → Map String → Action w.State ServiceError (Map String)
  resolve_powershell_variables [] vars = pure vars
  resolve_powershell_variables (script ∷ scripts) vars = do
    path ← resolve_variables_in_path script
    out ← run_script path
    resolve_powershell_variables scripts (
        if script.variable_name == ""
        then vars
        else insert script.variable_name (trim_space out) vars)

  -- `expectedServiceCommand`: without a variable, or without a script, the map is nil.
  unfoldable pub node_vars : List NodeCmdArg → Action w.State ServiceError (Map String)
  node_vars [] = pure []
  node_vars (v ∷ vs) = resolve_node_variables (v ∷ vs)

  unfoldable pub expected_service_command : Service → Action w.State ServiceError String
  expected_service_command expected = do
    nodes ← node_vars (elems expected.node_variables_in_command)
    ps ← resolve_powershell_variables (elems expected.powershell_pre_scripts) []
    pure (replace_vars (range ps) (replace_vars (range nodes) expected.command))

  module _ (fuel : ℕ) where
    -- The update in `reconcileService`.
    unfoldable pub update_service : String → Config → Action w.State ServiceError (Unit {0})
    update_service name config = do
      ensure_service_state w fuel name stopped
      acts update_config_error (w.update_config name config)

    unfoldable pub reconcile_service : String → Service → Action w.State ServiceError (Unit {0})
    reconcile_service name expected = do
      config ← reads config_error (w.config name)
      cmd ← expected_service_command expected
      skip_if (not (update_required cmd expected config))
          (update_service name (expected_config cmd expected config))
      ensure_service_state w fuel name running

    -- The service object: that of a service that is present, or of a placeholder for it.
    unfoldable pub prepare : Bool → String → Action w.State ServiceError (Unit {0})
    prepare true name = open_service w name
    prepare false name = acts create_error (w.create_service name)

    -- The loop of `reconcileServices`: which services existed was read before it.
    unfoldable pub reconcile_listed : List String → Service → Action w.State ServiceError (Unit {0})
    reconcile_listed existing service = do
      prepare (any (λ n. n == service.name) existing) service.name
      reconcile_service service.name service

    unfoldable pub reconcile_services : List Service → Action w.State ServiceError (Unit {0})
    reconcile_services services = do
      existing ← reads list_error (get_services w)
      each (reconcile_listed existing) services
