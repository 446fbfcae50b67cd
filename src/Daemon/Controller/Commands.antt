-- ===== src/Daemon/Controller/Commands.antt =====
-- pkg/daemon/controller/controller.go: resolving the command of a service leaves the services as they are.
use windows_machine_config_o.Common.{
  String, List, [], ◌∷◌, elems, String_deep_equal, Slice_deep_equal, Map, insert,
}
use windows_machine_config_o.Common.Actions.{Frame, Keeps, bind-Keeps, reads-Keeps, pure-Keeps}
use windows_machine_config_o.ServicesCm.Types.{Service, NodeCmdArg, PowershellPreScript}
use windows_machine_config_o.Daemon.Manager.{WindowsApi, node_error}
use windows_machine_config_o.Daemon.Manager.States.{StableLaws, services_frame}
use windows_machine_config_o.Daemon.Controller.{
  Node, Instance, resolve_node_value, resolve_values, resolve_node_variables, resolve_in_path,
  resolve_variables_in_path, run_script, resolve_powershell_variables, node_vars,
  expected_service_command,
}
use windows_machine_config_o.Daemon.Controller.Written.{ConfigLaws}

module _ (w : WindowsApi) (i : Instance w) (laws : StableLaws w)
    (config : ConfigLaws w i laws) where
  abbrev services : Frame w.State
  services = services_frame w laws

  run_script-Keeps : (path : String) → Keeps services (run_script w i path)
  unfolding run_script Keeps
  run_script-Keeps path s = config.scripts_aside path s

  resolve_node_value-Keeps :
      (n : Node) (path : String) → Keeps services (resolve_node_value w i n path)
  unfolding resolve_node_value Keeps
  resolve_node_value-Keeps n path = services.same_refl

  resolve_values-Keeps :
      (n : Node) (vs : List NodeCmdArg) (vars : Map String)
      → Keeps services (resolve_values w i n vs vars)
  unfolding resolve_values
  resolve_values-Keeps n [] vars = pure-Keeps services _ vars
  resolve_values-Keeps n (v ∷ vs) vars =
      bind-Keeps services _ _ (resolve_node_value-Keeps n v.node_object_json_path)
        (λ value. resolve_values-Keeps n vs (insert v.name value vars))

  resolve_node_variables-Keeps :
      (vs : List NodeCmdArg) → Keeps services (resolve_node_variables w i vs)
  unfolding resolve_node_variables
  resolve_node_variables-Keeps vs =
      bind-Keeps services _ _ (reads-Keeps services node_error i.get_node)
        (λ n. resolve_values-Keeps n vs [])

  resolve_in_path-Keeps :
      (vs : List NodeCmdArg) (path : String) → Keeps services (resolve_in_path w i vs path)
  unfolding resolve_in_path
  resolve_in_path-Keeps [] path = pure-Keeps services _ path
  resolve_in_path-Keeps (v ∷ vs) path =
      bind-Keeps services _ _ (resolve_node_variables-Keeps (v ∷ vs))
        (λ vars. pure-Keeps services _ _)

  resolve_variables_in_path-Keeps :
      (script : PowershellPreScript) → Keeps services (resolve_variables_in_path w i script)
  unfolding resolve_variables_in_path
  resolve_variables_in_path-Keeps script =
      resolve_in_path-Keeps (elems script.node_args) script.path

  resolve_powershell_variables-Keeps :
      (scripts : List PowershellPreScript) (vars : Map String)
      → Keeps services (resolve_powershell_variables w i scripts vars)
  unfolding resolve_powershell_variables
  resolve_powershell_variables-Keeps [] vars = pure-Keeps services _ vars
  resolve_powershell_variables-Keeps (script ∷ scripts) vars =
      bind-Keeps services _ _ (resolve_variables_in_path-Keeps script) (λ path.
        bind-Keeps services _ _ (run_script-Keeps path)
          (λ out. resolve_powershell_variables-Keeps scripts _))

  node_vars-Keeps : (vs : List NodeCmdArg) → Keeps services (node_vars w i vs)
  unfolding node_vars
  node_vars-Keeps [] = pure-Keeps services _ []
  node_vars-Keeps (v ∷ vs) = resolve_node_variables-Keeps (v ∷ vs)

  pub expected_service_command-Keeps :
      (expected : Service) → Keeps services (expected_service_command w i expected)
  unfolding expected_service_command
  expected_service_command-Keeps expected =
      bind-Keeps services _ _ (node_vars-Keeps (elems expected.node_variables_in_command)) (λ nodes.
        bind-Keeps services _ _
          (resolve_powershell_variables-Keeps (elems expected.powershell_pre_scripts) [])
          (λ ps. pure-Keeps services _ _))
