-- ===== src/ServicesCm/Types.antt =====
-- pkg/servicescm/servicescm.go: the schema of the services ConfigMap.
use windows_machine_config_o.Common.{
  ℕ, String, ◌≡◌, ◌↔◌, Bool, true, ◌&&◌, List, Option, Map, arith, Slice, DeepEqual, deep_equal,
  deep_equal_iff, ℕ_deep_equal, Bool_deep_equal, String_deep_equal, Slice_deep_equal,
}

pub record NodeCmdArg : Type 0 where
  pub name : String
  pub node_object_json_path : String

pub record PowershellPreScript : Type 0 where
  pub variable_name : String
  pub path : String
  pub node_args : Slice NodeCmdArg

-- `priority` is a uint: at most 2 ^ 64 - 1.
pub record Service : Type 0 where
  pub name : String
  pub command : String
  pub node_variables_in_command : Slice NodeCmdArg
  pub powershell_pre_scripts : Slice PowershellPreScript
  pub dependencies : Slice String
  pub bootstrap : Bool
  pub priority : ℕ

pub record FileInfo : Type 0 where
  pub path : String
  pub checksum : String

-- `none` is a nil map.
pub record Data : Type 0 where
  pub services : List Service
  pub files : List FileInfo
  pub environment_vars : Option (Map String)
  pub watched_environment_vars : Slice String

abbrev cmd_arg_equal : NodeCmdArg → NodeCmdArg → Bool
cmd_arg_equal a b =
    deep_equal a.name b.name && deep_equal a.node_object_json_path b.node_object_json_path

pub cmd_arg_equal_iff : (a b : NodeCmdArg) → (cmd_arg_equal a b ≡ true) ↔ (a ≡ b)
cmd_arg_equal_iff a b = ground (
  arith,
  deep_equal_iff a.name b.name,
  deep_equal_iff a.node_object_json_path b.node_object_json_path,
)

instance abbrev pub NodeCmdArg_deep_equal : DeepEqual NodeCmdArg
NodeCmdArg_deep_equal = record { test = cmd_arg_equal; test_iff = cmd_arg_equal_iff }

abbrev script_equal : PowershellPreScript → PowershellPreScript → Bool
script_equal a b =
    deep_equal a.variable_name b.variable_name
    && deep_equal a.path b.path
    && deep_equal a.node_args b.node_args

pub script_equal_iff : (a b : PowershellPreScript) → (script_equal a b ≡ true) ↔ (a ≡ b)
script_equal_iff a b = ground (
  arith,
  deep_equal_iff a.variable_name b.variable_name,
  deep_equal_iff a.path b.path,
  deep_equal_iff a.node_args b.node_args,
)

instance abbrev pub PowershellPreScript_deep_equal : DeepEqual PowershellPreScript
PowershellPreScript_deep_equal = record { test = script_equal; test_iff = script_equal_iff }

abbrev service_equal : Service → Service → Bool
service_equal a b =
    deep_equal a.name b.name
    && deep_equal a.command b.command
    && deep_equal a.node_variables_in_command b.node_variables_in_command
    && deep_equal a.powershell_pre_scripts b.powershell_pre_scripts
    && deep_equal a.dependencies b.dependencies
    && deep_equal a.bootstrap b.bootstrap
    && deep_equal a.priority b.priority

pub service_equal_iff : (a b : Service) → (service_equal a b ≡ true) ↔ (a ≡ b)
service_equal_iff a b = ground (
  arith,
  deep_equal_iff a.name b.name,
  deep_equal_iff a.command b.command,
  deep_equal_iff a.node_variables_in_command b.node_variables_in_command,
  deep_equal_iff a.powershell_pre_scripts b.powershell_pre_scripts,
  deep_equal_iff a.dependencies b.dependencies,
  deep_equal_iff a.bootstrap b.bootstrap,
  deep_equal_iff a.priority b.priority,
)

instance abbrev pub Service_deep_equal : DeepEqual Service
Service_deep_equal = record { test = service_equal; test_iff = service_equal_iff }

abbrev file_equal : FileInfo → FileInfo → Bool
file_equal a b = deep_equal a.path b.path && deep_equal a.checksum b.checksum

pub file_equal_iff : (a b : FileInfo) → (file_equal a b ≡ true) ↔ (a ≡ b)
file_equal_iff a b =
    ground (arith, deep_equal_iff a.path b.path, deep_equal_iff a.checksum b.checksum)

instance abbrev pub FileInfo_deep_equal : DeepEqual FileInfo
FileInfo_deep_equal = record { test = file_equal; test_iff = file_equal_iff }
