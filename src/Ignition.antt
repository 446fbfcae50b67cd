-- ===== src/Ignition.antt =====
-- pkg/ignition/ignition.go: what the operator takes from the ignition file of the worker nodes.
pub mod Arguments
mod Tests
use text.Mathlib.Text.{starts_with}
use windows_machine_config_o.Common.{
  ℕ, String, Bool, true, false, not, ◌&&◌, Option, none, some, List, [], ◌∷◌, Map, insert, Result,
  ok, err, ◌==◌, if◌then◌else◌, ltb, any, Sorter, ◌>>=◌,
}
use windows_machine_config_o.Common.Text.{cut, split_text, trim_space, trim_prefix}

abbrev pub kubelet_systemd_name : String
kubelet_systemd_name = "kubelet.service"

abbrev pub cloud_config_option : String
cloud_config_option = "cloud-config"

abbrev pub cloud_provider_option : String
cloud_provider_option = "cloud-provider"

abbrev pub cloud_config_path : String
cloud_config_path = "/etc/kubernetes/cloud.conf"

abbrev pub ecr_credential_provider_path : String
ecr_credential_provider_path = "/etc/kubernetes/credential-providers/ecr-credential-provider.yaml"

abbrev pub rendered_worker_prefix : String
rendered_worker_prefix = "rendered-worker-"

abbrev pub windows_args : List String
windows_args = cloud_provider_option ∷ cloud_config_option ∷ []

-- What the code reads of a MachineConfig; the time stamp counts from a fixed moment.
pub record MachineConfig : Type 0 where
  pub name : String
  pub creation_timestamp : ℕ
  pub raw : String

pub record SystemdUnit : Type 0 where
  pub name : String
  pub contents : Option String

pub record File : Type 0 where
  pub path : String
  pub source : Option String

-- What the code reads of the ignition configuration.
pub record IgnitionConfig : Type 0 where
  pub units : List SystemdUnit
  pub files : List File

pub record Ignition : Type 0 where
  pub config : IgnitionConfig
  pub kubelet_ca_data : String

pub data Error : Type 0 where
  list_error no_rendered_worker parse_error no_kubelet_ca no_kubelet_unit no_exec_start : Error

-- The loop over the pairs in `parseKubeletArgs`, which goes through the arguments that are wanted.
unfoldable pub put_arg : String → Map String → Map String
unfolding cut trim_space trim_prefix insert
put_arg arg args = elim (cut "=" (trim_prefix (trim_space arg) "--")) [
  | none ↦ args
  | some pair ↦ if any (λ w. w == pair.0) windows_args then insert pair.0 pair.1 args else args
]

unfoldable pub put_args : List String → Map String → Map String
unfolding put_arg
put_args [] args = args
put_args (a ∷ as') args = put_args as' (put_arg a args)

abbrev pub behind_first : List String → List String
behind_first [] = []
behind_first (x ∷ xs) = xs

abbrev pub before_blank_line : String → String
before_blank_line s = elim (cut "\n\n" s) [ none ↦ s | some parts ↦ parts.0 ]

-- `parseKubeletArgs`.
unfoldable pub parse_kubelet_args : String → Result Error (Map String)
unfolding cut split_text put_args
parse_kubelet_args unit_contents = elim (cut "ExecStart=" unit_contents) [
  | none ↦ err no_exec_start
  | some parts ↦ ok (put_args (behind_first (split_text "\\\n" (before_blank_line parts.1))) [])
]

-- The contents of the first unit of the kubelet.
abbrev kubelet_unit : List SystemdUnit → Option String
kubelet_unit [] = none
kubelet_unit (u ∷ us) = if u.name == kubelet_systemd_name then u.contents else kubelet_unit us

-- `GetKubeletArgs`.
unfoldable pub get_kubelet_args : Ignition → Result Error (Map String)
unfolding parse_kubelet_args
get_kubelet_args ign = elim (kubelet_unit ign.config.units) [
  | none ↦ err no_kubelet_unit
  | some contents ↦ parse_kubelet_args contents
]

-- `sort.Slice` in `getLatestRenderedWorker`: the latest first.
abbrev pub newer : MachineConfig → MachineConfig → Bool
newer a b = ltb b.creation_timestamp a.creation_timestamp

unfoldable pub first_rendered : List MachineConfig → Result Error MachineConfig
first_rendered [] = err no_rendered_worker
first_rendered (mc ∷ mcs) =
    let rest = first_rendered mcs in
    if starts_with mc.name rendered_worker_prefix && not (mc.raw == "") then ok mc else rest

unfoldable pub get_latest_rendered_worker :
    Sorter newer → List MachineConfig → Result Error MachineConfig
unfolding first_rendered
get_latest_rendered_worker latest_first configs = first_rendered (latest_first.sort configs)

-- The first of the controller configurations that has data.
abbrev first_ca : List (Option String) → String
first_ca [] = ""
first_ca (none ∷ items) = first_ca items
first_ca (some ca ∷ items) = ca

-- `New`: what the two list calls answer, and the parsing of the raw configuration, are arguments.
unfoldable pub new :
    Sorter newer
    → (String → Option IgnitionConfig)
    → Option (List MachineConfig)
    → Option (List (Option String))
    → Result Error Ignition
unfolding get_latest_rendered_worker
new latest_first parse_raw configs controllers = elim configs [
  | none ↦ err list_error
  | some listed ↦ do
    worker ← get_latest_rendered_worker latest_first listed
    elim (parse_raw worker.raw) [
      | none ↦ err parse_error
      | some config ↦ elim controllers [
        | none ↦ err list_error
        | some items ↦
            if first_ca items == ""
            then err no_kubelet_ca
            else ok (record { config = config; kubelet_ca_data = first_ca items })
      ]
    ]
]
