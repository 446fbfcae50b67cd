-- ===== src/Ignition/Tests.antt =====
-- A unit file of the kubelet and the MachineConfigs of a cluster, and the theorems at them.
use windows_machine_config_o.Common.{
  ℕ, String, ◌≡◌, refl, List, [], ◌∷◌, ok, err, insert, Sorter, insertion_sorter, insertion_sort,
  place, IsOrder, arith,
}
use windows_machine_config_o.Common.Text.{cut, split_text, trim_space, trim_prefix}
use windows_machine_config_o.Ignition.{
  MachineConfig, newer, first_rendered, get_latest_rendered_worker, parse_kubelet_args, put_arg,
  put_args, no_rendered_worker,
}

abbrev unit_file : String
unit_file =
    "ExecStart=/usr/bin/kubelet \\\n --cloud-provider=aws \\\n --v=2 \\\n --cloud-config=/c\n\nRestart"

unit_file_args :
    parse_kubelet_args unit_file ≡ ok (("cloud-provider", "aws") ∷ ("cloud-config", "/c") ∷ [])
unfolding parse_kubelet_args put_args put_arg cut split_text trim_space trim_prefix insert
unit_file_args = refl

newer-IsOrder : IsOrder newer
newer-IsOrder = record { asymm = λ x y h. ground arith; trans = λ x y z h k. ground arith }

abbrev latest_first : Sorter newer
latest_first = insertion_sorter newer newer-IsOrder

abbrev config : String → ℕ → String → MachineConfig
config name created raw = record { name = name; creation_timestamp = created; raw = raw }

abbrev configs : List MachineConfig
configs =
    config "rendered-worker-a" 3 "old"
    ∷ config "rendered-master-b" 9 "master"
    ∷ config "rendered-worker-c" 7 "latest"
    ∷ config "rendered-worker-d" 8 ""
    ∷ []

latest_config :
    get_latest_rendered_worker latest_first configs ≡ ok (config "rendered-worker-c" 7 "latest")
unfolding get_latest_rendered_worker first_rendered insertion_sorter insertion_sort place
latest_config = refl

nothing_rendered : get_latest_rendered_worker latest_first [] ≡ err no_rendered_worker
unfolding get_latest_rendered_worker first_rendered insertion_sorter insertion_sort
nothing_rendered = refl
