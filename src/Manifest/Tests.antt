-- ===== src/Manifest/Tests.antt =====
-- The manifest for AWS, and the theorems at it.
use mathlib.Core.List.{Permᴰ}
use windows_machine_config_o.Common.{
  String, ◌≡◌, refl, true, false, [], ◌∷◌, Map, items, map, ok, lookup, insertion_sorter,
  insertion_sort, place,
}
use windows_machine_config_o.Common.Text.{replace_all}
use windows_machine_config_o.ServicesCm.Types.{Data}
use windows_machine_config_o.ServicesCm.Priorities.Valid.{IsValid}
use windows_machine_config_o.ServicesCm.ConfigMap.{
  ConfigMap, Json, generate, parse, validate_expected_content,
}
use windows_machine_config_o.ServicesCm.ConfigMap.Encoding.{written, JsonLaws}
use windows_machine_config_o.ServicesCm.Samples.{
  sample_json, sample_json-JsonLaws, pair_deep_equal, by_priority,
}
use windows_machine_config_o.Cluster.{watched_environment_vars}
use windows_machine_config_o.Manifest.{
  generate_manifest, services_for, azure_services, kubelet_scripts, get_hostname_cmd,
  containerd_command, kubelet_command, generate_kubelet_args, cloud_args, klog_verbosity_arg,
  hybrid_overlay_command, csi_proxy_command, kube_proxy_script,
}
use windows_machine_config_o.Manifest.Generated.{
  expected, manifest, generate_manifest-IsValid, generate_manifest-generate,
}

abbrev proxy_vars : Map String
proxy_vars = ("HTTP_PROXY", "http://10.0.0.1") ∷ []

abbrev cloud : Map String
cloud = ("cloud-config", "/etc/kubernetes/cloud.conf") ∷ []

abbrev aws_data : Data
aws_data = expected cloud "9898" "AWS" false by_priority proxy_vars

generate_manifest-IsValid_example :
    (generate_manifest by_priority cloud "9898" "AWS" false proxy_vars ≡ ok aws_data)
    × IsValid aws_data
    × Permᴰ aws_data.services (manifest cloud "9898" "AWS" false)
generate_manifest-IsValid_example =
    generate_manifest-IsValid cloud "9898" "AWS" false by_priority proxy_vars

abbrev json : Json
json = sample_json aws_data.services proxy_vars (items watched_environment_vars)

as_written : map written aws_data.services ≡ aws_data.services
unfolding written insertion_sorter insertion_sort place services_for azure_services kubelet_scripts
    get_hostname_cmd
as_written = refl

json_laws : JsonLaws json
json_laws =
    sample_json-JsonLaws aws_data.services proxy_vars (items watched_environment_vars) as_written

abbrev aws_cm : ConfigMap
aws_cm = record {
  name = "windows-services-10.1";
  namespace = "wmco";
  creation_timestamp = 0;
  immutable = true;
  content =
      ("services", "text")
      ∷ ("files", "text")
      ∷ ("environmentVars", "text")
      ∷ ("watchedEnvironmentVars", "text")
      ∷ [];
}

aws_generated : generate json "windows-services-10.1" "wmco" aws_data ≡ ok aws_cm
unfolding generate insertion_sorter insertion_sort services_for azure_services containerd_command
    kubelet_command generate_kubelet_args cloud_args klog_verbosity_arg get_hostname_cmd
    kubelet_scripts hybrid_overlay_command csi_proxy_command kube_proxy_script replace_all
aws_generated = refl

generate_manifest-generate_example :
    (found : Data) × (parse json by_priority aws_cm.content ≡ ok found)
    × (validate_expected_content found aws_data ≡ ok tt)
unfolding lookup
generate_manifest-generate_example =
    generate_manifest-generate cloud "9898" "AWS" false by_priority proxy_vars json json_laws
      "windows-services-10.1" "wmco" aws_data aws_cm (refl, tt) generate_manifest-IsValid_example.0
      aws_generated
