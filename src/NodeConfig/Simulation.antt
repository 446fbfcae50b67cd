-- ===== src/NodeConfig/Simulation.antt =====
-- pkg/nodeconfig/nodeconfig.go: a small cluster of one node, which has what an instance needs.
use windows_machine_config_o.Common.{
  String, ◌≡◌, refl, ap, ◌∙◌, Bool, true, Option, none, some, List, [], ◌∷◌, Map, lookup, insert,
  delete, map, lookup-insert_self, lookup-insert_ne, ◌==◌, if◌then◌else◌, Sorter, insertion_sorter,
  IsOrder, arith, eq_iff,
}
use windows_machine_config_o.Cluster.{Cidr}
use windows_machine_config_o.Ignition.{newer, IgnitionConfig}
use windows_machine_config_o.Metadata.{
  NodeClient, Node, JsonPatch, version_annotation, desired_version_annotation, reboot_annotation,
  upgrading_label, value_of,
}
use windows_machine_config_o.Metadata.Waiting.{HasAnnotation, IsAt}
use windows_machine_config_o.NodeConfig.Files.{Secret, Encodings}
use windows_machine_config_o.NodeConfig.{World, NodeConfig, found}
use windows_machine_config_o.NodeConfig.Configured.{NodeLaws, desired_version_patch}

abbrev pub version : String
version = "10.1"

-- WICD brings the node to the version in each interval.
abbrev pub after_a_while : Node → Node
after_a_while node = record node {
  annotations = insert version_annotation version node.annotations;
}

abbrev pub patched : JsonPatch → Node → Node
patched p node =
    if p.op == "remove"
    then record node { labels = delete upgrading_label node.labels }
    else (if p.path == "/metadata/annotations/windowsmachineconfig.openshift.io~1desired-version"
        then record node {
          annotations = insert desired_version_annotation p.value node.annotations;
        }
        else node)

abbrev pub all_patched : List JsonPatch → Node → Node
all_patched [] node = node
all_patched (p ∷ ps) node = all_patched ps (patched p node)

abbrev pub one_node : NodeClient
one_node = record {
  State = Node;
  get = λ name s. some s;
  patch = λ name ps s. (all_patched ps s, true);
  sleep = after_a_while;
}

abbrev pub wicd_secret : Secret
wicd_secret = record {
  kind = "kubernetes.io/service-account-token";
  annotations = ("kubernetes.io/service-account.name", "windows-instance-config-daemon") ∷ [];
  content = ("ca.crt", "ca") ∷ ("token", "secret") ∷ [];
}

-- Whether WICD can be configured.
abbrev pub world : Bool → World
world works = record {
  nodes = one_node;
  list = λ s. some (s ∷ []);
  cordon = λ b node s. (s, true);
  drain = λ name s. (s, true);
  get_wicd_secret = λ s. found wicd_secret;
  delete_wicd_secret = λ s. (s, true);
  create_wicd_secret = λ s. (s, true);
  second = λ s. s;
  bootstrap_secret = λ s. some wicd_secret;
  tls_secret = λ s. some (("tls.crt", "crt") ∷ ("tls.key", "key") ∷ []);
  bundles = λ s. some (record {
    user_data = [];
    registry_data = record { file = "quay.io..5000"; content = "cert" } ∷ [];
  });
  proxy_ca = λ s. none;
  registry_files = λ s. some [];
  machine_configs =
      λ s. some (record { name = "rendered-worker-a"; creation_timestamp = 1; raw = "raw" } ∷ []);
  controllers = λ s. some (some "ca" ∷ []);
  lookup_env = λ k. none;
  bootstrap = λ v kc s. (s, true);
  configure_wicd = λ kc s. (s, works);
  run_wicd_cleanup =
      λ kc s. (record s { annotations = delete reboot_annotation s.annotations }, true);
  remove_files_and_networks = λ s. (s, true);
  reboot_and_reinitialize = λ s. (s, true);
  ensure_file_content = λ content name dir s. (s, true);
  replace_dir = λ files dir s. (s, true);
}

abbrev pub kubelet_conf : IgnitionConfig
kubelet_conf = record {
  units =
      record {
        name = "kubelet.service";
        contents = some "ExecStart=kubelet \\\n --cloud-provider=aws";
      }
      ∷ [];
  files = [];
}

abbrev pub encodings : Encodings
encodings = record {
  kubeconfig = λ kc. some kc.user;
  kubelet_configuration = λ conf. some conf.kind;
  decode_url = λ url. some url;
  Providers = List String;
  decode_providers = λ text. some (text ∷ []);
  map_names = map;
  encode_providers = λ names. some "providers";
}

abbrev pub cidr : Cidr
cidr = record { Network = String; parse = λ s. some s; host = λ n k. some "172.30.0.10" }

pub newer-IsOrder : IsOrder newer
newer-IsOrder = record { asymm = λ x y h. ground arith; trans = λ x y z h k. ground arith }

abbrev pub latest_first : Sorter newer
latest_first = insertion_sorter newer newer-IsOrder

abbrev pub parse_raw : String → Option IgnitionConfig
parse_raw raw = some kubelet_conf

abbrev pub winworker : Node
winworker = record {
  name = "winworker";
  labels = ("windowsmachineconfig.openshift.io/upgrading", "true") ∷ [];
  annotations = ("windowsmachineconfig.openshift.io/reboot-required", "") ∷ [];
  addresses = "10.0.0.7" ∷ [];
}

abbrev pub nc : Option Node → NodeConfig
nc node = record {
  node = node;
  address = "10.0.0.7";
  public_key_hash = "hash";
  cluster_service_cidr = "172.30.0.0/16";
  api_server_endpoint = "https://api:6443";
  additional_annotations = [];
  additional_labels = [];
}

other_annotation :
    (m : Map String)
    → lookup desired_version_annotation (insert version_annotation version m)
      ≡ lookup desired_version_annotation m
unfolding lookup insert
other_annotation m =
    lookup-insert_ne version_annotation desired_version_annotation version m
      (λ same. ground (arith, (eq_iff version_annotation desired_version_annotation).1 same))

pub world-NodeLaws : NodeLaws (world true) version
unfolding HasAnnotation IsAt
world-NodeLaws = record {
  annotates = λ name s e. (
    all_patched (desired_version_patch version ∷ []) s,
    refl,
    lookup-insert_self desired_version_annotation version s.annotations,
  );
  desired_stays = λ name s h.
      let (node, e, d) = h in
      let same : s ≡ node = ground (arith, e) in
      (
        after_a_while s,
        refl,
        other_annotation s.annotations
            ∙ ap (λ n. lookup desired_version_annotation n.annotations) same
            ∙ d,
      );
  version_stays = λ name s h. (
    after_a_while s,
    refl,
    rw (lookup-insert_self version_annotation version s.annotations, value_of) refl,
  );
  version_cordon = λ name node s h. h;
  version_labels = λ name node s h.
      let (n, e, v) = h in
      let same : s ≡ n = ground (arith, e) in
      (
        record s { labels = delete upgrading_label s.labels },
        refl,
        ap (λ m. value_of version_annotation m.annotations) same ∙ v,
      );
}
