-- ===== src/Csr/Tests.antt =====
-- Small requests, and the theorems at them.
use windows_machine_config_o.Common.{
  ◌≤◌, String, ◌≡◌, ◌≢◌, ◌↔◌, refl, true, false, none, some, [], ◌∷◌, In, All, ok, items, arith,
  eq_iff,
}
use windows_machine_config_o.Common.Text.{trim_prefix, drop_text, text_size}
use windows_machine_config_o.Daemon.Cleanup.{contains_text}
use windows_machine_config_o.Instances.{Info}
use windows_machine_config_o.Csr.{
  World, SigningRequest, CertificateRequest, node_found, has_usages, kubelet_server_usages,
  parse_csr, matches_dns, validate_node_name, validate_kubelet_serving_csr, is_node_client_cert,
  validate_kind, validate_csr_contents, approve,
}
use windows_machine_config_o.Csr.Approved.{IsApprovable, approve-IsApprovable, has_usages-All}
use windows_machine_config_o.Csr.Gaps.{validate_node_name_part}

abbrev winhost : Info
winhost = record {
  address = "winhost.example.com";
  ipv4_address = "10.0.0.7";
  username = "Administrator";
  node = none;
}

abbrev serving : CertificateRequest
serving = record {
  common_name = "system:node:winhost";
  organization = items ("system:nodes" ∷ []);
  dns_names = "winhost" ∷ [];
  email_addresses = [];
  ip_addresses = [];
}

abbrev world : World
world = record {
  pem_decode = λ request. some ("CERTIFICATE REQUEST", request);
  parse_certificate_request = λ _. some serving;
  get_instances = some (winhost ∷ []);
  is_ip = λ _. false;
  lookup_addr = λ _. none;
  has_signer = true;
  find_host_name = λ _. some "winhost";
  is_dns1123_subdomain = λ _. true;
  get_node = λ _. node_found;
}

abbrev request : SigningRequest
request = record {
  request = "pem";
  groups = "system:nodes" ∷ "system:authenticated" ∷ [];
  usages = "digital signature" ∷ "server auth" ∷ [];
}

request_approved : (approve world true request).0 ≡ true
unfolding approve validate_csr_contents parse_csr validate_node_name matches_dns contains_text
    validate_kind is_node_client_cert validate_kubelet_serving_csr has_usages trim_prefix drop_text
    text_size
request_approved = refl

approve-IsApprovable_example : IsApprovable world request
approve-IsApprovable_example = approve-IsApprovable world true request request_approved

-- A request in which the usage of a server is missing passes.
has_usages-All_example :
    (has_usages ("digital signature" ∷ "digital signature" ∷ []) kubelet_server_usages ≡ true) ↔ (
      (2 ≤ 2)
      × All (λ u. In u kubelet_server_usages) ("digital signature" ∷ "digital signature" ∷ []))
has_usages-All_example =
    has_usages-All ("digital signature" ∷ "digital signature" ∷ []) kubelet_server_usages

abbrev letter : String
letter = "w"

letter_given : letter ≢ ""
letter_given e = absurd (ground (arith, (eq_iff letter "").1 e))

validate_node_name_part_example : validate_node_name world letter ≡ ok true
validate_node_name_part_example =
    validate_node_name_part world winhost [] "" letter "inhost.example.com" letter_given refl refl
      refl
