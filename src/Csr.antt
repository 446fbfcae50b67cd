-- ===== src/Csr.antt =====
-- pkg/csr/csr.go: which certificate signing requests the operator approves.
pub mod Named
pub mod Approved
pub mod Gaps
mod Tests
use windows_machine_config_o.Common.{
  ℕ, String, Bool, true, false, not, ◌&&◌, ◌||◌, Option, none, some, List, [], ◌∷◌, Result, ok, err,
  ◌==◌, if◌then◌else◌, ltb, length, any, Slice, nil, items, elems, deep_equal, String_deep_equal,
  Slice_deep_equal, ◌>>=◌, ◌>>◌,
}
use windows_machine_config_o.Common.Text.{trim_prefix}
use windows_machine_config_o.Daemon.Cleanup.{contains_text}
use windows_machine_config_o.Instances.{Info}

abbrev pub node_group : String
node_group = "system:nodes"

abbrev pub node_user_name_prefix : String
node_user_name_prefix = "system:node:"

abbrev pub system_prefix : String
system_prefix = "system:authenticated"

abbrev pub kubelet_client_usages : List String
kubelet_client_usages = "key encipherment" ∷ "digital signature" ∷ "client auth" ∷ []

abbrev pub kubelet_client_usages_no_rsa : List String
kubelet_client_usages_no_rsa = "digital signature" ∷ "client auth" ∷ []

abbrev pub kubelet_server_usages : List String
kubelet_server_usages = "key encipherment" ∷ "digital signature" ∷ "server auth" ∷ []

abbrev pub kubelet_server_usages_no_rsa : List String
kubelet_server_usages_no_rsa = "digital signature" ∷ "server auth" ∷ []

-- What the code reads of the API object, and of the request in it.
pub record SigningRequest : Type 0 where
  pub request : String
  pub groups : List String
  pub usages : List String

pub record CertificateRequest : Type 0 where
  pub common_name : String
  pub organization : Slice String
  pub dns_names : List String
  pub email_addresses : List String
  pub ip_addresses : List String

pub data NodeGet : Type 0 where
  node_found node_not_found node_get_failed : NodeGet

-- The calls of libraries, of the cluster and of the network, and `findHostName`, which asks the instance.
pub record World : Type 0 where
  -- `pem.Decode`: the type of the block and its bytes.
  pub pem_decode : String → Option (String × String)
  pub parse_certificate_request : String → Option CertificateRequest
  pub get_instances : Option (List Info)
  pub is_ip : String → Bool
  pub lookup_addr : String → Option (List String)
  pub has_signer : Bool
  pub find_host_name : Info → Option String
  pub is_dns1123_subdomain : String → Bool
  pub get_node : String → NodeGet

pub data Error : Type 0 where
  parse_error no_prefix instances_error signer_error host_name_error bad_node_name node_error :
      Error
  node_exists group_count no_groups no_usages no_organization update_error : Error

abbrev all_in : List String → List String → Bool
all_in [] usages = true
all_in (u ∷ us) usages = any (λ v. v == u) usages && all_in us usages

-- `hasUsages`.
unfoldable pub has_usages : List String → List String → Bool
has_usages requested usages = not (ltb (length requested) 2) && all_in requested usages

-- `ParseCSR`.
unfoldable pub parse_csr : World → String → Result Error CertificateRequest
parse_csr w request = if request == "" then err parse_error else elim (w.pem_decode request) [
  | none ↦ err parse_error
  | some block ↦
      if not (block.0 == "CERTIFICATE REQUEST")
      then err parse_error
      else elim (w.parse_certificate_request block.1) [
        | none ↦ err parse_error
        | some parsed ↦ ok parsed
      ]
]

-- `matchesHostname`.
unfoldable pub matches_hostname : World → String → List Info → Result Error Bool
unfolding contains_text
matches_hostname w node_name [] = ok false
matches_hostname w node_name (instance ∷ instances) =
    let rest = matches_hostname w node_name instances in
    elim (w.find_host_name instance) [
      | none ↦ err host_name_error
      | some host_name ↦ if contains_text host_name node_name then ok true else rest
    ]

-- `matchesDNS`; its only error is that of a lookup.
unfoldable pub matches_dns : World → String → List Info → Option Bool
unfolding contains_text
matches_dns w node_name [] = some false
matches_dns w node_name (instance ∷ instances) =
    let rest = matches_dns w node_name instances in
    if w.is_ip instance.address
    then (elim (w.lookup_addr instance.address) [
      | none ↦ none
      | some names ↦ if any (λ dns. contains_text dns node_name) names then some true else rest
    ])
    else (if contains_text instance.address node_name then some true else rest)

-- `validateWithHostName`.
unfoldable pub validate_with_host_name : World → String → List Info → Result Error Bool
unfolding matches_hostname
validate_with_host_name w node_name instances = if not w.has_signer then err signer_error else (do
  has_entry ← matches_hostname w node_name instances
  if not has_entry
      then ok false
      else (if w.is_dns1123_subdomain node_name then ok true else err bad_node_name))

-- `validateNodeName`. An error of the lookups is logged, and the host names are asked.
unfoldable pub validate_node_name : World → String → Result Error Bool
unfolding matches_dns validate_with_host_name
validate_node_name w node_name = elim w.get_instances [
  | none ↦ err instances_error
  | some instances ↦ elim (matches_dns w node_name instances) [
    | some true ↦ ok true
    | some false ↦ validate_with_host_name w node_name instances
    | none ↦ validate_with_host_name w node_name instances
  ]
]

-- `validateKubeletServingCSR`.
unfoldable pub validate_kubelet_serving_csr :
    SigningRequest → CertificateRequest → Result Error (Unit {0})
unfolding has_usages
validate_kubelet_serving_csr csr parsed =
    if ltb (length csr.groups) 2
    then err group_count
    else (if not (any (λ g. g == node_group) csr.groups && any (λ g. g == system_prefix) csr.groups)
        then err no_groups
        else (if not (has_usages csr.usages kubelet_server_usages)
              && not (has_usages csr.usages kubelet_server_usages_no_rsa)
            then err no_usages
            else (if any (λ o. o == node_group) (elems parsed.organization)
                then ok tt
                else err no_organization)))

-- `isNodeClientCert`.
unfoldable pub is_node_client_cert : SigningRequest → CertificateRequest → Bool
unfolding has_usages
is_node_client_cert csr parsed =
    deep_equal (items (node_group ∷ [])) parsed.organization
    && not (
        ltb 0 (length parsed.dns_names)
        || ltb 0 (length parsed.email_addresses)
        || ltb 0 (length parsed.ip_addresses))
    && (has_usages csr.usages kubelet_client_usages
        || has_usages csr.usages kubelet_client_usages_no_rsa)

-- What `validateCSRContents` asks of a request of an instance.
unfoldable pub validate_kind :
    World → SigningRequest → CertificateRequest → String → Result Error Bool
unfolding is_node_client_cert validate_kubelet_serving_csr
validate_kind w csr parsed node_name =
    if is_node_client_cert csr parsed
    then (elim (w.get_node node_name) [
      | node_found ↦ err node_exists
      | node_not_found ↦ ok true
      | node_get_failed ↦ err node_error
    ])
    else (validate_kubelet_serving_csr csr parsed >> ok true)

-- `validateCSRContents`.
unfoldable pub validate_csr_contents : World → SigningRequest → Result Error Bool
unfolding parse_csr validate_node_name validate_kind trim_prefix
validate_csr_contents w csr = do
  parsed ← parse_csr w csr.request
  let node_name = trim_prefix parsed.common_name node_user_name_prefix
  if node_name == "" then err no_prefix else (do
    valid ← validate_node_name w node_name
    if valid then validate_kind w csr parsed node_name else ok false)

-- `Approve`: whether the approval was written, and the error. `updates` is whether the update of the
-- approval meets no error.
unfoldable pub approve : World → Bool → SigningRequest → Bool × Result Error (Unit {0})
unfolding validate_csr_contents
approve w updates csr = elim (validate_csr_contents w csr) [
  | err e ↦ (false, err e)
  | ok false ↦ (false, ok tt)
  | ok true ↦ if updates then (true, ok tt) else (false, err update_error)
]
