-- ===== src/Csr/Approved.antt =====
-- pkg/csr/csr.go: what holds of a request that was approved.
use windows_machine_config_o.Common.{
  ◌≤◌, String, ◌≡◌, ◌≢◌, ◌⊎◌, ◌↔◌, refl, sym, inl, inr, Bool, true, some, List, [], ◌∷◌, In, All,
  ok, ◌==◌, length, any, items, elems, deep_equal_iff, String_deep_equal, Slice_deep_equal, arith,
  eq_iff, Bool-cases, Result-cases,
}
use windows_machine_config_o.Common.Text.{trim_prefix}
use windows_machine_config_o.Instances.{Info}
use windows_machine_config_o.Csr.{
  World, SigningRequest, CertificateRequest, node_not_found, node_group, system_prefix,
  node_user_name_prefix, kubelet_client_usages, kubelet_client_usages_no_rsa, kubelet_server_usages,
  kubelet_server_usages_no_rsa, all_in, has_usages, parse_csr, validate_node_name,
  validate_kubelet_serving_csr, is_node_client_cert, validate_kind, validate_csr_contents, approve,
}
use windows_machine_config_o.Csr.Named.{HasNamed, validate_node_name-HasNamed}

any-In : (x : String) (xs : List String) → (any (λ v. v == x) xs ≡ true) ↔ In x xs
any-In x [] = ground arith
any-In x (y ∷ ys) = ground (arith, eq_iff y x, any-In x ys)

all_in-All :
    (requested usages : List String)
    → (all_in requested usages ≡ true) ↔ All (λ u. In u usages) requested
all_in-All [] usages = ground arith
all_in-All (u ∷ us) usages = ground (arith, any-In u usages, all_in-All us usages)

-- hasUsages holds of exactly the requests with at least two usages, each of which is one of those given.
pub has_usages-All :
    (requested usages : List String)
    → (has_usages requested usages ≡ true)
      ↔ ((2 ≤ length requested) × All (λ u. In u usages) requested)
unfolding has_usages
has_usages-All requested usages = ground (arith, all_in-All requested usages)

-- What a serving request has.
pub record IsServing (csr : SigningRequest) (parsed : CertificateRequest) : Type 0 where
  pub nodes_group : In node_group csr.groups
  pub authenticated : In system_prefix csr.groups
  pub organization : In node_group (elems parsed.organization)
  pub usages :
      (has_usages csr.usages kubelet_server_usages ≡ true)
      ⊎ (has_usages csr.usages kubelet_server_usages_no_rsa ≡ true)

validate_kubelet_serving_csr-IsServing :
    (csr : SigningRequest) (parsed : CertificateRequest)
    → validate_kubelet_serving_csr csr parsed ≡ ok tt
    → IsServing csr parsed
unfolding validate_kubelet_serving_csr
validate_kubelet_serving_csr-IsServing csr parsed e = record {
  nodes_group = (any-In node_group csr.groups).0 (ground arith);
  authenticated = (any-In system_prefix csr.groups).0 (ground arith);
  organization = (any-In node_group (elems parsed.organization)).0 (ground arith);
  usages = ground arith;
}

-- What a client request of a node to be has.
pub record IsClient (w : World) (csr : SigningRequest) (parsed : CertificateRequest) (name : String)
    : Type 0 where
  pub organization : parsed.organization ≡ items (node_group ∷ [])
  pub usages :
      (has_usages csr.usages kubelet_client_usages ≡ true)
      ⊎ (has_usages csr.usages kubelet_client_usages_no_rsa ≡ true)
  pub no_node : w.get_node name ≡ node_not_found

is_node_client_cert-IsClient :
    (w : World) (csr : SigningRequest) (parsed : CertificateRequest) (name : String)
    → is_node_client_cert csr parsed ≡ true
    → w.get_node name ≡ node_not_found
    → IsClient w csr parsed name
unfolding is_node_client_cert
is_node_client_cert-IsClient w csr parsed name e absent = record {
  organization =
      sym ((deep_equal_iff (items (node_group ∷ [])) parsed.organization).0 (ground arith));
  usages = ground arith;
  no_node = absent;
}

validate_kind-cases :
    (w : World) (csr : SigningRequest) (parsed : CertificateRequest) (name : String)
    → validate_kind w csr parsed name ≡ ok true
    → IsClient w csr parsed name ⊎ IsServing csr parsed
unfolding validate_kind
validate_kind-cases w csr parsed name e = elim (Bool-cases (is_node_client_cert csr parsed)) [
  | inl client ↦ inl (is_node_client_cert-IsClient w csr parsed name client (ground arith))
  | inr other ↦ inr (validate_kubelet_serving_csr-IsServing csr parsed (ground arith))
]

-- What is known of the request and the name in it.
pub record IsApprovable (w : World) (csr : SigningRequest) : Type 0 where
  pub parsed : CertificateRequest
  pub is_parsed : parse_csr w csr.request ≡ ok parsed
  pub name : String
  pub is_name : name ≡ trim_prefix parsed.common_name node_user_name_prefix
  pub is_given : name ≢ ""
  pub instances : List Info
  pub are_instances : w.get_instances ≡ some instances
  pub is_named : HasNamed w name instances
  pub kind : IsClient w csr parsed name ⊎ IsServing csr parsed

validate_csr_contents-IsApprovable :
    (w : World) (csr : SigningRequest) → validate_csr_contents w csr ≡ ok true → IsApprovable w csr
unfolding validate_csr_contents
validate_csr_contents-IsApprovable w csr e = elim (Result-cases (parse_csr w csr.request)) [
  | inr (x, failed) ↦ absurd (ground (arith, rw (failed, validate_csr_contents) at e))
  | inl (parsed, read) ↦
      let name = trim_prefix parsed.common_name node_user_name_prefix in
      let e1 = rw (read, validate_csr_contents) at e in
      let valid : validate_node_name w name ≡ ok true = ground (arith, e1) in
      let (instances, found, named) = validate_node_name-HasNamed w name valid in
      record {
        parsed = parsed;
        is_parsed = read;
        name = name;
        is_name = refl;
        is_given = λ blank. absurd (ground (arith, e1, (eq_iff name "").1 blank));
        instances = instances;
        are_instances = found;
        is_named = named;
        kind = validate_kind-cases w csr parsed name (ground (arith, e1));
      }
]

-- An approval is written only for a request with a name that is, or is a part of, the address, a name or
-- the host name of an instance of the ConfigMap; the request is one for the client certificate of a node
-- that does not exist yet, or has the groups, the organization and usages of a serving certificate.
pub approve-IsApprovable :
    (w : World) (updates : Bool) (csr : SigningRequest)
    → (approve w updates csr).0 ≡ true
    → IsApprovable w csr
unfolding approve
approve-IsApprovable w updates csr e = validate_csr_contents-IsApprovable w csr (ground arith)
