-- ===== src/Csr/Named.antt =====
-- pkg/csr/csr.go: the instance that a node name is matched with.
use windows_machine_config_o.Common.{
  String, ◌≡◌, refl, inl, inr, true, false, some, List, [], ◌∷◌, In, ok, any, arith, Bool-cases,
  Option-cases,
}
use windows_machine_config_o.Daemon.Cleanup.{contains_text}
use windows_machine_config_o.Instances.{Info}
use windows_machine_config_o.Csr.{
  World, matches_hostname, matches_dns, validate_with_host_name, validate_node_name,
}

-- In which ways a name is that of an instance: a part of its address, of a name that its address looks up
-- to, or of the host name that it answers itself.
pub data Names (w : World) (instance : Info) (name : String) : Type 0 where
  by_address :
      w.is_ip instance.address ≡ false
      → contains_text instance.address name ≡ true
      → Names w instance name
  by_lookup :
      w.is_ip instance.address ≡ true
      → (dns : List String) → w.lookup_addr instance.address ≡ some dns
      → any (λ d. contains_text d name) dns ≡ true
      → Names w instance name
  by_host_name :
      (host : String)
      → w.find_host_name instance ≡ some host
      → contains_text host name ≡ true
      → Names w instance name

abbrev pub HasNamed : World → String → List Info → Type 0
HasNamed w name instances = (instance : Info) × In instance instances × Names w instance name

abbrev later :
    (w : World) (name : String) (i : Info) (is : List Info)
    → HasNamed w name is
    → HasNamed w name (i ∷ is)
later w name i is (found, listed, names) = (found, inr listed, names)

matches_dns-HasNamed :
    (w : World) (name : String) (instances : List Info)
    → matches_dns w name instances ≡ some true
    → HasNamed w name instances
unfolding matches_dns
matches_dns-HasNamed w name [] e = absurd (ground arith)
matches_dns-HasNamed w name (i ∷ is) e = elim (Bool-cases (w.is_ip i.address)) [
  | inl ip ↦ elim (Option-cases (w.lookup_addr i.address)) [
    | inl failed ↦ absurd (ground (arith, rw (ip, failed, matches_dns) at e))
    | inr (dns, found) ↦ elim (Bool-cases (any (λ d. contains_text d name) dns)) [
      | inl here ↦ (i, inl refl, Names.by_lookup ip dns found here)
      | inr not_here ↦
          later w name i is
            (matches_dns-HasNamed w name is (rw (ip, found, not_here, matches_dns) at e))
    ]
  ]
  | inr text ↦ elim (Bool-cases (contains_text i.address name)) [
    | inl here ↦ (i, inl refl, Names.by_address text here)
    | inr not_here ↦
        later w name i is (matches_dns-HasNamed w name is (rw (text, not_here, matches_dns) at e))
  ]
]

matches_hostname-HasNamed :
    (w : World) (name : String) (instances : List Info)
    → matches_hostname w name instances ≡ ok true
    → HasNamed w name instances
unfolding matches_hostname
matches_hostname-HasNamed w name [] e = absurd (ground arith)
matches_hostname-HasNamed w name (i ∷ is) e = elim (Option-cases (w.find_host_name i)) [
  | inl failed ↦ absurd (ground (arith, rw (failed, matches_hostname) at e))
  | inr (host, found) ↦ elim (Bool-cases (contains_text host name)) [
    | inl here ↦ (i, inl refl, Names.by_host_name host found here)
    | inr not_here ↦
        later w name i is
          (matches_hostname-HasNamed w name is (rw (found, not_here, matches_hostname) at e))
  ]
]

validate_with_host_name-HasNamed :
    (w : World) (name : String) (instances : List Info)
    → validate_with_host_name w name instances ≡ ok true
    → HasNamed w name instances
unfolding validate_with_host_name
validate_with_host_name-HasNamed w name instances e =
    matches_hostname-HasNamed w name instances (ground arith)

-- The name is that of an instance of the ConfigMap.
pub validate_node_name-HasNamed :
    (w : World) (name : String)
    → validate_node_name w name ≡ ok true
    → (instances : List Info) × (w.get_instances ≡ some instances) × HasNamed w name instances
unfolding validate_node_name
validate_node_name-HasNamed w name e = elim (Option-cases w.get_instances) [
  | inl failed ↦ absurd (ground (arith, rw (failed, validate_node_name) at e))
  | inr (instances, found) ↦
      let named : HasNamed w name instances = elim (Option-cases (matches_dns w name instances)) [
        | inl failed ↦
            validate_with_host_name-HasNamed w name instances
              (rw (found, validate_node_name, failed) at e)
        | inr (true, dns) ↦ matches_dns-HasNamed w name instances dns
        | inr (false, dns) ↦
            validate_with_host_name-HasNamed w name instances
              (rw (found, validate_node_name, dns) at e)
      ] in
      (instances, found, named)
]
