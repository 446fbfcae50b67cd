-- ===== src/NodeConfig/Configured.antt =====
-- pkg/nodeconfig/nodeconfig.go: what holds of the node behind Configure and Deconfigure.
use windows_machine_config_o.Common.{
  ℕ, zero, suc, String, ◌≡◌, refl, sym, ap, subst, ◌∙◌, inl, inr, Bool, true, false, Option, none,
  some, List, [], ◌∷◌, ok, any, has_key, ◌==◌, Sorter, arith, Bool-cases, Option-cases,
  Result-cases,
}
use windows_machine_config_o.Common.Actions.{Action, acts, skip_if, pure, bind-ok}
use windows_machine_config_o.Cluster.{Cidr}
use windows_machine_config_o.Ignition.{newer, IgnitionConfig}
use windows_machine_config_o.Metadata.{
  Node, JsonPatch, Error as MetadataError, desired_version_annotation, upgrading_label,
  apply_labels_and_annotations, apply_desired_version_annotation, remove_upgrading_label,
  remove_label, apply_patch,
}
use windows_machine_config_o.Metadata.Waiting.{
  HasAnnotation, IsAt, wait_for_version_annotation-IsAt,
}
use windows_machine_config_o.NodeConfig.Files.{Encodings}
use windows_machine_config_o.NodeConfig.{
  World, NodeConfig, Error, listed, known_node, find_node, node_polls, on_nodes, set_node,
  finish_node, configure_node, configure, cleaning_up, cordon_error,
}

-- The patch that adds the desired version to a node.
abbrev pub desired_version_patch : String → JsonPatch
desired_version_patch version = record {
  op = "add";
  path = "/metadata/annotations/windowsmachineconfig.openshift.io~1desired-version";
  value = version;
}

abbrev pub no_longer_upgrading : JsonPatch
no_longer_upgrading = record {
  op = "remove";
  path = "/metadata/labels/windowsmachineconfig.openshift.io~1upgrading";
  value = "";
}

module _ (w : World) where
  open w use {nodes, cordon, remove_files_and_networks}

  -- How the nodes change in the calls of Configure behind the desired version.
  pub record NodeLaws (version : String) : Type 0 where
    -- A patch that is applied has its effect.
    pub annotates :
        (name : String) (s : nodes.State)
        → (nodes.patch name (desired_version_patch version ∷ []) s).1 ≡ true
        → HasAnnotation nodes desired_version_annotation version name
            (nodes.patch name (desired_version_patch version ∷ []) s).0
    -- Others leave the desired version of a node as it is.
    pub desired_stays :
        (name : String) (s : nodes.State)
        → HasAnnotation nodes desired_version_annotation version name s
        → HasAnnotation nodes desired_version_annotation version name (nodes.sleep s)
    -- A node that was configured stays it while others act, and when it or its labels are changed.
    pub version_stays :
        (name : String) (s : nodes.State)
        → IsAt nodes version name s
        → IsAt nodes version name (nodes.sleep s)
    pub version_cordon :
        (name : String) (node : Node) (s : nodes.State)
        → IsAt nodes version name s
        → IsAt nodes version name (cordon false node s).0
    pub version_labels :
        (name : String) (node : Node) (s : nodes.State)
        → IsAt nodes version name s
        → IsAt nodes version name (nodes.patch node.name (no_longer_upgrading ∷ []) s).0

  pub on_nodes-ok :
      {A : Type 0} (m : Action nodes.State MetadataError A) (s : nodes.State) (a : A)
      → (on_nodes w m s).1 ≡ ok a
      → (m s).1 ≡ ok a
  unfolding on_nodes
  on_nodes-ok m s a e = elim (Result-cases (m s).1) [
    | inl (b, h) ↦ let same : b ≡ a = ground (arith, rw (h, on_nodes) at e) in h ∙ ap ok same
    | inr (x, h) ↦ absurd (ground (arith, rw (h, on_nodes) at e))
  ]

  -- The state behind a call of the client, and behind one that acts.
  pub on_nodes-state :
      {A : Type 0} (P : nodes.State → Type 0) (m : Action nodes.State MetadataError A)
      (s : nodes.State)
      → P (m s).0
      → P (on_nodes w m s).0
  unfolding on_nodes
  on_nodes-state P m s p = p

  pub acts-state :
      (P : nodes.State → Type 0) (e : Error) (f : nodes.State → nodes.State × Bool)
      (s : nodes.State)
      → P (f s).0
      → P (acts e f s).0
  unfolding acts
  acts-state P e f s p = p

  pub acts-ok :
      (e : Error) (f : nodes.State → nodes.State × Bool) (s : nodes.State)
      → (acts e f s).1 ≡ ok tt
      → (f s).1 ≡ true
  unfolding acts
  acts-ok e f s h = elim (Bool-cases (f s).1) [
    | inl done ↦ done
    | inr failed ↦ absurd (ground (arith, rw (failed, acts) at h))
  ]

  -- The node that nodeConfig was made with, or one with the address.
  unfoldable pub IsKnown : Option Node → String → Node → Type 0
  IsKnown none address node = any (λ a. address == a) node.addresses ≡ true
  IsKnown (some known) address node = node ≡ known

  find_node-IsKnown :
      (address : String) (ns : List Node) (node : Node)
      → find_node address ns ≡ some node
      → any (λ a. address == a) node.addresses ≡ true
  unfolding find_node
  find_node-IsKnown address [] node e = absurd (ground (arith, e))
  find_node-IsKnown address (n ∷ ns) node e =
      elim (Bool-cases (any (λ a. address == a) n.addresses)) [
        | inl h ↦
            let same : n ≡ node = ground (arith, rw (h, find_node) at e) in
            subst (λ m. any (λ a. address == a) m.addresses ≡ true) same h
        | inr h ↦ find_node-IsKnown address ns node (rw (h, find_node) at e)
      ]

  listed-IsKnown :
      (address : String) (s : nodes.State) (node : Node)
      → listed w address s ≡ some node
      → any (λ a. address == a) node.addresses ≡ true
  listed-IsKnown address s node e = elim (Option-cases (w.list s)) [
    | inl h ↦ absurd (ground (arith, rw (h, listed) at e))
    | inr (ns, h) ↦ find_node-IsKnown address ns node (rw (h, listed) at e)
  ]

  set_node-IsKnown :
      (address : String) (n : ℕ) (s : nodes.State) (node : Node)
      → (set_node w address n s).1 ≡ ok node
      → any (λ a. address == a) node.addresses ≡ true
  unfolding set_node
  set_node-IsKnown address zero s node e = elim (Option-cases (listed w address s)) [
    | inl h ↦ absurd (ground (arith, rw (h, set_node) at e))
    | inr (m, h) ↦
        let same : m ≡ node = ground (arith, rw (h, set_node) at e) in
        listed-IsKnown address s node (h ∙ ap some same)
  ]
  set_node-IsKnown address (suc n) s node e = elim (Option-cases (listed w address s)) [
    | inl h ↦ set_node-IsKnown address n (nodes.sleep s) node (rw (h, set_node) at e)
    | inr (m, h) ↦
        let same : m ≡ node = ground (arith, rw (h, set_node) at e) in
        listed-IsKnown address s node (h ∙ ap some same)
  ]

  module _ (enc : Encodings) (cidr : Cidr) (latest_first : Sorter newer)
      (parse_raw : String → Option IgnitionConfig) (nc : NodeConfig) where
    known_node-IsKnown :
        (known : Option Node) (s : nodes.State) (node : Node)
        → (known_node w enc cidr latest_first parse_raw nc known s).1 ≡ ok node
        → IsKnown known nc.address node
    unfolding IsKnown pure
    known_node-IsKnown none s node e = set_node-IsKnown nc.address node_polls s node e
    known_node-IsKnown (some known) s node e = sym (ground (arith, e))

    cleaning_up-ok :
        (kubeconfig : String) (m : Action nodes.State Error (Unit {0})) (s : nodes.State)
        → (cleaning_up w enc cidr latest_first parse_raw nc kubeconfig m s).1 ≡ ok tt
        → ((m s).1 ≡ ok tt)
          × ((cleaning_up w enc cidr latest_first parse_raw nc kubeconfig m s).0 ≡ (m s).0)
    unfolding cleaning_up
    cleaning_up-ok kubeconfig m s e = elim (Result-cases (m s).1) [
      | inl (tt, h) ↦ (h, rw (h, cleaning_up) refl)
      | inr (x, h) ↦ absurd (ground (arith, rw (h, cleaning_up) at e))
    ]

  module _ (version : String) (laws : NodeLaws version) where
    set_node-IsAt :
        (address name : String) (n : ℕ) (s : nodes.State)
        → IsAt nodes version name s
        → IsAt nodes version name (set_node w address n s).0
    unfolding set_node
    set_node-IsAt address name zero s at = elim (Option-cases (listed w address s)) [
      | inl h ↦ rw (h, set_node) at
      | inr (node, h) ↦ rw (h, set_node) at
    ]
    set_node-IsAt address name (suc n) s at = elim (Option-cases (listed w address s)) [
      | inl h ↦
          rw (h, set_node)
            (set_node-IsAt address name n (nodes.sleep s) (laws.version_stays name s at))
      | inr (node, h) ↦ rw (h, set_node) at
    ]

    remove_upgrading_label-IsAt :
        (name : String) (node : Node) (s : nodes.State)
        → IsAt nodes version name s
        → IsAt nodes version name (remove_upgrading_label nodes node s).0
    unfolding remove_label skip_if acts apply_patch pure
    remove_upgrading_label-IsAt name node s at =
        elim (Bool-cases (has_key upgrading_label node.labels)) [
          | inl labelled ↦ rw (labelled, remove_label) (laws.version_labels name node s at)
          | inr other ↦ rw (other, remove_label) at
        ]

    finish_node-IsAt :
        (nc : NodeConfig) (enc : Encodings) (cidr : Cidr) (latest_first : Sorter newer)
        (parse_raw : String → Option IgnitionConfig) (node : Node) (s : nodes.State)
        → HasAnnotation nodes desired_version_annotation version node.name s
        → (finish_node w enc cidr latest_first parse_raw nc node s).1 ≡ ok tt
        → IsAt nodes version node.name (finish_node w enc cidr latest_first parse_raw nc node s).0
    unfolding finish_node
    finish_node-IsAt nc enc cidr latest_first parse_raw node s desired e =
        let (_, waited, e1, s1) = bind-ok _ _ s tt e in
        let (configured, _, e2, s2) = bind-ok _ _ _ tt e1 in
        let (_, uncordoned, e3, s3) = bind-ok _ _ _ tt e2 in
        let at =
          wait_for_version_annotation-IsAt nodes version node.name (laws.desired_stays node.name) s
            desired (on_nodes-ok _ s tt waited) in
        subst (IsAt nodes version node.name) (sym (s1 ∙ s2 ∙ s3)) (
          on_nodes-state (IsAt nodes version node.name) _ _ (
            remove_upgrading_label-IsAt node.name configured _ (
              acts-state (IsAt nodes version node.name) cordon_error _ _ (
                laws.version_cordon node.name configured _ (
                  set_node-IsAt nc.address node.name node_polls _
                    (on_nodes-state (IsAt nodes version node.name) _ s at))))))

    apply_desired_version_annotation-HasAnnotation :
        (node : Node) (s : nodes.State)
        → (apply_desired_version_annotation nodes node version s).1 ≡ ok tt
        → HasAnnotation nodes desired_version_annotation version node.name
            (apply_desired_version_annotation nodes node version s).0
    unfolding apply_labels_and_annotations apply_patch acts
    apply_desired_version_annotation-HasAnnotation node s e =
        elim (Bool-cases (nodes.patch node.name (desired_version_patch version ∷ []) s).1) [
          | inl done ↦ laws.annotates node.name s done
          | inr failed ↦ absurd (ground (arith, rw (failed) at e))
        ]

    module _ (enc : Encodings) (cidr : Cidr) (latest_first : Sorter newer)
        (parse_raw : String → Option IgnitionConfig) (nc : NodeConfig) where
      configure_node-IsAt :
          (kubeconfig : String) (s : nodes.State)
          → (configure_node w enc cidr latest_first parse_raw nc version kubeconfig s).1 ≡ ok tt
          → (node : Node) × IsKnown nc.node nc.address node
            × IsAt nodes version node.name
                (configure_node w enc cidr latest_first parse_raw nc version kubeconfig s).0
      unfolding configure_node
      configure_node-IsAt kubeconfig s e =
          let (node, e0, r0, s0) = bind-ok _ _ s tt e in
          let (_, _, r1, s1) = bind-ok _ _ _ tt r0 in
          let (_, _, r2, s2) = bind-ok _ _ _ tt r1 in
          let (_, _, r3, s3) = bind-ok _ _ _ tt r2 in
          let (_, annotated, r4, s4) = bind-ok _ _ _ tt r3 in
          let desired =
            on_nodes-state (HasAnnotation nodes desired_version_annotation version node.name) _ _ (
              apply_desired_version_annotation-HasAnnotation node _
                (on_nodes-ok _ _ tt annotated)) in
          (
            node,
            known_node-IsKnown enc cidr latest_first parse_raw nc nc.node s node e0,
            subst (IsAt nodes version node.name) (sym (s0 ∙ s1 ∙ s2 ∙ s3 ∙ s4))
                (finish_node-IsAt nc enc cidr latest_first parse_raw node _ desired r4),
          )

      -- If Configure reports no error, then a node is at the version: the node that it was made with, or one
      -- with the address of the instance where there was none. Patches have their effect, and others leave the
      -- desired version and the version of a node that has it.
      pub configure-IsAt :
          (s : nodes.State)
          → (configure w enc cidr latest_first parse_raw nc version s).1 ≡ ok tt
          → (node : Node) × IsKnown nc.node nc.address node
            × IsAt nodes version node.name
                (configure w enc cidr latest_first parse_raw nc version s).0
      unfolding configure
      configure-IsAt s e =
          let (kubeconfig, _, r0, s0) = bind-ok _ _ s tt e in
          let (_, _, r1, s1) = bind-ok _ _ _ tt r0 in
          let (configured, same) =
            cleaning_up-ok enc cidr latest_first parse_raw nc kubeconfig _ _ r1 in
          let (node, known, at) = configure_node-IsAt kubeconfig _ configured in
          (node, known, subst (IsAt nodes version node.name) (sym (s0 ∙ s1 ∙ same)) at)
