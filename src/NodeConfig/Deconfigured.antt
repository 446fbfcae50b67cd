-- ===== src/NodeConfig/Deconfigured.antt =====
-- pkg/nodeconfig/nodeconfig.go: an instance that is deconfigured, and one whose configuration fails.
use windows_machine_config_o.Common.{
  String, ◌≡◌, refl, sym, ap, subst, ◌∙◌, inl, inr, Bool, true, Option, some, ok, err, Sorter,
  arith, Result-cases,
}
use windows_machine_config_o.Common.Actions.{Action, acts, bind-ok, bind-success}
use windows_machine_config_o.Cluster.{Cidr}
use windows_machine_config_o.Ignition.{newer, IgnitionConfig}
use windows_machine_config_o.Metadata.{Node}
use windows_machine_config_o.Metadata.Waiting.{
  NeedsNoReboot, wait_for_reboot_annotation_removal-NeedsNoReboot,
}
use windows_machine_config_o.NodeConfig.Files.{Encodings}
use windows_machine_config_o.NodeConfig.{
  World, NodeConfig, Error, configure_node, configure, cleaning_up, prepare_instance,
  cleanup_with_wicd, deconfigure_node, deconfigure, cordon_error, drain_error, removal_error,
  bootstrap_error,
}
use windows_machine_config_o.NodeConfig.Configured.{
  on_nodes-ok, on_nodes-state, acts-ok, acts-state,
}

module _ (w : World) (enc : Encodings) (cidr : Cidr) (latest_first : Sorter newer)
    (parse_raw : String → Option IgnitionConfig) (nc : NodeConfig) where
  open w use {nodes, cordon, drain, bootstrap, run_wicd_cleanup, remove_files_and_networks}

  acts_after :
      (e : Error) (f : nodes.State → nodes.State × Bool) (s : nodes.State)
      → (acts e f s).0 ≡ (f s).0
  unfolding acts
  acts_after e f s = refl

  acts-success :
      (e : Error) (f : nodes.State → nodes.State × Bool) (s : nodes.State)
      → (f s).1 ≡ true
      → (acts e f s).1 ≡ ok tt
  unfolding acts
  acts-success e f s h = rw (h, acts) refl

  cleaning_up-err :
      (kubeconfig : String) (m : Action nodes.State Error (Unit {0})) (s : nodes.State) (e : Error)
      → (cleaning_up w enc cidr latest_first parse_raw nc kubeconfig m s).1 ≡ err e
      → ((m s).1 ≡ err e)
        × ((cleaning_up w enc cidr latest_first parse_raw nc kubeconfig m s).0
            ≡ (run_wicd_cleanup kubeconfig (m s).0).0)
  unfolding cleaning_up
  cleaning_up-err kubeconfig m s e h = elim (Result-cases (m s).1) [
    | inl (a, done) ↦ absurd (ground (arith, rw (done, cleaning_up) at h))
    | inr (x, failed) ↦
        let same : x ≡ e = ground (arith, rw (failed, cleaning_up) at h) in
        (failed ∙ ap err same, rw (failed, cleaning_up) refl)
  ]

  -- If Configure reports an error although the instance was prepared and bootstrapped, then the cleanup by WICD,
  -- which stops the kubelet, is the last that it does, and the error is the one of the configuration of the node.
  pub configure-run_wicd_cleanup :
      (version kubeconfig : String) (s : nodes.State) (e : Error)
      → (prepare_instance w enc cidr latest_first parse_raw nc s).1 ≡ ok kubeconfig
      → (bootstrap version kubeconfig (prepare_instance w enc cidr latest_first parse_raw nc s).0).1
        ≡ true
      → (configure w enc cidr latest_first parse_raw nc version s).1 ≡ err e
      → (t : nodes.State) × ((configure_node w enc cidr latest_first parse_raw nc version kubeconfig
            t).1
          ≡ err e)
        × ((configure w enc cidr latest_first parse_raw nc version s).0
            ≡ (run_wicd_cleanup kubeconfig
                (configure_node w enc cidr latest_first parse_raw nc version kubeconfig t).0).0)
  unfolding configure
  configure-run_wicd_cleanup version kubeconfig s e prepared started failed =
      let prepare = prepare_instance w enc cidr latest_first parse_raw nc in
      let boot = acts bootstrap_error (bootstrap version kubeconfig) in
      let rest =
        cleaning_up w enc cidr latest_first parse_raw nc kubeconfig
          (configure_node w enc cidr latest_first parse_raw nc version kubeconfig) in
      let same : configure w enc cidr latest_first parse_raw nc version s
          ≡ rest (boot (prepare s).0).0 =
        bind-success prepare _ s kubeconfig prepared
        ∙ bind-success boot (λ _. rest) (prepare s).0 tt
            (acts-success bootstrap_error (bootstrap version kubeconfig) (prepare s).0 started) in
      let (inner, cleaned) =
        cleaning_up-err kubeconfig
          (configure_node w enc cidr latest_first parse_raw nc version kubeconfig)
          (boot (prepare s).0).0 e (sym (ap (λ r. r.1) same) ∙ failed) in
      ((boot (prepare s).0).0, inner, ap (λ r. r.0) same ∙ cleaned)

  module _ (node : Node) where
    cleanup_with_wicd-NeedsNoReboot :
        (s : nodes.State)
        → (cleanup_with_wicd w enc cidr latest_first parse_raw nc node s).1 ≡ ok tt
        → NeedsNoReboot nodes node.name
            (cleanup_with_wicd w enc cidr latest_first parse_raw nc node s).0
    unfolding cleanup_with_wicd
    cleanup_with_wicd-NeedsNoReboot s e =
        let (kubeconfig, _, r0, s0) = bind-ok _ _ s tt e in
        let (_, cleaned, r1, s1) = bind-ok _ _ _ tt r0 in
        subst (NeedsNoReboot nodes node.name) (sym (s0 ∙ s1)) (
          on_nodes-state w (NeedsNoReboot nodes node.name) _ _ (
            wait_for_reboot_annotation_removal-NeedsNoReboot nodes node.name _
              (on_nodes-ok w _ _ tt r1)))

    deconfigure_node-NeedsNoReboot :
        (s : nodes.State)
        → ((t : nodes.State)
            → NeedsNoReboot nodes node.name t
            → NeedsNoReboot nodes node.name (remove_files_and_networks t).0)
        → (deconfigure_node w enc cidr latest_first parse_raw nc node s).1 ≡ ok tt
        → ((cordon true node s).1 ≡ true)
          × ((drain node.name (cordon true node s).0).1 ≡ true)
          × NeedsNoReboot nodes node.name
              (deconfigure_node w enc cidr latest_first parse_raw nc node s).0
    unfolding deconfigure_node
    deconfigure_node-NeedsNoReboot s keeps e =
        let (_, cordoned, r0, s0) = bind-ok _ _ s tt e in
        let (_, drained, r1, s1) = bind-ok _ _ _ tt r0 in
        let (_, cleaned, r2, s2) = bind-ok _ _ _ tt r1 in
        (
          acts-ok w cordon_error (cordon true node) s cordoned,
          subst (λ t. (drain node.name t).1 ≡ true) (acts_after cordon_error (cordon true node) s)
              (acts-ok w drain_error (drain node.name) _ drained),
          subst (NeedsNoReboot nodes node.name) (sym (s0 ∙ s1 ∙ s2)) (
              acts-state w (NeedsNoReboot nodes node.name) removal_error remove_files_and_networks _
                (keeps _ (cleanup_with_wicd-NeedsNoReboot _ cleaned))),
        )

    -- If Deconfigure reports no error, the node was cordoned and drained before anything else, and it does not
    -- need a reboot any more, if the removal of files and networks leaves the node as it is.
    pub deconfigure-NeedsNoReboot :
        (s : nodes.State)
        → nc.node ≡ some node
        → ((t : nodes.State)
            → NeedsNoReboot nodes node.name t
            → NeedsNoReboot nodes node.name (remove_files_and_networks t).0)
        → (deconfigure w enc cidr latest_first parse_raw nc s).1 ≡ ok tt
        → ((cordon true node s).1 ≡ true)
          × ((drain node.name (cordon true node s).0).1 ≡ true)
          × NeedsNoReboot nodes node.name (deconfigure w enc cidr latest_first parse_raw nc s).0
    unfolding deconfigure
    deconfigure-NeedsNoReboot s known keeps e =
        let (cordoned, drained, clean) =
          deconfigure_node-NeedsNoReboot s keeps (rw (known, deconfigure) at e) in
        (cordoned, drained, rw (known, deconfigure) clean)
