-- ===== src/NodeConfig/Tests.antt =====
-- The theorems at the small cluster.
use windows_machine_config_o.Common.{
  ◌≡◌, refl, ap, true, false, none, some, lookup, insert, delete, ok, err, insertion_sorter,
  insertion_sort, place,
}
use windows_machine_config_o.Common.Actions.{pure, fail, reads, acts, each, skip_if, ◌>>=◌}
use windows_machine_config_o.Metadata.{Node, poll, apply_patch, remove_label}
use windows_machine_config_o.Metadata.Waiting.{IsAt, NeedsNoReboot}
use windows_machine_config_o.NodeConfig.{
  wicd_error, configure, configure_node, prepare_instance, deconfigure, on_nodes, best_effort,
  of_file, cleaning_up,
}
use windows_machine_config_o.NodeConfig.Configured.{IsKnown, configure-IsAt}
use windows_machine_config_o.NodeConfig.Deconfigured.{
  deconfigure-NeedsNoReboot, configure-run_wicd_cleanup,
}
use windows_machine_config_o.NodeConfig.Simulation.{
  one_node, world, encodings, cidr, latest_first, parse_raw, winworker, nc, version, world-NodeLaws,
}

configures :
    (configure (world true) encodings cidr latest_first parse_raw (nc none) version winworker).1
    ≡ ok tt
unfolding configure prepare_instance configure_node cleaning_up apply_patch remove_label on_nodes
    best_effort of_file poll pure fail reads acts each skip_if ◌>>=◌ insertion_sorter insertion_sort
    place lookup insert delete
configures = refl

configure-IsAt_example :
    (node : Node) × IsKnown (world true) none "10.0.0.7" node
    × IsAt one_node version node.name
        (configure (world true) encodings cidr latest_first parse_raw (nc none) version winworker).0
configure-IsAt_example =
    configure-IsAt (world true) version world-NodeLaws encodings cidr latest_first parse_raw
      (nc none) winworker configures

still_ready :
    (t : Node) → NeedsNoReboot one_node "winworker" t → NeedsNoReboot one_node "winworker" t
still_ready t h = h

deconfigures :
    (deconfigure
      (world true)
      encodings
      cidr
      latest_first
      parse_raw
      (nc (some winworker))
      winworker).1
    ≡ ok tt
unfolding deconfigure on_nodes of_file poll pure fail reads acts each skip_if ◌>>=◌ lookup insert
    delete
deconfigures = refl

deconfigure-NeedsNoReboot_example :
    (((world true).cordon true winworker winworker).1 ≡ true)
    × (((world true).drain "winworker" winworker).1 ≡ true)
    × NeedsNoReboot one_node "winworker"
        (deconfigure
          (world true)
          encodings
          cidr
          latest_first
          parse_raw
          (nc (some winworker))
          winworker).0
deconfigure-NeedsNoReboot_example =
    deconfigure-NeedsNoReboot (world true) encodings cidr latest_first parse_raw
      (nc (some winworker)) winworker winworker refl still_ready deconfigures

prepared :
    (prepare_instance (world false) encodings cidr latest_first parse_raw (nc none) winworker)
    ≡ (winworker, ok "wicd")
unfolding prepare_instance on_nodes best_effort of_file pure fail reads acts each skip_if ◌>>=◌
    insertion_sorter insertion_sort place lookup insert delete
prepared = refl

fails :
    (configure (world false) encodings cidr latest_first parse_raw (nc none) version winworker).1
    ≡ err wicd_error
unfolding configure prepare_instance configure_node cleaning_up apply_patch remove_label on_nodes
    best_effort of_file poll pure fail reads acts each skip_if ◌>>=◌ insertion_sorter insertion_sort
    place lookup insert delete
fails = refl

configure-run_wicd_cleanup_example :
    (t : Node) × ((configure_node
        (world false)
        encodings
        cidr
        latest_first
        parse_raw
        (nc none)
        version
        "wicd"
        t).1
      ≡ err wicd_error)
    × ((configure (world false) encodings cidr latest_first parse_raw (nc none) version winworker).0
        ≡ ((world false).run_wicd_cleanup "wicd"
            (configure_node
              (world false)
              encodings
              cidr
              latest_first
              parse_raw
              (nc none)
              version
              "wicd"
              t).0).0)
configure-run_wicd_cleanup_example =
    configure-run_wicd_cleanup (world false) encodings cidr latest_first parse_raw (nc none) version
      "wicd" winworker wicd_error (ap (λ r. r.1) prepared) refl fails
