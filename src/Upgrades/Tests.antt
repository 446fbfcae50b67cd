-- ===== src/Upgrades/Tests.antt =====
-- Two Windows nodes, and the theorems at them.
use native.Mathlib.Nat.{le_refl}
use windows_machine_config_o.Common.{
  ◌≤◌, String, ◌≡◌, refl, true, false, some, List, [], ◌∷◌, lookup, insert, keep, length, any, All,
  ok, err, ◌==◌,
}
use windows_machine_config_o.Upgrades.{
  Node, os_label, version_annotation, max_parallel_upgrades, is_windows_node, is_upgrading,
  find_upgrading_nodes, apply_upgrading_label, mark_node_as_upgrading, maximum_reached,
}
use windows_machine_config_o.Upgrades.Limit.{start, step, join_step, mark_step, Reachable-length}

abbrev windows_node : String → Node
windows_node name = record {
  name = name;
  labels = (os_label, "windows") ∷ [];
  annotations = (version_annotation, "1") ∷ [];
}

abbrev two_nodes : List Node
two_nodes = windows_node "b" ∷ windows_node "a" ∷ []

idle : (name : String) → is_upgrading (windows_node name) ≡ false
unfolding lookup
idle name = refl

abbrev marked : List Node
marked = (mark_node_as_upgrading (some two_nodes) true "a" two_nodes).0

-- The second of two upgrades waits for the first.
second_refused : (mark_node_as_upgrading (some marked) true "b" marked).1 ≡ err maximum_reached
unfolding mark_node_as_upgrading find_upgrading_nodes apply_upgrading_label keep lookup insert
second_refused = refl

-- A list from before the first upgrade lets the second one go on as well.
stale_list :
    length (find_upgrading_nodes (mark_node_as_upgrading (some two_nodes) true "b" marked).0) ≡ 2
unfolding mark_node_as_upgrading find_upgrading_nodes apply_upgrading_label keep lookup insert
stale_list = refl

Reachable-length_example : length (find_upgrading_nodes marked) ≤ max_parallel_upgrades
Reachable-length_example = Reachable-length marked (
    step
      (step (step start (join_step (windows_node "a") (idle "a")))
        (join_step (windows_node "b") (idle "b")))
      (mark_step two_nodes true "a" (le_refl _)))

there : any (λ n. n.name == "a") two_nodes ≡ true
there = refl

windows : All (λ n. is_windows_node n ≡ true) two_nodes
unfolding lookup
windows = (refl, (refl, tt))

marked_ok : (mark_node_as_upgrading (some two_nodes) true "a" two_nodes).1 ≡ ok tt
unfolding mark_node_as_upgrading find_upgrading_nodes apply_upgrading_label keep lookup insert
marked_ok = refl
