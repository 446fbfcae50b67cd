-- ===== src/Upgrades/Limit.antt =====
-- The number of nodes that controllers/controllers.go has upgrading at once.
use windows_machine_config_o.Common.{
  ℕ, suc, ◌≤◌, String, ◌≡◌, refl, inl, inr, Bool, true, false, none, some, List, [], ◌∷◌, insert,
  delete, keep, length, any, ok, ◌==◌, eq_iff, if◌then◌else◌, arith, Bool-cases, lookup-delete,
  lookup-insert, All,
}
use windows_machine_config_o.Upgrades.{
  Node, os_label, upgrading_label, max_parallel_upgrades, is_windows_node, is_upgrading,
  find_upgrading_nodes, apply_upgrading_label, remove_upgrading_label, mark_node_as_upgrading,
}

abbrev upgrading : List Node → ℕ
upgrading nodes = length (find_upgrading_nodes nodes)

upgrading_cons :
    (n : Node) (ns : List Node)
    → upgrading (n ∷ ns) ≡ (if is_upgrading n then suc (upgrading ns) else upgrading ns)
unfolding find_upgrading_nodes keep
upgrading_cons n ns = elim (Bool-cases (is_upgrading n)) [ inl e ↦ rw e refl | inr e ↦ rw e refl ]

applied_more :
    (name : String) (ns : List Node)
    → upgrading (apply_upgrading_label name ns) ≤ suc (upgrading ns)
unfolding apply_upgrading_label
applied_more name [] = omega arith
applied_more name (n ∷ ns) = elim (Bool-cases (n.name == name)) [
  | inl same ↦
      let n' : Node = record n { labels = insert upgrading_label "true" n.labels } in
      rw same (ground (arith, upgrading_cons n ns, upgrading_cons n' ns))
  | inr other ↦ rw other (
      ground (
        arith,
        upgrading_cons n ns,
        upgrading_cons n (apply_upgrading_label name ns),
        applied_more name ns,
      ))
]

removed_fewer :
    (name : String) (ns : List Node) → upgrading (remove_upgrading_label name ns) ≤ upgrading ns
unfolding remove_upgrading_label
removed_fewer name [] = omega arith
removed_fewer name (n ∷ ns) = elim (Bool-cases (n.name == name)) [
  | inl same ↦
      let n' : Node = record n { labels = delete upgrading_label n.labels } in
      let os = lookup-delete upgrading_label os_label n.labels in
      let gone = lookup-delete upgrading_label upgrading_label n.labels in
      rw same (
        ground (
          arith,
          upgrading_cons n ns,
          upgrading_cons n' ns,
          os,
          gone,
          eq_iff upgrading_label upgrading_label,
        ))
  | inr other ↦ rw other (
      ground (
        arith,
        upgrading_cons n ns,
        upgrading_cons n (remove_upgrading_label name ns),
        removed_fewer name ns,
      ))
]

-- The nodes once those of a name are gone.
unfoldable pub without : String → List Node → List Node
without name [] = []
without name (n ∷ ns) = let rest = without name ns in if n.name == name then rest else n ∷ rest

without_fewer : (name : String) (ns : List Node) → upgrading (without name ns) ≤ upgrading ns
unfolding without
without_fewer name [] = omega arith
without_fewer name (n ∷ ns) = elim (Bool-cases (n.name == name)) [
  | inl same ↦ rw same (ground (arith, upgrading_cons n ns, without_fewer name ns))
  | inr other ↦ rw other (
      ground
        (arith, upgrading_cons n ns, upgrading_cons n (without name ns), without_fewer name ns))
]

marked_bounded :
    (listed : List Node) (patches : Bool) (name : String) (ns : List Node)
    → upgrading ns ≤ upgrading listed
    → upgrading ns ≤ max_parallel_upgrades
    → upgrading (mark_node_as_upgrading (some listed) patches name ns).0 ≤ max_parallel_upgrades
unfolding mark_node_as_upgrading
marked_bounded listed patches name ns seen h = ground (arith, seen, h, applied_more name ns)

applied_any :
    (name : String) (ns : List Node)
    → any (λ n. n.name == name) ns ≡ true
    → All (λ n. is_windows_node n ≡ true) ns
    → any (λ n. n.name == name) (find_upgrading_nodes (apply_upgrading_label name ns)) ≡ true
unfolding apply_upgrading_label find_upgrading_nodes keep
applied_any name [] there windows = absurd (ground arith)
applied_any name (n ∷ ns) there windows = elim (Bool-cases (n.name == name)) [
  | inl same ↦
      let os = lookup-insert upgrading_label os_label "true" n.labels in
      let put = lookup-insert upgrading_label upgrading_label "true" n.labels in
      rw same (
        ground (
          arith,
          os,
          put,
          windows.0,
          same,
          eq_iff upgrading_label upgrading_label,
          eq_iff upgrading_label os_label,
        ))
  | inr other ↦
      let rest = applied_any name ns (ground arith) windows.1 in
      rw other (ground (arith, rest, other))
]

-- What happens to the nodes: one is marked, by a list of no fewer upgrading nodes than there are, whatever
-- calls fail; an upgrade ends; a node joins that is not upgrading; and one leaves.
pub data Step : List Node → List Node → Type 0 where
  mark_step :
      (listed : List Node) (patches : Bool) (name : String) {ns : List Node}
      → length (find_upgrading_nodes ns) ≤ length (find_upgrading_nodes listed)
      → Step ns (mark_node_as_upgrading (some listed) patches name ns).0
  unlisted_step :
      (patches : Bool) (name : String) {ns : List Node}
      → Step ns (mark_node_as_upgrading none patches name ns).0
  clear_step : (name : String) {ns : List Node} → Step ns (remove_upgrading_label name ns)
  join_step : (n : Node) {ns : List Node} → is_upgrading n ≡ false → Step ns (n ∷ ns)
  leave_step : (name : String) {ns : List Node} → Step ns (without name ns)

pub data Reachable : List Node → Type 0 where
  start : Reachable []
  step : {ns ms : List Node} → Reachable ns → Step ns ms → Reachable ms

Step-bounded :
    {ns ms : List Node}
    → Step ns ms
    → upgrading ns ≤ max_parallel_upgrades
    → upgrading ms ≤ max_parallel_upgrades
unfolding mark_node_as_upgrading
Step-bounded (mark_step listed patches name {ns} seen) h =
    marked_bounded listed patches name ns seen h
Step-bounded (unlisted_step patches name {ns}) h = h
Step-bounded (clear_step name {ns}) h = omega (arith, removed_fewer name ns)
Step-bounded (join_step n {ns} idle) h = ground (arith, upgrading_cons n ns)
Step-bounded (leave_step name {ns}) h = omega (arith, without_fewer name ns)

-- No more nodes are upgrading than MaxParallelUpgrades, however nodes join that are not upgrading, are marked,
-- end their upgrades and leave, and whatever calls fail, if each list that markNodeAsUpgrading gets from the
-- cache of the client has no fewer upgrading nodes than the cluster has then.
pub Reachable-length :
    (ns : List Node) → Reachable ns → length (find_upgrading_nodes ns) ≤ max_parallel_upgrades
unfolding find_upgrading_nodes keep
Reachable-length ms start = omega arith
Reachable-length ms (step {ns} before next) = Step-bounded next (Reachable-length ns before)

-- A success of markNodeAsUpgrading with a list of all nodes, on a node that the cluster has, where its nodes are Windows nodes, leaves
-- a node of its name upgrading.
pub mark_node_as_upgrading-any :
    (patches : Bool) (name : String) (ns : List Node)
    → any (λ n. n.name == name) ns ≡ true
    → All (λ n. is_windows_node n ≡ true) ns
    → (mark_node_as_upgrading (some ns) patches name ns).1 ≡ ok tt
    → any
        (λ n. n.name == name)
        (find_upgrading_nodes (mark_node_as_upgrading (some ns) patches name ns).0)
      ≡ true
unfolding mark_node_as_upgrading
mark_node_as_upgrading-any patches name ns there windows e =
    elim (Bool-cases (any (λ n. n.name == name) (find_upgrading_nodes ns))) [
      | inl already ↦ ground (arith, e, already)
      | inr fresh ↦ ground (arith, e, fresh, applied_any name ns there windows)
    ]
