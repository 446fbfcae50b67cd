-- ===== src/Controllers/Current.antt =====
-- controllers/controllers.go: the updates of nodes that a controller handles, and an instance that was brought up to date
-- is at the version.
use windows_machine_config_o.Common.{
  String, ◌≡◌, refl, sym, ap, subst, ◌∙◌, inl, inr, ◌⊎◌, true, some, Map, ok_injective, ok, arith,
  Bool-cases, Result-cases, ◌↔◌, ◌≢◌, lookup, eq_iff, ◌==◌, Bool, Option-cases,
}
use windows_machine_config_o.Common.Actions.{Action, pure, skip_if, bind-ok}
use windows_machine_config_o.Metadata.{Node, value_of, version_annotation}
use windows_machine_config_o.Metadata.Waiting.{IsAt}
use windows_machine_config_o.Upgrades.{has_value, os_label}
use windows_machine_config_o.NodeConfig.{
  pub_key_hash_annotation, World, NodeConfig, Error as NodeError,
}
use windows_machine_config_o.NodeConfig.Configured.{NodeLaws, IsKnown, configure-IsAt}
use windows_machine_config_o.Controllers.{
  is_windows, is_valid_windows_node, byoh_label, is_stale, outdated_update, Info, is_up_to_date,
  Reconciler, on_node, new_node_config, bring_up_to_date, ensure_instance_is_up_to_date,
}

-- A Windows node whose BYOH label is "true" exactly if `byoh` is, and that is at another version than the given
-- one, or has another public key hash than before.
pub record IsOutdated (version : String) (byoh : Bool) (old new : Node) : Type 0 where
  pub windows : lookup os_label new.labels ≡ some "windows"
  pub labelled : (value_of byoh_label new.labels == "true") ≡ byoh
  pub stale :
      (value_of version_annotation new.annotations ≢ version)
      ⊎ (value_of pub_key_hash_annotation new.annotations
          ≢ value_of pub_key_hash_annotation old.annotations)

has_value_iff : (k v : String) (m : Map String) → (has_value k v m ≡ true) ↔ (lookup k m ≡ some v)
has_value_iff k v m = elim (Option-cases (lookup k m)) [
  | inl nothing ↦
      rw (nothing, has_value) (λ e. absurd (ground (arith, e)), λ e. absurd (ground (arith, e)))
  | inr (w, there) ↦
      rw (there, has_value)
        (λ e. ap some ((eq_iff w v).0 e), λ e. (eq_iff w v).1 (ground (arith, e)))
]

is_valid_windows_node_iff :
    (new : Node) (byoh : Bool)
    → (is_valid_windows_node new byoh ≡ true) ↔ (
        (lookup os_label new.labels ≡ some "windows")
        × ((value_of byoh_label new.labels == "true") ≡ byoh))
unfolding is_valid_windows_node
is_valid_windows_node_iff new byoh =
    let windows = has_value_iff os_label "windows" new.labels in
    let labelled : (is_valid_windows_node new byoh ≡ true)
        ↔ ((is_windows new ≡ true) × ((value_of byoh_label new.labels == "true") ≡ byoh)) =
      elim (Bool-cases byoh) [
        | inl yes_byoh ↦
            rw (yes_byoh)
              (λ e. (ground (arith, e), ground (arith, e)), λ h. ground (arith, h.0, h.1))
        | inr no_byoh ↦
            rw (no_byoh)
              (λ e. (ground (arith, e), ground (arith, e)), λ h. ground (arith, h.0, h.1))
      ] in
    (λ e. (windows.0 (labelled.0 e).0, (labelled.0 e).1), λ h. labelled.1 (windows.1 h.0, h.1))

is_stale_iff :
    (version : String) (old new : Node)
    → (is_stale version old new ≡ true) ↔ (
        (value_of version_annotation new.annotations ≢ version)
        ⊎ (value_of pub_key_hash_annotation new.annotations
            ≢ value_of pub_key_hash_annotation old.annotations))
unfolding is_stale
is_stale_iff version old new =
    let v = value_of version_annotation new.annotations in
    let h = value_of pub_key_hash_annotation new.annotations in
    let g = value_of pub_key_hash_annotation old.annotations in
    elim (Bool-cases (v == version)) [
      | inr other ↦ (
        λ _. inl (λ e. ground (arith, other, (eq_iff v version).1 e)),
        λ _. ground (arith, other),
      )
      | inl same ↦ elim (Bool-cases (h == g)) [
        | inr other ↦ (
          λ _. inr (λ e. ground (arith, other, (eq_iff h g).1 e)),
          λ _. ground (arith, same, other),
        )
        | inl kept ↦ (
          λ e. absurd (ground (arith, e, same, kept)),
          λ d. elim d [
            | inl differ ↦ absurd (differ ((eq_iff v version).0 same))
            | inr differ ↦ absurd (differ ((eq_iff h g).0 kept))
          ],
        )
      ]
    ]

-- An update of a node passes outdatedWindowsNodePredicate exactly if the node is a Windows node whose BYOH
-- label is "true" just in the case that the predicate is for BYOH nodes, and if it is at another version than
-- the one of the operator, or has another public key hash than before the update.
pub outdated_update-IsOutdated :
    (version : String) (byoh : Bool) (old new : Node)
    → (outdated_update version byoh old new ≡ true) ↔ IsOutdated version byoh old new
unfolding outdated_update
outdated_update-IsOutdated version byoh old new =
    let valid = is_valid_windows_node_iff new byoh in
    let stale = is_stale_iff version old new in
    (
      λ e. record {
        windows = (valid.0 (ground (arith, e))).0;
        labelled = (valid.0 (ground (arith, e))).1;
        stale = stale.0 (ground (arith, e));
      },
      λ h.
          let a = valid.1 (h.windows, h.labelled) in
          let b = stale.1 h.stale in ground (arith, a, b),
    )

module _ (w : World) (r : Reconciler w) where
  open w use {nodes}

  on_node-ok :
      {A : Type 0} (m : Action nodes.State NodeError A) (s : nodes.State) (a : A)
      → (on_node w r m s).1 ≡ ok a
      → ((m s).1 ≡ ok a) × ((on_node w r m s).0 ≡ (m s).0)
  unfolding on_node
  on_node-ok m s a e = elim (Result-cases (m s).1) [
    | inl (b, h) ↦ let same : b ≡ a = ground (arith, rw (h, on_node) at e) in (h ∙ ap ok same, refl)
    | inr (x, h) ↦ absurd (ground (arith, rw (h, on_node) at e))
  ]

  new_node_config-ok :
      (info : Info) (labels annotations : Map String) (s : nodes.State) (nc : NodeConfig)
      → (new_node_config w r info labels annotations s).1 ≡ ok nc
      → (nc.node ≡ info.node) × (nc.address ≡ info.address)
  unfolding new_node_config pure
  new_node_config-ok info labels annotations s nc e =
      let (_, _, r0, _) = bind-ok _ _ s nc e in
      let (_, _, r1, _) = bind-ok _ _ _ nc r0 in
      let (_, _, r2, _) = bind-ok _ _ _ nc r1 in
      let same = ok_injective r2 in (sym (ap (λ c. c.node) same), sym (ap (λ c. c.address) same))

  module _ (version : String) (laws : NodeLaws w version) where
    bring_up_to_date-IsAt :
        (info : Info) (labels annotations : Map String) (s : nodes.State)
        → (bring_up_to_date w r version info labels annotations s).1 ≡ ok tt
        → (node : Node) × IsKnown w info.node info.address node
          × IsAt nodes version node.name (bring_up_to_date w r version info labels annotations s).0
    unfolding bring_up_to_date
    bring_up_to_date-IsAt info labels annotations s e =
        let (nc, made, r0, s0) = bind-ok _ _ s tt e in
        let (_, _, r1, s1) = bind-ok _ _ _ tt r0 in
        let (configured, s2) = on_node-ok _ _ tt r1 in
        let (same_node, same_address) = new_node_config-ok info labels annotations s nc made in
        let (node, known, at) =
          configure-IsAt w version laws r.encodings r.cidr r.latest_first r.parse_raw nc _
            configured in
        (
          node,
          subst (λ a. IsKnown w info.node a node) same_address
              (subst (λ n. IsKnown w n nc.address node) same_node known),
          subst (IsAt nodes version node.name) (sym (s0 ∙ s1 ∙ s2)) at,
        )

    -- If ensureInstanceIsUpToDate reports no error, then the node that the instance was given with is at the version
    -- already, and nothing was done; or a node is at the version behind it, the node of the instance, or
    -- one with its address where it had none.
    pub ensure_instance_is_up_to_date-IsAt :
        (info : Info) (labels annotations : Map String) (s : nodes.State)
        → (ensure_instance_is_up_to_date w r version (some info) labels annotations s).1 ≡ ok tt
        → ((is_up_to_date version info ≡ true)
            × ((ensure_instance_is_up_to_date w r version (some info) labels annotations s).0 ≡ s))
          ⊎ ((node : Node) × IsKnown w info.node info.address node
              × IsAt nodes version node.name
                  (ensure_instance_is_up_to_date w r version (some info) labels annotations s).0)
    unfolding ensure_instance_is_up_to_date skip_if pure
    ensure_instance_is_up_to_date-IsAt info labels annotations s e =
        elim (Bool-cases (is_up_to_date version info)) [
          | inl current ↦ inl (current, rw (current, ensure_instance_is_up_to_date) refl)
          | inr outdated ↦ inr (
              rw (outdated, ensure_instance_is_up_to_date)
                (bring_up_to_date-IsAt info labels annotations s
                  (rw (outdated, ensure_instance_is_up_to_date) at e)))
        ]
