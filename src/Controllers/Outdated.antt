-- ===== src/Controllers/Outdated.antt =====
-- controllers/configmap_controller.go: which services ConfigMaps are left.
use windows_machine_config_o.Common.{
  String, ◌≡◌, ◌≢◌, refl, sym, ap, ◌∙◌, inl, inr, ◌↔◌, true, Option, some, List, ok, err, Sorter,
  arith, Bool-cases, Option-cases, ◌∷◌, [], In, lookup, eq_iff, ◌⊎◌, Result-cases, ok_injective,
  subst, HasUniqueKeys,
}
use windows_machine_config_o.Common.Actions.{
  Action, acts, skip_if, reads, fail, pure, ◌>>=◌, Frame, Keeps, each-Keeps, bind-success,
}
use windows_machine_config_o.Common.Text.{trim_prefix}
use windows_machine_config_o.Metadata.{Node, version_annotation}
use windows_machine_config_o.ServicesCm.Types.{Data}
use windows_machine_config_o.ServicesCm.Priorities.{less_priority}
use windows_machine_config_o.ServicesCm.ConfigMap.{
  ConfigMap, Json, name_prefix, list_services_cms, parse, validate_expected_content, map_entries,
}
use windows_machine_config_o.ServicesCm.ConfigMap.Contents.{
  HasContent, validate_expected_content-HasContent,
}
use windows_machine_config_o.Controllers.ConfigMaps.{
  Api, Error, panicked, list_error, get_version_annotations, is_tied_to_relevant_version,
  remove_unless_tied, remove_outdated_services_config_maps, accepts_content, delete_invalid,
  error_text, reconcile_services_cm,
}

module _ (api : Api) (current : String) where
  -- What a state says of one ConfigMap, and what is kept of it.
  abbrev kept : (api.State → Type 0) → Frame api.State
  kept P = record {
    Same = λ s t. P s → P t;
    same_refl = λ s p. p;
    same_trans = λ s t u h k p. k (h p);
  }

  -- What holds behind a call that only reads and what follows it.
  reads_then :
      {A B : Type 0} (P : api.State → Type 0) (e : Error) (f : api.State → Option A)
      (next : A → Action api.State Error B) (s : api.State)
      → P s
      → ((a : A) → f s ≡ some a → P (next a s).0)
      → P ((reads e f >>= next) s).0
  unfolding ◌>>=◌ reads
  reads_then P e f next s p rest = elim (Option-cases (f s)) [
    | inl nothing ↦ rw (nothing, ◌>>=◌, reads) p
    | inr (a, answered) ↦ rw (answered, ◌>>=◌, reads) (rest a answered)
  ]

  remove_unless_tied-Keeps :
      (P : api.State → Type 0) (name : String) (versions : List String)
      → ((cm : ConfigMap) (s : api.State) → cm.name ≢ name → P s → P (api.delete cm s).0)
      → is_tied_to_relevant_version current (trim_prefix name name_prefix) versions ≡ true
      → (cm : ConfigMap) → Keeps (kept P) (remove_unless_tied api current versions cm)
  unfolding remove_unless_tied Keeps skip_if pure acts
  remove_unless_tied-Keeps P name versions stays tied cm s p =
      elim (Bool-cases
        (is_tied_to_relevant_version current (trim_prefix cm.name name_prefix) versions)) [
          | inl other ↦ rw (other) p
          | inr outdated ↦ rw (outdated) (
              stays cm s
                (λ same. ground (
                  arith,
                  outdated,
                  tied,
                  ap (λ n. is_tied_to_relevant_version current (trim_prefix n name_prefix) versions)
                      same,
                ))
                p)
        ]

  delete_invalid_panics :
      (cm : ConfigMap) (s : api.State)
      → ((delete_invalid api cm s).1 ≢ ok tt)
        × (((delete_invalid api cm s).1 ≡ err panicked) ↔ ((api.delete cm s).1 ≡ true))
  unfolding delete_invalid error_text fail
  delete_invalid_panics cm s = elim (Bool-cases (api.delete cm s).1) [
    | inl done ↦ (
      λ e. absurd (ground (arith, rw (done, delete_invalid) at e)),
      (λ _. done, λ _. rw (done, delete_invalid) refl),
    )
    | inr failed ↦ (
      λ e. absurd (ground (arith, rw (failed, delete_invalid) at e)),
      (
        λ e. absurd (ground (arith, rw (failed, delete_invalid) at e)),
        λ e. absurd (ground (arith, e, failed)),
      ),
    )
  ]

  -- The ConfigMap can be parsed, and holds what the operator expects.
  abbrev pub IsExpected : Json → Sorter less_priority → Data → ConfigMap → Type 0
  IsExpected json by_priority manifest cm =
      (found : Data) × (parse json by_priority cm.content ≡ ok found) × HasContent found manifest

  module _ (json : Json) (by_priority : Sorter less_priority) (manifest : Data) (cm : ConfigMap)
      (unique : (found : Data)
        → parse json by_priority cm.content ≡ ok found
        → HasUniqueKeys (map_entries found.environment_vars)) where
    accepts_content_iff :
        (accepts_content api json by_priority manifest cm.content ≡ true)
        ↔ IsExpected json by_priority manifest cm
    unfolding accepts_content
    accepts_content_iff = elim (Result-cases (parse json by_priority cm.content)) [
      | inr (e, failed) ↦ (
        λ a. absurd (ground (arith, rw (failed, accepts_content) at a)),
        λ h. let (found, read, same) = h in absurd (ground (arith, sym failed ∙ read)),
      )
      | inl (found, read) ↦
          let valid = validate_expected_content-HasContent found manifest (unique found read) in
          (
            λ a. (
              found,
              read,
              valid.0 (elim (Result-cases (validate_expected_content found manifest)) [
                | inl (x, fine) ↦ fine
                | inr (e, wrong) ↦ absurd (ground (arith, rw (read, accepts_content, wrong) at a))
              ]),
            ),
            λ h.
                let (d, read', content) = h in
                let same : d ≡ found = ok_injective (sym read' ∙ read) in
                let content' = subst (λ x. HasContent x manifest) same content in
                rw (read, accepts_content, valid.1 content') refl,
          )
    ]

    -- Once the outdated ConfigMaps are removed, reconcileServices reports no error exactly if the ConfigMap can be
    -- parsed and holds what the operator expects, and panics exactly if it does not and its deletion
    -- succeeds. Names of environment variables stand once, as in every map.
    pub reconcile_services_cm-HasContent :
        (s : api.State)
        → (remove_outdated_services_config_maps api current s).1 ≡ ok tt
        → (((reconcile_services_cm api json by_priority manifest current cm s).1 ≡ ok tt)
            ↔ IsExpected json by_priority manifest cm)
          × (((reconcile_services_cm api json by_priority manifest current cm s).1 ≡ err panicked)
              ↔ ((¬ IsExpected json by_priority manifest cm)
                  × ((api.delete cm (remove_outdated_services_config_maps api current s).0).1
                      ≡ true)))
    unfolding reconcile_services_cm skip_if pure
    reconcile_services_cm-HasContent s removed =
        let accepted = accepts_content api json by_priority manifest cm.content in
        let t = (remove_outdated_services_config_maps api current s).0 in
        let same =
          bind-success (remove_outdated_services_config_maps api current)
            (λ _. skip_if accepted (delete_invalid api cm)) s tt removed in
        let result = ap (λ r. r.1) same in
        let (never, panics) = delete_invalid_panics cm t in
        elim (Bool-cases accepted) [
          | inl fine ↦
              let done = result ∙ rw fine refl in
              (
                (λ _. accepts_content_iff.0 fine, λ _. done),
                (
                  λ e. absurd (ground (arith, sym done ∙ e)),
                  λ h. absurd (h.0 (accepts_content_iff.0 fine)),
                ),
              )
          | inr wrong ↦
              let unexpected : ¬ IsExpected json by_priority manifest cm =
                λ h. ground (arith, accepts_content_iff.1 h, wrong) in
              let done = result ∙ rw wrong refl in
              (
                (λ e. absurd (never (sym done ∙ e)), λ h. absurd (unexpected h)),
                (λ e. (unexpected, panics.0 (sym done ∙ e)), λ h. done ∙ panics.1 h.1),
              )
        ]

  -- Removal leaves a ConfigMap that is tied to a relevant version.
  tied_stays :
      (P : api.State → Type 0) (name : String) (s : api.State)
      → ((cm : ConfigMap) (t : api.State) → cm.name ≢ name → P t → P (api.delete cm t).0)
      → ((nodes : List Node)
          → api.windows_nodes s ≡ some nodes
          → is_tied_to_relevant_version current
              (trim_prefix name name_prefix)
              (get_version_annotations nodes)
            ≡ true)
      → P s
      → P (remove_outdated_services_config_maps api current s).0
  unfolding remove_outdated_services_config_maps Keeps
  tied_stays P name s stays tied p =
      reads_then P list_error api.windows_nodes _ s p (λ nodes listed.
        reads_then P list_error api.config_maps _ s p (λ cms _.
          each-Keeps (kept P) (remove_unless_tied api current (get_version_annotations nodes))
            (list_services_cms cms)
            (remove_unless_tied-Keeps P name (get_version_annotations nodes) stays
              (tied nodes listed))
            s p))

  node_is_tied :
      (v : String) (n : Node) (nodes : List Node)
      → In n nodes
      → lookup version_annotation n.annotations ≡ some v
      → is_tied_to_relevant_version current v (get_version_annotations nodes) ≡ true
  unfolding is_tied_to_relevant_version get_version_annotations
  node_is_tied v n (m ∷ ms) i at = elim i [
    | inl same ↦
        let here : lookup version_annotation m.annotations ≡ some v =
          ap (λ x. lookup version_annotation x.annotations) (sym same) ∙ at in
        rw (here, get_version_annotations) (ground (arith, eq_iff v v))
    | inr later ↦
        let rest = node_is_tied v n ms later at in
        elim (Option-cases (lookup version_annotation m.annotations)) [
          | inl nothing ↦ rw (nothing, get_version_annotations) rest
          | inr (x, other) ↦ rw (other, get_version_annotations) (ground (arith, rest))
        ]
  ]
  node_is_tied v n [] i at = absurd i

  current_is_tied :
      (v : String) (versions : List String)
      → v ≡ current
      → is_tied_to_relevant_version current v versions ≡ true
  unfolding is_tied_to_relevant_version
  current_is_tied v versions same = ground (arith, eq_iff v current, same)

  -- The ConfigMap of the current version, or of a version that some Windows node is at, is left by
  -- removeOutdatedServicesConfigMaps: all that deletions of other ConfigMaps keep of it is kept.
  pub remove_outdated_services_config_maps_keeps :
      (P : api.State → Type 0) (name version : String) (s : api.State)
      → ((cm : ConfigMap) (t : api.State) → cm.name ≢ name → P t → P (api.delete cm t).0)
      → trim_prefix name name_prefix ≡ version
      → (version ≡ current)
        ⊎ ((nodes : List Node)
            → api.windows_nodes s ≡ some nodes
            → (n : Node) × In n nodes × (lookup version_annotation n.annotations ≡ some version))
      → P s
      → P (remove_outdated_services_config_maps api current s).0
  remove_outdated_services_config_maps_keeps P name version s stays named relevant p =
      tied_stays P name s stays
        (λ nodes listed.
          ap (λ v. is_tied_to_relevant_version current v (get_version_annotations nodes)) named
          ∙ elim relevant [
            | inl same ↦ current_is_tied version (get_version_annotations nodes) same
            | inr at_node ↦
                let (n, i, at) = at_node nodes listed in node_is_tied version n nodes i at
          ])
        p
