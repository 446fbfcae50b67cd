-- ===== src/Daemon/Deconfigure/Panic.antt =====
-- Where `Deconfigure` of pkg/daemon/cleanup/cleanup.go panics, and what it changes where no node was found.
use windows_machine_config_o.Common.{
  String, ◌≡◌, refl, ap, ◌∙◌, inl, inr, Bool, true, false, ◌||◌, Option, none, List, [], Result, ok,
  Sorter, elems, arith, Result-cases,
}
use windows_machine_config_o.ServicesCm.Types.{Data}
use windows_machine_config_o.ServicesCm.Dependencies.{Error}
use windows_machine_config_o.ServicesCm.Priorities.{less_priority}
use windows_machine_config_o.ServicesCm.ConfigMap.{ConfigMap, Json, created_after}
use windows_machine_config_o.Daemon.Cleanup.{Manager, get_merged_cm_data, remove_services}
use windows_machine_config_o.Daemon.EnvVar.{Registry, reconcile as reconcile_env_vars}
use windows_machine_config_o.Daemon.EnvVar.Steps.{RegistryLaws}
use windows_machine_config_o.Daemon.EnvVar.Outcome.{reconcile_unchanged}
use windows_machine_config_o.Daemon.Certs.{Machine, Pem, reconcile as reconcile_certs}
use windows_machine_config_o.Daemon.Deconfigure.{
  Annotations, done, Instance, mark, close, finish, remove_all, deconfigure,
}

module _ (manager : Manager) (registry : Registry) (laws : RegistryLaws registry)
    (machine : Machine) (annotations : Annotations) (json : Json)
    (by_priority : Sorter less_priority) (newest_first : Sorter created_after)
    (decode : String → Pem) (listed : Result Error (List ConfigMap))
    (get : String → Option ConfigMap) where
  -- Without a node, and with no error, nothing was to be changed.
  finish-done :
      (changed certs_fine : Bool) (s : Instance manager registry machine annotations)
      → (finish manager registry machine annotations false changed certs_fine s).1 ≡ done
      → (changed ≡ false)
        × ((finish manager registry machine annotations false changed certs_fine s).0 ≡ s)
  unfolding finish mark close
  finish-done false true s e = (refl, refl)
  finish-done false false s e = (refl, refl)
  finish-done true certs_fine s e = absurd (ground (arith, e))

  remove_all-done :
      (merged : Data) (all_tagged : Bool) (s : Instance manager registry machine annotations)
      (j : String)
      → (remove_all manager registry machine annotations decode false merged all_tagged s).1 ≡ done
      → (laws.stored
            (remove_all manager registry machine annotations decode false merged all_tagged
              s).0.env_vars
            j
          ≡ laws.stored s.env_vars j)
        × ((reconcile_certs machine decode "" s.certs).1 ≡ false)
  unfolding remove_all
  remove_all-done merged all_tagged s j e =
      let watched = elems merged.watched_environment_vars in
      elim (Result-cases (remove_services manager merged.services all_tagged s.services).1) [
        | inr (x, r) ↦ absurd (ground (arith, rw (r, remove_all) at e))
        | inl (_, r) ↦ elim (Result-cases (reconcile_env_vars registry [] watched s.env_vars).1) [
          | inr (x, v) ↦ absurd (ground (arith, rw (r, remove_all, v) at e))
          | inl (changed, v) ↦
              let certs = reconcile_certs machine decode "" s.certs in
              let last : Instance manager registry machine annotations = record {
                services = (remove_services manager merged.services all_tagged s.services).0;
                env_vars = (reconcile_env_vars registry [] watched s.env_vars).0;
                certs = certs.0;
                node = s.node;
              } in
              let (quiet, same) =
                finish-done (changed || certs.1) certs.2 last (rw (r, remove_all, v) at e) in
              let unchanged : changed ≡ false = ground (arith, quiet) in
              let kept =
                reconcile_unchanged registry laws [] watched s.env_vars j tt
                  (v ∙ ap ok unchanged) in
              (
                rw (r, remove_all, v) (ap (λ i. laws.stored i.env_vars j) same ∙ kept),
                ground (arith, quiet),
              )
        ]
      ]

  -- Where no node is associated with the instance, a Deconfigure that reports no error leaves every variable
  -- of the registry as it was, the watched ones too, and finds no certificates to change.
  pub deconfigure-done :
      (s : Instance manager registry machine annotations) (j : String)
      → (deconfigure manager registry machine annotations json by_priority newest_first decode
          listed get none s).1
        ≡ done
      → (laws.stored
            (deconfigure manager registry machine annotations json by_priority newest_first decode
              listed get none s).0.env_vars
            j
          ≡ laws.stored s.env_vars j)
        × ((reconcile_certs machine decode "" s.certs).1 ≡ false)
  unfolding deconfigure
  deconfigure-done s j e =
      elim (Result-cases (get_merged_cm_data json by_priority newest_first listed get none)) [
        | inr (x, g) ↦ absurd (ground (arith, rw (g, deconfigure) at e))
        | inl ((merged, all_tagged), g) ↦
            rw (g, deconfigure) (remove_all-done merged all_tagged s j (rw (g, deconfigure) at e))
      ]
