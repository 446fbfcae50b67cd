-- ===== src/Daemon/Deconfigure.antt =====
-- pkg/daemon/cleanup/cleanup.go: `Deconfigure`, on top of the removal of services, variables and certificates.
pub mod Panic
mod Tests
use windows_machine_config_o.Common.{
  String, Bool, true, false, not, ◌&&◌, ◌||◌, Option, none, some, List, [], Map, Result, ok, err,
  if◌then◌else◌, Sorter, elems,
}
use windows_machine_config_o.ServicesCm.Types.{Data}
use windows_machine_config_o.ServicesCm.Dependencies.{Error}
use windows_machine_config_o.ServicesCm.Priorities.{less_priority}
use windows_machine_config_o.ServicesCm.ConfigMap.{ConfigMap, Json, created_after}
use windows_machine_config_o.Daemon.Cleanup.{Manager, get_merged_cm_data, remove_services}
use windows_machine_config_o.Daemon.EnvVar.{Registry, reconcile as reconcile_env_vars}
use windows_machine_config_o.Daemon.Certs.{Machine, Pem, reconcile as reconcile_certs}

-- The calls for the annotations of a node, with whether there was no error.
pub record Annotations : Type 1 where
  pub State : Type 0
  pub apply_reboot : State → State × Bool
  pub remove_version : State → State × Bool

-- How the call ends: a panic ends the program.
pub data Outcome : Type 0 where
  done failed panicked : Outcome

module _ (manager : Manager) (registry : Registry) (machine : Machine)
    (annotations : Annotations) where
  -- The instance, and the annotations of its node.
  pub record Instance : Type 0 where
    pub services : manager.State
    pub env_vars : registry.State
    pub certs : machine.State
    pub node : annotations.State

  -- `ApplyRebootAnnotation` of `*node`, with whether there was no error. Where no node was found, `node` is nil,
  -- and there is no answer: to dereference it panics.
  unfoldable pub mark : Bool → annotations.State → annotations.State × Option Bool
  mark true n = ((annotations.apply_reboot n).0, some (annotations.apply_reboot n).1)
  mark false n = (n, none)

  -- Behind the reboot annotation.
  unfoldable pub close : Bool → Bool → Instance → Instance × Outcome
  close found false s = (s, failed)
  close false true s = (s, done)
  close true true s =
      let (cleared, removed) = annotations.remove_version s.node in
      (record s { node = cleared }, if removed then done else failed)

  -- From the decision on a reboot on. Whether a node was found is all that counts of it.
  unfoldable pub finish : Bool → Bool → Bool → Instance → Instance × Outcome
  unfolding mark close
  finish found false certs_fine s = close found certs_fine s
  finish found true certs_fine s =
      let marked : Instance = record s { node = (mark found s.node).0 } in
      elim (mark found s.node).1 [
        | none ↦ (s, panicked)
        | some false ↦ (marked, failed)
        | some true ↦ close found certs_fine marked
      ]

  -- Behind the data that is to be removed.
  unfoldable pub remove_all : (String → Pem) → Bool → Data → Bool → Instance → Instance × Outcome
  unfolding finish remove_services reconcile_env_vars reconcile_certs
  remove_all decode found merged all_tagged s =
      let (services, removed) = remove_services manager merged.services all_tagged s.services in
      let (env_vars, env_removed) =
        reconcile_env_vars registry [] (elems merged.watched_environment_vars) s.env_vars in
      let (certs, certs_removed, certs_fine) = reconcile_certs machine decode "" s.certs in
      let s1 : Instance = record s { services = services } in
      let s2 : Instance = record s { services = services; env_vars = env_vars } in
      let s3 : Instance = record s { services = services; env_vars = env_vars; certs = certs } in
      elim removed [
        | err e ↦ (s1, failed)
        | ok _ ↦ elim env_removed [
          | err e ↦ (s2, failed)
          | ok changed ↦ finish found (changed || certs_removed) certs_fine s3
        ]
      ]

  abbrev pub is_found : Option (Map String) → Bool
  is_found none = false
  is_found (some _) = true

  -- `node` is the node's annotations, or nothing where no node was found, which is only logged.
  unfoldable pub deconfigure :
      Json
      → Sorter less_priority
      → Sorter created_after
      → (String → Pem)
      → Result Error (List ConfigMap)
      → (String → Option ConfigMap)
      → Option (Map String)
      → Instance
      → Instance × Outcome
  unfolding get_merged_cm_data remove_all
  deconfigure json by_priority newest_first decode listed get node s =
      elim (get_merged_cm_data json by_priority newest_first listed get node) [
        | err e ↦ (s, failed)
        | ok merged ↦ remove_all decode (is_found node) merged.0 merged.1 s
      ]
