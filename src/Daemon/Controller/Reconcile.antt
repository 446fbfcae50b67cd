-- ===== src/Daemon/Controller/Reconcile.antt =====
-- pkg/daemon/controller/controller.go: Reconcile and Bootstrap, on top of the variables, the certificates and
-- the services.
pub mod Annotated
mod Tests
use Prim.Native.String.{◌++◌ as text_append}
use mathlib.Core.Option
use windows_machine_config_o.Common.{
  ℕ, zero, suc, String, Bool, true, false, not, ◌&&◌, ◌||◌, Option, none, some, List, [], ◌∷◌, Map,
  lookup, has_key, any, Result, ok, err, ◌==◌, if◌then◌else◌, Slice, elems, Sorter,
}
use windows_machine_config_o.Common.Actions.{Action, pure, fail, ◌>>=◌, ◌>>◌}
use windows_machine_config_o.Common.Text.{trim_space}
use windows_machine_config_o.ServicesCm.Types.{Service, Data}
use windows_machine_config_o.ServicesCm.Priorities.{less_priority, get_bootstrap_services}
use windows_machine_config_o.ServicesCm.ConfigMap.{ConfigMap, Json, parse, name_prefix}
use windows_machine_config_o.Daemon.EnvVar.{Registry, reconcile as reconcile_env_vars}
use windows_machine_config_o.Daemon.Certs.{Machine, Pem, reconcile as reconcile_certs}
use windows_machine_config_o.Daemon.Manager.{WindowsApi, ServiceError}
use windows_machine_config_o.Daemon.Controller.{Node, Instance, reconcile_services}

abbrev pub desired_version_annotation : String
desired_version_annotation = "windowsmachineconfig.openshift.io/desired-version"

abbrev pub reboot_annotation : String
reboot_annotation = "windowsmachineconfig.openshift.io/reboot-required"

pub data Got : Type 0 where
  got : Node → Got
  not_found : Got
  get_failed : Got

-- The calls of the client that Reconcile makes itself. A call that changes an annotation of the node of this
-- instance answers whether there was no error.
pub record Cluster (w : WindowsApi) : Type 0 where
  pub get : w.State → Got
  pub get_config_map : String → w.State → Option ConfigMap
  pub apply_reboot_annotation : w.State → w.State × Bool
  pub apply_version_annotation : String → w.State → w.State × Bool
  -- The times between two calls of the conditions that are polled.
  pub pause : w.State → w.State

pub data ReconcileError : Type 0 where
  service_error : ServiceError → ReconcileError
  get_error config_map_error parse_error env_var_error cert_error : ReconcileError
  reboot_annotation_error version_annotation_error : ReconcileError
  script_failed variables_timeout not_ready : ReconcileError

-- How Reconcile ends where it reports no error; the code answers the same each time.
pub data Outcome : Type 0 where
  no_node no_version waiting_for_reboot : Outcome
  configured : (version : String) → Outcome

-- `isAwaitingReboot` of a node.
unfoldable pub is_awaiting_reboot : Node → Bool
unfolding lookup
is_awaiting_reboot node = has_key reboot_annotation node.annotations

abbrev desired : Node → String
desired node = elim (lookup desired_version_annotation node.annotations) [ none ↦ "" | some v ↦ v ]

-- `CreateFunc` and `GenericFunc` of the predicate of the node, and its `UpdateFunc`.
unfoldable pub accepts : String → Node → Bool
unfolding is_awaiting_reboot lookup
accepts name node = (name == node.name) && not (is_awaiting_reboot node) && not (desired node == "")

unfoldable pub accepts_update : String → Node → Node → Bool
unfolding is_awaiting_reboot lookup
accepts_update name old new =
    (name == new.name) && not (is_awaiting_reboot new) && not (desired old == desired new)

-- The condition of `waitUntilNodeReady`.
unfoldable pub is_ready : Node → Bool
is_ready node = any (λ c. (c.0 == "Ready") && (c.1 == "True")) node.conditions

-- The node that a failed call leaves has no conditions.
unfoldable pub ready_now : Got → Bool
unfolding is_ready
ready_now (got node) = is_ready node
ready_now not_found = false
ready_now get_failed = false

-- How often the conditions are polled behind the first time: for five minutes each 15 seconds, and for one
-- minute each 5 seconds.
abbrev pub variable_polls : ℕ
variable_polls = 20

abbrev pub ready_polls : ℕ
ready_polls = 12

-- A nil map has no entries.
abbrev pub variables : Data → Map String
variables content = elim content.environment_vars [ none ↦ [] | some vars ↦ vars ]

-- The command that reads a variable of the environment of a process.
abbrev pub process_variable : String → String
process_variable v =
    text_append "[Environment]::GetEnvironmentVariable('" (text_append v "', 'Process')")

module _ (w : WindowsApi) (i : Instance w) (c : Cluster w) (registry : Registry)
    (machine : Machine) where
  -- What an instance keeps: its services with all else, the variables of its registry, its certificates.
  abbrev pub Host : Type 0
  Host = w.State × registry.State × machine.State

  unfoldable pub on_services :
      {A : Type 0} → Action w.State ServiceError A → Action Host ReconcileError A
  on_services m s =
      (((m s.0).0, s.1, s.2), elim (m s.0).1 [ err e ↦ err (service_error e) | ok a ↦ ok a ])

  -- The loop in the condition that the processes have the variables: whether a restart is still needed.
  unfoldable pub still_needs_reboot :
      Map String → List String → Bool → Action w.State ReconcileError Bool
  unfolding trim_space lookup
  still_needs_reboot env_vars [] needed s = (s, ok needed)
  still_needs_reboot env_vars (v ∷ vs) needed s =
      let ran = i.run (process_variable v) s in
      elim ran.1 [
        | none ↦ (ran.0, err script_failed)
        | some out ↦
            still_needs_reboot env_vars vs
              (if trim_space out == elim (lookup v env_vars) [ none ↦ "" | some x ↦ x ]
                then needed
                else true)
              ran.0
      ]

  unfoldable pub wait_for_variables :
      ℕ → Map String → List String → Action w.State ReconcileError (Unit {0})
  wait_for_variables zero env_vars watched s =
      elim (still_needs_reboot env_vars watched false s).1 [
        | err e ↦ ((still_needs_reboot env_vars watched false s).0, err e)
        | ok false ↦ ((still_needs_reboot env_vars watched false s).0, ok tt)
        | ok true ↦ ((still_needs_reboot env_vars watched false s).0, err variables_timeout)
      ]
  wait_for_variables (suc n) env_vars watched s =
      elim (still_needs_reboot env_vars watched false s).1 [
        | err e ↦ ((still_needs_reboot env_vars watched false s).0, err e)
        | ok false ↦ ((still_needs_reboot env_vars watched false s).0, ok tt)
        | ok true ↦
            wait_for_variables n env_vars watched
              (c.pause (still_needs_reboot env_vars watched false s).0)
      ]

  -- `waitUntilNodeReady`.
  unfoldable pub wait_until_node_ready : ℕ → Action w.State ReconcileError (Unit {0})
  unfolding ready_now
  wait_until_node_ready zero s = (s, if ready_now (c.get s) then ok tt else err not_ready)
  wait_until_node_ready (suc n) s = elim (ready_now (c.get s)) [
    | true ↦ (s, ok tt)
    | false ↦ wait_until_node_ready n (c.pause s)
  ]

  unfoldable pub on_node :
      {A : Type 0} → Action w.State ReconcileError A → Action Host ReconcileError A
  on_node m s = (((m s.0).0, s.1, s.2), (m s.0).1)

  unfoldable pub annotate :
      ReconcileError → (w.State → w.State × Bool) → Action w.State ReconcileError (Unit {0})
  annotate e f s = ((f s).0, if (f s).1 then ok tt else err e)

  -- `reconcileEnvVarsAndCerts` behind the changes: whether there were any, and whether the certificates
  -- met no error.
  unfoldable pub after_changes :
      Map String → List String → Bool → Bool → Action w.State ReconcileError Bool
  after_changes env_vars watched true true = do
    annotate reboot_annotation_error c.apply_reboot_annotation
    pure true
  after_changes env_vars watched true false = do
    annotate reboot_annotation_error c.apply_reboot_annotation
    fail cert_error
  after_changes env_vars watched false false = fail cert_error
  after_changes env_vars watched false true = do
    wait_for_variables variable_polls env_vars watched
    pure false

  module _ (decode : String → Pem) (ca_bundle : String) where
    -- `reconcileEnvVarsAndCerts`: whether the instance is awaiting a reboot.
    unfoldable pub reconcile_env_vars_and_certs :
        Map String → List String → Action Host ReconcileError Bool
    reconcile_env_vars_and_certs env_vars watched s =
        let vars = reconcile_env_vars registry env_vars watched s.1 in
        let certs = reconcile_certs machine decode ca_bundle s.2 in
        elim vars.1 [
          | err e ↦ ((s.0, vars.0, s.2), err env_var_error)
          | ok updated ↦
              on_node (after_changes env_vars watched (certs.1 || updated) certs.2)
                (s.0, vars.0, certs.0)
        ]

    module _ (fuel : ℕ) where
      -- `Reconcile` once no restart is awaited.
      unfoldable pub configure : String → Data → Action Host ReconcileError Outcome
      configure version content = do
        on_services (reconcile_services w i fuel content.services)
        on_node (wait_until_node_ready ready_polls)
        on_node (annotate version_annotation_error (c.apply_version_annotation version))
        pure (configured version)

      unfoldable pub configure_unless : Bool → String → Data → Action Host ReconcileError Outcome
      configure_unless true version content = pure waiting_for_reboot
      configure_unless false version content = configure version content

      -- `Reconcile` behind the reading of the ConfigMap.
      unfoldable pub follow : String → Data → Action Host ReconcileError Outcome
      follow version content = do
        awaiting ←
            reconcile_env_vars_and_certs (variables content)
              (elems content.watched_environment_vars)
        configure_unless awaiting version content

      module _ (json : Json) (by_priority : Sorter less_priority) where
        -- The data of the services ConfigMap of a version.
        unfoldable pub services_data : String → w.State → Result ReconcileError Data
        unfolding parse
        services_data version s = elim (c.get_config_map (text_append name_prefix version) s) [
          | none ↦ err config_map_error
          | some cm ↦ elim (parse json by_priority cm.content) [
            | err e ↦ err parse_error
            | ok content ↦ ok content
          ]
        ]

        unfoldable pub reconcile_node : Node → Action Host ReconcileError Outcome
        unfolding lookup
        reconcile_node node s = elim (lookup desired_version_annotation node.annotations) [
          | none ↦ (s, ok no_version)
          | some version ↦ elim (services_data version s.0) [
            | err e ↦ (s, err e)
            | ok content ↦ follow version content s
          ]
        ]

        -- `Reconcile`.
        unfoldable pub reconcile : Action Host ReconcileError Outcome
        reconcile s = elim (c.get s.0) [
          | not_found ↦ (s, ok no_node)
          | get_failed ↦ (s, err get_error)
          | got node ↦ reconcile_node node s
        ]

        -- `Bootstrap`.
        unfoldable pub bootstrap : String → Action Host ReconcileError (Unit {0})
        unfolding get_bootstrap_services
        bootstrap version s = elim (services_data version s.0) [
          | err e ↦ (s, err e)
          | ok content ↦
              on_services (reconcile_services w i fuel (get_bootstrap_services content.services)) s
        ]
