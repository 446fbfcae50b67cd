-- ===== src/Daemon/Controller/Reconcile/Annotated.antt =====
-- pkg/daemon/controller/controller.go: what holds once Reconcile has set the version annotation.
use windows_machine_config_o.Common.{
  ℕ, zero, suc, String, ◌≡◌, refl, sym, ap, subst, ◌∙◌, inl, inr, Bool, true, false, ◌||◌, some,
  List, Map, lookup, In, IsDistinct, ok, elems, Sorter, arith, Bool-cases, Result-cases, [], ◌∷◌,
  Option-cases,
}
use windows_machine_config_o.Common.Actions.{
  Action, Keeps, bind-ok, pure, fail, bind-Keeps, pure-Keeps, fail-Keeps, reads-some,
}
use windows_machine_config_o.Metadata.{version_annotation}
use windows_machine_config_o.ServicesCm.Types.{Service, Data}
use windows_machine_config_o.ServicesCm.Priorities.{less_priority}
use windows_machine_config_o.ServicesCm.ConfigMap.{Json}
use windows_machine_config_o.Daemon.EnvVar.{Registry, reconcile as reconcile_env_vars}
use windows_machine_config_o.Daemon.Certs.{Machine, Pem, reconcile as reconcile_certs}
use windows_machine_config_o.Daemon.Manager.{WindowsApi, ServiceError, get_services, list_error}
use windows_machine_config_o.Daemon.Manager.States.{StableLaws, SameServices, services_frame}
use windows_machine_config_o.Daemon.Controller.{Node, Instance, reconcile_services}
use windows_machine_config_o.Daemon.Controller.Written.{ConfigLaws}
use windows_machine_config_o.Daemon.Controller.Configured.{
  Configured, Settled, CanSettle, reconcile_services-Configured,
}
use windows_machine_config_o.Daemon.Controller.Reconcile.{
  Cluster, ReconcileError, reboot_annotation_error, version_annotation_error, cert_error,
  variable_polls, still_needs_reboot, wait_for_variables, process_variable, configured, got,
  desired_version_annotation, ready_now, wait_until_node_ready, after_changes, annotate, on_node,
  on_services, reconcile_env_vars_and_certs, configure, configure_unless, follow, services_data,
  reconcile_node, reconcile, variables, ready_polls, Host,
}

-- What the calls of the client and the pauses leave alone, and that an annotation that is applied is there.
pub record AsideLaws (w : WindowsApi) (laws : StableLaws w) (c : Cluster w) : Type 0 where
  pub pause_aside : (s : w.State) → SameServices w laws.installed s (c.pause s)
  pub reboot_aside : (s : w.State) → SameServices w laws.installed s (c.apply_reboot_annotation s).0
  pub annotates :
      (version : String) (s : w.State)
      → (c.apply_version_annotation version s).1 ≡ true
      → (node : Node) × (c.get (c.apply_version_annotation version s).0 ≡ got node)
        × (lookup version_annotation node.annotations ≡ some version)
  pub version_aside :
      (version : String) (s : w.State)
      → SameServices w laws.installed s (c.apply_version_annotation version s).0

module _ (w : WindowsApi) (i : Instance w) (c : Cluster w) (registry : Registry)
    (machine : Machine) where
  -- Where no reboot is awaited, nothing was changed, and the certificates met no error.
  after_changes-unchanged :
      (env_vars : Map String) (watched : List String) (changed fine : Bool) (s : w.State)
      → (after_changes w i c registry machine env_vars watched changed fine s).1 ≡ ok false
      → (changed ≡ false) × (fine ≡ true)
  unfolding after_changes pure fail
  after_changes-unchanged env_vars watched false true s done = (refl, refl)
  after_changes-unchanged env_vars watched false false s done = absurd (ground arith)
  after_changes-unchanged env_vars watched true true s done =
      let (_, _, last, _) = bind-ok _ _ s false done in absurd (ground (arith, last))
  after_changes-unchanged env_vars watched true false s done =
      let (_, _, last, _) = bind-ok _ _ s false done in absurd (ground (arith, last))

  module _ (laws : StableLaws w) (config : ConfigLaws w i laws) (aside : AsideLaws w laws c) where
    wait_until_node_ready-Keeps :
        (n : ℕ) → Keeps (services_frame w laws) (wait_until_node_ready w i c registry machine n)
    unfolding wait_until_node_ready Keeps
    wait_until_node_ready-Keeps zero s = (services_frame w laws).same_refl s
    wait_until_node_ready-Keeps (suc n) s = elim (Bool-cases (ready_now (c.get s))) [
      | inl ready ↦ rw (ready, wait_until_node_ready) ((services_frame w laws).same_refl s)
      | inr waiting ↦
          rw (waiting, wait_until_node_ready)
            ((services_frame w laws).same_trans s (c.pause s) _ (aside.pause_aside s)
              (wait_until_node_ready-Keeps n (c.pause s)))
    ]

    still_needs_reboot-Keeps :
        (env_vars : Map String) (vs : List String) (needed : Bool)
        → Keeps
            (services_frame w laws)
            (still_needs_reboot w i c registry machine env_vars vs needed)
    unfolding still_needs_reboot Keeps
    still_needs_reboot-Keeps env_vars [] needed s = (services_frame w laws).same_refl s
    still_needs_reboot-Keeps env_vars (v ∷ vs) needed s =
        let script = process_variable v in
        let ran = config.scripts_aside script s in
        elim (Option-cases (i.run script s).1) [
          | inl failed ↦ rw (failed, still_needs_reboot) ran
          | inr (out, answered) ↦
              rw (answered, still_needs_reboot)
                ((services_frame w laws).same_trans s (i.run script s).0 _ ran
                  (still_needs_reboot-Keeps env_vars vs _ (i.run script s).0))
        ]

    wait_for_variables-Keeps :
        (n : ℕ) (env_vars : Map String) (watched : List String)
        → Keeps
            (services_frame w laws)
            (wait_for_variables w i c registry machine n env_vars watched)
    unfolding wait_for_variables Keeps
    wait_for_variables-Keeps zero env_vars watched s =
        let asked = still_needs_reboot-Keeps env_vars watched false s in
        elim (Result-cases (still_needs_reboot w i c registry machine env_vars watched false s).1) [
          | inr (e, h) ↦ rw (h, wait_for_variables) asked
          | inl (false, h) ↦ rw (h, wait_for_variables) asked
          | inl (true, h) ↦ rw (h, wait_for_variables) asked
        ]
    wait_for_variables-Keeps (suc n) env_vars watched s =
        let t = (still_needs_reboot w i c registry machine env_vars watched false s).0 in
        let asked = still_needs_reboot-Keeps env_vars watched false s in
        elim (Result-cases (still_needs_reboot w i c registry machine env_vars watched false s).1) [
          | inr (e, h) ↦ rw (h, wait_for_variables) asked
          | inl (false, h) ↦ rw (h, wait_for_variables) asked
          | inl (true, h) ↦
              rw (h, wait_for_variables)
                ((services_frame w laws).same_trans s t _ asked (
                  (services_frame w laws).same_trans t (c.pause t) _ (aside.pause_aside t)
                    (wait_for_variables-Keeps n env_vars watched (c.pause t))))
        ]

    reboot-Keeps :
        Keeps
          (services_frame w laws)
          (annotate w i c registry machine reboot_annotation_error c.apply_reboot_annotation)
    unfolding annotate Keeps
    reboot-Keeps s = aside.reboot_aside s

    after_changes-Keeps :
        (env_vars : Map String) (watched : List String) (changed fine : Bool)
        → Keeps
            (services_frame w laws)
            (after_changes w i c registry machine env_vars watched changed fine)
    unfolding after_changes
    after_changes-Keeps env_vars watched true true =
        bind-Keeps (services_frame w laws) _ _ reboot-Keeps
          (λ _. pure-Keeps (services_frame w laws) _ true)
    after_changes-Keeps env_vars watched true false =
        bind-Keeps (services_frame w laws) _ _ reboot-Keeps
          (λ _. fail-Keeps (services_frame w laws) _ cert_error)
    after_changes-Keeps env_vars watched false false =
        fail-Keeps (services_frame w laws) _ cert_error
    after_changes-Keeps env_vars watched false true =
        bind-Keeps (services_frame w laws) _ _
          (wait_for_variables-Keeps variable_polls env_vars watched)
          (λ _. pure-Keeps (services_frame w laws) _ false)

    annotate-ok :
        (e : ReconcileError) (f : w.State → w.State × Bool) (s : w.State) (a : Unit {0})
        → (annotate w i c registry machine e f s).1 ≡ ok a
        → (f s).1 ≡ true
    unfolding annotate
    annotate-ok e f s a done = elim (Bool-cases (f s).1) [
      | inl worked ↦ worked
      | inr failed ↦ absurd (ground (arith, rw (failed, annotate) at done))
    ]

    annotate-Keeps :
        (e : ReconcileError) (version : String)
        → Keeps
            (services_frame w laws)
            (annotate w i c registry machine e (c.apply_version_annotation version))
    unfolding annotate Keeps
    annotate-Keeps e version s = aside.version_aside version s

    module _ (decode : String → Pem) (ca_bundle : String) (fuel : ℕ) where
      services_ok :
          (m : Action w.State ServiceError (Unit {0})) (s : Host w i c registry machine)
          (a : Unit {0})
          → (on_services w i c registry machine m s).1 ≡ ok a
          → (m s.0).1 ≡ ok tt
      unfolding on_services
      services_ok m s a done = ground (arith, done)

      SameServices-Settled :
          (expected : Service) (at s t : w.State)
          → SameServices w laws.installed s t
          → Settled w i fuel laws config expected at s
          → Settled w i fuel laws config expected at t
      SameServices-Settled expected at s t same here = record {
        command = here.command;
        resolved = here.resolved;
        current = here.current;
        found = same.same_config expected.name ∙ here.found;
        as_expected = here.as_expected;
        settled = here.settled;
      }

      SameServices-CanSettle :
          (expected : Service) (s t : w.State)
          → SameServices w laws.installed s t
          → CanSettle w i fuel laws config expected s
          → CanSettle w i fuel laws config expected t
      SameServices-CanSettle expected s t same can = record {
        commands = can.commands;
        cleared = λ none_expected current found.
            can.cleared none_expected current (sym (same.same_config expected.name) ∙ found);
      }

      listing :
          (services : List Service) (s : w.State)
          → (reconcile_services w i fuel services s).1 ≡ ok tt
          → (existing : List String) × (get_services w s ≡ some existing)
      unfolding reconcile_services
      listing services s done =
          let (existing, read, _, _) = bind-ok _ _ s tt done in
          (existing, reads-some list_error (get_services w) s existing read)

      -- What holds of the node and of a service in the state behind: the node has the version as its version
      -- annotation, and no update of the service is required.
      pub record Reported (version : String) (services : List Service) (start : w.State)
          (expected : Service) (s : w.State) : Type 0 where
        pub node : Node
        pub here : c.get s ≡ got node
        pub annotated : lookup version_annotation node.annotations ≡ some version
        pub existing : List String
        pub listed : get_services w start ≡ some existing
        pub service : Configured w i fuel laws config services existing start expected s

      on_node-ok :
          {A : Type 0} (m : Action w.State ReconcileError A) (s : Host w i c registry machine)
          (a : A)
          → (on_node w i c registry machine m s).1 ≡ ok a
          → (m s.0).1 ≡ ok a
      unfolding on_node
      on_node-ok m s a done = done

      configure-Reported :
          (version v : String) (content : Data) (s : Host w i c registry machine)
          → IsDistinct (λ x. x.name) content.services
          → (configure w i c registry machine decode ca_bundle fuel version content s).1
            ≡ ok (configured v)
          → (expected : Service) → In expected content.services
          → CanSettle w i fuel laws config expected s.0
          → (v ≡ version)
            × Reported version content.services s.0 expected
                (configure w i c registry machine decode ca_bundle fuel version content s).0.0
      unfolding configure on_services on_node annotate pure Keeps
      configure-Reported version v content s distinct done expected listed can =
          let (_, services, done1, last1) = bind-ok _ _ s (configured v) done in
          let (_, ready, done2, last2) = bind-ok _ _ _ (configured v) done1 in
          let (_, annotated, done3, last3) = bind-ok _ _ _ (configured v) done2 in
          let s1 = (reconcile_services w i fuel content.services s.0).0 in
          let services' : (reconcile_services w i fuel content.services s.0).1 ≡ ok tt =
            services_ok (reconcile_services w i fuel content.services) s tt services in
          let (existing, listing_here) = listing content.services s.0 services' in
          let here =
            reconcile_services-Configured w i fuel laws config content.services existing s.0
              distinct listing_here services' expected listed can in
          let s2 = (wait_until_node_ready w i c registry machine ready_polls s1).0 in
          let s3 = (c.apply_version_annotation version s2).0 in
          let ready_same = wait_until_node_ready-Keeps ready_polls s1 in
          let annotated_same = aside.version_aside version s2 in
          let worked =
            annotate-ok version_annotation_error (c.apply_version_annotation version) s2 _
              annotated in
          let (node, found, versioned) = aside.annotates version s2 worked in
          let report : Reported version content.services s.0 expected s3 = record {
            node = node;
            here = found;
            annotated = versioned;
            existing = existing;
            listed = listing_here;
            service = record {
              before = here.before;
              after = here.after;
              place = here.place;
              settled =
                  SameServices-Settled expected _ s2 s3 annotated_same
                    (SameServices-Settled expected _ s1 s2 ready_same here.settled);
            };
          } in
          (
            ground (arith, done3),
            subst (λ h. Reported version content.services s.0 expected h.0)
                (sym (last1 ∙ last2 ∙ last3)) report,
          )

      -- What is read of the variables and the certificates leaves the services alone.
      changes-SameServices :
          (env_vars : Map String) (watched : List String) (s : Host w i c registry machine)
          → SameServices w laws.installed s.0
              (reconcile_env_vars_and_certs w i c registry machine decode ca_bundle env_vars watched
                s).0.0
      unfolding reconcile_env_vars_and_certs on_node Keeps
      changes-SameServices env_vars watched s =
          let vars = reconcile_env_vars registry env_vars watched s.1 in
          let certs = reconcile_certs machine decode ca_bundle s.2 in
          elim (Result-cases vars.1) [
            | inr (e, failed) ↦
                rw (failed, reconcile_env_vars_and_certs) ((services_frame w laws).same_refl s.0)
            | inl (updated, worked) ↦
                rw (worked, reconcile_env_vars_and_certs)
                  (after_changes-Keeps env_vars watched (certs.1 || updated) certs.2 s.0)
          ]

      -- The variables and the certificates that were found as expected.
      pub record Unchanged (content : Data) (s : Host w i c registry machine) : Type 0 where
        pub vars :
            (reconcile_env_vars registry
              (variables content)
              (elems content.watched_environment_vars)
              s.1).1
            ≡ ok false
        pub certs : (reconcile_certs machine decode ca_bundle s.2).1 ≡ false
        pub certs_fine : (reconcile_certs machine decode ca_bundle s.2).2 ≡ true

      changes-Unchanged :
          (content : Data) (s : Host w i c registry machine)
          → (reconcile_env_vars_and_certs w i c registry machine decode ca_bundle
              (variables content)
              (elems content.watched_environment_vars)
              s).1
            ≡ ok false
          → Unchanged content s
      unfolding reconcile_env_vars_and_certs on_node
      changes-Unchanged content s done =
          let watched = elems content.watched_environment_vars in
          let vars = reconcile_env_vars registry (variables content) watched s.1 in
          let certs = reconcile_certs machine decode ca_bundle s.2 in
          elim (Result-cases vars.1) [
            | inr (e, failed) ↦
                absurd (ground (arith, rw (failed, reconcile_env_vars_and_certs) at done))
            | inl (updated, worked) ↦
                let (none_changed, fine) =
                  after_changes-unchanged (variables content) watched (certs.1 || updated) certs.2
                    s.0 (rw (worked, reconcile_env_vars_and_certs) at done) in
                record {
                  vars = worked ∙ ap ok (ground (arith, none_changed));
                  certs = ground (arith, none_changed);
                  certs_fine = fine;
                }
          ]

      not_awaited :
          (awaiting : Bool) (version v : String) (content : Data) (s : Host w i c registry machine)
          → (configure_unless w i c registry machine decode ca_bundle fuel awaiting version content
              s).1
            ≡ ok (configured v)
          → (awaiting ≡ false)
            × (configure_unless w i c registry machine decode ca_bundle fuel awaiting version
                  content s
                ≡ configure w i c registry machine decode ca_bundle fuel version content s)
      unfolding configure_unless pure
      not_awaited true version v content s done = absurd (ground (arith, done))
      not_awaited false version v content s done = (refl, refl)

      -- The state in which the services are reconciled, behind the variables and the certificates.
      abbrev pub behind_changes : Data → Host w i c registry machine → w.State
      behind_changes content s =
          (reconcile_env_vars_and_certs w i c registry machine decode ca_bundle (variables content)
            (elems content.watched_environment_vars) s).0.0

      follow-Reported :
          (version v : String) (content : Data) (s : Host w i c registry machine)
          → IsDistinct (λ x. x.name) content.services
          → (follow w i c registry machine decode ca_bundle fuel version content s).1
            ≡ ok (configured v)
          → (expected : Service) → In expected content.services
          → CanSettle w i fuel laws config expected s.0
          → (v ≡ version)
            × Unchanged content s
            × Reported version content.services
                (behind_changes content s)
                expected
                (follow w i c registry machine decode ca_bundle fuel version content s).0.0
      unfolding follow
      follow-Reported version v content s distinct done expected listed can =
          let (awaiting, changes, rest, last) = bind-ok _ _ s (configured v) done in
          let (goes_on, same) = not_awaited awaiting version v content _ rest in
          let can' =
            SameServices-CanSettle expected s.0 (behind_changes content s)
              (changes-SameServices (variables content) (elems content.watched_environment_vars) s)
              can in
          let here =
            configure-Reported version v content _ distinct (ap (λ r. r.1) (sym same) ∙ rest)
              expected listed can' in
          (
            here.0,
            changes-Unchanged content s (changes ∙ ap ok goes_on),
            subst (λ h. Reported version content.services (behind_changes content s) expected h.0)
                (sym (last ∙ ap (λ r. r.0) same)) here.1,
          )

      -- If Reconcile reports the node configured, then at the version that is desired of it, and the node has
      -- this version as its version annotation behind it. It found the variables and the certificates as the
      -- services ConfigMap of this version expects them, and behind it each service in it has the command that
      -- it resolved to in its turn, its description, and the dependencies that are expected, and no update of
      -- it is required, as updateRequired decides it. The names of the services differ. This is for a service
      -- whose command never resolves to the empty text, and that had no dependencies if it is expected to have
      -- none.
      pub reconcile-Reported :
          (json : Json) (by_priority : Sorter less_priority) (node : Node) (version v : String)
          (content : Data) (s : Host w i c registry machine)
          → c.get s.0 ≡ got node
          → lookup desired_version_annotation node.annotations ≡ some version
          → services_data w i c registry machine decode ca_bundle fuel json by_priority version s.0
            ≡ ok content
          → IsDistinct (λ x. x.name) content.services
          → (reconcile w i c registry machine decode ca_bundle fuel json by_priority s).1
            ≡ ok (configured v)
          → (expected : Service) → In expected content.services
          → CanSettle w i fuel laws config expected s.0
          → (v ≡ version)
            × Unchanged content s
            × Reported version content.services
                (behind_changes content s)
                expected
                (reconcile w i c registry machine decode ca_bundle fuel json by_priority s).0.0
      unfolding reconcile reconcile_node
      reconcile-Reported json by_priority node version v content s here desired read distinct =
          rw (here, reconcile, reconcile_node, desired, read)
            (follow-Reported version v content s distinct)
