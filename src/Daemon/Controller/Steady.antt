-- ===== src/Daemon/Controller/Steady.antt =====
-- pkg/daemon/controller/controller.go: when reconcileService leaves a service alone, and when it never does.
use windows_machine_config_o.Common.{
  ℕ, suc, String, ◌≡◌, ◌≢◌, refl, sym, ap, ◌∙◌, true, false, not, some, [], ◌∷◌, Slice, nil, items,
  elems, ok, arith, eq_iff,
}
use windows_machine_config_o.Common.Actions.{
  Keeps, bind-success, bind-ok, pure, reads, acts, skip_if, ◌>>=◌,
}
use windows_machine_config_o.ServicesCm.Types.{Service}
use windows_machine_config_o.Daemon.Manager.{
  WindowsApi, Config, Status, ensure_service_state, stopped, running, query_error, config_error,
  update_config_error,
}
use windows_machine_config_o.Daemon.Manager.States.{StableLaws, ensure_service_state-Keeps}
use windows_machine_config_o.Daemon.Controller.{
  Instance, slices_equivalent, expected_config, update_required, expected_service_command,
  update_service, reconcile_service,
}
use windows_machine_config_o.Daemon.Controller.Written.{ConfigLaws, kept_or, written}
use windows_machine_config_o.Daemon.Controller.Configured.{CanSettle, reconcile_service-Settled}
use windows_machine_config_o.Daemon.Controller.Commands.{expected_service_command-Keeps}

slices_equivalent-ne :
    (a b : Slice String) → elems a ≢ [] → elems b ≡ [] → slices_equivalent a b ≡ false
unfolding slices_equivalent
slices_equivalent-ne nil b used empty = absurd (used refl)
slices_equivalent-ne (items []) b used empty = absurd (used refl)
slices_equivalent-ne (items (x ∷ xs)) nil used empty = refl
slices_equivalent-ne (items (x ∷ xs)) (items []) used empty = refl
slices_equivalent-ne (items (x ∷ xs)) (items (y ∷ ys)) used empty = absurd (ground (arith, empty))

kept_or-unused : (old new : Slice String) → elems new ≡ [] → kept_or old new ≡ old
unfolding kept_or
kept_or-unused old nil empty = refl
kept_or-unused old (items []) empty = refl
kept_or-unused old (items (d ∷ ds)) empty = absurd (ground (arith, empty))

update_required-differ :
    (cmd : String) (expected : Service) (c : Config)
    → slices_equivalent c.dependencies expected.dependencies ≡ false
    → update_required cmd expected c ≡ true
update_required-differ cmd expected c differ = ground (arith, eq_iff c.binary_path_name cmd)

module _ (w : WindowsApi) (i : Instance w) (fuel : ℕ) where
  -- Where no update is required and the service still runs once its scripts ran, reconcileService does no more
  -- than to resolve its command.
  reconcile_service_idle :
      (expected : Service) (s : w.State) (c : Config) (cmd : String) (status : Status)
      → w.config expected.name s ≡ some c
      → (expected_service_command w i expected s).1 ≡ ok cmd
      → update_required cmd expected c ≡ false
      → w.query expected.name (expected_service_command w i expected s).0 ≡ some status
      → status.state ≡ running
      → reconcile_service w i (suc fuel) expected.name expected s
        ≡ ((expected_service_command w i expected s).0, ok tt)
  unfolding reconcile_service ensure_service_state reads skip_if pure
  reconcile_service_idle expected s c cmd status found resolved current queried runs =
      let t = (expected_service_command w i expected s).0 in
      let ensured : ensure_service_state w (suc fuel) expected.name running t ≡ (t, ok tt) =
        bind-success (reads query_error (w.query expected.name)) _ t status (rw queried refl)
        ∙ rw runs refl in
      let rest =
        bind-success (skip_if (not (update_required cmd expected c)) _)
          (λ _. ensure_service_state w (suc fuel) expected.name running) t tt (rw current refl) in
      bind-success (reads config_error (w.config expected.name)) _ s c (rw found refl)
      ∙ bind-success (expected_service_command w i expected) _ s cmd resolved
      ∙ rest
      ∙ rw current ensured

  module _ (laws : StableLaws w) (config : ConfigLaws w i laws) where
    -- Behind a reconcileService that reports no error, another one neither stops nor starts nor updates the
    -- service: it does no more than to resolve the command, if it resolves to the same command, and if
    -- what the scripts do leaves the state of the service as it is. This is for a service whose command never
    -- resolves to the empty text, and that had no dependencies if it is expected to have none.
    pub reconcile_service_again :
        (expected : Service) (s : w.State)
        → CanSettle w i (suc fuel) laws config expected s
        → (reconcile_service w i (suc fuel) expected.name expected s).1 ≡ ok tt
        → let t = (reconcile_service w i (suc fuel) expected.name expected s).0 in
          (expected_service_command w i expected t).1 ≡ (expected_service_command w i expected s).1
          → w.query expected.name (expected_service_command w i expected t).0
            ≡ w.query expected.name t
          → reconcile_service w i (suc fuel) expected.name expected t
            ≡ ((expected_service_command w i expected t).0, ok tt)
    reconcile_service_again expected s can done same quiet =
        let t = (reconcile_service w i (suc fuel) expected.name expected s).0 in
        let (here, runs) =
          reconcile_service-Settled w i (suc fuel) laws config expected s can done in
        let (status, queried, running_still) = runs in
        reconcile_service_idle expected t here.current here.command status here.found
          (same ∙ here.resolved) here.settled (quiet ∙ queried) running_still

    update_keeps_dependencies :
        (cmd : String) (expected : Service) (c : Config) (s : w.State)
        → w.config expected.name s ≡ some c
        → slices_equivalent c.dependencies expected.dependencies ≡ false
        → elems expected.dependencies ≡ []
        → (update_service w i fuel expected.name (expected_config cmd expected c) s).1 ≡ ok tt
        → (c' : Config) × (w.config expected.name
              (update_service w i fuel expected.name (expected_config cmd expected c) s).0
            ≡ some c')
          × (c'.dependencies ≡ c.dependencies)
    unfolding update_service acts Keeps
    update_keeps_dependencies cmd expected c s found differ empty done =
        let new = expected_config cmd expected c in
        let stop = ensure_service_state w fuel expected.name stopped in
        let (_, _, updates, last) =
          bind-ok stop (λ _. acts update_config_error (w.update_config expected.name new)) s tt
            done in
        let found' : w.config expected.name (stop s).0 ≡ some c =
          (ensure_service_state-Keeps w laws fuel expected.name stopped s).same_config expected.name
          ∙ found in
        let after =
          config.updated expected.name c new (stop s).0 found' (ground (arith, updates)) in
        (
          written c new,
          rw last after,
          rw differ (kept_or-unused c.dependencies expected.dependencies empty),
        )

    -- Where a service has dependencies and is expected to have none, an update leaves the dependencies, so
    -- that behind a reconcileService that reports no error an update is required again, whatever the
    -- command is then.
    pub update_required_again :
        (expected : Service) (s : w.State) (c : Config)
        → w.config expected.name s ≡ some c
        → elems c.dependencies ≢ []
        → elems expected.dependencies ≡ []
        → (reconcile_service w i fuel expected.name expected s).1 ≡ ok tt
        → (c' : Config) × (w.config expected.name
              (reconcile_service w i fuel expected.name expected s).0
            ≡ some c')
          × (c'.dependencies ≡ c.dependencies)
          × ((cmd : String) → update_required cmd expected c' ≡ true)
    unfolding reconcile_service reads Keeps skip_if
    update_required_again expected s c found used empty done =
        let read =
          bind-success (reads config_error (w.config expected.name)) _ s c (rw found refl) in
        let (cmd, resolved, done2, last2) =
          bind-ok (expected_service_command w i expected) _ s tt
            (sym (ap (λ r. r.1) read) ∙ done) in
        let differ = slices_equivalent-ne c.dependencies expected.dependencies used empty in
        let required = update_required-differ cmd expected c differ in
        let s1 = (expected_service_command w i expected s).0 in
        let update = update_service w i fuel expected.name (expected_config cmd expected c) in
        let start = ensure_service_state w fuel expected.name running in
        let goes : (skip_if (not (update_required cmd expected c)) update >>= λ _. start) s1
            ≡ (update >>= λ _. start) s1 =
          rw required refl in
        let (_, updates, _, last3) =
          bind-ok update (λ _. start) s1 tt (sym (ap (λ r. r.1) goes) ∙ done2) in
        let found1 =
          (expected_service_command-Keeps w i laws config expected s).same_config expected.name
          ∙ found in
        let (c', found', kept) =
          update_keeps_dependencies cmd expected c s1 found1 differ empty updates in
        let after =
          (ensure_service_state-Keeps w laws fuel expected.name running (update s1).0).same_config
            expected.name in
        let there = ap (λ r. r.0) read ∙ last2 ∙ ap (λ r. r.0) goes ∙ last3 in
        (
          c',
          ap (w.config expected.name) there ∙ after ∙ found',
          kept,
          λ cmd'. update_required-differ cmd' expected c' (rw kept differ),
        )
