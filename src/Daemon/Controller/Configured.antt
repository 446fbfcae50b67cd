-- ===== src/Daemon/Controller/Configured.antt =====
-- pkg/daemon/controller/controller.go: how a service is configured behind reconcileServices.
use mathlib.Core.List.{◌++◌ as list_append}
use windows_machine_config_o.Common.{
  ap, any, elems, All→In, Option, ◌==◌, ℕ, String, ◌≡◌, ◌≢◌, refl, sym, subst, ◌∙◌, inl, inr, Bool,
  true, false, not, some, List, [], ◌∷◌, In, ok, String_deep_equal, Slice_deep_equal, arith,
  Bool-cases, IsDistinct, All,
}
use windows_machine_config_o.Common.Actions.{
  Action, Frame, Keeps, bind-Keeps, skip_if-Keeps, reads-Keeps, acts-Keeps, pure-Keeps, reads-some,
  bind-ok, bind-success, pure, reads, acts, each, skip_if,
}
use windows_machine_config_o.ServicesCm.Types.{Service}
use windows_machine_config_o.Daemon.Manager.{
  WindowsApi, Config, ServiceError, ServiceState, ensure_service_state, open_service, opens,
  get_services, list_error, stopped, running, open_error, create_error, config_error,
  update_config_error,
}
use windows_machine_config_o.Daemon.Manager.States.{
  StableLaws, services_frame, IsIn, ensure_service_state-Keeps, ensure_service_state-IsIn,
}
use windows_machine_config_o.Daemon.Controller.{
  Instance, expected_config, update_required, expected_service_command, update_service,
  reconcile_service, prepare, reconcile_listed, reconcile_services,
}
use windows_machine_config_o.Daemon.Controller.Commands.{expected_service_command-Keeps}
use windows_machine_config_o.Daemon.Controller.Written.{
  AsExpected, ConfigLaws, written, written-update_required, update_required-AsExpected,
}

reads_answered :
    {S E A : Type 0} (e : E) (f : S → Option A) (s : S) (a : A)
    → f s ≡ some a
    → (reads e f s).1 ≡ ok a
unfolding reads
reads_answered e f s a h = rw (h, reads) refl

reads_unchanged : {S E A : Type 0} (e : E) (f : S → Option A) (s : S) → (reads e f s).0 ≡ s
unfolding reads
reads_unchanged e f s = refl

module _ (w : WindowsApi) (i : Instance w) (fuel : ℕ) (laws : StableLaws w)
    (config : ConfigLaws w i laws) where
  -- The service is configured as expected, for the command that it resolved to in a state, and no update of it
  -- is required.
  pub record Settled (expected : Service) (resolved_at s : w.State) : Type 0 where
    pub command : String
    pub resolved : (expected_service_command w i expected resolved_at).1 ≡ ok command
    pub current : Config
    pub found : w.config expected.name s ≡ some current
    pub as_expected : AsExpected command expected current
    pub settled : update_required command expected current ≡ false

  -- What an update can reach: the command does not resolve to the empty text, and where no dependency is
  -- expected, there is none to be cleared.
  pub record CanSettle (expected : Service) (s : w.State) : Type 0 where
    pub commands :
        (t : w.State) (cmd : String)
        → (expected_service_command w i expected t).1 ≡ ok cmd
        → cmd ≢ ""
    pub cleared :
        elems expected.dependencies ≡ []
        → (c : Config) → w.config expected.name s ≡ some c
        → elems c.dependencies ≡ []

  -- The update of reconcileService, where it is needed.
  update_if_required :
      (cmd : String) (expected : Service) (c : Config) (s : w.State)
      → cmd ≢ ""
      → (elems expected.dependencies ≡ [] → elems c.dependencies ≡ [])
      → w.config expected.name s ≡ some c
      → (skip_if
          (not (update_required cmd expected c))
          (update_service w i fuel expected.name (expected_config cmd expected c))
          s).1
        ≡ ok tt
      → (c' : Config) × (w.config expected.name
            (skip_if
              (not (update_required cmd expected c))
              (update_service w i fuel expected.name (expected_config cmd expected c))
              s).0
          ≡ some c')
        × (update_required cmd expected c' ≡ false)
  unfolding skip_if update_service pure acts Keeps
  update_if_required cmd expected c s given cleared found done =
      elim (Bool-cases (update_required cmd expected c)) [
        | inr current ↦ (c, rw (current, skip_if) found, current)
        | inl outdated ↦
            let new = expected_config cmd expected c in
            let stop = ensure_service_state w fuel expected.name stopped in
            let (_, _, updates, last) =
              bind-ok stop (λ _. acts update_config_error (w.update_config expected.name new)) s tt
                (rw (outdated, skip_if) at done) in
            let found' : w.config expected.name (stop s).0 ≡ some c =
              (ensure_service_state-Keeps w laws fuel expected.name stopped s).same_config
                expected.name
              ∙ found in
            let after =
              config.updated expected.name c new (stop s).0 found' (ground (arith, updates)) in
            (
              written c new,
              rw (outdated, skip_if, last) after,
              written-update_required cmd expected c given cleared,
            )
      ]

  -- If reconcileService reports no error, no update of the service is required, and it is running.
  pub reconcile_service-Settled :
      (expected : Service) (s : w.State)
      → CanSettle expected s
      → (reconcile_service w i fuel expected.name expected s).1 ≡ ok tt
      → Settled expected s (reconcile_service w i fuel expected.name expected s).0
        × IsIn w laws expected.name running (reconcile_service w i fuel expected.name expected s).0
  unfolding reconcile_service reads Keeps
  reconcile_service-Settled expected s can done =
      let (c, read, done1, last1) = bind-ok _ _ s tt done in
      let (cmd, resolved, done2, last2) = bind-ok _ _ s tt done1 in
      let (_, updates, done3, last3) = bind-ok _ _ _ tt done2 in
      let s1 = (expected_service_command w i expected s).0 in
      let here = reads-some config_error (w.config expected.name) s c read in
      let found =
        (expected_service_command-Keeps w i laws config expected s).same_config expected.name
        ∙ here in
      let (c', found', settled) =
        update_if_required cmd expected c s1 (can.commands s cmd resolved)
          (λ none_expected. can.cleared none_expected c here) found updates in
      let start = ensure_service_state w fuel expected.name running in
      let kept = ensure_service_state-Keeps w laws fuel expected.name running _ in
      subst (λ t. Settled expected s t × IsIn w laws expected.name running t)
        (sym (last1 ∙ last2 ∙ last3))
        (
          record {
            command = cmd;
            resolved = resolved;
            current = c';
            found = kept.same_config expected.name ∙ found';
            as_expected = update_required-AsExpected cmd expected c' settled;
            settled = settled;
          },
          ensure_service_state-IsIn w laws fuel expected.name running _ done3,
        )

  -- The configuration of a service of another name.
  abbrev config_frame : String → Frame w.State
  config_frame n = record {
    Same = λ s t. w.config n t ≡ w.config n s;
    same_refl = λ s. refl;
    same_trans = λ s t u st tu. tu ∙ st;
  }

  services-config :
      {A : Type 0} (n : String) (m : Action w.State ServiceError A)
      → Keeps (services_frame w laws) m
      → Keeps (config_frame n) m
  unfolding Keeps
  services-config n m keeps s = (keeps s).same_config n

  reconcile_service-config :
      (expected : Service) (n : String)
      → n ≢ expected.name
      → Keeps (config_frame n) (reconcile_service w i fuel expected.name expected)
  unfolding reconcile_service update_service
  reconcile_service-config expected n other =
      let ensure : (state : ServiceState)
          → Keeps (config_frame n) (ensure_service_state w fuel expected.name state) =
        λ state. services-config n _ (ensure_service_state-Keeps w laws fuel expected.name state) in
      bind-Keeps (config_frame n) _ _
        (reads-Keeps (config_frame n) config_error (w.config expected.name))
        (λ c.
          bind-Keeps (config_frame n) _ _
            (services-config n _ (expected_service_command-Keeps w i laws config expected))
            (λ cmd.
              bind-Keeps (config_frame n) _ _
                (skip_if-Keeps (config_frame n) _ _ (
                  bind-Keeps (config_frame n) _ _ (ensure stopped) (λ _.
                    acts-Keeps (config_frame n) update_config_error _
                      (λ s. config.others_updated expected.name n _ s other))))
                (λ _. ensure running)))

  prepare-config :
      (present : Bool) (expected : Service) (n : String)
      → n ≢ expected.name
      → Keeps (config_frame n) (prepare w i fuel present expected.name)
  unfolding prepare open_service
  prepare-config true expected n other =
      reads-Keeps (config_frame n) open_error (opens w expected.name)
  prepare-config false expected n other =
      acts-Keeps (config_frame n) create_error _
        (λ s. config.others_created expected.name n s other)

  reconcile_listed-config :
      (existing : List String) (expected : Service) (n : String)
      → n ≢ expected.name
      → Keeps (config_frame n) (reconcile_listed w i fuel existing expected)
  unfolding reconcile_listed
  reconcile_listed-config existing expected n other =
      bind-Keeps (config_frame n) _ _ (prepare-config _ expected n other)
        (λ _. reconcile_service-config expected n other)

  -- The state of the loop of reconcileServices in which it resolves the command of a service, behind the
  -- services before it.
  abbrev pub turn : List String → List Service → Service → w.State → w.State
  turn existing before expected s =
      (prepare w i fuel (any (λ n. n == expected.name) existing) expected.name
        (each (reconcile_listed w i fuel existing) before s).0).0

  prepare-CanSettle :
      (present : Bool) (expected : Service) (s : w.State)
      → CanSettle expected s
      → (prepare w i fuel present expected.name s).1 ≡ ok tt
      → CanSettle expected (prepare w i fuel present expected.name s).0
  unfolding prepare open_service acts reads
  prepare-CanSettle true expected s can done = record {
    commands = can.commands;
    cleared = can.cleared;
  }
  prepare-CanSettle false expected s can done = record {
    commands = can.commands;
    cleared = λ none_expected c found.
        config.created expected.name s c
          (elim (Bool-cases (w.create_service expected.name s).1) [
            | inl worked ↦ worked
            | inr failed ↦ absurd (ground (arith, rw failed at done))
          ])
          found;
  }

  reconcile_listed-Settled :
      (existing : List String) (expected : Service) (s : w.State)
      → CanSettle expected s
      → (reconcile_listed w i fuel existing expected s).1 ≡ ok tt
      → Settled expected
          (turn existing [] expected s)
          (reconcile_listed w i fuel existing expected s).0
  unfolding reconcile_listed each pure
  reconcile_listed-Settled existing expected s can done =
      let (_, prepared, rest, last) = bind-ok _ _ s tt done in
      let ready = prepare-CanSettle _ expected s can prepared in
      rw last (reconcile_service-Settled expected _ ready rest).0

  -- The rest of the loop leaves the configuration of the services before it.
  others-config :
      (existing : List String) (n : String) (services : List Service)
      → All (λ v. v.name ≢ n) services
      → Keeps (config_frame n) (each (reconcile_listed w i fuel existing) services)
  unfolding each
  others-config existing n [] others = pure-Keeps (config_frame n) _ tt
  others-config existing n (v ∷ vs) (other, others) =
      bind-Keeps (config_frame n) _ _ (reconcile_listed-config existing v n (λ e. other (sym e)))
        (λ _. others-config existing n vs others)

  -- How a service is left by reconcileServices: it stands behind the services before it, and is configured as
  -- expected, for the command that it resolved to in its turn.
  pub record Configured (services : List Service) (existing : List String) (start : w.State)
      (expected : Service) (s : w.State) : Type 0 where
    pub before : List Service
    pub after : List Service
    pub place : services ≡ list_append before (expected ∷ after)
    pub settled : Settled expected (turn existing before expected start) s

  each-Configured :
      (existing : List String) (services : List Service) (s : w.State)
      → IsDistinct (λ v. v.name) services
      → (each (reconcile_listed w i fuel existing) services s).1 ≡ ok tt
      → (expected : Service) → In expected services
      → CanSettle expected s
      → Configured services existing s expected
          (each (reconcile_listed w i fuel existing) services s).0
  unfolding each Keeps
  each-Configured existing [] s distinct done expected listed can = absurd listed
  each-Configured existing (v ∷ vs) s (others, distinct) done expected listed can =
      let (_, first, rest, last) = bind-ok _ _ s tt done in
      let s1 = (reconcile_listed w i fuel existing v s).0 in
      elim listed [
        | inr later ↦
            let differ : v.name ≢ expected.name =
              λ e. All→In (λ x. x.name ≢ v.name) expected vs others later (sym e) in
            let kept = reconcile_listed-config existing v expected.name (λ e. differ (sym e)) s in
            let can1 : CanSettle expected s1 = record {
              commands = can.commands;
              cleared = λ none_expected c found. can.cleared none_expected c (sym kept ∙ found);
            } in
            let there = each-Configured existing vs s1 distinct rest expected later can1 in
            let goes : (each (reconcile_listed w i fuel existing) (v ∷ there.before) s).0
                ≡ (each (reconcile_listed w i fuel existing) there.before s1).0 =
              ap (λ r. r.0)
                (bind-success (reconcile_listed w i fuel existing v)
                  (λ _. each (reconcile_listed w i fuel existing) there.before) s tt first) in
            let same : turn existing there.before expected s1
                ≡ turn existing (v ∷ there.before) expected s =
              ap
                (λ t. (prepare w i fuel (any (λ n. n == expected.name) existing) expected.name t).0)
                (sym goes) in
            record {
              before = v ∷ there.before;
              after = there.after;
              place = ap (λ l. v ∷ l) there.place;
              settled =
                  subst
                    (λ t.
                      Settled expected t (each (reconcile_listed w i fuel existing) (v ∷ vs) s).0)
                    same
                    (subst (Settled expected (turn existing there.before expected s1)) (sym last)
                      there.settled);
            }
        | inl same ↦
            let can' : CanSettle v s = subst (λ x. CanSettle x s) same can in
            let here = reconcile_listed-Settled existing v s can' first in
            let kept : Settled v (turn existing [] v s)
                (each (reconcile_listed w i fuel existing) vs s1).0 =
              record {
                command = here.command;
                resolved = here.resolved;
                current = here.current;
                found = others-config existing v.name vs others s1 ∙ here.found;
                as_expected = here.as_expected;
                settled = here.settled;
              } in
            record {
              before = [];
              after = vs;
              place = ap (λ x. x ∷ vs) (sym same);
              settled =
                  subst (λ t. Settled expected (turn existing [] expected s) t) (sym last)
                    (subst
                      (λ e.
                        Settled e (turn existing [] e s)
                          (each (reconcile_listed w i fuel existing) vs s1).0)
                      (sym same) kept);
            }
      ]

  -- If reconcileServices reports no error, and the names of the services differ, then behind it each service has
  -- the command that it resolved to in its turn of the loop, its description, and the dependencies that are
  -- expected, and no update of it is required, as updateRequired decides it. This is for a service whose command
  -- never resolves to the empty text, and that had no dependencies if it is expected to have none.
  pub reconcile_services-Configured :
      (services : List Service) (existing : List String) (s : w.State)
      → IsDistinct (λ v. v.name) services
      → get_services w s ≡ some existing
      → (reconcile_services w i fuel services s).1 ≡ ok tt
      → (expected : Service) → In expected services
      → CanSettle expected s
      → Configured services existing s expected (reconcile_services w i fuel services s).0
  unfolding reconcile_services
  reconcile_services-Configured services existing s distinct listing done expected listed can =
      let read =
        bind-success (reads list_error (get_services w))
          (λ names. each (reconcile_listed w i fuel names) services) s existing
          (reads_answered list_error (get_services w) s existing listing) in
      let unchanged = reads_unchanged list_error (get_services w) s in
      let loop = each (reconcile_listed w i fuel existing) services in
      let same : reconcile_services w i fuel services s ≡ loop s = read ∙ ap loop unchanged in
      subst (Configured services existing s expected) (ap (λ r. r.0) (sym same)) (
        each-Configured existing services s distinct (ap (λ r. r.1) (sym same) ∙ done) expected
          listed can)
