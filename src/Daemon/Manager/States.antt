-- ===== src/Daemon/Manager/States.antt =====
-- pkg/daemon/manager/manager.go: the state that a service is in behind EnsureServiceState, and what the
-- call leaves as it was.
use mathlib.Core.Option
use windows_machine_config_o.Common.{
  ℕ, zero, suc, String, ◌≡◌, ◌⊎◌, refl, ◌∙◌, inl, inr, Bool, true, false, Option, none, some, ok,
  arith, Option-cases, Bool-cases, Result-cases,
}
use windows_machine_config_o.Common.Actions.{
  Action, Frame, Keeps, bind-Keeps, each-Keeps, reads-Keeps, reads-some, acts-Keeps, fail-Keeps,
  bind-ok, pure, fail, reads, acts, skip_if, skip_if-Keeps,
}
use windows_machine_config_o.Daemon.Manager.{
  WindowsApi, Opening, opened, does_not_exist, not_opened, ServiceError, ServiceState, stopped,
  start_pending, stop_pending, running, continue_pending, pause_pending, paused, Status, same_state,
  is_in_state, has_exited, poll_immediate, wait_for_state, wait_for_process_to_stop, end_process,
  stop_process, change_state, stop_service_and_process, ensure_service_state, open_service, polls,
  query_error, exit_code_error, open_error, opens,
}

-- Which services there are, how each is configured, and which depend on it, stayed as it was.
pub record SameServices (w : WindowsApi) (installed : w.State → String → Bool) (s t : w.State)
    : Type 0 where
  pub same_installed : (n : String) → installed t n ≡ installed s n
  pub same_opening : (n : String) → w.open_service n t ≡ w.open_service n s
  pub same_config : (n : String) → w.config n t ≡ w.config n s
  pub same_dependents : (n : String) → w.list_dependent_services n t ≡ w.list_dependent_services n s

-- What Windows documents: which services are installed and how they are configured does not change as
-- services start and stop, processes end and time passes.
pub record StableLaws (w : WindowsApi) : Type 0 where
  pub installed : w.State → String → Bool
  pub stays_started : (n : String) (s : w.State) → SameServices w installed s (w.start n s).0
  pub stays_stopped : (n : String) (s : w.State) → SameServices w installed s (w.control_stop n s).0
  pub stays_terminated :
      (id : ℕ) (s : w.State) → SameServices w installed s (w.terminate_process id s).0
  pub stays_asleep : (s : w.State) → SameServices w installed s (w.sleep s)

module _ (w : WindowsApi) (laws : StableLaws w) where
  abbrev pub services_frame : Frame w.State
  services_frame = record {
    Same = SameServices w laws.installed;
    same_refl = λ s. record {
      same_installed = λ n. refl;
      same_opening = λ n. refl;
      same_config = λ n. refl;
      same_dependents = λ n. refl;
    };
    same_trans = λ s t u st tu. record {
      same_installed = λ n. tu.same_installed n ∙ st.same_installed n;
      same_opening = λ n. tu.same_opening n ∙ st.same_opening n;
      same_config = λ n. tu.same_config n ∙ st.same_config n;
      same_dependents = λ n. tu.same_dependents n ∙ st.same_dependents n;
    };
  }

  poll_immediate-Keeps :
      (e : ServiceError) (condition : w.State → Option Bool) (n : ℕ)
      → Keeps services_frame (poll_immediate w.sleep e condition n)
  unfolding poll_immediate Keeps
  poll_immediate-Keeps e condition zero s = elim (Option-cases (condition s)) [
    | inl h ↦ rw (h, poll_immediate) (services_frame.same_refl s)
    | inr (true, h) ↦ rw (h, poll_immediate) (services_frame.same_refl s)
    | inr (false, h) ↦ rw (h, poll_immediate) (services_frame.same_refl s)
  ]
  poll_immediate-Keeps e condition (suc n) s = elim (Option-cases (condition s)) [
    | inl h ↦ rw (h, poll_immediate) (services_frame.same_refl s)
    | inr (true, h) ↦ rw (h, poll_immediate) (services_frame.same_refl s)
    | inr (false, h) ↦
        rw (h, poll_immediate)
          (services_frame.same_trans s (w.sleep s) _ (laws.stays_asleep s)
            (poll_immediate-Keeps e condition n (w.sleep s)))
  ]

  wait_for_state-Keeps :
      (name : String) (state : ServiceState) → Keeps services_frame (wait_for_state w name state)
  unfolding wait_for_state
  wait_for_state-Keeps name state =
      poll_immediate-Keeps query_error (is_in_state w name state) polls

  end_process-Keeps : (id : ℕ) → Keeps services_frame (end_process w id)
  unfolding end_process wait_for_process_to_stop Keeps acts
  end_process-Keeps id s =
      let waited = poll_immediate-Keeps exit_code_error (has_exited w id) polls s in
      elim (Result-cases (wait_for_process_to_stop w id s).1) [
        | inl (_, h) ↦ rw (h, end_process) waited
        | inr (_, h) ↦
            rw (h, end_process)
              (services_frame.same_trans s (wait_for_process_to_stop w id s).0 _ waited
                (laws.stays_terminated id (wait_for_process_to_stop w id s).0))
      ]

  stop_process-Keeps : (name : String) (id : ℕ) → Keeps services_frame (stop_process w name id)
  unfolding stop_process
  stop_process-Keeps name zero = acts-Keeps services_frame _ _ (laws.stays_stopped name)
  stop_process-Keeps name (suc n) =
      bind-Keeps services_frame _ _ (reads-Keeps services_frame _ _) (λ _.
        bind-Keeps services_frame _ _ (acts-Keeps services_frame _ _ (laws.stays_stopped name))
          (λ _. end_process-Keeps (suc n)))

  stop_service_and_process-Keeps :
      (name : String) → Keeps services_frame (stop_service_and_process w name)
  unfolding stop_service_and_process
  stop_service_and_process-Keeps name =
      bind-Keeps services_frame _ _ (reads-Keeps services_frame _ _)
        (λ status. stop_process-Keeps name status.process_id)

  open_service-Keeps : (name : String) → Keeps services_frame (open_service w name)
  unfolding open_service
  open_service-Keeps name = reads-Keeps services_frame open_error (opens w name)

  change_state-Keeps :
      (stop : String → Action w.State ServiceError (Unit {0})) (name : String)
      (state : ServiceState)
      → ((n : String) → Keeps services_frame (stop n))
      → Keeps services_frame (change_state w stop name state)
  unfolding change_state
  change_state-Keeps stop name running keeps =
      bind-Keeps services_frame _ _ (acts-Keeps services_frame _ _ (laws.stays_started name))
        (λ _. wait_for_state-Keeps name running)
  change_state-Keeps stop name stopped keeps =
      bind-Keeps services_frame _ _ (reads-Keeps services_frame _ _) (λ dependents.
        bind-Keeps services_frame _ _
          (each-Keeps services_frame _ dependents
            (λ n. bind-Keeps services_frame _ _ (open_service-Keeps n) (λ _. keeps n)))
          (λ _.
            bind-Keeps services_frame _ _ (stop_service_and_process-Keeps name)
              (λ _. wait_for_state-Keeps name stopped)))
  change_state-Keeps stop name start_pending keeps = fail-Keeps services_frame _ _
  change_state-Keeps stop name stop_pending keeps = fail-Keeps services_frame _ _
  change_state-Keeps stop name continue_pending keeps = fail-Keeps services_frame _ _
  change_state-Keeps stop name pause_pending keeps = fail-Keeps services_frame _ _
  change_state-Keeps stop name paused keeps = fail-Keeps services_frame _ _

  -- EnsureServiceState leaves which services are installed, their configuration and which depend on
  -- which as they were, also where it reports an error.
  pub ensure_service_state-Keeps :
      (fuel : ℕ) (name : String) (state : ServiceState)
      → Keeps services_frame (ensure_service_state w fuel name state)
  unfolding ensure_service_state
  ensure_service_state-Keeps zero name state = fail-Keeps services_frame _ _
  ensure_service_state-Keeps (suc fuel) name state =
      bind-Keeps services_frame _ _ (reads-Keeps services_frame _ _) (λ status.
        skip_if-Keeps services_frame (same_state status.state state) _
          (change_state-Keeps _ name state (λ n. ensure_service_state-Keeps fuel n stopped)))

  -- Behind a poll that reports no error the condition holds.
  poll_immediate-ok :
      (e : ServiceError) (condition : w.State → Option Bool) (n : ℕ) (s : w.State)
      → (poll_immediate w.sleep e condition n s).1 ≡ ok tt
      → condition (poll_immediate w.sleep e condition n s).0 ≡ some true
  unfolding poll_immediate
  poll_immediate-ok e condition zero s done = elim (Option-cases (condition s)) [
    | inr (true, h) ↦ rw (h, poll_immediate) h
    | inl h ↦ absurd (ground (arith, rw (h, poll_immediate) at done))
    | inr (false, h) ↦ absurd (ground (arith, rw (h, poll_immediate) at done))
  ]
  poll_immediate-ok e condition (suc n) s done = elim (Option-cases (condition s)) [
    | inl h ↦ absurd (ground (arith, rw (h, poll_immediate) at done))
    | inr (true, h) ↦ rw (h, poll_immediate) h
    | inr (false, h) ↦
        let later = poll_immediate-ok e condition n (w.sleep s) (rw (h, poll_immediate) at done) in
        rw (h, poll_immediate) later
  ]

  abbrev pub IsIn : String → ServiceState → w.State → Type 0
  IsIn name state s = (status : Status) × (w.query name s ≡ some status) × (status.state ≡ state)

  same_state_eq : (a b : ServiceState) → same_state a b ≡ true → a ≡ b
  same_state_eq a b e = ground arith

  map-some :
      (f : Status → Bool) (o : Option Status)
      → Option.map f o ≡ some true
      → (status : Status) × (o ≡ some status) × (f status ≡ true)
  map-some f none e = absurd (ground arith)
  map-some f (some status) e = (status, refl, ground arith)

  wait_for_state-IsIn :
      (name : String) (state : ServiceState) (s : w.State)
      → (wait_for_state w name state s).1 ≡ ok tt
      → IsIn name state (wait_for_state w name state s).0
  unfolding wait_for_state
  wait_for_state-IsIn name state s done =
      let (status, found, same) =
        map-some (λ status. same_state status.state state) _
          (poll_immediate-ok query_error (is_in_state w name state) polls s done) in
      (status, found, same_state_eq status.state state same)

  change_state-IsIn :
      (stop : String → Action w.State ServiceError (Unit {0})) (name : String)
      (state : ServiceState) (s : w.State)
      → (change_state w stop name state s).1 ≡ ok tt
      → IsIn name state (change_state w stop name state s).0
  unfolding change_state fail
  change_state-IsIn stop name running s done =
      let (_, _, waited, last) = bind-ok _ _ s tt done in
      rw last (wait_for_state-IsIn name running _ waited)
  change_state-IsIn stop name stopped s done =
      let (dependents, _, done1, last1) = bind-ok _ _ s tt done in
      let (_, _, done2, last2) = bind-ok _ _ _ tt done1 in
      let (_, _, waited, last3) = bind-ok _ _ _ tt done2 in
      rw (last1 ∙ last2 ∙ last3) (wait_for_state-IsIn name stopped _ waited)
  change_state-IsIn stop name start_pending s done = absurd (ground arith)
  change_state-IsIn stop name stop_pending s done = absurd (ground arith)
  change_state-IsIn stop name continue_pending s done = absurd (ground arith)
  change_state-IsIn stop name pause_pending s done = absurd (ground arith)
  change_state-IsIn stop name paused s done = absurd (ground arith)

  -- Behind an EnsureServiceState that reports no error the service can be queried and is in the state.
  pub ensure_service_state-IsIn :
      (fuel : ℕ) (name : String) (state : ServiceState) (s : w.State)
      → (ensure_service_state w fuel name state s).1 ≡ ok tt
      → IsIn name state (ensure_service_state w fuel name state s).0
  unfolding ensure_service_state skip_if fail reads pure
  ensure_service_state-IsIn zero name state s done = absurd (ground arith)
  ensure_service_state-IsIn (suc fuel) name state s done =
      let (status, read, rest, last) = bind-ok _ _ s tt done in
      elim (Bool-cases (same_state status.state state)) [
        | inl there ↦
            rw (last, skip_if, there)
              (
                status,
                reads-some query_error (w.query name) s status read,
                same_state_eq status.state state there,
              )
        | inr other ↦
            let done' = rw (other, skip_if) at rest in
            rw (last, skip_if, other) (change_state-IsIn _ name state s done')
      ]

pub opening-cases : (o : Opening) → (o ≡ does_not_exist) ⊎ ((o ≡ not_opened) ⊎ (o ≡ opened))
opening-cases does_not_exist = inl refl
opening-cases not_opened = inr (inl refl)
opening-cases opened = inr (inr refl)
