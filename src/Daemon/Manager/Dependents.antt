-- ===== src/Daemon/Manager/Dependents.antt =====
-- pkg/daemon/manager/manager.go: EnsureServiceState calls itself for the dependents of a service.
use windows_machine_config_o.Common.{
  ℕ, zero, suc, String, ◌≡◌, ◌≢◌, ◌<◌, sym, ◌∙◌, inl, inr, Bool, true, false, Option, some, List,
  In, err, arith, Option-cases,
}
use windows_machine_config_o.Common.Actions.{
  Action, Keeps, bind-Keeps, reads-Keeps, fail-Avoids, Avoids, bind-Avoids, each-Avoids,
  reads-Avoids, acts-Avoids, skip_if-Avoids, reads-some, reads, acts, each, ◌>>◌,
}
use windows_machine_config_o.Daemon.Manager.{
  WindowsApi, ServiceError, ServiceState, stopped, start_pending, stop_pending, running,
  continue_pending, pause_pending, paused, same_state, is_in_state, poll_immediate, wait_for_state,
  end_process, stop_process, change_state, stop_service_and_process, ensure_service_state,
  open_service, opens, polls, query_error, control_error, open_error, dependents_error, no_fuel,
}
use windows_machine_config_o.Daemon.Manager.States.{
  StableLaws, SameServices, services_frame, ensure_service_state-Keeps,
}

-- Each service has a higher rank than those that depend on it.
pub record Ranked (w : WindowsApi) (rank : String → ℕ) (s : w.State) : Type 0 where
  pub rank_lt :
      (n d : String) (ds : List String)
      → w.list_dependent_services n s ≡ some ds
      → In d ds
      → rank d < rank n

module _ (w : WindowsApi) where
  poll_immediate-Avoids :
      (e : ServiceError) (condition : w.State → Option Bool) (n : ℕ) (s : w.State)
      → e ≢ no_fuel
      → Avoids no_fuel (poll_immediate w.sleep e condition n) s
  unfolding poll_immediate Avoids
  poll_immediate-Avoids e condition zero s other h = elim (Option-cases (condition s)) [
    | inl c ↦ other (ground (arith, rw (c, poll_immediate) at h))
    | inr (true, c) ↦ absurd (ground (arith, rw (c, poll_immediate) at h))
    | inr (false, c) ↦ absurd (ground (arith, rw (c, poll_immediate) at h))
  ]
  poll_immediate-Avoids e condition (suc n) s other h = elim (Option-cases (condition s)) [
    | inl c ↦ other (ground (arith, rw (c, poll_immediate) at h))
    | inr (true, c) ↦ absurd (ground (arith, rw (c, poll_immediate) at h))
    | inr (false, c) ↦
        poll_immediate-Avoids e condition n (w.sleep s) other (rw (c, poll_immediate) at h)
  ]

  wait_for_state-Avoids :
      (name : String) (state : ServiceState) (s : w.State)
      → Avoids no_fuel (wait_for_state w name state) s
  unfolding wait_for_state
  wait_for_state-Avoids name state s =
      poll_immediate-Avoids query_error (is_in_state w name state) polls s
        (λ e. absurd (ground (arith, e)))

  end_process-Avoids : (id : ℕ) (s : w.State) → Avoids no_fuel (end_process w id) s
  unfolding end_process Avoids acts
  end_process-Avoids id s h = ground arith

  stop_process-Avoids :
      (name : String) (id : ℕ) (s : w.State) → Avoids no_fuel (stop_process w name id) s
  unfolding stop_process
  stop_process-Avoids name zero s =
      acts-Avoids no_fuel control_error (w.control_stop name) s (ground arith)
  stop_process-Avoids name (suc n) s =
      bind-Avoids no_fuel _ _ s (reads-Avoids no_fuel _ _ s (ground arith)) (λ _ _.
        bind-Avoids no_fuel _ _ _ (acts-Avoids no_fuel _ _ _ (ground arith))
          (λ _ _. end_process-Avoids (suc n) _))

  stop_service_and_process-Avoids :
      (name : String) (s : w.State) → Avoids no_fuel (stop_service_and_process w name) s
  unfolding stop_service_and_process
  stop_service_and_process-Avoids name s =
      bind-Avoids no_fuel _ _ s (reads-Avoids no_fuel _ _ s (ground arith))
        (λ status _. stop_process-Avoids name status.process_id _)

module _ (w : WindowsApi) (laws : StableLaws w) (rank : String → ℕ) where
  abbrev rank_same :
      (s t : w.State) → SameServices w laws.installed s t → Ranked w rank s → Ranked w rank t
  rank_same s t same ranked = record {
    rank_lt = λ n d ds listed. ranked.rank_lt n d ds (sym (same.same_dependents n) ∙ listed);
  }

  stop_dependent-Avoids :
      (stop : String → Action w.State ServiceError (Unit {0})) (name : String)
      (dependents : List String) (s : w.State)
      → ((n : String) → Keeps (services_frame w laws) (stop n))
      → ((n : String) (t : w.State) → In n dependents → Ranked w rank t → Avoids no_fuel (stop n) t)
      → Ranked w rank s
      → Avoids no_fuel (each (λ dependent. open_service w dependent >> stop dependent) dependents) s
  unfolding open_service reads Keeps
  stop_dependent-Avoids stop name dependents s keeps avoids ranked =
      each-Avoids no_fuel (Ranked w rank) _ dependents s
        (λ d t i r.
          bind-Avoids no_fuel (open_service w d) (λ _. stop d) t
            (reads-Avoids no_fuel open_error (opens w d) t (ground arith)) (λ _ _. avoids d t i r))
        (λ d t r.
          rank_same t _
            (bind-Keeps (services_frame w laws) (open_service w d) (λ _. stop d)
              (reads-Keeps (services_frame w laws) open_error (opens w d)) (λ _. keeps d) t)
            r)
        ranked

  change_state-Avoids :
      (stop : String → Action w.State ServiceError (Unit {0})) (name : String)
      (state : ServiceState) (s : w.State)
      → Ranked w rank s
      → ((n : String) → Keeps (services_frame w laws) (stop n))
      → ((n : String) (t : w.State)
          → rank n < rank name
          → Ranked w rank t
          → Avoids no_fuel (stop n) t)
      → Avoids no_fuel (change_state w stop name state) s
  unfolding change_state reads
  change_state-Avoids stop name running s ranked keeps avoids =
      bind-Avoids no_fuel _ _ s (acts-Avoids no_fuel _ _ s (ground arith))
        (λ _ _. wait_for_state-Avoids w name running _)
  change_state-Avoids stop name stopped s ranked keeps avoids =
      bind-Avoids no_fuel _ _ s (reads-Avoids no_fuel _ _ s (ground arith)) (λ dependents listed.
        let found =
          reads-some dependents_error (w.list_dependent_services name) s dependents listed in
        bind-Avoids no_fuel _ _ _
          (stop_dependent-Avoids stop name dependents s keeps
            (λ d t i. avoids d t (ranked.rank_lt name d dependents found i)) ranked)
          (λ _ _.
            bind-Avoids no_fuel _ _ _ (stop_service_and_process-Avoids w name _)
              (λ _ _. wait_for_state-Avoids w name stopped _)))
  change_state-Avoids stop name start_pending s ranked keeps avoids =
      fail-Avoids no_fuel _ _ s (ground arith)
  change_state-Avoids stop name stop_pending s ranked keeps avoids =
      fail-Avoids no_fuel _ _ s (ground arith)
  change_state-Avoids stop name continue_pending s ranked keeps avoids =
      fail-Avoids no_fuel _ _ s (ground arith)
  change_state-Avoids stop name pause_pending s ranked keeps avoids =
      fail-Avoids no_fuel _ _ s (ground arith)
  change_state-Avoids stop name paused s ranked keeps avoids =
      fail-Avoids no_fuel _ _ s (ground arith)

  ensure_service_state-Avoids :
      (fuel : ℕ) (name : String) (state : ServiceState) (s : w.State)
      → Ranked w rank s
      → rank name < fuel
      → Avoids no_fuel (ensure_service_state w fuel name state) s
  unfolding ensure_service_state reads
  ensure_service_state-Avoids zero name state s ranked enough = absurd (omega arith)
  ensure_service_state-Avoids (suc fuel) name state s ranked enough =
      bind-Avoids no_fuel _ _ s (reads-Avoids no_fuel _ _ s (ground arith)) (λ status _.
        skip_if-Avoids no_fuel (same_state status.state state) _ _ (
          change_state-Avoids _ name state _ ranked
            (λ n. ensure_service_state-Keeps w laws fuel n stopped)
            (λ n t lower r. ensure_service_state-Avoids fuel n stopped t r (omega arith))))

  -- Where the services that depend on a service have a lower rank than it, EnsureServiceState ends
  -- within as many nested calls as the rank of its service and one more.
  pub ensure_service_state-ne-no_fuel :
      (fuel : ℕ) (name : String) (state : ServiceState) (s : w.State)
      → Ranked w rank s
      → rank name < fuel
      → (ensure_service_state w fuel name state s).1 ≢ err no_fuel
  unfolding Avoids
  ensure_service_state-ne-no_fuel = ensure_service_state-Avoids
