-- ===== src/Daemon/Manager.antt =====
-- pkg/daemon/manager/manager.go and pkg/daemon/winsvc: the services of a Windows instance.
pub mod States
pub mod Dependents
pub mod Waiting
pub mod Removal
mod Tests
use windows_machine_config_o.Common.{
  ℕ, zero, suc, String, Bool, true, false, Option, none, some, List, [], ◌∷◌, ok, err, nat_eq, Map,
  Slice, not, values, if◌then◌else◌,
}
use mathlib.Core.Option
use windows_machine_config_o.Daemon.Cleanup.{put_items}
use windows_machine_config_o.Common.Actions.{Action, fail, reads, acts, each, skip_if, ◌>>=◌, ◌>>◌}

-- `svc.State`.
pub data ServiceState : Type 0 where
  stopped start_pending stop_pending running continue_pending pause_pending paused : ServiceState

abbrev pub same_state : ServiceState → ServiceState → Bool
same_state stopped stopped = true
same_state start_pending start_pending = true
same_state stop_pending stop_pending = true
same_state running running = true
same_state continue_pending continue_pending = true
same_state pause_pending pause_pending = true
same_state paused paused = true
same_state _ _ = false

-- What the code reads of `svc.Status`.
pub record Status : Type 0 where
  pub state : ServiceState
  pub process_id : ℕ

-- What the code reads or sets of `mgr.Config`.
pub record Config : Type 0 where
  pub binary_path_name : String
  pub description : String
  pub dependencies : Slice String

pub data Opening : Type 0 where
  opened does_not_exist not_opened : Opening

-- The calls of golang.org/x/sys/windows and its packages svc and svc/mgr. A handle of a service is the
-- name of the service, and each is of the type `*mgr.Service`; the handle of a process is its id. A call
-- that changes something answers whether there was no error.
pub record WindowsApi : Type 1 where
  pub State : Type 0
  pub list_services : State → Option (List String)
  pub open_service : String → State → Opening
  pub create_service : String → State → State × Bool
  pub delete : String → State → State × Bool
  pub query : String → State → Option Status
  pub config : String → State → Option Config
  pub update_config : String → Config → State → State × Bool
  pub list_dependent_services : String → State → Option (List String)
  pub start : String → State → State × Bool
  -- `Control(svc.Stop)`.
  pub control_stop : String → State → State × Bool
  pub open_process : ℕ → State → Bool
  pub get_exit_code_process : ℕ → State → Option ℕ
  pub terminate_process : ℕ → State → State × Bool
  -- The time between two calls of a condition that is polled.
  pub sleep : State → State

-- The errors of the manager, and of the controller that calls it.
pub data ServiceError : Type 0 where
  list_error open_error query_error config_error create_error start_error dependents_error :
      ServiceError
  open_process_error control_error exit_code_error terminate_error delete_error : ServiceError
  update_config_error timeout unexpected_state no_fuel : ServiceError
  node_error script_error : ServiceError
  bad_json_path missing_value too_many_results unexpected_type : (path : String) → ServiceError

-- `windows.STATUS_PENDING`, as an exit code.
abbrev pub status_pending : ℕ
status_pending = 259

-- How often a condition is polled behind the first time: `retry.ResourceChangeTimeout` is two minutes,
-- `retry.WindowsAPIInterval` five seconds.
abbrev pub polls : ℕ
polls = 24

module _ {S : Type 0} (sleep : S → S) (e : ServiceError) (condition : S → Option Bool) where
  -- `wait.PollImmediate`: at once, and then behind each interval.
  unfoldable pub poll_immediate : ℕ → Action S ServiceError (Unit {0})
  poll_immediate zero s = elim (condition s) [
    | none ↦ (s, err e)
    | some true ↦ (s, ok tt)
    | some false ↦ (s, err timeout)
  ]
  poll_immediate (suc n) s = elim (condition s) [
    | none ↦ (s, err e)
    | some true ↦ (s, ok tt)
    | some false ↦ poll_immediate n (sleep s)
  ]

module _ (w : WindowsApi) where
  open w use {
    State, list_services, delete, query, list_dependent_services, start, control_stop, open_process,
    get_exit_code_process, terminate_process, sleep,
  }

  abbrev pub is_in_state : String → ServiceState → State → Option Bool
  is_in_state name state s = Option.map (λ status. same_state status.state state) (query name s)

  abbrev pub has_exited : ℕ → State → Option Bool
  has_exited id s =
      Option.map (λ code. not (nat_eq code status_pending)) (get_exit_code_process id s)

  -- `WaitForState` of pkg/daemon/winsvc.
  unfoldable pub wait_for_state : String → ServiceState → Action State ServiceError (Unit {0})
  wait_for_state name state = poll_immediate sleep query_error (is_in_state name state) polls

  -- `waitForProcessToStop`.
  unfoldable pub wait_for_process_to_stop : ℕ → Action State ServiceError (Unit {0})
  wait_for_process_to_stop id = poll_immediate sleep exit_code_error (has_exited id) polls

  -- What `stopServiceAndProcess` does to the process behind the stop: it is terminated if it does not exit.
  unfoldable pub end_process : ℕ → Action State ServiceError (Unit {0})
  end_process id s = elim (wait_for_process_to_stop id s).1 [
    | ok _ ↦ ((wait_for_process_to_stop id s).0, ok tt)
    | err _ ↦ acts terminate_error (terminate_process id) (wait_for_process_to_stop id s).0
  ]

  abbrev pub opens_process : ℕ → State → Option (Unit {0})
  opens_process id s = if open_process id s then some tt else none

  -- `stopServiceAndProcess` once the process is known; the id 0 says that no process is running.
  unfoldable pub stop_process : String → ℕ → Action State ServiceError (Unit {0})
  stop_process name zero = acts control_error (control_stop name)
  stop_process name (suc n) = do
    reads open_process_error (opens_process (suc n))
    acts control_error (control_stop name)
    end_process (suc n)

  unfoldable pub stop_service_and_process : String → Action State ServiceError (Unit {0})
  stop_service_and_process name = do
    status ← reads query_error (query name)
    stop_process name status.process_id

  abbrev pub opens : String → State → Option (Unit {0})
  opens name s = elim (w.open_service name s) [
    | opened ↦ some tt
    | does_not_exist ↦ none
    | not_opened ↦ none
  ]

  -- `OpenService`, of which the handle is the name.
  unfoldable pub open_service : String → Action State ServiceError (Unit {0})
  open_service name = reads open_error (opens name)

  -- The change of a service to a state that it is not in. A service is stopped behind the services that
  -- depend on it, for which `stop` is called.
  unfoldable pub change_state :
      (String → Action State ServiceError (Unit {0}))
      → String
      → ServiceState
      → Action State ServiceError (Unit {0})
  change_state stop name running = do acts start_error (start name); wait_for_state name running
  change_state stop name stopped = do
    dependents ← reads dependents_error (list_dependent_services name)
    each (λ dependent. open_service dependent >> stop dependent) dependents
    stop_service_and_process name
    wait_for_state name stopped
  change_state stop name start_pending = fail unexpected_state
  change_state stop name stop_pending = fail unexpected_state
  change_state stop name continue_pending = fail unexpected_state
  change_state stop name pause_pending = fail unexpected_state
  change_state stop name paused = fail unexpected_state

  -- `EnsureServiceState`; `fuel` bounds the depth of its calls of itself.
  unfoldable pub ensure_service_state :
      ℕ → String → ServiceState → Action State ServiceError (Unit {0})
  ensure_service_state zero name state = fail no_fuel
  ensure_service_state (suc fuel) name state = do
    status ← reads query_error (query name)
    skip_if (same_state status.state state)
        (change_state (λ dependent. ensure_service_state fuel dependent stopped) name state)

  -- `DeleteService`.
  unfoldable pub delete_service : ℕ → String → Action State ServiceError (Unit {0})
  delete_service fuel name s = elim (w.open_service name s) [
    | does_not_exist ↦ (s, ok tt)
    | not_opened ↦ (s, err open_error)
    | opened ↦ (do ensure_service_state fuel name stopped; acts delete_error (delete name)) s
  ]

  -- `GetServices`, the keys of the map.
  unfoldable pub get_services : State → Option (List String)
  get_services s = Option.map (λ names. values (put_items names [])) (list_services s)
