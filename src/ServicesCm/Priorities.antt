-- ===== src/ServicesCm/Priorities.antt =====
-- pkg/servicescm/servicescm.go: `validatePriorities`, `validate` and `NewData`, with what a successful
-- validation guarantees.
pub mod Separation
pub mod Valid
use Prim.Native.Nat.{◌^◌}
use windows_machine_config_o.Common.{
  ℕ, String, ◌≡◌, Bool, true, false, Option, none, some, List, [], ◌∷◌, Map, Slice, Result, ok, err,
  ◌>>=◌, ◌>>◌, length, ltb, nat_eq, if◌then◌else◌, Sorter, ◌-◌,
}
use windows_machine_config_o.ServicesCm.Types.{Service, FileInfo, Data}
use windows_machine_config_o.ServicesCm.Dependencies.{
  Error, bootstrap_priority, controller_priority, validate_dependencies,
}

-- `services[i].Priority < services[j].Priority`.
abbrev pub less_priority : Service → Service → Bool
less_priority s t = ltb s.priority t.priority

-- `int(-1)`, as its 64-bit pattern. `int(svc.Priority)` keeps the pattern of a uint, so that patterns
-- are compared.
abbrev pub minus_one : ℕ
minus_one = 2 ^ 64 - 1

-- The loop of `validatePriorities`, with its variables.
unfoldable pub check_priorities : Bool → ℕ → List Service → Result Error (Unit {0})
check_priorities seen last [] = ok tt
check_priorities seen last (s ∷ ss) = elim s.bootstrap [
  | true ↦ elim seen [
    | true ↦ err (bootstrap_priority s.name)
    | false ↦ check_priorities false s.priority ss
  ]
  | false ↦ elim (nat_eq s.priority last) [
    | true ↦ err (controller_priority s.name)
    | false ↦ check_priorities true last ss
  ]
]

-- Bootstrap services first, if any: what `GetBootstrapServices` counts on.
unfoldable pub get_bootstrap_services : List Service → List Service
get_bootstrap_services [] = []
get_bootstrap_services (s ∷ ss) =
    let rest = get_bootstrap_services ss in if s.bootstrap then s ∷ rest else []

module _ (by_priority : Sorter less_priority) where
  -- The services are sorted in place, so the sorted slice is part of the answer.
  unfoldable pub validate_priorities : List Service → Result Error (List Service)
  unfolding check_priorities
  validate_priorities services = do
    let sorted = by_priority.sort services
    check_priorities false minus_one sorted
    ok sorted

  unfoldable pub validate : Data → Result Error Data
  unfolding validate_priorities
  validate d = do
    validate_dependencies d.services
    sorted ← validate_priorities d.services
    ok (record d { services = sorted })

  unfoldable pub new_data :
      List Service → List FileInfo → Map String → Slice String → Result Error Data
  unfolding validate
  new_data services files env_vars watched_env_vars = validate (record {
    services = services;
    files = files;
    environment_vars = if ltb 0 (length env_vars) then some env_vars else none;
    watched_environment_vars = watched_env_vars;
  })
