-- ===== src/ServicesCm/Dependencies.antt =====
-- pkg/servicescm/servicescm.go: the errors of validation, and `validateDependencies` with the search
-- for cycles.
use windows_machine_config_o.Common.{
  ℕ, zero, suc, String, Bool, true, false, none, some, List, [], ◌∷◌, Map, lookup, insert, elems,
  Result, ok, err, ◌>>◌, keep, length, any, ltb, ◌==◌, deep_equal, Bool_deep_equal, if◌then◌else◌,
}
use windows_machine_config_o.ServicesCm.Types.{Service}

-- Each error of the package. `cycle_fuel` stands for no error of the program: it is what the search
-- for cycles would answer if its bound on rounds were too small.
pub data Error : Type 0 where
  bootstrap_node_variables bootstrap_dependency : (service : String) → Error
  cyclical_chain : (service : String) → Error
  cycle_fuel : Error
  bootstrap_priority controller_priority : (service : String) → Error
  key_count : Error
  missing_key : (key : String) → Error
  json_error : Error
  service_count file_count env_var_count watched_env_var_count : Error
  missing_service : (service : String) → Error
  missing_file : (path : String) → Error
  env_var_mismatch watched_env_var_mismatch : Error
  no_services_cm : Error
  api_error : Error

-- The two slices that `validateDependencies` splits the services into.
unfoldable pub select : Bool → List Service → List Service
unfolding keep
select b = keep (λ s. deep_equal s.bootstrap b)

-- The inner loop and the outer loop of `hasDependency`.
unfoldable pub has_dependency : Service → List Service → Bool
has_dependency s possible =
    any (λ dependency. any (λ p. dependency == p.name) possible) (elems s.dependencies)

-- The loop of `validateDependencies` over the bootstrap services.
unfoldable pub check_bootstrap : List Service → List Service → Result Error (Unit {0})
unfolding has_dependency
check_bootstrap controllers [] = ok tt
check_bootstrap controllers (s ∷ ss) =
    let rest = check_bootstrap controllers ss in
    if ltb 0 (length (elems s.node_variables_in_command))
    then err (bootstrap_node_variables s.name)
    else if has_dependency s controllers
    then err (bootstrap_dependency s.name)
    else rest

-- What the loop of `hasCycle` comes to: a dependency on the current path, the first dependency that is
-- managed and not yet seen (the loop returns what its search answers), or the end of the list.
pub data Scan : Type 0 where
  on_path : Scan
  descend : Service → Scan
  exhausted : Scan

unfoldable pub scan : Map Service → Map Bool → List String → Scan
scan services state [] = exhausted
scan services state (d ∷ ds) =
    let rest = scan services state ds in
    elim (lookup d state) [
      | some true ↦ on_path
      | some false ↦ rest
      | none ↦ elim (lookup d services) [ some s ↦ descend s | none ↦ rest ]
    ]

-- `hasCycle`, with fuel for the depth of its calls. The map `state` is shared by all calls.
unfoldable pub has_cycle : ℕ → Map Service → Service → Map Bool → Result Error (Bool × Map Bool)
unfolding scan
has_cycle zero services s state = err cycle_fuel
has_cycle (suc fuel) services s state =
    let entered = insert s.name true state in
    elim (scan services entered (elems s.dependencies)) [
      | on_path ↦ ok (true, entered)
      | descend next ↦ has_cycle fuel services next entered
      | exhausted ↦ ok (false, insert s.name false entered)
    ]

unfoldable pub services_map : Map Service → List Service → Map Service
services_map m [] = m
services_map m (s ∷ ss) = services_map (insert s.name s m) ss

-- The second loop of `validateCycles`.
unfoldable pub check_cycles : ℕ → Map Service → List Service → Map Bool → Result Error (Unit {0})
unfolding has_cycle
check_cycles fuel services [] state = ok tt
check_cycles fuel services (s ∷ ss) state = elim (lookup s.name state) [
  | some _ ↦ check_cycles fuel services ss state
  | none ↦ elim (has_cycle fuel services s state) [
    | err e ↦ err e
    | ok (true, state') ↦ err (cyclical_chain s.name)
    | ok (false, state') ↦ check_cycles fuel services ss state'
  ]
]

unfoldable pub validate_cycles : List Service → Result Error (Unit {0})
unfolding services_map check_cycles
validate_cycles services =
    check_cycles (suc (length services)) (services_map [] services) services []

unfoldable pub validate_dependencies : List Service → Result Error (Unit {0})
unfolding select check_bootstrap validate_cycles
validate_dependencies services =
    check_bootstrap (select false services) (select true services) >> validate_cycles services
