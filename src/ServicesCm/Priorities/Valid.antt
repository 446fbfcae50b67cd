-- ===== src/ServicesCm/Priorities/Valid.antt =====
-- What `NewData` guarantees of the data that it answers, and what data it accepts.
use mathlib.Core.List.{Permᴰ}
use mathlib.Core.List.Permᴰ
use windows_machine_config_o.Common.{
  String, ◌≡◌, ◌≢◌, true, false, List, [], none, some, Map, Slice, ok, ltb, Sorter, IsSorted, arith,
  All, In-perm, length, Bool_deep_equal, if◌then◌else◌,
}
use windows_machine_config_o.ServicesCm.Types.{Service, FileInfo, Data}
use windows_machine_config_o.ServicesCm.Dependencies.{
  select, check_bootstrap, validate_dependencies,
}
use windows_machine_config_o.ServicesCm.Cycles.Order.{
  names, DependsOnEarlier, validate_cycles-ordered,
}
use windows_machine_config_o.ServicesCm.Priorities.{
  less_priority, minus_one, validate_priorities, new_data,
}
use windows_machine_config_o.ServicesCm.Independence.{IsIndependent, check_bootstrap-IsIndependent}
use windows_machine_config_o.ServicesCm.Priorities.Separation.{
  IsSeparated, validate_priorities_separates, IsSeparated-validate_priorities,
}

-- What holds of the data of a services ConfigMap.
pub record IsValid (d : Data) : Type 0 where
  pub sorted : IsSorted less_priority d.services
  pub separated : IsSeparated d.services
  pub independent : IsIndependent d.services

-- No controller service has the largest priority number that a uint has.
abbrev pub IsProper : List Service → Type 0
IsProper = All (λ t. t.bootstrap ≡ false → t.priority ≢ minus_one)

pub IsIndependent-perm : {xs ys : List Service} → Permᴰ xs ys → IsIndependent xs → IsIndependent ys
IsIndependent-perm p h b i boot =
    let (alone, apart) = h b (In-perm b (Permᴰ.symm p) i) boot in
    (alone, λ c j. apart c (In-perm c (Permᴰ.symm p) j))

pub IsSeparated-perm : {xs ys : List Service} → Permᴰ xs ys → IsSeparated xs → IsSeparated ys
IsSeparated-perm p h b c i j = h b c (In-perm b (Permᴰ.symm p) i) (In-perm c (Permᴰ.symm p) j)

module _ (by_priority : Sorter less_priority) (ss : List Service) (files : List FileInfo)
    (env_vars : Map String) (watched : Slice String) where
  abbrev pub built : Data
  built = record {
    services = by_priority.sort ss;
    files = files;
    environment_vars = if ltb 0 (length env_vars) then some env_vars else none;
    watched_environment_vars = watched;
  }

  -- A success of `NewData` passed each check.
  pub new_data_checks :
      (d : Data)
      → new_data by_priority ss files env_vars watched ≡ ok d
      → (d ≡ built)
        × (check_bootstrap (select false ss) (select true ss) ≡ ok tt)
        × (validate_priorities by_priority ss ≡ ok (by_priority.sort ss))
  unfolding new_data validate_dependencies
  new_data_checks d e = (ground arith, ground arith, ground arith)

  -- Data that `NewData` answers has its services sorted by priority, every bootstrap service at a lower
  -- priority number than every controller service, and no bootstrap service that takes a value from a
  -- node object or depends on a controller service. Its services are those given, each as often as given.
  pub new_data-IsValid :
      (d : Data)
      → new_data by_priority ss files env_vars watched ≡ ok d
      → IsValid d × Permᴰ d.services ss
  new_data-IsValid d e =
      let (same, independent, separated) = new_data_checks d e in
      let back = Permᴰ.symm (by_priority.sort-perm ss) in
      rw same (
        record {
          sorted = by_priority.sort-IsSorted ss;
          separated =
              IsSeparated-perm back (validate_priorities_separates by_priority ss separated);
          independent = IsIndependent-perm back ((check_bootstrap-IsIndependent ss).0 independent);
        },
        by_priority.sort-perm ss,
      )

  -- `NewData` accepts services that are separated and independent, each listed behind the services that it
  -- depends on, where no controller service has the largest priority number of a uint.
  pub new_data-ok :
      IsProper ss
      → IsSeparated ss
      → IsIndependent ss
      → DependsOnEarlier (names ss) [] ss
      → new_data by_priority ss files env_vars watched ≡ ok built
  unfolding new_data validate_dependencies
  new_data-ok proper separated independent ordered =
      let bootstrap = (check_bootstrap-IsIndependent ss).1 independent in
      let priorities = IsSeparated-validate_priorities by_priority ss proper separated in
      let cycles = validate_cycles-ordered ss ordered in ground arith
