-- ===== src/ServicesCm/Cycles/Fuel.antt =====
-- The search for cycles ends: each call of `hasCycle` marks one more managed service as seen.
use windows_machine_config_o.Common.{
  ℕ, zero, suc, ◌+◌, ◌≤◌, ◌<◌, String, ◌≡◌, refl, ◌≢◌, ◌⊎◌, inl, inr, Bool, true, false, none, some,
  List, [], ◌∷◌, Map, lookup, insert, elems, ok, err, length, eq_iff, arith, lookup-insert, All,
  Option-cases,
}
use windows_machine_config_o.ServicesCm.Types.{Service}
use windows_machine_config_o.ServicesCm.Dependencies.{
  cycle_fuel, Scan, on_path, descend, exhausted, scan, has_cycle, services_map, check_cycles,
  validate_cycles,
}

-- The managed services that the search has not entered.
unseen : Map Bool → Map Service → ℕ
unseen state [] = 0
unseen state ((k, s) ∷ m) =
    let rest = unseen state m in elim (lookup k state) [ none ↦ suc rest | some _ ↦ rest ]

unseen-le-length : (state : Map Bool) (m : Map Service) → unseen state m ≤ length m
unfolding unseen
unseen-le-length state [] = omega arith
unseen-le-length state ((k, s) ∷ m) = ground (arith, unseen-le-length state m)

unseen-insert-le :
    (k : String) (b : Bool) (state : Map Bool) (m : Map Service)
    → unseen (insert k b state) m ≤ unseen state m
unfolding unseen
unseen-insert-le k b state [] = omega arith
unseen-insert-le k b state ((j, s) ∷ m) =
    ground (arith, unseen-insert-le k b state m, lookup-insert k j b state, eq_iff k j)

unseen-insert-lt :
    (k : String) (b : Bool) (state : Map Bool) (m : Map Service) (s : Service)
    → lookup k state ≡ none
    → lookup k m ≡ some s
    → unseen (insert k b state) m < unseen state m
unfolding unseen lookup
unseen-insert-lt k b state [] s h e = cc
unseen-insert-lt k b state ((j, t) ∷ m) s h e = ground (
  arith,
  unseen-insert-le k b state m,
  unseen-insert-lt k b state m s h,
  lookup-insert k j b state,
  eq_iff k j,
  eq_iff j k,
)

-- `servicesMap[svc.Name] = &svc`.
abbrev pub IsKeyed : Map Service → Type 0
IsKeyed = All (λ e. e.1.name ≡ e.0)

pub name-of_lookup :
    (k : String) (m : Map Service) (s : Service) → IsKeyed m → lookup k m ≡ some s → s.name ≡ k
unfolding lookup
name-of_lookup k [] s h e = cc
name-of_lookup k ((j, t) ∷ m) s h e = ground (arith, eq_iff j k, name-of_lookup k m s h.1, h.0)

insert-IsKeyed : (s : Service) (m : Map Service) → IsKeyed m → IsKeyed (insert s.name s m)
unfolding insert
insert-IsKeyed s [] h = (refl, tt)
insert-IsKeyed s ((j, t) ∷ m) h = ground (arith, insert-IsKeyed s m h.1, h.0, h.1)

pub services_map-IsKeyed :
    (m : Map Service) (ss : List Service) → IsKeyed m → IsKeyed (services_map m ss)
unfolding services_map
services_map-IsKeyed m [] h = h
services_map-IsKeyed m (s ∷ ss) h =
    services_map-IsKeyed (insert s.name s m) ss (insert-IsKeyed s m h)

length-insert :
    (k : String) (s : Service) (m : Map Service) → length (insert k s m) ≤ suc (length m)
unfolding insert
length-insert k s [] = omega arith
length-insert k s ((j, t) ∷ m) = ground (arith, length-insert k s m)

length-services_map :
    (m : Map Service) (ss : List Service) → length (services_map m ss) ≤ length m + length ss
unfolding services_map
length-services_map m [] = omega arith
length-services_map m (s ∷ ss) =
    omega (arith, length-services_map (insert s.name s m) ss, length-insert s.name s m)

pub Scan-cases : (z : Scan) → (z ≡ on_path) ⊎ ((s : Service) × (z ≡ descend s)) ⊎ (z ≡ exhausted)
Scan-cases on_path = inl refl
Scan-cases (descend s) = inr (inl (s, refl))
Scan-cases exhausted = inr (inr refl)

-- The search goes on with a managed service that is not yet seen.
scan-descend :
    (m : Map Service) (state : Map Bool) (ds : List String) (s : Service)
    → scan m state ds ≡ descend s
    → (d : String) × (lookup d state ≡ none) × (lookup d m ≡ some s)
unfolding scan
scan-descend m state [] s e = cc
scan-descend m state (d ∷ ds) s e = elim (Option-cases (lookup d state)) [
  | inl u ↦ elim (Option-cases (lookup d m)) [
    | inl n ↦ scan-descend m state ds s (ground arith)
    | inr (t, f) ↦ (d, u, ground arith)
  ]
  | inr (true, p) ↦ absurd (ground arith)
  | inr (false, p) ↦ scan-descend m state ds s (ground arith)
]

-- With more fuel than there are unseen managed services, the search of one service answers.
has_cycle-total :
    (fuel : ℕ) (m : Map Service) (s : Service) (state : Map Bool)
    → IsKeyed m
    → unseen (insert s.name true state) m < fuel
    → (r : Bool × Map Bool) × (has_cycle fuel m s state ≡ ok r)
unfolding has_cycle
has_cycle-total zero m s state keyed h = absurd (omega arith)
has_cycle-total (suc fuel) m s state keyed h =
    let entered = insert s.name true state in
    elim (Scan-cases (scan m entered (elems s.dependencies))) [
      | inl e ↦ ((true, entered), rw (e, has_cycle))
      | inr (inl (next, e)) ↦
          let (d, fresh, managed) = scan-descend m entered (elems s.dependencies) next e in
          let named = name-of_lookup d m next keyed managed in
          let less = unseen-insert-lt d true entered m next fresh managed in
          rw (e, has_cycle) (has_cycle-total fuel m next entered keyed (rw named (omega arith)))
      | inr (inr e) ↦ ((false, insert s.name false entered), rw (e, has_cycle))
    ]

check_cycles-ne-cycle_fuel :
    (fuel : ℕ) (m : Map Service) (ss : List Service) (state : Map Bool)
    → IsKeyed m
    → length m < fuel
    → check_cycles fuel m ss state ≢ err cycle_fuel
unfolding check_cycles
check_cycles-ne-cycle_fuel fuel m [] state keyed h = λ e. cc
check_cycles-ne-cycle_fuel fuel m (s ∷ ss) state keyed h =
    elim (Option-cases (lookup s.name state)) [
      | inr (b, seen) ↦ rw (seen, check_cycles) (check_cycles-ne-cycle_fuel fuel m ss state keyed h)
      | inl fresh ↦
          let bound = unseen-le-length (insert s.name true state) m in
          let ((found, state'), e) = has_cycle-total fuel m s state keyed (omega arith) in
          let rest : check_cycles fuel m ss state' ≢ err cycle_fuel =
            check_cycles-ne-cycle_fuel fuel m ss state' keyed h in
          λ e'. rest (ground arith)
    ]

-- The bound on the search's rounds, one more than the number of services, is never met: the search for
-- cycles ends with the program's own answer on every list of services.
pub validate_cycles-ne-cycle_fuel :
    (services : List Service) → validate_cycles services ≢ err cycle_fuel
unfolding validate_cycles
validate_cycles-ne-cycle_fuel services =
    check_cycles-ne-cycle_fuel (suc (length services)) (services_map [] services) services []
      (services_map-IsKeyed [] services tt) (omega (arith, length-services_map [] services))
