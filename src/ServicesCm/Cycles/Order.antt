-- ===== src/ServicesCm/Cycles/Order.antt =====
-- The lists of services that the search for cycles accepts for certain.
use windows_machine_config_o.Common.{
  ℕ, suc, String, ◌≡◌, refl, ◌≢◌, ◌⊎◌, inl, inr, Bool, true, false, none, some, List, [], ◌∷◌, Map,
  lookup, insert, elems, ok, length, ◌==◌, eq_iff, arith, In, if◌then◌else◌, lookup-insert,
  lookup-insert_ne, sym, subst, ◌∙◌, String-cases, All, Option-cases, Bool-cases, any, map,
}
use windows_machine_config_o.ServicesCm.Types.{Service}
use windows_machine_config_o.ServicesCm.Dependencies.{
  exhausted, scan, services_map, check_cycles, validate_cycles,
}

abbrev pub names : List Service → List String
names ss = map (λ s. s.name) ss

-- Each service depends, of the services in `managed`, only on those in `seen` and on those listed
-- before it.
abbrev pub DependsOnEarlier : List String → List String → List Service → Type 0
DependsOnEarlier managed seen [] = Unit
DependsOnEarlier managed seen (s ∷ ss) =
    ((d : String) → In d (elems s.dependencies) → In d managed → In d seen)
    × DependsOnEarlier managed (s.name ∷ seen) ss

abbrev mem : String → List String → Bool
mem k = any (λ j. j == k)

mem→In : (k : String) (ks : List String) → mem k ks ≡ true → In k ks
mem→In k [] e = cc
mem→In k (j ∷ ks) e = ground (arith, eq_iff j k, mem→In k ks)

In→mem : (k : String) (ks : List String) → In k ks → mem k ks ≡ true
In→mem k [] m = absurd m
In→mem k (j ∷ ks) m = ground (arith, eq_iff j k, In→mem k ks)

-- What the search has recorded: exactly the services in `done` are seen, and none is on the path.
abbrev IsDone : List String → Map Bool → Type 0
IsDone done state = (k : String) → lookup k state ≡ (if mem k done then some false else none)

lookup-services_map :
    (k : String) (ss : List Service) (m : Map Service) (s : Service)
    → lookup k (services_map m ss) ≡ some s
    → (lookup k m ≢ none) ⊎ In k (names ss)
unfolding services_map
lookup-services_map k [] m s e = inl (λ e'. cc)
lookup-services_map k (t ∷ ss) m s e = elim (lookup-services_map k ss (insert t.name t m) s e) [
  | inr i ↦ inr (inr i)
  | inl h ↦ elim (String-cases t.name k) [
    | inl same ↦ inr (inl (sym same))
    | inr other ↦ inl (λ e'. h (lookup-insert_ne t.name k t m other ∙ e'))
  ]
]

scan-exhausted :
    (m : Map Service) (state : Map Bool) (ds : List String)
    → ((d : String)
        → In d ds
        → (lookup d state ≡ some false) ⊎ ((lookup d state ≡ none) × (lookup d m ≡ none)))
    → scan m state ds ≡ exhausted
unfolding scan
scan-exhausted m state [] h = refl
scan-exhausted m state (d ∷ ds) h =
    let rest = scan-exhausted m state ds (λ d' i. h d' (inr i)) in
    elim (h d (inl refl)) [ inl f ↦ ground arith | inr (u, n) ↦ ground arith ]

module _ (m : Map Service) (managed : List String)
    (only : (d : String) → lookup d m ≢ none → In d managed) where
  -- A service whose managed dependencies are all done is searched to the end of its list.
  scan-IsDone :
      (s : Service) (done : List String) (state : Map Bool)
      → IsDone done state
      → In s.name managed
      → mem s.name done ≡ false
      → ((d : String) → In d (elems s.dependencies) → In d managed → In d done)
      → scan m (insert s.name true state) (elems s.dependencies) ≡ exhausted
  scan-IsDone s done state known own new before =
      scan-exhausted m (insert s.name true state) (elems s.dependencies) λ d i.
        elim (Bool-cases (mem d done)) [
          | inl old ↦
              inl (ground (arith, known d, lookup-insert s.name d true state, eq_iff s.name d))
          | inr absent ↦
              let stranger : ¬ In d managed =
                λ j. let e = In→mem d done (before d i j) in ground arith in
              let other : s.name ≢ d = λ e. stranger (subst (λ k. In k managed) e own) in
              inr (
                lookup-insert_ne s.name d true state other ∙ (rw (known d, absent)),
                elim (Option-cases (lookup d m)) [
                  | inl n ↦ n
                  | inr (t, e) ↦ absurd (stranger (only d (λ e'. ground arith)))
                ],
              )
        ]

  IsDone-seen :
      (k : String) (done : List String) (state : Map Bool)
      → IsDone done state
      → mem k done ≡ true
      → IsDone (k ∷ done) state
  IsDone-seen k done state known old j = ground (arith, known j, known k, eq_iff k j)

  IsDone-insert :
      (k : String) (done : List String) (state : Map Bool)
      → IsDone done state
      → IsDone (k ∷ done) (insert k false (insert k true state))
  IsDone-insert k done state known j = ground (
    arith,
    known j,
    eq_iff k j,
    lookup-insert k j false (insert k true state),
    lookup-insert k j true state,
  )

  check_cycles-ordered :
      (fuel : ℕ) (ss : List Service) (done : List String) (state : Map Bool)
      → IsDone done state
      → All (λ s. In s.name managed) ss
      → DependsOnEarlier managed done ss
      → check_cycles (suc fuel) m ss state ≡ ok tt
  unfolding check_cycles
  check_cycles-ordered fuel [] done state known own before = refl
  check_cycles-ordered fuel (s ∷ ss) done state known own before =
      elim (Bool-cases (mem s.name done)) [
        | inl old ↦
            let seen : lookup s.name state ≡ some false = known s.name ∙ (rw old) in
            rw (seen, check_cycles)
              (check_cycles-ordered fuel ss (s.name ∷ done) state
                (IsDone-seen s.name done state known old) own.1 before.1)
        | inr new ↦
            let unseen : lookup s.name state ≡ none = known s.name ∙ (rw new) in
            let end = scan-IsDone s done state known own.0 new before.0 in
            let rest =
              check_cycles-ordered fuel ss (s.name ∷ done)
                (insert s.name false (insert s.name true state))
                (IsDone-insert s.name done state known) own.1 before.1 in
            ground arith
      ]

In-names : (ss : List Service) → All (λ s. In s.name (names ss)) ss
In-names ss = go ss (λ k i. i)
  where
    go :
        (ts : List Service)
        → ((k : String) → In k (names ts) → In k (names ss))
        → All (λ s. In s.name (names ss)) ts
    go [] h = tt
    go (t ∷ ts) h = (h t.name (inl refl), go ts (λ k i. h k (inr i)))

-- A list of services in which each one depends, of the services on the list, only on earlier ones, is
-- accepted by the search for cycles. (Such a list has no cycle.)
pub validate_cycles-ordered :
    (services : List Service)
    → DependsOnEarlier (names services) [] services
    → validate_cycles services ≡ ok tt
unfolding validate_cycles lookup
validate_cycles-ordered services before =
    check_cycles-ordered (services_map [] services) (names services) only (length services) services
      [] [] (λ k. refl) (In-names services) before
  where
    only : (d : String) → lookup d (services_map [] services) ≢ none → In d (names services)
    only d h = elim (Option-cases (lookup d (services_map [] services))) [
      | inl n ↦ absurd (h n)
      | inr (s, e) ↦ elim (lookup-services_map d services [] s e) [
        | inl h' ↦ absurd (h' refl)
        | inr i ↦ i
      ]
    ]
