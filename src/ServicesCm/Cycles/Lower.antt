-- ===== src/ServicesCm/Cycles/Lower.antt =====
-- Services sorted by priority, where each depends on services of lower priority numbers only, are listed
-- behind what they depend on.
use windows_machine_config_o.Common.{
  ◌<◌, String, ◌≡◌, refl, sym, ap, subst, ◌⊎◌, inl, inr, false, List, [], ◌∷◌, elems, ltb, arith,
  In, All→In, IsSorted, ltb→le,
}
use windows_machine_config_o.ServicesCm.Types.{Service}
use windows_machine_config_o.ServicesCm.Cycles.Order.{names, DependsOnEarlier}
use windows_machine_config_o.ServicesCm.Priorities.{less_priority}

-- Each service depends, of the services listed, only on services of lower priority numbers.
abbrev pub DependsOnLower : List Service → Type 0
DependsOnLower ss =
    (s t : Service) → In s ss → In t ss → In t.name (elems s.dependencies) → t.priority < s.priority

In-names :
    (d : String) (ss : List Service) → In d (names ss) → (t : Service) × In t ss × (t.name ≡ d)
In-names d [] i = absurd i
In-names d (s ∷ ss) i = elim i [
  | inl same ↦ (s, inl refl, sym same)
  | inr later ↦ let (t, j, e) = In-names d ss later in (t, inr j, e)
]

-- Sorted by priority, such services are listed behind those that they depend on.
pub DependsOnLower→Earlier :
    (all : List Service) (seen : List String) (ss : List Service)
    → DependsOnLower all
    → ((s : Service) → In s ss → In s all)
    → ((t : Service) → In t all → In t.name seen ⊎ In t ss)
    → IsSorted less_priority ss
    → DependsOnEarlier (names all) seen ss
DependsOnLower→Earlier all seen [] lower within covers h = tt
DependsOnLower→Earlier all seen (s ∷ ss) lower within covers h = (
  λ d i j.
      let (t, k, named) = In-names d all j in
      elim (covers t k) [
        | inl old ↦ subst (λ x. In x seen) named old
        | inr now ↦
            let needed : In t.name (elems s.dependencies) = rw named i in
            let below = lower s t (within s (inl refl)) k needed in
            elim now [
              | inl same ↦ absurd (omega (arith, ap (λ u. u.priority) same))
              | inr later ↦
                  let above = All→In (λ u. ltb u.priority s.priority ≡ false) t ss h.0 later in
                  absurd (omega (arith, ltb→le t.priority s.priority above))
            ]
      ],
  DependsOnLower→Earlier all (s.name ∷ seen) ss lower (λ t k. within t (inr k))
      (λ t k. elim (covers t k) [
        | inl old ↦ inl (inr old)
        | inr now ↦ elim now [
          | inl same ↦ inl (inl (ap (λ u. u.name) same))
          | inr later ↦ inr later
        ]
      ])
      h.1,
)
