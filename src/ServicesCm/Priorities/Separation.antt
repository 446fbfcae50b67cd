-- ===== src/ServicesCm/Priorities/Separation.antt =====
-- `validatePriorities` accepts a list exactly if the priorities of its bootstrap services are below those
-- of its controller services.
use windows_machine_config_o.Common.{
  ℕ, ◌≤◌, ◌<◌, ◌≡◌, refl, ◌≢◌, inl, inr, true, false, List, [], ◌∷◌, ok, Sorter, IsSorted, arith,
  In, All, In-perm, All-perm, All→In, In→All, All-map, Bool-cases, ltb→le,
}
use mathlib.Core.List.{Permᴰ}
use mathlib.Core.List.Permᴰ
use windows_machine_config_o.ServicesCm.Types.{Service}
use windows_machine_config_o.ServicesCm.Priorities.{
  less_priority, minus_one, check_priorities, validate_priorities,
}

-- Every bootstrap service has a lower priority number than every controller service.
abbrev pub IsSeparated : List Service → Type 0
IsSeparated ss =
    (b c : Service)
    → In b ss
    → In c ss
    → b.bootstrap ≡ true
    → c.bootstrap ≡ false
    → b.priority < c.priority

abbrev Above : ℕ → List Service → Type 0
Above n = All (λ t. t.bootstrap ≡ false → n < t.priority)

at_least :
    (s : Service) (ss : List Service)
    → IsSorted less_priority (s ∷ ss)
    → All (λ t. s.priority ≤ t.priority) ss
at_least s ss h = All-map _ _ ss (λ t e. ltb→le t.priority s.priority e) h.0

-- After a controller service no bootstrap service is accepted.
check_priorities-seen :
    (last : ℕ) (ss : List Service)
    → check_priorities true last ss ≡ ok tt
    → All (λ t. t.bootstrap ≡ false) ss
unfolding check_priorities
check_priorities-seen last [] e = tt
check_priorities-seen last (s ∷ ss) e = elim (Bool-cases s.bootstrap) [
  | inl b ↦ absurd (ground arith)
  | inr c ↦ (c, check_priorities-seen last ss (ground arith))
]

check_priorities-Above :
    (last : ℕ) (ss : List Service)
    → check_priorities false last ss ≡ ok tt
    → IsSorted less_priority ss
    → All (λ t. last ≤ t.priority) ss
    → Above last ss
unfolding check_priorities
check_priorities-Above last [] e h low = tt
check_priorities-Above last (s ∷ ss) e h low = elim (Bool-cases s.bootstrap) [
  | inl b ↦
      let rest = check_priorities-Above s.priority ss (ground arith) h.1 (at_least s ss h) in
      (λ c. cc, All-map _ _ ss (λ t above c. omega (arith, above c, low.0)) rest)
  | inr c ↦
      let first : last < s.priority = ground (arith, low.0) in
      (λ _. first, All-map _ _ ss (λ t le _. omega arith) (at_least s ss h))
]

check_priorities-IsSeparated :
    (last : ℕ) (ss : List Service)
    → check_priorities false last ss ≡ ok tt
    → IsSorted less_priority ss
    → IsSeparated ss
unfolding check_priorities
check_priorities-IsSeparated last [] e h b c ib ic eb ec = absurd ib
check_priorities-IsSeparated last (s ∷ ss) e h b c ib ic eb ec = elim (Bool-cases s.bootstrap) [
  | inl boot ↦ elim ic [
    | inl same ↦ absurd (ground arith)
    | inr tail_c ↦ elim ib [
      | inl same ↦
          let above = check_priorities-Above s.priority ss (ground arith) h.1 (at_least s ss h) in
          rw same (All→In (λ t. t.bootstrap ≡ false → s.priority < t.priority) c ss above tail_c ec)
      | inr tail_b ↦
          check_priorities-IsSeparated s.priority ss (ground arith) h.1 b c tail_b tail_c eb ec
    ]
  ]
  | inr control ↦ elim ib [
    | inl same ↦ absurd (ground arith)
    | inr tail_b ↦
        let none_left = check_priorities-seen last ss (ground arith) in
        absurd (ground (arith, All→In (λ t. t.bootstrap ≡ false) b ss none_left tail_b))
  ]
]

abbrev Differs : ℕ → List Service → Type 0
Differs n = All (λ t. t.bootstrap ≡ false → t.priority ≢ n)

check_priorities_controllers :
    (last : ℕ) (ss : List Service)
    → All (λ t. t.bootstrap ≡ false) ss
    → Differs last ss
    → check_priorities true last ss ≡ ok tt
unfolding check_priorities
check_priorities_controllers last [] c d = refl
check_priorities_controllers last (s ∷ ss) c d =
    ground (arith, c.0, d.0 c.0, check_priorities_controllers last ss c.1 d.1)

IsSeparated-check_priorities :
    (last : ℕ) (ss : List Service)
    → IsSorted less_priority ss
    → IsSeparated ss
    → Differs last ss
    → check_priorities false last ss ≡ ok tt
unfolding check_priorities
IsSeparated-check_priorities last [] h sep d = refl
IsSeparated-check_priorities last (s ∷ ss) h sep d = elim (Bool-cases s.bootstrap) [
  | inl boot ↦
      let differs =
        In→All (λ t. t.bootstrap ≡ false → t.priority ≢ s.priority) ss
          (λ t i c. omega (arith, sep s t (inl refl) (inr i) boot c)) in
      let rest =
        IsSeparated-check_priorities s.priority ss h.1 (λ b c ib ic. sep b c (inr ib) (inr ic))
          differs in
      ground arith
  | inr control ↦
      let controllers =
        In→All (λ t. t.bootstrap ≡ false) ss
          (λ t i. elim (Bool-cases t.bootstrap) [
            | inr c ↦ c
            | inl b ↦ absurd (
                omega (
                  arith,
                  sep t s (inr i) (inl refl) b control,
                  All→In (λ u. s.priority ≤ u.priority) t ss (at_least s ss h) i,
                ))
          ]) in
      ground (arith, d.0 control, check_priorities_controllers last ss controllers d.1)
]

module _ (by_priority : Sorter less_priority) (ss : List Service) where
  abbrev sorted : List Service
  sorted = by_priority.sort ss

  forth : Permᴰ sorted ss
  forth = by_priority.sort-perm ss

  back : Permᴰ ss sorted
  back = Permᴰ.symm forth

  pub validate_priorities_separates :
      validate_priorities by_priority ss ≡ ok sorted → IsSeparated ss
  unfolding validate_priorities
  validate_priorities_separates e b c ib ic =
      let checked : check_priorities false minus_one sorted ≡ ok tt = ground arith in
      check_priorities-IsSeparated minus_one sorted checked (by_priority.sort-IsSorted ss) b c
        (In-perm b back ib) (In-perm c back ic)

  pub IsSeparated-validate_priorities :
      All (λ t. t.bootstrap ≡ false → t.priority ≢ minus_one) ss
      → IsSeparated ss
      → validate_priorities by_priority ss ≡ ok sorted
  unfolding validate_priorities
  IsSeparated-validate_priorities proper sep =
      let differs = All-perm (λ t. t.bootstrap ≡ false → t.priority ≢ minus_one) back proper in
      let checked =
        IsSeparated-check_priorities minus_one sorted (by_priority.sort-IsSorted ss)
          (λ b c ib ic. sep b c (In-perm b forth ib) (In-perm c forth ic)) differs in
      ground arith
