-- ===== src/ServicesCm/Cycles/Gaps.antt =====
-- Where the search for cycles of pkg/servicescm/servicescm.go differs from its comment: `hasCycle`
-- returns what the first unseen dependency answers, so that it neither looks at the dependencies behind
-- that one nor takes the service off the current path.
use windows_machine_config_o.Common.{
  ◌≡◌, ◌≢◌, [], ◌∷◌, elems, ok, err, arith, lookup, insert, eq_iff,
}
use windows_machine_config_o.ServicesCm.Types.{Service}
use windows_machine_config_o.ServicesCm.Dependencies.{cyclical_chain, validate_cycles}

module _ (a b c : Service) (a≢b : a.name ≢ b.name) (a≢c : a.name ≢ c.name)
    (b≢c : b.name ≢ c.name) where
  -- For three services of different names, where `a` depends on `c`, `c` on `b` and on `a`, and `b` on
  -- nothing: `a` and `c` are on a cycle, and the list is accepted.
  pub validate_cycles_misses_cycle :
      elems a.dependencies ≡ c.name ∷ []
      → elems b.dependencies ≡ []
      → elems c.dependencies ≡ b.name ∷ a.name ∷ []
      → validate_cycles (a ∷ b ∷ c ∷ []) ≡ ok tt
  unfolding validate_cycles lookup insert
  validate_cycles_misses_cycle ea eb ec = ground (
    arith,
    eq_iff a.name b.name,
    eq_iff a.name c.name,
    eq_iff b.name a.name,
    eq_iff b.name c.name,
    eq_iff c.name a.name,
    eq_iff c.name b.name,
    eq_iff a.name a.name,
    eq_iff b.name b.name,
    eq_iff c.name c.name,
  )

  -- For three services of different names, where `a` depends on `b`, `b` on nothing and `c` on `a`: there
  -- is no cycle, and the list is refused, with `c` named as the service on a cycle.
  pub validate_cycles_false_alarm :
      elems a.dependencies ≡ b.name ∷ []
      → elems b.dependencies ≡ []
      → elems c.dependencies ≡ a.name ∷ []
      → validate_cycles (a ∷ b ∷ c ∷ []) ≡ err (cyclical_chain c.name)
  unfolding validate_cycles lookup insert
  validate_cycles_false_alarm ea eb ec = ground (
    arith,
    eq_iff a.name b.name,
    eq_iff a.name c.name,
    eq_iff b.name a.name,
    eq_iff b.name c.name,
    eq_iff c.name a.name,
    eq_iff c.name b.name,
    eq_iff a.name a.name,
    eq_iff b.name b.name,
    eq_iff c.name c.name,
  )
