-- ===== src/ServicesCm/Bootstrap.antt =====
-- What `GetBootstrapServices` answers of valid data.
use windows_machine_config_o.Common.{
  ◌≡◌, refl, inl, inr, true, false, List, [], ◌∷◌, arith, All, All→In, In→All, Bool-cases, IsSorted,
  ltb→le,
}
use windows_machine_config_o.ServicesCm.Types.{Service, Data}
use windows_machine_config_o.ServicesCm.Dependencies.{select}
use windows_machine_config_o.ServicesCm.Priorities.{less_priority, get_bootstrap_services}
use windows_machine_config_o.ServicesCm.Priorities.Separation.{IsSeparated}
use windows_machine_config_o.ServicesCm.Priorities.Valid.{IsValid}

select_none : (ss : List Service) → All (λ s. s.bootstrap ≡ false) ss → select true ss ≡ []
unfolding select
select_none [] h = refl
select_none (s ∷ ss) h = ground (arith, h.0, select_none ss h.1)

get_bootstrap_services-sorted :
    (ss : List Service)
    → IsSorted less_priority ss
    → IsSeparated ss
    → get_bootstrap_services ss ≡ select true ss
unfolding get_bootstrap_services select
get_bootstrap_services-sorted [] h sep = refl
get_bootstrap_services-sorted (s ∷ ss) h sep = elim (Bool-cases s.bootstrap) [
  | inl boot ↦
      let rest = get_bootstrap_services-sorted ss h.1 (λ b c i j. sep b c (inr i) (inr j)) in
      ground arith
  | inr control ↦
      let others =
        In→All (λ t. t.bootstrap ≡ false) ss
          (λ t i. elim (Bool-cases t.bootstrap) [
            | inl boot ↦
                let below = sep t s (inr i) (inl refl) boot control in
                let order =
                  ltb→le t.priority s.priority
                    (All→In (λ u. less_priority u s ≡ false) t ss h.0 i) in
                absurd (omega arith)
            | inr c ↦ c
          ]) in
      ground (arith, select_none ss others)
]

-- The loop of `GetBootstrapServices`, which stops at the first controller service, answers exactly the
-- bootstrap services of valid data, in their order.
get_bootstrap_services-select :
    (d : Data) → IsValid d → get_bootstrap_services d.services ≡ select true d.services
get_bootstrap_services-select d v = get_bootstrap_services-sorted d.services v.sorted v.separated
