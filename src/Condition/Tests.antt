-- ===== src/Condition/Tests.antt =====
-- A cluster that answers each call, and the theorems at it.
use windows_machine_config_o.Common.{
  String, ◌≡◌, inr, ◌≢◌, refl, sym, ap, true, some, [], insert, delete, ltb, length, ok,
  if◌then◌else◌, arith, eq_iff,
}
use mathlib.Core.Option.{some-injective}
use windows_machine_config_o.Condition.{
  OperatorCondition, upgradeable, condition_true, validate, Cluster, Operator, wait, set,
  ensure_condition, mark_as_busy, mark_as_free,
}
use windows_machine_config_o.Condition.Agreement.{ClusterLaws, mark_as_free-validate}

-- OLM takes over what the spec says in each pause.
abbrev prompt : Cluster
prompt = record {
  State = OperatorCondition;
  get = λ s. some s;
  patch = λ cs s. (record { spec_conditions = cs; status_conditions = s.status_conditions }, true);
  pause =
      λ s. record { spec_conditions = s.spec_conditions; status_conditions = s.spec_conditions };
}

abbrev prompt_laws : ClusterLaws prompt
prompt_laws = record {
  spec_of = λ s. s.spec_conditions;
  get_spec = λ s cond e. sym (ap (λ c. c.spec_conditions) (some-injective _ _ e));
  patch_spec = λ cs s e. refl;
  failed_spec = λ cs s e. inr refl;
  pause_spec = λ s. refl;
}

abbrev operator_name : String
operator_name = "wmco"

abbrev fresh : Operator prompt
fresh = record { busy = []; state = record { spec_conditions = []; status_conditions = [] } }

abbrev busy : Operator prompt
busy = (mark_as_busy prompt operator_name "node" fresh).0

freed_ok : (mark_as_free prompt operator_name "node" busy).1 ≡ ok tt
unfolding mark_as_busy mark_as_free insert delete ensure_condition validate set wait
freed_ok = refl

managed : operator_name ≢ ""
managed e = ground (arith, (eq_iff "wmco" "").1 e)

mark_as_free-validate_example :
    let free = (mark_as_free prompt operator_name "node" busy).0 in
    (free.busy ≡ delete "node" busy.busy)
    × (if ltb 0 (length free.busy)
        then free.state ≡ busy.state
        else (validate free.state.spec_conditions upgradeable condition_true ≡ true))
mark_as_free-validate_example =
    mark_as_free-validate prompt prompt_laws operator_name "node" busy managed freed_ok
