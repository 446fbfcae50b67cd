-- ===== src/Condition.antt =====
-- pkg/condition/condition.go: the set of busy controllers, and the Upgradeable condition that follows it.
pub mod Agreement
mod Tests
use windows_machine_config_o.Common.{
  ℕ, zero, suc, String, Bool, true, false, Option, none, some, List, [], ◌∷◌, Map, insert, delete,
  ltb, length, Result, ok, err, ◌==◌, if◌then◌else◌,
}

-- `meta.Condition`, of which the code reads the type and the status.
pub record Condition : Type 0 where
  pub kind : String
  pub status : String
  pub reason : String
  pub message : String

pub record OperatorCondition : Type 0 where
  pub spec_conditions : List Condition
  pub status_conditions : List Condition

abbrev pub upgradeable : String
upgradeable = "Upgradeable"

abbrev pub condition_true : String
condition_true = "True"

abbrev pub condition_false : String
condition_false = "False"

-- The first condition of the type decides.
unfoldable pub validate : List Condition → String → String → Bool
validate [] kind expected = false
validate (c ∷ cs) kind expected =
    let rest = validate cs kind expected in if c.kind == kind then c.status == expected else rest

-- The cluster: the calls of the client, and what passes between two of them.
pub record Cluster : Type 1 where
  pub State : Type 0
  pub get : State → Option OperatorCondition
  -- The patch that replaces `/spec/conditions`, and whether it was applied.
  pub patch : List Condition → State → State × Bool
  -- An interval of `retry.Interval`, in which the operator lifecycle manager acts.
  pub pause : State → State

pub data Error : Type 0 where
  get_error patch_error timed_out : Error

-- The polls of `wait`: `retry.ResourceChangeTimeout` in steps of `retry.Interval`.
abbrev pub polls : ℕ
polls = 8

-- `busyControllers`, and the cluster.
pub record Operator (c : Cluster) : Type 0 where
  pub busy : Map (Unit {0})
  pub state : c.State

module _ (c : Cluster) where
  open c use {State, get, patch, pause}

  -- `kubeWait.Poll` waits before each call.
  unfoldable pub wait : ℕ → String → String → State → State × Result Error (Unit {0})
  unfolding validate
  wait zero kind expected s = (s, err timed_out)
  wait (suc n) kind expected s =
      let rest = wait n kind expected (pause s) in
      elim (get (pause s)) [
        | none ↦ (pause s, err get_error)
        | some cond ↦
            if validate cond.status_conditions kind expected then (pause s, ok tt) else rest
      ]

  unfoldable pub set : Condition → State → State × Result Error (Unit {0})
  unfolding wait
  set new s =
      let (s', applied) = patch (new ∷ []) s in
      if applied then wait polls new.kind new.status s' else (s', err patch_error)

  abbrev pub safe : Condition
  safe = record {
    kind = upgradeable;
    status = condition_true;
    reason = "upgradeIsSafe";
    message = "The operator is safe for upgrade";
  }

  abbrev pub unsafe : Condition
  unsafe = record {
    kind = upgradeable;
    status = condition_false;
    reason = "upgradeIsNotSafe";
    message =
        "The operator is currently processing sub-components. At least one controller is busy.";
  }

  -- What both calls do behind the change of the set.
  unfoldable pub ensure_condition : Condition → State → State × Result Error (Unit {0})
  unfolding validate set
  ensure_condition new s = elim (get s) [
    | none ↦ (s, err get_error)
    | some cond ↦
        if validate cond.spec_conditions new.kind new.status then (s, ok tt) else set new s
  ]

  abbrev pub with_busy :
      Map (Unit {0}) → State × Result Error (Unit {0}) → Operator c × Result Error (Unit {0})
  with_busy busy result = (record { busy = busy; state = result.0 }, result.1)

  -- `name` is the name of the OperatorCondition, which is empty if the operator is not managed by OLM.
  unfoldable pub mark_as_busy : String → String → Operator c → Operator c × Result Error (Unit {0})
  unfolding insert ensure_condition
  mark_as_busy name controller o =
      if name == ""
      then (o, ok tt)
      else with_busy (insert controller tt o.busy) (ensure_condition unsafe o.state)

  unfoldable pub mark_as_free : String → String → Operator c → Operator c × Result Error (Unit {0})
  unfolding delete ensure_condition
  mark_as_free name controller o =
      let busy = delete controller o.busy in
      if name == ""
      then (o, ok tt)
      else (if ltb 0 (length busy)
          then (record { busy = busy; state = o.state }, ok tt)
          else with_busy busy (ensure_condition safe o.state))
