-- ===== src/Condition/Agreement.antt =====
-- The set of busy controllers of pkg/condition/condition.go, and what the OperatorCondition says.
use windows_machine_config_o.Common.{
  ℕ, zero, suc, ◌≤◌, String, ◌≡◌, ◌≢◌, refl, ap, ◌∙◌, inl, inr, true, false, some, List, [], ◌∷◌,
  Map, delete, ltb, length, ok, ◌==◌, if◌then◌else◌, arith, eq_iff, Bool-cases, Option-cases, ◌⊎◌,
  not, has_key, keep, In, err,
}
use windows_machine_config_o.Condition.{
  Condition, OperatorCondition, Error, upgradeable, condition_true, condition_false, validate,
  Cluster, polls, Operator, wait, set, safe, ensure_condition, mark_as_busy, mark_as_free,
}

-- What the API server documents, and that only the operator writes the conditions of the spec.
pub record ClusterLaws (c : Cluster) : Type 0 where
  pub spec_of : c.State → List Condition
  pub get_spec :
      (s : c.State) (cond : OperatorCondition)
      → c.get s ≡ some cond
      → cond.spec_conditions ≡ spec_of s
  pub patch_spec :
      (cs : List Condition) (s : c.State) → (c.patch cs s).1 ≡ true → spec_of (c.patch cs s).0 ≡ cs
  -- A patch that reports an error may have been applied.
  pub failed_spec :
      (cs : List Condition) (s : c.State)
      → (c.patch cs s).1 ≡ false
      → (spec_of (c.patch cs s).0 ≡ spec_of s) ⊎ (spec_of (c.patch cs s).0 ≡ cs)
  pub pause_spec : (s : c.State) → spec_of (c.pause s) ≡ spec_of s

length-delete : {V : Type 0} (k : String) (m : Map V) → length (delete k m) ≤ length m
unfolding delete
length-delete k [] = omega arith
length-delete k ((j, w) ∷ m) = ground (arith, length-delete k m)

module _ (c : Cluster) (laws : ClusterLaws c) where
  open c use {State, get, patch, pause}
  open laws use {spec_of}

  wait_spec :
      (n : ℕ) (kind expected : String) (s : State)
      → spec_of (wait c n kind expected s).0 ≡ spec_of s
  unfolding wait
  wait_spec zero kind expected s = refl
  wait_spec (suc n) kind expected s = elim (Option-cases (get (pause s))) [
    | inl e ↦ rw (e, wait) (laws.pause_spec s)
    | inr (cond, e) ↦ elim (Bool-cases (validate cond.status_conditions kind expected)) [
      | inl done ↦ rw (e, wait, done) (laws.pause_spec s)
      | inr open_still ↦
          rw (e, wait, open_still) (wait_spec n kind expected (pause s) ∙ laws.pause_spec s)
    ]
  ]

  validate_new : (new : Condition) → validate (new ∷ []) new.kind new.status ≡ true
  unfolding validate
  validate_new new = ground (arith, eq_iff new.kind new.kind, eq_iff new.status new.status)

  -- Behind a call without error the spec holds the condition.
  ensure_condition-validate :
      (new : Condition) (s : State)
      → (ensure_condition c new s).1 ≡ ok tt
      → validate (spec_of (ensure_condition c new s).0) new.kind new.status ≡ true
  unfolding ensure_condition set
  ensure_condition-validate new s e = elim (Option-cases (get s)) [
    | inl h ↦ absurd (ground arith)
    | inr (cond, h) ↦ elim (Bool-cases (validate cond.spec_conditions new.kind new.status)) [
      | inl held ↦ rw (h, ensure_condition, held) (rw (← laws.get_spec s cond h) held)
      | inr lacking ↦ elim (Bool-cases (patch (new ∷ []) s).1) [
        | inr failed ↦ absurd (ground arith)
        | inl applied ↦
            let spec =
              wait_spec polls new.kind new.status (patch (new ∷ []) s).0
              ∙ laws.patch_spec (new ∷ []) s applied in
            rw (h, ensure_condition, lacking, set, applied)
              (ap (λ cs. validate cs new.kind new.status) spec ∙ validate_new new)
      ]
    ]
  ]

  -- The calls that the controllers make, with the controllers that are working: those whose MarkAsBusy
  -- reported no error, and that were not marked as free since. A call of either kind may fail at any point; a
  -- controller whose MarkAsBusy fails stops, but stays in the set of the busy ones.
  pub data Step (name : String) : List String → Operator c → List String → Operator c → Type 0 where
    busy_step :
        (controller : String) {working : List String} {o : Operator c}
        → (mark_as_busy c name controller o).1 ≡ ok tt
        → Step name working o (controller ∷ working) (mark_as_busy c name controller o).0
    failed_step :
        (controller : String) (e : Error) {working : List String} {o : Operator c}
        → (mark_as_busy c name controller o).1 ≡ err e
        → Step name working o working (mark_as_busy c name controller o).0
    free_step :
        (controller : String) {working : List String} {o : Operator c}
        → Step name working o
            (keep (λ x. not (x == controller)) working)
            (mark_as_free c name controller o).0

  pub data Reachable (name : String) : List String → Operator c → Type 0 where
    start : (s : State) → Reachable name [] (record { busy = []; state = s })
    step :
        {working working' : List String} {o p : Operator c}
        → Reachable name working o
        → Step name working o working' p
        → Reachable name working' p

  -- A working controller is among the busy ones, and the spec says that the operator is not upgradeable.
  pub record Blocks (working : List String) (o : Operator c) : Type 0 where
    pub busy : (x : String) → In x working → has_key x o.busy ≡ true
    pub blocked :
        (x : String) → In x working → validate (spec_of o.state) upgradeable condition_false ≡ true

  module _ (name controller : String) (o : Operator c) (managed : name ≢ "")
      (working : List String) where
    named : (name == "") ≡ false
    named = ground (arith, eq_iff name "")

  -- If MarkAsFree succeeds and leaves no controller busy, then the spec of the OperatorCondition says that the
  -- operator is upgradeable; if it leaves one, then it touches nothing but the set.
  pub mark_as_free-validate :
      (name controller : String) (o : Operator c)
      → name ≢ ""
      → (mark_as_free c name controller o).1 ≡ ok tt
      → let free = (mark_as_free c name controller o).0 in
        (free.busy ≡ delete controller o.busy)
        × (if ltb 0 (length free.busy)
            then free.state ≡ o.state
            else (validate (spec_of free.state) upgradeable condition_true ≡ true))
  unfolding mark_as_free
  mark_as_free-validate name controller o managed e =
      let named : (name == "") ≡ false = ground (arith, eq_iff name "") in
      elim (Bool-cases (ltb 0 (length (delete controller o.busy)))) [
        | inl others ↦ rw (named, others) (refl, rw others refl)
        | inr alone ↦
            let e' : (ensure_condition c (safe c) o.state).1 ≡ ok tt = rw (named, alone) at e in
            rw (named, alone) (refl, rw alone (ensure_condition-validate (safe c) o.state e'))
      ]
