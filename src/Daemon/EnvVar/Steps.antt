-- ===== src/Daemon/EnvVar/Steps.antt =====
-- The laws of the registry that the daemon relies on, and what one round of each loop does.
use windows_machine_config_o.Common.{
  String, ◌≡◌, refl, sym, ap, ◌∙◌, ◌≢◌, ◌⊎◌, inl, inr, Bool, true, false, Option, none, some,
  Result, ok, ◌==◌, eq_iff, arith, Bool-cases, String-cases,
}
use windows_machine_config_o.Daemon.EnvVar.{
  Reading, value, absent, unreadable, Deletion, deleted, not_there, undeletable, Registry, Error,
  update_env_var, reconcile_env_var,
}

-- What the Windows registry documents. Names of values are compared without regard to case: `fold` maps a
-- name to the one that stands for it.
pub record RegistryLaws (r : Registry) : Type 0 where
  pub fold : String → String
  pub stored : r.State → String → Option String
  pub folded : (s : r.State) (j k : String) → fold j ≡ fold k → stored s j ≡ stored s k
  pub read_value :
      (k v : String) (s : r.State) → r.get_string_value k s ≡ value v → stored s k ≡ some v
  pub read_absent : (k : String) (s : r.State) → r.get_string_value k s ≡ absent → stored s k ≡ none
  pub set_self :
      (k v : String) (s : r.State)
      → (r.set_string_value k v s).1 ≡ true
      → stored (r.set_string_value k v s).0 k ≡ some v
  pub set_other :
      (k v j : String) (s : r.State)
      → fold k ≢ fold j
      → stored (r.set_string_value k v s).0 j ≡ stored s j
  pub delete_deleted :
      (k : String) (s : r.State)
      → (r.delete_value k s).1 ≡ deleted
      → (stored s k ≢ none) × (stored (r.delete_value k s).0 k ≡ none)
  pub delete_not_there :
      (k : String) (s : r.State)
      → (r.delete_value k s).1 ≡ not_there
      → (stored s k ≡ none) × ((j : String) → stored (r.delete_value k s).0 j ≡ stored s j)
  pub delete_other :
      (k j : String) (s : r.State)
      → (r.delete_value k s).1 ≢ undeletable
      → fold k ≢ fold j
      → stored (r.delete_value k s).0 j ≡ stored s j

pub Deletion-cases : (d : Deletion) → (d ≡ deleted) ⊎ (d ≡ not_there) ⊎ (d ≡ undeletable)
Deletion-cases deleted = inl refl
Deletion-cases not_there = inr (inl refl)
Deletion-cases undeletable = inr (inr refl)

pub Reading-cases : (x : Reading) → ((v : String) × (x ≡ value v)) ⊎ (x ≡ absent) ⊎ (x ≡ unreadable)
Reading-cases (value v) = inl (v, refl)
Reading-cases absent = inr (inl refl)
Reading-cases unreadable = inr (inr refl)

-- How a variable reads that may be absent.
abbrev pub text : Option String → String
text none = ""
text (some v) = v

module _ (r : Registry) (laws : RegistryLaws r) where
  open r use {State, get_string_value, set_string_value, delete_value}
  open laws use {fold, stored}

  -- Two states hold the same variables.
  abbrev pub Same : State → State → Type 0
  Same s t = (j : String) → stored t j ≡ stored s j

  -- After a deletion that did not fail the name holds nothing, and what held nothing still does.
  pub delete_clears :
      (k : String) (s : State)
      → (delete_value k s).1 ≢ undeletable
      → (stored (delete_value k s).0 k ≡ none)
        × ((j : String) → stored s j ≡ none → stored (delete_value k s).0 j ≡ none)
  delete_clears k s fine = elim (Deletion-cases (delete_value k s).1) [
    | inl d ↦
        let cleared = (laws.delete_deleted k s d).1 in
        (
          cleared,
          λ j empty. elim (String-cases (fold k) (fold j)) [
            | inl same ↦ sym (laws.folded (delete_value k s).0 k j same) ∙ cleared
            | inr other ↦ laws.delete_other k j s fine other ∙ empty
          ],
        )
    | inr (inl n) ↦
        let (empty, same) = laws.delete_not_there k s n in (same k ∙ empty, λ j e. same j ∙ e)
    | inr (inr u) ↦ absurd (fine u)
  ]

  -- What a round of the second loop leaves behind, if it succeeds: the variable reads as expected, other
  -- names are as before, and if it reports no change there is none.
  abbrev pub Updated : String → String → State → State × Result Error Bool → Type 0
  Updated k v s result =
      (c : Bool)
      → result.1 ≡ ok c
      → (text (stored result.0 k) ≡ v)
        × ((j : String) → fold k ≢ fold j → stored result.0 j ≡ stored s j)
        × (c ≡ false → Same s result.0)

  update_env_var-Updated :
      (k actual v : String) (s : State)
      → text (stored s k) ≡ actual
      → Updated k v s (update_env_var r k actual v s)
  unfolding update_env_var
  update_env_var-Updated k actual v s read c e = elim (Bool-cases (actual == v)) [
    | inl same ↦ rw same (read ∙ (eq_iff actual v).0 same, λ j other. refl, λ unchanged j. refl)
    | inr differs ↦ elim (Bool-cases (set_string_value k v s).1) [
      | inl done ↦ rw differs (
        ap text (laws.set_self k v s done),
        λ j other. laws.set_other k v j s other,
        λ unchanged. absurd (ground arith),
      )
      | inr failed ↦ absurd (ground arith)
    ]
  ]

  pub reconcile_env_var-Updated :
      (k v : String) (s : State) → Updated k v s (reconcile_env_var r k v s)
  unfolding reconcile_env_var
  reconcile_env_var-Updated k v s = elim (Reading-cases (get_string_value k s)) [
    | inl (actual, h) ↦
        rw (h, reconcile_env_var)
          (update_env_var-Updated k actual v s (ap text (laws.read_value k actual s h)))
    | inr (inl h) ↦
        rw (h, reconcile_env_var)
          (update_env_var-Updated k "" v s (ap text (laws.read_absent k s h)))
    | inr (inr h) ↦ rw (h, reconcile_env_var) (λ c e. cc)
  ]

  -- A variable that reads as expected is left alone, and no change is reported.
  pub reconcile_env_var_settled :
      (k v : String) (s : State) (c : Bool)
      → text (stored s k) ≡ v
      → (reconcile_env_var r k v s).1 ≡ ok c
      → (c ≡ false) × ((reconcile_env_var r k v s).0 ≡ s)
  unfolding reconcile_env_var update_env_var
  reconcile_env_var_settled k v s c settled e = elim (Reading-cases (get_string_value k s)) [
    | inl (actual, h) ↦ ground (arith, laws.read_value k actual s h, eq_iff actual v)
    | inr (inl h) ↦ ground (arith, laws.read_absent k s h, eq_iff "" v)
    | inr (inr h) ↦ absurd (ground arith)
  ]
