-- ===== src/Daemon/EnvVar.antt =====
-- pkg/daemon/envvar/envvar.go: the system environment variables, in the Windows registry.
pub mod Steps
pub mod Reconcile
pub mod Outcome
pub mod Again
pub mod Kept
mod Tests
use windows_machine_config_o.Common.{
  String, ◌≡◌, ◌≢◌, Bool, true, false, not, Option, none, some, List, [], ◌∷◌, Map, lookup, has_key,
  keep, Result, ok, err, ◌==◌, if◌then◌else◌,
}

-- What the registry's calls answer.
pub data Reading : Type 0 where
  value : String → Reading
  absent : Reading
  unreadable : Reading

pub data Deletion : Type 0 where
  deleted : Deletion
  not_there : Deletion
  undeletable : Deletion

-- The calls of golang.org/x/sys/windows/registry on the open key.
pub record Registry : Type 1 where
  pub State : Type 0
  pub can_open : State → Bool
  pub get_string_value : String → State → Reading
  pub set_string_value : String → String → State → State × Bool
  pub delete_value : String → State → State × Deletion

pub data Error : Type 0 where
  open_error remove_error : Error
  read_error set_error : (key : String) → Error

-- `envVarsToRemove`.
unfoldable pub env_vars_to_remove : Map String → List String → List String
unfolding keep
env_vars_to_remove env_vars watched = keep (λ v. not (has_key v env_vars)) watched

module _ (r : Registry) where
  open r use {State, can_open, get_string_value, set_string_value, delete_value}

  -- The loop of `EnsureEnvVarsAreRemoved`; `removed` is `envVarsRemoved`.
  unfoldable pub ensure_env_vars_are_removed :
      List String → Bool → State → State × Result Error Bool
  ensure_env_vars_are_removed [] removed s = (s, ok removed)
  ensure_env_vars_are_removed (v ∷ vs) removed s = elim (delete_value v s).1 [
    | undeletable ↦ ((delete_value v s).0, err remove_error)
    | not_there ↦ ensure_env_vars_are_removed vs removed (delete_value v s).0
    | deleted ↦ ensure_env_vars_are_removed vs true (delete_value v s).0
  ]

  -- One round of the loop over the expected variables, once the actual value is known: the new state, and
  -- whether it was changed. A variable that is absent reads as the empty text.
  unfoldable pub update_env_var : String → String → String → State → State × Result Error Bool
  update_env_var key actual expected s =
      if actual == expected
      then (s, ok false)
      else (let (s', done) = set_string_value key expected s in
          (s', if done then ok true else err (set_error key)))

  unfoldable pub reconcile_env_var : String → String → State → State × Result Error Bool
  unfolding update_env_var
  reconcile_env_var key expected s = elim (get_string_value key s) [
    | unreadable ↦ (s, err (read_error key))
    | absent ↦ update_env_var key "" expected s
    | value actual ↦ update_env_var key actual expected s
  ]

  -- The loop over the expected variables; `updated` is `envVarsUpdated`.
  unfoldable pub set_env_vars : Map String → Bool → State → State × Result Error Bool
  unfolding reconcile_env_var
  set_env_vars [] updated s = (s, ok updated)
  set_env_vars ((key, expected) ∷ vars) updated s = elim (reconcile_env_var key expected s).1 [
    | err e ↦ ((reconcile_env_var key expected s).0, err e)
    | ok true ↦ set_env_vars vars true (reconcile_env_var key expected s).0
    | ok false ↦ set_env_vars vars updated (reconcile_env_var key expected s).0
  ]

  -- `Reconcile`. Where nothing is to be removed, `EnsureEnvVarsAreRemoved` is not called; on an empty
  -- list it would answer that nothing was removed.
  unfoldable pub reconcile : Map String → List String → State → State × Result Error Bool
  unfolding ensure_env_vars_are_removed set_env_vars env_vars_to_remove
  reconcile env_vars watched s =
      if can_open s
      then (let (s', removed) =
            ensure_env_vars_are_removed (env_vars_to_remove env_vars watched) false s in
          elim removed [ err e ↦ (s', err e) | ok updated ↦ set_env_vars env_vars updated s' ])
      else (s, err open_error)
