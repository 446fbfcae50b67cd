-- ===== src/Daemon/EnvVar/Tests.antt =====
-- The theorems at a registry that is kept in a map.
use windows_machine_config_o.Common.{
  String, ◌≡◌, refl, sym, ap, ◌∙◌, inl, inr, true, false, none, List, [], ◌∷◌, Map, lookup, insert,
  delete, has_key, keep, ok, eq_iff, arith, In,
}
use windows_machine_config_o.Daemon.EnvVar.{
  ensure_env_vars_are_removed, update_env_var, reconcile_env_var, set_env_vars, env_vars_to_remove,
  reconcile,
}
use windows_machine_config_o.Daemon.EnvVar.Steps.{text}
use windows_machine_config_o.Daemon.EnvVar.Kept.{kept, kept_laws}
use windows_machine_config_o.Daemon.EnvVar.Reconcile.{Apart}
use windows_machine_config_o.Daemon.EnvVar.Outcome.{assigned, final, reconcile-final}
use windows_machine_config_o.Daemon.EnvVar.Again.{reconcile_again}

abbrev expected : Map String
expected = ("HTTP_PROXY", "new") ∷ ("NO_PROXY", "none") ∷ []

abbrev watched : List String
watched = "HTTP_PROXY" ∷ "HTTPS_PROXY" ∷ []

abbrev before : Map String
before = ("HTTP_PROXY", "old") ∷ ("HTTPS_PROXY", "old") ∷ ("Path", "bin") ∷ []

abbrev after : Map String
after = ("HTTP_PROXY", "new") ∷ ("Path", "bin") ∷ ("NO_PROXY", "none") ∷ []

reconciled : reconcile kept expected watched before ≡ (after, ok true)
unfolding reconcile ensure_env_vars_are_removed set_env_vars reconcile_env_var update_env_var
    env_vars_to_remove keep lookup insert delete
reconciled = refl

settled : reconcile kept expected watched after ≡ (after, ok false)
unfolding reconcile ensure_env_vars_are_removed set_env_vars reconcile_env_var update_env_var
    env_vars_to_remove keep lookup insert delete
settled = refl

apart : Apart kept kept_laws expected
apart = (((λ e. ground (arith, (eq_iff "HTTP_PROXY" "NO_PROXY").1 e)), tt), (tt, tt))

reconcile-final_example :
    text (lookup "HTTPS_PROXY" (reconcile kept expected watched before).0)
    ≡ text (final kept kept_laws expected watched "HTTPS_PROXY" (lookup "HTTPS_PROXY" before))
reconcile-final_example =
    reconcile-final kept kept_laws expected watched before true "HTTPS_PROXY" apart
      (ap (λ x. x.1) reconciled)

only_watched :
    (v : String)
    → In v watched
    → has_key v expected ≡ false
    → assigned kept kept_laws v expected ≡ none
unfolding lookup
only_watched v (inl e) h =
    let h' : true ≡ false = sym (ap (λ w. has_key w expected) e) ∙ h in absurd (ground arith)
only_watched v (inr (inl e)) h = rw e refl
only_watched v (inr (inr i)) h = absurd i

reconcile_again_example : false ≡ false
reconcile_again_example =
    reconcile_again kept kept_laws expected watched before true false apart only_watched
      (ap (λ x. x.1) reconciled)
      (ap (λ x. (reconcile kept expected watched x.0).1) reconciled ∙ ap (λ x. x.1) settled)
