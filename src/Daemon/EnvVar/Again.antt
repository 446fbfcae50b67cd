-- ===== src/Daemon/EnvVar/Again.antt =====
-- A second `Reconcile` of pkg/daemon/envvar/envvar.go, and one at which no call of the registry fails.
use windows_machine_config_o.Common.{
  String, ◌≡◌, refl, sym, ap, ◌∙◌, ◌≢◌, inl, inr, Bool, true, false, none, List, [], ◌∷◌, Map,
  has_key, ok, ◌==◌, arith, Bool-cases, Result-cases, In, All, All-map, In-of_keep,
}
use windows_machine_config_o.Daemon.EnvVar.{
  undeletable, Registry, unreadable, ensure_env_vars_are_removed, update_env_var, reconcile_env_var,
  set_env_vars, env_vars_to_remove, reconcile,
}
use windows_machine_config_o.Daemon.EnvVar.Steps.{
  RegistryLaws, Deletion-cases, Reading-cases, text, Same, reconcile_env_var_settled,
}
use windows_machine_config_o.Daemon.EnvVar.Reconcile.{
  Removed, ensure_env_vars_are_removed-Removed, Apart, Expected, set_env_vars-Expected,
}
use windows_machine_config_o.Daemon.EnvVar.Outcome.{assigned, assigned-none, loops}

module _ (r : Registry) (laws : RegistryLaws r) where
  open r use {State, can_open, get_string_value, set_string_value, delete_value}
  open laws use {fold, stored}

  -- Where the names hold nothing, the first loop changes nothing.
  removed_already :
      (vs : List String) (removed : Bool) (s : State) (c : Bool)
      → ((v : String) → In v vs → stored s v ≡ none)
      → (ensure_env_vars_are_removed r vs removed s).1 ≡ ok c
      → (c ≡ removed) × Same r laws s (ensure_env_vars_are_removed r vs removed s).0
  unfolding ensure_env_vars_are_removed
  removed_already [] removed s c gone e = (ground arith, λ j. refl)
  removed_already (v ∷ vs) removed s c gone e = elim (Deletion-cases (delete_value v s).1) [
    | inr (inr u) ↦ absurd (ground arith)
    | inl d ↦ absurd ((laws.delete_deleted v s d).0 (gone v (inl refl)))
    | inr (inl n) ↦
        let t = (delete_value v s).0 in
        let same = (laws.delete_not_there v s n).1 in
        let (quiet, rest) =
          removed_already vs removed t c (λ w i. same w ∙ gone w (inr i)) (ground arith) in
        rw (n, ensure_env_vars_are_removed) (quiet, λ j. rest j ∙ same j)
  ]

  -- Where the variables read as expected, the second loop reports no change of its own.
  set_already :
      (vars : Map String) (updated : Bool) (s : State) (c : Bool)
      → All (λ e. text (stored s e.0) ≡ e.1) vars
      → (set_env_vars r vars updated s).1 ≡ ok c
      → c ≡ updated
  unfolding set_env_vars
  set_already [] updated s c reads e = ground arith
  set_already ((k, v) ∷ vars) updated s c reads e =
      elim (Result-cases (reconcile_env_var r k v s).1) [
        | inr (x, h) ↦ absurd (ground arith)
        | inl (b, h) ↦
            let (quiet, same) = reconcile_env_var_settled r laws k v s b reads.0 h in
            let reads' : All (λ e. text (stored (reconcile_env_var r k v s).0 e.0) ≡ e.1) vars =
              rw same reads.1 in
            set_already vars updated (reconcile_env_var r k v s).0 c reads' (ground arith)
      ]

  -- If Reconcile succeeds, and no watched name that is to be removed is an expected one in another case, then
  -- a second Reconcile that succeeds reports no change: the instance is not restarted again. The expected names
  -- differ in more than case.
  pub reconcile_again :
      (env_vars : Map String) (watched : List String) (s : State) (b c : Bool)
      → Apart r laws env_vars
      → ((v : String)
          → In v watched
          → has_key v env_vars ≡ false
          → assigned r laws v env_vars ≡ none)
      → (reconcile r env_vars watched s).1 ≡ ok b
      → (reconcile r env_vars watched (reconcile r env_vars watched s).0).1 ≡ ok c
      → c ≡ false
  unfolding env_vars_to_remove
  reconcile_again env_vars watched s b c apart clear e e' =
      let vs = env_vars_to_remove env_vars watched in
      let s' = (reconcile r env_vars watched s).0 in
      let (b1, h, both) = loops r laws env_vars watched s b e in
      let (b2, h', both') = loops r laws env_vars watched s' c e' in
      let t = (ensure_env_vars_are_removed r vs false s).0 in
      let first : Removed r laws vs false s t b1 =
        ensure_env_vars_are_removed-Removed r laws vs false s b1 h in
      let second : Expected r laws env_vars b1 t s' b =
        rw both
          (set_env_vars-Expected r laws env_vars b1 t b apart (sym (ap (λ x. x.1) both) ∙ e)) in
      let gone : (v : String) → In v vs → stored s' v ≡ none = λ v i.
        let (w, free) = In-of_keep _ v watched i in
        let apart' = assigned-none r laws v env_vars (clear v w (ground arith)) in
        second.others v apart' ∙ first.cleared v i in
      let (quiet, same) = removed_already vs false s' b2 gone h' in
      let t' = (ensure_env_vars_are_removed r vs false s').0 in
      let reads : All (λ e. text (stored t' e.0) ≡ e.1) env_vars =
        All-map _ _ env_vars (λ e h. ap text (same e.0) ∙ h) second.set in
      set_already env_vars b2 t' c reads (sym (ap (λ x. x.1) both') ∙ e') ∙ quiet

module _ (r : Registry) where
  open r use {State, can_open, get_string_value, set_string_value, delete_value}

  ensure_env_vars_are_removed-ok :
      (vs : List String) (removed : Bool) (s : State)
      → ((v : String) (s : State) → (delete_value v s).1 ≢ undeletable)
      → (c : Bool) × ((ensure_env_vars_are_removed r vs removed s).1 ≡ ok c)
  unfolding ensure_env_vars_are_removed
  ensure_env_vars_are_removed-ok [] removed s fine = (removed, refl)
  ensure_env_vars_are_removed-ok (v ∷ vs) removed s fine =
      elim (Deletion-cases (delete_value v s).1) [
        | inr (inr u) ↦ absurd (fine v s u)
        | inl d ↦
            rw (d, ensure_env_vars_are_removed)
              (ensure_env_vars_are_removed-ok vs true (delete_value v s).0 fine)
        | inr (inl n) ↦
            rw (n, ensure_env_vars_are_removed)
              (ensure_env_vars_are_removed-ok vs removed (delete_value v s).0 fine)
      ]

  update_env_var-ok :
      (k actual v : String) (s : State)
      → (set_string_value k v s).1 ≡ true
      → (c : Bool) × ((update_env_var r k actual v s).1 ≡ ok c)
  unfolding update_env_var
  update_env_var-ok k actual v s done = elim (Bool-cases (actual == v)) [
    | inl same ↦ rw same (false, refl)
    | inr differs ↦ rw (differs, done) (true, refl)
  ]

  set_env_vars-ok :
      (vars : Map String) (updated : Bool) (s : State)
      → ((k : String) (s : State) → get_string_value k s ≢ unreadable)
      → ((k v : String) (s : State) → (set_string_value k v s).1 ≡ true)
      → (c : Bool) × ((set_env_vars r vars updated s).1 ≡ ok c)
  unfolding set_env_vars reconcile_env_var
  set_env_vars-ok [] updated s fine done = (updated, refl)
  set_env_vars-ok ((k, v) ∷ vars) updated s fine done =
      let t = (reconcile_env_var r k v s).0 in
      elim (Result-cases (reconcile_env_var r k v s).1) [
        | inl (true, h) ↦ rw (h, set_env_vars) (set_env_vars-ok vars true t fine done)
        | inl (false, h) ↦ rw (h, set_env_vars) (set_env_vars-ok vars updated t fine done)
        | inr (x, h) ↦ elim (Reading-cases (get_string_value k s)) [
          | inr (inr u) ↦ absurd (fine k s u)
          | inr (inl u) ↦
              let (c, e) = update_env_var-ok k "" v s (done k v s) in absurd (ground arith)
          | inl (actual, u) ↦
              let (c, e) = update_env_var-ok k actual v s (done k v s) in absurd (ground arith)
        ]
      ]

  -- If the key can be opened, values can be set, and no value is unreadable or cannot be deleted, then
  -- Reconcile reports no error.
  pub reconcile-ok :
      (env_vars : Map String) (watched : List String) (s : State)
      → can_open s ≡ true
      → ((k : String) (s : State) → get_string_value k s ≢ unreadable)
      → ((k v : String) (s : State) → (set_string_value k v s).1 ≡ true)
      → ((v : String) (s : State) → (delete_value v s).1 ≢ undeletable)
      → (c : Bool) × ((reconcile r env_vars watched s).1 ≡ ok c)
  unfolding reconcile
  reconcile-ok env_vars watched s opened readable settable deletable =
      let vs = env_vars_to_remove env_vars watched in
      let (b, h) = ensure_env_vars_are_removed-ok vs false s deletable in
      let (c, h') =
        set_env_vars-ok env_vars b (ensure_env_vars_are_removed r vs false s).0 readable settable in
      (c, rw (opened, h) h')
