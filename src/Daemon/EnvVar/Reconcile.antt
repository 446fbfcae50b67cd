-- ===== src/Daemon/EnvVar/Reconcile.antt =====
-- What `Reconcile` of pkg/daemon/envvar/envvar.go brings about.
use windows_machine_config_o.Common.{
  String, ◌≡◌, refl, sym, ap, ◌∙◌, ◌≢◌, inl, inr, Bool, true, false, none, List, [], ◌∷◌, Map, ok,
  arith, Result-cases, In, All, All-map,
}
use windows_machine_config_o.Daemon.EnvVar.{
  undeletable, Registry, ensure_env_vars_are_removed, reconcile_env_var, set_env_vars,
}
use windows_machine_config_o.Daemon.EnvVar.Steps.{
  RegistryLaws, Deletion-cases, text, Same, delete_clears, reconcile_env_var-Updated,
}

module _ (r : Registry) (laws : RegistryLaws r) where
  open r use {State, can_open, delete_value}
  open laws use {fold, stored}

  -- What the first loop brings about.
  pub record Removed (vs : List String) (removed : Bool) (s : State) (s' : State) (c : Bool)
      : Type 0 where
    pub cleared : (v : String) → In v vs → stored s' v ≡ none
    pub still_none : (j : String) → stored s j ≡ none → stored s' j ≡ none
    pub others :
        (j : String) → ((v : String) → In v vs → fold v ≢ fold j) → stored s' j ≡ stored s j
    pub quiet : c ≡ false → (removed ≡ false) × Same r laws s s'

  Removed-cons :
      (v : String) (vs : List String) (removed removed' : Bool) (s s' : State) (c : Bool)
      → (delete_value v s).1 ≢ undeletable
      → (removed' ≡ false → (removed ≡ false) × Same r laws s (delete_value v s).0)
      → Removed vs removed' (delete_value v s).0 s' c
      → Removed (v ∷ vs) removed s s' c
  Removed-cons v vs removed removed' s s' c fine silent rest =
      let (gone, still) = delete_clears r laws v s fine in
      record {
        cleared = λ w i. elim i [
          | inl same ↦ rest.still_none w (rw same gone)
          | inr later ↦ rest.cleared w later
        ];
        still_none = λ j h. rest.still_none j (still j h);
        others = λ j h.
            rest.others j (λ w i. h w (inr i)) ∙ laws.delete_other v j s fine (h v (inl refl));
        quiet = λ q.
            let (off, same) = rest.quiet q in
            let (off', same') = silent off in (off', λ j. same j ∙ same' j);
      }

  pub ensure_env_vars_are_removed-Removed :
      (vs : List String) (removed : Bool) (s : State) (c : Bool)
      → (ensure_env_vars_are_removed r vs removed s).1 ≡ ok c
      → Removed vs removed s (ensure_env_vars_are_removed r vs removed s).0 c
  unfolding ensure_env_vars_are_removed
  ensure_env_vars_are_removed-Removed [] removed s c e = record {
    cleared = λ v i. absurd i;
    still_none = λ j h. h;
    others = λ j h. refl;
    quiet = λ q. (ground arith, λ j. refl);
  }
  ensure_env_vars_are_removed-Removed (v ∷ vs) removed s c e =
      elim (Deletion-cases (delete_value v s).1) [
        | inr (inr u) ↦ absurd (ground arith)
        | inl d ↦
            let rest =
              ensure_env_vars_are_removed-Removed vs true (delete_value v s).0 c (ground arith) in
            rw (d, ensure_env_vars_are_removed)
              (Removed-cons v vs removed true s _ c (λ u. cc) (λ q. cc) rest)
        | inr (inl n) ↦
            let rest =
              ensure_env_vars_are_removed-Removed vs removed (delete_value v s).0 c
                (ground arith) in
            rw (n, ensure_env_vars_are_removed)
              (Removed-cons v vs removed removed s _ c (λ u. cc)
                (λ q. (q, (laws.delete_not_there v s n).1)) rest)
      ]

  -- What the second loop brings about, for variables whose names differ, also if their case is not
  -- regarded.
  abbrev pub Apart : Map String → Type 0
  Apart [] = Unit
  Apart ((k, v) ∷ vars) = All (λ e. fold k ≢ fold e.0) vars × Apart vars

  pub record Expected (vars : Map String) (updated : Bool) (s : State) (s' : State) (c : Bool)
      : Type 0 where
    pub set : All (λ e. text (stored s' e.0) ≡ e.1) vars
    pub others : (j : String) → All (λ e. fold e.0 ≢ fold j) vars → stored s' j ≡ stored s j
    pub quiet : c ≡ false → (updated ≡ false) × Same r laws s s'

  Expected-cons :
      (k v : String) (vars : Map String) (updated updated' : Bool) (s t s' : State) (c : Bool)
      → text (stored t k) ≡ v
      → ((j : String) → fold k ≢ fold j → stored t j ≡ stored s j)
      → (updated' ≡ false → (updated ≡ false) × Same r laws s t)
      → All (λ e. fold k ≢ fold e.0) vars
      → Expected vars updated' t s' c
      → Expected ((k, v) ∷ vars) updated s s' c
  Expected-cons k v vars updated updated' s t s' c reads keeps silent apart rest = record {
    set = (
      ap text (rest.others k (All-map _ _ vars (λ e differ same. differ (sym same)) apart)) ∙ reads,
      rest.set,
    );
    others = λ j h. rest.others j h.1 ∙ keeps j h.0;
    quiet = λ q.
        let (off, same) = rest.quiet q in
        let (off', same') = silent off in (off', λ j. same j ∙ same' j);
  }

  pub set_env_vars-Expected :
      (vars : Map String) (updated : Bool) (s : State) (c : Bool)
      → Apart vars
      → (set_env_vars r vars updated s).1 ≡ ok c
      → Expected vars updated s (set_env_vars r vars updated s).0 c
  unfolding set_env_vars
  set_env_vars-Expected [] updated s c apart e = record {
    set = tt;
    others = λ j h. refl;
    quiet = λ q. (ground arith, λ j. refl);
  }
  set_env_vars-Expected ((k, v) ∷ vars) updated s c apart e =
      let t = (reconcile_env_var r k v s).0 in
      let step = reconcile_env_var-Updated r laws k v s in
      elim (Result-cases (reconcile_env_var r k v s).1) [
        | inr (x, h) ↦ absurd (ground arith)
        | inl (true, h) ↦
            let (reads, keeps, _) = step true h in
            let rest = set_env_vars-Expected vars true t c apart.1 (ground arith) in
            rw (h, set_env_vars)
              (Expected-cons k v vars updated true s t _ c reads keeps (λ q. cc) apart.0 rest)
        | inl (false, h) ↦
            let (reads, keeps, same) = step false h in
            let rest = set_env_vars-Expected vars updated t c apart.1 (ground arith) in
            rw (h, set_env_vars)
              (Expected-cons k v vars updated updated s t _ c reads keeps (λ q. (q, same refl))
                apart.0 rest)
      ]
