-- ===== src/Daemon/EnvVar/Outcome.antt =====
-- How each variable reads behind a successful `Reconcile` of pkg/daemon/envvar/envvar.go, and behind a second one.
use windows_machine_config_o.Common.{
  String, ◌≡◌, refl, sym, ap, ◌∙◌, ◌≢◌, inl, inr, Bool, true, false, not, Option, none, some, List,
  [], ◌∷◌, Map, lookup, has_key, ok, ◌==◌, eq_iff, arith, if◌then◌else◌, Bool-cases, Option-cases,
  Result-cases, In, All, any, In-keep, In-of_keep,
}
use windows_machine_config_o.Daemon.EnvVar.{
  Registry, ensure_env_vars_are_removed, set_env_vars, env_vars_to_remove, reconcile,
}
use windows_machine_config_o.Daemon.EnvVar.Steps.{RegistryLaws, text}
use windows_machine_config_o.Daemon.EnvVar.Reconcile.{
  Removed, ensure_env_vars_are_removed-Removed, Apart, Expected, set_env_vars-Expected,
}

-- An expected value comes first, then that the name is watched, then the old value.
abbrev pub choose : Option String → Bool → Option String → Option String
choose (some v) watched old = some v
choose none true old = none
choose none false old = old

module _ (r : Registry) (laws : RegistryLaws r) where
  open r use {State, can_open, delete_value}
  open laws use {fold, stored}

  -- What is expected of a name, whose case is not regarded.
  abbrev pub assigned : String → Map String → Option String
  assigned j [] = none
  assigned j ((k, v) ∷ vars) = if fold k == fold j then some v else assigned j vars

  abbrev pub watches : String → List String → Bool
  watches j watched = any (λ w. fold w == fold j) watched

  -- What a name should hold: what is expected of it, or nothing if it is only watched.
  abbrev pub final : Map String → List String → String → Option String → Option String
  final env_vars watched j old = choose (assigned j env_vars) (watches j watched) old

  pub assigned-none :
      (j : String) (vars : Map String) → assigned j vars ≡ none → All (λ e. fold e.0 ≢ fold j) vars
  assigned-none j [] h = tt
  assigned-none j ((k, v) ∷ vars) h = elim (Bool-cases (fold k == fold j)) [
    | inl same ↦ absurd (ground arith)
    | inr other ↦
        (λ e. ground (arith, eq_iff (fold k) (fold j)), assigned-none j vars (ground arith))
  ]

  assigned-some :
      (s : State) (j v : String) (vars : Map String)
      → All (λ e. text (stored s e.0) ≡ e.1) vars
      → assigned j vars ≡ some v
      → text (stored s j) ≡ v
  assigned-some s j v [] reads h = absurd (ground arith)
  assigned-some s j v ((k, w) ∷ vars) reads h = elim (Bool-cases (fold k == fold j)) [
    | inl same ↦
        ap text (laws.folded s j k (sym ((eq_iff (fold k) (fold j)).0 same)))
        ∙ reads.0
        ∙ ground arith
    | inr other ↦ assigned-some s j v vars reads.1 (ground arith)
  ]

  watches-true :
      (j : String) (watched : List String)
      → watches j watched ≡ true
      → (w : String) × In w watched × (fold w ≡ fold j)
  watches-true j [] h = absurd (ground arith)
  watches-true j (w ∷ ws) h = elim (Bool-cases (fold w == fold j)) [
    | inl same ↦ (w, inl refl, (eq_iff (fold w) (fold j)).0 same)
    | inr other ↦ let (v, i, e) = watches-true j ws (ground arith) in (v, inr i, e)
  ]

  watches-false :
      (j w : String) (watched : List String)
      → watches j watched ≡ false
      → In w watched
      → fold w ≢ fold j
  watches-false j w [] h i = absurd i
  watches-false j w (x ∷ ws) h i = elim i [
    | inl same ↦ λ e. ground (arith, eq_iff (fold x) (fold j), ap fold same)
    | inr later ↦ watches-false j w ws (ground arith) later
  ]

  apart→has_key :
      (j w : String) (vars : Map String)
      → fold w ≡ fold j
      → All (λ e. fold e.0 ≢ fold j) vars
      → has_key w vars ≡ false
  unfolding lookup
  apart→has_key j w [] same h = refl
  apart→has_key j w ((k, v) ∷ vars) same h =
      let rest = apart→has_key j w vars same h.1 in
      let differ : k ≢ w = λ e. h.0 (ap fold e ∙ same) in ground (arith, eq_iff k w)

  -- Each variable that is removed, and what the loops leave behind, read at one name.
  text-final :
      (env_vars : Map String) (watched : List String) (s t s' : State) (b c : Bool) (j : String)
      → Removed r laws (env_vars_to_remove env_vars watched) false s t b
      → Expected r laws env_vars b t s' c
      → text (stored s' j) ≡ text (final env_vars watched j (stored s j))
  unfolding env_vars_to_remove
  text-final env_vars watched s t s' b c j first second =
      elim (Option-cases (assigned j env_vars)) [
        | inr (v, h) ↦ rw h (assigned-some s' j v env_vars second.set h)
        | inl h ↦
            let apart = assigned-none j env_vars h in
            let same = second.others j apart in
            elim (Bool-cases (watches j watched)) [
              | inl w ↦
                  let (v, i, e) = watches-true j watched w in
                  let free = apart→has_key j v env_vars e apart in
                  let gone = first.cleared v (In-keep _ v watched i (ap not free)) in
                  rw (h, w) (ap text (same ∙ sym (laws.folded t v j e) ∙ gone))
              | inr w ↦
                  let kept =
                    first.others j
                      (λ v i. watches-false j v watched w (In-of_keep _ v watched i).0) in
                  rw (h, w) (ap text (same ∙ kept))
            ]
      ]

  -- Where no error was met, both loops have succeeded.
  pub loops :
      (env_vars : Map String) (watched : List String) (s : State) (c : Bool)
      → (reconcile r env_vars watched s).1 ≡ ok c
      → let first = ensure_env_vars_are_removed r (env_vars_to_remove env_vars watched) false s in
        (b : Bool) × (first.1 ≡ ok b)
        × (reconcile r env_vars watched s ≡ set_env_vars r env_vars b first.0)
  unfolding reconcile
  loops env_vars watched s c e =
      let first = ensure_env_vars_are_removed r (env_vars_to_remove env_vars watched) false s in
      elim (Bool-cases (can_open s)) [
        | inr shut ↦ absurd (ground arith)
        | inl opened ↦ elim (Result-cases first.1) [
          | inr (x, h) ↦ absurd (ground arith)
          | inl (b, h) ↦ (b, h, rw (opened, h) refl)
        ]
      ]

  -- If Reconcile reports no error, then each name, whatever its case, reads as the value expected of it, as
  -- the empty text if it is only watched, and as before otherwise; the expected names differ in more than case.
  pub reconcile-final :
      (env_vars : Map String) (watched : List String) (s : State) (c : Bool) (j : String)
      → Apart r laws env_vars
      → (reconcile r env_vars watched s).1 ≡ ok c
      → text (stored (reconcile r env_vars watched s).0 j)
        ≡ text (final env_vars watched j (stored s j))
  reconcile-final env_vars watched s c j apart e =
      let (b, h, both) = loops env_vars watched s c e in
      let first = ensure_env_vars_are_removed-Removed r laws _ false s b h in
      let second =
        set_env_vars-Expected r laws env_vars b _ c apart (sym (ap (λ x. x.1) both) ∙ e) in
      rw both (text-final env_vars watched s _ _ b c j first second)

  -- If Reconcile reports no change, each name holds what it held before; the expected names differ in more
  -- than case.
  pub reconcile_unchanged :
      (env_vars : Map String) (watched : List String) (s : State) (j : String)
      → Apart r laws env_vars
      → (reconcile r env_vars watched s).1 ≡ ok false
      → stored (reconcile r env_vars watched s).0 j ≡ stored s j
  reconcile_unchanged env_vars watched s j apart e =
      let (b, h, both) = loops env_vars watched s false e in
      let first = ensure_env_vars_are_removed-Removed r laws _ false s b h in
      let second =
        set_env_vars-Expected r laws env_vars b _ false apart (sym (ap (λ x. x.1) both) ∙ e) in
      let (off, same) = second.quiet refl in rw both (same j ∙ (first.quiet off).1 j)
