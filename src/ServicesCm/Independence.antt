-- ===== src/ServicesCm/Independence.antt =====
-- What `validateDependencies` checks of the bootstrap services: that they can start before the node is
-- there.
use windows_machine_config_o.Common.{
  String, ◌≡◌, refl, ◌≢◌, ◌↔◌, inl, inr, Bool, true, false, List, [], ◌∷◌, elems, ok, arith, In,
  In-keep, In-of_keep, All, All→In, In→All, any, ◌==◌, eq_iff, deep_equal, deep_equal_iff,
  Bool_deep_equal,
}
use windows_machine_config_o.ServicesCm.Types.{Service}
use windows_machine_config_o.ServicesCm.Dependencies.{select, check_bootstrap}

-- No bootstrap service takes a value from a node object or depends on a controller service.
abbrev pub IsIndependent : List Service → Type 0
IsIndependent ss =
    (b : Service)
    → In b ss
    → b.bootstrap ≡ true
    → (elems b.node_variables_in_command ≡ [])
      × ((c : Service) → In c ss → c.bootstrap ≡ false → ¬ In c.name (elems b.dependencies))

In-select :
    (v : Bool) (s : Service) (ss : List Service) → In s ss → s.bootstrap ≡ v → In s (select v ss)
unfolding select
In-select v s ss i e =
    In-keep (λ t. deep_equal t.bootstrap v) s ss i ((deep_equal_iff s.bootstrap v).1 e)

In-of_select :
    (v : Bool) (s : Service) (ss : List Service) → In s (select v ss) → In s ss × (s.bootstrap ≡ v)
unfolding select
In-of_select v s ss i =
    let (j, e) = In-of_keep (λ t. deep_equal t.bootstrap v) s ss i in
    (j, (deep_equal_iff s.bootstrap v).0 e)

-- The tests of `hasDependency` say what they are for.
any-name :
    (d : String) (cs : List Service)
    → any (λ p. d == p.name) cs ≡ false
    → (c : Service) → In c cs
    → c.name ≢ d
any-name d [] e c i = absurd i
any-name d (t ∷ ts) e c i = elim i [
  | inl same ↦ λ named. ground (arith, eq_iff d t.name)
  | inr later ↦ any-name d ts (ground arith) c later
]

any-name_of_ne :
    (d : String) (cs : List Service) → All (λ c. c.name ≢ d) cs → any (λ p. d == p.name) cs ≡ false
any-name_of_ne d [] h = refl
any-name_of_ne d (t ∷ ts) h = ground (arith, eq_iff d t.name, any-name_of_ne d ts h.1, h.0)

abbrev names_match : List Service → List String → Bool
names_match cs = any (λ d. any (λ p. d == p.name) cs)

names_match-false :
    (cs : List Service) (ds : List String)
    → (names_match cs ds ≡ false)
    → (c : Service) → In c cs
    → ¬ In c.name ds
names_match-false cs [] e c i j = j
names_match-false cs (d ∷ ds) e c i j = elim j [
  | inl same ↦ any-name d cs (ground arith) c i same
  | inr later ↦ names_match-false cs ds (ground arith) c i later
]

names_match_of_not :
    (cs : List Service) (ds : List String)
    → ((c : Service) → In c cs → ¬ In c.name ds)
    → names_match cs ds ≡ false
names_match_of_not cs [] h = refl
names_match_of_not cs (d ∷ ds) h =
    let others = In→All (λ c. c.name ≢ d) cs (λ c i e. h c i (inl e)) in
    let rest = names_match_of_not cs ds (λ c i j. h c i (inr j)) in
    ground (arith, any-name_of_ne d cs others)

abbrev Stands : List Service → Service → Type 0
Stands controllers b =
    (elems b.node_variables_in_command ≡ [])
    × ((c : Service) → In c controllers → ¬ In c.name (elems b.dependencies))

check_bootstrap-Stands :
    (controllers bs : List Service)
    → check_bootstrap controllers bs ≡ ok tt
    → All (Stands controllers) bs
unfolding check_bootstrap
check_bootstrap-Stands controllers [] e = tt
check_bootstrap-Stands controllers (b ∷ bs) e =
    let none_left : elems b.node_variables_in_command ≡ [] = grind arith in
    let apart : names_match controllers (elems b.dependencies) ≡ false = ground arith in
    let rest : check_bootstrap controllers bs ≡ ok tt = ground arith in
    (
      (none_left, names_match-false controllers (elems b.dependencies) apart),
      check_bootstrap-Stands controllers bs rest,
    )

Stands-check_bootstrap :
    (controllers bs : List Service)
    → All (Stands controllers) bs
    → check_bootstrap controllers bs ≡ ok tt
unfolding check_bootstrap
Stands-check_bootstrap controllers [] h = refl
Stands-check_bootstrap controllers (b ∷ bs) h = ground (
  arith,
  h.0.0,
  names_match_of_not controllers (elems b.dependencies) h.0.1,
  Stands-check_bootstrap controllers bs h.1,
)

-- The two loops over the bootstrap services accept a list exactly if no bootstrap service takes a value
-- from a node object and none depends on a controller service.
pub check_bootstrap-IsIndependent :
    (ss : List Service)
    → (check_bootstrap (select false ss) (select true ss) ≡ ok tt) ↔ IsIndependent ss
check_bootstrap-IsIndependent ss = (
  λ e b i boot.
      let (alone, apart) =
        All→In (Stands (select false ss)) b (select true ss)
          (check_bootstrap-Stands (select false ss) (select true ss) e)
          (In-select true b ss i boot) in
      (alone, λ c j control. apart c (In-select false c ss j control)),
  λ independent. Stands-check_bootstrap (select false ss) (select true ss) (
      In→All (Stands (select false ss)) (select true ss) λ b i.
        let (j, boot) = In-of_select true b ss i in
        let (alone, apart) = independent b j boot in
        (alone, λ c k. let (l, control) = In-of_select false c ss k in apart c l control)),
)
