-- ===== src/Daemon/Simulation.antt =====
-- A small Windows, on which the functions of pkg/daemon are run.
use mathlib.Core.Option
use windows_machine_config_o.Common.{
  String, ◌≡◌, ◌≢◌, refl, sym, subst, ap, ◌∙◌, inl, inr, Bool, true, false, Option, none, some,
  List, [], ◌∷◌, Map, lookup, insert, delete, has_key, ◌==◌, if◌then◌else◌, nil, elems, In, arith,
  eq_iff, lookup-insert, lookup-insert_self, lookup-insert_ne, lookup-delete, Option-cases,
  Bool-cases,
}
use windows_machine_config_o.Daemon.Manager.{
  WindowsApi, Config, ServiceState, stopped, running, opened, does_not_exist,
}
use windows_machine_config_o.Daemon.Manager.States.{StableLaws, SameServices}
use windows_machine_config_o.Daemon.Manager.Removal.{RemovalLaws}
use windows_machine_config_o.Daemon.Controller.{Instance, text}
use windows_machine_config_o.Daemon.Controller.Written.{ConfigLaws, written}

pub record Entry : Type 0 where
  pub config : Config
  pub state : ServiceState
  pub dependents : List String

abbrev change : (Entry → Entry) → String → Map Entry → Map Entry × Bool
change f k s = elim (lookup k s) [ none ↦ (s, false) | some e ↦ (insert k (f e) s, true) ]

abbrev keys : Map Entry → List String
keys [] = []
keys ((k, _) ∷ m) = k ∷ keys m

abbrev blank : Entry
blank = record {
  config = record { binary_path_name = ""; description = ""; dependencies = nil };
  state = stopped;
  dependents = [];
}

abbrev pub small_windows : WindowsApi
small_windows = record {
  State = Map Entry;
  list_services = λ s. some (keys s);
  open_service = λ n s. elim (lookup n s) [ none ↦ does_not_exist | some _ ↦ opened ];
  create_service = λ n s. if has_key n s then (s, false) else (insert n blank s, true);
  delete = λ n s. (delete n s, has_key n s);
  query = λ n s.
      Option.map
        (λ e. record { state = e.state; process_id = elim e.state [ running ↦ 1 | _ ↦ 0 ] })
        (lookup n s);
  config = λ n s. Option.map (λ e. e.config) (lookup n s);
  update_config = λ n c. change (λ e. record e { config = written e.config c }) n;
  list_dependent_services = λ n s. Option.map (λ e. e.dependents) (lookup n s);
  start = change (λ e. record e { state = running });
  control_stop = change (λ e. record e { state = stopped });
  open_process = λ _ _. true;
  get_exit_code_process = λ _ _. some 0;
  terminate_process = λ _ s. (s, true);
  sleep = λ s. s;
}

-- What a change leaves of an entry, it leaves of each.
change_same :
    {X : Type 0} (g : Option Entry → X) (f : Entry → Entry) (k n : String) (s : Map Entry)
    → ((e : Entry) → g (some (f e)) ≡ g (some e))
    → g (lookup n (change f k s).0) ≡ g (lookup n s)
change_same g f k n s h = elim (Option-cases (lookup k s)) [
  | inl e ↦ rw (e, change) refl
  | inr (x, e) ↦ elim (Bool-cases (k == n)) [
    | inl same ↦
        let eq : k ≡ n = (eq_iff k n).0 same in
        let at : lookup n s ≡ some x = ap (λ j. lookup j s) (sym eq) ∙ e in
        rw (e, change) (ap g (lookup-insert k n (f x) s) ∙ rw same (h x) ∙ ap g (sym at))
    | inr other ↦ rw (e, change) (ap g (lookup-insert k n (f x) s) ∙ rw other refl)
  ]
]

abbrev present : Map Entry → String → Bool
present s n = has_key n s

pub changed-SameServices :
    (f : Entry → Entry) (k : String) (s : Map Entry)
    → ((e : Entry) → ((f e).config ≡ e.config) × ((f e).dependents ≡ e.dependents))
    → SameServices small_windows present s (change f k s).0
changed-SameServices f k s h = record {
  same_installed =
      λ n. change_same (λ o. elim o [ none ↦ false | some _ ↦ true ]) f k n s (λ e. refl);
  same_opening = λ n.
      change_same (λ o. elim o [ none ↦ does_not_exist | some _ ↦ opened ]) f k n s (λ e. refl);
  same_config = λ n. change_same (Option.map (λ e. e.config)) f k n s (λ e. ap some (h e).0);
  same_dependents =
      λ n. change_same (Option.map (λ e. e.dependents)) f k n s (λ e. ap some (h e).1);
}

pub unchanged-SameServices : (s : Map Entry) → SameServices small_windows present s s
unchanged-SameServices s = record {
  same_installed = λ n. refl;
  same_opening = λ n. refl;
  same_config = λ n. refl;
  same_dependents = λ n. refl;
}

abbrev pub small_windows_stable : StableLaws small_windows
small_windows_stable = record {
  installed = present;
  stays_started =
      λ k s. changed-SameServices (λ e. record e { state = running }) k s (λ e. (refl, refl));
  stays_stopped =
      λ k s. changed-SameServices (λ e. record e { state = stopped }) k s (λ e. (refl, refl));
  stays_terminated = λ _ s. unchanged-SameServices s;
  stays_asleep = λ s. unchanged-SameServices s;
}

key-In : (s : Map Entry) (n : String) → has_key n s ≡ true → In n (keys s)
unfolding lookup
key-In [] n h = absurd (ground arith)
key-In ((k, e) ∷ m) n h = elim (Bool-cases (k == n)) [
  | inl same ↦ inl (sym ((eq_iff k n).0 same))
  | inr other ↦ inr (key-In m n (ground (arith, h, other)))
]

delete_left :
    {X : Type 0} (g : Option Entry → X) (k n : String) (s : Map Entry)
    → has_key n (delete k s) ≡ true
    → g (lookup n (delete k s)) ≡ g (lookup n s)
delete_left g k n s h = ap g (ground (arith, lookup-delete k n s))

pub small_windows_removal : RemovalLaws small_windows small_windows_stable
small_windows_removal = record {
  all_listed = λ s names n e h. subst (In n) (ground (arith, e)) (key-In s n h);
  not_installed = λ n s e. ground (arith, e);
  deleted = λ k s h. ground (arith, lookup-delete k k s, eq_iff k k);
  was_installed = λ k n s h. ground (arith, lookup-delete k n s);
  left_as_before = λ k n s h. (
    delete_left (Option.map (λ e. e.config)) k n s h,
    delete_left (λ o. elim o [ none ↦ does_not_exist | some _ ↦ opened ]) k n s h,
  );
}

abbrev pub small_instance : Instance small_windows
small_instance = record {
  get_node = λ _. some (record { name = "node-1"; annotations = []; conditions = [] });
  parse_path = λ _. true;
  find_results = λ path n. some ((text n.name ∷ []) ∷ []);
  run = λ path s. (s, some " 10.0.0.1\r\n");
  range = λ vars. vars;
}

config_updated :
    (k : String) (old new : Config) (s : Map Entry)
    → small_windows.config k s ≡ some old
    → small_windows.config k (small_windows.update_config k new s).0 ≡ some (written old new)
config_updated k old new s found = elim (Option-cases (lookup k s)) [
  | inl e ↦ absurd (ground (arith, rw e at found))
  | inr (x, e) ↦
      let same : x.config ≡ old = ground (arith, rw e at found) in
      rw (e, change)
        (ap (Option.map (λ e. e.config))
            (lookup-insert_self k (record x { config = written x.config new }) s)
          ∙ ap (λ c. some (written c new)) same)
]

others_updated :
    (k n : String) (new : Config) (s : Map Entry)
    → n ≢ k
    → small_windows.config n (small_windows.update_config k new s).0 ≡ small_windows.config n s
others_updated k n new s other = elim (Option-cases (lookup k s)) [
  | inl e ↦ rw (e, change) refl
  | inr (x, e) ↦
      rw (e, change)
        (ap (Option.map (λ e. e.config)) (
          lookup-insert_ne k n (record x { config = written x.config new }) s (λ h. other (sym h))))
]

others_created :
    (k n : String) (s : Map Entry)
    → n ≢ k
    → small_windows.config n (small_windows.create_service k s).0 ≡ small_windows.config n s
others_created k n s other =
    let from : Bool → Map Entry × Bool = λ b. if b then (s, false) else (insert k blank s, true) in
    let seen : Bool → Option Config = λ b. Option.map (λ e. e.config) (lookup n (from b).0) in
    elim (Bool-cases (has_key k s)) [
      | inl there ↦ ap seen there
      | inr absent ↦
          ap seen absent
          ∙ ap (Option.map (λ e. e.config)) (lookup-insert_ne k n blank s (λ h. other (sym h)))
    ]

created_bare :
    (k : String) (s : Map Entry) (c : Config)
    → (small_windows.create_service k s).1 ≡ true
    → small_windows.config k (small_windows.create_service k s).0 ≡ some c
    → elems c.dependencies ≡ []
created_bare k s c done found =
    let from : Bool → Map Entry × Bool = λ b. if b then (s, false) else (insert k blank s, true) in
    let seen : Bool → Option Config = λ b. Option.map (λ e. e.config) (lookup k (from b).0) in
    elim (Bool-cases (has_key k s)) [
      | inl there ↦ absurd (ground (arith, sym (ap (λ b. (from b).1) there) ∙ done))
      | inr absent ↦
          let put : seen false ≡ some c = sym (ap seen absent) ∙ found in
          let bare = ap (Option.map (λ e. e.config)) (lookup-insert_self k blank s) in
          let same : blank.config ≡ c = ground (arith, sym bare ∙ put) in
          ap (λ x. elems x.dependencies) (sym same)
    ]

pub small_windows_config : ConfigLaws small_windows small_instance small_windows_stable
small_windows_config = record {
  updated = λ k old new s found done. config_updated k old new s found;
  others_updated = λ k n new s other. others_updated k n new s other;
  others_created = λ k n s other. others_created k n s other;
  created = created_bare;
  scripts_aside = λ path s. unchanged-SameServices s;
}
