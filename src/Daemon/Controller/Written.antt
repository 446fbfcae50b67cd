-- ===== src/Daemon/Controller/Written.antt =====
-- pkg/daemon/controller/controller.go: what an update of a service's configuration writes.
use Prim.Native.String.{◌++◌ as text_append}
use windows_machine_config_o.Common.{
  String, ◌≡◌, ◌≢◌, refl, inl, inr, true, false, some, [], ◌∷◌, Slice, nil, items, elems, ◌==◌,
  if◌then◌else◌, deep_equal_iff, String_deep_equal, Slice_deep_equal, arith, eq_iff, Bool-cases,
  List-cases, sym, ap, ◌∙◌,
}
use windows_machine_config_o.ServicesCm.Types.{Service}
use windows_machine_config_o.Daemon.Cleanup.{managed_tag}
use windows_machine_config_o.Daemon.Manager.{WindowsApi, Config}
use windows_machine_config_o.Daemon.Manager.States.{StableLaws, SameServices}
use windows_machine_config_o.Daemon.Controller.{
  Instance, slices_equivalent, expected_config, update_required,
}

unfoldable pub kept_or : Slice String → Slice String → Slice String
kept_or old nil = old
kept_or old (items []) = old
kept_or old (items (d ∷ ds)) = items (d ∷ ds)

-- `ChangeServiceConfig` gets a null pointer for an empty text, and for no dependencies, by which it
-- leaves what there was.
abbrev pub written : Config → Config → Config
written old new = record {
  binary_path_name =
      if new.binary_path_name == "" then old.binary_path_name else new.binary_path_name;
  description = new.description;
  dependencies = kept_or old.dependencies new.dependencies;
}

-- What golang.org/x/sys/windows/svc/mgr and Windows document of the configuration of services, and that the
-- scripts leave the services alone.
pub record ConfigLaws (w : WindowsApi) (i : Instance w) (laws : StableLaws w) : Type 0 where
  pub updated :
      (k : String) (old new : Config) (s : w.State)
      → w.config k s ≡ some old
      → (w.update_config k new s).1 ≡ true
      → w.config k (w.update_config k new s).0 ≡ some (written old new)
  pub others_updated :
      (k n : String) (new : Config) (s : w.State)
      → n ≢ k
      → w.config n (w.update_config k new s).0 ≡ w.config n s
  pub others_created :
      (k n : String) (s : w.State) → n ≢ k → w.config n (w.create_service k s).0 ≡ w.config n s
  -- A service that was created has no dependencies.
  pub created :
      (k : String) (s : w.State) (c : Config)
      → (w.create_service k s).1 ≡ true
      → w.config k (w.create_service k s).0 ≡ some c
      → elems c.dependencies ≡ []
  pub scripts_aside :
      (path : String) (s : w.State) → SameServices w laws.installed s (i.run path s).0

slices_equivalent-eq : (a b : Slice String) → slices_equivalent a b ≡ true → elems b ≢ [] → a ≡ b
unfolding slices_equivalent
slices_equivalent-eq a nil h used = absurd (used refl)
slices_equivalent-eq a (items []) h used = absurd (used refl)
slices_equivalent-eq nil (items (y ∷ ys)) h used = (deep_equal_iff nil (items (y ∷ ys))).0 h
slices_equivalent-eq (items []) (items (y ∷ ys)) h used =
    (deep_equal_iff (items []) (items (y ∷ ys))).0 h
slices_equivalent-eq (items (x ∷ xs)) (items (y ∷ ys)) h used =
    (deep_equal_iff (items (x ∷ xs)) (items (y ∷ ys))).0 h

-- The dependencies that are written, where some are expected.
kept_or-used : (old new : Slice String) → elems new ≢ [] → kept_or old new ≡ new
unfolding kept_or
kept_or-used old nil used = absurd (used refl)
kept_or-used old (items []) used = absurd (used refl)
kept_or-used old (items (d ∷ ds)) used = refl

-- The dependencies that are written, where some are expected.
written_dependencies :
    (old expected : Slice String)
    → elems expected ≢ []
    → kept_or old (if slices_equivalent old expected then old else expected) ≡ expected
written_dependencies old expected used = elim (Bool-cases (slices_equivalent old expected)) [
  | inr other ↦ rw other (kept_or-used old expected used)
  | inl same ↦
      let e = slices_equivalent-eq old expected same used in
      rw (same, e) (kept_or-used expected expected used)
]

slices_equivalent_refl : (a : Slice String) → slices_equivalent a a ≡ true
unfolding slices_equivalent
slices_equivalent_refl nil = refl
slices_equivalent_refl (items []) = refl
slices_equivalent_refl (items (x ∷ xs)) = (deep_equal_iff (items (x ∷ xs)) (items (x ∷ xs))).1 refl

slices_equivalent-empty :
    (a b : Slice String) → elems a ≡ [] → elems b ≡ [] → slices_equivalent a b ≡ true
unfolding slices_equivalent
slices_equivalent-empty nil nil e f = refl
slices_equivalent-empty nil (items []) e f = refl
slices_equivalent-empty nil (items (y ∷ ys)) e f = absurd (ground (arith, f))
slices_equivalent-empty (items []) nil e f = refl
slices_equivalent-empty (items []) (items []) e f = refl
slices_equivalent-empty (items []) (items (y ∷ ys)) e f = absurd (ground (arith, f))
slices_equivalent-empty (items (x ∷ xs)) b e f = absurd (ground (arith, e))

kept_or-empty :
    (old new : Slice String) → elems old ≡ [] → elems new ≡ [] → elems (kept_or old new) ≡ []
unfolding kept_or
kept_or-empty old nil e f = e
kept_or-empty old (items []) e f = e
kept_or-empty old (items (d ∷ ds)) e f = absurd (ground (arith, f))

-- The dependencies that are written are the expected ones, but for those that an update cannot clear.
written-slices_equivalent :
    (old expected : Slice String)
    → (elems expected ≡ [] → elems old ≡ [])
    → slices_equivalent
        (kept_or old (if slices_equivalent old expected then old else expected))
        expected
      ≡ true
written-slices_equivalent old expected cleared = elim (List-cases (elems expected)) [
  | inl empty ↦
      let new = if slices_equivalent old expected then old else expected in
      let unused : elems new ≡ [] = elim (Bool-cases (slices_equivalent old expected)) [
        | inl same ↦ rw same (cleared empty)
        | inr other ↦ rw other empty
      ] in
      slices_equivalent-empty (kept_or old new) expected
        (kept_or-empty old new (cleared empty) unused) empty
  | inr (d, ds, some_listed) ↦
      let used : elems expected ≢ [] = λ e. absurd (ground (arith, sym some_listed ∙ e)) in
      rw (written_dependencies old expected used) (slices_equivalent_refl expected)
]

-- Behind an update none is required, for a command that is not empty.
pub written-update_required :
    (cmd : String) (expected : Service) (old : Config)
    → cmd ≢ ""
    → (elems expected.dependencies ≡ [] → elems old.dependencies ≡ [])
    → update_required cmd expected (written old (expected_config cmd expected old)) ≡ false
written-update_required cmd expected old given cleared =
    let tag = text_append managed_tag (text_append " " expected.name) in
    let same = written-slices_equivalent old.dependencies expected.dependencies cleared in
    let command : (written old (expected_config cmd expected old)).binary_path_name ≡ cmd =
      ground (arith, eq_iff cmd "", given) in
    ground (
      arith,
      same,
      eq_iff tag tag,
      (eq_iff (written old (expected_config cmd expected old)).binary_path_name cmd).1 command,
    )

slices_equivalent-elems : (a b : Slice String) → slices_equivalent a b ≡ true → elems a ≡ elems b
unfolding slices_equivalent
slices_equivalent-elems nil nil h = refl
slices_equivalent-elems nil (items []) h = refl
slices_equivalent-elems nil (items (y ∷ ys)) h =
    ap elems ((deep_equal_iff nil (items (y ∷ ys))).0 h)
slices_equivalent-elems (items []) nil h = refl
slices_equivalent-elems (items []) (items []) h = refl
slices_equivalent-elems (items []) (items (y ∷ ys)) h =
    ap elems ((deep_equal_iff (items []) (items (y ∷ ys))).0 h)
slices_equivalent-elems (items (x ∷ xs)) b h = ap elems ((deep_equal_iff (items (x ∷ xs)) b).0 h)

-- What a service is expected to be configured with.
pub record AsExpected (cmd : String) (expected : Service) (c : Config) : Type 0 where
  pub command : c.binary_path_name ≡ cmd
  pub description : c.description ≡ text_append managed_tag (text_append " " expected.name)
  pub dependencies : elems c.dependencies ≡ elems expected.dependencies

-- Where no update is required, all is as expected.
pub update_required-AsExpected :
    (cmd : String) (expected : Service) (c : Config)
    → update_required cmd expected c ≡ false
    → AsExpected cmd expected c
update_required-AsExpected cmd expected c none_needed =
    let tag = text_append managed_tag (text_append " " expected.name) in
    let same : slices_equivalent c.dependencies expected.dependencies ≡ true =
      ground (arith, none_needed) in
    record {
      command = (eq_iff c.binary_path_name cmd).0 (ground (arith, none_needed));
      description = (eq_iff c.description tag).0 (ground (arith, none_needed));
      dependencies = slices_equivalent-elems c.dependencies expected.dependencies same;
    }
