-- ===== src/Ignition/Arguments.antt =====
-- pkg/ignition/ignition.go: the rendered configuration that is read, and the arguments that are taken.
use mathlib.Core.List.Permᴰ
use native.Mathlib.Nat.{le_refl}
use text.Mathlib.Text.{starts_with}
use windows_machine_config_o.Common.{
  ok_injective, ◌≤◌, String, ◌≡◌, ◌≢◌, refl, sym, ap, subst, ◌∙◌, inl, inr, Bool, true, false, not,
  ◌&&◌, some, List, [], ◌∷◌, Map, lookup, insert, lookup-insert, In, In-perm, All→In, ok, any, ◌==◌,
  ltb→le, Sorter, IsSorted, arith, eq_iff, Bool-cases, Option-cases,
}
use windows_machine_config_o.Common.Text.{cut, trim_space, trim_prefix, split_text}
use windows_machine_config_o.Ignition.{
  MachineConfig, newer, rendered_worker_prefix, first_rendered, get_latest_rendered_worker,
  windows_args, put_arg, put_args, parse_kubelet_args, behind_first, before_blank_line,
}

-- A rendered configuration of the worker nodes that has content.
pub record IsRendered (mc : MachineConfig) : Type 0 where
  pub prefix : starts_with mc.name rendered_worker_prefix ≡ true
  pub content : mc.raw ≢ ""

abbrev is_rendered : MachineConfig → Bool
is_rendered mc = starts_with mc.name rendered_worker_prefix && not (mc.raw == "")

is_rendered-IsRendered : (mc : MachineConfig) → is_rendered mc ≡ true → IsRendered mc
is_rendered-IsRendered mc e = record {
  prefix = ground (arith, e);
  content = λ blank. absurd (ground (arith, e, (eq_iff mc.raw "").1 blank));
}

IsRendered-is_rendered : (mc : MachineConfig) → IsRendered mc → is_rendered mc ≡ true
IsRendered-is_rendered mc h = ground (arith, h.prefix, h.content, eq_iff mc.raw "")

first_rendered-IsRendered :
    (mcs : List MachineConfig) (mc : MachineConfig)
    → IsSorted newer mcs
    → first_rendered mcs ≡ ok mc
    → In mc mcs
      × IsRendered mc
      × ((x : MachineConfig)
          → In x mcs
          → IsRendered x
          → x.creation_timestamp ≤ mc.creation_timestamp)
unfolding first_rendered
first_rendered-IsRendered [] mc sorted e = absurd (ground arith)
first_rendered-IsRendered (y ∷ ys) mc sorted e = elim (Bool-cases (is_rendered y)) [
  | inl taken ↦
      let same : y ≡ mc = ground (arith, rw (taken, first_rendered) at e) in
      subst
        (λ z.
          In z (y ∷ ys)
          × IsRendered z
          × ((x : MachineConfig)
              → In x (y ∷ ys)
              → IsRendered x
              → x.creation_timestamp ≤ z.creation_timestamp))
        same
        (
          inl refl,
          is_rendered-IsRendered y taken,
          λ x i rendered_x. elim i [
            | inl at ↦ rw at (le_refl y.creation_timestamp)
            | inr later ↦
                let not_newer = All→In (λ z. newer z y ≡ false) x ys sorted.0 later in
                ltb→le y.creation_timestamp x.creation_timestamp not_newer
          ],
        )
  | inr passed ↦
      let (listed, rendered, newest) =
        first_rendered-IsRendered ys mc sorted.1 (rw (passed, first_rendered) at e) in
      (
        inr listed,
        rendered,
        λ x i ok_x. elim i [
          | inl same ↦
              let rendered_y : is_rendered y ≡ true =
                ap is_rendered (sym same) ∙ IsRendered-is_rendered x ok_x in
              absurd (cc (sym rendered_y ∙ passed))
          | inr later ↦ newest x later ok_x
        ],
      )
]

-- The arguments that are taken have a wanted name.
abbrev AreWanted : Map String → Type 0
AreWanted args = (k v : String) → lookup k args ≡ some v → any (λ w. w == k) windows_args ≡ true

insert-AreWanted :
    (k v : String) (args : Map String)
    → any (λ w. w == k) windows_args ≡ true
    → AreWanted args
    → AreWanted (insert k v args)
insert-AreWanted k v args wanted h j x found = elim (Bool-cases (k == j)) [
  | inl same ↦ ap (λ n. any (λ w. w == n) windows_args) (sym ((eq_iff k j).0 same)) ∙ wanted
  | inr other ↦ h j x (ground (arith, found, other, lookup-insert k j v args))
]

put_arg-AreWanted :
    (arg : String) (args : Map String) → AreWanted args → AreWanted (put_arg arg args)
unfolding put_arg
put_arg-AreWanted arg args h = elim (Option-cases (cut "=" (trim_prefix (trim_space arg) "--"))) [
  | inl e ↦ rw (e, put_arg) h
  | inr (pair, e) ↦ elim (Bool-cases (any (λ w. w == pair.0) windows_args)) [
    | inr other ↦ rw (e, put_arg, other) h
    | inl wanted ↦ rw (e, put_arg, wanted) (insert-AreWanted pair.0 pair.1 args wanted h)
  ]
]

put_args-AreWanted :
    (args : List String) (m : Map String) → AreWanted m → AreWanted (put_args args m)
unfolding put_args
put_args-AreWanted [] m h = h
put_args-AreWanted (a ∷ rest) m h = put_args-AreWanted rest (put_arg a m) (put_arg-AreWanted a m h)

-- The arguments that parseKubeletArgs answers are for cloud-provider and cloud-config only, whatever the
-- unit file has.
parse_kubelet_args-any :
    (unit_contents : String) (args : Map String) (k v : String)
    → parse_kubelet_args unit_contents ≡ ok args
    → lookup k args ≡ some v
    → any (λ w. w == k) windows_args ≡ true
unfolding parse_kubelet_args lookup
parse_kubelet_args-any unit_contents args k v e found =
    elim (Option-cases (cut "ExecStart=" unit_contents)) [
      | inl h ↦ absurd (ground (arith, rw (h, parse_kubelet_args) at e))
      | inr (parts, h) ↦
          let same = ok_injective (rw (h, parse_kubelet_args) at e) in
          put_args-AreWanted (behind_first (split_text "\\\n" (before_blank_line parts.1))) []
            (λ j x none_there. absurd (ground (arith, none_there))) k v (ap (lookup k) same ∙ found)
    ]

-- A success of getLatestRenderedWorker is a listed MachineConfig with the prefix of the rendered ones of the
-- workers and with content, and no other such MachineConfig was created after it.
get_latest_rendered_worker-IsRendered :
    (latest_first : Sorter newer) (configs : List MachineConfig) (mc : MachineConfig)
    → get_latest_rendered_worker latest_first configs ≡ ok mc
    → In mc configs
      × IsRendered mc
      × ((x : MachineConfig)
          → In x configs
          → IsRendered x
          → x.creation_timestamp ≤ mc.creation_timestamp)
unfolding get_latest_rendered_worker
get_latest_rendered_worker-IsRendered latest_first configs mc e =
    let perm = latest_first.sort-perm configs in
    let (listed, rendered, newest) =
      first_rendered-IsRendered (latest_first.sort configs) mc (latest_first.sort-IsSorted configs)
        e in
    (
      In-perm mc perm listed,
      rendered,
      λ x i rendered_x. newest x (In-perm x (Permᴰ.symm perm) i) rendered_x,
    )
