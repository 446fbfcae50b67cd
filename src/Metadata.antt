-- ===== src/Metadata.antt =====
-- pkg/metadata/metadata.go and pkg/patch/patch.go: the labels and annotations that the operator puts on nodes.
pub mod Waiting
use Prim.Native.String.{◌++◌}
use windows_machine_config_o.Common.{
  ℕ, zero, suc, String, Bool, true, false, not, ◌||◌, Option, none, some, List, [], ◌∷◌, Map,
  lookup, insert, has_key, Result, ok, err, ◌==◌, if◌then◌else◌,
}
use windows_machine_config_o.Common.Actions.{Action, pure, fail, acts, skip_if}
use windows_machine_config_o.Common.Text.{replace_all}
use mathlib.Core.List.{◌++◌ as list_append}

abbrev pub version_annotation : String
version_annotation = "windowsmachineconfig.openshift.io/version"

abbrev pub desired_version_annotation : String
desired_version_annotation = "windowsmachineconfig.openshift.io/desired-version"

abbrev pub reboot_annotation : String
reboot_annotation = "windowsmachineconfig.openshift.io/reboot-required"

abbrev pub upgrading_label : String
upgrading_label = "windowsmachineconfig.openshift.io/upgrading"

-- What the code reads of a node.
pub record Node : Type 0 where
  pub name : String
  pub labels : Map String
  pub annotations : Map String
  pub addresses : List String

-- `JSONPatch`; the values are texts.
pub record JsonPatch : Type 0 where
  pub op : String
  pub path : String
  pub value : String

pub data Error : Type 0 where
  labels_and_annotations_empty patch_error get_error no_desired_version timed_out : Error

unfoldable pub escape : String → String
unfolding replace_all
escape key = replace_all key "/" "~1"

-- `path.Join` of a directory below "/metadata" and a name without a slash.
unfoldable pub join_path : String → String → String
join_path dir name =
    if (name == "") || (name == ".")
    then "/metadata/" ++ dir
    else (if name == ".." then "/metadata" else "/metadata/" ++ dir ++ "/" ++ name)

-- One of the two loops of `generatePatch`.
unfoldable pub patches_of : String → String → Map String → List JsonPatch
unfolding escape join_path
patches_of op dir [] = []
patches_of op dir ((key, value) ∷ rest) =
    record { op = op; path = join_path dir (escape key); value = value } ∷ patches_of op dir rest

-- `generatePatch`; a nil map is like one without entries.
unfoldable pub generate_patch : String → Map String → Map String → Result Error (List JsonPatch)
unfolding patches_of
generate_patch op [] [] = err labels_and_annotations_empty
generate_patch op (l ∷ labels) annotations =
    ok (list_append (patches_of op "labels" (l ∷ labels)) (patches_of op "annotations" annotations))
generate_patch op [] (a ∷ annotations) = ok (patches_of op "annotations" (a ∷ annotations))

unfoldable pub blank_values : List String → Map String → Map String
unfolding insert
blank_values [] m = m
blank_values (k ∷ ks) m = blank_values ks (insert k "" m)

-- `GenerateAddPatch` and `GenerateRemovePatch`; the bytes stay decoded.
unfoldable pub generate_add_patch : Map String → Map String → Result Error (List JsonPatch)
unfolding generate_patch
generate_add_patch labels annotations = generate_patch "add" labels annotations

unfoldable pub generate_remove_patch : List String → List String → Result Error (List JsonPatch)
unfolding generate_patch blank_values
generate_remove_patch labels annotations =
    generate_patch "remove" (blank_values labels []) (blank_values annotations [])

-- The calls of the client for nodes. A patch is for the node of the name, and answers whether there was no
-- error; `sleep` is the time between two polls, in which others act.
pub record NodeClient : Type 1 where
  pub State : Type 0
  pub get : String → State → Option Node
  pub patch : String → List JsonPatch → State → State × Bool
  pub sleep : State → State

-- `retry.Timeout` in steps of `retry.Interval`.
abbrev pub polls : ℕ
polls = 40

-- `m[k]`.
abbrev pub value_of : String → Map String → String
value_of k m = elim (lookup k m) [ none ↦ "" | some v ↦ v ]

module _ (c : NodeClient) where
  open c use {State, get, patch, sleep}

  unfoldable pub apply_patch :
      String → Result Error (List JsonPatch) → Action State Error (Unit {0})
  apply_patch name (err e) = fail e
  apply_patch name (ok patches) = acts patch_error (patch name patches)

  -- `ApplyLabelsAndAnnotations`.
  unfoldable pub apply_labels_and_annotations :
      Node → Map String → Map String → Action State Error (Unit {0})
  unfolding generate_add_patch
  apply_labels_and_annotations node labels annotations =
      apply_patch node.name (generate_add_patch labels annotations)

  abbrev pub apply_version_annotation : Node → String → Action State Error (Unit {0})
  apply_version_annotation node value =
      apply_labels_and_annotations node [] ((version_annotation, value) ∷ [])

  abbrev pub apply_desired_version_annotation : Node → String → Action State Error (Unit {0})
  apply_desired_version_annotation node value =
      apply_labels_and_annotations node [] ((desired_version_annotation, value) ∷ [])

  abbrev pub apply_reboot_annotation : Node → Action State Error (Unit {0})
  apply_reboot_annotation node = apply_labels_and_annotations node [] ((reboot_annotation, "") ∷ [])

  abbrev pub apply_upgrading_label : Node → Action State Error (Unit {0})
  apply_upgrading_label node = apply_labels_and_annotations node ((upgrading_label, "true") ∷ []) []

  -- `removeLabel`, and what the functions that remove an annotation do.
  unfoldable pub remove_label : String → Node → Action State Error (Unit {0})
  unfolding generate_remove_patch
  remove_label label node =
      skip_if (not (has_key label node.labels))
        (apply_patch node.name (generate_remove_patch (label ∷ []) []))

  unfoldable pub remove_annotation : String → Node → Action State Error (Unit {0})
  unfolding generate_remove_patch
  remove_annotation annotation node =
      skip_if (not (has_key annotation node.annotations))
        (apply_patch node.name (generate_remove_patch [] (annotation ∷ [])))

  abbrev pub remove_version_annotation : Node → Action State Error (Unit {0})
  remove_version_annotation = remove_annotation version_annotation

  abbrev pub remove_reboot_annotation : Node → Action State Error (Unit {0})
  remove_reboot_annotation = remove_annotation reboot_annotation

  abbrev pub remove_upgrading_label : Node → Action State Error (Unit {0})
  remove_upgrading_label = remove_label upgrading_label

  -- `wait.Poll`, which waits before each call of the condition.
  unfoldable pub poll : (State → Result Error Bool) → ℕ → Action State Error (Unit {0})
  poll condition zero s = (s, err timed_out)
  poll condition (suc n) s = elim (condition (sleep s)) [
    | err e ↦ (sleep s, err e)
    | ok true ↦ (sleep s, ok tt)
    | ok false ↦ poll condition n (sleep s)
  ]

  -- The condition of `WaitForVersionAnnotation`.
  unfoldable pub versions_agree : String → State → Result Error Bool
  unfolding lookup
  versions_agree name s = elim (get name s) [
    | none ↦ err get_error
    | some node ↦ elim (lookup desired_version_annotation node.annotations) [
      | none ↦ err no_desired_version
      | some desired ↦ ok (value_of version_annotation node.annotations == desired)
    ]
  ]

  unfoldable pub wait_for_version_annotation : String → Action State Error (Unit {0})
  unfolding versions_agree
  wait_for_version_annotation name = poll (versions_agree name) polls

  -- The condition of `WaitForRebootAnnotationRemoval`.
  unfoldable pub no_reboot_required : String → State → Result Error Bool
  unfolding lookup
  no_reboot_required name s = elim (get name s) [
    | none ↦ ok false
    | some node ↦ ok (not (has_key reboot_annotation node.annotations))
  ]

  unfoldable pub wait_for_reboot_annotation_removal : String → Action State Error (Unit {0})
  unfolding no_reboot_required
  wait_for_reboot_annotation_removal name = poll (no_reboot_required name) polls
