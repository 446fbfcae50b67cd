-- ===== src/Registries/Tests.antt =====
-- Two sets for one source, and the theorems at them.
use windows_machine_config_o.Common.{
  String, ◌≡◌, refl, inl, true, false, Option, none, some, List, [], ◌∷◌, lookup, insert, ◌++◌,
  reverse, IsDistinct, Sorter, IsOrder, insertion_sorter, text_less_asymm, text_less_trans,
  insertion_sort, place, In,
}
use windows_machine_config_o.Registries.{
  split, join, drop_common, extract_mirror_url, extract_registry_hostname, Mirror, MirrorSet,
  MirrorSourcePolicy, merge_mirrors, add_existing, add_new, add_new_mirror, merge_set, add_set,
  add_sets, never_contact_source, less_host, less_source, sort_mirror_sets, merge_mirror_sets,
}
use windows_machine_config_o.Registries.Paths.{Differ, extract_mirror_url-join}
use windows_machine_config_o.Registries.Config.{
  generate_config, mirrors_config, mirror_config, extract_registry_org_path, split_off,
  behind_first, strip_prefix,
}
use windows_machine_config_o.Registries.Merge.{tags_of, merge_mirrors-tags_of}
use windows_machine_config_o.Registries.Policy.{
  policy_of, merge_mirror_sets-policy_of, merge_mirror_sets_unset,
}

less_host-IsOrder : IsOrder less_host
less_host-IsOrder = record {
  asymm = λ x y h. text_less_asymm x.host y.host h;
  trans = λ x y z h k. text_less_trans x.host y.host z.host h k;
}

less_source-IsOrder : IsOrder less_source
less_source-IsOrder = record {
  asymm = λ x y h. text_less_asymm x.source y.source h;
  trans = λ x y z h k. text_less_trans x.source y.source z.source h k;
}

abbrev by_host : Sorter less_host
by_host = insertion_sorter less_host less_host-IsOrder

abbrev by_source : Sorter less_source
by_source = insertion_sorter less_source less_source-IsOrder

abbrev digest : String → Mirror
digest host = record { host = host; resolve_tags = false }

abbrev tag : String → Mirror
tag host = record { host = host; resolve_tags = true }

abbrev set : List Mirror → MirrorSourcePolicy → MirrorSet
set mirrors policy = record { source = "quay.io"; mirrors = mirrors; mirror_source_policy = policy }

abbrev given : List MirrorSet
given =
    set (digest "b.io" ∷ digest "a.io" ∷ []) "" ∷ set (tag "a.io" ∷ []) never_contact_source ∷ []

abbrev merged : MirrorSet
merged = set (tag "a.io" ∷ digest "b.io" ∷ []) ""

merged-given : merge_mirror_sets by_host by_source given ≡ merged ∷ []
unfolding merge_mirror_sets sort_mirror_sets insertion_sorter insertion_sort place add_sets add_set
    merge_set merge_mirrors add_existing add_new add_new_mirror lookup insert
merged-given = refl

merge_mirrors-tags_of_example :
    IsDistinct (λ m. m.host) (merge_mirrors (digest "a.io" ∷ []) (tag "a.io" ∷ []))
    × (tags_of "a.io" (merge_mirrors (digest "a.io" ∷ []) (tag "a.io" ∷ [])) ≡ some true)
merge_mirrors-tags_of_example = merge_mirrors-tags_of (digest "a.io" ∷ []) (tag "a.io" ∷ []) "a.io"

merged-In : In merged (merge_mirror_sets by_host by_source given)
merged-In = rw merged-given (inl refl)

merge_mirror_sets-policy_of_example : policy_of "quay.io" given ≡ some ""
merge_mirror_sets-policy_of_example =
    merge_mirror_sets-policy_of by_host by_source given merged merged-In

merge_mirror_sets_unset_example : merged.mirror_source_policy ≡ ""
merge_mirror_sets_unset_example =
    merge_mirror_sets_unset by_host by_source (set (digest "b.io" ∷ digest "a.io" ∷ []) "")
      (set (tag "a.io" ∷ []) never_contact_source ∷ []) merged refl merged-In refl

abbrev no_scheme : String → Option (String × String)
no_scheme url = none

extracted :
    extract_mirror_url "mcr.microsoft.com/oss/kubernetes" "localhost:5000/kubernetes"
    ≡ "localhost:5000"
unfolding extract_mirror_url split join drop_common
extracted = refl

extract_mirror_url-join_example :
    (left : List String) × (kept : List String) × (shared : List String) × (split "quay.io/app"
      ≡ left ++ shared)
    × (split "b.io/app" ≡ kept ++ shared)
    × Differ (reverse left) (reverse kept)
    × (extract_mirror_url "quay.io/app" "b.io/app" ≡ join kept)
extract_mirror_url-join_example = extract_mirror_url-join "quay.io/app" "b.io/app"

nested : split "b.io/quay.io/app" ≡ ("b.io" ∷ []) ++ split "quay.io/app"
unfolding split
nested = refl

abbrev plain : String → String
plain text = text

generated :
    generate_config no_scheme plain (("b.io", ("user", "pass")) ∷ []) (record {
      source = "quay.io";
      mirrors = tag "b.io/org" ∷ [];
      mirror_source_policy = never_contact_source;
    })
    ≡ "server = \"https://b.io/v2/org\"\n\noverride_path = true\n\n[host.\"https://b.io/v2/org\"]\n  capabilities = [\"pull\", \"resolve\"]\n  override_path = true\n  [host.\"https://b.io/v2/org\".header]\n    authorization = \"Basic user:pass\"\n"
unfolding generate_config mirrors_config mirror_config extract_registry_org_path
    extract_registry_hostname split split_off behind_first strip_prefix lookup
generated = refl

abbrev set_of : String → MirrorSet
set_of source = record {
  source = source;
  mirrors = tag "b.io" ∷ [];
  mirror_source_policy = never_contact_source;
}
