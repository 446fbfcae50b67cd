-- ===== src/Registries.antt =====
-- pkg/registries/registries.go: the mirrors of image registries, merged by source.
pub mod Merge
pub mod Policy
pub mod Paths
pub mod Config
mod Tests
use Prim.Native.Char.{Char, code}
use Prim.Native.String.{[], ◌∷◌, ◌++◌ as text_append}
use windows_machine_config_o.Common.{
  nat_eq, reverse, ◌++◌, String, Bool, true, false, not, ◌&&◌, Option, none, some, List, [], ◌∷◌,
  Map, lookup, insert, values, ◌==◌, if◌then◌else◌, Sorter, map, text_less,
}

pub record Mirror : Type 0 where
  pub host : String
  pub resolve_tags : Bool

-- `config.MirrorSourcePolicy`; a policy that is not set is the empty text.
abbrev pub MirrorSourcePolicy : Type 0
MirrorSourcePolicy = String

abbrev pub never_contact_source : MirrorSourcePolicy
never_contact_source = "NeverContactSource"

abbrev pub allow_contacting_source : MirrorSourcePolicy
allow_contacting_source = "AllowContactingSource"

-- `strings.Split` and `strings.Join` at the separator of image paths.
abbrev pub is_separator : Char → Bool
is_separator c = nat_eq (code c) 47

abbrev pub put_first : Char → List String → List String
put_first c [] = (c ∷ []) ∷ []
put_first c (part ∷ parts) = (c ∷ part) ∷ parts

unfoldable pub split : String → List String
split [] = [] ∷ []
split (c ∷ s) = let rest = split s in if is_separator c then [] ∷ rest else put_first c rest

unfoldable pub join : List String → String
join [] = ""
join (part ∷ parts) =
    let rest = join parts in
    elim parts [ [] ↦ part | _ ∷ _ ↦ text_append part (text_append "/" rest) ]

-- `uniqueMirrorParts[:len(uniqueMirrorParts)-1]`.
abbrev pub drop_last : List String → List String
drop_last [] = []
drop_last (part ∷ parts) = elim parts [ [] ↦ [] | _ ∷ _ ↦ part ∷ drop_last parts ]

-- The loop of `extractMirrorURL`, which goes through both lists from their backs.
unfoldable pub drop_common : List String → List String → List String → List String
drop_common [] back unique = unique
drop_common (s ∷ ss) [] unique = unique
drop_common (s ∷ ss) (m ∷ ms) unique =
    let dropped = drop_common ss ms (drop_last unique) in if s == m then dropped else unique

unfoldable pub extract_mirror_url : String → String → String
unfolding split join drop_common
extract_mirror_url source mirror =
    let parts = split mirror in join (drop_common (reverse (split source)) (reverse parts) parts)

module _ (parse_url : String → Option (String × String)) where
  -- `extractRegistryHostname`; what `url.Parse` answers is the name and the port of the host, or nothing
  -- for an error.
  unfoldable pub extract_registry_hostname : String → String
  unfolding split
  extract_registry_hostname full_image =
      let before_slash : String = elim (split full_image) [ [] ↦ "" | part ∷ _ ↦ part ] in
      elim (parse_url full_image) [
        | none ↦ before_slash
        | some url ↦
            if url.0 == ""
            then before_slash
            else (if url.1 == "" then url.0 else text_append url.0 (text_append ":" url.1))
      ]

  unfoldable pub new_mirror : String → String → Bool → Mirror
  unfolding extract_mirror_url extract_registry_hostname
  new_mirror source mirror resolve_tags = record {
    host =
        if source == mirror
        then extract_registry_hostname mirror
        else extract_mirror_url source mirror;
    resolve_tags = resolve_tags;
  }

pub record MirrorSet : Type 0 where
  pub source : String
  pub mirrors : List Mirror
  pub mirror_source_policy : MirrorSourcePolicy

module _ (parse_url : String → Option (String × String)) where
  unfoldable pub new_mirror_set : String → List String → Bool → MirrorSourcePolicy → MirrorSet
  unfolding new_mirror extract_registry_hostname
  new_mirror_set source locations resolve_tags policy = record {
    source = extract_registry_hostname parse_url source;
    mirrors = map (λ m. new_mirror parse_url source m resolve_tags) locations;
    mirror_source_policy = policy;
  }

-- The loop over the existing mirrors of `mergeMirrors`.
unfoldable pub add_existing : List Mirror → Map Mirror → Map Mirror
unfolding insert
add_existing [] unique = unique
add_existing (m ∷ ms) unique = add_existing ms (insert m.host m unique)

-- One round of the loop over the new ones.
unfoldable pub add_new_mirror : Mirror → Map Mirror → Map Mirror
unfolding lookup insert
add_new_mirror m unique = elim (lookup m.host unique) [
  | some existing ↦
      if not existing.resolve_tags && m.resolve_tags then insert m.host m unique else unique
  | none ↦ insert m.host m unique
]

unfoldable pub add_new : List Mirror → Map Mirror → Map Mirror
unfolding add_new_mirror
add_new [] unique = unique
add_new (m ∷ ms) unique = add_new ms (add_new_mirror m unique)

unfoldable pub merge_mirrors : List Mirror → List Mirror → List Mirror
unfolding add_existing add_new
merge_mirrors existing new = values (add_new new (add_existing existing []))

-- What is kept of two sets for one source.
unfoldable pub merge_set : MirrorSet → MirrorSet → MirrorSet
unfolding merge_mirrors
merge_set existing ms = record {
  source = existing.source;
  mirrors = merge_mirrors existing.mirrors ms.mirrors;
  mirror_source_policy =
      if existing.mirror_source_policy == allow_contacting_source
      then ms.mirror_source_policy
      else existing.mirror_source_policy;
}

-- The loop of `mergeMirrorSets`.
unfoldable pub add_set : MirrorSet → Map MirrorSet → Map MirrorSet
unfolding lookup insert merge_set
add_set ms unique = elim (lookup ms.source unique) [
  | some existing ↦ insert ms.source (merge_set existing ms) unique
  | none ↦ insert ms.source ms unique
]

unfoldable pub add_sets : List MirrorSet → Map MirrorSet → Map MirrorSet
unfolding add_set
add_sets [] unique = unique
add_sets (ms ∷ rest) unique = add_sets rest (add_set ms unique)

abbrev pub less_host : Mirror → Mirror → Bool
less_host m n = text_less m.host n.host

abbrev pub less_source : MirrorSet → MirrorSet → Bool
less_source m n = text_less m.source n.source

module _ (by_host : Sorter less_host) (by_source : Sorter less_source) where
  abbrev pub sort_mirrors : MirrorSet → MirrorSet
  sort_mirrors ms = record {
    source = ms.source;
    mirrors = by_host.sort ms.mirrors;
    mirror_source_policy = ms.mirror_source_policy;
  }

  unfoldable pub sort_mirror_sets : List MirrorSet → List MirrorSet
  sort_mirror_sets sets = by_source.sort (map sort_mirrors sets)

  unfoldable pub merge_mirror_sets : List MirrorSet → List MirrorSet
  unfolding add_sets sort_mirror_sets
  merge_mirror_sets [] = []
  merge_mirror_sets (ms ∷ rest) = sort_mirror_sets (values (add_sets (ms ∷ rest) []))

-- An entry of `ImageDigestMirrors` or of `ImageTagMirrors`.
pub record Entry : Type 0 where
  pub source : String
  pub mirrors : List String
  pub policy : MirrorSourcePolicy

module _ (parse_url : String → Option (String × String)) (by_host : Sorter less_host)
    (by_source : Sorter less_source) where
  unfoldable pub mirror_sets : Bool → List (List Entry) → List MirrorSet
  unfolding new_mirror_set
  mirror_sets resolve_tags [] = []
  mirror_sets resolve_tags (entries ∷ items) =
      map (λ e. new_mirror_set parse_url e.source e.mirrors resolve_tags e.policy) entries
      ++ mirror_sets resolve_tags items

  -- `getMergedMirrorSets`: each item is the list of its entries.
  unfoldable pub get_merged_mirror_sets : List (List Entry) → List (List Entry) → List MirrorSet
  unfolding merge_mirror_sets mirror_sets
  get_merged_mirror_sets idms itms =
      merge_mirror_sets by_host by_source (mirror_sets false idms ++ mirror_sets true itms)
