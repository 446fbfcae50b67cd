-- ===== src/ServicesCm/ConfigMap.antt =====
-- pkg/servicescm/servicescm.go: `Generate`, `Parse`, `ValidateExpectedContent`, `List` and `GetLatest`.
-- The texts of encoding/json are what a codec for each value gives.
pub mod Contents
pub mod Encoding
pub mod RoundTrip
pub mod Latest
use text.Mathlib.Text.{starts_with}
use windows_machine_config_o.Common.{
  ℕ, String, ◌≡◌, Bool, true, false, not, ◌&&◌, ◌||◌, Option, none, some, List, [], ◌∷◌, Map,
  lookup, insert, Slice, nil, items, elems, Result, ok, err, ◌>>=◌, ◌>>◌, keep, length, ltb, nat_eq,
  ◌==◌, if◌then◌else◌, Sorter, DeepEqual, deep_equal, Slice_deep_equal, String_deep_equal,
}
use windows_machine_config_o.ServicesCm.Types.{
  Service, FileInfo, Data, Service_deep_equal, FileInfo_deep_equal,
}
use windows_machine_config_o.ServicesCm.Dependencies.{
  Error, key_count, missing_key, service_count, file_count, env_var_count, watched_env_var_count,
  missing_service, missing_file, env_var_mismatch, watched_env_var_mismatch, no_services_cm,
}
use windows_machine_config_o.ServicesCm.Priorities.{less_priority, new_data}

-- core.ConfigMap, as far as the package uses it. The time stamp counts from a fixed moment.
pub record ConfigMap : Type 0 where
  pub name : String
  pub namespace : String
  pub creation_timestamp : ℕ
  pub immutable : Bool
  pub content : Map String

-- `json.Marshal` and `json.Unmarshal` at a type.
pub record Codec (A : Type 0) : Type 0 where
  pub marshal : A → Result Error String
  pub unmarshal : String → Result Error A

pub record Json : Type 0 where
  pub services : Codec (List Service)
  pub files : Codec (List FileInfo)
  pub env_vars : Codec (Map String)
  pub watched : Codec (Slice String)

abbrev pub name_prefix : String
name_prefix = "windows-services-"

abbrev pub services_key : String
services_key = "services"

abbrev pub files_key : String
files_key = "files"

abbrev pub env_vars_key : String
env_vars_key = "environmentVars"

abbrev pub watched_environment_vars_key : String
watched_environment_vars_key = "watchedEnvironmentVars"

-- `len` of a map that may be nil.
abbrev pub map_length : Option (Map String) → ℕ
map_length none = 0
map_length (some m) = length m

abbrev pub map_entries : Option (Map String) → Map String
map_entries none = []
map_entries (some m) = m

-- The entry for the environment variables, which is left out where there are none.
unfoldable pub add_env_vars : Json → Option (Map String) → Map String → Result Error (Map String)
add_env_vars json env_vars content =
    if ltb 0 (map_length env_vars)
    then (do
      text ← json.env_vars.marshal (map_entries env_vars)
      ok (insert env_vars_key text content))
    else ok content

unfoldable pub generate : Json → String → String → Data → Result Error ConfigMap
unfolding add_env_vars insert
generate json name namespace d = do
  services ← json.services.marshal d.services
  files ← json.files.marshal d.files
  content ←
      add_env_vars json d.environment_vars
        (insert files_key files (insert services_key services []))
  watched ← json.watched.marshal d.watched_environment_vars
  ok (record {
    name = name;
    namespace = namespace;
    creation_timestamp = 0;
    immutable = true;
    content = insert watched_environment_vars_key watched content;
  })

-- `value, ok := m[key]; if !ok { return error }`, and the value decoded.
unfoldable pub required : {A : Type 0} → Codec A → String → Map String → Result Error A
unfolding lookup
required codec key content = elim (lookup key content) [
  | none ↦ err (missing_key key)
  | some text ↦ codec.unmarshal text
]

-- An optional key that is absent or empty leaves the variable as it was.
unfoldable pub optional : {A : Type 0} → Codec A → A → String → Map String → Result Error A
unfolding lookup
optional codec default key content = elim (lookup key content) [
  | none ↦ ok default
  | some text ↦ if not (text == "") then codec.unmarshal text else ok default
]

unfoldable pub parse : Json → Sorter less_priority → Map String → Result Error Data
unfolding required optional new_data
parse json by_priority content =
    if ltb (length content) 2 || ltb 4 (length content) then err key_count else (do
      services ← required json.services services_key content
      files ← required json.files files_key content
      env_vars ← optional json.env_vars [] env_vars_key content
      watched ← optional json.watched nil watched_environment_vars_key content
      new_data by_priority services files env_vars watched)

-- `contains`.
unfoldable pub contains : {A : Type 0} ⦃e : DeepEqual A⦄ → List A → A → Bool
contains [] target = false
contains (x ∷ xs) target = deep_equal target x || contains xs target

-- The loops over the expected services and files: the first one that is missing.
unfoldable pub first_missing : {A : Type 0} ⦃e : DeepEqual A⦄ → List A → List A → Option A
unfolding contains
first_missing actual [] = none
first_missing actual (x ∷ xs) =
    let rest = first_missing actual xs in if contains actual x then rest else some x

-- `reflect.DeepEqual` of maps: as many keys, and each with an equal value.
unfoldable pub entries_within : Map String → Map String → Bool
unfolding lookup
entries_within [] n = true
entries_within ((k, v) ∷ m) n =
    elim (lookup k n) [ none ↦ false | some w ↦ v == w ] && entries_within m n

unfoldable pub maps_equal : Option (Map String) → Option (Map String) → Bool
unfolding entries_within
maps_equal none none = true
maps_equal (some m) (some n) = nat_eq (length m) (length n) && entries_within m n
maps_equal _ _ = false

abbrev guard : Bool → Error → Result Error (Unit {0})
guard true e = ok tt
guard false e = err e

abbrev absent : {A : Type 0} → Option A → (A → Error) → Result Error (Unit {0})
absent none e = ok tt
absent (some x) e = err (e x)

unfoldable pub validate_expected_content : Data → Data → Result Error (Unit {0})
unfolding first_missing maps_equal
validate_expected_content d expected = do
  guard (nat_eq (length d.services) (length expected.services)) service_count
  absent (first_missing d.services expected.services) (λ s. missing_service s.name)
  guard (nat_eq (length d.files) (length expected.files)) file_count
  absent (first_missing d.files expected.files) (λ f. missing_file f.path)
  guard (nat_eq (map_length d.environment_vars) (map_length expected.environment_vars))
      env_var_count
  guard (maps_equal d.environment_vars expected.environment_vars) env_var_mismatch
  guard
      (nat_eq (length (elems d.watched_environment_vars))
        (length (elems expected.watched_environment_vars)))
      watched_env_var_count
  guard (deep_equal d.watched_environment_vars expected.watched_environment_vars)
      watched_env_var_mismatch

-- The loop of `List`, over the ConfigMaps that the API lists for the namespace.
unfoldable pub list_services_cms : List ConfigMap → List ConfigMap
unfolding keep
list_services_cms = keep (λ cm. starts_with cm.name name_prefix)

-- `i.CreationTimestamp.After(j.CreationTimestamp)`.
abbrev pub created_after : ConfigMap → ConfigMap → Bool
created_after a b = ltb b.creation_timestamp a.creation_timestamp

-- `GetLatest`, on what the API call of `List` answers.
unfoldable pub get_latest :
    Sorter created_after → Result Error (List ConfigMap) → Result Error ConfigMap
unfolding list_services_cms
get_latest newest_first listed = do
  cms ← listed
  elim (list_services_cms cms) [
    | [] ↦ err no_services_cm
    | cm ∷ rest ↦ elim (newest_first.sort (cm ∷ rest)) [ [] ↦ err no_services_cm | c ∷ _ ↦ ok c ]
  ]
