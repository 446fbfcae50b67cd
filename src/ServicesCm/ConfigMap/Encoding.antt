-- ===== src/ServicesCm/ConfigMap/Encoding.antt =====
-- What the package relies on of encoding/json, the entries that `Generate` writes, and what `Parse` makes of
-- them.
use windows_machine_config_o.Common.{
  ◌<◌, String, ◌≡◌, ◌≢◌, inl, inr, none, some, List, [], ◌∷◌, map, Map, HasUniqueKeys, Slice, nil,
  items, ok, length, eq_iff, arith, Sorter, Result-cases,
}
use windows_machine_config_o.ServicesCm.Types.{Service, FileInfo, Data}
use windows_machine_config_o.ServicesCm.Priorities.{less_priority, new_data}
use windows_machine_config_o.ServicesCm.ConfigMap.{
  ConfigMap, Json, generate, parse, services_key, files_key, env_vars_key,
  watched_environment_vars_key,
}
use windows_machine_config_o.ServicesCm.ConfigMap.Contents.{IsWithin}

-- An empty slice in a field marked `omitempty` is not written, and is nil when it is read.
abbrev pub omit_empty : {A : Type 0} → Slice A → Slice A
omit_empty (items []) = nil
omit_empty s = s

unfoldable pub written : Service → Service
written s = record s {
  node_variables_in_command = omit_empty s.node_variables_in_command;
  powershell_pre_scripts = omit_empty s.powershell_pre_scripts;
  dependencies = omit_empty s.dependencies;
}

-- What encoding/json documents of the values that the package writes: reading gives back what was written,
-- up to empty slices in fields marked `omitempty` and the order of a map's keys, and no value is written
-- as the empty text.
pub record JsonLaws (json : Json) : Type 0 where
  pub services :
      (ss : List Service) (t : String)
      → json.services.marshal ss ≡ ok t
      → json.services.unmarshal t ≡ ok (map written ss)
  pub files :
      (fs : List FileInfo) (t : String)
      → json.files.marshal fs ≡ ok t
      → json.files.unmarshal t ≡ ok fs
  pub env_vars :
      (m : Map String) (t : String)
      → HasUniqueKeys m
      → json.env_vars.marshal m ≡ ok t
      → (n : Map String) × (json.env_vars.unmarshal t ≡ ok n)
        × HasUniqueKeys n
        × (length n ≡ length m)
        × IsWithin n m
  pub env_vars_text : (m : Map String) (t : String) → json.env_vars.marshal m ≡ ok t → t ≢ ""
  pub watched :
      (s : Slice String) (t : String)
      → json.watched.marshal s ≡ ok t
      → json.watched.unmarshal t ≡ ok s
  pub watched_text : (s : Slice String) (t : String) → json.watched.marshal s ≡ ok t → t ≢ ""

-- The entries of a generated ConfigMap, without and with environment variables.
abbrev pub short_content : String → String → String → Map String
short_content services files watched =
    (services_key, services) ∷ (files_key, files) ∷ (watched_environment_vars_key, watched) ∷ []

abbrev pub full_content : String → String → String → String → Map String
full_content services files env_vars watched =
    (services_key, services)
    ∷ (files_key, files)
    ∷ (env_vars_key, env_vars)
    ∷ (watched_environment_vars_key, watched)
    ∷ []

module _ (json : Json) (d : Data) (name namespace : String) (cm : ConfigMap) where
  pub generate_short :
      generate json name namespace d ≡ ok cm
      → d.environment_vars ≡ none
      → (ts tf tw : String) × (json.services.marshal d.services ≡ ok ts)
        × (json.files.marshal d.files ≡ ok tf)
        × (json.watched.marshal d.watched_environment_vars ≡ ok tw)
        × (cm.content ≡ short_content ts tf tw)
  unfolding generate
  generate_short made bare =
      let services : (t : String) × (json.services.marshal d.services ≡ ok t) =
        elim (Result-cases (json.services.marshal d.services)) [
          | inl p ↦ p
          | inr (e, h) ↦ absurd (ground arith)
        ] in
      let files : (t : String) × (json.files.marshal d.files ≡ ok t) =
        elim (Result-cases (json.files.marshal d.files)) [
          | inl p ↦ p
          | inr (e, h) ↦ absurd (ground arith)
        ] in
      let watched : (t : String) × (json.watched.marshal d.watched_environment_vars ≡ ok t) =
        elim (Result-cases (json.watched.marshal d.watched_environment_vars)) [
          | inl p ↦ p
          | inr (e, h) ↦ absurd (ground arith)
        ] in
      (
        services.0,
        files.0,
        watched.0,
        services.1,
        files.1,
        watched.1,
        ground (arith, services.1, files.1, watched.1),
      )

  pub generate_full :
      generate json name namespace d ≡ ok cm
      → (m : Map String) → d.environment_vars ≡ some m
      → 0 < length m
      → (ts tf te tw : String) × (json.services.marshal d.services ≡ ok ts)
        × (json.files.marshal d.files ≡ ok tf)
        × (json.env_vars.marshal m ≡ ok te)
        × (json.watched.marshal d.watched_environment_vars ≡ ok tw)
        × (cm.content ≡ full_content ts tf te tw)
  unfolding generate
  generate_full made m some_vars filled =
      let services : (t : String) × (json.services.marshal d.services ≡ ok t) =
        elim (Result-cases (json.services.marshal d.services)) [
          | inl p ↦ p
          | inr (e, h) ↦ absurd (ground arith)
        ] in
      let files : (t : String) × (json.files.marshal d.files ≡ ok t) =
        elim (Result-cases (json.files.marshal d.files)) [
          | inl p ↦ p
          | inr (e, h) ↦ absurd (ground arith)
        ] in
      let env_vars : (t : String) × (json.env_vars.marshal m ≡ ok t) =
        elim (Result-cases (json.env_vars.marshal m)) [
          | inl p ↦ p
          | inr (e, h) ↦ absurd (ground arith)
        ] in
      let watched : (t : String) × (json.watched.marshal d.watched_environment_vars ≡ ok t) =
        elim (Result-cases (json.watched.marshal d.watched_environment_vars)) [
          | inl p ↦ p
          | inr (e, h) ↦ absurd (ground arith)
        ] in
      (
        services.0,
        files.0,
        env_vars.0,
        watched.0,
        services.1,
        files.1,
        env_vars.1,
        watched.1,
        ground (arith, services.1, files.1, env_vars.1, watched.1),
      )

module _ (json : Json) (by_priority : Sorter less_priority) (ts tf tw : String) (ss : List Service)
    (fs : List FileInfo) (w : Slice String) (es : json.services.unmarshal ts ≡ ok ss)
    (ef : json.files.unmarshal tf ≡ ok fs) (ew : json.watched.unmarshal tw ≡ ok w)
    (filled : tw ≢ "") where
  pub parse_short :
      parse json by_priority (short_content ts tf tw) ≡ new_data by_priority ss fs [] w
  unfolding parse
  parse_short = ground (arith, eq_iff tw "")

  pub parse_full :
      (te : String) (env_vars : Map String)
      → json.env_vars.unmarshal te ≡ ok env_vars
      → te ≢ ""
      → parse json by_priority (full_content ts tf te tw) ≡ new_data by_priority ss fs env_vars w
  unfolding parse
  parse_full te env_vars ee nonempty = ground (arith, eq_iff tw "", eq_iff te "")
