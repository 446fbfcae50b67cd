-- ===== src/Registries/Config.antt =====
-- The text of pkg/registries/registries.go: `generateConfig`, which writes the configuration of one source.
use Prim.Native.String.{[], ◌∷◌, ◌++◌}
use windows_machine_config_o.Common.{
  String, ◌≡◌, refl, Option, none, some, List, [], ◌∷◌, Map, lookup, ◌==◌, if◌then◌else◌,
}
use windows_machine_config_o.Registries.{
  Mirror, MirrorSet, extract_registry_hostname, never_contact_source,
}

-- What follows the text in front, if the second one begins with it.
unfoldable pub strip_prefix : String → String → Option String
unfolding lookup
strip_prefix [] s = some s
strip_prefix (c ∷ t) [] = none
strip_prefix (c ∷ t) (d ∷ s) =
    let rest = strip_prefix t s in if (c ∷ []) == (d ∷ []) then rest else none

-- The second part of `strings.SplitN(s, sep, 2)`, for a separator that is not empty.
unfoldable pub behind_first : String → String → Option String
unfolding strip_prefix
behind_first sep [] = strip_prefix sep []
behind_first sep (c ∷ s) =
    let later = behind_first sep s in
    elim (strip_prefix sep (c ∷ s)) [ some rest ↦ some rest | none ↦ later ]

-- The same for every separator: an empty one splits off the first character.
unfoldable pub split_off : String → String → Option String
unfolding behind_first
split_off [] [] = none
split_off [] (c ∷ s) = some s
split_off (d ∷ sep) s = behind_first (d ∷ sep) s

-- `strings.TrimPrefix(s, "/")`.
abbrev pub trim_slash : String → String
trim_slash s = elim (strip_prefix "/" s) [ none ↦ s | some rest ↦ rest ]

module _ (parse_url : String → Option (String × String)) (encode : String → String) where
  unfoldable pub extract_registry_org_path : String → String
  unfolding split_off extract_registry_hostname strip_prefix
  extract_registry_org_path registry =
      elim (split_off (extract_registry_hostname parse_url registry) registry) [
        | none ↦ ""
        | some rest ↦ trim_slash rest
      ]

  -- A URL of the registry interface at this location, up to its closing quote.
  abbrev pub location_url : String → String
  location_url location =
      let path = extract_registry_org_path location in
      "https://"
      ++ extract_registry_hostname parse_url location
      ++ "/v2"
      ++ (if path == "" then "" else "/" ++ path)

  -- The entry of one mirror; `auths` has the user name and password of a host.
  unfoldable pub mirror_config : Map (String × String) → Mirror → String
  unfolding extract_registry_org_path lookup
  mirror_config auths m =
      let entry =
        "\n[host.\""
        ++ location_url m.host
        ++ "\"]\n"
        ++ (if m.resolve_tags
            then "  capabilities = [\"pull\", \"resolve\"]"
            else "  capabilities = [\"pull\"]")
        ++ "\n  override_path = true\n" in
      elim (lookup (extract_registry_hostname parse_url m.host) auths) [
        | none ↦ entry
        | some login ↦
            entry
            ++ "  [host.\""
            ++ location_url m.host
            ++ "\".header]\n"
            ++ "    authorization = \"Basic "
            ++ encode (login.0 ++ ":" ++ login.1)
            ++ "\"\n"
      ]

  unfoldable pub mirrors_config : Map (String × String) → List Mirror → String
  unfolding mirror_config
  mirrors_config auths [] = ""
  mirrors_config auths (m ∷ ms) = mirror_config auths m ++ mirrors_config auths ms

  -- `generateConfig`; base64 is an argument.
  unfoldable pub generate_config : Map (String × String) → MirrorSet → String
  unfolding mirrors_config
  generate_config auths ms = elim ms.mirrors [
    | [] ↦ ""
    | m ∷ rest ↦
        let server =
          if ms.mirror_source_policy == never_contact_source then m.host else ms.source in
        "server = \""
        ++ location_url server
        ++ "\"\n\noverride_path = true\n"
        ++ mirrors_config auths (m ∷ rest)
  ]

  -- Where the source must never be contacted, the configuration does not depend on it.
  pub generate_config-never_contact_source :
      (auths : Map (String × String)) (source source' : String) (mirrors : List Mirror)
      → generate_config auths (record {
        source = source;
        mirrors = mirrors;
        mirror_source_policy = never_contact_source;
      })
        ≡ generate_config auths (record {
          source = source';
          mirrors = mirrors;
          mirror_source_policy = never_contact_source;
        })
  unfolding generate_config
  generate_config-never_contact_source auths source source' [] = refl
  generate_config-never_contact_source auths source source' (m ∷ rest) = refl
