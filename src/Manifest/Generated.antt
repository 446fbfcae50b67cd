-- ===== src/Manifest/Generated.antt =====
-- pkg/services/services.go: the manifest is accepted by NewData, and read back from the ConfigMap made of it.
use mathlib.Core.List.{Permᴰ}
use windows_machine_config_o.Common.{
  String, ◌≡◌, refl, ap, inl, inr, Bool, true, false, not, ◌&&◌, ◌||◌, List, [], ◌∷◌, Map, lookup,
  insert, HasUniqueKeys, In, In→All, ok, ◌==◌, if◌then◌else◌, leb, ltb, any, items, elems, Sorter,
  arith, eq_iff, Bool-cases,
}
use windows_machine_config_o.ServicesCm.Types.{Service, Data}
use windows_machine_config_o.ServicesCm.Dependencies.{validate_dependencies}
use windows_machine_config_o.ServicesCm.Priorities.{less_priority, new_data}
use windows_machine_config_o.ServicesCm.Priorities.Separation.{
  IsSeparated, IsSeparated-validate_priorities,
}
use windows_machine_config_o.ServicesCm.Priorities.Valid.{
  IsProper, IsValid, built, new_data-IsValid,
}
use windows_machine_config_o.ServicesCm.Cycles.Lower.{DependsOnLower}
use windows_machine_config_o.ServicesCm.ConfigMap.{
  ConfigMap, Json, generate, parse, validate_expected_content,
}
use windows_machine_config_o.ServicesCm.ConfigMap.Encoding.{written, omit_empty, JsonLaws}
use windows_machine_config_o.ServicesCm.ConfigMap.RoundTrip.{IsCanonical, validate-parse-generate}
use windows_machine_config_o.Cluster.{watched_environment_vars}
use windows_machine_config_o.Manifest.{
  services_for, azure_services, manifest_services, generate_manifest, kubelet_scripts,
  kubelet_service_configuration, get_hostname_cmd,
}

abbrev all_of : {A : Type 0} → (A → Bool) → List A → Bool
all_of p [] = true
all_of p (x ∷ xs) = p x && all_of p xs

all_of-In :
    {A : Type 0} (p : A → Bool) (x : A) (xs : List A) → all_of p xs ≡ true → In x xs → p x ≡ true
all_of-In p x [] e i = absurd i
all_of-In p x (y ∷ ys) e i = elim i [
  | inl same ↦ rw same (ground (arith, e))
  | inr later ↦ all_of-In p x ys (ground (arith, e)) later
]

mem-In : (d : String) (ds : List String) → In d ds → any (λ e. e == d) ds ≡ true
mem-In d [] i = absurd i
mem-In d (e ∷ es) i = elim i [
  | inl same ↦ ground (arith, eq_iff e d, same)
  | inr later ↦ ground (arith, mem-In d es later)
]

-- The bootstrap services have the priorities 0 and 1, the others 2 and 3.
abbrev in_level : Service → Bool
in_level s = if s.bootstrap then leb s.priority 1 else (leb 2 s.priority && leb s.priority 3)

-- A service depends on services of lower priority numbers.
abbrev above : List Service → Service → Bool
above ss s =
    all_of (λ t. not (any (λ d. d == t.name) (elems s.dependencies)) || ltb t.priority s.priority)
      ss

levels : (ss : List Service) → all_of in_level ss ≡ true → IsSeparated ss
levels ss e b c i j boot control =
    let low = all_of-In in_level b ss e i in
    let high = all_of-In in_level c ss e j in ground (arith, low, high)

levels-IsProper : (ss : List Service) → all_of in_level ss ≡ true → IsProper ss
levels-IsProper ss e =
    In→All _ ss
      (λ c j control same. let high = all_of-In in_level c ss e j in ground (arith, high, same))

above-DependsOnLower : (ss : List Service) → all_of (above ss) ss ≡ true → DependsOnLower ss
above-DependsOnLower ss e s t i j k =
    let one =
      all_of-In
        (λ x. not (any (λ d. d == x.name) (elems s.dependencies)) || ltb x.priority s.priority) t ss
        (all_of-In (above ss) s ss e i) j in
    ground (arith, one, mem-In t.name (elems s.dependencies) k)

module _ (args : Map String) (vxlan_port platform : String) (debug : Bool) where
  services-in_level :
      (azure : Bool) → all_of in_level (services_for args vxlan_port platform debug azure) ≡ true
  unfolding services_for azure_services
  services-in_level true = refl
  services-in_level false = refl

  services-above :
      (azure : Bool)
      → all_of
          (above (services_for args vxlan_port platform debug azure))
          (services_for args vxlan_port platform debug azure)
        ≡ true
  unfolding services_for azure_services
  services-above true = refl
  services-above false = refl

  services-validate_dependencies :
      (azure : Bool)
      → validate_dependencies (services_for args vxlan_port platform debug azure) ≡ ok tt
  unfolding services_for azure_services validate_dependencies lookup insert
  services-validate_dependencies true = refl
  services-validate_dependencies false = refl

  -- The kubelet always has a script.
  kubelet_scripts-omit_empty :
      (command : String)
      → omit_empty (items (kubelet_scripts command)) ≡ items (kubelet_scripts command)
  unfolding kubelet_scripts
  kubelet_scripts-omit_empty command = elim (Bool-cases (command == "")) [
    | inl blank ↦ rw (blank, kubelet_scripts) refl
    | inr given ↦ rw (given, kubelet_scripts) refl
  ]

  kubelet-written :
      written (kubelet_service_configuration args debug platform)
      ≡ kubelet_service_configuration args debug platform
  unfolding written
  kubelet-written =
      ap
        (λ scripts. record (kubelet_service_configuration args debug platform) {
          powershell_pre_scripts = scripts;
        })
        (kubelet_scripts-omit_empty (get_hostname_cmd platform))

  services-IsCanonical :
      (azure : Bool) → IsCanonical (services_for args vxlan_port platform debug azure)
  unfolding services_for azure_services written
  services-IsCanonical true = (refl, (refl, (kubelet-written, (refl, (refl, (refl, (refl, tt)))))))
  services-IsCanonical false = (refl, (refl, (kubelet-written, (refl, (refl, (refl, tt))))))

  abbrev pub manifest : List Service
  manifest = manifest_services args vxlan_port platform debug

  manifest-in_level : all_of in_level manifest ≡ true
  manifest-in_level = services-in_level (platform == "Azure")

  module _ (by_priority : Sorter less_priority) (proxy_vars : Map String) where
    abbrev pub expected : Data
    expected = built by_priority manifest [] proxy_vars (items watched_environment_vars)

    -- On any platform, with any arguments, GenerateManifest reports no error, and its services are those of
    -- the manifest, sorted.
    generate_manifest-built :
        generate_manifest by_priority args vxlan_port platform debug proxy_vars ≡ ok expected
    unfolding generate_manifest new_data
    generate_manifest-built =
        let priorities =
          IsSeparated-validate_priorities by_priority manifest
            (levels-IsProper manifest manifest-in_level) (levels manifest manifest-in_level) in
        let dependencies = services-validate_dependencies (platform == "Azure") in
        ground (arith, dependencies, priorities)

    -- On any platform, with any arguments, GenerateManifest reports no error. Its data is valid, and its
    -- services are those of the manifest: sorted by priority, with the bootstrap services in front.
    pub generate_manifest-IsValid :
        (generate_manifest by_priority args vxlan_port platform debug proxy_vars ≡ ok expected)
        × IsValid expected
        × Permᴰ expected.services manifest
    unfolding generate_manifest
    generate_manifest-IsValid =
        let valid =
          new_data-IsValid by_priority manifest [] proxy_vars (items watched_environment_vars)
            expected generate_manifest-built in
        (generate_manifest-built, valid.0, valid.1)

    -- The services ConfigMap that the operator makes of its manifest is accepted when it is read again, and
    -- passes the comparison with the manifest: it is not deleted as one that was tampered with. Names of
    -- proxy variables stand once, as in every map.
    pub generate_manifest-generate :
        (json : Json)
        → JsonLaws json
        → (name namespace : String) (content : Data) (cm : ConfigMap) → HasUniqueKeys proxy_vars
        → generate_manifest by_priority args vxlan_port platform debug proxy_vars ≡ ok content
        → generate json name namespace content ≡ ok cm
        → (found : Data) × (parse json by_priority cm.content ≡ ok found)
          × (validate_expected_content found content ≡ ok tt)
    unfolding generate_manifest
    generate_manifest-generate json laws name namespace content cm unique generated made =
        validate-parse-generate json laws by_priority manifest [] (items watched_environment_vars)
          (services-IsCanonical (platform == "Azure")) (levels-IsProper manifest manifest-in_level)
          (above-DependsOnLower manifest (services-above (platform == "Azure"))) proxy_vars name
          namespace content cm unique generated made
