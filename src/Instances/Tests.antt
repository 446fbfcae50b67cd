-- ===== src/Instances/Tests.antt =====
-- Two entries, and the theorems at them.
use windows_machine_config_o.Common.{
  String, ◌≡◌, ◌↔◌, Option, none, some, List, [], ◌∷◌, Map, err, ◌==◌, if◌then◌else◌,
}
use windows_machine_config_o.Instances.{Node, Info, panicked, extract_username}
use windows_machine_config_o.Instances.Parsed.{extract_username-panicked}

abbrev resolve : String → Option String
resolve address = if address == "win.local" then some "10.0.0.2" else some address

-- The name has moved to another address by the second call.
abbrev resolve_again : String → Option String
resolve_again address = if address == "win.local" then some "10.0.0.4" else some address

abbrev node : Node
node = record { name = "win"; addresses = "win" ∷ "10.0.0.2" ∷ [] }

abbrev entries : Map String
entries = ("win.local", "username=Administrator") ∷ ("10.0.0.3", "username=core") ∷ []

abbrev infos : List Info
infos =
    record {
      address = "win.local";
      ipv4_address = "10.0.0.4";
      username = "Administrator";
      node = some node;
    }
    ∷ record { address = "10.0.0.3"; ipv4_address = "10.0.0.3"; username = "core"; node = none }
    ∷ []

extract_username-panicked_example :
    (extract_username "username" ≡ err panicked) ↔ (◌≡◌ {A = String} "username" "username")
extract_username-panicked_example = extract_username-panicked "username"
