-- ===== src/Instances.antt =====
-- pkg/wiparser/wiparser.go and pkg/nodeutil/nodeutil.go: the instances that the ConfigMap of the user lists.
pub mod Parsed
mod Tests
use Prim.Native.Char.{Char, code}
use Prim.Native.String.{[], ◌∷◌}
use windows_machine_config_o.Common.{
  String, Bool, true, false, Option, none, some, List, [], ◌∷◌, Map, lookup, nat_eq, any, Result,
  ok, err, ◌==◌, if◌then◌else◌,
}

-- What the code reads of a node.
pub record Node : Type 0 where
  pub name : String
  pub addresses : List String

pub record Info : Type 0 where
  pub address : String
  pub ipv4_address : String
  pub username : String
  pub node : Option Node

pub data Error : Type 0 where
  wrong_format invalid_address not_found : Error
  -- An index out of range, which ends the program.
  panicked : Error

-- What stands in front of the first `=`, and behind it.
abbrev pub put_char : Char → Option (String × String) → Option (String × String)
put_char c none = none
put_char c (some (before, after)) = some (c ∷ before, after)

unfoldable pub cut_at_equals : String → Option (String × String)
cut_at_equals [] = none
cut_at_equals (c ∷ s) =
    let later = cut_at_equals s in if nat_eq (code c) 61 then some ([], s) else put_char c later

-- `strings.SplitN(value, "=", 2)`.
unfoldable pub split_data : String → List String
unfolding cut_at_equals
split_data value = elim (cut_at_equals value) [ none ↦ value ∷ [] | some cut ↦ cut.0 ∷ cut.1 ∷ [] ]

-- `splitData[1]`.
abbrev pub second : List String → Result Error String
second [] = err panicked
second (x ∷ xs) = elim xs [ [] ↦ err panicked | y ∷ _ ↦ ok y ]

unfoldable pub extract_username : String → Result Error String
unfolding split_data
extract_username value = elim (split_data value) [
  | [] ↦ err wrong_format
  | first ∷ rest ↦ if first == "username" then second (first ∷ rest) else err wrong_format
]

-- `FindByAddress`.
unfoldable pub find_by_address : String → List Node → Option Node
find_by_address address [] = none
find_by_address address (n ∷ ns) =
    let rest = find_by_address address ns in
    if any (λ a. address == a) n.addresses then some n else rest

-- `GetNodeUsername`, on the addresses of the node.
unfoldable pub get_node_username : Map String → List String → Result Error String
unfolding extract_username lookup
get_node_username content [] = err not_found
get_node_username content (a ∷ rest) = elim (lookup a content) [
  | some value ↦ extract_username value
  | none ↦ get_node_username content rest
]

-- `net.ResolveIPAddr("ip4", _)`, in the call of the parser and in the later one of `NewInfo`, which may answer
-- differently.
module _ (resolve resolve_again : String → Option String) where
  -- `instance.NewInfo` with the arguments that the parser gives, which resolves the address as well.
  unfoldable pub new_info : String → String → Option Node → Result Error Info
  new_info address username node = elim (resolve_again address) [
    | none ↦ err invalid_address
    | some ip ↦
        ok (record { address = address; ipv4_address = ip; username = username; node = node })
  ]

  -- One round of the loop of `Parse`.
  unfoldable pub parse_entry : List Node → String → String → Result Error Info
  unfolding extract_username new_info find_by_address
  parse_entry nodes address value = elim (extract_username value) [
    | err e ↦ err e
    | ok username ↦ elim (resolve address) [
      | none ↦ err invalid_address
      | some ip ↦ new_info address username (find_by_address ip nodes)
    ]
  ]

  -- `Parse`, on the entries in the order of `range`.
  unfoldable pub parse_instances : List Node → Map String → Result Error (List Info)
  unfolding parse_entry
  parse_instances nodes [] = ok []
  parse_instances nodes ((address, value) ∷ entries) = elim (parse_entry nodes address value) [
    | err e ↦ err e
    | ok info ↦ elim (parse_instances nodes entries) [
      | err e ↦ err e
      | ok infos ↦ ok (info ∷ infos)
    ]
  ]
