-- ===== src/Daemon/Certs.antt =====
-- pkg/daemon/certs/certs.go: the trusted certificates of a Windows instance, which follow a bundle file.
pub mod Tokens
pub mod Store
pub mod Again
mod Tests
use Prim.Native.Char.{Char}
use Prim.Native.String.{[], ◌∷◌}
use text.Mathlib.Text.{starts_with}
use windows_machine_config_o.Common.{
  ℕ, zero, suc, String, Bool, true, false, not, ◌||◌, Option, none, some, List, [], ◌∷◌, Result, ok,
  err, ◌==◌, if◌then◌else◌, any, DeepEqual, deep_equal, List_deep_equal, String_deep_equal,
}

-- A certificate, by its raw bytes: `Equal` compares these, and all else that was parsed follows from them.
abbrev pub Cert : Type 0
Cert = String

abbrev pub end_cert_tag : String
end_cert_tag = "-----END CERTIFICATE-----"

unfoldable pub drop : ℕ → String → String
drop zero s = s
drop (suc n) [] = []
drop (suc n) (c ∷ s) = drop n s

unfoldable pub size : String → ℕ
size [] = 0
size (c ∷ s) = suc (size s)

abbrev pub put_char : Char → Option (String × String) → Option (String × String)
put_char c none = none
put_char c (some (token, rest)) = some (c ∷ token, rest)

-- `bytes.Index` with what the split function makes of it: what ends with the tag, and what follows.
unfoldable pub cut_after : String → String → Option (String × String)
unfolding drop size
cut_after tag [] = none
cut_after tag (c ∷ s) =
    let later = cut_after tag s in
    if starts_with (c ∷ s) tag then some (tag, drop (size tag) (c ∷ s)) else put_char c later

-- The tokens that the scanner finds in a whole file. The error of the split function for what follows the
-- last tag ends the scan, and is not looked at.
unfoldable pub tokens : ℕ → String → List String
unfolding cut_after
tokens zero content = []
tokens (suc n) content = elim (cut_after end_cert_tag content) [
  | none ↦ []
  | some cut ↦ cut.0 ∷ tokens n cut.1
]

pub data Pem : Type 0 where
  no_block bad_certificate : Pem
  certificate : Cert → Pem

pub data Error : Type 0 where
  open_error no_pem_data parse_error stat_error store_error import_error delete_error file_error :
      Error

-- `pem.Decode` and `x509.ParseCertificate` on one token.
module _ (decode : String → Pem) where
  unfoldable pub parse_tokens : List String → Result Error (List Cert)
  parse_tokens [] = ok []
  parse_tokens (t ∷ ts) =
      let rest = parse_tokens ts in
      elim (decode t) [
        | no_block ↦ err no_pem_data
        | bad_certificate ↦ err parse_error
        | certificate c ↦ elim rest [ err e ↦ err e | ok cs ↦ ok (c ∷ cs) ]
      ]

  -- `readCertsFromFile`, on the content of the file, or on nothing where it cannot be opened.
  unfoldable pub read_certs_from_file : Option String → Result Error (List Cert)
  unfolding tokens parse_tokens size
  read_certs_from_file none = err open_error
  read_certs_from_file (some content) = parse_tokens (tokens (size content) content)

-- The file system, and the root store.
pub record Machine : Type 1 where
  pub State : Type 0
  -- The content of a file, if it can be opened.
  pub read : String → State → Option String
  -- Whether a file exists, or nothing for an error other than that it does not.
  pub exists : String → State → Option Bool
  pub remove : String → State → State × Bool
  pub copy : String → String → State → State × Bool
  pub can_open_store : State → Bool
  pub add_cert : Cert → State → State × Bool
  pub remove_cert : Cert → State → State × Bool

abbrev pub imported_ca_bundle_file : String
imported_ca_bundle_file = "C:\\k\\imported-certs.pem"

-- `containsCert`.
abbrev pub contains_cert : List Cert → Cert → Bool
contains_cert [] target = false
contains_cert (c ∷ cs) target = elim (c == target) [ true ↦ true | false ↦ contains_cert cs target ]

module _ (m : Machine) (decode : String → Pem) where
  open m use {State, read, exists, remove, copy, can_open_store, add_cert, remove_cert}

  unfoldable pub get_expected_certs : String → State → Result Error (List Cert)
  unfolding read_certs_from_file
  get_expected_certs path s =
      if path == "" then ok [] else read_certs_from_file decode (read path s)

  unfoldable pub get_existing_certs : State → Result Error (List Cert)
  unfolding read_certs_from_file
  get_existing_certs s = elim (exists imported_ca_bundle_file s) [
    | none ↦ err stat_error
    | some false ↦ ok []
    | some true ↦ read_certs_from_file decode (read imported_ca_bundle_file s)
  ]

  unfoldable pub ensure_certs_are_imported :
      List Cert → List Cert → Bool → State → State × Result Error Bool
  ensure_certs_are_imported [] existing imported s = (s, ok imported)
  ensure_certs_are_imported (c ∷ cs) existing imported s = elim (contains_cert existing c) [
    | true ↦ ensure_certs_are_imported cs existing imported s
    | false ↦ elim (add_cert c s).1 [
      | true ↦ ensure_certs_are_imported cs existing true (add_cert c s).0
      | false ↦ ((add_cert c s).0, err import_error)
    ]
  ]

  unfoldable pub ensure_certs_are_deleted :
      List Cert → List Cert → Bool → State → State × Result Error Bool
  ensure_certs_are_deleted expected [] removed s = (s, ok removed)
  ensure_certs_are_deleted expected (c ∷ cs) removed s = elim (contains_cert expected c) [
    | true ↦ ensure_certs_are_deleted expected cs removed s
    | false ↦ elim (remove_cert c s).1 [
      | true ↦ ensure_certs_are_deleted expected cs true (remove_cert c s).0
      | false ↦ ((remove_cert c s).0, err delete_error)
    ]
  ]

  -- `reconcileCerts` behind the reading of both lists.
  unfoldable pub update_certs : List Cert → List Cert → State → State × Result Error Bool
  unfolding ensure_certs_are_imported ensure_certs_are_deleted
  update_certs expected existing s =
      if deep_equal expected existing
      then (s, ok false)
      else (if can_open_store s
          then (let (s1, imported) = ensure_certs_are_imported expected existing false s in
              elim imported [
                | err e ↦ (s1, err e)
                | ok b ↦
                    let (s2, deleted) = ensure_certs_are_deleted expected existing false s1 in
                    (s2, elim deleted [ err e ↦ err e | ok d ↦ ok (b || d) ])
              ])
          else (s, err store_error))

  unfoldable pub reconcile_certs : String → State → State × Result Error Bool
  unfolding update_certs get_expected_certs get_existing_certs
  reconcile_certs path s = elim (get_expected_certs path s) [
    | err e ↦ (s, err e)
    | ok expected ↦ elim (get_existing_certs s) [
      | err e ↦ (s, err e)
      | ok existing ↦ update_certs expected existing s
    ]
  ]

  unfoldable pub ensure_file_is_removed : String → State → State × Bool
  ensure_file_is_removed path s = elim (exists path s) [
    | none ↦ (s, false)
    | some false ↦ (s, true)
    | some true ↦ remove path s
  ]

  unfoldable pub update_imported_ca_bundle : String → Bool → State → State × Bool
  unfolding ensure_file_is_removed
  update_imported_ca_bundle path cert_change s =
      if path == ""
      then ensure_file_is_removed imported_ca_bundle_file s
      else (if cert_change then copy path imported_ca_bundle_file s else (s, true))

  -- `Reconcile`: whether certificates were changed, and whether there was no error.
  unfoldable pub reconcile : String → State → State × Bool × Bool
  unfolding reconcile_certs update_imported_ca_bundle
  reconcile path s =
      let (s1, changed) = reconcile_certs path s in
      elim changed [
        | err e ↦ (s1, false, false)
        | ok b ↦ let (s2, fine) = update_imported_ca_bundle path b s1 in (s2, b, fine)
      ]
