-- ===== src/Csr/Gaps.antt =====
-- pkg/csr/csr.go: which names are taken for that of an instance, though they are only a part of it.
use Prim.Native.String.{◌∷◌ as char_cons, [] as empty_text, ◌++◌ as text_append}
use Prim.Native.Char.{Char}
use text.Mathlib.Text.{starts_with}
use text.Mathlib.TextLemmas.{cons-append, nil-append}
use text.Mathlib.TextPositions.{starts_with-append}
use windows_machine_config_o.Common.{
  String, ◌≡◌, ◌≢◌, ◌⊎◌, refl, sym, subst, ap, ◌∙◌, inl, inr, true, false, some, List, ◌∷◌, ok,
  arith,
}
use windows_machine_config_o.Daemon.Cleanup.{contains_text}
use windows_machine_config_o.Instances.{Info}
use windows_machine_config_o.Csr.{World, matches_dns, validate_node_name}

contains_text-cons :
    (c : Char) (s t : String)
    → (starts_with (char_cons c s) t ≡ true) ⊎ (contains_text s t ≡ true)
    → contains_text (char_cons c s) t ≡ true
unfolding contains_text
contains_text-cons c s t e = ground arith

contains_text-middle :
    (pre name post : String)
    → name ≢ ""
    → contains_text (text_append pre (text_append name post)) name ≡ true
contains_text-middle empty_text empty_text post given = absurd (given refl)
contains_text-middle empty_text (char_cons c n) post given =
    let cons = cons-append c n post in
    let starts : starts_with (char_cons c (text_append n post)) (char_cons c n) ≡ true =
      subst (λ x. starts_with x (char_cons c n) ≡ true) cons
        (starts_with-append (char_cons c n) post) in
    subst (λ x. contains_text x (char_cons c n) ≡ true)
      (sym (nil-append (text_append (char_cons c n) post) ∙ cons))
      (contains_text-cons c (text_append n post) (char_cons c n) (inl starts))
contains_text-middle (char_cons d pre) name post given =
    rw (cons-append d pre (text_append name post)) (
      contains_text-cons d (text_append pre (text_append name post)) name
        (inr (contains_text-middle pre name post given)))

-- Each part of the address of an instance that is not an IP address, a single letter of it say, is
-- accepted as the node name of the instance, whatever instances there are behind it.
pub validate_node_name_part :
    (w : World) (instance : Info) (instances : List Info) (pre name post : String)
    → name ≢ ""
    → w.get_instances ≡ some (instance ∷ instances)
    → w.is_ip instance.address ≡ false
    → instance.address ≡ text_append pre (text_append name post)
    → validate_node_name w name ≡ ok true
unfolding validate_node_name matches_dns
validate_node_name_part w instance instances pre name post given found text address =
    let part : contains_text instance.address name ≡ true =
      ap (λ a. contains_text a name) address ∙ contains_text-middle pre name post given in
    rw (found, validate_node_name, matches_dns, text, part) refl
