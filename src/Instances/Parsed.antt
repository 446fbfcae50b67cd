-- ===== src/Instances/Parsed.antt =====
-- What `Parse` of pkg/wiparser/wiparser.go answers, and where it panics.
use windows_machine_config_o.Common.{
  String, ◌≡◌, ◌↔◌, refl, sym, subst, inl, inr, Option, some, List, err, eq_iff, arith,
  Option-cases,
}
use windows_machine_config_o.Instances.{
  Node, Info, panicked, cut_at_equals, split_data, extract_username, find_by_address,
}

-- extractUsername panics on exactly one value: the text username, without an equals sign.
pub extract_username-panicked :
    (value : String) → (extract_username value ≡ err panicked) ↔ (value ≡ "username")
unfolding extract_username split_data cut_at_equals
extract_username-panicked value = (
  λ e. elim (Option-cases (cut_at_equals value)) [
    | inl h ↦ ground (arith, e, h, eq_iff value "username")
    | inr (cut, h) ↦ absurd (ground (arith, e, h, eq_iff cut.0 "username"))
  ],
  λ e. subst (λ v. extract_username v ≡ err panicked) (sym e) refl,
)

module _ (resolve resolve_again : String → Option String) (nodes : List Node) where
  -- What is known of an entry that was parsed.
  abbrev pub IsResolved : Info → Type 0
  IsResolved i =
      (resolve_again i.address ≡ some i.ipv4_address)
      × (ip : String) × (resolve i.address ≡ some ip)
      × (i.node ≡ find_by_address ip nodes)
