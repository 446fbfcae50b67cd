-- ===== src/Upgrades/Required.antt =====
-- Which instances pkg/instance/instance.go has upgraded.
use windows_machine_config_o.Common.{
  String, ◌≡◌, ◌≢◌, ◌↔◌, inl, inr, true, some, lookup, eq_iff, arith, Option-cases,
}
use windows_machine_config_o.Upgrades.{Node, version_annotation, up_to_date, upgrade_required}

-- UpgradeRequired holds of exactly the instances with a node that has the annotation of another version, and
-- UpToDate of exactly those with a node that has the annotation of this version.
pub upgrade_required-lookup :
    (version : String) (n : Node)
    → ((upgrade_required version (some n) ≡ true)
        ↔ ((v : String) × (lookup version_annotation n.annotations ≡ some v) × (v ≢ version)))
      × ((up_to_date version (some n) ≡ true)
          ↔ (lookup version_annotation n.annotations ≡ some version))
unfolding upgrade_required up_to_date
upgrade_required-lookup version n = ((other, back), (same, as_same))
  where
    other :
        upgrade_required version (some n) ≡ true
        → (v : String) × (lookup version_annotation n.annotations ≡ some v) × (v ≢ version)
    other h = elim (Option-cases (lookup version_annotation n.annotations)) [
      | inl e ↦ absurd (ground (arith, h, e))
      | inr (v, e) ↦ (v, e, λ q. ground (arith, h, e, q, eq_iff v version))
    ]

    back :
        (v : String) × (lookup version_annotation n.annotations ≡ some v) × (v ≢ version)
        → upgrade_required version (some n) ≡ true
    back (v, e, differ) = ground (arith, e, differ, eq_iff v version)

    same :
        up_to_date version (some n) ≡ true → lookup version_annotation n.annotations ≡ some version
    same h = elim (Option-cases (lookup version_annotation n.annotations)) [
      | inl e ↦ absurd (ground (arith, h, e))
      | inr (v, e) ↦ ground (arith, h, e, eq_iff v version)
    ]

    as_same :
        lookup version_annotation n.annotations ≡ some version → up_to_date version (some n) ≡ true
    as_same e = ground (arith, e, eq_iff version version)
