-- ===== src/ServicesCm/ConfigMap/Contents.antt =====
-- What `ValidateExpectedContent` accepts.
use windows_machine_config_o.Common.{
  String, ◌≡◌, refl, ◌↔◌, inl, inr, true, Option, none, some, List, [], ◌∷◌, Map, lookup,
  HasUniqueKeys, elems, ok, length, eq_iff, arith, In, DeepEqual, deep_equal, deep_equal_iff,
  Bool-cases, Option-cases, Slice_deep_equal, String_deep_equal, ap,
}
use windows_machine_config_o.ServicesCm.Types.{
  Service, FileInfo, Data, Service_deep_equal, FileInfo_deep_equal,
}
use windows_machine_config_o.ServicesCm.ConfigMap.{
  map_length, map_entries, contains, first_missing, entries_within, maps_equal,
  validate_expected_content,
}

module _ {A : Type 0} ⦃e : DeepEqual A⦄ where
  contains_iff : (xs : List A) (a : A) → (contains xs a ≡ true) ↔ In a xs
  unfolding contains
  contains_iff [] a = (λ h. cc, λ i. absurd i)
  contains_iff (x ∷ xs) a = (
    λ h. elim (Bool-cases (deep_equal a x)) [
      | inl same ↦ inl ((deep_equal_iff a x).0 same)
      | inr other ↦ inr ((contains_iff xs a).0 (ground arith))
    ],
    λ i. elim i [
      | inl same ↦ ground (arith, (deep_equal_iff a x).1 same)
      | inr later ↦ ground (arith, (contains_iff xs a).1 later)
    ],
  )

  first_missing_iff :
      (xs ys : List A) → (first_missing xs ys ≡ none) ↔ ((a : A) → In a ys → In a xs)
  unfolding first_missing
  first_missing_iff xs [] = (λ h a i. absurd i, λ h. refl)
  first_missing_iff xs (y ∷ ys) = (
    λ h a i. elim i [
      | inl same ↦ rw same ((contains_iff xs y).0 (ground arith))
      | inr later ↦ (first_missing_iff xs ys).0 (ground arith) a later
    ],
    λ h.
        let head = (contains_iff xs y).1 (h y (inl refl)) in
        let rest = (first_missing_iff xs ys).1 (λ a i. h a (inr i)) in ground arith,
  )

-- Every entry of the one map is an entry of the other.
abbrev pub IsWithin : Map String → Map String → Type 0
IsWithin m n = (k v : String) → lookup k m ≡ some v → lookup k n ≡ some v

-- Two maps that `DeepEqual` takes for one: both nil, or neither, with the same entries.
abbrev pub Agrees : Option (Map String) → Option (Map String) → Type 0
Agrees none none = Unit
Agrees (some m) (some n) = (length m ≡ length n) × IsWithin m n
Agrees _ _ = ⊥

entries_within_iff :
    (m n : Map String) → HasUniqueKeys m → (entries_within m n ≡ true) ↔ IsWithin m n
unfolding entries_within lookup
entries_within_iff [] n u = (λ h k v e. cc, λ h. refl)
entries_within_iff ((j, w) ∷ m) n u = (
  λ h k v e. elim (Option-cases (lookup j n)) [
    | inl missing ↦ absurd (ground arith)
    | inr (w', found) ↦ ground (
      arith,
      eq_iff j k,
      eq_iff w w',
      (entries_within_iff m n u.1).0 (ground (arith, eq_iff w w')) k v,
    )
  ],
  λ h.
      let head : lookup j n ≡ some w = h j w (ground (arith, eq_iff j j)) in
      let tail : IsWithin m n = λ k v e. h k v (ground (arith, eq_iff j k)) in
      ground (arith, eq_iff w w, (entries_within_iff m n u.1).1 tail),
)

maps_equal_iff :
    (m n : Option (Map String))
    → HasUniqueKeys (map_entries m)
    → (maps_equal m n ≡ true) ↔ Agrees m n
unfolding maps_equal
maps_equal_iff none none u = (λ h. tt, λ h. refl)
maps_equal_iff none (some n) u = (λ h. cc, λ h. absurd h)
maps_equal_iff (some m) none u = (λ h. cc, λ h. absurd h)
maps_equal_iff (some m) (some n) u = (
  λ h. (ground arith, (entries_within_iff m n u).0 (ground arith)),
  λ h. ground (arith, h.0, (entries_within_iff m n u).1 h.1),
)

-- The data of the ConfigMap holds what is expected: as many services and files, each expected one among
-- them, the same environment variables, and the same slice of watched ones.
pub record HasContent (d expected : Data) : Type 0 where
  pub service_count : length d.services ≡ length expected.services
  pub services : (s : Service) → In s expected.services → In s d.services
  pub file_count : length d.files ≡ length expected.files
  pub files : (f : FileInfo) → In f expected.files → In f d.files
  pub env_vars : Agrees d.environment_vars expected.environment_vars
  pub watched : d.watched_environment_vars ≡ expected.watched_environment_vars

Agrees-map_length : (m n : Option (Map String)) → Agrees m n → map_length m ≡ map_length n
Agrees-map_length none none h = refl
Agrees-map_length none (some n) h = absurd h
Agrees-map_length (some m) none h = absurd h
Agrees-map_length (some m) (some n) h = h.0

-- For data whose map of environment variables holds each name once, as every Go map does,
-- `ValidateExpectedContent` accepts it exactly if it holds what is expected.
pub validate_expected_content-HasContent :
    (d expected : Data)
    → HasUniqueKeys (map_entries d.environment_vars)
    → (validate_expected_content d expected ≡ ok tt) ↔ HasContent d expected
unfolding validate_expected_content
validate_expected_content-HasContent d x u = (
  λ h. record {
    service_count = ground arith;
    services = (first_missing_iff d.services x.services).0 (ground arith);
    file_count = ground arith;
    files = (first_missing_iff d.files x.files).0 (ground arith);
    env_vars = (maps_equal_iff d.environment_vars x.environment_vars u).0 (ground arith);
    watched =
        (deep_equal_iff d.watched_environment_vars x.watched_environment_vars).0 (ground arith);
  },
  λ h. ground (
    arith,
    h.service_count,
    (first_missing_iff d.services x.services).1 h.services,
    h.file_count,
    (first_missing_iff d.files x.files).1 h.files,
    Agrees-map_length d.environment_vars x.environment_vars h.env_vars,
    (maps_equal_iff d.environment_vars x.environment_vars u).1 h.env_vars,
    (deep_equal_iff d.watched_environment_vars x.watched_environment_vars).1 h.watched,
    ap (λ w. length (elems w)) h.watched,
  ),
)
