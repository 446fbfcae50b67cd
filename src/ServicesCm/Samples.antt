-- ===== src/ServicesCm/Samples.antt =====
-- Codecs that know one value each, for the witnesses.
use windows_machine_config_o.Common.{
  String, ◌≡◌, refl, sym, ap, ◌∙◌, ◌≢◌, ◌↔◌, inl, inr, Bool, true, ◌&&◌, List, [], Map, Slice, ok,
  err, arith, eq_iff, ◌==◌, if◌then◌else◌, DeepEqual, deep_equal, deep_equal_iff, ℕ_deep_equal,
  Bool_deep_equal, String_deep_equal, List_deep_equal, Slice_deep_equal, insertion_sorter, Sorter,
  IsOrder, map, Bool-cases,
}
use windows_machine_config_o.ServicesCm.Types.{Service, Service_deep_equal, FileInfo_deep_equal}
use windows_machine_config_o.ServicesCm.Dependencies.{json_error}
use windows_machine_config_o.ServicesCm.Priorities.{less_priority}
use windows_machine_config_o.ServicesCm.ConfigMap.{Codec, Json}
use windows_machine_config_o.ServicesCm.ConfigMap.Encoding.{written, JsonLaws}

-- A codec that writes one value and refuses every other.
module _ {A : Type 0} ⦃e : DeepEqual A⦄ where
  abbrev pub table : A → Codec A
  table a = record {
    marshal = λ x. if deep_equal x a then ok "text" else err json_error;
    unmarshal = λ t. if t == "text" then ok a else err json_error;
  }

  pub table_reads :
      (a x : A) (t : String) → (table a).marshal x ≡ ok t → (table a).unmarshal t ≡ ok x
  table_reads a x t h = ground (arith, deep_equal_iff x a, eq_iff t "text")

  pub table_text : (a x : A) (t : String) → (table a).marshal x ≡ ok t → t ≢ ""
  table_text a x t h = elim (Bool-cases (deep_equal x a)) [
    | inl same ↦ let text : t ≡ "text" = ground arith in λ empty. nonempty (sym text ∙ empty)
    | inr other ↦ absurd (ground arith)
  ]
    where
      nonempty : ◌≢◌ {A = String} "text" ""
      nonempty = ground (arith, eq_iff "text" "")

abbrev pub pair_equal : String × String → String × String → Bool
pair_equal p q = p.0 == q.0 && p.1 == q.1

pub pair_equal_iff : (p q : String × String) → (pair_equal p q ≡ true) ↔ (p ≡ q)
pair_equal_iff p q = ground (arith, eq_iff p.0 q.0, eq_iff p.1 q.1)

instance abbrev pub pair_deep_equal : DeepEqual (String × String)
pair_deep_equal = record { test = pair_equal; test_iff = pair_equal_iff }

module _ (given : List Service) (env_vars : Map String) (watched : Slice String) where
  abbrev pub sample_json : Json
  sample_json = record {
    services = table given;
    files = table [];
    env_vars = table env_vars;
    watched = table watched;
  }

  services_table :
      map written given ≡ given
      → (ss : List Service) (t : String) → (table given).marshal ss ≡ ok t
      → (table given).unmarshal t ≡ ok (map written ss)
  services_table as_written ss t h = elim (Bool-cases (deep_equal ss given)) [
    | inl same ↦
        let one = (deep_equal_iff ss given).0 same in
        table_reads given ss t h ∙ ap ok (one ∙ sym as_written ∙ ap (map written) (sym one))
    | inr other ↦ absurd (ground arith)
  ]

  pub sample_json-JsonLaws : map written given ≡ given → JsonLaws sample_json
  sample_json-JsonLaws as_written = record {
    services = services_table as_written;
    files = table_reads [];
    env_vars = λ m t u h. (m, table_reads env_vars m t h, u, refl, λ k v e. e);
    env_vars_text = table_text env_vars;
    watched = table_reads watched;
    watched_text = table_text watched;
  }

pub less_priority-IsOrder : IsOrder less_priority
less_priority-IsOrder = record { asymm = λ x y h. ground arith; trans = λ x y z h k. ground arith }

abbrev pub by_priority : Sorter less_priority
by_priority = insertion_sorter less_priority less_priority-IsOrder
