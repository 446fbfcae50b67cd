-- ===== src/ServicesCm/ConfigMap/RoundTrip.antt =====
-- A services ConfigMap that `Generate` made is read back by `Parse`, and holds what is expected.
use mathlib.Core.List.{Permᴰ}
use mathlib.Core.List.Permᴰ
use windows_machine_config_o.Common.{
  String, ◌≡◌, refl, ap, ◌∙◌, ◌≢◌, inr, true, false, none, some, List, [], ◌∷◌, map, Map,
  HasUniqueKeys, Slice, ok, length, ltb, arith, All, In-perm, All-perm, length-perm, Sorter,
  if◌then◌else◌,
}
use windows_machine_config_o.ServicesCm.Types.{Service, FileInfo, Data}
use windows_machine_config_o.ServicesCm.Cycles.Order.{names, DependsOnEarlier}
use windows_machine_config_o.ServicesCm.Priorities.{less_priority, minus_one, new_data}
use windows_machine_config_o.ServicesCm.Independence.{IsIndependent}
use windows_machine_config_o.ServicesCm.Priorities.Separation.{IsSeparated}
use windows_machine_config_o.ServicesCm.Priorities.Valid.{
  IsProper, built, new_data-IsValid, new_data-ok, new_data_checks,
}
use windows_machine_config_o.ServicesCm.ConfigMap.{
  ConfigMap, Json, generate, parse, validate_expected_content, map_entries,
}
use windows_machine_config_o.ServicesCm.Cycles.Lower.{DependsOnLower, DependsOnLower→Earlier}
use windows_machine_config_o.ServicesCm.ConfigMap.Encoding.{
  written, JsonLaws, generate_short, generate_full, parse_short, parse_full,
}
use windows_machine_config_o.ServicesCm.ConfigMap.Contents.{
  IsWithin, Agrees, HasContent, validate_expected_content-HasContent,
}

-- No slice that is left out where it is empty is empty and not nil, as in every manifest of the operator.
abbrev pub IsCanonical : List Service → Type 0
IsCanonical = All (λ s. written s ≡ s)

map-written : (ss : List Service) → IsCanonical ss → map written ss ≡ ss
map-written [] h = refl
map-written (s ∷ ss) h = cc (h.0, map-written ss h.1)

Agrees-built :
    (m n : Map String)
    → length m ≡ length n
    → IsWithin m n
    → Agrees (if ltb 0 (length m) then some m else none) (if ltb 0 (length n) then some n else none)
Agrees-built [] [] e h = tt
Agrees-built [] (y ∷ n) e h = absurd (omega arith)
Agrees-built (x ∷ m) [] e h = absurd (omega arith)
Agrees-built (x ∷ m) (y ∷ n) e h =
    let filled : ltb 0 (length (x ∷ m)) ≡ true = ground arith in
    let filled' : ltb 0 (length (y ∷ n)) ≡ true = ground arith in rw (filled, filled') (e, h)

built-HasUniqueKeys :
    (m : Map String)
    → HasUniqueKeys m
    → HasUniqueKeys (map_entries (if ltb 0 (length m) then some m else none))
built-HasUniqueKeys [] u = tt
built-HasUniqueKeys (x ∷ m) u =
    let filled : ltb 0 (length (x ∷ m)) ≡ true = ground arith in rw filled u

module _ (json : Json) (laws : JsonLaws json) (by_priority : Sorter less_priority)
    (ss : List Service) (files : List FileInfo) (watched : Slice String)
    (canonical : IsCanonical ss) (proper : IsProper ss) (lower : DependsOnLower ss) where
  abbrev sorted : List Service
  sorted = by_priority.sort ss

  back : Permᴰ ss sorted
  back = Permᴰ.symm (by_priority.sort-perm ss)

  -- The data that was sorted once passes validation again, with whatever map of the same entries.
  rebuilt :
      (env_vars env_vars' : Map String) (d : Data)
      → new_data by_priority ss files env_vars watched ≡ ok d
      → length env_vars' ≡ length env_vars
      → IsWithin env_vars' env_vars
      → HasUniqueKeys env_vars'
      → let d' = built by_priority sorted files env_vars' watched in
        (new_data by_priority sorted files env_vars' watched ≡ ok d')
        × (validate_expected_content d' d ≡ ok tt)
  rebuilt env_vars env_vars' d made e within unique =
      let (same, _, _) = new_data_checks by_priority ss files env_vars watched d made in
      let (valid, _) = new_data-IsValid by_priority ss files env_vars watched d made in
      let services : d.services ≡ sorted = ap (λ x. x.services) same in
      let separated : IsSeparated sorted = rw services at valid.separated in
      let independent : IsIndependent sorted = rw services at valid.independent in
      let d' : Data = built by_priority sorted files env_vars' watched in
      let content : HasContent d' d = rw same (record {
        service_count = length-perm (by_priority.sort-perm sorted);
        services = λ s i. In-perm s (Permᴰ.symm (by_priority.sort-perm sorted)) i;
        file_count = refl;
        files = λ f i. i;
        env_vars = Agrees-built env_vars' env_vars e within;
        watched = refl;
      }) in
      (
        new_data-ok by_priority sorted files env_vars' watched
            (All-perm (λ t. t.bootstrap ≡ false → t.priority ≢ minus_one) back proper) separated
            independent ordered,
        (validate_expected_content-HasContent d' d (built-HasUniqueKeys env_vars' unique)).1
            content,
      )
    where
      lower' : DependsOnLower sorted
      lower' s t i j =
          lower s t (In-perm s (by_priority.sort-perm ss) i)
            (In-perm t (by_priority.sort-perm ss) j)

      ordered : DependsOnEarlier (names sorted) [] sorted
      ordered =
          DependsOnLower→Earlier sorted [] sorted lower' (λ s i. i) (λ t i. inr i)
            (by_priority.sort-IsSorted ss)

  module _ (env_vars : Map String) (d : Data) (t : String)
      (same : d ≡ built by_priority ss files env_vars watched) where
    services_read : json.services.marshal d.services ≡ ok t → json.services.unmarshal t ≡ ok sorted
    services_read e =
        let services : d.services ≡ sorted = ap (λ x. x.services) same in
        let kept = map-written sorted (All-perm (λ s. written s ≡ s) back canonical) in
        laws.services d.services t e ∙ ap (λ l. ok (map written l)) services ∙ ap ok kept

    files_read : json.files.marshal d.files ≡ ok t → json.files.unmarshal t ≡ ok files
    files_read e = laws.files d.files t e ∙ ap (λ x. ok x.files) same

    watched_read :
        json.watched.marshal d.watched_environment_vars ≡ ok t
        → json.watched.unmarshal t ≡ ok watched
    watched_read e =
        laws.watched d.watched_environment_vars t e ∙ ap (λ x. ok x.watched_environment_vars) same

  -- The services ConfigMap that is generated from accepted data is accepted when it is read again, and
  -- holds what is expected: the operator does not delete a ConfigMap that it made itself. This is for
  -- services that depend, of each other, on services of lower priority numbers only, that have no empty
  -- slice where encoding/json drops one, and of whose controller services none has the largest priority
  -- number of a uint. Names of environment variables stand once, as in every map, and what encoding/json
  -- writes it reads back.
  pub validate-parse-generate :
      (env_vars : Map String) (name namespace : String) (d : Data) (cm : ConfigMap)
      → HasUniqueKeys env_vars
      → new_data by_priority ss files env_vars watched ≡ ok d
      → generate json name namespace d ≡ ok cm
      → (d' : Data) × (parse json by_priority cm.content ≡ ok d')
        × (validate_expected_content d' d ≡ ok tt)
  validate-parse-generate [] name namespace d cm unique accepted made =
      let (same, _, _) = new_data_checks by_priority ss files [] watched d accepted in
      let bare : d.environment_vars ≡ none = ap (λ x. x.environment_vars) same in
      let (ts, tf, tw, es, ef, ew, ec) = generate_short json d name namespace cm made bare in
      let (accepted', content) = rebuilt [] [] d accepted refl (λ k v h. h) tt in
      let read =
        parse_short json by_priority ts tf tw sorted files watched (services_read [] d ts same es)
          (files_read [] d tf same ef) (watched_read [] d tw same ew)
          (laws.watched_text d.watched_environment_vars tw ew) in
      (built by_priority sorted files [] watched, rw ec (read ∙ accepted'), content)
  validate-parse-generate (x ∷ m) name namespace d cm unique accepted made =
      let (same, _, _) = new_data_checks by_priority ss files (x ∷ m) watched d accepted in
      let filled : ltb 0 (length (x ∷ m)) ≡ true = ground arith in
      let some_vars : d.environment_vars ≡ some (x ∷ m) =
        ap (λ y. y.environment_vars) same ∙ (rw filled) in
      let (ts, tf, te, tw, es, ef, ee, ew, ec) =
        generate_full json d name namespace cm made (x ∷ m) some_vars (omega arith) in
      let (n, en, unique', size, within) = laws.env_vars (x ∷ m) te unique ee in
      let (accepted', content) = rebuilt (x ∷ m) n d accepted size within unique' in
      let read =
        parse_full json by_priority ts tf tw sorted files watched
          (services_read (x ∷ m) d ts same es) (files_read (x ∷ m) d tf same ef)
          (watched_read (x ∷ m) d tw same ew) (laws.watched_text d.watched_environment_vars tw ew)
          te n en (laws.env_vars_text (x ∷ m) te ee) in
      (built by_priority sorted files n watched, rw ec (read ∙ accepted'), content)
