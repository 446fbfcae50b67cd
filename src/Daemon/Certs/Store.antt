-- ===== src/Daemon/Certs/Store.antt =====
-- What `reconcileCerts` of pkg/daemon/certs/certs.go leaves in the root store.
use windows_machine_config_o.Common.{
  String, ◌≡◌, ◌≢◌, refl, sym, ap, ◌∙◌, inl, inr, Bool, true, false, not, ◌&&◌, ◌||◌, List, [], ◌∷◌,
  ok, ◌==◌, eq_iff, if◌then◌else◌, arith, Bool-cases, Result-cases, String-cases, deep_equal,
  deep_equal_iff, List_deep_equal, String_deep_equal,
}
use windows_machine_config_o.Daemon.Certs.{
  Cert, Pem, Machine, contains_cert, get_expected_certs, get_existing_certs,
  ensure_certs_are_imported, ensure_certs_are_deleted, update_certs, reconcile_certs,
}

-- What the certificate store documents: a success has its effect, and no other certificate is touched.
pub record StoreLaws (m : Machine) : Type 0 where
  pub present : m.State → Cert → Bool
  pub added :
      (c : Cert) (s : m.State) → (m.add_cert c s).1 ≡ true → present (m.add_cert c s).0 c ≡ true
  pub add_other : (c d : Cert) (s : m.State) → c ≢ d → present (m.add_cert c s).0 d ≡ present s d
  pub removed :
      (c : Cert) (s : m.State)
      → (m.remove_cert c s).1 ≡ true
      → present (m.remove_cert c s).0 c ≡ false
  pub remove_other :
      (c d : Cert) (s : m.State) → c ≢ d → present (m.remove_cert c s).0 d ≡ present s d

module _ (m : Machine) (decode : String → Pem) (laws : StoreLaws m) where
  open m use {State, can_open_store, add_cert, remove_cert}
  open laws use {present}

  add_cert-present :
      (c d : Cert) (s : State)
      → (add_cert c s).1 ≡ true
      → present (add_cert c s).0 d ≡ ((c == d) || present s d)
  add_cert-present c d s done = elim (String-cases c d) [
    | inl same ↦
        let at = ap (present (add_cert c s).0) (sym same) ∙ laws.added c s done in
        ground (arith, eq_iff c d, same, at)
    | inr other ↦ ground (arith, eq_iff c d, laws.add_other c d s other)
  ]

  remove_cert-present :
      (c d : Cert) (s : State)
      → (remove_cert c s).1 ≡ true
      → present (remove_cert c s).0 d ≡ (not (c == d) && present s d)
  remove_cert-present c d s done = elim (String-cases c d) [
    | inl same ↦
        let at = ap (present (remove_cert c s).0) (sym same) ∙ laws.removed c s done in
        ground (arith, eq_iff c d, same, at)
    | inr other ↦ ground (arith, eq_iff c d, laws.remove_other c d s other)
  ]

  imported_present :
      (cs existing : List Cert) (imported b : Bool) (s : State) (d : Cert)
      → (ensure_certs_are_imported m decode cs existing imported s).1 ≡ ok b
      → present (ensure_certs_are_imported m decode cs existing imported s).0 d
        ≡ ((contains_cert cs d && not (contains_cert existing d)) || present s d)
  unfolding ensure_certs_are_imported
  imported_present [] existing imported b s d e = refl
  imported_present (c ∷ cs) existing imported b s d e =
      elim (Bool-cases (contains_cert existing c)) [
        | inl known ↦
            let rest = imported_present cs existing imported b s d (ground arith) in
            let at =
              λ (same : (c == d) ≡ true). ap (contains_cert existing) ((eq_iff c d).0 same) in
            ground (arith, rest, at, eq_iff c d)
        | inr new ↦ elim (Bool-cases (add_cert c s).1) [
          | inr failed ↦ absurd (ground arith)
          | inl done ↦
              let rest = imported_present cs existing true b (add_cert c s).0 d (ground arith) in
              let at =
                λ (same : (c == d) ≡ true). ap (contains_cert existing) ((eq_iff c d).0 same) in
              ground (arith, rest, at, add_cert-present c d s done)
        ]
      ]

  deleted_present :
      (expected cs : List Cert) (removed b : Bool) (s : State) (d : Cert)
      → (ensure_certs_are_deleted m decode expected cs removed s).1 ≡ ok b
      → present (ensure_certs_are_deleted m decode expected cs removed s).0 d
        ≡ (not (contains_cert cs d && not (contains_cert expected d)) && present s d)
  unfolding ensure_certs_are_deleted
  deleted_present expected [] removed b s d e = refl
  deleted_present expected (c ∷ cs) removed b s d e =
      let at = λ (same : (c == d) ≡ true). ap (contains_cert expected) ((eq_iff c d).0 same) in
      elim (Bool-cases (contains_cert expected c)) [
        | inl known ↦
            let rest = deleted_present expected cs removed b s d (ground arith) in
            ground (arith, rest, at, eq_iff c d)
        | inr stale ↦ elim (Bool-cases (remove_cert c s).1) [
          | inr failed ↦ absurd (ground arith)
          | inl done ↦
              let rest = deleted_present expected cs true b (remove_cert c s).0 d (ground arith) in
              ground (arith, rest, at, remove_cert-present c d s done)
        ]
      ]

  -- Behind a success, where the old certificates were in the store.
  abbrev wanted : List Cert → List Cert → Cert → Bool → Bool
  wanted expected existing d old =
      if contains_cert expected d then true else (if contains_cert existing d then false else old)

  update_certs-present :
      (expected existing : List Cert) (s : State) (b : Bool) (d : Cert)
      → (contains_cert existing d ≡ true → present s d ≡ true)
      → (update_certs m decode expected existing s).1 ≡ ok b
      → present (update_certs m decode expected existing s).0 d
        ≡ wanted expected existing d (present s d)
  unfolding update_certs
  update_certs-present expected existing s b d held e =
      elim (Bool-cases (deep_equal expected existing)) [
        | inl same ↦
            let eq = ap (λ l. contains_cert l d) ((deep_equal_iff expected existing).0 same) in
            ground (arith, same, eq)
        | inr differ ↦ elim (Bool-cases (can_open_store s)) [
          | inr shut ↦ absurd (ground arith)
          | inl opened ↦
              let s1 = (ensure_certs_are_imported m decode expected existing false s).0 in
              elim (Result-cases (ensure_certs_are_imported m decode expected existing false s).1) [
                | inr (x, h) ↦ absurd (ground arith)
                | inl (i, h) ↦
                    elim (Result-cases
                      (ensure_certs_are_deleted m decode expected existing false s1).1) [
                        | inr (x, k) ↦ absurd (ground arith)
                        | inl (j, k) ↦ ground (
                          arith,
                          differ,
                          opened,
                          h,
                          imported_present expected existing false i s d h,
                          deleted_present expected existing false j s1 d k,
                        )
                      ]
              ]
        ]
      ]

  -- If reconcileCerts reports no error, then each certificate of the bundle is in the store, each one that was
  -- imported before and is not in the bundle is not, and of the others those are in it that were; the imported
  -- certificates were in the store.
  pub reconcile_certs-present :
      (path : String) (s : State) (b : Bool) (expected existing : List Cert) (d : Cert)
      → get_expected_certs m decode path s ≡ ok expected
      → get_existing_certs m decode s ≡ ok existing
      → (contains_cert existing d ≡ true → present s d ≡ true)
      → (reconcile_certs m decode path s).1 ≡ ok b
      → present (reconcile_certs m decode path s).0 d ≡ (
          if contains_cert expected d
          then true
          else (if contains_cert existing d then false else present s d))
  unfolding reconcile_certs
  reconcile_certs-present path s b expected existing d f g held e =
      let e' : (update_certs m decode expected existing s).1 ≡ ok b =
        rw (f, reconcile_certs, g) at e in
      rw (f, reconcile_certs, g) (update_certs-present expected existing s b d held e')
