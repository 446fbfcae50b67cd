-- ===== src/Daemon/Certs/Again.antt =====
-- A second `Reconcile` of pkg/daemon/certs/certs.go, behind one that changed certificates.
use windows_machine_config_o.Common.{
  String, ◌≡◌, ◌≢◌, refl, sym, ap, subst, ◌∙◌, inl, inr, Bool, true, false, some, List, [], ◌∷◌, ok,
  err, ◌==◌, eq_iff, arith, Result-cases, deep_equal_iff, List_deep_equal, String_deep_equal,
}
use windows_machine_config_o.Daemon.Certs.{
  Cert, Pem, Error, Machine, get_expected_certs, get_existing_certs, ensure_certs_are_imported,
  ensure_certs_are_deleted, update_certs, reconcile_certs, imported_ca_bundle_file,
  update_imported_ca_bundle, reconcile, read_certs_from_file,
}

-- What the file system documents; the store has no part in the files.
pub record FileLaws (m : Machine) : Type 0 where
  pub add_keeps : (c : Cert) (p : String) (s : m.State) → m.read p (m.add_cert c s).0 ≡ m.read p s
  pub remove_keeps :
      (c : Cert) (p : String) (s : m.State) → m.read p (m.remove_cert c s).0 ≡ m.read p s
  pub copied :
      (p q : String) (s : m.State)
      → p ≢ q
      → (m.copy p q s).1 ≡ true
      → (m.read q (m.copy p q s).0 ≡ m.read p s)
        × (m.read p (m.copy p q s).0 ≡ m.read p s)
        × (m.exists q (m.copy p q s).0 ≡ some true)

module _ (m : Machine) (decode : String → Pem) (laws : FileLaws m) where
  open m use {State, read, exists, copy, can_open_store, add_cert, remove_cert}

  imported_read :
      (cs existing : List Cert) (imported : Bool) (s : State) (p : String)
      → read p (ensure_certs_are_imported m decode cs existing imported s).0 ≡ read p s
  unfolding ensure_certs_are_imported
  imported_read [] existing imported s p = refl
  imported_read (c ∷ cs) existing imported s p = ground (
    arith,
    imported_read cs existing imported s p,
    imported_read cs existing true (add_cert c s).0 p,
    laws.add_keeps c p s,
  )

  deleted_read :
      (expected cs : List Cert) (removed : Bool) (s : State) (p : String)
      → read p (ensure_certs_are_deleted m decode expected cs removed s).0 ≡ read p s
  unfolding ensure_certs_are_deleted
  deleted_read expected [] removed s p = refl
  deleted_read expected (c ∷ cs) removed s p = ground (
    arith,
    deleted_read expected cs removed s p,
    deleted_read expected cs true (remove_cert c s).0 p,
    laws.remove_keeps c p s,
  )

  update_certs-read :
      (expected existing : List Cert) (s : State) (p : String)
      → read p (update_certs m decode expected existing s).0 ≡ read p s
  unfolding update_certs
  update_certs-read expected existing s p =
      let s1 = (ensure_certs_are_imported m decode expected existing false s).0 in
      ground (
        arith,
        imported_read expected existing false s p,
        deleted_read expected existing false s1 p,
      )

  reconcile_certs-read :
      (path : String) (s : State) (p : String)
      → read p (reconcile_certs m decode path s).0 ≡ read p s
  unfolding reconcile_certs
  reconcile_certs-read path s p = elim (Result-cases (get_expected_certs m decode path s)) [
    | inr (x, f) ↦ rw (f, reconcile_certs) refl
    | inl (expected, f) ↦ elim (Result-cases (get_existing_certs m decode s)) [
      | inr (x, g) ↦ rw (f, reconcile_certs, g) refl
      | inl (existing, g) ↦ rw (f, reconcile_certs, g) (update_certs-read expected existing s p)
    ]
  ]

  expected_read :
      (path : String) (s : State) (b : Bool)
      → (reconcile_certs m decode path s).1 ≡ ok b
      → (expected : List Cert) × (get_expected_certs m decode path s ≡ ok expected)
  unfolding reconcile_certs
  expected_read path s b e = elim (Result-cases (get_expected_certs m decode path s)) [
    | inr (x, f) ↦ absurd (ground arith)
    | inl (expected, f) ↦ (expected, f)
  ]

  -- Where the imported file has what the bundle has, nothing is done.
  settled :
      (path : String) (s : State) (expected : List Cert)
      → path ≢ ""
      → get_expected_certs m decode path s ≡ ok expected
      → get_existing_certs m decode s ≡ ok expected
      → reconcile m decode path s ≡ (s, false, true)
  unfolding reconcile reconcile_certs update_certs update_imported_ca_bundle
  settled path s expected given f g =
      ground (arith, f, g, (deep_equal_iff expected expected).1 refl, eq_iff path "")

  copied_existing :
      (path : String) (s s1 : State) (expected : List Cert)
      → path ≢ ""
      → path ≢ imported_ca_bundle_file
      → read path s1 ≡ read path s
      → get_expected_certs m decode path s ≡ ok expected
      → (copy path imported_ca_bundle_file s1).1 ≡ true
      → let s2 = (copy path imported_ca_bundle_file s1).0 in
        (get_expected_certs m decode path s2 ≡ ok expected)
        × (get_existing_certs m decode s2 ≡ ok expected)
  unfolding get_expected_certs get_existing_certs
  copied_existing path s s1 expected given apart same f done =
      let named : (path == "") ≡ false = ground (arith, eq_iff path "") in
      let (copy_read, kept, there) = laws.copied path imported_ca_bundle_file s1 apart done in
      let from : read_certs_from_file decode (read path s) ≡ ok expected = rw named at f in
      (
        rw named (ap (read_certs_from_file decode) (kept ∙ same) ∙ from),
        rw (there, get_existing_certs) (ap (read_certs_from_file decode) (copy_read ∙ same) ∙ from),
      )

  refused :
      (path : String) (s : State) (x : Error)
      → (reconcile_certs m decode path s).1 ≡ err x
      → (reconcile m decode path s).1 ≢ true
  unfolding reconcile
  refused path s x h changed = ground (arith, h, changed)

  accepted :
      (path : String) (s : State) (b : Bool)
      → (reconcile_certs m decode path s).1 ≡ ok b
      → let last = update_imported_ca_bundle m decode path b (reconcile_certs m decode path s).0 in
        reconcile m decode path s ≡ (last.0, b, last.1)
  unfolding reconcile
  accepted path s b h = rw (h, reconcile) refl

  -- If Reconcile changes certificates for a bundle without an error, then a second Reconcile for it changes
  -- nothing and reports no change: the instance is not restarted again. The bundle has a path, and is not the
  -- file of imported certificates.
  pub reconcile_twice :
      (path : String) (s : State)
      → path ≢ ""
      → path ≢ imported_ca_bundle_file
      → (reconcile m decode path s).1 ≡ true
      → (reconcile m decode path s).2 ≡ true
      → reconcile m decode path (reconcile m decode path s).0
        ≡ ((reconcile m decode path s).0, false, true)
  unfolding update_imported_ca_bundle
  reconcile_twice path s given apart changed fine =
      elim (Result-cases (reconcile_certs m decode path s).1) [
        | inr (x, h) ↦ absurd (refused path s x h changed)
        | inl (b, h) ↦
            let s1 = (reconcile_certs m decode path s).0 in
            let named : (path == "") ≡ false = ground (arith, eq_iff path "") in
            let at : reconcile m decode path s ≡ (
              (update_imported_ca_bundle m decode path b s1).0,
              b,
              (update_imported_ca_bundle m decode path b s1).1,
            ) =
              accepted path s b h in
            let on : b ≡ true = sym (ap (λ x. x.1) at) ∙ changed in
            let second : (update_imported_ca_bundle m decode path b s1)
                ≡ copy path imported_ca_bundle_file s1 =
              rw (on, named) refl in
            let done : (copy path imported_ca_bundle_file s1).1 ≡ true =
              sym (ap (λ x. x.1) second) ∙ sym (ap (λ x. x.2) at) ∙ fine in
            let (expected, f) = expected_read path s b h in
            let (f', g') =
              copied_existing path s s1 expected given apart (reconcile_certs-read path s path) f
                done in
            let last : (reconcile m decode path s).0 ≡ (copy path imported_ca_bundle_file s1).0 =
              ap (λ x. x.0) at ∙ ap (λ x. x.0) second in
            subst (λ t. reconcile m decode path t ≡ (t, false, true)) (sym last)
              (settled path (copy path imported_ca_bundle_file s1).0 expected given f' g')
      ]
