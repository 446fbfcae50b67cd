-- ===== src/Daemon/Certs/Tests.antt =====
-- An instance with a bundle of one certificate, and the theorems at it.
use windows_machine_config_o.Common.{
  ◌≤◌, String, ◌≡◌, ◌≢◌, refl, sym, ◌∙◌, Bool, true, false, not, ◌&&◌, ◌||◌, Option, none, some, [],
  ◌∷◌, Map, ok, ◌==◌, eq_iff, arith, lookup, insert, delete, has_key, lookup-insert_self,
  lookup-insert_ne, List_deep_equal, String_deep_equal,
}
use windows_machine_config_o.Daemon.Certs.{
  Cert, Pem, certificate, Machine, get_expected_certs, get_existing_certs,
  ensure_certs_are_imported, ensure_certs_are_deleted, update_certs, reconcile_certs,
  imported_ca_bundle_file, update_imported_ca_bundle, reconcile, read_certs_from_file, parse_tokens,
  tokens, cut_after, drop, size,
}
use windows_machine_config_o.Daemon.Certs.Store.{StoreLaws, reconcile_certs-present}
use windows_machine_config_o.Daemon.Certs.Again.{FileLaws, reconcile_twice}

record Disk : Type 0 where
  files : Map String
  store : Cert → Bool

abbrev with_file : String → Option String → Disk → Disk
with_file q none s = s
with_file q (some content) s = record { files = insert q content s.files; store = s.store }

abbrev readable : Option String → Bool
readable none = false
readable (some content) = true

abbrev machine : Machine
machine = record {
  State = Disk;
  read = λ p s. lookup p s.files;
  exists = λ p s. some (has_key p s.files);
  remove = λ p s. (record { files = delete p s.files; store = s.store }, true);
  copy = λ p q s. (with_file q (lookup p s.files) s, readable (lookup p s.files));
  can_open_store = λ s. true;
  add_cert = λ c s. (record { files = s.files; store = λ d. (c == d) || s.store d }, true);
  remove_cert = λ c s. (record { files = s.files; store = λ d. not (c == d) && s.store d }, true);
}

abbrev store_laws : StoreLaws machine
store_laws = record {
  present = λ s c. s.store c;
  added = λ c s e. ground (arith, eq_iff c c);
  add_other = λ c d s h. ground (arith, eq_iff c d);
  removed = λ c s e. ground (arith, eq_iff c c);
  remove_other = λ c d s h. ground (arith, eq_iff c d);
}

with_file-lookup :
    (p q : String) (o : Option String) (s : Disk)
    → p ≢ q
    → lookup p s.files ≡ o
    → readable o ≡ true
    → (lookup q (with_file q o s).files ≡ o)
      × (lookup p (with_file q o s).files ≡ o)
      × (some (has_key q (with_file q o s).files) ≡ some true)
with_file-lookup p q none s apart at h = absurd (ground arith)
with_file-lookup p q (some content) s apart at h =
    let new = lookup-insert_self q content s.files in
    (new, lookup-insert_ne q p content s.files (λ e. apart (sym e)) ∙ at, ground (arith, new))

abbrev file_laws : FileLaws machine
file_laws = record {
  add_keeps = λ c p s. refl;
  remove_keeps = λ c p s. refl;
  copied = λ p q s apart h. with_file-lookup p q (lookup p s.files) s apart refl h;
}

-- The text of a certificate is its token.
abbrev decode : String → Pem
decode token = certificate token

abbrev bundle : String
bundle = "bundle"

abbrev before : Disk
before = record {
  files =
      (bundle, "new-----END CERTIFICATE-----\n")
      ∷ (imported_ca_bundle_file, "old-----END CERTIFICATE-----\n")
      ∷ [];
  store = λ c. c == "old-----END CERTIFICATE-----";
}

abbrev new_cert : Cert
new_cert = "new-----END CERTIFICATE-----"

abbrev old_cert : Cert
old_cert = "old-----END CERTIFICATE-----"

given : get_expected_certs machine decode bundle before ≡ ok (new_cert ∷ [])
unfolding get_expected_certs read_certs_from_file parse_tokens tokens cut_after drop size lookup
given = refl

existing : get_existing_certs machine decode before ≡ ok (old_cert ∷ [])
unfolding get_existing_certs read_certs_from_file parse_tokens tokens cut_after drop size lookup
existing = refl

reported : (reconcile_certs machine decode bundle before).1 ≡ ok true
unfolding reconcile_certs update_certs ensure_certs_are_imported ensure_certs_are_deleted
    get_expected_certs get_existing_certs read_certs_from_file parse_tokens tokens cut_after drop
    size lookup
reported = refl

changed : (reconcile machine decode bundle before).1 ≡ true
unfolding reconcile update_imported_ca_bundle reconcile_certs update_certs ensure_certs_are_imported
    ensure_certs_are_deleted get_expected_certs get_existing_certs read_certs_from_file parse_tokens
    tokens cut_after drop size lookup
changed = refl

fine : (reconcile machine decode bundle before).2 ≡ true
unfolding reconcile update_imported_ca_bundle reconcile_certs update_certs ensure_certs_are_imported
    ensure_certs_are_deleted get_expected_certs get_existing_certs read_certs_from_file parse_tokens
    tokens cut_after drop size lookup insert
fine = refl

reconcile_certs-present_example :
    (reconcile_certs machine decode bundle before).0.store new_cert ≡ true
reconcile_certs-present_example =
    reconcile_certs-present machine decode store_laws bundle before true (new_cert ∷ [])
      (old_cert ∷ []) new_cert given existing (λ h. absurd (ground arith)) reported

bundle_named : bundle ≢ ""
bundle_named e = ground (arith, (eq_iff bundle "").1 e)

bundle_apart : bundle ≢ imported_ca_bundle_file
bundle_apart e = ground (arith, (eq_iff bundle imported_ca_bundle_file).1 e)

reconcile_twice_example :
    reconcile machine decode bundle (reconcile machine decode bundle before).0
    ≡ ((reconcile machine decode bundle before).0, false, true)
reconcile_twice_example =
    reconcile_twice machine decode file_laws bundle before bundle_named bundle_apart changed fine

old_cert_short : size old_cert ≤ 40
unfolding size
old_cert_short = omega arith
