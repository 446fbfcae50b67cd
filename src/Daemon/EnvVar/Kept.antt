-- ===== src/Daemon/EnvVar/Kept.antt =====
-- A registry that is kept in a map, on which the functions of pkg/daemon/envvar run.
use windows_machine_config_o.Common.{
  String, ◌≡◌, refl, ap, ◌≢◌, true, Option, none, some, Map, lookup, insert, delete, eq_iff, arith,
  lookup-insert_self, lookup-insert_ne, lookup-delete_self, lookup-delete_ne, lookup-delete,
}
use windows_machine_config_o.Daemon.EnvVar.{
  Reading, Deletion, deleted, not_there, undeletable, Registry, unreadable, absent, value,
}
use windows_machine_config_o.Daemon.EnvVar.Steps.{RegistryLaws}

abbrev reading : Option String → Reading
reading none = absent
reading (some v) = value v

abbrev deletion : Option String → Deletion
deletion none = not_there
deletion (some v) = deleted

-- A registry whose names are compared as they are.
abbrev pub kept : Registry
kept = record {
  State = Map String;
  can_open = λ s. true;
  get_string_value = λ k s. reading (lookup k s);
  set_string_value = λ k v s. (insert k v s, true);
  delete_value = λ k s. (delete k s, deletion (lookup k s));
}

pub reading-value : (o : Option String) (v : String) → reading o ≡ value v → o ≡ some v
reading-value none v h = absurd (ground arith)
reading-value (some w) v h = ground arith

pub reading-absent : (o : Option String) → reading o ≡ absent → o ≡ none
reading-absent none h = refl
reading-absent (some w) h = absurd (ground arith)

pub deletion_deleted : (o : Option String) → deletion o ≡ deleted → o ≢ none
deletion_deleted none h = absurd (ground arith)
deletion_deleted (some w) h = λ e. absurd (ground arith)

pub deletion_not_there : (o : Option String) → deletion o ≡ not_there → o ≡ none
deletion_not_there none h = refl
deletion_not_there (some w) h = absurd (ground arith)

pub absent_delete :
    (k : String) (s : Map String) (j : String)
    → lookup k s ≡ none
    → lookup j (delete k s) ≡ lookup j s
absent_delete k s j h = ground (arith, eq_iff k j, lookup-delete k j s)

readable : (o : Option String) → reading o ≢ unreadable
readable none h = absurd (ground arith)
readable (some v) h = absurd (ground arith)

deletable : (o : Option String) → deletion o ≢ undeletable
deletable none h = absurd (ground arith)
deletable (some v) h = absurd (ground arith)

abbrev pub kept_laws : RegistryLaws kept
kept_laws = record {
  fold = λ k. k;
  stored = λ s k. lookup k s;
  folded = λ s j k e. ap (λ n. lookup n s) e;
  read_value = λ k v s h. reading-value (lookup k s) v h;
  read_absent = λ k s h. reading-absent (lookup k s) h;
  set_self = λ k v s h. lookup-insert_self k v s;
  set_other = λ k v j s h. lookup-insert_ne k j v s h;
  delete_deleted = λ k s h. (deletion_deleted (lookup k s) h, lookup-delete_self k s);
  delete_not_there = λ k s h. (
    deletion_not_there (lookup k s) h,
    λ j. absent_delete k s j (deletion_not_there (lookup k s) h),
  );
  delete_other = λ k j s fine h. lookup-delete_ne k j s h;
}
