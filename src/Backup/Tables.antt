-- ===== src/Backup/Tables.antt =====
-- Which tables a backup asks for.
use axonops_operator.Prelude.{
  String, ◌≡◌, refl, Bool, false, not, List, [], ◌∷◌, ◌||◌, nat_eq, length, arith, has_code,
  after_first, strip_prefix, is_some,
}
use axonops_operator.Errors.{ok}
use axonops_operator.Http.{Std, Env, Run}
use axonops_operator.Client.Backup.{BackupPayload}
use axonops_operator.Backup.{Backup, table_names, local_payload, with_remote}
use axonops_operator.Backup.Steps.{build_backup_payload}

-- Whether one of the tables has a keyspace before a dot.
abbrev pub any_qualified : List String → Bool
any_qualified [] = false
any_qualified (t ∷ ts) = has_code 46 t || any_qualified ts

is_some-after_first : (t : String) → is_some (after_first "." t) ≡ has_code 46 t
unfolding after_first strip_prefix has_code
is_some-after_first String.[] = refl
is_some-after_first (String.◌∷◌ c s) = ground (arith, is_some-after_first s)

table_names_empty : (ts : List String) → nat_eq (length (table_names ts)) 0 ≡ not (any_qualified ts)
unfolding table_names
table_names_empty [] = refl
table_names_empty (t ∷ ts) = ground (arith, is_some-after_first t, table_names_empty ts)

module _ {W : Type 0} (std : Std) (env : Env W Backup) where
  -- A payload asks for all tables exactly if no table of the specification has a dot: so also where
  -- the specification lists tables, all of them without their keyspace, or keyspaces.
  pub build_backup_payload_all_tables :
      (b : Backup) (r r' : Run W Backup) (p : BackupPayload)
      → build_backup_payload std env b r ≡ (ok p, r')
      → p.all_tables ≡ not (any_qualified b.spec.tables)
  unfolding build_backup_payload local_payload with_remote
  build_backup_payload_all_tables b r r' p h = ground (arith, table_names_empty b.spec.tables)
