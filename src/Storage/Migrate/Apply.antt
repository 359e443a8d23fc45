-- ===== src/Storage/Migrate/Apply.antt =====
-- `CurrentSchemaVersion` and `Migrate` of internal/storage/neo4j/migrate.go.
use memmy.Prelude.{ℕ, ◌≡◌, Bool, not, Option, none, some, List, [], ◌∷◌, ◌++◌, if◌then◌else◌}
use memmy.Prelude.Int.{ℤ, pos, int_ltb}
use memmy.Chunker.Text.{Text}
use memmy.Storage.Session.{
  Result, ok, err, M, pure, ◌>>=◌, ◌>>◌, with_write_session, with_read_session,
}
use memmy.Storage.Migrate.Scripts.{Migration, Entry, load_migrations}

-- The statements that the migrations run on the server: the query for the highest version, the one
-- that records a version with its file's name, and the statements of the files, with the parameter
-- `$dim`. `versions` are those of the :Migration nodes.
pub record SchemaServer : Type 1 where
  pub Db : Type 0
  pub versions : Db → List ℤ
  pub match_max_version : Db → Option ℤ
  pub create_migration : ℤ → Text → Db → Db
  pub run_schema : Text → ℤ → Db → Db

abbrev pub int_max : ℤ → ℤ → ℤ
int_max a b = if int_ltb a b then b else a

-- Cypher's `max`, with null where there are no rows.
abbrev pub max_of : List ℤ → Option ℤ
max_of [] = none
max_of (v ∷ []) = some v
max_of (v ∷ w ∷ vs) = elim (max_of (w ∷ vs)) [ none ↦ some v | some u ↦ some (int_max v u) ]

-- What the statements mean; those of the files create constraints and indexes, no :Migration node.
pub record IsSchema (d : SchemaServer) : Type 0 where
  pub match_max_version_lem : (db : d.Db) → d.match_max_version db ≡ max_of (d.versions db)
  pub create_migration_lem :
      (v : ℤ) (name : Text) (db : d.Db)
      → d.versions (d.create_migration v name db) ≡ d.versions db ++ v ∷ []
  pub run_schema_lem :
      (stmt : Text) (dim : ℤ) (db : d.Db) → d.versions (d.run_schema stmt dim db) ≡ d.versions db

abbrev pub or_nought : Option ℤ → ℤ
or_nought none = pos 0
or_nought (some v) = v

module _ (d : SchemaServer) (dim : ℤ) (commits : ℕ → Bool) where
  open d use {Db}

  unfoldable pub current_schema_version : M Db ℤ
  current_schema_version = with_read_session commits (λ db. ok (or_nought (d.match_max_version db)))

  -- A statement in a transaction of its own.
  unfoldable pub exec_auto_commit : Text → M Db (Unit {0})
  exec_auto_commit stmt = with_write_session commits (λ db. (ok tt, d.run_schema stmt dim db))

  unfoldable pub record_migration : Migration → M Db (Unit {0})
  record_migration m =
      with_write_session commits (λ db. (ok tt, d.create_migration m.version m.name db))

  unfoldable pub run_statements : List Text → M Db (Unit {0})
  run_statements [] = pure tt
  run_statements (stmt ∷ stmts) = exec_auto_commit stmt >> run_statements stmts

  unfoldable pub apply_from : ℤ → List Migration → M Db (Unit {0})
  apply_from current [] = pure tt
  apply_from current (m ∷ ms) =
      (if not (int_ltb current m.version)
        then pure tt
        else (run_statements m.statements >> record_migration m))
      >> apply_from current ms

  abbrev pub migrate_loaded : Result (List Migration) → M Db (Unit {0})
  migrate_loaded (err e) w = (err e, w)
  migrate_loaded (ok migs) w = (current_schema_version >>= λ current. apply_from current migs) w

  unfoldable pub migrate : List Entry → M Db (Unit {0})
  migrate entries = migrate_loaded (load_migrations entries)
