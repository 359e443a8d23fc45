-- ===== src/Tests/Migrations.antt =====
-- The migrations: runs and an instance.
use memmy.Prelude.{ℕ, ◌≡◌, refl, Bool, true, false, List, [], ◌∷◌, ◌++◌, none, some, ltb}
use memmy.Prelude.Int.{ℤ, pos, negsuc}
use memmy.Storage.Session.{ok, Store, ◌>>◌, with_read_session, with_write_session}
use memmy.Storage.Migrate.Scripts.{
  Migration, Entry, parse_migration_version, split_cypher_statements, load_migrations,
  required_schema_version, atoi,
}
use memmy.Storage.Migrate.Apply.{
  SchemaServer, IsSchema, max_of, current_schema_version, migrate, apply_from, run_statements,
  exec_auto_commit, record_migration,
}
use memmy.Storage.Migrate.Reach.{fresh, again, migrate_lem}
use memmy.Tests.Chunks.{codes}

statements :
    split_cypher_statements (codes "// c\nCREATE a\n  b;\nDROP;;\nrest")
    ≡ codes "CREATE a\n  b" ∷ codes "DROP" ∷ codes "rest" ∷ []
unfolding split_cypher_statements
statements = refl

versions :
    (parse_migration_version (codes "0012_x.cypher") ≡ ok (pos 12))
    × (atoi (codes "-3") ≡ some (negsuc 2))
    × (atoi (codes "9223372036854775808") ≡ none)
unfolding parse_migration_version atoi
versions = (refl, refl, refl)

-- The database is the list of the versions that were recorded.
abbrev schema : SchemaServer
schema = record {
  Db = List ℤ;
  versions = λ db. db;
  match_max_version = max_of;
  create_migration = λ v name db. db ++ v ∷ [];
  run_schema = λ stmt dim db. db;
}

schema-IsSchema : IsSchema schema
schema-IsSchema = record {
  match_max_version_lem = λ db. refl;
  create_migration_lem = λ v name db. refl;
  run_schema_lem = λ stmt dim db. refl;
}

abbrev file : List ℕ → List ℕ → Entry
file name raw = record { name = name; is_dir = false; raw = raw }

-- The directory lists its files by name.
abbrev pub files : List Entry
files =
    file (codes "0001_init.cypher") (codes "CREATE a;\nCREATE b;")
    ∷ file (codes "0002_next.cypher") (codes "CREATE c;")
    ∷ file (codes "README.md") []
    ∷ []

abbrev pub migrations : List Migration
migrations =
    record {
      version = pos 1;
      name = codes "0001_init.cypher";
      statements = codes "CREATE a" ∷ codes "CREATE b" ∷ [];
    }
    ∷ record {
      version = pos 2;
      name = codes "0002_next.cypher";
      statements = codes "CREATE c" ∷ [];
    }
    ∷ []

pub loads : load_migrations files ≡ ok migrations
unfolding load_migrations
loads = refl

abbrev empty_store : Store (List ℤ)
empty_store = record { db = []; transactions = 0; readings = 0 }

-- The fifth transaction fails: the first run stops before it has run the second file.
abbrev pub fails_fifth : ℕ → Bool
fails_fifth k = ltb k 4

abbrev stopped : Store (List ℤ)
stopped = record { db = pos 1 ∷ []; transactions = 0; readings = 0 }

runs_stopped : pos 1 ∷ [] ≡ (migrate schema (pos 4) fails_fifth files empty_store).1.db
unfolding migrate apply_from run_statements exec_auto_commit record_migration current_schema_version
    load_migrations with_read_session with_write_session
runs_stopped = refl

migrate_lem_example :
    (((migrate schema (pos 4) (λ k. true) files
          >> current_schema_version schema (pos 4) (λ k. true))
        stopped).0
      ≡ required_schema_version files)
    × ((migrate schema
          (pos 4)
          (λ k. true)
          files
          (migrate schema (pos 4) (λ k. true) files stopped).1).1.db
        ≡ (migrate schema (pos 4) (λ k. true) files stopped).1.db)
migrate_lem_example =
    migrate_lem schema schema-IsSchema (pos 4) files migrations loads (λ k. true) (λ k. refl) []
      stopped refl (again fresh fails_fifth empty_store refl runs_stopped)
