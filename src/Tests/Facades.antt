-- ===== src/Tests/Facades.antt =====
-- memmy.go: runs and instances.
use memmy.Prelude.{◌≡◌, refl, ap, true, false, none, some, List, [], ◌∷◌, ◌++◌, map}
use memmy.Prelude.Int.{ℤ, pos}
use memmy.Types.{Node}
use memmy.Storage.Rows.{PropertyGraph}
use memmy.Storage.Session.{ok, with_read_session, with_write_session}
use memmy.Storage.Migrate.Scripts.{load_migrations}
use memmy.Storage.Migrate.Apply.{
  SchemaServer, IsSchema, max_of, current_schema_version, migrate, apply_from, run_statements,
  exec_auto_commit, record_migration,
}
use memmy.Storage.Migrate.Reach.{fresh, again}
use memmy.Storage.Open.{Storage}
use memmy.Service.Request.{Service}
use memmy.Service.New.{Platform, Embedder}
use memmy.Facade.{Options, World, Schema, sd, open_service, migrate_schema}
use memmy.Facade.Balanced.{Outcome, open_service_lem}
use memmy.Facade.Reaches.{migrate_then_open}
use memmy.Tests.Samples.{milli, memory, node, no_rows}
use memmy.Tests.Requests.{server}
use memmy.Tests.Migrations.{files, migrations, loads, fails_fifth}

-- A :Migration node has its version in the weight.
abbrev labelled : Schema (PropertyGraph ℤ)
labelled = record {
  versions = λ g. map (λ n. n.weight) g.nodes;
  match_max_version = λ g. max_of (map (λ n. n.weight) g.nodes);
  create_migration = λ v name g. record g { nodes = g.nodes ++ node "migration" v ∷ [] };
  run_schema = λ stmt dim g. g;
}

abbrev platform : Platform
platform = record {
  float = milli;
  database = memory;
  commits = λ k. true;
  real = λ k. 60000000000;
  bolt = record {
    new_driver = λ uri user password. ok tt;
    verify_connectivity = λ h timeout. ok tt;
    close = λ h. ok tt;
  };
  tenant_hash = server.tenant_hash;
  json = server.json;
  ulid = server.ulid;
  sort_slice = λ less xs. xs;
  visiting = λ xs. xs;
}

abbrev schema_server : SchemaServer
schema_server = sd platform labelled files

weights_append :
    (ns : List (Node ℤ)) (n : Node ℤ)
    → map (λ n. n.weight) (ns ++ n ∷ []) ≡ map (λ n. n.weight) ns ++ n.weight ∷ []
weights_append [] n = refl
weights_append (m ∷ ns) n = ap (λ ws. m.weight ∷ ws) (weights_append ns n)

schema_server-IsSchema : IsSchema schema_server
schema_server-IsSchema = record {
  match_max_version_lem = λ db. refl;
  create_migration_lem = λ v name db. weights_append db.nodes (node "migration" v);
  run_schema_lem = λ stmt dim db. refl;
}

abbrev embedder : Embedder ℤ
embedder = record { dim = pos 2; embed = server.embed }

abbrev options : Options ℤ
options = record {
  neo4j = record {
    uri = "bolt://localhost";
    user = "neo4j";
    password = "secret";
    database = "";
    connect_timeout = pos 0;
  };
  embedder = some embedder;
  clock = none;
  service_config = none;
  tenant_schema = none;
  flat_scan_threshold = pos 0;
  skip_migration_check = false;
}

abbrev holding : List (Node ℤ) → World (PropertyGraph ℤ)
holding ns = record {
  drivers = record { made = 0; open_ones = [] };
  store = record { db = record no_rows { nodes = ns }; transactions = 0; readings = 0 };
}

open_service_lem_example :
    Outcome platform labelled files options
      (holding (node "migration" (pos 1) ∷ node "migration" (pos 2) ∷ []))
      (open_service platform labelled files options
        (holding (node "migration" (pos 1) ∷ node "migration" (pos 2) ∷ [])))
open_service_lem_example =
    open_service_lem platform labelled files options
      (holding (node "migration" (pos 1) ∷ node "migration" (pos 2) ∷ []))

stopped :
    record no_rows { nodes = node "migration" (pos 1) ∷ [] }
    ≡ (migrate schema_server (pos 2) fails_fifth files (holding []).store).1.db
unfolding migrate apply_from run_statements exec_auto_commit record_migration current_schema_version
    load_migrations with_read_session with_write_session
stopped = refl

migrate_then_open_example :
    ((migrate_schema platform labelled files
        (record { neo4j = options.neo4j; dim = pos 2 })
        (holding (node "migration" (pos 1) ∷ []))).0
      ≡ ok tt)
    × ((migrate_schema platform labelled files
          (record { neo4j = options.neo4j; dim = pos 2 })
          (holding (node "migration" (pos 1) ∷ []))).1.drivers.open_ones
        ≡ [])
    × ((svc : Service) × (st : Storage) × ((open_service platform labelled files options
            (migrate_schema platform labelled files
              (record { neo4j = options.neo4j; dim = pos 2 })
              (holding (node "migration" (pos 1) ∷ []))).1).0
          ≡ ok (svc, st)))
migrate_then_open_example =
    migrate_then_open platform labelled files schema_server-IsSchema migrations loads (λ k. refl)
      options refl refl refl refl (λ h timeout. refl) embedder refl refl refl no_rows
      (holding (node "migration" (pos 1) ∷ [])) refl
      (again fresh fails_fifth (holding []).store refl stopped)
