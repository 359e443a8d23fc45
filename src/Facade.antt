-- ===== src/Facade.antt =====
-- memmy.go: `Open` and `Migrate`.
pub mod Balanced
pub mod Reaches
use memmy.Prelude.{
  ℕ, Bool, true, false, not, String, str_eq, Option, none, some, List, if◌then◌else◌,
}
use memmy.Prelude.Int.{ℤ, pos, int_ltb, int_eqb}
use memmy.Chunker.Text.{Text}
use memmy.Types.Instant.{Time}
use memmy.Storage.Session.{message, Result, ok, err, Store, M}
use memmy.Storage.Migrate.Scripts.{Entry, required_schema_version}
use memmy.Storage.Migrate.Apply.{SchemaServer, current_schema_version, migrate}
use memmy.Storage.Open.{Storage, Drivers, open_storage, close}
use memmy.Storage.Open
use memmy.Service.Config.{Config, default_config}
use memmy.Service.Tenant.{TenantSchema}
use memmy.Service.Request.{Service}
use memmy.Service.New.{Platform, Embedder, new}

pub record Neo4jOptions : Type 0 where
  pub uri : String
  pub user : String
  pub password : String
  pub database : String
  pub connect_timeout : ℤ

pub record Options (F : Type 0) : Type 0 where
  pub neo4j : Neo4jOptions
  pub embedder : Option (Embedder F)
  pub clock : Option (ℕ → Time)
  pub service_config : Option (Config F)
  pub tenant_schema : Option TenantSchema
  pub flat_scan_threshold : ℤ
  pub skip_migration_check : Bool

pub record MigrationOptions : Type 0 where
  pub neo4j : Neo4jOptions
  pub dim : ℤ

-- The process and the server that it talks to.
pub record World (Db : Type 0) : Type 0 where
  pub drivers : Drivers
  pub store : Store Db

-- The statements of the migrations on the states of a server.
pub record Schema (Db : Type 0) : Type 0 where
  pub versions : Db → List ℤ
  pub match_max_version : Db → Option ℤ
  pub create_migration : ℤ → Text → Db → Db
  pub run_schema : Text → ℤ → Db → Db

-- `files` is the directory of migrations that is built in.
module _ (pl : Platform) (statements : Schema pl.database.Db) (files : List Entry) where
  abbrev pub sd : SchemaServer
  sd = record {
    Db = pl.database.Db;
    versions = statements.versions;
    match_max_version = statements.match_max_version;
    create_migration = statements.create_migration;
    run_schema = statements.run_schema;
  }

  abbrev pub Db : Type 0
  Db = pl.database.Db

  abbrev pub Run {ℓ} : Type ℓ → Type ℓ
  Run A = World Db → Result A × World Db

  abbrev pub on_drivers {ℓ} : {A : Type ℓ} → Result A × Drivers → World Db → Result A × World Db
  on_drivers (r, p) w = (r, record w { drivers = p })

  abbrev pub on_store : {A : Type 0} → M Db A → Run A
  on_store m w = let (r, s) = m w.store in (r, record w { store = s })

  -- `_ = storage.Close()`, before an error is returned.
  abbrev pub closing {ℓ} : {A : Type ℓ} → Storage → Result A → World Db → Result A × World Db
  closing st r w = (r, record w { drivers = (close pl.bolt pl.real st w.drivers).2 })

  abbrev pub config_of : Option (Config pl.float.F) → Config pl.float.F
  config_of none = default_config pl.float
  config_of (some c) = c

  abbrev pub built : Storage → Result Service → Run (Service × Storage)
  built st (ok svc) w = (ok (svc, st), w)
  built st (err e) w = closing st (err e) w

  abbrev pub build : Options pl.float.F → Storage → Run (Service × Storage)
  build o st =
      built st
        (new pl (some st) (some st) o.embedder o.clock (config_of o.service_config) o.tenant_schema)

  abbrev pub compare_versions :
      Options pl.float.F → Storage → ℤ → Result ℤ → Run (Service × Storage)
  compare_versions o st want (err e) w = closing st (err e) w
  compare_versions o st want (ok got) w =
      if not (int_eqb got want)
      then closing st (err (message "memmy: schema version mismatch")) w
      else build o st w

  abbrev pub check_version : Options pl.float.F → Storage → Result ℤ → Run (Service × Storage)
  check_version o st (err e) w = closing st (err e) w
  check_version o st (ok want) w =
      let (got, w1) = on_store (current_schema_version sd st.dim pl.commits) w in
      compare_versions o st want got w1

  abbrev pub opened : Options pl.float.F → Result Storage → Run (Service × Storage)
  opened o (err e) w = (err e, w)
  opened o (ok st) w =
      if not o.skip_migration_check
      then check_version o st (required_schema_version files) w
      else build o st w

  abbrev pub dial_options : Neo4jOptions → ℤ → ℤ → Option (ℕ → Time) → Open.Options
  dial_options n dim threshold clock = record {
    uri = n.uri;
    username = n.user;
    password = n.password;
    database = n.database;
    dim = dim;
    connect_timeout = n.connect_timeout;
    flat_scan_threshold = threshold;
    clock = clock;
  }

  abbrev pub dial_storage : Neo4jOptions → ℤ → ℤ → Option (ℕ → Time) → Run Storage
  dial_storage n dim threshold clock w =
      on_drivers (open_storage pl.bolt pl.real (dial_options n dim threshold clock) w.drivers) w

  abbrev pub open_with : Options pl.float.F → Option (Embedder pl.float.F) → Run (Service × Storage)
  open_with o none w = (err (message "memmy: Options.Embedder is required"), w)
  open_with o (some e) w =
      if int_ltb e.dim (pos 1)
      then (err (message "memmy: embedder reported invalid dim"), w)
      else (let (r, w1) = dial_storage o.neo4j e.dim o.flat_scan_threshold o.clock w in
          opened o r w1)

  -- `Open`.
  unfoldable pub open_service : Options pl.float.F → Run (Service × Storage)
  unfolding open_storage close required_schema_version current_schema_version new default_config
  open_service o w =
      if str_eq o.neo4j.uri ""
      then (err (message "memmy: Options.Neo4j.URI is required"), w)
      else if str_eq o.neo4j.user ""
      then (err (message "memmy: Options.Neo4j.User is required"), w)
      else if str_eq o.neo4j.password ""
      then (err (message "memmy: Options.Neo4j.Password is required"), w)
      else open_with o o.embedder w

  abbrev pub migrate_opened : Result Storage → Run (Unit {0})
  migrate_opened (err e) w = (err e, w)
  migrate_opened (ok st) w =
      let (r, w1) = on_store (migrate sd st.dim pl.commits files) w in closing st r w1

  -- `Migrate`.
  unfoldable pub migrate_schema : MigrationOptions → Run (Unit {0})
  unfolding open_storage close migrate
  migrate_schema o w =
      if str_eq o.neo4j.uri ""
      then (err (message "memmy: MigrationOptions.Neo4j.URI required"), w)
      else if str_eq o.neo4j.user ""
      then (err (message "memmy: MigrationOptions.Neo4j.User required"), w)
      else if str_eq o.neo4j.password ""
      then (err (message "memmy: MigrationOptions.Neo4j.Password required"), w)
      else if int_ltb o.dim (pos 1)
      then (err (message "memmy: MigrationOptions.Dim must be >= 1"), w)
      else (let (r, w1) = dial_storage o.neo4j o.dim (pos 0) none w in migrate_opened r w1)
