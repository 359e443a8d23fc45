-- ===== src/Facade/Reaches.antt =====
-- `Open` after `Migrate`.
use mathlib.Core.Path.{subst}
use memmy.Prelude.{
  if_both, ℕ, ◌+◌, ◌≡◌, refl, sym, ap, ◌∙◌, true, false, not, str_eq, Option, none, some, List, [],
  ◌∷◌,
}
use memmy.Prelude.Int.{ℤ, pos, int_ltb, int_eqb, same_int}
use memmy.Types.Instant.{Time}
use memmy.Storage.Session.{Result, ok, err}
use memmy.Storage.Session.Cases.{both_ran}
use memmy.Storage.Migrate.Scripts.{
  Migration, Entry, load_migrations, last_version, required_schema_version,
}
use memmy.Storage.Migrate.Apply.{SchemaServer, IsSchema, current_schema_version, migrate}
use memmy.Storage.Migrate.Reach.{Runs, migrate_lem}
use memmy.Storage.Open.{Storage, Drivers, open_storage, close, clock_or_real, with_defaults}
use memmy.Storage.Open as Neo4j
use memmy.Service.Request.{Service}
use memmy.Service.New.{Platform, Embedder, new}
use memmy.Facade.{
  Options, MigrationOptions, World, Schema, sd, dial_options, open_service, migrate_schema, built,
  build, check_version, compare_versions, opened, open_with, config_of, migrate_opened,
}
use memmy.Storage.Open.Held.{Held, open_storage-Held, close-open_ones}

module _ (pl : Platform) (statements : Schema pl.database.Db) (files : List Entry) where
  abbrev server : SchemaServer
  server = sd pl statements files

  abbrev Same : World pl.database.Db → Result (Unit {0}) × World pl.database.Db → Type 0
  Same w (r, u) = u.drivers.open_ones ≡ w.drivers.open_ones

  -- `Migrate` closes the driver that it has opened, on every outcome.
  migrate_schema-open_ones :
      (o : MigrationOptions) (w : World pl.database.Db)
      → (migrate_schema pl statements files o w).1.drivers.open_ones ≡ w.drivers.open_ones
  unfolding migrate_schema
  migrate_schema-open_ones o w =
      if_both (Same w) (str_eq o.neo4j.uri "") (λ b. refl)
        (λ b.
          if_both (Same w) (str_eq o.neo4j.user "") (λ b. refl)
            (λ b.
              if_both (Same w) (str_eq o.neo4j.password "") (λ b. refl)
                (λ b.
                  if_both (Same w) (int_ltb o.dim (pos 1)) (λ b. refl)
                    (λ b.
                      by_storage
                        (open_storage pl.bolt pl.real
                          (dial_options pl statements files o.neo4j o.dim (pos 0) none) w.drivers)
                        (open_storage-Held pl.bolt pl.real
                          (dial_options pl statements files o.neo4j o.dim (pos 0) none)
                          w.drivers)))))
    where
      by_storage :
          (r : Result Storage × Drivers)
          → Held pl.bolt pl.real o.dim w.drivers.open_ones r
          → Same w (migrate_opened pl statements files r.0 (record w { drivers = r.1 }))
      by_storage (err x, p) h = h
      by_storage (ok st, p) (k, h, g, d) =
          close-open_ones pl.bolt pl.real st p k w.drivers.open_ones h g

  module _ (law : IsSchema server) (migs : List Migration) (load : load_migrations files ≡ ok migs)
      (healthy : (k : ℕ) → pl.commits k ≡ true) (o : Options pl.float.F)
      (some_uri : str_eq o.neo4j.uri "" ≡ false) (some_user : str_eq o.neo4j.user "" ≡ false)
      (some_password : str_eq o.neo4j.password "" ≡ false)
      (reached : pl.bolt.new_driver o.neo4j.uri o.neo4j.user o.neo4j.password ≡ ok tt)
      (connected : (h : ℕ) (timeout : ℤ) → pl.bolt.verify_connectivity h timeout ≡ ok tt)
      (e : Embedder pl.float.F) (given : o.embedder ≡ some e)
      (dim_positive : int_ltb e.dim (pos 1) ≡ false)
      (threshold : int_ltb o.flat_scan_threshold (pos 0) ≡ false) where
    abbrev options : MigrationOptions
    options = record { neo4j = o.neo4j; dim = e.dim }

    abbrev defaulted : ℤ → Option (ℕ → Time) → Neo4j.Options
    defaulted n clock =
        with_defaults pl.bolt pl.real (dial_options pl statements files o.neo4j e.dim n clock)

    abbrev opened_storage : ℕ → ℤ → Option (ℕ → Time) → Storage
    opened_storage h n clock = record {
      driver = some h;
      database = (defaulted n clock).database;
      dim = e.dim;
      clock = clock_or_real pl.bolt pl.real clock;
      flat_scan_threshold = (defaulted n clock).flat_scan_threshold;
    }

    opens :
        (n : ℤ) (clock : Option (ℕ → Time)) (p : Drivers)
        → int_ltb n (pos 0) ≡ false
        → open_storage pl.bolt pl.real (dial_options pl statements files o.neo4j e.dim n clock) p
          ≡ (
            ok (opened_storage p.made n clock),
            record { made = p.made + 1; open_ones = p.made ∷ p.open_ones },
          )
    unfolding open_storage
    opens n clock p h =
        rw
          (
            some_uri,
            some_user,
            some_password,
            dim_positive,
            h,
            reached,
            connected p.made (defaulted n clock).connect_timeout,
          )
          refl

    abbrev Succeeds : Result (Service × Storage) × World pl.database.Db → Type 1
    Succeeds r = (svc : Service) × (st : Storage) × (r.0 ≡ ok (svc, st))

    build-Succeeds :
        (st : Storage) (u : World pl.database.Db) → Succeeds (build pl statements files o st u)
    unfolding new
    build-Succeeds st u =
        subst
          (λ x. Succeeds (
            built pl statements files st
              (new pl (some st) (some st) x o.clock (config_of pl statements files o.service_config)
                o.tenant_schema)
              u))
          (sym given) (_, st, refl)

    -- The server has the version that the files ask for.
    abbrev AtVersion : World pl.database.Db → Type 0
    AtVersion u =
        (v : ℤ) × (required_schema_version files ≡ ok v)
        × ((current_schema_version server e.dim pl.commits u.store).0 ≡ ok v)

    abbrev after : Storage → World pl.database.Db → World pl.database.Db
    after st u = record u { store = (current_schema_version server st.dim pl.commits u.store).1 }

    opened-Succeeds :
        (st : Storage) (u : World pl.database.Db)
        → st.dim ≡ e.dim
        → AtVersion u
        → Succeeds (opened pl statements files o (ok st) u)
    opened-Succeeds st u d (v, f, g) =
        if_both Succeeds (not o.skip_migration_check)
          (λ b.
            subst (λ r. Succeeds (check_version pl statements files o st r u)) (sym f)
              (subst (λ r. Succeeds (compare_versions pl statements files o st v r (after st u)))
                (sym (ap (λ n. (current_schema_version server n pl.commits u.store).0) d ∙ g))
                (if_both Succeeds (not (int_eqb v v)) (λ c. absurd (same_int v c))
                  (λ c. build-Succeeds st (after st u)))))
          (λ b. build-Succeeds st u)

    dialed-Succeeds :
        (u : World pl.database.Db)
        → AtVersion u
        → Succeeds (open_with pl statements files o (some e) u)
    dialed-Succeeds u at =
        if_both Succeeds (int_ltb e.dim (pos 1)) (λ b. absurd (cc (b, dim_positive)))
          (λ b.
            subst (λ q. Succeeds (opened pl statements files o q.0 (record u { drivers = q.1 })))
              (sym (opens o.flat_scan_threshold o.clock u.drivers threshold))
              (opened-Succeeds (opened_storage u.drivers.made o.flat_scan_threshold o.clock) _ refl
                at))

    open_service-Succeeds :
        (u : World pl.database.Db) → AtVersion u → Succeeds (open_service pl statements files o u)
    unfolding open_service
    open_service-Succeeds u at =
        if_both Succeeds (str_eq o.neo4j.uri "") (λ b. absurd (cc (b, some_uri)))
          (λ b.
            if_both Succeeds (str_eq o.neo4j.user "") (λ b. absurd (cc (b, some_user)))
              (λ b.
                if_both Succeeds (str_eq o.neo4j.password "") (λ b. absurd (cc (b, some_password)))
                  (λ b.
                    subst (λ x. Succeeds (open_with pl statements files o x u)) (sym given)
                      (dialed-Succeeds u at))))

    -- `Migrate` has run the migrations on the server.
    abbrev Migrated : World pl.database.Db → Result (Unit {0}) × World pl.database.Db → Type 0
    Migrated w (r, u) =
        (r ≡ (migrate server e.dim pl.commits files w.store).0)
        × (u.store ≡ (migrate server e.dim pl.commits files w.store).1)

    migrate_schema-Migrated :
        (w : World pl.database.Db) → Migrated w (migrate_schema pl statements files options w)
    unfolding migrate_schema
    migrate_schema-Migrated w =
        if_both (Migrated w) (str_eq o.neo4j.uri "") (λ b. absurd (cc (b, some_uri)))
          (λ b.
            if_both (Migrated w) (str_eq o.neo4j.user "") (λ b. absurd (cc (b, some_user)))
              (λ b.
                if_both (Migrated w) (str_eq o.neo4j.password "")
                  (λ b. absurd (cc (b, some_password)))
                  (λ b.
                    if_both (Migrated w) (int_ltb e.dim (pos 1))
                      (λ b. absurd (cc (b, dim_positive)))
                      (λ b.
                        subst
                          (λ q.
                            Migrated w
                              (migrate_opened pl statements files q.0 (record w { drivers = q.1 })))
                          (sym (opens (pos 0) none w.drivers refl)) (refl, refl)))))

    -- With migration files that load, on a reachable server whose transactions commit and whose
    -- database has no :Migration node but those that earlier runs of the migrations have left,
    -- however they were cut short, `Migrate` returns no error and closes its driver, and `Open` with
    -- the same address, an embedder of at least one dimension and a threshold that is not negative
    -- then returns a service.
    pub migrate_then_open :
        (start : pl.database.Db) (w : World pl.database.Db)
        → statements.versions start ≡ []
        → Runs server law e.dim files start w.store.db
        → ((migrate_schema pl statements files options w).0 ≡ ok tt)
          × ((migrate_schema pl statements files options w).1.drivers.open_ones
              ≡ w.drivers.open_ones)
          × Succeeds
              (open_service pl statements files o (migrate_schema pl statements files options w).1)
    unfolding required_schema_version
    migrate_then_open start w h runs =
        let (result, store) = migrate_schema-Migrated w in
        let required : required_schema_version files ≡ ok (last_version migs) = rw load refl in
        let (fine, at) =
          both_ran (migrate server e.dim pl.commits files)
            (current_schema_version server e.dim pl.commits) w.store (last_version migs)
            ((migrate_lem server law e.dim files migs load pl.commits healthy start w.store h
                runs).0
              ∙ required) in
        (
          result ∙ fine,
          migrate_schema-open_ones options w,
          open_service-Succeeds (migrate_schema pl statements files options w).1 (
            last_version migs,
            required,
            ap (λ s. (current_schema_version server e.dim pl.commits s).0) store ∙ at,
          ),
        )
