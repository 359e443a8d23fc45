-- ===== src/Facade/Balanced.antt =====
-- Which drivers are open after `Open`, and what an opened service has been checked against.
use mathlib.Core.Path.{subst}
use memmy.Prelude.{
  if_both, ℕ, ◌≡◌, refl, sym, ap, ◌∙◌, arith, true, false, not, str_eq, Option, none, some, List,
  ◌∷◌, ◌⊎◌, inl, inr,
}
use memmy.Prelude.Int.{ℤ, pos, negsuc, pos_part, int_ltb, int_eqb, int_eqb-eq}
use memmy.Storage.Session.{Error, Result, ok, err, Store}
use memmy.Storage.Session.Cases.{read_cases}
use memmy.Storage.Migrate.Scripts.{Entry, required_schema_version}
use memmy.Storage.Migrate.Apply.{SchemaServer, current_schema_version}
use memmy.Storage.Open.{Storage, Drivers, open_storage, close}
use memmy.Storage.Open.Held.{Held, open_storage-Held, close-open_ones}
use memmy.Service.Request.{Service}
use memmy.Service.New.{Platform, Embedder, new}
use memmy.Facade.{
  Options, World, Schema, sd, open_service, built, build, compare_versions, check_version, opened,
  open_with, config_of, closing, dial_options,
}

module _ (pl : Platform) (statements : Schema pl.database.Db) (files : List Entry) where
  abbrev server : SchemaServer
  server = sd pl statements files

  module _ (o : Options pl.float.F) (w : World pl.database.Db) where
    -- The check was switched off, or the server has the version that the files ask for.
    abbrev pub Checked : ℤ → Type 0
    Checked dim =
        (o.skip_migration_check ≡ true)
        ⊎ ((v : ℤ) × (required_schema_version files ≡ ok v)
            × ((current_schema_version server dim pl.commits w.store).0 ≡ ok v))

    -- The service was built, with one more driver open.
    pub record Opened (svc : Service) (st : Storage) (u : World pl.database.Db) : Type 0 where
      pub handle : ℕ
      pub holds : st.driver ≡ some handle
      pub one_more : u.drivers.open_ones ≡ handle ∷ w.drivers.open_ones
      pub closes : (close pl.bolt pl.real st u.drivers).2.open_ones ≡ w.drivers.open_ones
      pub embedder : Embedder pl.float.F
      pub given : o.embedder ≡ some embedder
      pub same_dim : pos svc.dim ≡ embedder.dim
      pub checked : Checked embedder.dim

    unfoldable pub Outcome : Result (Service × Storage) × World pl.database.Db → Type 0
    Outcome (err e, u) = (u.drivers.open_ones ≡ w.drivers.open_ones) × (u.store.db ≡ w.store.db)
    Outcome (ok (svc, st), u) = Opened svc st u × (u.store.db ≡ w.store.db)

    -- What `Open` has when the storage is open.
    record Ready (st : Storage) (e : Embedder pl.float.F) (u : World pl.database.Db) : Type 0 where
      handle : ℕ
      holds : st.driver ≡ some handle
      one_more : u.drivers.open_ones ≡ handle ∷ w.drivers.open_ones
      given : o.embedder ≡ some e
      same_dim : st.dim ≡ e.dim
      dim_positive : int_ltb e.dim (pos 1) ≡ false
      same_db : u.store.db ≡ w.store.db

    Ready-closes :
        (st : Storage) (e : Embedder pl.float.F) (u : World pl.database.Db)
        → Ready st e u
        → (close pl.bolt pl.real st u.drivers).2.open_ones ≡ w.drivers.open_ones
    Ready-closes st e u r =
        close-open_ones pl.bolt pl.real st u.drivers r.handle w.drivers.open_ones r.holds r.one_more

    pos_of_dim : (n : ℤ) → int_ltb n (pos 1) ≡ false → pos (pos_part n) ≡ n
    pos_of_dim (pos n) h = refl
    pos_of_dim (negsuc n) h = absurd (cc h)

    build-Outcome :
        (st : Storage) (e : Embedder pl.float.F) (u : World pl.database.Db)
        → Ready st e u
        → Checked e.dim
        → Outcome (build pl statements files o st u)
    unfolding Outcome new
    build-Outcome st e u r c =
        subst
          (λ x. Outcome (
            built pl statements files st
              (new pl (some st) (some st) x o.clock (config_of pl statements files o.service_config)
                o.tenant_schema)
              u))
          (sym r.given)
          (
            record {
              handle = r.handle;
              holds = r.holds;
              one_more = r.one_more;
              closes = Ready-closes st e u r;
              embedder = e;
              given = r.given;
              same_dim = rw r.same_dim (pos_of_dim e.dim r.dim_positive);
              checked = c;
            },
            r.same_db,
          )

    refused :
        (st : Storage) (e : Embedder pl.float.F) (u : World pl.database.Db) (x : Error)
        → Ready st e u
        → Outcome (closing pl statements files st (err x) u)
    unfolding Outcome
    refused st e u x r = (Ready-closes st e u r, r.same_db)

    compare_versions-Outcome :
        (st : Storage) (e : Embedder pl.float.F) (u : World pl.database.Db) (want : ℤ)
        (got : Result ℤ)
        → Ready st e u
        → required_schema_version files ≡ ok want
        → (current_schema_version server e.dim pl.commits w.store).0 ≡ got
        → Outcome (compare_versions pl statements files o st want got u)
    compare_versions-Outcome st e u want (err x) r f g = refused st e u x r
    compare_versions-Outcome st e u want (ok got) r f g =
        if_both Outcome (not (int_eqb got want)) (λ b. refused st e u _ r)
          (λ b.
            build-Outcome st e u r
              (inr (want, f, g ∙ ap ok (int_eqb-eq got want (ground (arith, b))))))

    current_version-keeps :
        (dim : ℤ) (s : Store pl.database.Db)
        → (current_schema_version server dim pl.commits s).1.db ≡ s.db
    unfolding current_schema_version
    current_version-keeps dim s =
        read_cases (λ r db. db ≡ s.db) pl.commits s _ (λ c. refl) (λ c. refl)

    check_version-Outcome :
        (st : Storage) (e : Embedder pl.float.F) (u : World pl.database.Db) (want : Result ℤ)
        → Ready st e u
        → u.store ≡ w.store
        → required_schema_version files ≡ want
        → Outcome (check_version pl statements files o st want u)
    check_version-Outcome st e u (err x) r same f = refused st e u x r
    check_version-Outcome st e u (ok want) r same f =
        compare_versions-Outcome st e
          (record u { store = (current_schema_version server st.dim pl.commits u.store).1 }) want
          (current_schema_version server st.dim pl.commits u.store).0
          (record {
            handle = r.handle;
            holds = r.holds;
            one_more = r.one_more;
            given = r.given;
            same_dim = r.same_dim;
            dim_positive = r.dim_positive;
            same_db = current_version-keeps st.dim u.store ∙ r.same_db;
          })
          f (rw (r.same_dim, same) refl)

    opened-Outcome :
        (st : Storage) (e : Embedder pl.float.F) (u : World pl.database.Db)
        → Ready st e u
        → u.store ≡ w.store
        → Outcome (opened pl statements files o (ok st) u)
    opened-Outcome st e u r same =
        if_both Outcome (not o.skip_migration_check)
          (λ b. check_version-Outcome st e u (required_schema_version files) r same refl)
          (λ b. build-Outcome st e u r (inl (ground (arith, b))))

    open_with-Outcome :
        (e : Option (Embedder pl.float.F))
        → o.embedder ≡ e
        → Outcome (open_with pl statements files o e w)
    unfolding Outcome
    open_with-Outcome none g = (refl, refl)
    open_with-Outcome (some e) g =
        if_both Outcome (int_ltb e.dim (pos 1)) (λ b. (refl, refl))
          (λ b.
            by_storage b
              (open_storage pl.bolt pl.real
                (dial_options pl statements files o.neo4j e.dim o.flat_scan_threshold o.clock)
                w.drivers)
              (open_storage-Held pl.bolt pl.real
                (dial_options pl statements files o.neo4j e.dim o.flat_scan_threshold o.clock)
                w.drivers))
      where
        by_storage :
            int_ltb e.dim (pos 1) ≡ false
            → (r : Result Storage × Drivers) → Held pl.bolt pl.real e.dim w.drivers.open_ones r
            → Outcome (opened pl statements files o r.0 (record w { drivers = r.1 }))
        by_storage b (err x, p) h = (h, refl)
        by_storage b (ok st, p) (k, h, g', d) =
            opened-Outcome st e (record w { drivers = p })
              (record {
                handle = k;
                holds = h;
                one_more = g';
                given = g;
                same_dim = d;
                dim_positive = b;
                same_db = refl;
              })
              refl

    -- Where `Open` returns an error, the drivers that are open are those from before. Where it
    -- returns a service, there is one more, which `Close` of the storage closes; the service has the
    -- embedder's dimension, and the version of the database is the one that the files ask for, unless
    -- the check was switched off. The database stays on every outcome.
    pub open_service_lem : Outcome (open_service pl statements files o w)
    unfolding open_service Outcome
    open_service_lem =
        if_both Outcome (str_eq o.neo4j.uri "") (λ b. (refl, refl))
          (λ b.
            if_both Outcome (str_eq o.neo4j.user "") (λ b. (refl, refl))
              (λ b.
                if_both Outcome (str_eq o.neo4j.password "") (λ b. (refl, refl))
                  (λ b. open_with-Outcome o.embedder refl)))
