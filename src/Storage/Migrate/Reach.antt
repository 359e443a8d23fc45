-- ===== src/Storage/Migrate/Reach.antt =====
-- `Migrate` reaches the version that the files ask for.
use memmy.Prelude.{ℕ, ◌≡◌, ◌≤◌, refl, sym, ap, ◌∙◌, arith, Bool, true, List, [], length}
use memmy.Prelude.Int.{ℤ, pos}
use memmy.Storage.Session.{with_read_session, Result, ok, err, Store, ◌>>◌}
use memmy.Storage.Session.Cases.{Ends, bind_cases}
use memmy.Storage.Migrate.Scripts.{Migration, Entry, load_migrations, required_schema_version}
use memmy.Storage.Migrate.Apply.{
  SchemaServer, IsSchema, max_of, or_nought, current_schema_version, apply_from, migrate,
}
use memmy.Storage.Migrate.Numbered.{last_version-length, max_of-count_to}
use memmy.Storage.Migrate.Progress.{HasRun, migs-IsNumbered, migrate-Progress, apply_from-none}

module _ (d : SchemaServer) (law : IsSchema d) (dim : ℤ) where
  open d use {Db, versions}

  module _ (entries : List Entry) where
    -- The databases that runs of `Migrate` lead to, whichever of their transactions commit.
    pub data Runs (start : Db) : Db → Type 0 where
      fresh : Runs start start
      again :
          {db next : Db}
          → Runs start db
          → (commits : ℕ → Bool) (w : Store Db) → w.db ≡ db
          → next ≡ (migrate d dim commits entries w).1.db
          → Runs start next

    module _ (migs : List Migration) (load : load_migrations entries ≡ ok migs) where
      -- Some of the migrations have run, in their order.
      abbrev Begun : Db → Type 0
      Begun db = (n : ℕ) × HasRun d law dim n db × (n ≤ length migs)

      Runs-Begun : (start db : Db) → HasRun d law dim 0 start → Runs start db → Begun db
      Runs-Begun start db h fresh = (0, h, omega arith)
      Runs-Begun start db h (again before commits w here next) =
          let (n, ran, short) = Runs-Begun start _ h before in
          let p = migrate-Progress d law dim commits entries migs load n w (rw here ran) in
          (p.reached, rw next p.has_run, p.bound (length migs) short (omega arith))

      module _ (commits : ℕ → Bool) (all : (k : ℕ) → commits k ≡ true) where
        current_version :
            (n : ℕ) (w : Store Db)
            → HasRun d law dim n w.db
            → (current_schema_version d dim commits w).0 ≡ ok (pos n)
        unfolding current_schema_version with_read_session
        current_version n w h = rw (all w.transactions) (
            ap ok (ap or_nought (law.match_max_version_lem w.db ∙ ap max_of h) ∙ max_of-count_to n))

        ended :
            {A : Type 0} (P : A → Type 0) (r : Result A)
            → Ends commits P r
            → (a : A) × (r ≡ ok a) × P a
        ended P (ok a) h = (a, refl, h)
        ended P (err e) h = absurd (h all)

        current_pure :
            (w : Store Db)
            → HasRun d law dim (length migs) w.db
            → Ends commits (λ v. v ≡ pos (length migs)) (current_schema_version d dim commits w).0
              × ((current_schema_version d dim commits w).1.db ≡ w.db)
        unfolding current_schema_version with_read_session
        current_pure w h =
            (rw (current_version (length migs) w h) refl, rw (all w.transactions) refl)

        migrate_again :
            (w : Store Db)
            → HasRun d law dim (length migs) w.db
            → (migrate d dim commits entries w).1.db ≡ w.db
        unfolding migrate
        migrate_again w h = rw load (
            bind_cases (λ r db. Ends commits (λ v. v ≡ pos (length migs)) r × (db ≡ w.db))
              (λ r db. db ≡ w.db) (current_schema_version d dim commits)
              (λ current. apply_from d dim commits current migs) w (current_pure w h)
              (λ v w1 q. rw q.0 (
                ap (λ r. r.1.db)
                  (apply_from-none d law dim commits (length migs) 0 migs w1
                    (migs-IsNumbered d law dim commits entries migs load) (omega arith))
                ∙ q.1))
              (λ e db q. q.1))

        after_run :
            (u : Unit {0}) (w w1 : Store Db)
            → migrate d dim commits entries w ≡ (ok u, w1)
            → HasRun d law dim (length migs) w1.db
            → ((migrate d dim commits entries >> current_schema_version d dim commits) w).0
              ≡ required_schema_version entries
        unfolding required_schema_version
        after_run u w w1 e h =
            rw (e, load)
              (current_version (length migs) w1 h
                ∙ ap ok (
                    sym (
                      last_version-length migs
                        (migs-IsNumbered d law dim commits entries migs load))))

        -- With files that load, a database with no :Migration node that any number of runs of
        -- `Migrate` have worked on, however they were cut short, is at the required version after one
        -- run whose transactions all commit; and the next such run changes nothing.
        pub migrate_lem :
            (start : Db) (w : Store Db)
            → versions start ≡ []
            → Runs start w.db
            → (((migrate d dim commits entries >> current_schema_version d dim commits) w).0
                ≡ required_schema_version entries)
              × ((migrate d dim commits entries (migrate d dim commits entries w).1).1.db
                  ≡ (migrate d dim commits entries w).1.db)
        migrate_lem start w h runs =
            let (n, ran, short) = Runs-Begun start w.db h runs in
            let p = migrate-Progress d law dim commits entries migs load n w ran in
            let (u, fine, top) =
              ended (λ u. length migs ≤ p.reached) (migrate d dim commits entries w).0 p.ends in
            let least : p.reached ≤ length migs = p.bound (length migs) short (omega arith) in
            let full : HasRun d law dim (length migs) (migrate d dim commits entries w).1.db =
              rw (reach (length migs) p.reached least top) p.has_run in
            (
              after_run u w (migrate d dim commits entries w).1
                  (λ i. (fine i, (migrate d dim commits entries w).1)) full,
              migrate_again (migrate d dim commits entries w).1 full,
            )
          where
            reach : (a b : ℕ) → b ≤ a → a ≤ b → a ≡ b
            reach a b h k = omega arith
