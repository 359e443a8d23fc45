-- ===== src/Storage/Migrate/Progress.antt =====
-- How far a run of `Migrate` gets.
use mathlib.Core.Path.{subst}
use memmy.Prelude.{
  ℕ, suc, ◌+◌, ◌≡◌, ◌≤◌, ◌<◌, refl, sym, ap, ◌∙◌, arith, Bool, true, false, List, [], ◌∷◌, length,
  Bool-cases, inl, inr, ltb,
}
use memmy.Prelude.Int.{ℤ, pos, int_ltb}
use memmy.Chunker.Text.{Text}
use memmy.Storage.Session.{Error, backend, Result, ok, err, Store, M, ◌>>◌}
use memmy.Storage.Session.Cases.{Healthy, Ends, bind_cases, write_cases, read_cases}
use memmy.Storage.Migrate.Scripts.{Migration, Entry, read_entries, load_migrations}
use memmy.Storage.Migrate.Apply.{
  SchemaServer, IsSchema, max_of, or_nought, current_schema_version, exec_auto_commit,
  record_migration, run_statements, apply_from, migrate,
}
use memmy.Storage.Migrate.Numbered.{count_to, IsNumbered, loaded-IsNumbered, max_of-count_to}

module _ (d : SchemaServer) (law : IsSchema d) (dim : ℤ) where
  open d use {Db, versions}

  -- The database has run the migrations 1 to n.
  abbrev pub HasRun : ℕ → Db → Type 0
  HasRun n db = versions db ≡ count_to n

  module _ (commits : ℕ → Bool) where
    pub current-reads :
        (n : ℕ) (w : Store Db)
        → HasRun n w.db
        → Ends commits (λ v. v ≡ pos n) (current_schema_version d dim commits w).0
          × HasRun n (current_schema_version d dim commits w).1.db
    unfolding current_schema_version
    current-reads n w h =
        read_cases (λ r db. Ends commits (λ v. v ≡ pos n) r × HasRun n db) commits w _
          (λ c.
            (ap or_nought (law.match_max_version_lem w.db ∙ ap max_of h) ∙ max_of-count_to n, h))
          (λ c. (λ all. cc (all w.transactions, c), h))

    run_statements-keeps :
        (n : ℕ) (stmts : List Text) (w : Store Db)
        → HasRun n w.db
        → Ends commits (λ u. Unit) (run_statements d dim commits stmts w).0
          × HasRun n (run_statements d dim commits stmts w).1.db
    unfolding run_statements exec_auto_commit
    run_statements-keeps n [] w h = (tt, h)
    run_statements-keeps n (stmt ∷ stmts) w h =
        bind_cases (λ r db. Ends commits (λ u. Unit) r × HasRun n db)
          (λ r db. Ends commits (λ u. Unit) r × HasRun n db) (exec_auto_commit d dim commits stmt)
          (λ u. run_statements d dim commits stmts) w
          (write_cases (λ r db. Ends commits (λ u. Unit) r × HasRun n db) commits w tt
            (d.run_schema stmt dim) (λ c. (tt, law.run_schema_lem stmt dim w.db ∙ h))
            (λ c. (λ all. cc (all w.transactions, c), h)))
          (λ u w1 q. run_statements-keeps n stmts w1 q.1) (λ e db q. q)

    -- Where a run of the migrations up to `top`, from the `k`-th on, leaves the database.
    pub record Progress (k top : ℕ) (r : Result (Unit {0})) (db : Db) : Type 0 where
      pub reached : ℕ
      pub has_run : HasRun reached db
      pub grows : k ≤ reached
      pub bound : (t : ℕ) → k ≤ t → top ≤ t → reached ≤ t
      pub ends : Ends commits (λ u. top ≤ reached) r

    stays :
        (k top : ℕ) (e : Error) (db : Db)
        → HasRun k db
        → (Healthy commits → ⊥)
        → Progress k top (err e) db
    stays k top e db h bad = record {
      reached = k;
      has_run = h;
      grows = omega arith;
      bound = λ t a b. a;
      ends = bad;
    }

    one_file : Migration → M Db (Unit {0})
    one_file m = run_statements d dim commits m.statements >> record_migration d dim commits m

    one_file-Progress :
        (k : ℕ) (m : Migration) (w : Store Db)
        → m.version ≡ pos (suc k)
        → HasRun k w.db
        → Progress k (suc k) (one_file m w).0 (one_file m w).1.db
    unfolding one_file record_migration
    one_file-Progress k m w e h =
        bind_cases (λ r db. Ends commits (λ u. Unit) r × HasRun k db) (Progress k (suc k))
          (run_statements d dim commits m.statements) (λ u. record_migration d dim commits m) w
          (run_statements-keeps k m.statements w h)
          (λ u w1 q.
            write_cases (Progress k (suc k)) commits w1 tt (d.create_migration m.version m.name)
              (λ c. record {
                reached = suc k;
                has_run = law.create_migration_lem m.version m.name w1.db ∙ rw (q.1, e) refl;
                grows = omega arith;
                bound = λ t a b. b;
                ends = omega arith;
              })
              (λ c. stays k (suc k) backend w1.db q.1 (λ all. cc (all w1.transactions, c))))
          (λ e' db q. stays k (suc k) e' db q.1 q.0)

    abbrev pub Ran : ℕ → ℕ → M Db (Unit {0}) → Store Db → Type 0
    Ran k top m w = Progress k top (m w).0 (m w).1.db

    after_file :
        (k top r : ℕ) (result : Result (Unit {0})) (db : Db)
        → k ≤ r
        → r ≤ suc k
        → suc k ≤ top
        → Progress r top result db
        → Progress k top result db
    after_file k top r result db g f t q = record {
      reached = q.reached;
      has_run = q.has_run;
      grows = omega (arith, q.grows, g);
      bound = λ t' x y. q.bound t' (omega (arith, f, t, y)) y;
      ends = q.ends;
    }

    failed_file :
        (k top : ℕ) (e : Error) (db : Db)
        → suc k ≤ top
        → Progress k (suc k) (err e) db
        → Progress k top (err e) db
    failed_file k top e db t p = record {
      reached = p.reached;
      has_run = p.has_run;
      grows = p.grows;
      bound = λ t' x y. p.bound t' x (omega (arith, t, y));
      ends = p.ends;
    }

    -- `n` is the version that `Migrate` read at first, `i` the number of files before these.
    apply_from-Progress :
        (n i k : ℕ) (ms : List Migration) (w : Store Db)
        → IsNumbered i ms
        → n ≤ k
        → i ≤ k
        → (n < k → k ≡ i)
        → HasRun k w.db
        → Progress k
            (i + length ms)
            (apply_from d dim commits (pos n) ms w).0
            (apply_from d dim commits (pos n) ms w).1.db
    unfolding apply_from one_file
    apply_from-Progress n i k [] w num a b c h = record {
      reached = k;
      has_run = h;
      grows = omega arith;
      bound = λ t p q. p;
      ends = omega (arith, b);
    }
    apply_from-Progress n i k (m ∷ ms) w (num, nums) a b c h =
        elim (Bool-cases (int_ltb (pos n) m.version)) [
          | inl newer ↦
              let here : k ≡ i = at_index (rw num at newer) in
              rw newer (
                bind_cases (Progress k (suc k)) (Progress k (i + suc (length ms))) (one_file m)
                  (λ u. apply_from d dim commits (pos n) ms) w
                  (one_file-Progress k m w (num ∙ ap (λ j. pos (suc j)) (sym here)) h)
                  (λ u w1 p.
                    let full : p.reached ≤ suc k = p.bound (suc k) (omega arith) (omega arith) in
                    let there : suc k ≤ p.reached = p.ends in
                    after_file k (i + suc (length ms)) p.reached _ _ p.grows full
                      (omega (arith, here))
                      (subst (λ t. Ran p.reached t (apply_from d dim commits (pos n) ms) w1)
                        (omega arith)
                        (apply_from-Progress n (suc i) p.reached ms w1 nums
                          (omega (arith, a, there)) (omega (arith, here, there))
                          (λ l. omega (arith, full, there, here)) p.has_run)))
                  (λ e db p. failed_file k (i + suc (length ms)) e db (omega (arith, here)) p))
          | inr older ↦
              let past : suc i ≤ n = skipped (rw num at older) in
              rw older (
                subst (λ t. Ran k t (apply_from d dim commits (pos n) ms) w) (omega arith)
                  (apply_from-Progress n (suc i) k ms w nums a (omega (arith, past, a))
                    (λ l. absurd (omega (arith, past, c l, l))) h))
        ]
      where
        at_index : int_ltb (pos n) (pos (suc i)) ≡ true → k ≡ i
        at_index l = elim (Bool-cases (ltb n k)) [
          | inl q ↦ c (ground (arith, q))
          | inr q ↦ ground (arith, q, l, a, b)
        ]

        skipped : int_ltb (pos n) (pos (suc i)) ≡ false → suc i ≤ n
        skipped l = ground (arith, l)

    -- With no newer file nothing is run.
    pub apply_from-none :
        (n i : ℕ) (ms : List Migration) (w : Store Db)
        → IsNumbered i ms
        → i + length ms ≤ n
        → apply_from d dim commits (pos n) ms w ≡ (ok tt, w)
    unfolding apply_from
    apply_from-none n i [] w num h = refl
    apply_from-none n i (m ∷ ms) w (num, nums) h =
        let old : int_ltb (pos n) m.version ≡ false = rw num (ground (arith, h)) in
        rw old (apply_from-none n (suc i) ms w nums (omega (arith, h)))

    module _ (entries : List Entry) (migs : List Migration)
        (load : load_migrations entries ≡ ok migs) where
      pub migs-IsNumbered : IsNumbered 0 migs
      unfolding load_migrations
      migs-IsNumbered = loaded-IsNumbered (read_entries entries) migs load

      pub migrate-Progress :
          (n : ℕ) (w : Store Db)
          → HasRun n w.db
          → Ran n (length migs) (migrate d dim commits entries) w
      unfolding migrate
      migrate-Progress n w h = rw load (
          bind_cases (λ r db. Ends commits (λ v. v ≡ pos n) r × HasRun n db)
            (Progress n (length migs)) (current_schema_version d dim commits)
            (λ current. apply_from d dim commits current migs) w (current-reads n w h)
            (λ v w1 q. rw q.0 (
              subst (λ t. Ran n t (apply_from d dim commits (pos n) migs) w1) (omega arith)
                (apply_from-Progress n 0 n migs w1 migs-IsNumbered (omega arith) (omega arith)
                  (λ l. absurd (omega (arith, l))) q.1)))
            (λ e db q. stays n (length migs) e db q.1 q.0))
