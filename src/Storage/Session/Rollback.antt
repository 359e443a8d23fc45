-- ===== src/Storage/Session/Rollback.antt =====
-- A transaction that reports an error has changed nothing.
use memmy.Prelude.{ℕ, ◌≡◌, Bool, true, arith, inl, inr, Bool-cases, if◌then◌else◌, ◌+◌}
use memmy.Storage.Session.{Error, backend, Result, ok, err, Store, finish, with_write_session}

module _ {Db A : Type 0} where
  finish-err :
      (w w' : Store Db) (e : Error) (r : Result A) (db : Db)
      → finish w r db ≡ (err e, w')
      → w'.db ≡ w.db
  finish-err w w' e (ok a) db h = absurd (ground arith)
  finish-err w w' e (err x) db h = ground arith

  pub with_write_session-err :
      (commits : ℕ → Bool) (work : Db → Result A × Db) (w w' : Store Db) (e : Error)
      → with_write_session commits work w ≡ (err e, w')
      → w'.db ≡ w.db
  unfolding with_write_session
  with_write_session-err commits work w w' e h = elim (Bool-cases (commits w.transactions)) [
    | inl c ↦ finish-err w w' e (work w.db).0 (work w.db).1 (chosen true c h)
    | inr c ↦ ground arith
  ]
    where
      chosen :
          (b : Bool)
          → commits w.transactions ≡ b
          → (if commits w.transactions
              then finish w (work w.db).0 (work w.db).1
              else (err backend, record w { transactions = w.transactions + 1 }))
            ≡ (err e, w')
          → (if b
              then finish w (work w.db).0 (work w.db).1
              else (err backend, record w { transactions = w.transactions + 1 }))
            ≡ (err e, w')
      chosen b q k = rw q at k
