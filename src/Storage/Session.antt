-- ===== src/Storage/Session.antt =====
-- `withWriteSession` and `withReadSession` of internal/storage/neo4j/db.go.
pub mod Rollback
pub mod Kept
pub mod Cases
use memmy.Prelude.{ℕ, ◌+◌, Bool, true, false, if◌then◌else◌, String}
use memmy.Service.Tenant.{ErrTenantInvalid}

-- The errors that the code tells apart; `message` is any other text.
pub data Error : Type 0 where
  not_found backend : Error
  message : String → Error
  tenant_invalid : ErrTenantInvalid → Error

pub data Result {ℓ} (A : Type ℓ) : Type ℓ where
  ok : A → Result A
  err : Error → Result A

-- The world of a call: the database, and how many transactions were run and clock readings made.
pub record Store (Db : Type 0) : Type 0 where
  pub db : Db
  pub transactions : ℕ
  pub readings : ℕ

-- An operation keeps what it did before an error.
abbrev pub M : Type 0 → Type 0 → Type 0
M Db A = Store Db → Result A × Store Db

module _ {Db A : Type 0} where
  abbrev pub pure : A → M Db A
  pure a s = (ok a, s)

  abbrev pub throw : Error → M Db A
  throw e s = (err e, s)

  -- A transaction that returns an error is rolled back.
  abbrev pub finish : Store Db → Result A → Db → Result A × Store Db
  finish s (ok a) db = (ok a, record s { db = db; transactions = s.transactions + 1 })
  finish s (err e) db = (err e, record s { transactions = s.transactions + 1 })

  module _ (commits : ℕ → Bool) where
    -- `commits k` says whether the driver runs and commits the `k`-th transaction. It may run the
    -- closure several times: only the last run, on the state that it then finds, has an effect.
    unfoldable pub with_write_session : (Db → Result A × Db) → M Db A
    with_write_session work s =
        let (r, db) = work s.db in
        if commits s.transactions
        then finish s r db
        else (err backend, record s { transactions = s.transactions + 1 })

    unfoldable pub with_read_session : (Db → Result A) → M Db A
    with_read_session work s =
        if commits s.transactions
        then (work s.db, record s { transactions = s.transactions + 1 })
        else (err backend, record s { transactions = s.transactions + 1 })

-- `s.clock.Now()`: `clock k` is the time at the `k`-th reading. Where the source reads the clock
-- inside a transaction's closure, the model reads it just before the transaction.
abbrev pub now : {Db : Type 0} → (ℕ → ℕ) → M Db ℕ
now clock s = (ok (clock s.readings), record s { readings = s.readings + 1 })

-- The error of a call as a value, for a caller that tests it.
abbrev pub attempt : {Db A : Type 0} → M Db A → M Db (Result A)
attempt m w = let (r, w1) = m w in (ok r, w1)

module _ {Db A B : Type 0} where
  abbrev pub continue : (A → M Db B) → Result A → M Db B
  continue g (ok a) s = g a s
  continue g (err e) s = (err e, s)

  infixl 5 ◌>>=◌
  abbrev pub ◌>>=◌ : M Db A → (A → M Db B) → M Db B
  ◌>>=◌ m g s = let (r, s') = m s in continue g r s'

module _ {Db B : Type 0} where
  infixl 5 ◌>>◌
  abbrev pub ◌>>◌ : M Db (Unit {0}) → M Db B → M Db B
  m >> k = m >>= λ _. k
