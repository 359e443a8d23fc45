-- ===== src/Storage/Session/Cases.antt =====
-- What holds of the result of an action and of the database that it leaves, together.
use memmy.Prelude.{refl, ◌≡◌, ℕ, Bool, true, false, inl, inr, Bool-cases}
use memmy.Storage.Session.{
  Error, backend, Result, ◌>>◌, ok, err, Store, M, with_write_session, with_read_session, continue,
  ◌>>=◌,
}

module _ {ℓ} {Db : Type 0} where
  -- The second action starts from what the first has left; an error of the first is the result.
  pub bind_cases :
      {A B : Type 0} (Q : Result A → Db → Type ℓ) (P : Result B → Db → Type ℓ) (m : M Db A)
      (g : A → M Db B) (w : Store Db)
      → Q (m w).0 (m w).1.db
      → ((a : A) (w1 : Store Db) → Q (ok a) w1.db → P (g a w1).0 (g a w1).1.db)
      → ((e : Error) (db : Db) → Q (err e) db → P (err e) db)
      → P ((m >>= g) w).0 ((m >>= g) w).1.db
  bind_cases {A = A} Q P m g w q go failed = split (m w).0 (m w).1 q
    where
      split :
          (r : Result A) (w1 : Store Db) → Q r w1.db → P (continue g r w1).0 (continue g r w1).1.db
      split (ok a) w1 q' = go a w1 q'
      split (err e) w1 q' = failed e w1.db q'

  module _ {A : Type 0} (P : Result A → Db → Type ℓ) (commits : ℕ → Bool) (w : Store Db) where
    pub write_cases :
        (a : A) (f : Db → Db)
        → (commits w.transactions ≡ true → P (ok a) (f w.db))
        → (commits w.transactions ≡ false → P (err backend) w.db)
        → P
            (with_write_session commits (λ db. (ok a, f db)) w).0
            (with_write_session commits (λ db. (ok a, f db)) w).1.db
    unfolding with_write_session
    write_cases a f h k = elim (Bool-cases (commits w.transactions)) [
      | inl c ↦ rw c (h c)
      | inr c ↦ rw c (k c)
    ]

    pub read_cases :
        (work : Db → Result A)
        → (commits w.transactions ≡ true → P (work w.db) w.db)
        → (commits w.transactions ≡ false → P (err backend) w.db)
        → P (with_read_session commits work w).0 (with_read_session commits work w).1.db
    unfolding with_read_session
    read_cases work h k = elim (Bool-cases (commits w.transactions)) [
      | inl c ↦ rw c (h c)
      | inr c ↦ rw c (k c)
    ]

-- The driver runs and commits every transaction.
abbrev pub Healthy : (ℕ → Bool) → Type 0
Healthy commits = (k : ℕ) → commits k ≡ true

-- The action returns, and its result has a property; or a transaction fails.
abbrev pub Ends : (ℕ → Bool) → {A : Type 0} → (A → Type 0) → Result A → Type 0
Ends commits P (ok a) = P a
Ends commits P (err e) = Healthy commits → ⊥

-- Two actions of which the last has returned.
pub both_ran :
    {Db A : Type 0} (m : M Db (Unit {0})) (k : M Db A) (w : Store Db) (v : A)
    → ((m >> k) w).0 ≡ ok v
    → ((m w).0 ≡ ok tt) × ((k (m w).1).0 ≡ ok v)
both_ran {Db = Db} m k w v = split (m w).0 (m w).1
  where
    split :
        (r : Result (Unit {0})) (w1 : Store Db)
        → (continue (λ u. k) r w1).0 ≡ ok v
        → (r ≡ ok tt) × ((k w1).0 ≡ ok v)
    split (ok u) w1 h = (refl, h)
    split (err x) w1 h = absurd (cc h)
