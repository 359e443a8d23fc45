-- ===== src/Storage/Session/Kept.antt =====
-- What an action that runs several transactions keeps.
use memmy.Prelude.{◌≡◌, ℕ, Bool, true, false, inl, inr, Bool-cases, if◌then◌else◌}
use memmy.Storage.Session.{
  Error, Result, ok, err, throw, pure, Store, M, finish, with_write_session, with_read_session,
  ◌>>=◌, continue,
}

module _ {ℓ} {Db : Type 0} (P : Db → Type ℓ) where
  -- The action leaves a state with the property, whether it fails or not.
  pub record Keeps {A : Type 0} (m : M Db A) : Type ℓ where
    pub kept : (w : Store Db) → P w.db → P (m w).1.db

  finish_kept :
      {A : Type 0} (w : Store Db) (r : Result A) (db : Db) → P w.db → P db → P (finish w r db).1.db
  finish_kept w (ok a) db h k = k
  finish_kept w (err e) db h k = h

  pub with_write_session_kept :
      {A : Type 0} (commits : ℕ → Bool) (work : Db → Result A × Db) (w : Store Db)
      → P w.db
      → P (work w.db).1
      → P (with_write_session commits work w).1.db
  unfolding with_write_session
  with_write_session_kept commits work w h k = elim (Bool-cases (commits w.transactions)) [
    | inl c ↦ rw c (finish_kept w (work w.db).0 (work w.db).1 h k)
    | inr c ↦ rw c h
  ]

  pub with_read_session_kept :
      {A : Type 0} (commits : ℕ → Bool) (work : Db → Result A) (w : Store Db)
      → P w.db
      → P (with_read_session commits work w).1.db
  unfolding with_read_session
  with_read_session_kept commits work w h = elim (Bool-cases (commits w.transactions)) [
    | inl c ↦ rw c h
    | inr c ↦ rw c h
  ]

  continue_kept :
      {A B : Type 0} (g : A → M Db B) (r : Result A) (w : Store Db)
      → ((a : A) → P (g a w).1.db)
      → P w.db
      → P (continue g r w).1.db
  continue_kept g (ok a) w k h = k a
  continue_kept g (err e) w k h = h

  -- The second action may use that the first has left the property.
  pub bind_kept :
      {A B : Type 0} (m : M Db A) (g : A → M Db B) (w : Store Db)
      → P (m w).1.db
      → ((a : A) → P (g a (m w).1).1.db)
      → P ((m >>= g) w).1.db
  bind_kept m g w h k = continue_kept g (m w).0 (m w).1 k h

  -- An early return of an error.
  pub guard_kept :
      {A : Type 0} (c : Bool) (e : Error) (m : M Db A) (w : Store Db)
      → P w.db
      → P (m w).1.db
      → P ((if c then throw e else m) w).1.db
  guard_kept true e m w h k = h
  guard_kept false e m w h k = k

  -- The rules for the parts of a `do` block.
  pub bind-Keeps :
      {A B : Type 0} {m : M Db A} {g : A → M Db B}
      → Keeps m
      → ((a : A) → Keeps (g a))
      → Keeps (m >>= g)
  bind-Keeps {m = m} {g = g} km kg = record {
    kept = λ w h. bind_kept m g w (km.kept w h) (λ a. (kg a).kept (m w).1 (km.kept w h));
  }

  pub cond-Keeps :
      {A : Type 0} (c : Bool) {m n : M Db A} → Keeps m → Keeps n → Keeps (if c then m else n)
  cond-Keeps true km kn = km
  cond-Keeps false km kn = kn

  -- An action that leaves the database alone.
  pub same-Keeps : {A : Type 0} {m : M Db A} → ((w : Store Db) → (m w).1.db ≡ w.db) → Keeps m
  same-Keeps e = record { kept = λ w h. rw (e w) h }

  pub read-Keeps :
      {A : Type 0} (commits : ℕ → Bool) (work : Db → Result A)
      → Keeps (with_read_session commits work)
  read-Keeps commits work = record { kept = with_read_session_kept commits work }

  pub write-Keeps :
      {A : Type 0} (commits : ℕ → Bool) (work : Db → Result A × Db)
      → ((db : Db) → P db → P (work db).1)
      → Keeps (with_write_session commits work)
  write-Keeps commits work k = record {
    kept = λ w h. with_write_session_kept commits work w h (k w.db h);
  }

  pub pure-Keeps : {A : Type 0} (a : A) → Keeps (pure a)
  pure-Keeps a = record { kept = λ w h. h }

  pub throw-Keeps : {A : Type 0} (e : Error) → Keeps (throw {A = A} e)
  throw-Keeps e = record { kept = λ w h. h }
