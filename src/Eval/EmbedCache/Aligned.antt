-- ===== src/Eval/EmbedCache/Aligned.antt =====
-- Each text gets its own vector, from the cache or from the embedder.
use mathlib.Core.Path.{subst}
use mathlib.Core.List.{List-discrete}
use mathlib.Core.Option.{some-injective, some-ne-none}
use native.Mathlib.Decide.{ℕ_discrete}
use memmy.Prelude.{
  ℕ, suc, ◌*◌, ◌≡◌, ◌≢◌, String, Bool, true, Option, none, some, List, [], ◌∷◌, map, length, ◌==◌,
  ◌⊎◌, Option-cases, refl, sym, ap, ◌∙◌, inl, inr, arith, All,
}
use memmy.Chunker.Text.{Text}
use memmy.Service.Request.{EmbedTask}
use memmy.Storage.Session.{Result, ok, Store, M, pure, ◌>>=◌}
use memmy.Storage.Session.Cases.{Ends, bind_cases, write_cases, read_cases}
use memmy.Eval.EmbedCache.{
  Float32, IsFloat32, Table, Embedder, encode_vector, decode_vector, found, get_vector, put_vector,
  look_up, misses, fill, complete, embed_batch,
}
use memmy.Eval.EmbedCache.Bytes.{decode_vector-encode_vector, length-encode_vector}

-- What a table keeps of the vectors that were stored.
pub record IsTable (tb : Table) : Type 0 where
  pub select_stored :
      (m : String) (dim : ℕ) (h raw : Text) (db : tb.Db)
      → tb.select m dim h (tb.upsert m dim h raw db) ≡ some raw
  pub select_other :
      (m : String) (dim : ℕ) (h k raw : Text) (db : tb.Db)
      → h ≢ k
      → tb.select m dim k (tb.upsert m dim h raw db) ≡ tb.select m dim k db

pub same_text : (h k : Text) → Dec (h ≡ k)
same_text = List-discrete ℕ_discrete

length-map : {A B : Type 0} (g : A → B) (xs : List A) → length (map g xs) ≡ length xs
length-map g [] = refl
length-map g (x ∷ xs) = ap suc (length-map g xs)

==-same : (n : ℕ) → (n == n) ≡ true
==-same n = grind arith

module _ (f : Float32) (word : IsFloat32 f) (tb : Table) (law : IsTable tb)
    (hash_text : Text → Text) (commits : ℕ → Bool) (model : String) (embedder : Embedder f.F)
    (v : Text → List f.F) (sized : (t : Text) → length (v t) ≡ embedder.dim)
    (injective : (t u : Text) → hash_text t ≡ hash_text u → v t ≡ v u) where
  open f use {F}
  open tb use {Db, select, upsert}

  -- The vector of the text is stored.
  abbrev pub Stored : Db → Text → Type 0
  Stored db t = select model embedder.dim (hash_text t) db ≡ some (encode_vector f (v t))

  -- Whatever is stored for a text is its vector.
  abbrev pub Consistent : Db → Type 0
  Consistent db =
      (t : Text) (raw : Text)
      → select model embedder.dim (hash_text t) db ≡ some raw
      → raw ≡ encode_vector f (v t)

  put : Text → Db → Db
  put t db = upsert model embedder.dim (hash_text t) (encode_vector f (v t)) db

  put-Stored : (t u : Text) (db : Db) → Stored db u → Stored (put t db) u
  unfolding put
  put-Stored t u db h = elim (same_text (hash_text t) (hash_text u)) [
    | yes e ↦
        rw (sym e, law.select_stored model embedder.dim (hash_text t) (encode_vector f (v t)) db)
          (ap (λ x. some (encode_vector f x)) (injective t u e))
    | no n ↦ law.select_other model embedder.dim (hash_text t) (hash_text u) _ db n ∙ h
  ]

  put-Consistent : (t : Text) (db : Db) → Consistent db → Consistent (put t db)
  unfolding put
  put-Consistent t db c u raw h = elim (same_text (hash_text t) (hash_text u)) [
    | yes e ↦ some-injective raw _ (
        sym h
        ∙ rw (sym e, law.select_stored model embedder.dim (hash_text t) (encode_vector f (v t)) db)
            (ap (λ x. some (encode_vector f x)) (injective t u e)))
    | no n ↦
        c u raw (sym (law.select_other model embedder.dim (hash_text t) (hash_text u) _ db n) ∙ h)
  ]

  -- What a lookup gives for a text.
  abbrev Looked : Db → Text × Option (List F) → Type 0
  Looked db (t, none) = Unit
  Looked db (t, some x) = (x ≡ v t) × Stored db t

  abbrev AllLooked : Db → List Text → List (Text × Option (List F)) → Type 0
  AllLooked db ts slots = (map (λ s. s.0) slots ≡ ts) × All (Looked db) slots

  slot-Looked :
      {db : Db} {t : Text} (x : Option (List F))
      → (x ≡ none) ⊎ ((x ≡ some (v t)) × Stored db t)
      → Looked db (t, x)
  slot-Looked none q = tt
  slot-Looked (some y) (inl e) = absurd (some-ne-none y e)
  slot-Looked (some y) (inr (e, kept)) = (some-injective y _ e, kept)

  found-encode_vector :
      (t : Text)
      → found f tb hash_text commits embedder.dim (some (encode_vector f (v t))) ≡ ok (some (v t))
  found-encode_vector t =
      rw (length-encode_vector f word (v t), sized t, ==-same (embedder.dim * 4))
        (ap (λ n. ok (some (decode_vector f n (encode_vector f (v t))))) (sym (sized t))
          ∙ ap (λ x. ok (some x)) (decode_vector-encode_vector f word (v t)))

  get_vector-Ends :
      (t : Text) (w : Store Db)
      → Consistent w.db
      → Ends commits
          (λ o. (o ≡ none) ⊎ ((o ≡ some (v t)) × Stored w.db t))
          (get_vector f tb hash_text commits model embedder.dim t w).0
        × ((get_vector f tb hash_text commits model embedder.dim t w).1.db ≡ w.db)
  unfolding get_vector
  get_vector-Ends t w c =
      read_cases
        (λ r db.
          Ends commits (λ o. (o ≡ none) ⊎ ((o ≡ some (v t)) × Stored w.db t)) r × (db ≡ w.db))
        commits w
        (λ db.
          found f tb hash_text commits embedder.dim (select model embedder.dim (hash_text t) db))
        (λ h. (
          elim (Option-cases (select model embedder.dim (hash_text t) w.db)) [
            | inl e ↦ rw e (inl refl)
            | inr (raw, e) ↦ rw (e, c t raw e, found-encode_vector t) (inr (refl, refl))
          ],
          refl,
        ))
        (λ h. (λ all. cc (all w.transactions, h), refl))

  look_up-Looked :
      (ts : List Text) (w : Store Db)
      → Consistent w.db
      → Ends commits (AllLooked w.db ts) (look_up f tb hash_text commits model embedder.dim ts w).0
        × ((look_up f tb hash_text commits model embedder.dim ts w).1.db ≡ w.db)
  unfolding look_up
  look_up-Looked [] w c = ((refl, tt), refl)
  look_up-Looked (t ∷ ts) w c =
      bind_cases
        (λ r db.
          Ends commits (λ o. (o ≡ none) ⊎ ((o ≡ some (v t)) × Stored w.db t)) r × (db ≡ w.db))
        (λ r db. Ends commits (AllLooked w.db (t ∷ ts)) r × (db ≡ w.db))
        (get_vector f tb hash_text commits model embedder.dim t)
        (λ x. look_up f tb hash_text commits model embedder.dim ts >>= λ rest. pure ((t, x) ∷ rest))
        w (get_vector-Ends t w c)
        (λ x w1 q.
          bind_cases (λ r db. Ends commits (AllLooked w1.db ts) r × (db ≡ w1.db))
            (λ r db. Ends commits (AllLooked w.db (t ∷ ts)) r × (db ≡ w.db))
            (look_up f tb hash_text commits model embedder.dim ts) (λ rest. pure ((t, x) ∷ rest)) w1
            (look_up-Looked ts w1 (rw q.1 c))
            (λ rest w2 q2. (
              (λ i. t ∷ q2.0.0 i, (slot-Looked x q.0, subst (λ b. All (Looked b) rest) q.1 q2.0.1)),
              q2.1 ∙ q.1,
            ))
            (λ e db q2. (q2.0, q2.1 ∙ q.1)))
        (λ e db q. q)

  -- What stays of the table, and what is in it.
  pub record Grown (old db : Db) : Type 0 where
    pub consistent : Consistent db
    pub kept : (t : Text) → Stored old t → Stored db t

  Grown-trans : {a b c : Db} → Grown a b → Grown b c → Grown a c
  Grown-trans g h = record { consistent = h.consistent; kept = λ t s. h.kept t (g.kept t s) }

  put_vector-Grown :
      (t : Text) (w : Store Db)
      → Consistent w.db
      → Ends commits
          (λ u. Stored (put_vector f tb hash_text commits model embedder.dim t (v t) w).1.db t)
          (put_vector f tb hash_text commits model embedder.dim t (v t) w).0
        × Grown w.db (put_vector f tb hash_text commits model embedder.dim t (v t) w).1.db
  unfolding put_vector put
  put_vector-Grown t w c =
      rw (sized t, ==-same embedder.dim)
        (write_cases (λ r db. Ends commits (λ u. Stored db t) r × Grown w.db db) commits w tt
          (put t)
          (λ h. (
            law.select_stored model embedder.dim (hash_text t) _ w.db,
            record { consistent = put-Consistent t w.db c; kept = λ u s. put-Stored t u w.db s },
          ))
          (λ h. (λ all. cc (all w.transactions, h), record { consistent = c; kept = λ u s. s })))

  Looked-kept :
      {old db : Db}
      → ((t : Text) → Stored old t → Stored db t)
      → (slots : List (Text × Option (List F))) → All (Looked old) slots
      → All (Looked db) slots
  Looked-kept k [] h = tt
  Looked-kept k ((t, none) ∷ slots) (l, h) = (tt, Looked-kept k slots h)
  Looked-kept k ((t, some x) ∷ slots) ((e, s), h) = ((e, k t s), Looked-kept k slots h)

  -- The texts' vectors are returned, and all of them are stored.
  unfoldable pub Filled : List Text → Db → Result (List (List F)) → Db → Type 0
  Filled ts old r db = Ends commits (λ out. (out ≡ map v ts) × All (Stored db) ts) r × Grown old db

  abbrev filling : List (Text × Option (List F)) → M Db (List (List F))
  filling slots =
      fill f tb hash_text commits model embedder.dim slots
        (map v (misses f tb hash_text commits slots))

  fill-Filled :
      (slots : List (Text × Option (List F))) (w : Store Db)
      → Consistent w.db
      → All (Looked w.db) slots
      → Filled (map (λ s. s.0) slots) w.db (filling slots w).0 (filling slots w).1.db
  unfolding Filled fill misses
  fill-Filled [] w c h = ((refl, tt), record { consistent = c; kept = λ t s. s })
  fill-Filled ((t, some x) ∷ slots) w c ((e, s), h) =
      bind_cases (Filled (map (λ s. s.0) slots) w.db) (Filled (t ∷ map (λ s. s.0) slots) w.db)
        (filling slots) (λ out. pure (x ∷ out)) w (fill-Filled slots w c h)
        (λ out w1 q. ((λ i. e i ∷ q.0.0 i, (q.1.kept t s, q.0.1)), q.1)) (λ e' db q. q)
  fill-Filled ((t, none) ∷ slots) w c (l, h) =
      bind_cases (λ r db. Ends commits (λ u. Stored db t) r × Grown w.db db)
        (Filled (t ∷ map (λ s. s.0) slots) w.db)
        (put_vector f tb hash_text commits model embedder.dim t (v t))
        (λ u. filling slots >>= λ out. pure (v t ∷ out)) w (put_vector-Grown t w c)
        (λ u w1 q.
          bind_cases (Filled (map (λ s. s.0) slots) w1.db) (Filled (t ∷ map (λ s. s.0) slots) w.db)
            (filling slots) (λ out. pure (v t ∷ out)) w1
            (fill-Filled slots w1 q.1.consistent (Looked-kept q.1.kept slots h))
            (λ out w2 q2. ((λ i. v t ∷ q2.0.0 i, (q2.1.kept t q.0, q2.0.1)), Grown-trans q.1 q2.1))
            (λ e db q2. (q2.0, Grown-trans q.1 q2.1)))
        (λ e db q. q)

  module _ (task : EmbedTask)
      (embed_lem : (texts : List Text) → embedder.embed task texts ≡ ok (map v texts)) where
    complete_as_filling :
        (slots : List (Text × Option (List F))) (w : Store Db) (texts : List Text)
        → misses f tb hash_text commits slots ≡ texts
        → complete f tb hash_text commits embedder model task slots w ≡ filling slots w
    complete_as_filling slots w [] e = rw e refl
    complete_as_filling slots w (t ∷ texts) e =
        rw (e, embed_lem (t ∷ texts), length-map v texts, e, ==-same (suc (length texts))) refl

    complete-Filled :
        (texts : List Text) (slots : List (Text × Option (List F))) (w : Store Db)
        → Consistent w.db
        → AllLooked w.db texts slots
        → Filled texts w.db
            (complete f tb hash_text commits embedder model task slots w).0
            (complete f tb hash_text commits embedder model task slots w).1.db
    complete-Filled texts slots w c (e, h) =
        rw (sym e, complete_as_filling slots w _ refl) (fill-Filled slots w c h)

    -- Where the stored vectors are those of their texts, the hash tells texts with different vectors
    -- apart and the embedder maps a batch text by text, `EmbedBatch` returns the vector of each
    -- text in the order of the texts and leaves all of them stored, or a transaction has failed; and
    -- on every outcome the stored vectors stay, and are those of their texts.
    pub embed_batch_lem :
        (texts : List Text) (w : Store Db)
        → Consistent w.db
        → Filled texts w.db
            (embed_batch f tb hash_text commits embedder model task texts w).0
            (embed_batch f tb hash_text commits embedder model task texts w).1.db
    unfolding embed_batch Filled
    embed_batch_lem texts w c =
        bind_cases (λ r db. Ends commits (AllLooked w.db texts) r × (db ≡ w.db)) (Filled texts w.db)
          (look_up f tb hash_text commits model embedder.dim texts)
          (complete f tb hash_text commits embedder model task) w (look_up-Looked texts w c)
          (λ slots w1 q. rw (sym q.1) (complete-Filled texts slots w1 (rw q.1 c) (rw q.1 q.0)))
          (λ e db q. (q.0, record { consistent = rw q.1 c; kept = λ t s. rw q.1 s }))
