-- ===== src/Service/Write/Counted.antt =====
-- The counters after `Write`.
use memmy.Prelude.{
  zero, suc, ◌+◌, ◌-◌, ◌≡◌, refl, String, str_eq, true, not, ◌&&◌, Option, none, some, List, [],
  ◌∷◌, All, Bool-cases, inl, inr, length, ◌==◌, map,
}
use memmy.Prelude.Int.{ℤ, pos, negsuc, pos_part}
use memmy.Chunker.Window.{Chunk}
use memmy.Types.{Node, MemoryEdge}
use memmy.Types.Instant.{Time, positive}
use memmy.Storage.Statement.{has_node, both_nodes}
use memmy.Storage.Database.{IsCypher}
use memmy.Storage.Session.{
  Result, ok, err, Store, M, pure, now, ◌>>=◌, ◌>>◌, with_write_session, with_read_session,
}
use memmy.Storage.Session.Cases.{bind_cases, write_cases}
use memmy.Storage.Session.Kept.{
  Keeps, bind-Keeps, cond-Keeps, same-Keeps, write-Keeps, pure-Keeps, throw-Keeps,
}
use memmy.Storage.Graph.Node.{put_node, put_node_tx}
use memmy.Storage.Graph.Edge.{put_edge, put_edge_tx}
use memmy.Storage.Graph.Message.{put_message, upsert_tenant}
use memmy.Storage.Scanners.{recent_node_ids}
use memmy.Storage.Vector.{insert}
use memmy.Storage.Counters.{IsCounted}
use memmy.Storage.Counters.Nodes.{put_node_tx-IsCounted}
use memmy.Storage.Counters.Edges.{put_edge_tx-IsCounted}
use memmy.Storage.Counters.Operations.{put_message-Keeps, upsert_tenant-Keeps}
use memmy.Prelude.Dict.{Dict}
use memmy.Service.Tenant.{ErrTenantInvalid, validate, is_nil}
use memmy.Service.Request.{
  Service, tenant_id, tenant_info, registered, resolve_tenant, new_id, is_blank, retrieval_document,
}
use memmy.Service.Explicit.{lift}
use memmy.Service.Write.{
  WriteRequest, WriteResult, structural_edge, put_structural_edge_pair, node_of, put_chunks,
  link_sequence, link_recent, link_first, message_of, put_linked, persist, with_vectors,
  with_chunks, write,
}
use memmy.Service.Write.Present.{
  Grows, Grows-trans, same_nodes, put_node_tx-Grows, put_node_tx-there, put_edge_tx-Grows,
  set_embedding-Grows, set_embedding-IsCounted,
}

module _ (s : Service) (cy : IsCypher s.float s.database) where
  open s use {float, database, commits, cfg}
  open float use {F}
  open database use {Db, view}

  abbrev Balanced : Db → Type 0
  Balanced db = IsCounted (view db)

  abbrev There : String → String → Db → Type 0
  There t i db = has_node float t i (view db) ≡ true

  -- A success leaves `Q`; a failure leaves the counters equal to the counts.
  abbrev Post : {A : Type 0} → (A → Db → Type 0) → Result A → Db → Type 0
  Post Q (ok a) db = Q a db
  Post Q (err e) db = Balanced db

  abbrev After : {A : Type 0} → (A → Db → Type 0) → M Db A → Store Db → Type 0
  After Q m w = Post Q (m w).0 (m w).1.db

  bind-After :
      {A B : Type 0} (Q : A → Db → Type 0) (R : B → Db → Type 0) (m : M Db A) (g : A → M Db B)
      (w : Store Db)
      → After Q m w
      → ((a : A) (w1 : Store Db) → Q a w1.db → After R (g a) w1)
      → After R (m >>= g) w
  bind-After Q R m g w h go = bind_cases (Post Q) (Post R) m g w h go (λ e db q. q)

  write-After :
      (Q : Unit {0} → Db → Type 0) (work : Db → Db) (w : Store Db)
      → Balanced w.db
      → Q tt (work w.db)
      → After Q (with_write_session commits (λ db. (ok tt, work db))) w
  write-After Q work w h q = write_cases (Post Q) commits w tt work (λ c. q) (λ c. h)

  -- The counters are equal to the counts, and no node is lost since `db0`.
  pub record Tidy (db0 db : Db) : Type 0 where
    pub balanced : Balanced db
    pub grown : Grows float database cy db0 db

  Tidy-refl : (db : Db) → Balanced db → Tidy db db
  Tidy-refl db h = record { balanced = h; grown = same_nodes float database cy db db refl }

  Tidy-trans : (a b c : Db) → Tidy a b → Tidy b c → Tidy a c
  Tidy-trans a b c h k = record {
    balanced = k.balanced;
    grown = Grows-trans float database cy a b c h.grown k.grown;
  }

  -- `PutNode` leaves the node there.
  put_node-After :
      (n : Node F) (w : Store Db)
      → Balanced w.db
      → After
          (λ u db. Tidy w.db db × There n.tenant_id n.id db)
          (put_node float database commits n)
          w
  unfolding put_node put_node_tx
  put_node-After n w h = elim (Bool-cases (str_eq n.id "")) [
    | inl a ↦ rw a h
    | inr a ↦ elim (Bool-cases (str_eq n.tenant_id "")) [
      | inl b ↦ rw (a, b) h
      | inr b ↦
          rw (a, b)
            (write-After (λ u db. Tidy w.db db × There n.tenant_id n.id db)
              (λ db. (put_node_tx float database n db).1) w h
              (
                record {
                  balanced = put_node_tx-IsCounted float database cy n w.db h;
                  grown = put_node_tx-Grows float database cy n w.db;
                },
                put_node_tx-there float database cy n w.db,
              ))
    ]
  ]

  insert-After :
      (t i : String) (vec : List F) (w : Store Db)
      → Balanced w.db
      → There t i w.db
      → After
          (λ u db. Tidy w.db db)
          (insert float database s.dim s.flat_scan_threshold commits t i vec)
          w
  unfolding insert
  insert-After t i vec w h there = elim (Bool-cases (not (length vec == s.dim))) [
    | inl a ↦ rw a h
    | inr a ↦ rw a (
        write-After (λ u db. Tidy w.db db) (λ db. database.set_embedding t i _ s.dim db) w h
          (record {
            balanced = set_embedding-IsCounted float database cy t i _ s.dim w.db there h;
            grown = set_embedding-Grows float database cy t i _ s.dim w.db there;
          }))
  ]

  All-There :
      (t : String) (ids : List String) (a b : Db)
      → Tidy a b
      → All (λ i. There t i a) ids
      → All (λ i. There t i b) ids
  All-There t [] a b g h = tt
  All-There t (i ∷ ids) a b g (h, hs) = (g.grown.still t i h, All-There t ids a b g hs)

  -- The nodes of all the chunks are there at the end.
  put_chunks-After :
      (t msg_id : String) (now' : Time) (cs : List Chunk) (vecs : List (List F)) (w : Store Db)
      → Balanced w.db
      → After
          (λ ids db. Tidy w.db db × All (λ i. There t i db) ids)
          (put_chunks s t msg_id now' cs vecs)
          w
  unfolding put_chunks node_of
  put_chunks-After t msg_id now' [] vecs w h = (Tidy-refl w.db h, tt)
  put_chunks-After t msg_id now' (c ∷ cs) [] w h = (Tidy-refl w.db h, tt)
  put_chunks-After t msg_id now' (c ∷ cs) (vec ∷ vecs) w h =
      let id = s.ulid (s.clock w.readings) w.readings in
      let R : List String → Db → Type 0 = λ ids db. Tidy w.db db × All (λ i. There t i db) ids in
      bind-After (λ u db. Tidy w.db db × There t id db) R
        (put_node float database commits (node_of s t msg_id now' id c vec)) _
        (record w { readings = w.readings + 1 })
        (put_node-After (node_of s t msg_id now' id c vec) (record w { readings = w.readings + 1 })
          h)
        (λ u w2 (g, there).
          bind-After (λ u' db. Tidy w2.db db) R
            (insert float database s.dim s.flat_scan_threshold commits t id vec) _ w2
            (insert-After t id vec w2 g.balanced there)
            (λ u' w3 g3.
              bind-After (λ ids db. Tidy w3.db db × All (λ i. There t i db) ids) R
                (put_chunks s t msg_id now' cs vecs) _ w3
                (put_chunks-After t msg_id now' cs vecs w3 g3.balanced)
                (λ ids w4 (g4, all).
                  let later : Tidy w2.db w4.db = Tidy-trans w2.db w3.db w4.db g3 g4 in
                  (Tidy-trans w.db w2.db w4.db g later, (later.grown.still t id there, all)))))

  module _ (base : Db) (t : String) where
    put_edge-Keeps :
        (e : MemoryEdge F)
        → There e.tenant_id e.from base
        → There e.tenant_id e.to base
        → Keeps (Tidy base) (put_edge float database commits e)
    unfolding put_edge both_nodes
    put_edge-Keeps e ha hb = cond-Keeps (Tidy base) (str_eq e.from "") (throw-Keeps (Tidy base) _) (
        cond-Keeps (Tidy base) (str_eq e.to "") (throw-Keeps (Tidy base) _) (
          cond-Keeps (Tidy base) (str_eq e.from e.to) (throw-Keeps (Tidy base) _) (
            cond-Keeps (Tidy base) (str_eq e.tenant_id "") (throw-Keeps (Tidy base) _) (
              write-Keeps (Tidy base) commits (put_edge_tx float database e) (λ db g. record {
                balanced = put_edge_tx-IsCounted float database cy e db g.balanced (
                    rw (g.grown.still e.tenant_id e.from ha, g.grown.still e.tenant_id e.to hb)
                      refl);
                grown =
                    Grows-trans float database cy base db (put_edge_tx float database e db).1
                      g.grown (put_edge_tx-Grows float database cy e db);
              })))))

    pair-Keeps :
        (a b : String) (weight : F) (now' : Time)
        → There t a base
        → There t b base
        → Keeps (Tidy base) (put_structural_edge_pair s t a b weight now')
    unfolding put_structural_edge_pair
    pair-Keeps a b weight now' ha hb =
        cond-Keeps (Tidy base) (str_eq a b) (pure-Keeps (Tidy base) _) (
          bind-Keeps (Tidy base) (put_edge-Keeps (structural_edge s t weight now' a b) ha hb)
            (λ u. put_edge-Keeps (structural_edge s t weight now' b a) hb ha))

    link_sequence-Keeps :
        (now' : Time) (ids : List String)
        → All (λ i. There t i base) ids
        → Keeps (Tidy base) (link_sequence s t now' ids)
    unfolding link_sequence
    link_sequence-Keeps now' [] h = pure-Keeps (Tidy base) _
    link_sequence-Keeps now' (a ∷ []) h = pure-Keeps (Tidy base) _
    link_sequence-Keeps now' (a ∷ b ∷ ids) (ha, (hb, hs)) =
        bind-Keeps (Tidy base) (pair-Keeps a b _ now' ha hb)
          (λ u. link_sequence-Keeps now' (b ∷ ids) (hb, hs))

    link_recent-Keeps :
        (now' : Time) (first : String) (recent : List String)
        → There t first base
        → All (λ i. There t i base) recent
        → Keeps (Tidy base) (link_recent s t now' first recent)
    unfolding link_recent
    link_recent-Keeps now' first [] h hs = pure-Keeps (Tidy base) _
    link_recent-Keeps now' first (r ∷ recent) h (hr, hs) =
        bind-Keeps (Tidy base) (pair-Keeps first r _ now' h hr)
          (λ u. link_recent-Keeps now' first recent h hs)

  recent_node_ids-After :
      (t : String) (since : Time) (m : String) (n : ℤ) (w : Store Db)
      → Balanced w.db
      → After
          (λ ids db. Tidy w.db db × All (λ i. There t i db) ids)
          (recent_node_ids float database commits t since m n)
          w
  unfolding recent_node_ids with_read_session
  recent_node_ids-After t since m (pos zero) w h = (Tidy-refl w.db h, tt)
  recent_node_ids-After t since m (negsuc n) w h = (Tidy-refl w.db h, tt)
  recent_node_ids-After t since m (pos (suc n)) w h = elim (Bool-cases (commits w.transactions)) [
    | inl c ↦ rw c (Tidy-refl w.db h, cy.match_recent_lem t _ m (suc n) w.db)
    | inr c ↦ rw c h
  ]

  -- What holds after a success and after a failure holds.
  settled :
      {A : Type 0} (m : M Db A) (w : Store Db)
      → After (λ a db. Balanced db) m w
      → Balanced (m w).1.db
  settled {A = A} m w h = split (m w).0 (m w).1.db h
    where
      split : (r : Result A) (db : Db) → Post (λ a db. Balanced db) r db → Balanced db
      split (ok a) db h = h
      split (err e) db h = h

  kept-After :
      {A : Type 0} (P : Db → Type 0) (m : M Db A) (w : Store Db)
      → ((db : Db) → P db → Balanced db)
      → P (m w).1.db
      → After (λ a. P) m w
  kept-After {A = A} P m w weaken h = split (m w).0 (m w).1.db h
    where
      split : (r : Result A) (db : Db) → P db → Post (λ a. P) r db
      split (ok a) db h = h
      split (err e) db h = weaken db h

  link_first-After :
      (t : String) (now' : Time) (m : String) (ids : List String) (w : Store Db)
      → Balanced w.db
      → All (λ i. There t i w.db) ids
      → After (λ u db. Balanced db) (link_first s t now' m ids) w
  unfolding link_first
  link_first-After t now' m [] w h hs = h
  link_first-After t now' m (first ∷ ids) w h (hf, hs) =
      elim (Bool-cases (positive cfg.structural_recent_n && positive cfg.structural_recent_delta)) [
        | inr c ↦ rw c h
        | inl c ↦ rw c (
            bind-After (λ rs db. Tidy w.db db × All (λ i. There t i db) rs) (λ u db. Balanced db)
              (recent_node_ids float database commits t
                (now' - pos_part cfg.structural_recent_delta) m cfg.structural_recent_n)
              (link_recent s t now' first) w
              (recent_node_ids-After t _ m cfg.structural_recent_n w h)
              (λ rs w1 (g, all).
                kept-After Balanced (link_recent s t now' first rs) w1 (λ db b. b)
                  ((link_recent-Keeps w1.db t now' first rs (g.grown.still t first hf) all).kept w1
                    (Tidy-refl w1.db g.balanced)).balanced))
      ]

  -- The steps after the message is stored.
  linked-After :
      (t msg_id : String) (now' : Time) (cs : List Chunk) (vecs : List (List F)) (w : Store Db)
      → Balanced w.db
      → After {A = WriteResult} (λ r db. Balanced db) (put_linked s t msg_id now' cs vecs) w
  linked-After t msg_id now' cs vecs w h =
      bind-After (λ ids db. Tidy w.db db × All (λ i. There t i db) ids) (λ r db. Balanced db)
        (put_chunks s t msg_id now' cs vecs) _ w (put_chunks-After t msg_id now' cs vecs w h)
        (λ ids w1 (g, all).
          bind-After (λ u db. Tidy w1.db db) (λ r db. Balanced db) (link_sequence s t now' ids) _ w1
            (kept-After (Tidy w1.db) (link_sequence s t now' ids) w1 (λ db x. x.balanced)
              ((link_sequence-Keeps w1.db t now' ids all).kept w1 (Tidy-refl w1.db g.balanced)))
            (λ u w2 g2.
              bind-After (λ u db. Balanced db) (λ r db. Balanced db)
                (link_first s t now' msg_id ids) _ w2
                (link_first-After t now' msg_id ids w2 g2.balanced
                  (All-There t ids w1.db w2.db g2 all))
                (λ v w3 b. b)))

  persist-Keeps :
      (req : WriteRequest) (t : String) (cs : List Chunk) (vecs : List (List F))
      → Keeps Balanced (persist s req t cs vecs)
  persist-Keeps req t cs vecs =
      bind-Keeps Balanced {m = now s.clock}
        {g = λ now'. new_id s >>= λ msg_id.
          put_message float database s.json commits (message_of s req t msg_id now')
          >> put_linked s t msg_id now' cs vecs}
        (same-Keeps Balanced (λ w. refl))
        (λ now'.
          bind-Keeps Balanced {m = new_id s}
            {g = λ msg_id.
              put_message float database s.json commits (message_of s req t msg_id now')
              >> put_linked s t msg_id now' cs vecs}
            (same-Keeps Balanced (λ w. refl))
            (λ msg_id.
              bind-Keeps Balanced {g = λ u. put_linked s t msg_id now' cs vecs}
                (put_message-Keeps float database cy commits s.json
                  (message_of s req t msg_id now'))
                (λ u. record {
                  kept = λ w h.
                      settled (put_linked s t msg_id now' cs vecs) w
                        (linked-After t msg_id now' cs vecs w h);
                })))

  with_vectors-Keeps :
      (req : WriteRequest) (t : String) (cs : List Chunk) (vecs : List (List F))
      → Keeps Balanced (with_vectors s req t cs vecs)
  with_vectors-Keeps req t cs vecs =
      cond-Keeps Balanced (not (length vecs == length cs)) (throw-Keeps Balanced _)
        (persist-Keeps req t cs vecs)

  with_chunks-Keeps :
      (req : WriteRequest) (t : String) (cs : Option (List Chunk))
      → Keeps Balanced (with_chunks s req t cs)
  with_chunks-Keeps req t none = throw-Keeps Balanced _
  with_chunks-Keeps req t (some cs) = cond-Keeps Balanced (is_nil cs) (throw-Keeps Balanced _) (
      bind-Keeps Balanced {m = lift s (s.embed retrieval_document (map (λ c. c.text) cs))}
        (same-Keeps Balanced (λ w. refl)) (with_vectors-Keeps req t cs))

  registered-Keeps :
      (e : Option ErrTenantInvalid) (tuple : Dict String) → Keeps Balanced (registered s e tuple)
  registered-Keeps none tuple =
      bind-Keeps Balanced {m = now s.clock}
        {g = λ t.
          upsert_tenant float database s.json commits (tenant_info s tuple t)
          >> pure (tenant_id s tuple)}
        (same-Keeps Balanced (λ w. refl))
        (λ t.
          bind-Keeps Balanced {g = λ u. pure (tenant_id s tuple)}
            (upsert_tenant-Keeps float database cy commits s.json (tenant_info s tuple t))
            (λ u. pure-Keeps Balanced (tenant_id s tuple)))
  registered-Keeps (some e) tuple = throw-Keeps Balanced _

  resolve_tenant-Keeps : (tuple : Dict String) → Keeps Balanced (resolve_tenant s tuple)
  unfolding resolve_tenant
  resolve_tenant-Keeps tuple =
      cond-Keeps Balanced (is_nil tuple) (throw-Keeps Balanced _)
        (registered-Keeps (validate s.schema tuple) tuple)

  write_request-Keeps : (req : WriteRequest) → Keeps Balanced (write s req)
  unfolding write
  write_request-Keeps req =
      cond-Keeps Balanced (is_blank req.message) (throw-Keeps Balanced _)
        (bind-Keeps Balanced (resolve_tenant-Keeps req.tenant) (λ t. with_chunks-Keeps req t _))

  -- `Write` keeps the counters equal to the counts, and one edge at most from one node to another,
  -- whatever the message and the embedder's answer, on every outcome of its transactions, also where
  -- it stops half-way on an error.
  pub write-IsCounted :
      (req : WriteRequest) (w : Store Db)
      → IsCounted (view w.db)
      → IsCounted (view (write s req w).1.db)
  write-IsCounted req w h = (write_request-Keeps req).kept w h
