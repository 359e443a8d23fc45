-- ===== src/Service/Explicit/Single.antt =====
-- `Reinforce` and `Demote` on the stored node.
use memmy.Prelude.{
  ◌+◌, ◌≡◌, refl, sym, ap, ◌∙◌, String, str_eq, Bool, true, false, ◌&&◌, some, List, [], ◌∷◌,
  if◌then◌else◌, arith, Bool-cases, inl, inr,
}
use memmy.Prelude.Int.{pos, int_ltb}
use memmy.Prelude.Dict.{Dict}
use memmy.Float.{IsOrdered}
use memmy.Types.{Node}
use memmy.Types.Instant.{since, positive}
use memmy.Storage.Rows.{find_node, is_node, set_node_row, encode_node}
use memmy.Storage.Statement
use memmy.Storage.Database.{IsCypher}
use memmy.Storage.Session.{
  Error, message, Result, ok, err, Store, pure, throw, continue, ◌>>=◌, with_write_session,
}
use memmy.Storage.Session.Rollback.{with_write_session-err}
use memmy.Storage.Graph.Node.{update_node, update_node_tx, node_delta}
use memmy.Service.Request.{Service, is_blank, require_valid_tenant}
use memmy.Service.Weight.Node.{touch, refractory, explicit_bump}
use memmy.Service.Weight.Node.Bump.{explicit_bump_bounds}
use memmy.Service.Explicit.{
  BumpResult, bump_closure, bump_result, apply_explicit_node_bump, bump_request,
}

module _ (s : Service) (cy : IsCypher s.float s.database) where
  open s use {float, database, cfg}
  open database use {Db, view}

  -- The row that a write leaves is the one that the next read finds.
  find-set_node :
      (t i : String) (n new : Node float.F) (ns : List (Node float.F))
      → find_node t i ns ≡ some n
      → str_eq new.tenant_id t && str_eq new.id i ≡ true
      → find_node t i (set_node_row t i new ns) ≡ some new
  unfolding find_node set_node_row is_node
  find-set_node t i n new [] h k = cc
  find-set_node t i n new (m ∷ ns) h k = ground (arith, find-set_node t i n new ns)

  find_node-key :
      (t i : String) (n : Node float.F) (ns : List (Node float.F))
      → find_node t i ns ≡ some n
      → str_eq n.tenant_id t && str_eq n.id i ≡ true
  unfolding find_node is_node
  find_node-key t i n [] h = cc
  find_node-key t i n (m ∷ ns) h = ground (arith, find_node-key t i n ns)

  module _ (t i : String) (delta : float.F) (w : Store Db) (n : Node float.F)
      (found : find_node t i (view w.db).nodes ≡ some n)
      (commits : s.commits w.transactions ≡ true) where
    abbrev bumped : Node float.F × Bool
    bumped = explicit_bump float cfg (s.clock w.readings) delta n

    -- The world after the transaction.
    abbrev after : Store Db
    after = record {
      db =
          database.adjust_counters t (node_delta float (pos 0) (float.sub bumped.0.weight n.weight))
            (database.set_node t i (encode_node bumped.0) w.db);
      transactions = w.transactions + 1;
      readings = w.readings + 1;
    }

    apply_lem : apply_explicit_node_bump s t i delta w ≡ (ok bumped, after)
    unfolding apply_explicit_node_bump update_node with_write_session update_node_tx
    apply_lem =
        let row : database.match_node t i w.db ≡ some n = cy.match_node_lem t i w.db ∙ found in
        rw (row, update_node_tx, commits)

    nodes_after : (view after.db).nodes ≡ set_node_row t i (encode_node bumped.0) (view w.db).nodes
    unfolding Statement.adjust Statement.set_node
    nodes_after = rw (cy.adjust_lem, cy.set_node_lem)

    rels_after : (view after.db).rels ≡ (view w.db).rels
    unfolding Statement.adjust Statement.set_node
    rels_after = rw (cy.adjust_lem, cy.set_node_lem)

    found_after : find_node t i (view after.db).nodes ≡ some (encode_node bumped.0)
    unfolding encode_node explicit_bump touch
    found_after = rw nodes_after (
        find-set_node t i n (encode_node bumped.0) (view w.db).nodes found
          (find_node-key t i n (view w.db).nodes found))

  module _ (missing : String) (delta : float.F) (tuple : Dict String) (id : String) (w : Store Db)
      (t : String) (n : Node float.F) (valid : require_valid_tenant s tuple ≡ ok t)
      (named : is_blank id ≡ false) (found : find_node t id (view w.db).nodes ≡ some n)
      (commits : s.commits w.transactions ≡ true) where
    request_lem : bump_request s missing delta tuple id w ≡ (
      ok (bump_result s (bumped t id delta w n found commits)),
      after t id delta w n found commits,
    )
    unfolding bump_request
    request_lem = rw (valid, named, apply_lem t id delta w n found commits)

    -- With `<` a strict order and a positive `WeightCap` that is not below `NodeFloor`, a
    -- request for a tenant that is accepted and a node that is there, whose transaction commits,
    -- returns the new weight of the node, and whether it was in its refractory window, and stores
    -- the node: the row of the node is the bumped node
    -- with its times in milliseconds, no other row and no edge changes, and the weight is not
    -- below the floor and not above the cap.
    pub bump_request_lem :
        (ord : IsOrdered float)
        → float.lt float.nought cfg.weight_cap ≡ true
        → float.lt cfg.weight_cap cfg.node_floor ≡ false
        → (w' : Store Db) × (b : Node float.F × Bool) × (b
            ≡ explicit_bump float cfg (s.clock w.readings) delta n)
          × (bump_request s missing delta tuple id w ≡ (
            ok (record {
              node_id = n.id;
              new_weight = b.0.weight;
              skipped_refractory =
                  positive cfg.refractory_period
                  && int_ltb (since (s.clock w.readings) n.last_touched) cfg.refractory_period;
            }),
            w',
          ))
          × ((view w'.db).nodes ≡ set_node_row t id (encode_node b.0) (view w.db).nodes)
          × (find_node t id (view w'.db).nodes ≡ some (encode_node b.0))
          × ((view w'.db).rels ≡ (view w.db).rels)
          × (float.lt b.0.weight cfg.node_floor ≡ false)
          × (float.lt cfg.weight_cap b.0.weight ≡ false)
    unfolding explicit_bump touch refractory
    bump_request_lem ord capped ordered =
        let (low, high) =
          explicit_bump_bounds float ord cfg (s.clock w.readings) delta n capped ordered in
        (
          after t id delta w n found commits,
          bumped t id delta w n found commits,
          refl,
          request_lem,
          nodes_after t id delta w n found commits,
          found_after t id delta w n found commits,
          rels_after t id delta w n found commits,
          low,
          high,
        )

  apply-err :
      (t i : String) (delta : float.F) (w w' : Store Db) (e : Error)
      → apply_explicit_node_bump s t i delta w ≡ (err e, w')
      → w'.db ≡ w.db
  unfolding apply_explicit_node_bump update_node
  apply-err t i delta w w' e h =
      with_write_session-err s.commits
        (update_node_tx float database t i (bump_closure s delta (s.clock w.readings)))
        (record w { readings = w.readings + 1 }) w' e h

  answered :
      (t i : String) (delta : float.F) (w w1 w' : Store Db) (e : Error)
      (r : Result (Node float.F × Bool))
      → apply_explicit_node_bump s t i delta w ≡ (r, w1)
      → continue {Db = Db} {B = BumpResult s} (λ b. pure (bump_result s b)) r w1 ≡ (err e, w')
      → w'.db ≡ w.db
  answered t i delta w w1 w' e (ok b) q h = absurd (ground arith)
  answered t i delta w w1 w' e (err x) q h = ap (λ v. v.1.db) (sym h) ∙ apply-err t i delta w w1 x q

  -- A reinforcement or a demotion that reports an error, of the tenant, of the node's name, of a
  -- node that is not there or of the transaction, leaves the database as it was.
  pub bump_request-err :
      (missing : String) (delta : float.F) (tuple : Dict String) (id : String) (w w' : Store Db)
      (e : Error)
      → bump_request s missing delta tuple id w ≡ (err e, w')
      → w'.db ≡ w.db
  unfolding bump_request
  bump_request-err missing delta tuple id w w' e h = by_tenant (require_valid_tenant s tuple) refl h
    where
      by_tenant :
          (r : Result String)
          → require_valid_tenant s tuple ≡ r
          → continue
              (λ t.
                if is_blank id
                then throw (message missing)
                else (apply_explicit_node_bump s t id delta >>= λ b. pure (bump_result s b)))
              r
              w
            ≡ (err e, w')
          → w'.db ≡ w.db
      by_tenant (err x) q k = ground arith
      by_tenant (ok t) q k = elim (Bool-cases (is_blank id)) [
        | inl b ↦ ground (arith, b)
        | inr b ↦
            let (r, w1) = apply_explicit_node_bump s t id delta w in
            answered t id delta w w1 w' e r refl (rw b at k)
      ]
