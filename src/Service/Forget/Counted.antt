-- ===== src/Service/Forget/Counted.antt =====
-- The counters after `Forget`.
use memmy.Prelude.{
  ◌+◌, refl, String, str_eq, Bool, true, false, not, ◌&&◌, List, [], ◌∷◌, if◌then◌else◌, ◌==◌,
}
use memmy.Types.{Node}
use memmy.Storage.Database.{IsCypher}
use memmy.Storage.Session.{
  not_found, backend, message, tenant_invalid, Result, ok, err, Store, pure, ◌>>=◌,
}
use memmy.Storage.Session.Kept.{Keeps, bind-Keeps, cond-Keeps, same-Keeps, pure-Keeps, throw-Keeps}
use memmy.Storage.Graph.Edge.{delete_edge}
use memmy.Storage.Graph.Neighbor.{neighbors, inbound_neighbors}
use memmy.Storage.Counters.{IsCounted}
use memmy.Storage.Counters.Operations.{
  Balanced, delete_edge-Keeps, delete_node-Keeps, delete_vector-Keeps, delete_message-Keeps,
  neighbors_keep, inbound_neighbors_keep, nodes_for_message-Keeps, message_ids_before-Keeps,
}
use memmy.Service.Request.{Service, is_blank, require_valid_tenant}
use memmy.Service.Explicit.{lift}
use memmy.Service.Forget.{
  ForgetRequest, ForgetResult, Edge, Purged, ordered_pair, has_pair, after_delete, purge, purge_all,
  purge_found, purge_node_edges, forget_node, forget_nodes, forget_message, forget_messages,
  message_ids, forget_checked, forget,
}

module _ (s : Service) (cy : IsCypher s.float s.database) where
  open s use {float, database, commits}

  abbrev Held : database.Db → Type 0
  Held = Balanced float database cy commits

  after_delete-Keeps : (p : Purged s) (r : Result (Unit {0})) → Keeps Held (after_delete s p r)
  after_delete-Keeps p (ok u) = pure-Keeps Held p
  after_delete-Keeps p (err not_found) = pure-Keeps Held p
  after_delete-Keeps p (err backend) = throw-Keeps Held _
  after_delete-Keeps p (err (message m)) = throw-Keeps Held _
  after_delete-Keeps p (err (tenant_invalid e)) = throw-Keeps Held _

  module _ (tenant : String) where
    delete_or_skip :
        (e : Edge s) (p q : Purged s) (skip : Bool) (w : Store database.Db)
        → Held w.db
        → Held
            (if skip
              then (ok p, w)
              else after_delete s q
                  (delete_edge float database commits tenant e.from e.to w).0
                  (delete_edge float database commits tenant e.from e.to w).1).1.db
    delete_or_skip e p q true w h = h
    delete_or_skip e p q false w h =
        let (r, w1) = delete_edge float database commits tenant e.from e.to w in
        (after_delete-Keeps q r).kept w1
          ((delete_edge-Keeps float database cy commits tenant e.from e.to).kept w h)

    purge-Keeps : (e : Edge s) (p : Purged s) → Keeps Held (purge s tenant e p)
    unfolding purge
    purge-Keeps e (seen, deleted) = record {
      kept =
          delete_or_skip e (seen, deleted) (ordered_pair e.from e.to ∷ seen, deleted + 1)
            (has_pair (ordered_pair e.from e.to) seen);
    }

    purge_all-Keeps : (es : List (Edge s)) (p : Purged s) → Keeps Held (purge_all s tenant es p)
    unfolding purge_all
    purge_all-Keeps [] p = pure-Keeps Held p
    purge_all-Keeps (e ∷ es) p =
        bind-Keeps Held {m = purge s tenant e p} {g = purge_all s tenant es} (purge-Keeps e p)
          (λ q. purge_all-Keeps es q)

    purge_found-Keeps : (out into : List (Edge s)) → Keeps Held (purge_found s tenant out into)
    purge_found-Keeps out into =
        bind-Keeps Held {m = purge_all s tenant out ([], 0)}
          {g = λ p. purge_all s tenant into p >>= λ q. pure q.1} (purge_all-Keeps out ([], 0))
          (λ p.
            bind-Keeps Held {m = purge_all s tenant into p} {g = λ q. pure q.1}
              (purge_all-Keeps into p) (λ q. pure-Keeps Held q.1))

    purge_node_edges-Keeps : (id : String) → Keeps Held (purge_node_edges s tenant id)
    unfolding purge_node_edges
    purge_node_edges-Keeps id =
        bind-Keeps Held {m = neighbors float database commits tenant id}
          {g = λ out.
            inbound_neighbors float database commits tenant id >>= purge_found s tenant out}
          (neighbors_keep float database cy commits tenant id)
          (λ out.
            bind-Keeps Held {m = inbound_neighbors float database commits tenant id}
              {g = purge_found s tenant out}
              (inbound_neighbors_keep float database cy commits tenant id) (purge_found-Keeps out))

    forget_node-Keeps :
        (id : String) (out : ForgetResult) → Keeps Held (forget_node s tenant id out)
    unfolding forget_node
    forget_node-Keeps id out = bind-Keeps Held (purge_node_edges-Keeps id) (λ edges.
        bind-Keeps Held
          (delete_vector-Keeps float database cy commits s.dim s.flat_scan_threshold tenant id)
          (λ u.
            bind-Keeps Held (delete_node-Keeps float database cy commits tenant id)
              (λ v. pure-Keeps Held _)))

    forget_nodes-Keeps :
        (ns : List (Node float.F)) (out : ForgetResult) → Keeps Held (forget_nodes s tenant ns out)
    unfolding forget_nodes
    forget_nodes-Keeps [] out = pure-Keeps Held out
    forget_nodes-Keeps (n ∷ ns) out =
        bind-Keeps Held {m = forget_node s tenant n.id out} {g = forget_nodes s tenant ns}
          (forget_node-Keeps n.id out) (λ out'. forget_nodes-Keeps ns out')

    forget_message-Keeps :
        (id : String) (out : ForgetResult) → Keeps Held (forget_message s tenant id out)
    unfolding forget_message
    forget_message-Keeps id out =
        bind-Keeps Held (nodes_for_message-Keeps float database cy commits tenant id) (λ ns.
          bind-Keeps Held (forget_nodes-Keeps ns out) (λ out1.
            bind-Keeps Held (delete_message-Keeps float database cy commits s.json tenant id)
              (λ u. pure-Keeps Held out1)))

    forget_messages-Keeps :
        (ids : List String) (out : ForgetResult) → Keeps Held (forget_messages s tenant ids out)
    unfolding forget_messages
    forget_messages-Keeps [] out = pure-Keeps Held out
    forget_messages-Keeps (id ∷ ids) out =
        bind-Keeps Held {m = forget_message s tenant id out} {g = forget_messages s tenant ids}
          (forget_message-Keeps id out) (λ out'. forget_messages-Keeps ids out')

    message_ids-Keeps : (req : ForgetRequest) → Keeps Held (message_ids s req tenant)
    message_ids-Keeps req =
        cond-Keeps Held (not (str_eq req.message_id "")) (pure-Keeps Held _)
          (message_ids_before-Keeps float database cy commits tenant req.before)

    forget_checked-Keeps : (req : ForgetRequest) → Keeps Held (forget_checked s req tenant)
    forget_checked-Keeps req =
        cond-Keeps Held (is_blank req.message_id && req.before == 0) (throw-Keeps Held _)
          (bind-Keeps Held (message_ids-Keeps req) (λ ids. forget_messages-Keeps ids _))

  -- `Forget` keeps the counters equal to the counts, by message or by time, on every outcome of its
  -- transactions, also where it stops half-way on an error.
  pub forget-IsCounted :
      (req : ForgetRequest) (w : Store database.Db)
      → IsCounted (database.view w.db)
      → IsCounted (database.view (forget s req w).1.db)
  unfolding forget
  forget-IsCounted req w h =
      (bind-Keeps Held {m = lift s (require_valid_tenant s req.tenant)} {g = forget_checked s req}
          (same-Keeps Held (λ w'. refl)) (λ tenant. forget_checked-Keeps tenant req)).kept
        w h
