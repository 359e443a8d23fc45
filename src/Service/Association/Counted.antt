-- ===== src/Service/Association/Counted.antt =====
-- The counters after the actions on edges of internal/service/decay.go.
use memmy.Prelude.{◌+◌, ◌≡◌, String, str_eq, Bool, true, Option, none, some, inl, inr, Bool-cases}
use memmy.Types.{EdgeKind}
use memmy.Types.Instant.{Time}
use memmy.Storage.Statement.{both_nodes}
use memmy.Storage.Database.{IsCypher}
use memmy.Storage.Session.{
  not_found, backend, message, tenant_invalid, Result, ok, err, Store, pure,
}
use memmy.Storage.Session.Kept.{
  Keeps, with_write_session_kept, with_read_session_kept, write-Keeps, bind_kept, bind-Keeps,
  cond-Keeps, pure-Keeps, guard_kept,
}
use memmy.Storage.Graph.Edge.{
  put_edge, put_edge_tx, update_edge, update_edge_tx, delete_edge, delete_edge_tx, get_edge,
  get_edge_tx,
}
use memmy.Storage.Counters.{IsCounted}
use memmy.Storage.Counters.Edges.{
  put_edge_tx-IsCounted, update_edge_tx-IsCounted, delete_edge_tx-IsCounted,
}
use memmy.Service.Request.{Service}
use memmy.Service.Weight.Edge.{new_edge, reinforce_edge, decay_edge}
use memmy.Service.Association.{
  Edge, both, prune, form_edge, strengthen_edge, form_or_strengthen, apply_edge_decay_reinforce,
  after_decay, read_decayed_edge,
}

module _ (s : Service) (cy : IsCypher s.float s.database) where
  open s use {float, database, cfg, commits}
  open database use {Db, view}

  abbrev Balanced : Db → Type 0
  Balanced db = IsCounted (view db)

  module _ (t a b : String) where
    abbrev Linked : Db → Type 0
    Linked db = Balanced db × (both_nodes float t a b (view db) ≡ true)

    delete_kept : Keeps Balanced (delete_edge float database commits t a b)
    unfolding delete_edge
    delete_kept =
        write-Keeps Balanced commits (delete_edge_tx float database t a b)
          (λ db h. (delete_edge_tx-IsCounted float database cy t a b db h).0)

    prune_kept : (r : Edge s × Bool) → Keeps Balanced (prune s t a b r)
    unfolding prune
    prune_kept (e, pruned) =
        cond-Keeps Balanced pruned (bind-Keeps Balanced delete_kept (λ u. pure-Keeps Balanced none))
          (pure-Keeps Balanced (some e))

    update_kept :
        {A : Type 0} (fn : Edge s → Result (Edge s × A)) (w : Store Db)
        → Linked w.db
        → Balanced (update_edge float database commits t a b fn w).1.db
    unfolding update_edge
    update_kept fn w (h, k) =
        with_write_session_kept Balanced commits (update_edge_tx float database t a b fn) w h
          (update_edge_tx-IsCounted float database cy t a b fn w.db h k)

    put_kept :
        (e : Edge s) (w : Store Db)
        → Balanced w.db
        → both_nodes float e.tenant_id e.from e.to (view w.db) ≡ true
        → Balanced (put_edge float database commits e w).1.db
    unfolding put_edge
    put_kept e w h k = guard_kept Balanced (str_eq e.from "") _ _ w h (
        guard_kept Balanced (str_eq e.to "") _ _ w h (
          guard_kept Balanced (str_eq e.from e.to) _ _ w h (
            guard_kept Balanced (str_eq e.tenant_id "") _ _ w h (
              with_write_session_kept Balanced commits (put_edge_tx float database e) w h
                (put_edge_tx-IsCounted float database cy e w.db h k)))))

    module _ (now' : Time) (kind : EdgeKind) (delta : float.F) (co : Bool) where
      strengthen_kept :
          (w : Store Db)
          → Linked w.db
          → Balanced (strengthen_edge s now' t a b kind delta co w).1.db
      unfolding strengthen_edge
      strengthen_kept w h =
          let fn : Edge s → Result (Edge s × (Edge s × Bool)) =
            λ e. both s (reinforce_edge float cfg now' kind delta co e) in
          let m = update_edge float database commits t a b fn in
          bind_kept Balanced m (prune s t a b) w (update_kept fn w h)
            (λ r. (prune_kept r).kept (m w).1 (update_kept fn w h))

      form_kept :
          (w : Store Db) → Linked w.db → Balanced (form_edge s now' t a b kind delta co w).1.db
      unfolding form_edge new_edge
      form_kept w h =
          let e = new_edge float cfg now' t a b kind delta co in
          let m = put_edge float database commits e in
          let k : Balanced (m w).1.db = put_kept e w h.0 h.1 in
          elim (Bool-cases (float.lt e.weight cfg.edge_floor)) [
            | inl p ↦ rw p h.0
            | inr p ↦ rw p (bind_kept Balanced m (λ u. pure (some e)) w k (λ u. k))
          ]

      after_get :
          (found : Option (Edge s)) (w : Store Db)
          → Linked w.db
          → Balanced (form_or_strengthen s now' t a b kind delta co found w).1.db
      after_get none w h = form_kept w h
      after_get (some e) w h = strengthen_kept w h

    -- `applyEdgeDecayReinforce` between two nodes that are there keeps the counters equal to the
    -- counts and one edge at most from the one node to the other, whether it forms the edge,
    -- strengthens it, prunes it or fails, and whichever of its transactions the driver commits.
    pub apply_edge_decay_reinforce-IsCounted :
        (kind : EdgeKind) (delta : float.F) (co : Bool) (w : Store Db)
        → IsCounted (view w.db)
        → both_nodes float t a b (view w.db) ≡ true
        → IsCounted (view (apply_edge_decay_reinforce s t a b kind delta co w).1.db)
    unfolding apply_edge_decay_reinforce get_edge
    apply_edge_decay_reinforce-IsCounted kind delta co w h k =
        let w1 = record w { readings = w.readings + 1 } in
        let m = get_edge float database commits t a b in
        let linked : Linked (m w1).1.db =
          with_read_session_kept Linked commits (get_edge_tx float database t a b) w1 (h, k) in
        bind_kept Balanced m (form_or_strengthen s (s.clock w.readings) t a b kind delta co) w1
          linked.0 (λ found. after_get (s.clock w.readings) kind delta co found (m w1).1 linked)

    decay_kept :
        (r : Result (Edge s × Bool)) (w : Store Db)
        → Balanced w.db
        → Balanced (after_decay s t a b r w).1.db
    unfolding after_decay
    decay_kept (ok r) w h = (prune_kept r).kept w h
    decay_kept (err not_found) w h = h
    decay_kept (err backend) w h = h
    decay_kept (err (message m)) w h = h
    decay_kept (err (tenant_invalid e)) w h = h

    -- `readDecayedEdge` between two nodes that are there keeps the counters equal to the counts
    -- and one edge at most from the one node to the other, whether it writes the decayed weight,
    -- prunes the edge, finds none or fails, and whichever of its transactions the driver commits.
    pub read_decayed_edge-IsCounted :
        (w : Store Db)
        → IsCounted (view w.db)
        → both_nodes float t a b (view w.db) ≡ true
        → IsCounted (view (read_decayed_edge s t a b w).1.db)
    unfolding read_decayed_edge
    read_decayed_edge-IsCounted w h k =
        let fn : Edge s → Result (Edge s × (Edge s × Bool)) =
          λ e. both s (decay_edge float cfg (s.clock w.readings) e) in
        let w1 = record w { readings = w.readings + 1 } in
        let (r, w2) = update_edge float database commits t a b fn w1 in
        decay_kept r w2 (update_kept fn w1 (h, k))
