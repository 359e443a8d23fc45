-- ===== src/Storage/Graph/Edge.antt =====
-- The operations of internal/storage/neo4j/graph.go on edges.
use memmy.Prelude.{ℕ, String, str_eq, Bool, Option, none, some, [], ◌∷◌, if◌then◌else◌, not}
use memmy.Prelude.Int.{ℤ, pos, negsuc}
use memmy.Float.{Float}
use memmy.Types.{MemoryEdge}
use memmy.Storage.Rows.{
  Rel, TenantCounters, edge_kind_rel_type, rel_type_eq, encode_edge, decode_edge,
}
use memmy.Storage.Database.{Database}
use memmy.Storage.Session.{
  not_found, message, Result, ok, err, M, throw, with_write_session, with_read_session,
}

module _ (f : Float) where
  open f use {F, sub, nought}

  abbrev pub edge_delta : ℤ → F → TenantCounters F
  edge_delta count weight = record {
    node_count = pos 0;
    edge_count = count;
    sum_node_weight = nought;
    sum_edge_weight = weight;
  }

  -- The relationship that `MERGE … SET r += $props` writes for an edge.
  unfoldable pub rel_of : MemoryEdge F → Rel F
  rel_of e = record {
    tenant = e.tenant_id;
    from = e.from;
    to = e.to;
    rel_type = edge_kind_rel_type e.kind;
    props = encode_edge e;
  }

  module _ (d : Database f) where
    open d use {Db, match_rels, delete_rels, merge_rel, set_rels, adjust_counters}

    -- The first row of the query is the edge that is there.
    unfoldable pub put_edge_tx : MemoryEdge F → Db → Result (Unit {0}) × Db
    put_edge_tx e db = elim (match_rels e.tenant_id e.from e.to db) [
      | [] ↦ (
        ok tt,
        adjust_counters e.tenant_id (edge_delta (pos 1) (sub e.weight nought))
            (merge_rel (rel_of e) db),
      )
      | r ∷ rs ↦
          let cleared =
            if rel_type_eq r.rel_type (edge_kind_rel_type e.kind)
            then db
            else delete_rels e.tenant_id e.from e.to db in
          (
            ok tt,
            adjust_counters e.tenant_id (edge_delta (pos 0) (sub e.weight r.props.weight))
                (merge_rel (rel_of e) cleared),
          )
    ]

    -- The edge that the closure returns keeps the endpoints and the tenant of the call.
    unfoldable pub update_edge_tx :
        {A : Type 0}
        → String
        → String
        → String
        → (MemoryEdge F → Result (MemoryEdge F × A))
        → Db
        → Result A × Db
    update_edge_tx tenant from to fn db = elim (match_rels tenant from to db) [
      | [] ↦ (err not_found, db)
      | r ∷ rs ↦ elim (fn (decode_edge r)) [
        | err e ↦ (err e, db)
        | ok (e, a) ↦
            let written =
              if not (rel_type_eq (edge_kind_rel_type e.kind) r.rel_type)
              then merge_rel (record (rel_of e) { tenant = tenant; from = from; to = to })
                  (delete_rels tenant from to db)
              else set_rels tenant from to (encode_edge e) db in
            (
              ok a,
              adjust_counters tenant (edge_delta (pos 0) (sub e.weight r.props.weight)) written,
            )
      ]
    ]

    -- `Single` fails on no row and on two, and then nothing is deleted.
    unfoldable pub delete_edge_tx : String → String → String → Db → Result (Unit {0}) × Db
    delete_edge_tx tenant from to db = elim (match_rels tenant from to db) [
      | [] ↦ (ok tt, db)
      | r ∷ [] ↦ (
        ok tt,
        adjust_counters tenant (edge_delta (negsuc 0) (f.neg r.props.weight))
            (delete_rels tenant from to db),
      )
      | r ∷ r' ∷ rs ↦ (ok tt, db)
    ]

    unfoldable pub get_edge_tx : String → String → String → Db → Result (Option (MemoryEdge F))
    get_edge_tx tenant from to db = elim (match_rels tenant from to db) [
      | [] ↦ ok none
      | r ∷ rs ↦ ok (some (decode_edge r))
    ]

    module _ (commits : ℕ → Bool) where
      -- `validateEdge`, then the transaction.
      unfoldable pub put_edge : MemoryEdge F → M Db (Unit {0})
      put_edge e =
          if str_eq e.from ""
          then throw (message "graph: edge From required")
          else if str_eq e.to ""
          then throw (message "graph: edge To required")
          else if str_eq e.from e.to
          then throw (message "graph: self-loop edges not permitted")
          else if str_eq e.tenant_id ""
          then throw (message "graph: edge TenantID required")
          else with_write_session commits (put_edge_tx e)

      unfoldable pub update_edge :
          {A : Type 0}
          → String
          → String
          → String
          → (MemoryEdge F → Result (MemoryEdge F × A))
          → M Db A
      update_edge tenant from to fn = with_write_session commits (update_edge_tx tenant from to fn)

      unfoldable pub delete_edge : String → String → String → M Db (Unit {0})
      delete_edge tenant from to = with_write_session commits (delete_edge_tx tenant from to)

      unfoldable pub get_edge : String → String → String → M Db (Option (MemoryEdge F))
      get_edge tenant from to = with_read_session commits (get_edge_tx tenant from to)
