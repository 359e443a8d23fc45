-- ===== src/Storage/Scanners.antt =====
-- internal/storage/neo4j/scanners.go, and `readCountersTx` of counters.go.
use memmy.Prelude.{ℕ, zero, suc, String, Bool, List, []}
use memmy.Prelude.Int.{ℤ, pos, negsuc}
use memmy.Float.{Float}
use memmy.Types.{Node}
use memmy.Types.Instant.{Time, unix_ms}
use memmy.Storage.Rows.{TenantCounters}
use memmy.Storage.Database.{Database, or_zero}
use memmy.Storage.Session.{ok, M, pure, with_read_session}

-- `TenantStats` of internal/service/stats.go.
pub record TenantStats (F : Type 0) : Type 0 where
  pub node_count : ℤ
  pub edge_count : ℤ
  pub hnsw_size : ℤ
  pub sum_node_weight : F
  pub sum_edge_weight : F

module _ (f : Float) (d : Database f) where
  open d use {Db}

  -- No row is no error: the counts are zero.
  unfoldable pub read_counters_tx : String → Db → TenantCounters f.F
  read_counters_tx tenant db = or_zero f (d.match_counters tenant db)

  abbrev pub stats_of : TenantCounters f.F → ℕ → TenantStats f.F
  stats_of c live = record {
    node_count = c.node_count;
    edge_count = c.edge_count;
    hnsw_size = pos live;
    sum_node_weight = c.sum_node_weight;
    sum_edge_weight = c.sum_edge_weight;
  }

  module _ (commits : ℕ → Bool) where
    unfoldable pub recent_node_ids : String → Time → String → ℤ → M Db (List String)
    recent_node_ids tenant since exclude (pos (suc n)) =
        with_read_session commits
          (λ db. ok (d.match_recent tenant (unix_ms since) exclude (suc n) db))
    recent_node_ids tenant since exclude (pos zero) = pure []
    recent_node_ids tenant since exclude (negsuc n) = pure []

    unfoldable pub nodes_for_message : String → String → M Db (List (Node f.F))
    nodes_for_message tenant msg_id =
        with_read_session commits (λ db. ok (d.match_message_nodes tenant msg_id db))

    unfoldable pub message_ids_before : String → Time → M Db (List String)
    message_ids_before tenant before =
        with_read_session commits (λ db. ok (d.match_messages_before tenant (unix_ms before) db))

    unfoldable pub tenant_stats : String → M Db (TenantStats f.F)
    unfolding read_counters_tx
    tenant_stats tenant =
        with_read_session commits
          (λ db. ok (stats_of (read_counters_tx tenant db) (d.count_live tenant db)))
