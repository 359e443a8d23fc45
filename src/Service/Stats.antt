-- ===== src/Service/Stats.antt =====
-- `Stats` of internal/service/stats.go.
pub mod Refines
use memmy.Prelude.{String, Bool, List, [], ◌∷◌, if◌then◌else◌, map}
use memmy.Prelude.Int.{ℤ, pos, ◌+ℤ◌}
use memmy.Prelude.Dict.{Dict}
use memmy.Storage.Session.{pure, ◌>>=◌}
use memmy.Types.Instant.{positive}
use memmy.Storage.Graph.Message.{list_tenants}
use memmy.Storage.Scanners.{TenantStats, tenant_stats}
use memmy.Service.Tenant.{is_nil}
use memmy.Service.Request.{Service, Action, require_valid_tenant}
use memmy.Service.Explicit.{lift}

module _ (s : Service) where
  open s use {float, database, commits}
  open float use {F, add, div, nought}

  pub record StatsResult : Type 0 where
    pub node_count : ℤ
    pub memory_edge_count : ℤ
    pub hnsw_size : ℤ
    pub avg_node_weight : F
    pub avg_edge_weight : F

  -- The sums so far: `out`, `nodeWeightSum` and `edgeWeightSum`.
  unfoldable pub add_stats : TenantStats F → TenantStats F → TenantStats F
  add_stats a b = record {
    node_count = a.node_count +ℤ b.node_count;
    edge_count = a.edge_count +ℤ b.edge_count;
    hnsw_size = a.hnsw_size +ℤ b.hnsw_size;
    sum_node_weight = add a.sum_node_weight b.sum_node_weight;
    sum_edge_weight = add a.sum_edge_weight b.sum_edge_weight;
  }

  abbrev pub no_stats : TenantStats F
  no_stats = record {
    node_count = pos 0;
    edge_count = pos 0;
    hnsw_size = pos 0;
    sum_node_weight = nought;
    sum_edge_weight = nought;
  }

  unfoldable pub sum_stats : List String → TenantStats F → Action s (TenantStats F)
  unfolding add_stats
  sum_stats [] acc = pure acc
  sum_stats (t ∷ ts) acc =
      tenant_stats float database commits t >>= λ one'. sum_stats ts (add_stats acc one')

  abbrev pub average : F → ℤ → F
  average sum count = if positive count then div sum (float.of_int count) else nought

  unfoldable pub stats_result : TenantStats F → StatsResult
  stats_result t = record {
    node_count = t.node_count;
    memory_edge_count = t.edge_count;
    hnsw_size = t.hnsw_size;
    avg_node_weight = average t.sum_node_weight t.node_count;
    avg_edge_weight = average t.sum_edge_weight t.edge_count;
  }

  -- One tenant, or all that are registered.
  abbrev pub tenants_of : Dict String → Action s (List String)
  tenants_of tuple =
      if is_nil tuple
      then (list_tenants float database s.json commits >>= λ ts. pure (map (λ t. t.id) ts))
      else (lift s (require_valid_tenant s tuple) >>= λ id. pure (id ∷ []))

  unfoldable pub stats : Dict String → Action s StatsResult
  unfolding sum_stats stats_result require_valid_tenant
  stats tuple = do
    tenants ← tenants_of tuple
    total ← sum_stats tenants no_stats
    pure (stats_result total)
