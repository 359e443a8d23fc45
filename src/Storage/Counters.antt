-- ===== src/Storage/Counters.antt =====
-- The invariant behind internal/storage/neo4j/counters.go: the counters of a tenant are the counts
-- of its nodes and edges, and a pair of nodes has one edge at most in each direction.
mod Rows
mod Balance
pub mod Nodes
pub mod Edges
pub mod Operations
use memmy.Prelude.{ℕ, ◌≤◌, ◌≡◌, String, str_eq, Bool, length}
use memmy.Prelude.Int.{pos}
use memmy.Types.{Node}
use memmy.Storage.Rows.{Rel, PropertyGraph, is_between, matching}

module _ {F : Type 0} where
  abbrev pub node_in : String → Node F → Bool
  node_in t n = str_eq n.tenant_id t

  abbrev pub rel_in : String → Rel F → Bool
  rel_in t r = str_eq r.tenant t

  pub record IsCounted (g : PropertyGraph F) : Type 0 where
    pub node_counts :
        (t : String) → (g.counters t).node_count ≡ pos (length (matching (node_in t) g.nodes))
    pub edge_counts :
        (t : String) → (g.counters t).edge_count ≡ pos (length (matching (rel_in t) g.rels))
    pub single : (t a b : String) → length (matching (is_between t a b) g.rels) ≤ 1
