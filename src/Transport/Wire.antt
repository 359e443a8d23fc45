-- ===== src/Transport/Wire.antt =====
-- internal/transport/mcp/mcp.go: the arguments of the tools and their structured output.
use memmy.Prelude.{ℕ, String, Bool, List}
use memmy.Prelude.Int.{ℤ}
use memmy.Prelude.Dict.{Dict}
use memmy.Chunker.Text.{Text}

pub record WriteArgs : Type 0 where
  pub tenant : Dict String
  pub message : String
  pub metadata : Dict String

pub record WriteOut : Type 0 where
  pub message_id : String
  pub node_ids : List String

pub record RecallArgs : Type 0 where
  pub tenant : Dict String
  pub query : String
  pub k : ℤ
  pub hops : ℤ
  pub oversample : ℤ

pub record ForgetArgs : Type 0 where
  pub tenant : Dict String
  pub message_id : String
  pub before : String

pub record ForgetOut : Type 0 where
  pub deleted_nodes : ℕ
  pub deleted_edges : ℕ
  pub deleted_vectors : ℕ

pub record StatsArgs : Type 0 where
  pub tenant : Dict String

pub record NodeArgs : Type 0 where
  pub tenant : Dict String
  pub node_id : String

pub record MarkOut : Type 0 where
  pub nodes_affected : ℕ
  pub nodes_skipped_refractory : ℕ

module _ (F : Type 0) where
  pub record HitScore : Type 0 where
    pub sim : F
    pub node_weight : F
    pub graph_mult : F
    pub depth : ℕ

  pub record HitOut : Type 0 where
    pub node_id : String
    pub text : Text
    pub source_msg_id : String
    pub source_text : Text
    pub score : F
    pub score_breakdown : HitScore
    pub path : List String

  pub record RecallOut : Type 0 where
    pub results : List HitOut

  pub record StatsOut : Type 0 where
    pub node_count : ℤ
    pub memory_edge_count : ℤ
    pub hnsw_size : ℤ
    pub avg_node_weight : F
    pub avg_edge_weight : F

  pub record NodeOut : Type 0 where
    pub node_id : String
    pub new_weight : F
    pub skipped_refractory : Bool

  pub record MarkArgs : Type 0 where
    pub tenant : Dict String
    pub since : String
    pub strength : F
