-- ===== src/Service/Recall/Types.antt =====
-- The records that internal/service/recall.go works on, and its request and hits, which
-- internal/types/types.go declares.
use memmy.Prelude.{ℕ, String, Bool, List}
use memmy.Prelude.Int.{ℤ}
use memmy.Prelude.Dict.{Dict}
use memmy.Chunker.Text.{Text}
use memmy.Types.{Node}

pub record RecallRequest : Type 0 where
  pub tenant : Dict String
  pub query : String
  pub k : ℤ
  pub hops : ℤ
  pub oversample_n : ℤ

module _ (F : Type 0) where
  pub record ScoreBreakdown : Type 0 where
    pub sim : F
    pub node_weight : F
    pub graph_mult : F
    pub depth : ℕ

  pub record RecallHit : Type 0 where
    pub node_id : String
    pub text : Text
    pub source_msg_id : String
    pub source_text : Text
    pub score : F
    pub score_breakdown : ScoreBreakdown
    pub path : List String

  pub record Candidate : Type 0 where
    pub node_id : String
    pub sim : F
    pub node_weight : F
    pub combined_score : F
    pub node : Node F
    pub alive : Bool

  pub record Visited : Type 0 where
    pub best_path : List String
    pub best_score : F
    pub seed_id : String
    pub depth : ℕ
    pub via_edge : Bool

  pub record Frontier : Type 0 where
    pub node_id : String
    pub seed_id : String
    pub path_score : F
    pub path : List String
    pub depth : ℕ

  -- The type `result` of the last phases.
  pub record Scored : Type 0 where
    pub node_id : String
    pub score : F
    pub breakdown : ScoreBreakdown
    pub path : List String
    pub via_edge : Bool
