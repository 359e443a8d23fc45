-- ===== src/Service/Config.antt =====
-- `Config` of internal/service/service.go, and the functions of internal/service/decay.go on
-- weights: decay, the cap, the ranks and the rates of the kinds.
use memmy.Prelude.{true, ◌*◌, ℕ, Bool, not, ◌&&◌, if◌then◌else◌}
use memmy.Prelude.Int.{ℤ, pos}
use memmy.Float.{Float}
use memmy.Types.{EdgeKind, structural, co_retrieval, co_traversal, unknown}
use memmy.Types.Instant.{positive}

pub record Config (F : Type 0) : Type 0 where
  pub chunk_window_size : ℤ
  pub chunk_stride : ℤ
  pub default_k : ℤ
  pub default_hops : ℤ
  pub default_oversample : ℤ
  pub sim_alpha : F
  pub weight_beta : F
  pub depth_penalty_factor : F
  pub node_lambda : F
  pub edge_structural_lambda : F
  pub edge_co_retrieval_lambda : F
  pub edge_co_traversal_lambda : F
  pub node_delta : F
  pub edge_co_retrieval_base : F
  pub edge_co_traversal_multiplier : F
  pub edge_structural_weight : F
  pub edge_structural_temporal_weight : F
  pub edge_floor : F
  pub node_floor : F
  pub weight_cap : F
  pub structural_recent_n : ℤ
  pub structural_recent_delta : ℤ
  pub refractory_period : ℤ
  pub log_dampening : Bool
  pub mark_max_nodes : ℤ

-- `DefaultConfig`.
module _ (f : Float) where
  open f use {decimal}

  unfoldable pub default_config : Config f.F
  default_config = record {
    chunk_window_size = pos 3;
    chunk_stride = pos 2;
    default_k = pos 8;
    default_hops = pos 2;
    default_oversample = pos 300;
    sim_alpha = decimal 1 0;
    weight_beta = decimal 5 1;
    depth_penalty_factor = decimal 2 0;
    node_lambda = decimal 80 9;
    edge_structural_lambda = decimal 40 9;
    edge_co_retrieval_lambda = decimal 27 8;
    edge_co_traversal_lambda = decimal 13 8;
    node_delta = decimal 1 0;
    edge_co_retrieval_base = decimal 5 1;
    edge_co_traversal_multiplier = decimal 15 1;
    edge_structural_weight = decimal 1 0;
    edge_structural_temporal_weight = decimal 3 1;
    edge_floor = decimal 5 2;
    node_floor = decimal 1 2;
    weight_cap = decimal 100 0;
    structural_recent_n = pos 16;
    structural_recent_delta = pos (5 * 60 * 1000000000);
    refractory_period = pos (60 * 1000000000);
    log_dampening = true;
    mark_max_nodes = pos 256;
  }

module _ (f : Float) where
  open f use {F, lt, le, sub, mul, neg, nought, seconds, exp}

  unfoldable pub decay : F → F → ℤ → F
  decay weight lambda dt =
      if le weight nought
      then nought
      else if not (positive dt)
      then weight
      else mul weight (exp (mul (neg lambda) (seconds dt)))

  unfoldable pub cap_weight : F → F → F
  cap_weight w cap = if lt w nought then nought else if lt nought cap && lt cap w then cap else w

  unfoldable pub lambda_for_kind : Config F → EdgeKind → F
  lambda_for_kind cfg structural = cfg.edge_structural_lambda
  lambda_for_kind cfg co_retrieval = cfg.edge_co_retrieval_lambda
  lambda_for_kind cfg co_traversal = cfg.edge_co_traversal_lambda
  lambda_for_kind cfg (unknown n) = cfg.edge_structural_lambda

  -- `simScore` of internal/service/recall.go.
  unfoldable pub sim_score : F → F
  sim_score s =
      let v = f.div (f.add s f.one) (f.add f.one f.one) in
      if lt v nought then nought else if lt f.one v then f.one else v

unfoldable pub kind_rank : EdgeKind → ℕ
kind_rank co_traversal = 3
kind_rank co_retrieval = 2
kind_rank structural = 1
kind_rank (unknown n) = 0
