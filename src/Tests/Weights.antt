-- ===== src/Tests/Weights.antt =====
-- internal/service/decay.go: runs and instances.
use memmy.Prelude.{ℕ, ◌≡◌, refl, ◌&&◌, true, false, not, ◌+◌}
use Prim.Native.Nat.{max}
use memmy.Prelude.Int.{ℤ, pos, int_ltb}
use memmy.Types.{Node, increment, structural, co_traversal}
use memmy.Types.Instant.{since, to_millis}
use memmy.Service.Config.{Config, decay, kind_rank}
use memmy.Service.Weight.Node.{touch, refractory, dampening, effective_delta, clamp, explicit_bump}
use memmy.Service.Weight.Node.Bump.{explicit_bump_bounds, stored_bump, explicit_bump_refractory}
use memmy.Service.Weight.Edge.{reinforce_edge}
use memmy.Service.Weight.Edge.Rank.{reinforce_edge_lem}
use memmy.Tests.Samples.{milli, milli-IsOrdered, node, edge}

-- `DefaultConfig`, in thousandths; the rates are rounded away.
abbrev pub cfg : Config ℤ
cfg = record {
  chunk_window_size = pos 3;
  chunk_stride = pos 2;
  default_k = pos 8;
  default_hops = pos 2;
  default_oversample = pos 300;
  sim_alpha = pos 1000;
  weight_beta = pos 500;
  depth_penalty_factor = pos 2000;
  node_lambda = pos 0;
  edge_structural_lambda = pos 0;
  edge_co_retrieval_lambda = pos 0;
  edge_co_traversal_lambda = pos 0;
  node_delta = pos 1000;
  edge_co_retrieval_base = pos 500;
  edge_co_traversal_multiplier = pos 1500;
  edge_structural_weight = pos 1000;
  edge_structural_temporal_weight = pos 300;
  edge_floor = pos 50;
  node_floor = pos 10;
  weight_cap = pos 100000;
  structural_recent_n = pos 16;
  structural_recent_delta = pos 300000000000;
  refractory_period = pos 60000000000;
  log_dampening = true;
  mark_max_nodes = pos 256;
}

-- Everything that a bump runs through.
bump : Unit {0}
unfolding explicit_bump touch effective_delta clamp refractory dampening decay since increment
    memmy.Prelude.Int.◌+ℤ◌
bump = tt

-- A weight of 1.000 decays to 0.900 in a minute and gains 0.991 of the delta.
first_bump :
    ((explicit_bump milli cfg 60000000000 (pos 1000) (node "a" (pos 1000))).0.weight ≡ pos 1891)
    × ((explicit_bump milli cfg 60000000000 (pos 1000) (node "a" (pos 1000))).1 ≡ false)
unfolding bump
first_bump = (refl, refl)

explicit_bump_bounds_example :
    (int_ltb (explicit_bump milli cfg 7 (pos 1000) (node "a" (pos 99999))).0.weight (pos 10)
      ≡ false)
    × (int_ltb (pos 100000) (explicit_bump milli cfg 7 (pos 1000) (node "a" (pos 99999))).0.weight
        ≡ false)
explicit_bump_bounds_example =
    explicit_bump_bounds milli milli-IsOrdered cfg 7 (pos 1000) (node "a" (pos 99999)) refl refl

-- A bump at 1234567 nanoseconds is stored at 1000000.
abbrev after_bump : Node ℤ
after_bump = stored_bump milli milli-IsOrdered cfg 1234567 (pos 1) (node "a" (pos 5))

explicit_bump_refractory_example :
    (explicit_bump milli cfg 60000999999 (pos 1) after_bump
      ≡ explicit_bump milli cfg 60000999999 (pos 2) after_bump)
    × ((explicit_bump milli cfg 60000999999 (pos 1) after_bump).1 ≡ true)
    × ((explicit_bump milli cfg 60000999999 (pos 1) after_bump).0.last_touched ≡ 60000999999)
    × ((explicit_bump milli cfg 60000999999 (pos 1) after_bump).0.access_count
        ≡ increment (increment 0))
unfolding since to_millis
explicit_bump_refractory_example =
    explicit_bump_refractory milli milli-IsOrdered cfg 1234567 60000999999 (pos 1) (pos 1) (pos 2)
      (node "a" (pos 5)) refl refl

reinforce_edge_lem_example :
    (kind_rank (reinforce_edge milli cfg 7 co_traversal (pos 750) true (edge "a" "b")).0.kind
      ≡ max (kind_rank structural) (kind_rank co_traversal))
    × (int_ltb
          (reinforce_edge milli cfg 7 co_traversal (pos 750) true (edge "a" "b")).0.weight
          (pos 0)
        ≡ false)
    × (not (
          int_ltb (pos 0) (pos 100000)
          && int_ltb
              (pos 100000)
              (reinforce_edge milli cfg 7 co_traversal (pos 750) true (edge "a" "b")).0.weight)
        ≡ true)
    × ((reinforce_edge milli cfg 7 co_traversal (pos 750) true (edge "a" "b")).0.from ≡ "a")
    × ((reinforce_edge milli cfg 7 co_traversal (pos 750) true (edge "a" "b")).0.to ≡ "b")
    × ((reinforce_edge milli cfg 7 co_traversal (pos 750) true (edge "a" "b")).1
        ≡ int_ltb
            (reinforce_edge milli cfg 7 co_traversal (pos 750) true (edge "a" "b")).0.weight
            (pos 50))
reinforce_edge_lem_example =
    reinforce_edge_lem milli milli-IsOrdered cfg 7 co_traversal (pos 750) true (edge "a" "b")
