-- ===== src/Service/Weight/Edge/Rank.antt =====
-- What a reinforcement does to the kind and the weight of an edge.
use Prim.Native.Nat.{max}
use memmy.Prelude.{◌≡◌, refl, Bool, true, false, not, ◌&&◌, arith}
use memmy.Float.{Float, IsOrdered}
use memmy.Types.{EdgeKind, MemoryEdge}
use memmy.Types.Instant.{Time, since}
use memmy.Service.Config.{Config, decay, lambda_for_kind, kind_rank}
use memmy.Service.Weight.Node.Bump.{cap_weight_bounds}
use memmy.Service.Weight.Edge.{promote, reinforce_edge}

module _ (f : Float) (ord : IsOrdered f) (cfg : Config f.F) (now : Time) where
  open f use {F, lt, nought}

  kind_rank-promote :
      (kind old : EdgeKind)
      → kind_rank (promote f cfg now kind old) ≡ max (kind_rank old) (kind_rank kind)
  unfolding promote
  kind_rank-promote kind old = ground arith

  -- With `<` a strict order, reinforcing an edge never lowers its kind: the new rank is the
  -- greater of the two. The weight is not negative and not above a positive cap, the endpoints
  -- stay, and the edge is pruned exactly when its new weight is below `EdgeFloor`.
  pub reinforce_edge_lem :
      (kind : EdgeKind) (delta : F) (co : Bool) (e : MemoryEdge F)
      → (kind_rank (reinforce_edge f cfg now kind delta co e).0.kind
          ≡ max (kind_rank e.kind) (kind_rank kind))
        × (lt (reinforce_edge f cfg now kind delta co e).0.weight nought ≡ false)
        × (not (
              lt nought cfg.weight_cap
              && lt cfg.weight_cap (reinforce_edge f cfg now kind delta co e).0.weight)
            ≡ true)
        × ((reinforce_edge f cfg now kind delta co e).0.from ≡ e.from)
        × ((reinforce_edge f cfg now kind delta co e).0.to ≡ e.to)
        × ((reinforce_edge f cfg now kind delta co e).1
            ≡ lt (reinforce_edge f cfg now kind delta co e).0.weight cfg.edge_floor)
  unfolding reinforce_edge
  reinforce_edge_lem kind delta co e =
      let w =
        f.add (decay f e.weight (lambda_for_kind f cfg kind) (since now e.last_touched)) delta in
      let (low, high) = cap_weight_bounds f ord w cfg.weight_cap in
      (kind_rank-promote kind e.kind, low, high, refl, refl, refl)
