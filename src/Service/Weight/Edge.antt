-- ===== src/Service/Weight/Edge.antt =====
-- The edge that `applyEdgeDecayReinforce` of internal/service/decay.go creates, and the closures
-- that it and `readDecayedEdge` hand to `UpdateEdge`.
pub mod Rank
use memmy.Prelude.{ℕ, String, Bool, true, false, ◌&&◌, if◌then◌else◌, ltb}
use memmy.Float.{Float}
use memmy.Types.{EdgeKind, structural, co_retrieval, co_traversal, unknown, MemoryEdge, increment}
use memmy.Types.Instant.{Time, since}
use memmy.Service.Config.{Config, decay, cap_weight, lambda_for_kind, kind_rank}

abbrev pub is_co_retrieval : EdgeKind → Bool
is_co_retrieval co_retrieval = true
is_co_retrieval _ = false

abbrev pub is_co_traversal : EdgeKind → Bool
is_co_traversal co_traversal = true
is_co_traversal _ = false

module _ (f : Float) (cfg : Config f.F) (now : Time) where
  open f use {F, lt, add}

  unfoldable pub new_edge : String → String → String → EdgeKind → F → Bool → MemoryEdge F
  new_edge tenant from to kind delta co = record {
    from = from;
    to = to;
    tenant_id = tenant;
    kind = kind;
    weight = cap_weight f delta cfg.weight_cap;
    last_touched = now;
    created_at = now;
    access_count = if co && is_co_retrieval kind then 1 else 0;
    traverse_count = if co && is_co_traversal kind then 1 else 0;
  }

  -- `kindRank(kind) > kindRank(e.Kind)`.
  unfoldable pub promote : EdgeKind → EdgeKind → EdgeKind
  promote kind old = if ltb (kind_rank old) (kind_rank kind) then kind else old

  -- The edge after the update, and `pruned`.
  unfoldable pub reinforce_edge : EdgeKind → F → Bool → MemoryEdge F → MemoryEdge F × Bool
  reinforce_edge kind delta co e =
      let w =
        cap_weight f
          (add (decay f e.weight (lambda_for_kind f cfg kind) (since now e.last_touched)) delta)
          cfg.weight_cap in
      (
        record e {
          weight = w;
          last_touched = now;
          kind = promote kind e.kind;
          access_count =
              if co && is_co_retrieval kind then increment e.access_count else e.access_count;
          traverse_count =
              if co && is_co_traversal kind then increment e.traverse_count else e.traverse_count;
        },
        lt w cfg.edge_floor,
      )

  unfoldable pub decay_edge : MemoryEdge F → MemoryEdge F × Bool
  decay_edge e =
      let w = decay f e.weight (lambda_for_kind f cfg e.kind) (since now e.last_touched) in
      (record e { weight = w; last_touched = now }, lt w cfg.edge_floor)
