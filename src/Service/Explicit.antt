-- ===== src/Service/Explicit.antt =====
-- internal/service/reinforce.go
pub mod Single
use memmy.Prelude.{
  ℕ, ◌+◌, String, Bool, true, false, not, Option, none, some, List, [], ◌∷◌, if◌then◌else◌, ltb,
  leb, ◌==◌,
}
use memmy.Prelude.Int.{ℤ, pos, int_ltb}
use memmy.Prelude.Dict.{Dict}
use memmy.Float.{Float}
use memmy.Types.{Node}
use memmy.Types.Instant.{Time, since, positive}
use memmy.Storage.Session.{
  Error, not_found, message, Result, ok, err, Store, M, pure, throw, now, ◌>>=◌,
}
use memmy.Storage.Graph.Node.{update_node, get_node}
use memmy.Service.Request.{Service, is_blank, require_valid_tenant}
use memmy.Service.Weight.Node.{explicit_bump}

module _ (s : Service) where
  open s use {float, database, cfg}

  abbrev pub Value : Type 0
  Value = float.F

  abbrev pub Action : Type 0 → Type 0
  Action A = M (database.Db) A

  -- `ReinforceResult` and `DemoteResult`.
  pub record BumpResult : Type 0 where
    pub node_id : String
    pub new_weight : Value
    pub skipped_refractory : Bool

  abbrev pub lift : {A : Type 0} → Result A → Action A
  lift r w = (r, w)

  -- The closure of `applyExplicitNodeBump`: the node, twice (what is written and what is handed
  -- out), and `skipped`.
  abbrev pub bump_closure : Value → Time → Node Value → Result (Node Value × (Node Value × Bool))
  bump_closure delta t n = let b = explicit_bump float cfg t delta n in ok (b.0, b)

  unfoldable pub apply_explicit_node_bump : String → String → Value → Action (Node Value × Bool)
  apply_explicit_node_bump tenant node_id delta = do
    t ← now s.clock
    update_node float database s.commits tenant node_id (bump_closure delta t)

  abbrev pub bump_result : Node Value × Bool → BumpResult
  bump_result (n, skipped) = record {
    node_id = n.id;
    new_weight = n.weight;
    skipped_refractory = skipped;
  }

  -- The common body of `Reinforce` and `Demote`, which differ in the sign of the delta and in the
  -- text of an error.
  unfoldable pub bump_request : String → Value → Dict String → String → Action BumpResult
  bump_request missing delta tuple node_id = do
    tenant ← lift (require_valid_tenant s tuple)
    if is_blank node_id
        then throw (message missing)
        else do b ← apply_explicit_node_bump tenant node_id delta; pure (bump_result b)

  unfoldable pub reinforce : Dict String → String → Action BumpResult
  unfolding bump_request
  reinforce = bump_request "service: reinforce requires NodeID" cfg.node_delta

  unfoldable pub demote : Dict String → String → Action BumpResult
  unfolding bump_request
  demote = bump_request "service: demote requires NodeID" (float.neg cfg.node_delta)
