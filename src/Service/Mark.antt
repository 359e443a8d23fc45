-- ===== src/Service/Mark.antt =====
-- `Mark` of internal/service/reinforce.go. The counts that Go hands out beside an error are dropped.
pub mod Counted
use memmy.Prelude.{ℕ, ◌+◌, String, Bool, ◌||◌, not, List, [], ◌∷◌, if◌then◌else◌, ltb, ◌==◌}
use memmy.Prelude.Int.{ℤ, pos}
use memmy.Prelude.Dict.{Dict}
use memmy.Types.{Node}
use memmy.Types.Instant.{Time, since, positive}
use memmy.Storage.Session.{not_found, message, Result, ok, err, pure, throw, now, ◌>>=◌}
use memmy.Storage.Graph.Node.{get_node}
use memmy.Storage.Scanners.{recent_node_ids}
use memmy.Service.Request.{Service, Action, require_valid_tenant}
use memmy.Service.Explicit.{lift, apply_explicit_node_bump}

pub record MarkResult : Type 0 where
  pub nodes_affected : ℕ
  pub nodes_skipped_refractory : ℕ

module _ (s : Service) where
  open s use {float, database, cfg, commits}
  open float use {F, lt, le, sub, mul, div, nought, one}

  pub record MarkRequest : Type 0 where
    pub tenant : Dict String
    pub since : Time
    pub strength : F

  -- One for the newest nodes, nought for those at the edge of the window.
  unfoldable pub recency : Time → Time → Time → F
  recency now' start created =
      let window = float.seconds (since now' start) in
      let r =
        if lt nought window
        then sub one (div (float.seconds (since now' created)) window)
        else one in
      let r1 = if lt r nought then nought else r in if lt one r1 then one else r1

  unfoldable pub mark_delta : F → Time → Time → Node F → F
  unfolding recency
  mark_delta strength now' start n =
      mul (mul strength cfg.node_delta) (recency now' start n.created_at)

  abbrev pub counted : Bool → MarkResult → MarkResult
  counted skipped out =
      if skipped
      then record out { nodes_skipped_refractory = out.nodes_skipped_refractory + 1 }
      else record out { nodes_affected = out.nodes_affected + 1 }

  -- A node that is gone by now is passed over.
  abbrev pub after_bump : MarkResult → Result (Node F × Bool) → Action s MarkResult
  after_bump out (ok (n, skipped)) = pure (counted skipped out)
  after_bump out (err not_found) = pure out
  after_bump out (err e) = throw e

  abbrev pub after_get :
      String → (Node F → F) → String → MarkResult → Result (Node F) → Action s MarkResult
  after_get tenant delta id out (ok n) w =
      let (r, w1) = apply_explicit_node_bump s tenant id (delta n) w in
      if le (delta n) nought then (ok out, w) else after_bump out r w1
  after_get tenant delta id out (err not_found) w = (ok out, w)
  after_get tenant delta id out (err e) w = (err e, w)

  -- One round of the loop over the identifiers.
  unfoldable pub mark_one : String → (Node F → F) → String → MarkResult → Action s MarkResult
  mark_one tenant delta id out w =
      let (r, w1) = get_node float database commits tenant id w in
      after_get tenant delta id out r w1

  unfoldable pub mark_all : String → (Node F → F) → List String → MarkResult → Action s MarkResult
  unfolding mark_one
  mark_all tenant delta [] out = pure out
  mark_all tenant delta (id ∷ ids) out = mark_one tenant delta id out >>= mark_all tenant delta ids

  abbrev pub max_nodes : ℤ
  max_nodes = if positive cfg.mark_max_nodes then cfg.mark_max_nodes else pos 256

  abbrev pub marked : MarkRequest → String → Time → Action s MarkResult
  marked req tenant now' = do
    ids ← recent_node_ids float database commits tenant req.since "" max_nodes
    mark_all tenant (mark_delta req.strength now' req.since) ids
        (record { nodes_affected = 0; nodes_skipped_refractory = 0 })

  abbrev pub mark_since : MarkRequest → String → Time → Action s MarkResult
  mark_since req tenant now' =
      if req.since == 0 || not (ltb req.since now')
      then throw (message "service: mark since must be a past timestamp")
      else marked req tenant now'

  abbrev pub mark_checked : MarkRequest → String → Action s MarkResult
  mark_checked req tenant =
      if le req.strength nought
      then throw (message "service: mark strength must be > 0")
      else (now s.clock >>= mark_since req tenant)

  unfoldable pub mark : MarkRequest → Action s MarkResult
  unfolding mark_all mark_delta require_valid_tenant
  mark req = lift s (require_valid_tenant s req.tenant) >>= mark_checked req
