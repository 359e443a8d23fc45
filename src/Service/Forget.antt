-- ===== src/Service/Forget.antt =====
-- internal/service/forget.go. The counts that Go hands out beside an error are dropped.
pub mod Counted
use memmy.Prelude.{
  ℕ, ◌+◌, String, str_eq, Bool, true, false, not, ◌&&◌, ◌||◌, List, [], ◌∷◌, if◌then◌else◌, ◌==◌,
}
use memmy.Prelude.Dict.{Dict}
use memmy.Types.{MemoryEdge, Node}
use memmy.Types.Canonical.{text_leb}
use memmy.Types.Instant.{Time}
use memmy.Storage.Session.{not_found, message, Result, ok, err, pure, throw, ◌>>=◌, ◌>>◌}
use memmy.Storage.Graph.Node.{delete_node}
use memmy.Storage.Graph.Edge.{delete_edge}
use memmy.Storage.Graph.Message.{delete_message}
use memmy.Storage.Graph.Neighbor.{neighbors, inbound_neighbors}
use memmy.Storage.Scanners.{nodes_for_message, message_ids_before}
use memmy.Storage.Vector.{delete_vector}
use memmy.Service.Request.{Service, Action, codes, is_blank, require_valid_tenant}
use memmy.Service.Explicit.{lift}

pub record ForgetRequest : Type 0 where
  pub tenant : Dict String
  pub message_id : String
  pub before : Time

pub record ForgetResult : Type 0 where
  pub deleted_nodes : ℕ
  pub deleted_edges : ℕ
  pub deleted_vectors : ℕ

-- `a < b`, and the pair without its order.
unfoldable pub ordered_pair : String → String → String × String
unfolding text_leb
ordered_pair a b = if not (text_leb (codes b) (codes a)) then (a, b) else (b, a)

-- `seen[key]`.
unfoldable pub has_pair : String × String → List (String × String) → Bool
has_pair key [] = false
has_pair key (p ∷ ps) = str_eq p.0 key.0 && str_eq p.1 key.1 || has_pair key ps

module _ (s : Service) where
  open s use {float, database, commits}

  abbrev pub Edge : Type 0
  Edge = MemoryEdge float.F

  -- The keys seen so far, and how many edges were deleted.
  abbrev pub Purged : Type 0
  Purged = List (String × String) × ℕ

  abbrev pub after_delete : Purged → Result (Unit {0}) → Action s Purged
  after_delete p (ok u) = pure p
  after_delete p (err not_found) = pure p
  after_delete p (err e) = throw e

  -- The closure `purge`.
  unfoldable pub purge : String → Edge → Purged → Action s Purged
  unfolding ordered_pair has_pair
  purge tenant e (seen, deleted) w =
      let key = ordered_pair e.from e.to in
      let (r, w1) = delete_edge float database commits tenant e.from e.to w in
      if has_pair key seen
      then (ok (seen, deleted), w)
      else after_delete (key ∷ seen, deleted + 1) r w1

  unfoldable pub purge_all : String → List Edge → Purged → Action s Purged
  unfolding purge
  purge_all tenant [] p = pure p
  purge_all tenant (e ∷ es) p = purge tenant e p >>= purge_all tenant es

  abbrev pub purge_found : String → List Edge → List Edge → Action s ℕ
  purge_found tenant out into = do
    p ← purge_all tenant out ([], 0)
    q ← purge_all tenant into p
    pure q.1

  unfoldable pub purge_node_edges : String → String → Action s ℕ
  unfolding purge_all
  purge_node_edges tenant node_id = do
    out ← neighbors float database commits tenant node_id
    into ← inbound_neighbors float database commits tenant node_id
    purge_found tenant out into

  -- The body of the loop over the nodes of a message.
  unfoldable pub forget_node : String → String → ForgetResult → Action s ForgetResult
  unfolding purge_node_edges
  forget_node tenant id out = do
    edges ← purge_node_edges tenant id
    delete_vector float database s.dim s.flat_scan_threshold commits tenant id
    delete_node float database commits tenant id
    pure (record {
      deleted_nodes = out.deleted_nodes + 1;
      deleted_edges = out.deleted_edges + edges;
      deleted_vectors = out.deleted_vectors + 1;
    })

  unfoldable pub forget_nodes : String → List (Node float.F) → ForgetResult → Action s ForgetResult
  unfolding forget_node
  forget_nodes tenant [] out = pure out
  forget_nodes tenant (n ∷ ns) out = forget_node tenant n.id out >>= forget_nodes tenant ns

  unfoldable pub forget_message : String → String → ForgetResult → Action s ForgetResult
  unfolding forget_nodes
  forget_message tenant msg_id out = do
    nodes ← nodes_for_message float database commits tenant msg_id
    out1 ← forget_nodes tenant nodes out
    delete_message float database s.json commits tenant msg_id
    pure out1

  unfoldable pub forget_messages : String → List String → ForgetResult → Action s ForgetResult
  unfolding forget_message
  forget_messages tenant [] out = pure out
  forget_messages tenant (m ∷ ms) out = forget_message tenant m out >>= forget_messages tenant ms

  abbrev pub message_ids : ForgetRequest → String → Action s (List String)
  message_ids req tenant =
      if not (str_eq req.message_id "")
      then pure (req.message_id ∷ [])
      else message_ids_before float database commits tenant req.before

  abbrev pub forget_checked : ForgetRequest → String → Action s ForgetResult
  forget_checked req tenant =
      if is_blank req.message_id && req.before == 0
      then throw (message "service: forget requires MessageID or Before")
      else (message_ids req tenant >>= λ ids.
          forget_messages tenant ids
            (record { deleted_nodes = 0; deleted_edges = 0; deleted_vectors = 0 }))

  unfoldable pub forget : ForgetRequest → Action s ForgetResult
  unfolding forget_messages require_valid_tenant
  forget req = lift s (require_valid_tenant s req.tenant) >>= forget_checked req
