-- ===== src/Service/Association.antt =====
-- The actions of internal/service/decay.go on edges and on nodes: `applyNodeDecayReinforce`,
-- `applyEdgeDecayReinforce` and `readDecayedEdge`.
pub mod Counted
use memmy.Prelude.{String, Bool, Option, none, some, if◌then◌else◌}
use memmy.Types.{EdgeKind, Node, MemoryEdge}
use memmy.Types.Instant.{Time}
use memmy.Storage.Session.{not_found, Result, ok, err, Store, M, pure, now, ◌>>=◌, ◌>>◌}
use memmy.Storage.Graph.Node.{update_node}
use memmy.Storage.Graph.Edge.{put_edge, update_edge, delete_edge, get_edge}
use memmy.Service.Request.{Service}
use memmy.Service.Weight.Node.{reinforce_node}
use memmy.Service.Weight.Edge.{new_edge, reinforce_edge, decay_edge}

module _ (s : Service) where
  open s use {float, database, cfg, commits}

  abbrev pub Edge : Type 0
  Edge = MemoryEdge float.F

  abbrev pub Action : Type 0 → Type 0
  Action A = M database.Db A

  -- What a closure leaves behind its pointer, and what it hands out.
  abbrev pub node_closure : float.F → Time → Node float.F → Result (Node float.F × Node float.F)
  node_closure delta t n = let m = reinforce_node float cfg t delta n in ok (m, m)

  unfoldable pub apply_node_decay_reinforce : String → String → float.F → Action (Node float.F)
  apply_node_decay_reinforce tenant node_id delta = do
    t ← now s.clock
    update_node float database commits tenant node_id (node_closure delta t)

  abbrev pub both : Edge × Bool → Result (Edge × (Edge × Bool))
  both r = ok (r.0, r)

  -- `none` is the zero edge with `false`: pruned, or never there.
  unfoldable pub prune : String → String → String → Edge × Bool → Action (Option Edge)
  prune tenant from to (e, pruned) =
      if pruned
      then delete_edge float database commits tenant from to >> pure none
      else pure (some e)

  unfoldable pub form_edge :
      Time → String → String → String → EdgeKind → float.F → Bool → Action (Option Edge)
  form_edge t tenant from to kind delta co =
      let e = new_edge float cfg t tenant from to kind delta co in
      if float.lt e.weight cfg.edge_floor
      then pure none
      else put_edge float database commits e >> pure (some e)

  unfoldable pub strengthen_edge :
      Time → String → String → String → EdgeKind → float.F → Bool → Action (Option Edge)
  unfolding prune
  strengthen_edge t tenant from to kind delta co = do
    r ←
        update_edge float database commits tenant from to
          (λ e. both (reinforce_edge float cfg t kind delta co e))
    prune tenant from to r

  abbrev pub form_or_strengthen :
      Time
      → String
      → String
      → String
      → EdgeKind
      → float.F
      → Bool
      → Option Edge
      → Action (Option Edge)
  form_or_strengthen t tenant from to kind delta co none = form_edge t tenant from to kind delta co
  form_or_strengthen t tenant from to kind delta co (some e) =
      strengthen_edge t tenant from to kind delta co

  unfoldable pub apply_edge_decay_reinforce :
      String → String → String → EdgeKind → float.F → Bool → Action (Option Edge)
  unfolding form_edge strengthen_edge
  apply_edge_decay_reinforce tenant from to kind delta co = do
    t ← now s.clock
    existing ← get_edge float database commits tenant from to
    form_or_strengthen t tenant from to kind delta co existing

  -- `errors.Is(err, graph.ErrNotFound)` is no error here.
  unfoldable pub after_decay :
      String → String → String → Result (Edge × Bool) → Action (Option Edge)
  unfolding prune
  after_decay tenant from to (ok r) = prune tenant from to r
  after_decay tenant from to (err not_found) = pure none
  after_decay tenant from to (err e) = λ w. (err e, w)

  unfoldable pub read_decayed_edge : String → String → String → Action (Option Edge)
  unfolding after_decay
  read_decayed_edge tenant from to = do
    t ← now s.clock
    λ w.
        let (r, w1) =
          update_edge float database commits tenant from to (λ e. both (decay_edge float cfg t e))
            w in
        after_decay tenant from to r w1
