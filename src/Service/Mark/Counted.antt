-- ===== src/Service/Mark/Counted.antt =====
-- The counters after `Mark`.
use memmy.Prelude.{
  ◌≡◌, refl, String, Bool, true, false, not, ◌||◌, List, [], ◌∷◌, if◌then◌else◌, ltb, ◌==◌,
}
use memmy.Types.{Node}
use memmy.Types.Instant.{Time}
use memmy.Storage.Database.{IsCypher}
use memmy.Storage.Session.{not_found, backend, message, tenant_invalid, Result, ok, err, Store, now}
use memmy.Storage.Session.Kept.{Keeps, bind-Keeps, cond-Keeps, same-Keeps, throw-Keeps, pure-Keeps}
use memmy.Storage.Graph.Node.{get_node, update_node}
use memmy.Storage.Counters.{IsCounted}
use memmy.Storage.Counters.Operations.{
  Balanced, get_node-Keeps, update_node-Keeps, recent_node_ids-Keeps,
}
use memmy.Service.Request.{Service, require_valid_tenant}
use memmy.Service.Weight.Node.{touch, explicit_bump}
use memmy.Service.Explicit.{lift, bump_closure, apply_explicit_node_bump}
use memmy.Service.Mark.{
  MarkRequest, MarkResult, after_bump, after_get, mark_one, mark_all, mark_delta, max_nodes, marked,
  mark_since, mark_checked, mark,
}

module _ (s : Service) (cy : IsCypher s.float s.database) where
  open s use {float, database, commits}

  abbrev Held : database.Db → Type 0
  Held = Balanced float database cy commits

  bump_closure-keeps :
      (delta : float.F) (t : Time) (n m : Node float.F) (a : Node float.F × Bool)
      → bump_closure s delta t n ≡ ok (m, a)
      → m.tenant_id ≡ n.tenant_id
  unfolding explicit_bump touch
  bump_closure-keeps delta t n m a e = cc e

  pub bump-Keeps :
      (tenant id : String) (delta : float.F)
      → Keeps Held (apply_explicit_node_bump s tenant id delta)
  unfolding apply_explicit_node_bump
  bump-Keeps tenant id delta =
      bind-Keeps Held {m = now s.clock}
        {g = λ t. update_node float database commits tenant id (bump_closure s delta t)}
        (same-Keeps Held (λ w. refl))
        (λ t.
          update_node-Keeps float database cy commits tenant id (bump_closure s delta t)
            (bump_closure-keeps delta t))

  after_bump-Keeps :
      (out : MarkResult) (r : Result (Node float.F × Bool)) → Keeps Held (after_bump s out r)
  after_bump-Keeps out (ok (n, skipped)) = same-Keeps Held (λ w. refl)
  after_bump-Keeps out (err not_found) = pure-Keeps Held out
  after_bump-Keeps out (err backend) = throw-Keeps Held _
  after_bump-Keeps out (err (message m)) = throw-Keeps Held _
  after_bump-Keeps out (err (tenant_invalid e)) = throw-Keeps Held _

  module _ (tenant : String) (delta : Node float.F → float.F) where
    bump_or_skip :
        (id : String) (out : MarkResult) (n : Node float.F) (skip : Bool) (w : Store database.Db)
        → Held w.db
        → Held
            (if skip
              then (ok out, w)
              else after_bump s out
                  (apply_explicit_node_bump s tenant id (delta n) w).0
                  (apply_explicit_node_bump s tenant id (delta n) w).1).1.db
    bump_or_skip id out n true w h = h
    bump_or_skip id out n false w h =
        let (r, w1) = apply_explicit_node_bump s tenant id (delta n) w in
        (after_bump-Keeps out r).kept w1 ((bump-Keeps tenant id (delta n)).kept w h)

    after_get-Keeps :
        (id : String) (out : MarkResult) (r : Result (Node float.F))
        → Keeps Held (after_get s tenant delta id out r)
    after_get-Keeps id out (ok n) = record {
      kept = bump_or_skip id out n (float.le (delta n) float.nought);
    }
    after_get-Keeps id out (err not_found) = pure-Keeps Held out
    after_get-Keeps id out (err backend) = throw-Keeps Held _
    after_get-Keeps id out (err (message m)) = throw-Keeps Held _
    after_get-Keeps id out (err (tenant_invalid e)) = throw-Keeps Held _

    mark_one-Keeps : (id : String) (out : MarkResult) → Keeps Held (mark_one s tenant delta id out)
    unfolding mark_one
    mark_one-Keeps id out = record {
      kept = λ w h.
          let (r, w1) = get_node float database commits tenant id w in
          (after_get-Keeps id out r).kept w1
            ((get_node-Keeps float database cy commits tenant id).kept w h);
    }

    mark_all-Keeps :
        (ids : List String) (out : MarkResult) → Keeps Held (mark_all s tenant delta ids out)
    unfolding mark_all
    mark_all-Keeps [] out = same-Keeps Held (λ w. refl)
    mark_all-Keeps (id ∷ ids) out =
        bind-Keeps Held {m = mark_one s tenant delta id out} {g = mark_all s tenant delta ids}
          (mark_one-Keeps id out) (λ out'. mark_all-Keeps ids out')

  marked-Keeps :
      (req : MarkRequest s) (tenant : String) (t : Time) → Keeps Held (marked s req tenant t)
  marked-Keeps req tenant t =
      bind-Keeps Held
        (recent_node_ids-Keeps float database cy commits tenant req.since "" (max_nodes s))
        (λ ids. mark_all-Keeps tenant (mark_delta s req.strength t req.since) ids _)

  mark_since-Keeps :
      (req : MarkRequest s) (tenant : String) (t : Time) → Keeps Held (mark_since s req tenant t)
  mark_since-Keeps req tenant t =
      cond-Keeps Held (req.since == 0 || not (ltb req.since t)) (throw-Keeps Held _)
        (marked-Keeps req tenant t)

  mark_checked-Keeps :
      (req : MarkRequest s) (tenant : String) → Keeps Held (mark_checked s req tenant)
  mark_checked-Keeps req tenant =
      cond-Keeps Held (float.le req.strength float.nought) (throw-Keeps Held _) (
        bind-Keeps Held {m = now s.clock} {g = mark_since s req tenant}
          (same-Keeps Held (λ w. refl)) (mark_since-Keeps req tenant))

  mark-Keeps : (req : MarkRequest s) → Keeps Held (mark s req)
  unfolding mark
  mark-Keeps req =
      bind-Keeps Held {m = lift s (require_valid_tenant s req.tenant)} {g = mark_checked s req}
        (same-Keeps Held (λ w. refl)) (mark_checked-Keeps req)

  -- `Mark` keeps the counters equal to the counts, whatever the request, whichever nodes are gone
  -- or in their refractory window, and whichever of its transactions the driver commits.
  pub mark-IsCounted :
      (req : MarkRequest s) (w : Store database.Db)
      → IsCounted (database.view w.db)
      → IsCounted (database.view (mark s req w).1.db)
  mark-IsCounted req w h = (mark-Keeps req).kept w h
