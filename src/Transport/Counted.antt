-- ===== src/Transport/Counted.antt =====
-- The counters after any number of calls of the tools.
use memmy.Prelude.{if_both, ℕ, ◌≡◌, refl, String, str_eq, Option, none, some, List, [], ◌∷◌}
use memmy.Prelude.Dict.{Dict}
use memmy.Types.Instant.{Time}
use memmy.Storage.Database.{IsCypher}
use memmy.Storage.Session.{Store}
use memmy.Storage.Session.Kept.{
  Keeps, bind-Keeps, cond-Keeps, same-Keeps, throw-Keeps, pure-Keeps, read-Keeps,
}
use memmy.Storage.Counters.{IsCounted}
use memmy.Storage.Counters.Operations.{Balanced}
use memmy.Service.Request.{require_valid_tenant, is_blank}
use memmy.Service.Explicit.{lift, bump_request, reinforce, demote, apply_explicit_node_bump}
use memmy.Service.Mark.Counted.{bump-Keeps, mark-IsCounted}
use memmy.Service.Write.Counted.{write-IsCounted}
use memmy.Service.Forget.Counted.{forget-IsCounted}
use memmy.Service.Stats.{add_stats, no_stats, sum_stats, tenants_of, stats}
use memmy.Service.Tenant.{is_nil}
use memmy.Storage.Scanners.{TenantStats, tenant_stats}
use memmy.Storage.Graph.Message.{list_tenants}
use memmy.Transport.{
  Adapter, Handler, forget_request, forgetting_parsed, marking, handle_write, handle_forget,
  handle_reinforce, handle_demote, handle_mark, handle_stats,
}
use memmy.Transport.Wire.{WriteOut, ForgetOut, NodeOut, MarkOut}
use memmy.Transport.Call.{
  Call, write_call, recall_call, forget_call, reinforce_call, demote_call, mark_call, stats_call,
  handle,
}

module _ (a : Adapter) (cy : IsCypher a.svc.float a.svc.database) where
  open a use {svc}

  abbrev Db : Type 0
  Db = svc.database.Db

  -- Every tool but `memory.recall`.
  abbrev pub IsCovered : Call a → Type 0
  IsCovered (write_call args) = Unit
  IsCovered (recall_call args) = ⊥
  IsCovered (forget_call args) = Unit
  IsCovered (reinforce_call args) = Unit
  IsCovered (demote_call args) = Unit
  IsCovered (mark_call args) = Unit
  IsCovered (stats_call args) = Unit

  -- The databases that calls lead to, whichever of their transactions commit.
  pub data Calls (start : Db) : Db → Type 0 where
    no_call : Calls start start
    then_call :
        {db next : Db}
        → Calls start db
        → (c : Call a) → IsCovered c
        → (fuel : ℕ) (w : Store Db) → w.db ≡ db
        → next ≡ (handle a fuel c w).1.db
        → Calls start next

  abbrev Held : Db → Type 0
  Held = Balanced svc.float svc.database cy svc.commits

  bump_request-Keeps :
      (missing : String) (delta : svc.float.F) (tuple : Dict String) (id : String)
      → Keeps Held (bump_request svc missing delta tuple id)
  unfolding bump_request
  bump_request-Keeps missing delta tuple id =
      bind-Keeps Held {m = lift svc (require_valid_tenant svc tuple)} (same-Keeps Held (λ w. refl))
        (λ tenant. cond-Keeps Held (is_blank id) (throw-Keeps Held _) (
          bind-Keeps Held {m = apply_explicit_node_bump svc tenant id delta}
            (bump-Keeps svc cy tenant id delta) (λ b. pure-Keeps Held _)))

  sum_stats-Keeps :
      (ts : List String) (acc : TenantStats svc.float.F) → Keeps Held (sum_stats svc ts acc)
  unfolding sum_stats tenant_stats
  sum_stats-Keeps [] acc = pure-Keeps Held acc
  sum_stats-Keeps (t ∷ ts) acc =
      bind-Keeps Held {m = tenant_stats svc.float svc.database svc.commits t}
        (read-Keeps Held svc.commits _) (λ one'. sum_stats-Keeps ts (add_stats svc acc one'))

  stats-Keeps : (tuple : Dict String) → Keeps Held (stats svc tuple)
  unfolding stats list_tenants
  stats-Keeps tuple =
      bind-Keeps Held {m = tenants_of svc tuple}
        (cond-Keeps Held (is_nil tuple)
          (bind-Keeps Held {m = list_tenants svc.float svc.database svc.json svc.commits}
            (read-Keeps Held svc.commits _) (λ ts. pure-Keeps Held _))
          (bind-Keeps Held {m = lift svc (require_valid_tenant svc tuple)}
            (same-Keeps Held (λ w. refl)) (λ id. pure-Keeps Held _)))
        (λ ts.
          bind-Keeps Held {m = sum_stats svc ts (no_stats svc)} (sum_stats-Keeps ts (no_stats svc))
            (λ total. pure-Keeps Held _))

  abbrev Leaves : {A : Type 0} → Store Db → Handler a A → Type 0
  Leaves w h = Held (h w).1.db

  handle-kept :
      (c : Call a)
      → IsCovered c
      → (fuel : ℕ) (w : Store Db) → Held w.db
      → Leaves w (handle a fuel c)
  unfolding handle handle_write handle_forget handle_reinforce handle_demote handle_mark
      handle_stats reinforce demote
  handle-kept (write_call args) k fuel w h =
      if_both {A = Handler a WriteOut} (Leaves w) (str_eq args.message "") (λ b. h)
        (λ b.
          write-IsCounted svc cy
            (record { tenant = args.tenant; message = args.message; metadata = args.metadata }) w h)
  handle-kept (recall_call args) k fuel w h = absurd k
  handle-kept (forget_call args) k fuel w h =
      if_both {A = Handler a ForgetOut} (Leaves w) (str_eq args.before "")
        (λ b. forget-IsCounted svc cy (forget_request a args 0) w h)
        (λ b. by_time (a.parse_rfc3339 args.before))
    where
      by_time : (t : Option Time) → Leaves w (forgetting_parsed a args t)
      by_time none = h
      by_time (some t) = forget-IsCounted svc cy (forget_request a args t) w h
  handle-kept (reinforce_call args) k fuel w h =
      if_both {A = Handler a (NodeOut svc.float.F)} (Leaves w) (str_eq args.node_id "") (λ b. h)
        (λ b. (bump_request-Keeps _ _ args.tenant args.node_id).kept w h)
  handle-kept (demote_call args) k fuel w h =
      if_both {A = Handler a (NodeOut svc.float.F)} (Leaves w) (str_eq args.node_id "") (λ b. h)
        (λ b. (bump_request-Keeps _ _ args.tenant args.node_id).kept w h)
  handle-kept (mark_call args) k fuel w h =
      if_both {A = Handler a MarkOut} (Leaves w) (str_eq args.since "") (λ b. h)
        (λ b. by_time (a.parse_rfc3339 args.since))
    where
      by_time : (t : Option Time) → Leaves w (marking a args t)
      by_time none = h
      by_time (some t) =
          if_both {A = Handler a MarkOut} (Leaves w) (svc.float.le args.strength svc.float.nought)
            (λ b. h)
            (λ b.
              mark-IsCounted svc cy
                (record { tenant = args.tenant; since = t; strength = args.strength }) w h)
  handle-kept (stats_call args) k fuel w h = (stats-Keeps args.tenant).kept w h

  -- Starting from counters that are equal to the counts, any number of calls of the tools but
  -- `memory.recall`, with any arguments and whichever of their transactions commit, leaves the
  -- counters equal to the counts, with at most one edge from one node to another.
  pub Calls-IsCounted :
      (start db : Db)
      → IsCounted (svc.database.view start)
      → Calls start db
      → IsCounted (svc.database.view db)
  Calls-IsCounted start db h no_call = h
  Calls-IsCounted start next h (then_call before c k fuel w here e) =
      rw e (handle-kept c k fuel w (rw here (Calls-IsCounted start _ h before)))
