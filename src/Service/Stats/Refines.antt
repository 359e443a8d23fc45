-- ===== src/Service/Stats/Refines.antt =====
-- `Stats` counts what is stored.
use memmy.Prelude.{ℕ, ◌+◌, ◌≡◌, refl, sym, ap, ◌∙◌, arith, String, true, List, [], ◌∷◌, length}
use memmy.Prelude.Int.{pos, ◌+ℤ◌}
use memmy.Prelude.Dict.{Dict}
use memmy.Storage.Rows.{PropertyGraph, matching}
use memmy.Storage.Database.{IsCypher}
use memmy.Storage.Session.{ok, Store, with_read_session}
use memmy.Storage.Session.Kept.{bind-Keeps, cond-Keeps, same-Keeps, read-Keeps, pure-Keeps}
use memmy.Storage.Graph.Message.{list_tenants}
use memmy.Storage.Scanners.{TenantStats, stats_of, read_counters_tx, tenant_stats}
use memmy.Storage.Counters.{IsCounted, node_in, rel_in}
use memmy.Service.Tenant.{is_nil}
use memmy.Service.Request.{Service, require_valid_tenant}
use memmy.Service.Explicit.{lift}
use memmy.Service.Stats.{
  StatsResult, add_stats, no_stats, sum_stats, stats_result, tenants_of, stats,
}

module _ {F : Type 0} where
  -- How many nodes, and how many edges, the given tenants have.
  abbrev pub nodes_of : List String → PropertyGraph F → ℕ
  nodes_of [] g = 0
  nodes_of (t ∷ ts) g = length (matching (node_in t) g.nodes) + nodes_of ts g

  abbrev pub edges_of : List String → PropertyGraph F → ℕ
  edges_of [] g = 0
  edges_of (t ∷ ts) g = length (matching (rel_in t) g.rels) + edges_of ts g

module _ (s : Service) (cy : IsCypher s.float s.database) where
  open s use {float, database, commits}
  open database use {Db, view}

  -- Two counts so far, `n` and `m`.
  abbrev Sums : TenantStats float.F → ℕ → ℕ → Type 0
  Sums acc n m = (acc.node_count ≡ pos n) × (acc.edge_count ≡ pos m)

  add_stats-counts :
      (t : String) (acc : TenantStats float.F) (n m : ℕ) (db : Db)
      → IsCounted (view db)
      → Sums acc n m
      → Sums
          (add_stats s acc (
            stats_of float database
              (read_counters_tx float database t db)
              (database.count_live t db)))
          (n + length (matching (node_in t) (view db).nodes))
          (m + length (matching (rel_in t) (view db).rels))
  unfolding add_stats read_counters_tx ◌+ℤ◌
  add_stats-counts t acc n m db ic (hn, hm) = (
    rw (hn, cy.match_counters_lem t db, ic.node_counts t) (ground arith),
    rw (hm, cy.match_counters_lem t db, ic.edge_counts t) (ground arith),
  )

  sum_stats-counts :
      (ts : List String) (acc : TenantStats float.F) (n m : ℕ) (w : Store Db)
      → ((k : ℕ) → commits k ≡ true)
      → IsCounted (view w.db)
      → Sums acc n m
      → (out : TenantStats float.F) × (w' : Store Db) × (sum_stats s ts acc w ≡ (ok out, w'))
        × Sums out (n + nodes_of ts (view w.db)) (m + edges_of ts (view w.db))
        × (w'.db ≡ w.db)
  unfolding sum_stats tenant_stats with_read_session
  sum_stats-counts [] acc n m w all ic h =
      (acc, w, refl, (h.0 ∙ ap pos (omega arith), h.1 ∙ ap pos (omega arith)), refl)
  sum_stats-counts (t ∷ ts) acc n m w all ic h =
      let read =
        stats_of float database (read_counters_tx float database t w.db)
          (database.count_live t w.db) in
      let (out, w', run, (hn, hm), kept) =
        sum_stats-counts ts (add_stats s acc read)
          (n + length (matching (node_in t) (view w.db).nodes))
          (m + length (matching (rel_in t) (view w.db).rels))
          (record w { transactions = w.transactions + 1 }) all ic
          (add_stats-counts t acc n m w.db ic h) in
      (
        out,
        w',
        rw (all w.transactions) run,
        (hn ∙ ap pos (omega arith), hm ∙ ap pos (omega arith)),
        kept,
      )

  tenants_of-same : (tuple : Dict String) (w : Store Db) → (tenants_of s tuple w).1.db ≡ w.db
  unfolding list_tenants
  tenants_of-same tuple w =
      (cond-Keeps (λ db. db ≡ w.db) (is_nil tuple)
          (bind-Keeps (λ db. db ≡ w.db) {m = list_tenants float database s.json commits}
            (read-Keeps (λ db. db ≡ w.db) commits _) (λ ts. pure-Keeps (λ db. db ≡ w.db) _))
          (bind-Keeps (λ db. db ≡ w.db) {m = lift s (require_valid_tenant s tuple)}
            (same-Keeps (λ db. db ≡ w.db) (λ w'. refl))
            (λ id. pure-Keeps (λ db. db ≡ w.db) _))).kept
        w refl

  stats_run :
      (tuple : Dict String) (ts : List String) (w w1 w' : Store Db) (out : TenantStats float.F)
      → tenants_of s tuple w ≡ (ok ts, w1)
      → sum_stats s ts (no_stats s) w1 ≡ (ok out, w')
      → stats s tuple w ≡ (ok (stats_result s out), w')
  unfolding stats
  stats_run tuple ts w w1 w' out e run = rw (e, run) refl

  -- Where the counters are equal to the counts and the transactions commit, `Stats` of a tenant, or
  -- of all that are registered, returns as many nodes and edges as are stored for these tenants, and
  -- changes nothing: what it reads from the counters refines a count of the rows.
  pub stats_refines :
      (tuple : Dict String) (ts : List String) (w w1 : Store Db)
      → ((k : ℕ) → commits k ≡ true)
      → IsCounted (view w.db)
      → tenants_of s tuple w ≡ (ok ts, w1)
      → (r : StatsResult s) × (w' : Store Db) × (stats s tuple w ≡ (ok r, w'))
        × (r.node_count ≡ pos (nodes_of ts (view w.db)))
        × (r.memory_edge_count ≡ pos (edges_of ts (view w.db)))
        × (w'.db ≡ w.db)
  unfolding stats_result
  stats_refines tuple ts w w1 all ic e =
      let same : w1.db ≡ w.db = ap (λ v. v.1.db) (sym e) ∙ tenants_of-same tuple w in
      let (out, w', run, (hn, hm), kept) =
        sum_stats-counts ts (no_stats s) 0 0 w1 all (rw same ic) (refl, refl) in
      (
        stats_result s out,
        w',
        stats_run tuple ts w w1 w' out e run,
        hn ∙ rw same (ap pos (omega arith)),
        hm ∙ rw same (ap pos (omega arith)),
        kept ∙ same,
      )
