-- ===== src/Tests/Requests.antt =====
-- internal/service/reinforce.go and decay.go: instances on a small graph.
use memmy.Prelude.{◌≡◌, refl, Bool, true, false, none, some, [], ◌∷◌, map, ◌==◌, if◌then◌else◌}
use memmy.Prelude.Int.{ℤ, pos, int_ltb}
use memmy.Types.{Node, co_traversal}
use memmy.Types.Instant.{since}
use memmy.Storage.Rows.{is_node, find_node, set_node_row, encode_node, PropertyGraph}
use memmy.Storage.Session.{Store, not_found, ok, with_write_session}
use memmy.Storage.Graph.Node.{update_node, update_node_tx}
use memmy.Chunker.Text.{trim_space}
use memmy.Service.Tenant.{validate}
use memmy.Service.Request.{Service, is_blank, tenant_id, require_valid_tenant}
use memmy.Service.Weight.Node.{explicit_bump}
use memmy.Service.Explicit.{bump_request, apply_explicit_node_bump}
use memmy.Service.Explicit.Single.{bump_request_lem, bump_request-err}
use memmy.Tests.Samples.{milli, milli-IsOrdered, memory, memory-IsCypher, node, no_rows}
use memmy.Tests.Stores.{linked, linked-IsCounted, linked_both}
use memmy.Tests.Weights.{cfg}
use memmy.Storage.Counters.{IsCounted}
use memmy.Service.Association.{apply_edge_decay_reinforce, read_decayed_edge}
use memmy.Service.Association.Counted.{
  apply_edge_decay_reinforce-IsCounted, read_decayed_edge-IsCounted,
}

abbrev pub server : Service
server = record {
  float = milli;
  database = memory;
  commits = λ k. true;
  clock = λ k. 60000000000;
  cfg = cfg;
  schema = none;
  tenant_hash = λ c. "t";
  json = record { marshal = λ m. b'{' ∷ []; unmarshal = λ raw. [] };
  embed = λ task texts. ok (map (λ t. pos 600 ∷ pos 800 ∷ []) texts);
  ulid = λ t k. if k == 2 then "n2" else if k == 3 then "n3" else "n4";
  sort_slice = λ less xs. xs;
  visiting = λ xs. xs;
  dim = 2;
  flat_scan_threshold = pos 5000;
}

abbrev stored : Node ℤ
stored = node "a" (pos 1000)

abbrev pub world : Store (PropertyGraph ℤ)
world = record { db = record no_rows { nodes = stored ∷ [] }; transactions = 0; readings = 0 }

bump_request_lem_example :
    (w' : Store (PropertyGraph ℤ)) × (b : Node ℤ × Bool) × (b
      ≡ explicit_bump milli cfg 60000000000 (pos 1000) stored)
    × (bump_request server "" (pos 1000) (("user", "b") ∷ []) "a" world ≡ (
      ok (record {
        node_id = "a";
        new_weight = b.0.weight;
        skipped_refractory = int_ltb (since 60000000000 0) (pos 60000000000);
      }),
      w',
    ))
    × (w'.db.nodes ≡ set_node_row "t" "a" (encode_node b.0) (stored ∷ []))
    × (find_node "t" "a" w'.db.nodes ≡ some (encode_node b.0))
    × (w'.db.rels ≡ [])
    × (int_ltb b.0.weight (pos 10) ≡ false)
    × (int_ltb (pos 100000) b.0.weight ≡ false)
unfolding require_valid_tenant validate tenant_id is_blank trim_space find_node is_node
bump_request_lem_example =
    bump_request_lem server memory-IsCypher "" (pos 1000) (("user", "b") ∷ []) "a" world "t" stored
      refl refl refl refl milli-IsOrdered refl refl

bump_request-err_example : (record world { transactions = 1; readings = 1 }).db ≡ world.db
unfolding bump_request require_valid_tenant validate tenant_id is_blank trim_space find_node is_node
    apply_explicit_node_bump update_node update_node_tx with_write_session
bump_request-err_example =
    bump_request-err server memory-IsCypher "" (pos 1000) (("user", "b") ∷ []) "z" world
      (record world { transactions = 1; readings = 1 }) not_found refl

abbrev pub linked_world : Store (PropertyGraph ℤ)
linked_world = record world { db = linked }

apply_edge_decay_reinforce-IsCounted_example :
    IsCounted
      (apply_edge_decay_reinforce server "t" "a" "b" co_traversal (pos 750) true linked_world).1.db
apply_edge_decay_reinforce-IsCounted_example =
    apply_edge_decay_reinforce-IsCounted server memory-IsCypher "t" "a" "b" co_traversal (pos 750)
      true linked_world linked-IsCounted linked_both

read_decayed_edge-IsCounted_example :
    IsCounted (read_decayed_edge server "t" "a" "b" linked_world).1.db
read_decayed_edge-IsCounted_example =
    read_decayed_edge-IsCounted server memory-IsCypher "t" "a" "b" linked_world linked-IsCounted
      linked_both
