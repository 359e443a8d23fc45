-- ===== src/Tests/Stores.antt =====
-- internal/storage/neo4j/graph.go: runs and instances on a small graph.
use memmy.Prelude.{true, ℕ, ◌≡◌, refl, [], ◌∷◌, length, arith}
use memmy.Prelude.Int.{ℤ, pos, ◌+ℤ◌}
use memmy.Types.{Node, MemoryEdge, co_retrieval}
use memmy.Storage.Rows.{
  PropertyGraph, edge_kind_rel_type, rel_type_eq, rel_type_edge_kind, encode_node, encode_edge,
  decode_edge, is_node, find_node, set_node_row, merge_node_row, delete_node_row, is_between,
  is_incident, matching, merge_rel_row, set_rel_rows,
}
use memmy.Types.Instant.{to_millis}
use memmy.Storage.Statement
use memmy.Storage.Session.{Result, ok}
use memmy.Storage.Graph.Node.{put_node_tx, update_node_tx, delete_node_tx}
use memmy.Storage.Graph.Edge.{rel_of, put_edge_tx, update_edge_tx, delete_edge_tx}
use memmy.Storage.Counters.{IsCounted}
use memmy.Storage.Counters.Nodes.{put_node_tx-IsCounted, delete_node_tx-IsCounted}
use memmy.Storage.Counters.Edges.{
  put_edge_tx-IsCounted, update_edge_tx-IsCounted, delete_edge_tx-IsCounted,
}
use memmy.Tests.Samples.{milli, memory, memory-IsCypher, node, edge, no_rows}

-- Everything that a transaction runs through.
run : Unit {0}
unfolding put_node_tx update_node_tx delete_node_tx rel_of put_edge_tx update_edge_tx delete_edge_tx
    to_millis edge_kind_rel_type rel_type_eq rel_type_edge_kind encode_node encode_edge decode_edge
    is_node find_node set_node_row merge_node_row delete_node_row is_between is_incident
    merge_rel_row set_rel_rows Statement.merge_node Statement.set_node Statement.detach_delete
    Statement.delete_rels Statement.merge_rel Statement.set_rels Statement.adjust
    Statement.add_counters Statement.both_nodes Statement.has_node ◌+ℤ◌
run = tt

abbrev one_node : PropertyGraph ℤ
one_node = (put_node_tx milli memory (node "a" (pos 5)) no_rows).1

abbrev two_nodes : PropertyGraph ℤ
two_nodes = (put_node_tx milli memory (node "b" (pos 7)) one_node).1

abbrev pub linked : PropertyGraph ℤ
linked = (put_edge_tx milli memory (edge "a" "b") two_nodes).1

abbrev again : PropertyGraph ℤ
again =
    (put_edge_tx milli memory (record (edge "a" "b") { kind = co_retrieval; weight = pos 400 })
      linked).1

-- An edge of another kind takes the place of the first.
one_edge :
    (length again.rels ≡ 1)
    × ((again.counters "t").edge_count ≡ pos 1)
    × ((again.counters "t").sum_edge_weight ≡ pos 400)
    × ((again.counters "t").node_count ≡ pos 2)
    × ((again.counters "t").sum_node_weight ≡ pos 12)
    × ((again.counters "u").node_count ≡ pos 0)
unfolding run
one_edge = (refl, refl, refl, refl, refl, refl)

cleaned :
    (((delete_node_tx milli memory "t" "a" again).1.counters "t").edge_count ≡ pos 0)
    × (((delete_node_tx milli memory "t" "a" again).1.counters "t").node_count ≡ pos 1)
unfolding run
cleaned = (refl, refl)

no_rows-IsCounted : IsCounted no_rows
no_rows-IsCounted = record {
  node_counts = λ t. refl;
  edge_counts = λ t. refl;
  single = λ t a b. omega arith;
}

two_nodes-IsCounted : IsCounted two_nodes
two_nodes-IsCounted =
    put_node_tx-IsCounted milli memory memory-IsCypher (node "b" (pos 7)) one_node (
      put_node_tx-IsCounted milli memory memory-IsCypher (node "a" (pos 5)) no_rows
        no_rows-IsCounted)

put_node_tx-IsCounted_example : IsCounted one_node
put_node_tx-IsCounted_example =
    put_node_tx-IsCounted milli memory memory-IsCypher (node "a" (pos 5)) no_rows no_rows-IsCounted

pub linked-IsCounted : IsCounted linked
unfolding run
linked-IsCounted =
    put_edge_tx-IsCounted milli memory memory-IsCypher (edge "a" "b") two_nodes two_nodes-IsCounted
      refl

put_edge_tx-IsCounted_example : IsCounted linked
unfolding run
put_edge_tx-IsCounted_example =
    put_edge_tx-IsCounted milli memory memory-IsCypher (edge "a" "b") two_nodes two_nodes-IsCounted
      refl

pub linked_both : Statement.both_nodes milli "t" "a" "b" linked ≡ true
unfolding run
linked_both = refl

abbrev heavier : Node ℤ → Result (Node ℤ × ℕ)
heavier n = ok (record n { weight = pos 9 }, 0)

delete_node_tx-IsCounted_example :
    IsCounted (delete_node_tx milli memory "t" "a" linked).1
    × ((delete_node_tx milli memory "t" "a" linked).1.nodes ≡ node "b" (pos 7) ∷ [])
    × ((delete_node_tx milli memory "t" "a" linked).1.rels ≡ [])
unfolding run
delete_node_tx-IsCounted_example =
    delete_node_tx-IsCounted milli memory memory-IsCypher "t" "a" linked linked-IsCounted

abbrev promoted : MemoryEdge ℤ → Result (MemoryEdge ℤ × ℕ)
promoted e = ok (record e { kind = co_retrieval }, 0)

update_edge_tx-IsCounted_example :
    IsCounted (update_edge_tx milli memory "t" "a" "b" promoted linked).1
unfolding run
update_edge_tx-IsCounted_example =
    update_edge_tx-IsCounted milli memory memory-IsCypher "t" "a" "b" promoted linked
      linked-IsCounted refl

delete_edge_tx-IsCounted_example :
    IsCounted (delete_edge_tx milli memory "t" "a" "b" linked).1
    × (matching (is_between "t" "a" "b") (delete_edge_tx milli memory "t" "a" "b" linked).1.rels
        ≡ [])
delete_edge_tx-IsCounted_example =
    delete_edge_tx-IsCounted milli memory memory-IsCypher "t" "a" "b" linked linked-IsCounted
