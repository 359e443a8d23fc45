-- ===== src/Tests/Operations.antt =====
-- internal/service and internal/storage/neo4j: instances of the theorems on whole operations.
use memmy.Prelude.{ℕ, ◌≡◌, refl, String, true, [], ◌∷◌, List}
use memmy.Prelude.Int.{ℤ, pos}
use memmy.Prelude.Dict.{Dict, get}
use memmy.Types.{Message}
use memmy.Types.Instant.{to_millis}
use memmy.Chunker.Text.{trim_space}
use memmy.Storage.Rows.{PropertyGraph}
use memmy.Storage.Session.{Store, ok, err, not_found, ◌>>◌}
use memmy.Storage.Graph.Message.{put_message, get_message, delete_message}
use memmy.Storage.Graph.Message.Round.{get_message-put_message}
use memmy.Storage.Counters.{IsCounted}
use memmy.Service.Tenant.{validate}
use memmy.Service.Request.{is_blank, tenant_id, require_valid_tenant}
use memmy.Service.Mark.{mark}
use memmy.Service.Mark.Counted.{mark-IsCounted}
use memmy.Service.Forget.{forget}
use memmy.Service.Forget.Counted.{forget-IsCounted}
use memmy.Service.Write.{write}
use memmy.Service.Write.Counted.{write-IsCounted}
use memmy.Service.Stats.{StatsResult, stats}
use memmy.Service.Stats.Refines.{nodes_of, edges_of, stats_refines}
use memmy.Service.Recall.Types.{Candidate}
use memmy.Service.Recall.Expand.{expand}
use memmy.Service.Recall.Pipeline.{hops_of, recall}
use memmy.Service.Recall.Reach.{Ended, expand_total}
use memmy.Service.Recall.Hits.{IsRearranging, Answered}
use memmy.Service.Recall.Total.{recall_total}
use memmy.Tests.Samples.{milli, memory, memory-IsCypher, node}
use memmy.Tests.Stores.{linked, linked-IsCounted}
use memmy.Tests.Codec.{codec, codec-IsJson}
use memmy.Tests.Requests.{server, linked_world}

abbrev note : Message
note = record {
  id = "m1";
  tenant_id = "t";
  text = b'h' ∷ b'i' ∷ [];
  metadata = ("k", "v") ∷ ("a", "w") ∷ [];
  created_at = 1234567;
}

get_message-put_message_example :
    ((back : Dict String) × (((put_message milli memory codec (λ k. true) note
            >> get_message milli memory codec (λ k. true) "t" "m1")
          linked_world).0
        ≡ ok (record note { metadata = back; created_at = to_millis 1234567 }))
      × ((k : String) → get k back ≡ get k note.metadata))
    × (((delete_message milli memory codec (λ k. true) "t" "m1"
            >> get_message milli memory codec (λ k. true) "t" "m1")
          linked_world).0
        ≡ err not_found)
unfolding get
get_message-put_message_example =
    get_message-put_message codec codec-IsJson milli memory memory-IsCypher (λ k. true) note
      linked_world refl refl (λ k. refl) (refl, (refl, tt))

abbrev user : List (String × String)
user = ("user", "b") ∷ []

mark-IsCounted_example :
    IsCounted
      (mark server (record { tenant = user; since = 1; strength = pos 500 }) linked_world).1.db
mark-IsCounted_example =
    mark-IsCounted server memory-IsCypher (record { tenant = user; since = 1; strength = pos 500 })
      linked_world linked-IsCounted

forget-IsCounted_example :
    IsCounted
      (forget server (record { tenant = user; message_id = "m"; before = 0 }) linked_world).1.db
forget-IsCounted_example =
    forget-IsCounted server memory-IsCypher (record { tenant = user; message_id = "m"; before = 0 })
      linked_world linked-IsCounted

write-IsCounted_example :
    IsCounted
      (write server
        (record { tenant = user; message = "One. Two."; metadata = [] })
        linked_world).1.db
write-IsCounted_example =
    write-IsCounted server memory-IsCypher
      (record { tenant = user; message = "One. Two."; metadata = [] }) linked_world linked-IsCounted

stats_refines_example :
    (r : StatsResult server) × (w' : Store (PropertyGraph ℤ)) × (stats server user linked_world
      ≡ (ok r, w'))
    × (r.node_count ≡ pos (nodes_of ("t" ∷ []) linked))
    × (r.memory_edge_count ≡ pos (edges_of ("t" ∷ []) linked))
    × (w'.db ≡ linked)
unfolding require_valid_tenant validate tenant_id is_blank trim_space
stats_refines_example =
    stats_refines server memory-IsCypher user ("t" ∷ []) linked_world linked_world (λ k. refl)
      linked-IsCounted refl

abbrev seed : Candidate ℤ
seed = record {
  node_id = "a";
  sim = pos 600;
  node_weight = pos 5;
  combined_score = pos 900;
  node = node "a" (pos 5);
  alive = true;
}

expand_total_example :
    (n : ℕ) × Ended server "t"
      (λ id. id ≡ "a")
      (pos 2)
      (expand server n "t" (pos 2) (seed ∷ []) linked_world).0
expand_total_example =
    expand_total server "t" (λ id. id ≡ "a") (pos 2) (seed ∷ []) linked_world (refl, tt)

server-IsRearranging : IsRearranging server
server-IsRearranging = record { sort_slice-All = λ P less xs h. h; visiting-All = λ P xs h. h }

recall_total_example :
    (n : ℕ) × Answered ℤ
      (pos 8)
      (pos 2)
      (recall server n
        (record { tenant = user; query = "who"; k = pos 8; hops = pos 2; oversample_n = pos 0 })
        linked_world).0
unfolding hops_of
recall_total_example =
    recall_total server server-IsRearranging
      (record { tenant = user; query = "who"; k = pos 8; hops = pos 2; oversample_n = pos 0 })
      linked_world
