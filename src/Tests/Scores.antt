-- ===== src/Tests/Scores.antt =====
-- internal/eval/metrics/metrics.go: runs and instances.
use memmy.Prelude.{
  String, str_eq, some, none, List, ◌≡◌, refl, true, false, [], ◌∷◌, ◌++◌, if◌then◌else◌, ltb,
}
use memmy.Prelude.Int.{ℤ, pos}
use memmy.Eval.Metrics.{gold_within, recall_at, mrr_from, mrr, dcg_loop, idcg_loop, ndcg}
use memmy.Eval.Metrics.Ranking.{first_gold_lem, gain, over_best, ndcg_lem}
use mathlib.Core.Option as Option
use memmy.Prelude.Dict.{get}
use memmy.Eval.Metrics.Aggregate.{aggregate}
use memmy.Eval.Metrics.Aggregate.Partition.{rows_of, means_if_any, rows_counted, aggregate_lem}
use memmy.Eval.Metrics.Aggregate.Means.{mean_of}
use memmy.Eval.Metrics.Row.{
  QueryRow, Hit, NodeState, QueryResult, is_gold, gold_flag, pre_weight, deltas, compute,
}
use memmy.Tests.Samples.{milli}

-- A gold hit in the third place.
scores :
    (recall_at milli (false ∷ false ∷ true ∷ []) 1 true ≡ pos 0)
    × (recall_at milli (false ∷ false ∷ true ∷ []) 3 true ≡ pos 1000)
    × (recall_at milli (false ∷ false ∷ true ∷ []) 3 false ≡ pos 0)
    × (mrr milli (false ∷ false ∷ true ∷ []) ≡ pos 333)
    × (ndcg milli (true ∷ false ∷ []) ≡ pos 1000)
unfolding recall_at gold_within mrr mrr_from ndcg dcg_loop idcg_loop memmy.Prelude.Int.◌+ℤ◌
scores = (refl, refl, refl, refl, refl)

first_gold_lem_example :
    (recall_at milli (false ∷ false ∷ true ∷ true ∷ []) 5 true
      ≡ (if ltb 2 5 then pos 1000 else pos 0))
    × (mrr milli (false ∷ false ∷ true ∷ true ∷ []) ≡ milli.div (pos 1000) (milli.of_int (pos 3)))
first_gold_lem_example = first_gold_lem milli 2 5 (true ∷ [])

ndcg_lem_example :
    ndcg milli (false ∷ true ∷ true ∷ [])
    ≡ over_best milli (gain milli (pos 0) (1 ∷ 2 ∷ [])) (gain milli (pos 0) (0 ∷ 1 ∷ []))
ndcg_lem_example = ndcg_lem milli (false ∷ true ∷ true ∷ [])

abbrev hit : String → Hit ℤ
hit id = record {
  rank = 1;
  node_id = id;
  text = [];
  score = pos 800;
  sim = pos 900;
  node_weight = pos 1000;
  graph_mult = pos 1000;
  depth = 0;
  source_msg_id = "m";
  turn_uuid = "";
}

abbrev state : String → ℤ → NodeState ℤ
state id weight = record {
  node_id = id;
  tenant_id = "t";
  weight = weight;
  last_touched = 0;
  access_count = 0;
  edge_count_out = 0;
  edge_count_in = 0;
}

abbrev result : List String → QueryResult ℤ
result gold = record {
  query = record {
    id = "q";
    category = "c";
    text = [];
    gold_turn_uuids = gold;
    notes = [];
    generated_at = 0;
  };
  started_at = 0;
  finished_at = 0;
  hits = hit "a" ∷ hit "b" ∷ [];
  pre_state = state "a" (pos 1000) ∷ state "b" (pos 500) ∷ [];
  post_state = state "a" (pos 1400) ∷ state "b" (pos 600) ∷ state "c" (pos 1) ∷ [];
  error = "";
}

row :
    ((compute milli
        (result ("turn" ∷ []))
        (some (λ id. if str_eq id "b" then "turn" else ""))).hit_gold_flags
      ≡ false ∷ true ∷ [])
    × ((compute milli (result []) none).reinforcement_sum ≡ pos 500)
    × ((compute milli (result []) none).reinforcement_max ≡ pos 400)
unfolding compute gold_flag is_gold deltas pre_weight memmy.Prelude.Int.◌+ℤ◌
row = (refl, refl, refl)

abbrev row_of : String → ℤ → QueryRow ℤ
row_of category recall = record {
  query_id = "q";
  category = category;
  text = [];
  gold_turn_uuids = [];
  hit_node_ids = [];
  hit_gold_flags = [];
  hit_scores = [];
  recall_at_1 = recall;
  recall_at_3 = recall;
  recall_at_5 = recall;
  recall_at_8 = recall;
  mrr = recall;
  ndcg = recall;
  reinforcement_sum = pos 0;
  reinforcement_max = pos 0;
  started_at_unix_ms = pos 0;
  finished_at_unix_ms = pos 0;
  error = "";
}

abbrev rows : List (QueryRow ℤ)
rows = row_of "a" (pos 1000) ∷ row_of "b" (pos 0) ∷ row_of "a" (pos 0) ∷ []

category_means :
    (Option.map (λ c. c.recall_at_1) (get "a" (aggregate milli "r" "d" 0 rows).per_category)
      ≡ some (pos 500))
unfolding aggregate get memmy.Prelude.Int.◌+ℤ◌
category_means = refl

aggregate_lem_example :
    let s = aggregate milli "r" "d" 0 rows in
    ((c : String) → get c s.per_category ≡ means_if_any milli (rows_of milli c rows))
    × (rows_counted milli s.per_category ≡ s.queries_executed)
    × (s.queries_executed ≡ 3)
    × (s.overall_recall_at_1 ≡ mean_of milli (λ r. r.recall_at_1) rows)
    × (s.overall_recall_at_3 ≡ mean_of milli (λ r. r.recall_at_3) rows)
    × (s.overall_recall_at_5 ≡ mean_of milli (λ r. r.recall_at_5) rows)
    × (s.overall_recall_at_8 ≡ mean_of milli (λ r. r.recall_at_8) rows)
    × (s.overall_mrr ≡ mean_of milli (λ r. r.mrr) rows)
    × (s.overall_ndcg ≡ mean_of milli (λ r. r.ndcg) rows)
    × (s.overall_reinforcement_mean ≡ mean_of milli (λ r. r.reinforcement_sum) rows)
aggregate_lem_example = aggregate_lem milli "r" "d" 0 rows
