-- ===== src/Eval/Metrics/Aggregate.antt =====
-- `Aggregate` of internal/eval/metrics/metrics.go.
pub mod Means
pub mod Partition
use memmy.Prelude.{
  ℕ, zero, suc, ◌+◌, ◌≡◌, refl, sym, ap, ◌∙◌, arith, String, str_eq, eq_iff, Bool, true, false,
  Option, none, some, List, [], ◌∷◌, ◌++◌, length, length-append, Bool-cases, inl, inr,
  if◌then◌else◌, append_assoc,
}
use memmy.Prelude.Int.{ℤ, pos}
use memmy.Prelude.Dict.{Dict, get, put}
use memmy.Float.{Float}
use memmy.Types.Instant.{Time}
use memmy.Eval.Metrics.Row.{QueryRow}

pub record Category (F : Type 0) : Type 0 where
  pub n : ℕ
  pub recall_at_1 : F
  pub recall_at_3 : F
  pub recall_at_5 : F
  pub recall_at_8 : F
  pub mrr : F
  pub ndcg : F
  pub reinforcement_mean : F

pub record Summary (F : Type 0) : Type 0 where
  pub run_id : String
  pub dataset_name : String
  pub queries_executed : ℕ
  pub overall_recall_at_1 : F
  pub overall_recall_at_3 : F
  pub overall_recall_at_5 : F
  pub overall_recall_at_8 : F
  pub overall_mrr : F
  pub overall_ndcg : F
  pub overall_reinforcement_mean : F
  pub per_category : Dict (Category F)
  pub generated_at : Time

-- `append(byCat[r.Category], r)`.
abbrev pub appended : {A : Type 0} → Option (List A) → A → List A
appended none r = r ∷ []
appended (some rs) r = rs ++ r ∷ []

module _ (f : Float) where
  open f use {F, add, div, nought, of_int}

  -- The first of the two loops, as far as it fills the map.
  unfoldable pub group_rows :
      List (QueryRow F) → Dict (List (QueryRow F)) → Dict (List (QueryRow F))
  unfolding get put
  group_rows [] m = m
  group_rows (r ∷ rs) m = group_rows rs (put r.category (appended (get r.category m) r) m)

  abbrev pub add_row : Category F → QueryRow F → Category F
  add_row c r = record {
    n = c.n;
    recall_at_1 = add c.recall_at_1 r.recall_at_1;
    recall_at_3 = add c.recall_at_3 r.recall_at_3;
    recall_at_5 = add c.recall_at_5 r.recall_at_5;
    recall_at_8 = add c.recall_at_8 r.recall_at_8;
    mrr = add c.mrr r.mrr;
    ndcg = add c.ndcg r.ndcg;
    reinforcement_mean = add c.reinforcement_mean r.reinforcement_sum;
  }

  -- The sums of the rows, in their order.
  unfoldable pub add_rows : List (QueryRow F) → Category F → Category F
  add_rows [] c = c
  add_rows (r ∷ rs) c = add_rows rs (add_row c r)

  abbrev pub no_sums : ℕ → Category F
  no_sums n = record {
    n = n;
    recall_at_1 = nought;
    recall_at_3 = nought;
    recall_at_5 = nought;
    recall_at_8 = nought;
    mrr = nought;
    ndcg = nought;
    reinforcement_mean = nought;
  }

  abbrev pub means : F → ℕ → Category F → Category F
  means k n c = record {
    n = n;
    recall_at_1 = div c.recall_at_1 k;
    recall_at_3 = div c.recall_at_3 k;
    recall_at_5 = div c.recall_at_5 k;
    recall_at_8 = div c.recall_at_8 k;
    mrr = div c.mrr k;
    ndcg = div c.ndcg k;
    reinforcement_mean = div c.reinforcement_mean k;
  }

  unfoldable pub category_of : List (QueryRow F) → Category F
  unfolding add_rows
  category_of rs = means (of_int (pos (length rs))) (length rs) (add_rows rs (no_sums (length rs)))

  -- `s.PerCategory[cat] = c` for each entry of the map, which has a key once.
  unfoldable pub per_category_of : Dict (List (QueryRow F)) → Dict (Category F)
  unfolding category_of
  per_category_of [] = []
  per_category_of ((cat, rs) ∷ m) = (cat, category_of rs) ∷ per_category_of m

  abbrev pub summary_of : String → String → Time → ℕ → Category F → Dict (Category F) → Summary F
  summary_of run_id dataset_name now n all m = record {
    run_id = run_id;
    dataset_name = dataset_name;
    queries_executed = n;
    overall_recall_at_1 = all.recall_at_1;
    overall_recall_at_3 = all.recall_at_3;
    overall_recall_at_5 = all.recall_at_5;
    overall_recall_at_8 = all.recall_at_8;
    overall_mrr = all.mrr;
    overall_ndcg = all.ndcg;
    overall_reinforcement_mean = all.reinforcement_mean;
    per_category = m;
    generated_at = now;
  }

  unfoldable pub aggregate : String → String → Time → List (QueryRow F) → Summary F
  unfolding group_rows per_category_of category_of
  aggregate run_id dataset_name now [] = summary_of run_id dataset_name now 0 (no_sums 0) []
  aggregate run_id dataset_name now (r ∷ rs) =
      summary_of run_id dataset_name now (length (r ∷ rs)) (category_of (r ∷ rs))
        (per_category_of (group_rows (r ∷ rs) []))
