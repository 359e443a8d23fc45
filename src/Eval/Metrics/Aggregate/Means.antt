-- ===== src/Eval/Metrics/Aggregate/Means.antt =====
-- What a category of `Aggregate` is: the means of the fields of its rows.
use memmy.Prelude.{◌≡◌, refl, List, [], ◌∷◌, length}
use memmy.Prelude.Int.{pos}
use memmy.Float.{Float}
use memmy.Eval.Metrics.Row.{QueryRow}
use memmy.Eval.Metrics.Aggregate.{Category, add_row, add_rows, no_sums, category_of}

module _ (f : Float) where
  open f use {F, add, div, nought, of_int}

  -- A field of the rows, added to `sum` from the first row on.
  abbrev pub sum_from : (QueryRow F → F) → F → List (QueryRow F) → F
  sum_from field sum [] = sum
  sum_from field sum (r ∷ rs) = sum_from field (add sum (field r)) rs

  -- The mean of a field, and zero where there is no row.
  abbrev pub mean_of : (QueryRow F → F) → List (QueryRow F) → F
  mean_of field [] = nought
  mean_of field (r ∷ rs) = div (sum_from field nought (r ∷ rs)) (of_int (pos (length (r ∷ rs))))

  -- The means of some rows.
  abbrev pub means_of : List (QueryRow F) → Category F
  means_of rs = record {
    n = length rs;
    recall_at_1 = mean_of (λ r. r.recall_at_1) rs;
    recall_at_3 = mean_of (λ r. r.recall_at_3) rs;
    recall_at_5 = mean_of (λ r. r.recall_at_5) rs;
    recall_at_8 = mean_of (λ r. r.recall_at_8) rs;
    mrr = mean_of (λ r. r.mrr) rs;
    ndcg = mean_of (λ r. r.ndcg) rs;
    reinforcement_mean = mean_of (λ r. r.reinforcement_sum) rs;
  }

  add_rows_lem :
      (rs : List (QueryRow F)) (c : Category F)
      → add_rows f rs c ≡ record {
        n = c.n;
        recall_at_1 = sum_from (λ r. r.recall_at_1) c.recall_at_1 rs;
        recall_at_3 = sum_from (λ r. r.recall_at_3) c.recall_at_3 rs;
        recall_at_5 = sum_from (λ r. r.recall_at_5) c.recall_at_5 rs;
        recall_at_8 = sum_from (λ r. r.recall_at_8) c.recall_at_8 rs;
        mrr = sum_from (λ r. r.mrr) c.mrr rs;
        ndcg = sum_from (λ r. r.ndcg) c.ndcg rs;
        reinforcement_mean = sum_from (λ r. r.reinforcement_sum) c.reinforcement_mean rs;
      }
  unfolding add_rows
  add_rows_lem [] c = refl
  add_rows_lem (r ∷ rs) c = add_rows_lem rs (add_row f c r)

  pub category_of_lem :
      (r : QueryRow F) (rs : List (QueryRow F)) → category_of f (r ∷ rs) ≡ means_of (r ∷ rs)
  unfolding category_of
  category_of_lem r rs = rw (add_rows_lem (r ∷ rs) (no_sums f (length (r ∷ rs)))) refl
