-- ===== src/Eval/Metrics/Aggregate/Partition.antt =====
-- The categories of a summary partition the rows.
use memmy.Prelude.{
  ℕ, suc, ◌+◌, ◌≡◌, refl, sym, ap, ◌∙◌, arith, String, str_eq, eq_iff, Option, none, some, List, [],
  ◌∷◌, ◌++◌, length, length-append, Bool-cases, inl, inr, if◌then◌else◌, append_assoc, append_nil,
}
use memmy.Prelude.Dict.{Dict, get, put}
use memmy.Float.{Float}
use memmy.Types.Instant.{Time}
use memmy.Eval.Metrics.Row.{QueryRow}
use memmy.Eval.Metrics.Aggregate.Means.{mean_of, means_of, category_of_lem}
use memmy.Eval.Metrics.Aggregate.{
  Category, appended, group_rows, category_of, per_category_of, aggregate,
}

module _ {V : Type 0} where
  pub get-put :
      (j k : String) (v : V) (m : Dict V)
      → get j (put k v m) ≡ (if str_eq k j then some v else get j m)
  unfolding get put
  get-put j k v [] = refl
  get-put j k v ((i, w) ∷ m) = elim (Bool-cases (str_eq i k)) [
    | inl a ↦ ground (arith, a, eq_iff i j, eq_iff k j, eq_iff i k)
    | inr a ↦ ground (arith, a, eq_iff i j, eq_iff k j, eq_iff i k, get-put j k v m)
  ]

module _ (f : Float) where
  open f use {F}

  Rows : Type 0
  Rows = List (QueryRow F)

  -- The rows of a category, in their order.
  unfoldable pub rows_of : String → List (QueryRow F) → List (QueryRow F)
  rows_of c [] = []
  rows_of c (r ∷ rs) = let rest = rows_of c rs in if str_eq r.category c then r ∷ rest else rest

  -- What was there, with more rows after it.
  abbrev and_more : {A : Type 0} → Option (List A) → List A → Option (List A)
  and_more none [] = none
  and_more none (r ∷ rs) = some (r ∷ rs)
  and_more (some xs) rs = some (xs ++ rs)

  and_more-append :
      {A : Type 0} (o : Option (List A)) (r : A) (rs : List A)
      → and_more (some (appended o r)) rs ≡ and_more o (r ∷ rs)
  and_more-append none r rs = refl
  and_more-append (some xs) r rs = ap (λ ys. some ys) (append_assoc xs (r ∷ []) rs)

  and_more-nil : {A : Type 0} (o : Option (List A)) → and_more o [] ≡ o
  and_more-nil none = refl
  and_more-nil (some xs) = ap (λ ys. some ys) (append_nil xs)

  get-group_rows :
      (c : String) (rs : List (QueryRow F)) (m : Dict (List (QueryRow F)))
      → get c (group_rows f rs m) ≡ and_more (get c m) (rows_of c rs)
  unfolding group_rows rows_of
  get-group_rows c [] m = sym (and_more-nil (get c m))
  get-group_rows c (r ∷ rs) m =
      get-group_rows c rs (put r.category (appended (get r.category m) r) m)
      ∙ elim (Bool-cases (str_eq r.category c)) [
        | inl e ↦
            rw (get-put c r.category (appended (get r.category m) r) m, e)
              (ap (λ k. and_more (some (appended (get k m) r)) (rows_of c rs))
                  ((eq_iff r.category c).0 e)
                ∙ and_more-append (get c m) r (rows_of c rs))
        | inr e ↦ rw (get-put c r.category (appended (get r.category m) r) m, e) refl
      ]

  -- The means of the rows, if there are any.
  abbrev pub means_if_any : List (QueryRow F) → Option (Category F)
  means_if_any [] = none
  means_if_any (r ∷ rs) = some (means_of f (r ∷ rs))

  categorised : Option (List (QueryRow F)) → Option (Category F)
  categorised none = none
  categorised (some rs) = some (category_of f rs)

  get-per_category_of :
      (c : String) (m : Dict (List (QueryRow F)))
      → get c (per_category_of f m) ≡ categorised (get c m)
  unfolding per_category_of categorised get
  get-per_category_of c [] = refl
  get-per_category_of c ((k, rs) ∷ m) = elim (Bool-cases (str_eq k c)) [
    | inl e ↦ rw e refl
    | inr e ↦ rw e (get-per_category_of c m)
  ]

  per_category_lem :
      (c : String) (rs : List (QueryRow F))
      → get c (per_category_of f (group_rows f rs [])) ≡ means_if_any (rows_of c rs)
  unfolding categorised get
  per_category_lem c rs =
      get-per_category_of c (group_rows f rs []) ∙ rw (get-group_rows c rs []) (any (rows_of c rs))
    where
      any : (xs : List (QueryRow F)) → categorised (and_more none xs) ≡ means_if_any xs
      any [] = refl
      any (x ∷ xs) = ap (λ k. some k) (category_of_lem f x xs)

  -- How many rows the categories have together.
  unfoldable pub rows_counted : Dict (Category F) → ℕ
  rows_counted [] = 0
  rows_counted ((c, k) ∷ m) = k.n + rows_counted m

  length_or_nought : Option (List (QueryRow F)) → ℕ
  length_or_nought none = 0
  length_or_nought (some xs) = length xs

  rows_counted-put :
      (xs : List (QueryRow F)) (k : String) (m : Dict (List (QueryRow F)))
      → rows_counted (per_category_of f (put k xs m)) + length_or_nought (get k m)
        ≡ rows_counted (per_category_of f m) + length xs
  unfolding rows_counted per_category_of get put category_of length_or_nought
  rows_counted-put xs k [] = omega arith
  rows_counted-put xs k ((j, rs) ∷ m) = elim (Bool-cases (str_eq j k)) [
    | inl e ↦ rw e (omega arith)
    | inr e ↦ rw e (omega (arith, rows_counted-put xs k m))
  ]

  length-appended :
      (o : Option (List (QueryRow F))) (r : QueryRow F)
      → length (appended o r) ≡ suc (length_or_nought o)
  unfolding length_or_nought
  length-appended none r = refl
  length-appended (some xs) r = length-append xs (r ∷ []) ∙ omega arith

  rows_counted-group_rows :
      (rs : List (QueryRow F)) (m : Dict (List (QueryRow F)))
      → rows_counted (per_category_of f (group_rows f rs m))
        ≡ length rs + rows_counted (per_category_of f m)
  unfolding group_rows
  rows_counted-group_rows [] m = omega arith
  rows_counted-group_rows (r ∷ rs) m =
      rows_counted-group_rows rs (put r.category (appended (get r.category m) r) m)
      ∙ omega (
        arith,
        rows_counted-put (appended (get r.category m) r) r.category m,
        length-appended (get r.category m) r,
      )

  -- `Aggregate` gives every category of the rows, and no other, the means of its own rows in their
  -- order with their number, and the numbers of the categories add up to the number of the
  -- queries. Over all rows it gives the number of the queries and the mean of every score, zero
  -- where there is no row.
  pub aggregate_lem :
      (run_id dataset_name : String) (now : Time) (rows : List (QueryRow F))
      → let s = aggregate f run_id dataset_name now rows in
        ((c : String) → get c s.per_category ≡ means_if_any (rows_of c rows))
        × (rows_counted s.per_category ≡ s.queries_executed)
        × (s.queries_executed ≡ length rows)
        × (s.overall_recall_at_1 ≡ mean_of f (λ r. r.recall_at_1) rows)
        × (s.overall_recall_at_3 ≡ mean_of f (λ r. r.recall_at_3) rows)
        × (s.overall_recall_at_5 ≡ mean_of f (λ r. r.recall_at_5) rows)
        × (s.overall_recall_at_8 ≡ mean_of f (λ r. r.recall_at_8) rows)
        × (s.overall_mrr ≡ mean_of f (λ r. r.mrr) rows)
        × (s.overall_ndcg ≡ mean_of f (λ r. r.ndcg) rows)
        × (s.overall_reinforcement_mean ≡ mean_of f (λ r. r.reinforcement_sum) rows)
  unfolding aggregate rows_of get rows_counted per_category_of
  aggregate_lem run_id dataset_name now [] =
      (λ c. refl, refl, refl, refl, refl, refl, refl, refl, refl, refl)
  aggregate_lem run_id dataset_name now (r ∷ rs) =
      let e = category_of_lem f r rs in
      (
        λ c. per_category_lem c (r ∷ rs),
        rows_counted-group_rows (r ∷ rs) [] ∙ omega arith,
        refl,
        ap (λ k. k.recall_at_1) e,
        ap (λ k. k.recall_at_3) e,
        ap (λ k. k.recall_at_5) e,
        ap (λ k. k.recall_at_8) e,
        ap (λ k. k.mrr) e,
        ap (λ k. k.ndcg) e,
        ap (λ k. k.reinforcement_mean) e,
      )
