-- ===== src/Eval/Metrics/Ranking.antt =====
-- What the ranking scores of internal/eval/metrics/metrics.go say of a list of hits.
use memmy.Prelude.{
  ◌&&◌, ◌==◌, ℕ, zero, suc, ◌+◌, ◌≡◌, refl, ◌∙◌, ap, Bool, true, false, List, [], ◌∷◌, ◌++◌,
  if◌then◌else◌, ltb, arith, length,
}
use memmy.Prelude.Int.{pos}
use memmy.Float.{Float}
use memmy.Eval.Metrics.{
  gold_within, recall_at, mrr_from, mrr, discount, dcg_loop, idcg_loop, is_nought, ndcg,
}

-- `n` hits that are not gold.
abbrev pub misses : ℕ → List Bool
misses zero = []
misses (suc n) = false ∷ misses n

-- The indices of the gold hits, from `i` on, and the first `n` indices from `i` on.
abbrev pub positions : ℕ → List Bool → List ℕ
positions i [] = []
positions i (true ∷ flags) = i ∷ positions (i + 1) flags
positions i (false ∷ flags) = positions (i + 1) flags

abbrev pub indices : ℕ → ℕ → List ℕ
indices i zero = []
indices i (suc n) = i ∷ indices (i + 1) n

gold_within-first : (i k : ℕ) (rest : List Bool) → gold_within k (misses i ++ true ∷ rest) ≡ ltb i k
unfolding gold_within
gold_within-first zero zero rest = ground arith
gold_within-first zero (suc k) rest = ground arith
gold_within-first (suc i) zero rest = ground arith
gold_within-first (suc i) (suc k) rest = ground (arith, gold_within-first i k rest)

first_counted : (i : ℕ) (rest : List Bool) → length (misses i ++ true ∷ rest) ≡ i + 1 + length rest
first_counted zero rest = ground arith
first_counted (suc i) rest = ground (arith, first_counted i rest)

module _ (f : Float) where
  open f use {F, div, nought, one, of_int, add}

  mrr_from-first :
      (i j : ℕ) (rest : List Bool)
      → mrr_from f j (misses i ++ true ∷ rest) ≡ div one (of_int (pos (j + i + 1)))
  unfolding mrr_from
  mrr_from-first zero j rest = ap (λ n. div one (of_int (pos n))) (omega arith)
  mrr_from-first (suc i) j rest =
      mrr_from-first i (j + 1) rest ∙ ap (λ n. div one (of_int (pos n))) (omega arith)

  -- If the first gold hit has the index `i`, counted from zero, then the recall at `k` is one where
  -- `i < k` and zero elsewhere, and the reciprocal rank is `1 / (i + 1)`.
  pub first_gold_lem :
      (i k : ℕ) (rest : List Bool)
      → (recall_at f (misses i ++ true ∷ rest) k true ≡ (if ltb i k then one else nought))
        × (mrr f (misses i ++ true ∷ rest) ≡ div one (of_int (pos (i + 1))))
  unfolding recall_at mrr
  first_gold_lem i k rest = (
    ground (
      arith,
      gold_within-first i k rest,
      gold_within-first i (length (misses i ++ true ∷ rest)) rest,
      first_counted i rest,
    ),
    mrr_from-first i 0 rest ∙ ap (λ n. div one (of_int (pos n))) (omega arith),
  )

  pub dcg_loop-misses : (m i c : ℕ) (x : F) → dcg_loop f i x c (misses m) ≡ (x, c)
  unfolding dcg_loop
  dcg_loop-misses zero i c x = refl
  dcg_loop-misses (suc m) i c x = dcg_loop-misses m (i + 1) c x

  -- The gain of hits at these indices, counted from zero: `1 / log2(index + 2)` of each, added to
  -- `sum` from the first on.
  abbrev pub gain : F → List ℕ → F
  gain sum [] = sum
  gain sum (i ∷ is) = gain (add sum (div one (f.log2 (of_int (pos (i + 2)))))) is

  dcg_loop_lem :
      (flags : List Bool) (i c : ℕ) (x : F)
      → dcg_loop f i x c flags ≡ (gain x (positions i flags), c + length (positions i flags))
  unfolding dcg_loop
  dcg_loop_lem [] i c x = ap (λ n. (x, n)) (omega arith)
  dcg_loop_lem (true ∷ flags) i c x =
      dcg_loop_lem flags (i + 1) (c + 1) (add x (discount f i))
      ∙ ap (λ n. (gain (add x (discount f i)) (positions (i + 1) flags), n)) (omega arith)
  dcg_loop_lem (false ∷ flags) i c x = dcg_loop_lem flags (i + 1) c x

  idcg_loop_lem : (n i : ℕ) (x : F) → idcg_loop f n i x ≡ gain x (indices i n)
  unfolding idcg_loop
  idcg_loop_lem zero i x = refl
  idcg_loop_lem (suc n) i x = idcg_loop_lem n (i + 1) (add x (discount f i))

  -- The quotient of a gain by the best one, where that is not zero.
  abbrev pub over_best : F → F → F
  over_best got best = if f.le best nought && f.le nought best then nought else div got best

  -- The score of the gold hits at these indices: their gain against that of as many hits in the
  -- first places, and zero where there is none.
  abbrev pub score_of : List ℕ → F
  score_of [] = nought
  score_of (i ∷ is) = over_best (gain nought (i ∷ is)) (gain nought (indices 0 (length (i ∷ is))))

  -- The normalised gain of a ranking is the gain of the indices of its gold hits, each worth
  -- `1 / log2(index + 2)` with the index counted from zero, divided by the gain of as many gold hits
  -- in the first places; it is zero where there is no gold hit or the divisor is zero.
  pub ndcg_lem : (flags : List Bool) → ndcg f flags ≡ score_of (positions 0 flags)
  unfolding ndcg
  ndcg_lem flags = rw (dcg_loop_lem flags 0 0 nought) (scored (positions 0 flags))
    where
      scored :
          (ps : List ℕ)
          → (if 0 + length ps == 0
              then nought
              else if is_nought f (idcg_loop f (0 + length ps) 0 nought)
              then nought
              else div (gain nought ps) (idcg_loop f (0 + length ps) 0 nought))
            ≡ score_of ps
      scored [] = refl
      scored (i ∷ is) =
          let counted : 0 + length (i ∷ is) ≡ suc (length is) = omega arith in
          rw (counted, idcg_loop_lem (suc (length is)) 0 nought) (ground arith)
