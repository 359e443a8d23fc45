-- ===== src/Eval/Metrics.antt =====
-- internal/eval/metrics/metrics.go: the scores of one query.
pub mod Ranking
pub mod Row
pub mod Aggregate
use memmy.Prelude.{
  ℕ, zero, suc, ◌+◌, String, str_eq, Bool, true, false, not, ◌&&◌, ◌||◌, Option, none, some, List,
  [], ◌∷◌, if◌then◌else◌, ltb, ◌==◌, length, map,
}
use memmy.Prelude.Int.{pos}
use memmy.Float.{Float}

-- The loop over the first `k` flags.
unfoldable pub gold_within : ℕ → List Bool → Bool
gold_within zero flags = false
gold_within (suc k) [] = false
gold_within (suc k) (flag ∷ flags) = flag || gold_within k flags

module _ (f : Float) where
  open f use {F, lt, add, sub, div, nought, one, of_int, log2}

  -- `k` is a positive constant in every call.
  unfoldable pub recall_at : List Bool → ℕ → Bool → F
  unfolding gold_within
  recall_at flags k has_gold =
      if not has_gold
      then nought
      else let k1 = if ltb (length flags) k then length flags else k in
        if gold_within k1 flags then one else nought

  unfoldable pub mrr_from : ℕ → List Bool → F
  mrr_from i [] = nought
  mrr_from i (flag ∷ flags) =
      if flag then div one (of_int (pos (i + 1))) else mrr_from (i + 1) flags

  unfoldable pub mrr : List Bool → F
  unfolding mrr_from
  mrr flags = mrr_from 0 flags

  -- `1.0 / math.Log2(float64(i+2))`.
  abbrev pub discount : ℕ → F
  discount i = div one (log2 (of_int (pos (i + 2))))

  -- The loop over the flags: `dcg` and `relCount`.
  unfoldable pub dcg_loop : ℕ → F → ℕ → List Bool → F × ℕ
  dcg_loop i dcg rel_count [] = (dcg, rel_count)
  dcg_loop i dcg rel_count (flag ∷ flags) =
      if flag
      then dcg_loop (i + 1) (add dcg (discount i)) (rel_count + 1) flags
      else dcg_loop (i + 1) dcg rel_count flags

  -- The loop over `i` up to `relCount`: `n` rounds are left.
  unfoldable pub idcg_loop : ℕ → ℕ → F → F
  idcg_loop zero i idcg = idcg
  idcg_loop (suc n) i idcg = idcg_loop n (i + 1) (add idcg (discount i))

  -- `idcg == 0` on floats: neither below nor above, and not a NaN.
  abbrev pub is_nought : F → Bool
  is_nought x = f.le x nought && f.le nought x

  unfoldable pub ndcg : List Bool → F
  unfolding dcg_loop idcg_loop
  ndcg flags =
      let (dcg, rel_count) = dcg_loop 0 nought 0 flags in
      let idcg = idcg_loop rel_count 0 nought in
      if rel_count == 0 then nought else if is_nought idcg then nought else div dcg idcg
