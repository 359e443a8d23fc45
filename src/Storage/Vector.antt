-- ===== src/Storage/Vector.antt =====
-- internal/storage/neo4j/vectorindex.go. A vector of `float32` is a list of numbers of `F`.
use memmy.Prelude.{
  ℕ, zero, suc, ◌*◌, ◌%◌, ◌^◌, String, Bool, not, ◌&&◌, List, [], ◌∷◌, if◌then◌else◌, ltb, leb,
  ◌==◌, length, map,
}
use memmy.Prelude.Int.{ℤ, pos, negsuc, int_ltb}
use memmy.Float.{Float}
use memmy.Storage.Database.{Database}
use memmy.Storage.Session.{
  message, ok, M, pure, throw, ◌>>=◌, with_write_session, with_read_session,
}

module _ (f : Float) where
  open f use {F, add, sub, mul, div, nought, one}

  pub record VectorHit : Type 0 where
    pub node_id : String
    pub sim : F

  abbrev pub is_nought : F → Bool
  is_nought x = f.le x nought && f.le nought x

  unfoldable pub sum_squares : F → List F → F
  sum_squares sum [] = sum
  sum_squares sum (x ∷ xs) = sum_squares (add sum (mul x x)) xs

  -- `narrow` rounds to `float32`.
  unfoldable pub l2_normalize : List F → List F
  unfolding sum_squares
  l2_normalize vec =
      let sum = sum_squares nought vec in
      let inv = f.narrow (div one (f.sqrt sum)) in
      if is_nought sum then vec else map (λ x. f.narrow (mul x inv)) vec

  -- `2*s - 1`.
  unfoldable pub neo4j_cos_to_std : F → F
  neo4j_cos_to_std s = sub (mul (add one one) s) one

  abbrev pub hits_of : List (String × F) → List VectorHit
  hits_of rows = map (λ r. record { node_id = r.0; sim = neo4j_cos_to_std r.1 }) rows

  -- `int64(n * 4)` of a positive `int`, and `n` where the product wraps around below it.
  unfoldable pub probe_size : ℕ → ℕ
  probe_size n =
      let probe = n * 4 % 2 ^ 64 in
      if leb (2 ^ 63) probe then n else if ltb probe n then n else probe

  module _ (d : Database f) (dim : ℕ) (flat_scan_threshold : ℤ) (commits : ℕ → Bool) where
    open d use {Db}

    unfoldable pub insert : String → String → List F → M Db (Unit {0})
    unfolding l2_normalize
    insert tenant node_id vec =
        if not (length vec == dim)
        then throw (message "neo4jstore: insert vector len")
        else with_write_session commits
            (λ db. (ok tt, d.set_embedding tenant node_id (l2_normalize vec) dim db))

    -- `Delete`.
    unfoldable pub delete_vector : String → String → M Db (Unit {0})
    delete_vector tenant node_id =
        with_write_session commits (λ db. (ok tt, d.tombstone tenant node_id db))

    unfoldable pub size : String → M Db ℕ
    size tenant = with_read_session commits (λ db. ok (d.count_live tenant db))

    unfoldable pub flat_scan : String → List F → ℕ → M Db (List VectorHit)
    unfolding neo4j_cos_to_std
    flat_scan tenant q n =
        with_read_session commits (λ db. ok (hits_of (d.scan_similar tenant q n db)))

    unfoldable pub native_index_search : String → List F → ℕ → M Db (List VectorHit)
    unfolding neo4j_cos_to_std probe_size
    native_index_search tenant q n =
        with_read_session commits (λ db. ok (hits_of (d.query_index (probe_size n) tenant q n db)))

    abbrev pub search_sized : String → List F → ℕ → ℕ → M Db (List VectorHit)
    search_sized tenant q n live =
        if not (int_ltb flat_scan_threshold (pos live))
        then flat_scan tenant q n
        else native_index_search tenant q n

    abbrev pub search_some : String → List F → ℤ → M Db (List VectorHit)
    search_some tenant q (pos zero) = pure []
    search_some tenant q (pos (suc n)) = do
      live ← size tenant
      search_sized tenant (l2_normalize q) (suc n) live
    search_some tenant q (negsuc n) = pure []

    unfoldable pub search : String → List F → ℤ → M Db (List VectorHit)
    unfolding size flat_scan native_index_search l2_normalize
    search tenant q n =
        if not (length q == dim)
        then throw (message "neo4jstore: query vector len")
        else search_some tenant q n
