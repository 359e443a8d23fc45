-- ===== src/Storage/Counters/Balance.antt =====
-- An adjusted counter equals a count that moved as much.
use memmy.Prelude.{
  ℕ, ◌+◌, ◌≡◌, sym, ap, ◌∙◌, String, str_eq, Bool, true, false, if◌then◌else◌, arith, Bool-cases,
  inl, inr,
}
use memmy.Prelude.Int.{ℤ, pos, neg, ◌+ℤ◌, pos_add, pos_sub}
use memmy.Float.{Float}
use memmy.Storage.Rows.{TenantCounters, PropertyGraph}
use memmy.Storage.Statement
use memmy.Storage.Statement.{add_counters}

pub count_up :
    (b : Bool) (c : ℤ) (k n n' : ℕ)
    → c ≡ pos n
    → n' ≡ n + (if b then k else 0)
    → (if b then c +ℤ pos k else c) ≡ pos n'
count_up true c k n n' h e = rw (h, pos_add) (ap pos (sym e))
count_up false c k n n' h e = rw h (ap pos (omega arith))

pub count_down :
    (b : Bool) (c : ℤ) (k n n' : ℕ)
    → c ≡ pos n
    → n' + (if b then k else 0) ≡ n
    → (if b then c +ℤ neg k else c) ≡ pos n'
count_down true c k n n' h e = rw h (pos_sub n k (omega arith) ∙ ap pos (omega arith))
count_down false c k n n' h e = rw h (ap pos (omega arith))

module _ (f : Float) (tenant : String) (delta : TenantCounters f.F) (g : PropertyGraph f.F)
    (t : String) where
  pub node_count-adjust : ((Statement.adjust f tenant delta g).counters t).node_count ≡ (
      if str_eq tenant t
      then (g.counters t).node_count +ℤ delta.node_count
      else (g.counters t).node_count)
  unfolding Statement.adjust add_counters
  node_count-adjust = elim (Bool-cases (str_eq tenant t)) [ inl e ↦ rw e | inr e ↦ rw e ]

  pub edge_count-adjust : ((Statement.adjust f tenant delta g).counters t).edge_count ≡ (
      if str_eq tenant t
      then (g.counters t).edge_count +ℤ delta.edge_count
      else (g.counters t).edge_count)
  unfolding Statement.adjust add_counters
  edge_count-adjust = elim (Bool-cases (str_eq tenant t)) [ inl e ↦ rw e | inr e ↦ rw e ]
