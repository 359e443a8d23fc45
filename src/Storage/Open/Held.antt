-- ===== src/Storage/Open/Held.antt =====
-- Which drivers are open after the storage's `Open` and `Close`.
use memmy.Prelude.{if_both, ℕ, ◌≡◌, refl, ap, ◌∙◌, arith, str_eq, some, List, ◌∷◌}
use memmy.Prelude.Int.{ℤ, pos, int_ltb}
use memmy.Types.Instant.{Time}
use memmy.Storage.Session.{Result, ok, err}
use memmy.Storage.Open.{
  Storage, Bolt, Drivers, without, open_storage, close, dial, dialed, verified, with_defaults,
}
use memmy.Storage.Open as Neo4j

without-head : (h : ℕ) (ks : List ℕ) → without h (h ∷ ks) ≡ ks
without-head h ks = ground arith

module _ (bolt : Bolt) (real : ℕ → Time) where
  -- An opened storage holds the newest driver; a refused one leaves none open.
  abbrev pub Held : ℤ → List ℕ → Result Storage × Drivers → Type 0
  Held dim ks (err e, p) = p.open_ones ≡ ks
  Held dim ks (ok st, p) = (h : ℕ) × (st.driver ≡ some h) × (p.open_ones ≡ h ∷ ks) × (st.dim ≡ dim)

  dial-Held : (o : Neo4j.Options) (p : Drivers) → Held o.dim p.open_ones (dial bolt real o p)
  dial-Held o p = by_driver (bolt.new_driver o.uri o.username o.password)
    where
      by_connection :
          (h : ℕ) (r : Result (Unit {0})) (q : Drivers)
          → q.open_ones ≡ h ∷ p.open_ones
          → Held o.dim p.open_ones (verified bolt real o h r q)
      by_connection h (err e) q g = ap (without h) g ∙ without-head h p.open_ones
      by_connection h (ok u) q g = (h, refl, g, refl)

      by_driver : (r : Result (Unit {0})) → Held o.dim p.open_ones (dialed bolt real o r p)
      by_driver (err e) = refl
      by_driver (ok u) =
          by_connection p.made (bolt.verify_connectivity p.made o.connect_timeout) _ refl

  pub open_storage-Held :
      (o : Neo4j.Options) (p : Drivers) → Held o.dim p.open_ones (open_storage bolt real o p)
  unfolding open_storage
  open_storage-Held o p =
      if_both (Held o.dim p.open_ones) (str_eq o.uri "") (λ b. refl)
        (λ b.
          if_both (Held o.dim p.open_ones) (str_eq o.username "") (λ b. refl)
            (λ b.
              if_both (Held o.dim p.open_ones) (str_eq o.password "") (λ b. refl)
                (λ b.
                  if_both (Held o.dim p.open_ones) (int_ltb o.dim (pos 1)) (λ b. refl)
                    (λ b.
                      if_both (Held o.dim p.open_ones) (int_ltb o.flat_scan_threshold (pos 0))
                        (λ b. refl) (λ b. dial-Held (with_defaults bolt real o) p)))))

  pub close-open_ones :
      (st : Storage) (p : Drivers) (h : ℕ) (ks : List ℕ)
      → st.driver ≡ some h
      → p.open_ones ≡ h ∷ ks
      → (close bolt real st p).2.open_ones ≡ ks
  unfolding close
  close-open_ones st p h ks e g = rw (e, g) (without-head h ks)
