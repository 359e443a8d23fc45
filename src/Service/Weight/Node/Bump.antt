-- ===== src/Service/Weight/Node/Bump.antt =====
-- The weight of a node after an implicit or an explicit bump.
use memmy.Prelude.{◌≡◌, refl, true, false, not, ◌&&◌, arith}
use memmy.Prelude.Int.{int_ltb}
use memmy.Float.{Float, IsOrdered}
use memmy.Types.{Node, increment}
use memmy.Types.Instant.{Time, since, positive, to_millis}
use memmy.Storage.Rows.{encode_node}
use memmy.Service.Config.{Config, cap_weight}
use memmy.Service.Weight.Node.{touch, decayed, refractory, effective_delta, clamp, explicit_bump}

module _ (f : Float) (ord : IsOrdered f) where
  open f use {F, lt, nought}

  -- A weight that `capWeight` returns is not negative, and not above a positive cap.
  pub cap_weight_bounds :
      (w cap : F)
      → (lt (cap_weight f w cap) nought ≡ false)
        × (not (lt nought cap && lt cap (cap_weight f w cap)) ≡ true)
  unfolding cap_weight
  cap_weight_bounds w cap =
      ground (arith, ord.lt_irrefl nought, ord.lt_irrefl cap, ord.lt_asymm nought cap)

  module _ (cfg : Config F) where
    clamp-floor : (now : Time) (w : F) → lt (clamp f cfg now w) cfg.node_floor ≡ false
    unfolding clamp
    clamp-floor now w = ground (arith, ord.lt_irrefl cfg.node_floor)

    clamp-cap :
        (now : Time) (w : F)
        → lt nought cfg.weight_cap ≡ true
        → lt cfg.weight_cap cfg.node_floor ≡ false
        → lt cfg.weight_cap (clamp f cfg now w) ≡ false
    unfolding clamp
    clamp-cap now w h k = ground (arith, ord.lt_irrefl cfg.weight_cap)

    -- Under a positive `WeightCap` that is not below `NodeFloor`, and with `<` a strict order,
    -- the weight after `Reinforce`, `Demote` or one step of `Mark` is not below the floor and
    -- not above the cap, whatever it was and whatever the delta.
    pub explicit_bump_bounds :
        (now : Time) (delta : F) (n : Node F)
        → lt nought cfg.weight_cap ≡ true
        → lt cfg.weight_cap cfg.node_floor ≡ false
        → (lt (explicit_bump f cfg now delta n).0.weight cfg.node_floor ≡ false)
          × (lt cfg.weight_cap (explicit_bump f cfg now delta n).0.weight ≡ false)
    unfolding explicit_bump touch
    explicit_bump_bounds now delta n h k =
        let w = f.add (decayed f cfg now n) (effective_delta f cfg now delta n) in
        (clamp-floor now w, clamp-cap now w h k)

    skip :
        (now : Time) (delta other : F) (n : Node F)
        → refractory f cfg now n ≡ true
        → explicit_bump f cfg now delta n ≡ explicit_bump f cfg now other n
    unfolding explicit_bump effective_delta
    skip now delta other n h = rw h refl

    -- What is stored of the node that an explicit bump leaves.
    abbrev pub stored_bump : Time → F → Node F → Node F
    stored_bump now delta n = encode_node (explicit_bump f cfg now delta n).0

    refractory-stored :
        (first later : Time) (delta : F) (n : Node F)
        → positive cfg.refractory_period ≡ true
        → int_ltb (since later (to_millis first)) cfg.refractory_period ≡ true
        → refractory f cfg later (stored_bump first delta n) ≡ true
    unfolding refractory explicit_bump touch encode_node
    refractory-stored first later delta n on inside = rw (on, inside)

    -- A node that an explicit bump touched at `first` is stored with that time in whole
    -- milliseconds. Until `RefractoryPeriod` has passed since the stored time, the node that is
    -- read back is in its refractory window: an explicit bump of it at `later` is reported as
    -- skipped, its delta has no effect at all, and it still counts the access and moves
    -- `LastTouched`.
    pub explicit_bump_refractory :
        (first later : Time) (delta again other : F) (n : Node F)
        → positive cfg.refractory_period ≡ true
        → int_ltb (since later (to_millis first)) cfg.refractory_period ≡ true
        → (explicit_bump f cfg later again (stored_bump first delta n)
            ≡ explicit_bump f cfg later other (stored_bump first delta n))
          × ((explicit_bump f cfg later again (stored_bump first delta n)).1 ≡ true)
          × ((explicit_bump f cfg later again (stored_bump first delta n)).0.last_touched ≡ later)
          × ((explicit_bump f cfg later again (stored_bump first delta n)).0.access_count
              ≡ increment (increment n.access_count))
    unfolding explicit_bump touch encode_node
    explicit_bump_refractory first later delta again other n on inside =
        let r = refractory-stored first later delta n on inside in
        (skip later again other _ r, r, refl, refl)
