-- ===== src/Service/Weight/Node.antt =====
-- The closures that `applyNodeDecayReinforce` and `applyExplicitNodeBump` of
-- internal/service/decay.go hand to `UpdateNode`.
pub mod Bump
use memmy.Prelude.{ℕ, Bool, true, false, ◌&&◌, if◌then◌else◌}
use memmy.Prelude.Int.{ℤ, int_ltb}
use memmy.Float.{Float}
use memmy.Types.{Node, increment}
use memmy.Types.Instant.{Time, since, positive}
use memmy.Service.Config.{Config, decay, cap_weight}

module _ (f : Float) (cfg : Config f.F) (now : Time) where
  open f use {F, lt, add, sub, mul, div, nought, one}

  -- `n.Weight = w; n.LastTouched = now; n.AccessCount++`.
  unfoldable pub touch : F → Node F → Node F
  touch w n = record n { weight = w; last_touched = now; access_count = increment n.access_count }

  abbrev pub decayed : Node F → F
  decayed n = decay f n.weight cfg.node_lambda (since now n.last_touched)

  unfoldable pub reinforce_node : F → Node F → Node F
  reinforce_node delta n = touch (cap_weight f (add (decayed n) delta) cfg.weight_cap) n

  -- `s.cfg.RefractoryPeriod > 0 && now.Sub(n.LastTouched) < s.cfg.RefractoryPeriod`.
  unfoldable pub refractory : Node F → Bool
  refractory n =
      positive cfg.refractory_period && int_ltb (since now n.last_touched) cfg.refractory_period

  -- `scale`, once it is not negative.
  unfoldable pub dampening : F → F
  dampening weight =
      let scale = sub one (div weight cfg.weight_cap) in if lt scale nought then nought else scale

  unfoldable pub effective_delta : F → Node F → F
  effective_delta delta n =
      let eff = if refractory n then nought else delta in
      if lt nought eff && cfg.log_dampening && lt nought cfg.weight_cap
      then mul eff (dampening (decayed n))
      else eff

  -- The cap first, then the floor.
  unfoldable pub clamp : F → F
  clamp w =
      let capped = if lt nought cfg.weight_cap && lt cfg.weight_cap w then cfg.weight_cap else w in
      if lt capped cfg.node_floor then cfg.node_floor else capped

  -- The node after the bump, and `skipped`.
  unfoldable pub explicit_bump : F → Node F → Node F × Bool
  explicit_bump delta n =
      (touch (clamp (add (decayed n) (effective_delta delta n))) n, refractory n)
