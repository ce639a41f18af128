-- ===== src/Ml/Bandit/Weights.antt =====
-- The floor of the routing weights (ml-intelligence-03/ml/models/bandit.py,
-- `_apply_minimum_weight`).
use nimbus_net.Prelude.{
  ℕ, ◌+◌, ◌*◌, ◌≤◌, ◌<◌, ◌≡◌, arith, String, [], ◌∷◌, length, Bool, count_if, ltb, Dict, lookup,
  some, ap, ◌∙◌,
}
use nimbus_net.Ml.Bandit.{clip, clip_all, total, apply_minimum_weight}

abbrev pub is_below : ℕ → String × ℕ → Bool
is_below s e = ltb (20 * e.1) s

total-clip_all :
    (s : ℕ) (ws : Dict ℕ)
    → (20 * total ws + count_if (is_below s) ws ≤ total (clip_all s ws))
      × (total (clip_all s ws) ≤ 20 * total ws + s * length ws)
unfolding total clip_all clip
total-clip_all s [] = omega arith
total-clip_all s ((r, w) ∷ ws) = ground (arith, total-clip_all s ws)

total-clip_none :
    (s : ℕ) (ws : Dict ℕ) → count_if (is_below s) ws ≡ 0 → total (clip_all s ws) ≡ 20 * total ws
unfolding total clip_all clip
total-clip_none s [] h = omega arith
total-clip_none s ((r, w) ∷ ws) h = ground (arith, total-clip_none s ws)

lookup-clip_all :
    (s : ℕ) (r : String) (w : ℕ) (ws : Dict ℕ)
    → lookup r ws ≡ some w
    → lookup r (clip_all s ws) ≡ some (clip s w)
unfolding lookup clip_all
lookup-clip_all s r w [] h = cc
lookup-clip_all s r w ((k, v) ∷ ws) h = ground (arith, lookup-clip_all s r w ws)

below_of_lookup :
    (s : ℕ) (r : String) (w : ℕ) (ws : Dict ℕ)
    → lookup r ws ≡ some w
    → count_if (is_below s) ws ≡ 0
    → s ≤ 20 * w
unfolding lookup
below_of_lookup s r w [] h k = cc
below_of_lookup s r w ((j, v) ∷ ws) h k = ground (arith, below_of_lookup s r w ws)

s-le-clip : (s w : ℕ) → (s ≤ clip s w) × (20 * w ≤ clip s w)
unfolding clip
s-le-clip s w = omega arith

-- What the floor guarantees. Raw weights over s that add up to 1, that is to s: after the floor the
-- weight of each of the n regions is at least 1/(20 + n).
pub floor_bound :
    (s : ℕ) (ws : Dict ℕ) (r : String) (w : ℕ)
    → total ws ≡ s
    → lookup r ws ≡ some w
    → (c : ℕ) × (lookup r (apply_minimum_weight s ws).0 ≡ some c)
      × ((apply_minimum_weight s ws).1 ≤ c * (20 + length ws))
unfolding apply_minimum_weight
floor_bound s ws r w sum at =
    (clip s w, lookup-clip_all s r w ws at, grind (arith, total-clip_all s ws, s-le-clip s w))

-- The floor of 1/20 is not kept: as soon as some region's raw weight is below it, every region
-- whose raw weight is at or below the floor ends with less than 1/20.
pub floor_broken :
    (s : ℕ) (ws : Dict ℕ) (r : String) (w : ℕ)
    → total ws ≡ s
    → 0 < count_if (is_below s) ws
    → lookup r ws ≡ some w
    → 20 * w ≤ s
    → (c : ℕ) × (lookup r (apply_minimum_weight s ws).0 ≡ some c)
      × (20 * c < (apply_minimum_weight s ws).1)
unfolding apply_minimum_weight clip
floor_broken s ws r w sum below at low =
    (clip s w, lookup-clip_all s r w ws at, omega (arith, total-clip_all s ws))

-- Where no raw weight is below the floor, the weights stay as they are: 20 * w over 20 * s.
pub floor_idle :
    (s : ℕ) (ws : Dict ℕ) (r : String) (w : ℕ)
    → total ws ≡ s
    → count_if (is_below s) ws ≡ 0
    → lookup r ws ≡ some w
    → (lookup r (apply_minimum_weight s ws).0 ≡ some (20 * w))
      × ((apply_minimum_weight s ws).1 ≡ 20 * s)
unfolding apply_minimum_weight clip
floor_idle s ws r w sum none_below at = (
  lookup-clip_all s r w ws at ∙ ap some (omega (arith, below_of_lookup s r w ws at none_below)),
  omega (arith, total-clip_none s ws none_below),
)
