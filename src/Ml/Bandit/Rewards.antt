-- ===== src/Ml/Bandit/Rewards.antt =====
-- Rewards and what they do to an arm (ml-intelligence-03/ml/models/bandit.py).
use nimbus_net.Prelude.{ℕ, ◌+◌, ◌*◌, ◌<◌, ◌≡◌, ◌↔◌, arith, ap, ◌∙◌}
use nimbus_net.Prelude.Int.{
  ℤ, pos, ◌+ℤ◌, ◌-ℤ◌, ◌*ℤ◌, ◌<ℤ◌, pos_part, neg_part, +ℤ_parts, -ℤ_parts, int_laws,
}
use nimbus_net.Ml.Bandit.{RegionArm, update, reward}

-- The reward is a fraction with a positive denominator, and it exceeds 1 exactly if the round trip
-- improved by less than 5%: then the last branch extrapolates instead of interpolating.
pub reward_exceeds_one :
    (old new : ℕ)
    → (0 < (reward old new).den)
      × (((reward old new).den < (reward old new).num) ↔ (95 * old < 100 * new) × (new < old))
unfolding reward
reward_exceeds_one old new = ground arith

-- An arm that counts: the sum of its parameters is 2 and one more for each decision.
pub record IsCounted (a : RegionArm) : Type 0 where
  pub positive : 0 < a.den
  pub sum : a.alpha +ℤ a.beta ≡ pos ((2 + a.total_decisions) * a.den)

mul_pos : (a b : ℕ) → 0 < a → 0 < b → 0 < a * b
mul_pos a b h k = grind arith

mul_lt : (a b c : ℕ) → a < b → 0 < c → a * c < b * c
mul_lt a b c h k = grind arith

parts_of_sum :
    (a b : ℤ) (n : ℕ) → a +ℤ b ≡ pos n → n + neg_part a + neg_part b ≡ pos_part a + pos_part b
parts_of_sum a b n h = ground (arith, +ℤ_parts a b)

shift_sum :
    (a b : ℤ) (n d x y : ℕ)
    → a +ℤ b ≡ pos (n * d)
    → (a *ℤ y +ℤ pos (x * d)) +ℤ (b *ℤ y +ℤ (pos y -ℤ pos x) *ℤ d) ≡ pos ((n + 1) * (d * y))
shift_sum a b n d x y h = omega (
  int_laws,
  ap (λ (t : ℕ). t * y) (parts_of_sum a b (n * d) h),
  ap (λ (t : ℕ). t * d) (-ℤ_parts (pos y) (pos x)),
)

-- A new arm is counted, and every observation keeps it counted, one with a reward above 1 too.
pub update-IsCounted :
    (a : RegionArm) (old new now : ℕ) → IsCounted a → IsCounted (update (reward old new) now a)
unfolding update
update-IsCounted a old new now h = record {
  positive = mul_pos a.den (reward old new).den h.positive (reward_exceeds_one old new).0;
  sum =
      shift_sum a.alpha a.beta (2 + a.total_decisions) a.den (reward old new).num
        (reward old new).den h.sum
      ∙ ap pos (omega arith);
}

-- A round trip that improves by less than 5% makes the arm look better than it can be: `beta`, the
-- count of failures, goes down (both sides are over the same denominator).
pub beta_drops :
    (a : RegionArm) (old new now : ℕ)
    → IsCounted a
    → 95 * old < 100 * new
    → new < old
    → (update (reward old new) now a).beta <ℤ a.beta *ℤ (reward old new).den
unfolding update
beta_drops a old new now h near better =
    let over = (reward_exceeds_one old new).1.1 (near, better) in
    omega (
      int_laws,
      ap (λ (t : ℕ). t * a.den) (-ℤ_parts (pos (reward old new).den) (pos (reward old new).num)),
      mul_lt (reward old new).den (reward old new).num a.den over h.positive,
    )
