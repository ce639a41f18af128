-- ===== src/Ml/Bandit/Gains.antt =====
-- Small gains and what they do to an arm (ml-intelligence-03/ml/models/bandit.py): with a round trip
-- that improves by less than 5% the reward exceeds 1, and `beta` goes down.
use mathlib.Core.Path.{subst}
use native.Mathlib.Nat.{mul-le-mul_right, le_of_mul-le-mul_left}
use nimbus_net.Prelude.{
  ℕ, ◌+◌, ◌*◌, ◌≤◌, ◌<◌, ◌≡◌, refl, arith, ap, String, Option, none, some, List, [], ◌∷◌, length,
  All, Dict, lookup, lookup-insert_self,
}
use nimbus_net.Prelude.Int.{ℤ, pos, ◌+ℤ◌, ◌-ℤ◌, ◌*ℤ◌, ◌≤ℤ◌, pos_part, neg_part, -ℤ_parts, int_laws}
use nimbus_net.Ml.Bandit.{
  RegionArm, Bandit, new_arm, update, reward, observe, recommend_weights, weigh,
}

-- One observation: the round trip before, the one after, and the clock.
pub record Observation : Type 0 where
  pub old_rtt_us : ℕ
  pub new_rtt_us : ℕ
  pub now : ℕ

-- Better by less than 5%, and by at least a k-th.
pub record IsSmallGain (k : ℕ) (o : Observation) : Type 0 where
  pub small : 95 * o.old_rtt_us < 100 * o.new_rtt_us
  pub gain : k * o.new_rtt_us + o.old_rtt_us ≤ k * o.old_rtt_us
  pub better : o.new_rtt_us < o.old_rtt_us

-- After n of them `beta` is at most 1 - n/k.
record Lags (k n : ℕ) (a : RegionArm) : Type 0 where
  behind : k * pos_part a.beta + n * a.den ≤ k * a.den + k * neg_part a.beta
  positive : 0 < a.den

beta_parts :
    (b : ℤ) (d r x : ℕ)
    → let b1 = b *ℤ r +ℤ (pos r -ℤ pos x) *ℤ d in
      pos_part b1 + neg_part b * r + x * d ≡ neg_part b1 + pos_part b * r + r * d
beta_parts b d r x = omega (int_laws, ap (λ (t : ℕ). t * d) (-ℤ_parts (pos r) (pos x)))

lags_further :
    (b : ℤ) (k n d r x : ℕ)
    → k * pos_part b + n * d ≤ k * d + k * neg_part b
    → k * r + r ≤ k * x
    → let b1 = b *ℤ r +ℤ (pos r -ℤ pos x) *ℤ d in
      k * pos_part b1 + (n + 1) * (d * r) ≤ k * (d * r) + k * neg_part b1
lags_further b k n d r x h g =
    omega (
      arith,
      ap (λ (t : ℕ). k * t) (beta_parts b d r x),
      mul-le-mul_right r h,
      mul-le-mul_right d g,
    )

reward_of_gain :
    (k : ℕ) (o : Observation)
    → IsSmallGain k o
    → let w = reward o.old_rtt_us o.new_rtt_us in
      (w.den ≡ o.old_rtt_us) × (w.num + o.new_rtt_us ≡ o.old_rtt_us + o.old_rtt_us)
unfolding reward
reward_of_gain k o h = ground (arith, h.small, h.better)

gain_of_reward :
    (k : ℕ) (o : Observation)
    → IsSmallGain k o
    → let w = reward o.old_rtt_us o.new_rtt_us in k * w.den + w.den ≤ k * w.num
gain_of_reward k o h =
    let (den, num) = reward_of_gain k o h in
    omega (arith, h.gain, den, ap (λ (t : ℕ). k * t) den, ap (λ (t : ℕ). k * t) num)

update-Lags :
    (k n : ℕ) (o : Observation) (a : RegionArm)
    → IsSmallGain k o
    → Lags k n a
    → Lags k (n + 1) (update (reward o.old_rtt_us o.new_rtt_us) o.now a)
unfolding update
update-Lags k n o a h lags =
    let w = reward o.old_rtt_us o.new_rtt_us in
    record {
      behind = lags_further a.beta k n a.den w.den w.num lags.behind (gain_of_reward k o h);
      positive = grind (arith, h.better, (reward_of_gain k o h).0, lags.positive);
    }

unfoldable pub observe_all : String → List Observation → Bandit → Bandit
observe_all r [] b = b
observe_all r (o ∷ os) b = observe_all r os (observe r o.old_rtt_us o.new_rtt_us o.now b)

observe-Lags :
    (k n : ℕ) (r : String) (o : Observation) (b : Bandit) (a : RegionArm)
    → IsSmallGain k o
    → lookup r b.arms ≡ some a
    → Lags k n a
    → (a1 : RegionArm) × (lookup r (observe r o.old_rtt_us o.new_rtt_us o.now b).arms ≡ some a1)
      × Lags k (n + 1) a1
unfolding observe
observe-Lags k n r o b a gain at lags =
    let next = update-Lags k n o a gain lags in
    rw (at, observe)
      (_, lookup-insert_self r _ b.arms, record { behind = next.behind; positive = next.positive })

observe_all-Lags :
    (k n : ℕ) (r : String) (os : List Observation) (b : Bandit) (a : RegionArm)
    → All (IsSmallGain k) os
    → lookup r b.arms ≡ some a
    → Lags k n a
    → (a1 : RegionArm) × (lookup r (observe_all r os b).arms ≡ some a1) × Lags k (n + length os) a1
unfolding observe_all
observe_all-Lags k n r [] b a gains at lags =
    (a, at, subst (λ (m : ℕ). Lags k m a) (omega arith) lags)
observe_all-Lags k n r (o ∷ os) b a gains at lags =
    let (a1, at1, lags1) = observe-Lags k n r o b a gains.0 at lags in
    let (a2, at2, lags2) =
      observe_all-Lags k (n + 1) r os (observe r o.old_rtt_us o.new_rtt_us o.now b) a1 gains.1 at1
        lags1 in
    (a2, at2, subst (λ (m : ℕ). Lags k m a2) (omega arith) lags2)

-- numpy's `beta` raises for a parameter that is not positive, and with it `raw`.
pub record IsSampler (raw : Dict RegionArm → Option (Dict ℕ × ℕ)) : Type 0 where
  pub raises :
      (arms : Dict RegionArm) (r : String) (a : RegionArm)
      → lookup r arms ≡ some a
      → a.beta ≤ℤ pos 0
      → raw arms ≡ none

new_arm-Lags : (k : ℕ) (r : String) (now : ℕ) → Lags k 0 (new_arm r now)
unfolding new_arm
new_arm-Lags k r now = record { behind = omega arith; positive = omega arith }

exhausted : (k n : ℕ) (a : RegionArm) → 0 < k → k ≤ n → Lags k n a → a.beta ≤ℤ pos 0
exhausted k n a some_k h lags =
    let smaller : k * pos_part a.beta ≤ k * neg_part a.beta =
      omega (arith, lags.behind, mul-le-mul_right a.den h) in
    omega (arith, le_of_mul-le-mul_left smaller some_k)

weigh_raises :
    (raw : Dict RegionArm → Option (Dict ℕ × ℕ)) (arms : Dict RegionArm) (b : Bandit) (r : String)
    (a : RegionArm)
    → lookup r arms ≡ some a
    → raw arms ≡ none
    → weigh raw arms b ≡ none
unfolding weigh lookup
weigh_raises raw [] b r a at h = cc
weigh_raises raw (arm ∷ arms) b r a at h = rw (h, weigh) refl

-- A new region whose round trips keep getting better, each time by less than 5% and by at least a
-- k-th: after k observations its `beta` is not positive any more, and with a sampler that raises
-- for such an arm there are no weights for any region.
pub small_gains_stop_sampling :
    (raw : Dict RegionArm → Option (Dict ℕ × ℕ)) (r : String) (now k : ℕ) (os : List Observation)
    (b : Bandit)
    → IsSampler raw
    → lookup r b.arms ≡ some (new_arm r now)
    → 0 < k
    → All (IsSmallGain k) os
    → k ≤ length os
    → recommend_weights raw (observe_all r os b) ≡ none
unfolding recommend_weights
small_gains_stop_sampling raw r now k os b sampler at some_k gains enough =
    let (a, at1, lags) =
      observe_all-Lags k 0 r os b (new_arm r now) gains at (new_arm-Lags k r now) in
    let arms = (observe_all r os b).arms in
    weigh_raises raw arms (observe_all r os b) r a at1
      (sampler.raises arms r a at1 (exhausted k (0 + length os) a some_k (omega arith) lags))
