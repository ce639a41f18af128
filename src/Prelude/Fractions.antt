-- ===== src/Prelude/Fractions.antt =====
-- Exact fractions of natural numbers: floats of the program that are results of a division.
use Prim.Native.Nat.{ℕ, ◌+◌, ◌*◌, ◌≤◌, ◌<◌}
use mathlib.Core.Bool.{Bool}
use mathlib.Core.List.{List, [], ◌∷◌}
use native.Mathlib.Omega.{arith}
use native.Mathlib.Nat.{one-le-mul, mul-le-mul_right}
use nimbus_net.Prelude.Tests.{ltb, leb}
use nimbus_net.Prelude.Lists.{All}

pub record Ratio : Type 0 where
  pub num : ℕ
  pub den : ℕ

-- a fraction in millionths
abbrev pub micro : ℕ → Ratio
micro n = record { num = n; den = 1000000 }

-- below and at least `percent` hundredths
abbrev pub below_pct : ℕ → Ratio → Bool
below_pct percent r = ltb (100 * r.num) (percent * r.den)

abbrev pub from_pct : ℕ → Ratio → Bool
from_pct percent r = leb (percent * r.den) (100 * r.num)

-- a/b + c/d
unfoldable pub add : Ratio → Ratio → Ratio
add x y = record { num = x.num * y.den + y.num * x.den; den = x.den * y.den }

abbrev pub scale : ℕ → Ratio → Ratio
scale k r = record { num = k * r.num; den = r.den }

abbrev pub Weighted : Type 0
Weighted = List (Ratio × ℕ)

unfoldable pub total_weight : Weighted → ℕ
total_weight [] = 0
total_weight ((r, w) ∷ rs) = w + total_weight rs

unfoldable pub weighted_sum : Weighted → Ratio
unfolding add
weighted_sum [] = record { num = 0; den = 1 }
weighted_sum ((r, w) ∷ rs) = add (scale w r) (weighted_sum rs)

unfoldable pub weighted_mean : Weighted → Ratio
unfolding total_weight weighted_sum
weighted_mean rs = record {
  num = (weighted_sum rs).num;
  den = (weighted_sum rs).den * total_weight rs;
}

abbrev pub IsUnit : Ratio → Type 0
IsUnit r = (0 < r.den) × (r.num ≤ r.den)

weighted_step :
    (a b c d w t : ℕ)
    → 0 < b
    → a ≤ b
    → 0 < d
    → c ≤ d * t
    → (0 < b * d) × (w * a * d + c * b ≤ b * d * (w + t))
weighted_step a b c d w t hb ab hd cd =
    (one-le-mul hb hd, grind (arith, mul-le-mul_right (w * d) ab, mul-le-mul_right b cd))

-- A weighted sum of fractions up to 1 is at most the total weight.
pub weighted_sum-le :
    (rs : Weighted)
    → All (λ (e : Ratio × ℕ). IsUnit e.0) rs
    → (0 < (weighted_sum rs).den)
      × ((weighted_sum rs).num ≤ (weighted_sum rs).den * total_weight rs)
unfolding weighted_sum total_weight add
weighted_sum-le [] h = (omega arith, omega arith)
weighted_sum-le ((r, w) ∷ rs) h =
    let (pos, le) = weighted_sum-le rs h.1 in
    weighted_step r.num r.den (weighted_sum rs).num (weighted_sum rs).den w (total_weight rs) h.0.0
      h.0.1 pos le
