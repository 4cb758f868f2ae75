-- ===== src/Price/AdaUsd/Tests.antt =====
-- Pools of price/ada_usd_test.go's kind, and the laws of their median.
use shai.Prelude.{ℕ, ◌≡◌, ◌≤◌, refl, [], ◌∷◌, ok, arith, codes, List, ◌+◌}
use shai.Big.Rat.{Rat, ◌≤ᵣ◌}
use shai.Price.Twap.Average.Weights.{ratio, IsBetween}
use shai.Price.AdaUsd.{PoolObservation, sort_prices, liquidity_weighted_median}
use shai.Price.AdaUsd.Median.{
  liquidity_weighted_median-total, liquidity_weighted_median-Inside, liquidity,
}
use shai.Price.AdaUsd.Split.{IsFraction, below, above}
use shai.Price.AdaUsd.Halves.{liquidity_weighted_median-halves}

abbrev observed : ℕ → ℕ → PoolObservation
observed weight price = record {
  pool_id = codes "p";
  protocol = codes "d";
  stablecoin = codes "USDM";
  ada_reserve = 1000;
  stable_reserve = 350;
  stable_micros = weight;
  slot = 1;
  block_hash = [];
  tx_hash = [];
  tx_index = 0;
  observed_at = 0;
  stable_volume_micros = 0;
  swap_count = 0;
  activity_slots = 0;
  price = ratio price 100;
}

abbrev three : List PoolObservation
three = observed 10 36 ∷ observed 50 34 ∷ observed 45 35 ∷ []

median_of_three : liquidity_weighted_median three ≡ ok (ratio 35 100, 105)
unfolding liquidity_weighted_median sort_prices
median_of_three = refl

liquidity_weighted_median-total_example :
    (m : Rat) × (liquidity_weighted_median three ≡ ok (m, 105))
liquidity_weighted_median-total_example =
    liquidity_weighted_median-total three (refl, (refl, (refl, tt))) (omega arith) (omega arith)

price-IsBetween :
    (weight n : ℕ) → 34 ≤ n → n ≤ 36 → IsBetween 34 100 36 100 (observed weight n).price
price-IsBetween weight n h k = record {
  num = n;
  num_eq = refl;
  den_pos = omega arith;
  low = omega arith;
  high = omega arith;
}

liquidity_weighted_median-Inside_example :
    (ratio 34 100 ≤ᵣ ratio 35 100) × (ratio 35 100 ≤ᵣ ratio 36 100)
liquidity_weighted_median-Inside_example =
    liquidity_weighted_median-Inside 34 100 36 100 three (ratio 35 100) 105
      (
        price-IsBetween 10 36 (omega arith) (omega arith),
        (
          price-IsBetween 50 34 (omega arith) (omega arith),
          (price-IsBetween 45 35 (omega arith) (omega arith), tt),
        ),
      )
      median_of_three

price-IsFraction : (weight n : ℕ) → IsFraction (observed weight n).price
price-IsFraction weight n = record { num = n; num_eq = refl; den_pos = omega arith }

liquidity_weighted_median-halves_example :
    (105 ≡ liquidity three)
    × (below (ratio 35 100) three + below (ratio 35 100) three ≤ 105)
    × (above (ratio 35 100) three + above (ratio 35 100) three ≤ 105)
liquidity_weighted_median-halves_example =
    liquidity_weighted_median-halves three (ratio 35 100) 105
      (price-IsFraction 10 36, (price-IsFraction 50 34, (price-IsFraction 45 35, tt)))
      median_of_three
