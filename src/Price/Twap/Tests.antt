-- ===== src/Price/Twap/Tests.antt =====
-- The runs of price/twap_test.go, in minutes, and the laws of the engine at them.
use shai.Prelude.{
  ℕ, ◌≡◌, refl, true, false, [], ◌∷◌, some, pos, ok, err, arith, codes, ◌>>=◌, count_while,
  drop_back_while, select,
}
use shai.Big.Rat.{IsRat, gcd, lowest, quo, exact_div, ◌≤ᵣ◌}
use shai.Big.Decimal.{format}
use shai.Time.{is_zero, back, elapsed}
use shai.Price.Twap.{
  Observation, TwapConfig, TwapEngine, stale, rollback_unavailable, new_engine, observe, rollback,
  keep_from, prune, is_late, nothing_after, before_first,
}
use shai.Price.Twap.Invariant.{IsValid, new_engine-IsValid, observe-IsValid}
use shai.Price.Twap.Rollback.{rollback-select, rollback-err_iff}
use shai.Price.Twap.Snapshot.{snapshot, from_state}
use shai.Price.Twap.Snapshot.RoundTrip.{from_state-snapshot}
use shai.Price.Twap.Average.{
  twap_at, TwapResult, average, from_anchor, coverage_from, weighted_sum, weigh_all, weigh_one,
  add_weighted_price, is_finite, float_limit,
}
use shai.Price.Twap.Average.Weights.{ratio}
use shai.Price.Twap.Average.Bounds.{twap_at_bounds}

abbrev ten_minutes : TwapConfig
ten_minutes = record {
  window = pos 10;
  min_coverage = pos 10;
  max_staleness = pos 10;
  max_observations = pos 3;
}

abbrev at_minute : ℕ → ℕ → ℕ → Observation
at_minute slot t n = record { slot = slot; at = t; price = ratio n 1 }

abbrev two_prices : TwapEngine
two_prices = record {
  config = ten_minutes;
  observations = at_minute 1 85 2 ∷ at_minute 2 95 4 ∷ [];
  history_pruned = false;
}

abbrev one_price : TwapEngine
one_price = record two_prices { observations = at_minute 1 85 2 ∷ [] }

two_observed :
    (new_engine ten_minutes >>= λ e.
    observe e 1 85 (some (ratio 2 1)) >>= λ e'. observe e' 2 95 (some (ratio 4 1)))
    ≡ ok two_prices
unfolding new_engine observe prune keep_from is_late is_zero back count_while
two_observed = refl

ratio-IsRat : (n : ℕ) → gcd n 1 ≡ 1 → IsRat (ratio n 1)
ratio-IsRat n h = record { den_pos = omega arith; coprime = h }

two-IsRat : IsRat (ratio 2 1)
unfolding gcd
two-IsRat = ratio-IsRat 2 refl

four-IsRat : IsRat (ratio 4 1)
unfolding gcd
four-IsRat = ratio-IsRat 4 refl

abbrev no_prices : TwapEngine
no_prices = record two_prices { observations = [] }

empty-IsValid : IsValid no_prices
unfolding new_engine
empty-IsValid = new_engine-IsValid ten_minutes no_prices refl

one_observed : observe no_prices 1 85 (some (ratio 2 1)) ≡ ok one_price
unfolding observe prune keep_from is_late is_zero back count_while
one_observed = refl

second_observed : observe one_price 2 95 (some (ratio 4 1)) ≡ ok two_prices
unfolding observe prune keep_from is_late is_zero back count_while
second_observed = refl

one-IsValid : IsValid one_price
one-IsValid =
    observe-IsValid no_prices one_price 1 85 (ratio 2 1) empty-IsValid two-IsRat one_observed

two-IsValid : IsValid two_prices
two-IsValid =
    observe-IsValid one_price two_prices 2 95 (ratio 4 1) one-IsValid four-IsRat second_observed

observe-IsValid_example : IsValid two_prices
observe-IsValid_example =
    observe-IsValid one_price two_prices 2 95 (ratio 4 1) one-IsValid four-IsRat second_observed

one_restored : rollback two_prices 1 ≡ ok one_price
unfolding rollback nothing_after before_first drop_back_while
one_restored = refl

rollback-select_example : one_price ≡ record two_prices { observations = at_minute 1 85 2 ∷ [] }
unfolding select
rollback-select_example = rollback-select two_prices one_price 1 two-IsValid one_restored

abbrev pruned_prices : TwapEngine
pruned_prices = record two_prices { history_pruned = true }

rollback-err_iff_example : rollback pruned_prices 0 ≡ err rollback_unavailable
rollback-err_iff_example = (rollback-err_iff pruned_prices 0 two-IsValid).1 (refl, omega arith)

from_state-snapshot_example : from_state (snapshot two_prices) ≡ ok two_prices
from_state-snapshot_example = from_state-snapshot two_prices two-IsValid

abbrev average_of_two : TwapResult
average_of_two = record {
  price_num = codes "3";
  price_den = codes "1";
  window_start = 90;
  window_end = 100;
  coverage = 10;
  observation_count = 2;
  last_slot = 2;
  last_observed_at = 95;
  price = ratio 30 10;
}

two_averaged : twap_at two_prices 100 ≡ ok average_of_two
unfolding twap_at average from_anchor coverage_from weighted_sum weigh_all weigh_one
    add_weighted_price is_finite float_limit quo lowest gcd exact_div format back elapsed
    drop_back_while count_while
two_averaged = refl

twap_at_bounds_example : (ratio 2 1 ≤ᵣ average_of_two.price) × (average_of_two.price ≤ᵣ ratio 4 1)
twap_at_bounds_example =
    twap_at_bounds two_prices 100 average_of_two 2 1 4 1 two-IsValid (omega arith) (omega arith)
      two_averaged

too_old : twap_at two_prices 106 ≡ err stale
unfolding twap_at elapsed drop_back_while
too_old = refl
