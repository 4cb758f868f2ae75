-- ===== src/Price/AdaUsd/Aggregate.antt =====
-- price/ada_usd.go: the local ADA/USD price. An error comes with the Result that the Go function
-- returns beside it; the method, the float64 fields and the age are left out, and now serves only the
-- age.
pub mod Agreement
mod Tests
use shai.Prelude.{
  ℕ, zero, suc, ℤ, pos, ltb_ℤ, Bool, true, false, not, ◌&&◌, List, [], ◌∷◌, Option, none, some,
  Bytes, codes, bytes_eq, ltb, if◌then◌else◌, Dict, insert, length, Result, ok, err, ◌>>=◌, ◌>>◌,
  guard,
}
use shai.Time.{Time, zero_time, is_zero}
use shai.Dex.Pool.{PoolState}
use shai.Big.Rat.{Rat, lt_rat, sub, quo}
use shai.Price.Twap.Average.{is_finite}
use shai.Price.AdaUsd.{
  PriceError, insufficient_observations, insufficient_diversity, concentrated_liquidity,
  divergent_prices, non_finite_price, PoolObservation, liquidity_weighted_median,
}
use shai.Price.AdaUsd.Pools.{Config, validate_config, observations_from_pools}

-- Result of price/ada_usd.go: `qualified` is the validation, and a nil price is `none`.
pub record Aggregate : Type 0 where
  pub pair : Bytes
  pub source : Bytes
  pub qualified : Bool
  pub observed_at : Time
  pub price : Option Rat
  pub observations : List PoolObservation

abbrev pub Outcome : Type 0 → Type 0
Outcome A = Result (Aggregate × PriceError) A

abbrev pub ada_usd_pair : Bytes
ada_usd_pair = codes "ADA/USD"

-- SourceLocalDEXStablecoins
abbrev pub dex_stablecoins_source : Bytes
dex_stablecoins_source = codes "local-dex-stablecoins"

-- Result{}
abbrev pub empty_result : Aggregate
empty_result = record {
  pair = [];
  source = [];
  qualified = false;
  observed_at = 0;
  price = none;
  observations = [];
}

unfoldable pub unavailable : List PoolObservation → Aggregate
unfolding zero_time
unavailable observations = record {
  pair = ada_usd_pair;
  source = dex_stablecoins_source;
  qualified = false;
  observed_at = zero_time;
  price = none;
  observations = observations;
}

-- `if err != nil { return result, err }`
abbrev pub with_result : {A : Type 0} → Aggregate → Result PriceError A → Outcome A
with_result result (ok a) = ok a
with_result result (err x) = err (result, x)

unfoldable pub symbols_of : List PoolObservation → Dict Bytes (Unit {0})
symbols_of [] = []
symbols_of (o ∷ os) = insert o.stablecoin tt (symbols_of os)

unfoldable pub shares_within : Rat → ℕ → List PoolObservation → Bool
shares_within max_pool_share total [] = true
shares_within max_pool_share total (o ∷ os) =
    not (lt_rat max_pool_share (record { num = pos o.stable_micros; den = total }))
    && shares_within max_pool_share total os

-- The loop over the prices, from the first one.
unfoldable pub lowest_price : Rat → List PoolObservation → Rat
lowest_price low [] = low
lowest_price low (o ∷ os) = lowest_price (if lt_rat o.price low then o.price else low) os

unfoldable pub highest_price : Rat → List PoolObservation → Rat
highest_price high [] = high
highest_price high (o ∷ os) = highest_price (if lt_rat high o.price then o.price else high) os

-- (max - min) / min; at least one observation is there, since the minimum count is positive.
unfoldable pub spread_of : List PoolObservation → Rat
spread_of [] = record { num = pos 0; den = 1 }
spread_of (o ∷ os) =
    let low = lowest_price o.price (o ∷ os) in quo (sub (highest_price o.price (o ∷ os)) low) low

-- The earliest known time of an observation.
unfoldable pub earliest : Time → List PoolObservation → Time
unfolding is_zero
earliest at [] = at
earliest at (o ∷ os) =
    earliest
      (if is_zero o.observed_at
        then at
        else if is_zero at
        then o.observed_at
        else if ltb o.observed_at at
        then o.observed_at
        else at)
      os

-- The checks on the observations.
unfoldable pub aggregate_observations : Config → List PoolObservation → Outcome Aggregate
unfolding symbols_of
aggregate_observations config observations =
    let result = unavailable observations in
    do
      guard (not (ltb_ℤ (pos (length observations)) config.min_observations))
          (result, insufficient_observations)
      guard (not (ltb_ℤ (pos (length (symbols_of observations))) config.min_stablecoins))
          (result, insufficient_diversity)
      (median, total) ← with_result result (liquidity_weighted_median observations)
      guard (shares_within config.max_pool_share total observations)
          (result, concentrated_liquidity)
      guard (is_finite (spread_of observations)) (result, non_finite_price)
      guard (not (lt_rat config.max_divergence (spread_of observations))) (result, divergent_prices)
      guard (is_finite median) (record result { price = some median }, non_finite_price)
      ok (record {
        pair = result.pair;
        source = result.source;
        qualified = true;
        observed_at = earliest result.observed_at observations;
        price = some median;
        observations = observations;
      })

-- AggregateADAUSDAt
unfoldable pub aggregate_ada_usd : Config → List (Option PoolState) → Outcome Aggregate
aggregate_ada_usd config pools = do
  with_result empty_result (validate_config config)
  observations ← with_result empty_result (observations_from_pools config pools)
  aggregate_observations config observations
